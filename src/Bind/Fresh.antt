-- ===== src/Bind/Fresh.antt =====
-- The bind of an entity that is not in the database yet.
use beeorm.Prelude.{
  ℕ, ◌+◌, ◌≡◌, refl, ap, ◌∙◌, Bool, true, false, Bool-cases, ◌||◌, not, inl, inr, if◌then◌else◌,
  List, [], ◌∷◌, Text, Map, Result, ok,
}
use beeorm.Serializer.{Serializer, Reader, pure, ◌>>=◌, reset, read_byte, deserialize_uinteger}
use beeorm.Orm.{
  Platform, Kind, ref, uinteger, integer, boolean, float, time, date, fake_delete, string,
  uinteger_nullable, integer_nullable, string_enum, bytes, string_set, boolean_nullable,
  float_nullable, time_nullable, date_nullable, json, refs_many, Value, Column,
}
use beeorm.Orm.Order.{serialize_order, build_order-eq}
use beeorm.Orm.Cells.{lift}
use beeorm.Orm.Entity.{Elem}
use beeorm.Bind.{Formats, Context, BindBuilder, Compared, BindValue, build_column, finish}
use beeorm.Bind.Scalars.{skip_id}
use beeorm.Bind.Strings.{is_empty}
use beeorm.Bind.Build.{
  build_cell, build_columns, build, TableSchema, Orm, mark_deleted, context_of, new_bind_builder,
  build_dirty_bind,
}
use beeorm.Bind.Compare.{add, is_identifier}
use beeorm.Bind.Aligned.{bind_ok}
use beeorm.Bind.Bound.{HasName, IsValid, add-Bound}
use beeorm.Bind.Changes.{AreValid}
use beeorm.Bind.Outcome.{mark_in_db}

module _ (p : Platform) (f : Formats p) (c : Context) where
  column-fresh :
      (old : Map Text (BindValue p) → Reader (Compared p))
      (to_add : BindBuilder p → Result (BindBuilder p)) (b : BindBuilder p) (s : Serializer)
      → c.in_db ≡ false
      → build_column p c old to_add b s ≡ lift (to_add b) s
  unfolding build_column
  column-fresh old to_add b s fresh =
      ap
        (λ (t : Bool).
          (if t then (old b.current >>= λ k. lift (finish p c to_add b k)) else lift (to_add b)) s)
        fresh

  field-fresh :
      (name : Text) (path : List ℕ) (k : Kind) (new : Value p k) (b : BindBuilder p)
      (s : Serializer)
      → c.in_db ≡ false
      → is_identifier p f c path k ≡ false
      → build_cell p f c name path k new b s ≡ lift (add p f c name k new b) s
  unfolding build_cell add is_identifier
  field-fresh name path ref new b s fresh other = column-fresh _ _ b s fresh
  field-fresh name path (uinteger size) new b s fresh other = rw other (column-fresh _ _ b s fresh)
  field-fresh name path (integer size) new b s fresh other = column-fresh _ _ b s fresh
  field-fresh name path boolean new b s fresh other = column-fresh _ _ b s fresh
  field-fresh name path (float precision is_single) new b s fresh other = column-fresh _ _ b s fresh
  field-fresh name path time new b s fresh other = column-fresh _ _ b s fresh
  field-fresh name path date new b s fresh other = column-fresh _ _ b s fresh
  field-fresh name path fake_delete new b s fresh other = column-fresh _ _ b s fresh
  field-fresh name path string new b s fresh other = column-fresh _ _ b s fresh
  field-fresh name path (uinteger_nullable size) new b s fresh other = column-fresh _ _ b s fresh
  field-fresh name path (integer_nullable size) new b s fresh other = column-fresh _ _ b s fresh
  field-fresh name path (string_enum e) new b s fresh other = column-fresh _ _ b s fresh
  field-fresh name path bytes new b s fresh other = column-fresh _ _ b s fresh
  field-fresh name path (string_set e) new b s fresh other = column-fresh _ _ b s fresh
  field-fresh name path boolean_nullable new b s fresh other = column-fresh _ _ b s fresh
  field-fresh name path (float_nullable precision is_single) new b s fresh other =
      column-fresh _ _ b s fresh
  field-fresh name path time_nullable new b s fresh other = column-fresh _ _ b s fresh
  field-fresh name path date_nullable new b s fresh other = column-fresh _ _ b s fresh
  field-fresh name path json new b s fresh other = column-fresh _ _ b s fresh
  field-fresh name path refs_many new b s fresh other = column-fresh _ _ b s fresh

  skipped :
      (name : Text) (path : List ℕ) (k : Kind) (new : Value p k) (b : BindBuilder p)
      (s : Serializer)
      → is_identifier p f c path k ≡ true
      → build_cell p f c name path k new b s ≡ skip_id p f c name b s
  unfolding build_cell is_identifier
  skipped name path ref new b s is = cc
  skipped name path (uinteger size) new b s is = rw is refl
  skipped name path (integer size) new b s is = cc
  skipped name path boolean new b s is = cc
  skipped name path (float precision is_single) new b s is = cc
  skipped name path time new b s is = cc
  skipped name path date new b s is = cc
  skipped name path fake_delete new b s is = cc
  skipped name path string new b s is = cc
  skipped name path (uinteger_nullable size) new b s is = cc
  skipped name path (integer_nullable size) new b s is = cc
  skipped name path (string_enum e) new b s is = cc
  skipped name path bytes new b s is = cc
  skipped name path (string_set e) new b s is = cc
  skipped name path boolean_nullable new b s is = cc
  skipped name path (float_nullable precision is_single) new b s is = cc
  skipped name path time_nullable new b s is = cc
  skipped name path date_nullable new b s is = cc
  skipped name path json new b s is = cc
  skipped name path refs_many new b s is = cc

  -- A builder in which all names are kept, and the columns from an index on have one but the identifier.
  abbrev pub Keeps : BindBuilder p → BindBuilder p → Type 0
  Keeps b b' = (j : Text) → HasName p j b → HasName p j b'

  abbrev pub AllNamed : BindBuilder p → ℕ → List Column → Type 0
  AllNamed b i [] = Unit
  AllNamed b i (col ∷ cols) =
      (is_identifier p f c col.path col.kind ≡ false → HasName p (c.column_names i) b)
      × AllNamed b (i + 1) cols

  cell-fresh :
      (name : Text) (path : List ℕ) (k : Kind) (new : Value p k) (b : BindBuilder p)
      (s : Serializer)
      → c.in_db ≡ false
      → IsValid p f c name k new
      → (b' : BindBuilder p) × (s' : Serializer) × (build_cell p f c name path k new b s
          ≡ ok (b', s'))
        × Keeps b b'
        × (is_identifier p f c path k ≡ false → HasName p name b')
  unfolding skip_id deserialize_uinteger
  cell-fresh name path k new b s fresh valid = elim (Bool-cases (is_identifier p f c path k)) [
    | inl is ↦ (b, _, skipped name path k new b s is, λ j h. h, λ other. cc)
    | inr other ↦
        let (b', e, filled, names) = add-Bound p f c name k new b valid in
        (
          b',
          s,
          field-fresh name path k new b s fresh other ∙ ap (λ r. lift r s) e,
          names.keeps,
          λ h. names.binds,
        )
  ]

  columns-fresh :
      (new : Elem p) (i : ℕ) (cols : List Column) (b : BindBuilder p) (s : Serializer)
      → c.in_db ≡ false
      → AreValid p f c new i cols
      → (b' : BindBuilder p) × (s' : Serializer) × (build_columns p f c new i cols b s
          ≡ ok (b', s'))
        × Keeps b b'
        × AllNamed b' i cols
  unfolding build_columns
  columns-fresh new i [] b s fresh valid = (b, s, refl, λ j h. h, tt)
  columns-fresh new i (col ∷ cols) b s fresh valid =
      let name = c.column_names i in
      let (b1, s1, e1, keeps1, named1) =
        cell-fresh name col.path col.kind (new col.path col.kind) b s fresh valid.0 in
      let (b2, s2, e2, keeps2, named2) = columns-fresh new (i + 1) cols b1 s1 fresh valid.1 in
      (
        b2,
        s2,
        bind_ok (build_cell p f c name col.path col.kind (new col.path col.kind) b)
              (build_columns p f c new (i + 1) cols) s s1 b1 e1
            ∙ e2,
        λ j h. keeps2 j (keeps1 j h),
        (λ other. keeps2 name (named1 other), named2),
      )

-- `buildDirtyBind` of an entity that is new returns when the values of its enums are allowed, whatever its binary
-- form: it is dirty, and the bind has a value under the name of every column but the identifier's.
pub build_dirty_bind-AllNamed :
    (p : Platform) (f : Formats p) (t : TableSchema) (o : Orm p) (s : Serializer)
    → o.in_db ≡ false
    → AreValid p f
        (context_of p t (mark_deleted p t o))
        (mark_deleted p t o).elem
        0
        (serialize_order [] t.schema.fields)
    → let marked = mark_deleted p t o in
      (b : BindBuilder p) × (s' : Serializer) × (build_dirty_bind p f t o s
        ≡ ok (((b, true), marked), s'))
      × AllNamed p f (context_of p t marked) b 0 (serialize_order [] t.schema.fields)
unfolding build_dirty_bind build deserialize_uinteger
build_dirty_bind-AllNamed p f t o s fresh valid =
    let marked = mark_deleted p t o in
    let c = context_of p t marked in
    let cols = serialize_order [] t.schema.fields in
    let absent : c.in_db ≡ false = mark_in_db p t o ∙ fresh in
    let run = build p f c t.schema.fields marked.elem (new_bind_builder p) in
    let from = reset marked.binary s in
    let (b, s', got, kept, named) =
      columns-fresh p f c marked.elem 0 cols (new_bind_builder p)
        (p.binary.read_uvarint read_byte from).1 absent valid in
    let read : run from ≡ ok (b, s') =
      ap
        (λ l.
          build_columns p f c marked.elem 0 l (new_bind_builder p)
            (p.binary.read_uvarint read_byte from).1)
        (build_order-eq [] t.schema.fields)
      ∙ got in
    let answer = λ (x : BindBuilder p).
      pure ((x, not marked.in_db || (marked.delete || not (is_empty x.bind))), marked) in
    (
      b,
      s',
      bind_ok run answer from s' b read
          ∙ ap (λ d. ok (((b, not d || (marked.delete || not (is_empty b.bind))), marked), s'))
              absent,
      named,
    )
