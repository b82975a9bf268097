-- ===== src/Bind/Dirty.antt =====
-- The builder goes in step with the binary form of the old entity.
use beeorm.Prelude.{
  ℕ, ◌+◌, ◌^◌, ◌<◌, ◌≡◌, sym, ap, subst, ◌∙◌, true, Bool-cases, inl, inr, if◌then◌else◌, List, [],
  ◌∷◌, ◌++◌, append-nil, append_assoc, All, Text, Result, ok,
}
use beeorm.Serializer.{
  Serializer, Writer, Reader, ◌>>=◌, read_all, reset, serialize_uinteger, deserialize_uinteger,
}
use beeorm.Serializer.Bytes.{Codec, ◌>>>◌, Writes-then, uinteger-Codec}
use beeorm.Orm.{
  Platform, Kind, ref, uinteger, integer, boolean, float, time, date, fake_delete, string,
  uinteger_nullable, integer_nullable, string_enum, bytes, string_set, boolean_nullable,
  float_nullable, time_nullable, date_nullable, json, refs_many, Value, Column,
}
use beeorm.Orm.Order.{serialize_order, build_order-eq}
use beeorm.Orm.Cells.{serialize_cell}
use beeorm.Orm.Cells.Kept.{Fits}
use beeorm.Orm.Entity.{Schema, Elem, serialize_columns, serialize_fields, serialize}
use beeorm.Orm.RoundTrip.{FitsColumn}
use beeorm.Bind.{Formats, Context, BindBuilder}
use beeorm.Bind.Scalars.{skip_id}
use beeorm.Bind.Build.{build_cell, build_columns, build}
use beeorm.Bind.Compare.{same, shown, add, decide, is_identifier, compare_cell, compare_columns}
use beeorm.Bind.Aligned.{Gives, Aligned, Aligned-bind, Aligned-nil, Aligned-then, bind_ok}
use beeorm.Bind.Cells.{field-Aligned}

-- A value is read and not used.
Aligned-after :
    {A B C : Type 0} {w w' : Writer} {r : Reader A} {v : A} (next : B → Reader C) (k : B → Result C)
    → Codec w r v
    → Aligned w' next k
    → Aligned (w >>> w') (λ b. r >>= λ a. next b) k
Aligned-after {r = r} {v = v} next k c h = record {
  bytes = c.bytes ++ h.bytes;
  writes = Writes-then c.writes h.writes;
  takes = λ b. record {
    gives = λ s rest e.
        let (s1, got, left) =
          c.reads.takes s (h.bytes ++ rest) (e ∙ append_assoc c.bytes h.bytes rest) in
        subst (λ out. Gives (k b) out rest) (sym (bind_ok r (λ a. next b) s s1 v got))
          ((h.takes b).gives s1 rest left);
  };
}

module _ (p : Platform) (f : Formats p) (c : Context) where
  skip-Aligned :
      (name : Text) (path : List ℕ) (k : Kind) (old new : Value p k)
      → Fits p k old
      → is_identifier p f c path k ≡ true
      → Aligned (serialize_cell p k old) (build_cell p f c name path k new) (λ b. ok b)
  unfolding serialize_cell build_cell skip_id Fits is_identifier
  skip-Aligned name path (uinteger size) old new h is =
      rw is (Aligned-bind (λ b a. ok b) (uinteger-Codec p.binary old h.0))
  skip-Aligned name path ref old new h is = cc
  skip-Aligned name path (integer size) old new h is = cc
  skip-Aligned name path boolean old new h is = cc
  skip-Aligned name path (float precision is_single) old new h is = cc
  skip-Aligned name path time old new h is = cc
  skip-Aligned name path date old new h is = cc
  skip-Aligned name path fake_delete old new h is = cc
  skip-Aligned name path string old new h is = cc
  skip-Aligned name path (uinteger_nullable size) old new h is = cc
  skip-Aligned name path (integer_nullable size) old new h is = cc
  skip-Aligned name path (string_enum e) old new h is = cc
  skip-Aligned name path bytes old new h is = cc
  skip-Aligned name path (string_set e) old new h is = cc
  skip-Aligned name path boolean_nullable old new h is = cc
  skip-Aligned name path (float_nullable precision is_single) old new h is = cc
  skip-Aligned name path time_nullable old new h is = cc
  skip-Aligned name path date_nullable old new h is = cc
  skip-Aligned name path json old new h is = cc
  skip-Aligned name path refs_many old new h is = cc

  compare_cell-Aligned :
      (name : Text) (path : List ℕ) (k : Kind) (old new : Value p k)
      → c.in_db ≡ true
      → Fits p k old
      → Aligned
          (serialize_cell p k old)
          (build_cell p f c name path k new)
          (compare_cell p f c name path k old new)
  unfolding compare_cell
  compare_cell-Aligned name path k old new there h =
      elim (Bool-cases (is_identifier p f c path k)) [
        | inl is ↦
            subst
              (λ t. Aligned (serialize_cell p k old) (build_cell p f c name path k new) (λ b.
                if t
                then ok b
                else decide p f c (same p f c k old new) name (shown p f c name k old new)
                    (add p f c name k new) b))
              (sym is) (skip-Aligned name path k old new h is)
        | inr other ↦
            subst
              (λ t. Aligned (serialize_cell p k old) (build_cell p f c name path k new) (λ b.
                if t
                then ok b
                else decide p f c (same p f c k old new) name (shown p f c name k old new)
                    (add p f c name k new) b))
              (sym other) (field-Aligned p f c name path k old new there h other)
      ]

  columns-Aligned :
      (old new : Elem p) (i : ℕ) (cols : List Column)
      → c.in_db ≡ true
      → All (FitsColumn p old) cols
      → Aligned
          (serialize_columns p old cols)
          (build_columns p f c new i cols)
          (compare_columns p f c old new i cols)
  unfolding serialize_columns build_columns compare_columns
  columns-Aligned old new i [] there h = Aligned-nil
  columns-Aligned old new i (col ∷ cols) there h =
      Aligned-then {w = serialize_cell p col.kind (old col.path col.kind)}
        {w' = serialize_columns p old cols} _ _ _ _
        (compare_cell-Aligned (c.column_names i) col.path col.kind (old col.path col.kind)
          (new col.path col.kind) there h.0)
        (columns-Aligned old new (i + 1) cols there h.1)

  build-Aligned :
      (schema : Schema) (old new : Elem p)
      → c.in_db ≡ true
      → schema.structure_hash < 2 ^ 64
      → All (FitsColumn p old) (serialize_order [] schema.fields)
      → Aligned
          (serialize_fields p schema old)
          (build p f c schema.fields new)
          (compare_columns p f c old new 0 (serialize_order [] schema.fields))
  unfolding serialize_fields build
  build-Aligned schema old new there hash h =
      subst
        (λ cols.
          Aligned (serialize_fields p schema old)
            (λ b. deserialize_uinteger p.binary >>= λ read. build_columns p f c new 0 cols b)
            (compare_columns p f c old new 0 (serialize_order [] schema.fields)))
        (sym (build_order-eq [] schema.fields))
        (Aligned-after {w = serialize_uinteger p.binary schema.structure_hash}
          {w' = serialize_columns p old (serialize_order [] schema.fields)} _ _
          (uinteger-Codec p.binary schema.structure_hash hash)
          (columns-Aligned old new 0 (serialize_order [] schema.fields) there h))

-- For an entity of the database, `build` on the binary form that `serialize` made of old values gives
-- what the comparison of the old and the new values gives column by column: the same panic, or
-- the same maps, and then it has read to the end.
pub build-compare_columns :
    (p : Platform) (f : Formats p) (c : Context) (schema : Schema) (old new : Elem p)
    (b : BindBuilder p) (s s2 : Serializer)
    → c.in_db ≡ true
    → schema.structure_hash < 2 ^ 64
    → All (FitsColumn p old) (serialize_order [] schema.fields)
    → s.buffer ≡ []
    → Gives
        (compare_columns p f c old new 0 (serialize_order [] schema.fields) b)
        (build p f c schema.fields new b (reset (serialize p schema old s).0 s2))
        []
unfolding serialize read_all reset
build-compare_columns p f c schema old new b s s2 there hash h empty =
    let a = build-Aligned p f c schema old new there hash h in
    (a.takes b).gives (reset (serialize_fields p schema old s).buffer s2) []
      (a.writes.appends s ∙ ap (λ x. x ++ a.bytes) empty ∙ sym (append-nil a.bytes))
