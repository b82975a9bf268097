-- ===== src/Bind/Build.antt =====
-- bind_builder.go: `build`; orm.go: `buildDirtyBind`, `GetDirtyBind` and `IsDirty`.
use beeorm.Prelude.{
  ℕ, ◌==◌, ◌+◌, ltb, Bool, true, false, ◌||◌, not, if◌then◌else◌, List, [], ◌∷◌, Text, Map, Result,
  panic, ok,
}
use beeorm.Serializer.{new_serializer, Reader, pure, ◌>>=◌, reset, deserialize_uinteger}
use beeorm.Orm.{
  Platform, Kind, ref, uinteger, integer, boolean, float, time, date, fake_delete, string,
  uinteger_nullable, integer_nullable, string_enum, bytes, string_set, boolean_nullable,
  float_nullable, time_nullable, date_nullable, json, refs_many, Value, Column, TableFields,
  table_fields, bits64,
}
use beeorm.Orm.Order.{build_order}
use beeorm.Orm.Entity.{Elem, Schema}
use beeorm.Bind.{Formats, BindValue, Context, BindBuilder, build_column, compare}
use beeorm.Bind.Scalars.{
  build_ref, skip_id, build_uinteger, build_integer, build_boolean, build_float, build_time,
  build_date, build_fake_delete, build_uinteger_nullable, build_integer_nullable,
  build_boolean_nullable, build_float_nullable, build_time_nullable, build_date_nullable,
}
use beeorm.Bind.Strings.{
  is_empty, build_string, build_enum, build_bytes, build_set, build_json, build_refs_many,
}

-- The first field of the root.
unfoldable pub is_id : List ℕ → Bool
is_id [] = false
is_id (i ∷ []) = i == 1
is_id (i ∷ (j ∷ path)) = false

module _ (p : Platform) (f : Formats p) (c : Context) where
  unfoldable pub build_cell :
      Text → List ℕ → (k : Kind) → Value p k → BindBuilder p → Reader (BindBuilder p)
  unfolding is_id build_ref skip_id build_uinteger build_integer build_boolean build_float
      build_time build_date build_fake_delete build_uinteger_nullable build_integer_nullable
      build_boolean_nullable build_float_nullable build_time_nullable build_date_nullable
      build_string build_enum build_bytes build_set build_json build_refs_many
  build_cell name path ref v = build_ref p f c name v
  build_cell name path (uinteger size) v =
      if is_id path then skip_id p f c name else build_uinteger p f c name v
  build_cell name path (integer size) v = build_integer p f c name v
  build_cell name path boolean v = build_boolean p f c name v
  build_cell name path (float precision is_single) v = build_float p f c name precision v
  build_cell name path time v = build_time p f c name v
  build_cell name path date v = build_date p f c name v
  build_cell name path fake_delete v = build_fake_delete p f c name v
  build_cell name path string v = build_string p f c name v
  build_cell name path (uinteger_nullable size) v = build_uinteger_nullable p f c name v
  build_cell name path (integer_nullable size) v = build_integer_nullable p f c name v
  build_cell name path (string_enum e) v = build_enum p f c name e v
  build_cell name path bytes v = build_bytes p f c name v
  build_cell name path (string_set e) v = build_set p f c name e v
  build_cell name path boolean_nullable v = build_boolean_nullable p f c name v
  build_cell name path (float_nullable precision is_single) v =
      build_float_nullable p f c name precision v
  build_cell name path time_nullable v = build_time_nullable p f c name v
  build_cell name path date_nullable v = build_date_nullable p f c name v
  build_cell name path json v = build_json p f c name v
  build_cell name path refs_many v = build_refs_many p f c name v

  -- From the column index on; the index counts every column.
  unfoldable pub build_columns : Elem p → ℕ → List Column → BindBuilder p → Reader (BindBuilder p)
  unfolding build_cell
  build_columns elem i [] b = pure b
  build_columns elem i (col ∷ cols) b = do
    b1 ← build_cell (c.column_names i) col.path col.kind (elem col.path col.kind) b
    build_columns elem (i + 1) cols b1

  -- `build` from the root, which skips the structure hash.
  unfoldable pub build : TableFields → Elem p → BindBuilder p → Reader (BindBuilder p)
  unfolding build_columns build_column compare
  build fields elem b = do
    hash ← deserialize_uinteger p.binary
    build_columns elem 0 (build_order [] fields) b

-- The parts of `tableSchema` that the builder looks at; `cached_indexes_all` is the number of cached queries.
pub record TableSchema : Type 0 where
  pub schema : Schema
  pub has_fake_delete : Bool
  pub has_log : Bool
  pub cached_indexes_all : ℕ
  pub column_names : ℕ → Text
  pub is_required : Text → Bool

-- `ORM`: the entity, its marks and the binary form of its row.
pub record Orm (p : Platform) : Type 0 where
  pub elem : Elem p
  pub in_db : Bool
  pub delete : Bool
  pub fake_delete : Bool
  pub binary : List ℕ

unfoldable pub is_field : ℕ → List ℕ → Bool
is_field i [] = false
is_field i (j ∷ []) = j == i
is_field i (j ∷ (k ∷ path)) = false

module _ (p : Platform) where
  -- `FieldByName("FakeDelete").SetBool(true)`
  unfoldable pub set_fake_delete : TableFields → Elem p → Elem p
  unfolding is_field
  set_fake_delete (table_fields own _) elem path fake_delete =
      if is_field own.fake_delete path then true else elem path fake_delete
  set_fake_delete _ elem path k = elem path k

  unfoldable pub mark_deleted : TableSchema → Orm p → Orm p
  unfolding set_fake_delete
  mark_deleted t o =
      if o.fake_delete
      then (if t.has_fake_delete
          then record o { elem = set_fake_delete t.schema.fields o.elem }
          else record o { delete = true })
      else o

  unfoldable pub context_of : TableSchema → Orm p → Context
  context_of t o = record {
    id = o.elem (1 ∷ []) (uinteger bits64);
    in_db = o.in_db;
    has_current = o.delete || (t.has_log || ltb 0 t.cached_indexes_all);
    build_sql = not o.delete;
    column_names = t.column_names;
    is_required = t.is_required;
  }

  abbrev pub new_bind_builder : BindBuilder p
  new_bind_builder = record { bind = []; current = []; sql_bind = [] }

  module _ (f : Formats p) where
    -- The builder, whether the entity is dirty, and the entity with its marks.
    unfoldable pub build_dirty_bind : TableSchema → Orm p → Reader ((BindBuilder p × Bool) × Orm p)
    unfolding build mark_deleted context_of
    build_dirty_bind t o s =
        let marked = mark_deleted t o in
        (do
          b ← build p f (context_of t marked) t.schema.fields marked.elem new_bind_builder
          pure ((b, not marked.in_db || (marked.delete || not (is_empty b.bind))), marked))
          (reset marked.binary s)

    -- `GetDirtyBind`, with a serializer of its own.
    unfoldable pub get_dirty_bind :
        TableSchema → Orm p → Result ((Map Text (BindValue p) × Bool) × Orm p)
    unfolding build_dirty_bind
    get_dirty_bind t o = elim (build_dirty_bind t o (new_serializer [])) [
      | panic e ↦ panic e
      | ok x ↦ ok ((x.0.0.0.bind, x.0.0.1), x.0.1)
    ]

    unfoldable pub is_dirty : TableSchema → Orm p → Result Bool
    unfolding get_dirty_bind
    is_dirty t o =
        if not o.in_db
        then ok true
        else elim (get_dirty_bind t o) [ panic e ↦ panic e | ok x ↦ ok x.0.1 ]
