-- ===== src/Orm/Rows.antt =====
-- orm.go: a row of MySQL is turned into the binary form of an entity.
pub mod Loaded
pub mod RoundTrip
use beeorm.Prelude.{
  ℕ, zero, suc, ◌+◌, ltb, if◌then◌else◌, Bool, true, false, Option, none, some, List, [], ◌∷◌,
  length, split, ℤ, pos, ◌-ℤ◌, ltb_ℤ, wrap_int64, to_uint64, Text, Result, ok,
}
use beeorm.Serializer.{
  Serializer, Writer, read_all, serialize_uinteger, serialize_integer, serialize_float,
  serialize_string, serialize_bytes, serialize_bool,
}
use beeorm.Enum.{Enum, index}
use beeorm.Orm.{
  Platform, Kind, ref, uinteger, integer, boolean, float, time, date, fake_delete, string,
  uinteger_nullable, integer_nullable, string_enum, bytes, string_set, boolean_nullable,
  float_nullable, time_nullable, date_nullable, json, refs_many, Column, TableFields,
}
use beeorm.Orm.Order.{from_db_order}
use beeorm.Orm.Cells.{time_stamp_seconds, serialize_option, write_each}
use beeorm.Orm.Entity.{Schema}

-- What a column is scanned into: the Null types of database/sql are options. Times are seconds
-- since the year 0 in the time zone of the server.
abbrev pub Pointer : Platform → Kind → Type 0
Pointer p ref = Option ℤ
Pointer p (uinteger size) = ℕ
Pointer p (integer size) = ℤ
Pointer p boolean = Bool
Pointer p (float precision is_single) = p.binary.Float
Pointer p time = ℤ
Pointer p date = ℤ
Pointer p fake_delete = ℕ
Pointer p string = Option Text
Pointer p (uinteger_nullable size) = Option ℤ
Pointer p (integer_nullable size) = Option ℤ
Pointer p (string_enum e) = Option Text
Pointer p bytes = Option Text
Pointer p (string_set e) = Option Text
Pointer p boolean_nullable = Option Bool
Pointer p (float_nullable precision is_single) = Option p.binary.Float
Pointer p time_nullable = Option ℤ
Pointer p date_nullable = Option ℤ
Pointer p json = Option Text
Pointer p refs_many = Option Text

-- The value of a Null type, its zero value where it is not valid.
abbrev pub text_of : Option Text → Text
text_of none = []
text_of (some t) = t

abbrev pub int_of : Option ℤ → ℤ
int_of none = pos 0
int_of (some i) = i

-- `offset` is the registry's `timeOffset`.
unfoldable pub utc_seconds : ℤ → ℤ → ℤ
utc_seconds offset unix =
    if ltb_ℤ offset (wrap_int64 (unix -ℤ pos time_stamp_seconds))
    then wrap_int64 (unix -ℤ offset)
    else unix

unfoldable pub utc_seconds_nullable : ℤ → ℤ → ℤ
utc_seconds_nullable offset unix = if ltb_ℤ offset unix then wrap_int64 (unix -ℤ offset) else unix

module _ (p : Platform) (offset : ℤ) where
  unfoldable pub from_db_enum : Enum → Option Text → Writer
  from_db_enum e none = serialize_uinteger p.binary 0
  from_db_enum e (some v) = serialize_uinteger p.binary (index e v)

  write_names : Enum → List Text → Writer
  write_names e values s =
      write_each (λ v. serialize_uinteger p.binary (index e v)) values
        (serialize_uinteger p.binary (length values) s)

  unfoldable pub from_db_set : Enum → Option Text → Writer
  unfolding write_names write_each
  from_db_set e none = serialize_uinteger p.binary 0
  from_db_set e (some []) = serialize_uinteger p.binary 0
  from_db_set e (some (c ∷ cs)) = write_names e (split b',' (c ∷ cs))

  write_ids : List ℕ → Writer
  write_ids ids s =
      write_each (serialize_uinteger p.binary) ids (serialize_uinteger p.binary (length ids) s)

  unfoldable pub from_db_refs_many : Option Text → Writer
  unfolding write_ids write_each
  from_db_refs_many none = serialize_uinteger p.binary 0
  from_db_refs_many (some v) = write_ids (p.unmarshal_ids v)

  -- One column of `deserializeStructFromDB`.
  unfoldable pub from_db_cell : (k : Kind) → Pointer p k → Writer
  unfolding from_db_enum from_db_set from_db_refs_many utc_seconds utc_seconds_nullable
  from_db_cell ref v = serialize_uinteger p.binary (to_uint64 (int_of v))
  from_db_cell (uinteger size) v = serialize_uinteger p.binary v
  from_db_cell (integer size) v = serialize_integer p.binary v
  from_db_cell boolean v = serialize_bool v
  from_db_cell (float precision is_single) v = serialize_float p.binary v
  from_db_cell time v = serialize_integer p.binary (utc_seconds offset v)
  from_db_cell date v = serialize_integer p.binary (utc_seconds offset v)
  from_db_cell fake_delete v = serialize_bool (ltb 0 v)
  from_db_cell string v = serialize_string p.binary (text_of v)
  from_db_cell (uinteger_nullable size) v =
      serialize_option (λ i. serialize_uinteger p.binary (to_uint64 i)) v
  from_db_cell (integer_nullable size) v = serialize_option (serialize_integer p.binary) v
  from_db_cell (string_enum e) v = from_db_enum e v
  from_db_cell bytes v = serialize_bytes p.binary (text_of v)
  from_db_cell (string_set e) v = from_db_set e v
  from_db_cell boolean_nullable v = serialize_option serialize_bool v
  from_db_cell (float_nullable precision is_single) v =
      serialize_option (serialize_float p.binary) v
  from_db_cell time_nullable v =
      serialize_option (λ i. serialize_integer p.binary (utc_seconds_nullable offset i)) v
  from_db_cell date_nullable v =
      serialize_option (λ i. serialize_integer p.binary (utc_seconds_nullable offset i)) v
  from_db_cell json v = serialize_bytes p.binary (text_of v)
  from_db_cell refs_many v = from_db_refs_many v

  -- `pointers`: what the column at an index was scanned into.
  abbrev pub Row : Type 0
  Row = ℕ → (k : Kind) → Pointer p k

  unfoldable pub from_db_columns : Row → ℕ → List Column → Writer
  from_db_columns row i [] s = s
  from_db_columns row i (c ∷ cs) s =
      from_db_columns row (i + 1) cs (from_db_cell c.kind (row i c.kind) s)

  -- `deserializeFromDB`: the binary form and the serializer afterwards.
  unfoldable pub deserialize_from_db : Schema → Row → Serializer → List ℕ × Serializer
  unfolding from_db_columns
  deserialize_from_db schema row s = read_all (
      from_db_columns row 0 (from_db_order [] schema.fields)
        (serialize_uinteger p.binary schema.structure_hash s))
