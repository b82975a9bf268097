-- ===== src/Orm/Rows/Loaded.antt =====
-- What the fields of an entity hold after its row was read.
use beeorm.Prelude.{
  ◌<◌, ◌^◌, ◌≡◌, ◌==◌, ltb, if◌then◌else◌, ◌⊎◌, none, some, [], ◌∷◌, length, All, split, ℤ, pos,
  negsuc, ◌-ℤ◌, IsInt64, wrap_int64, to_uint64, arith,
}
use beeorm.Enum.{index}
use beeorm.Orm.{
  Platform, Kind, ref, uinteger, integer, boolean, float, time, date, fake_delete, string,
  uinteger_nullable, integer_nullable, string_enum, bytes, string_set, boolean_nullable,
  float_nullable, time_nullable, date_nullable, json, refs_many, Value,
}
use beeorm.Orm.Cells.{loaded_seconds, loaded_time, to_size, to_signed_size, ref_of, json_of}
use beeorm.Orm.Cells.Combine.{map_option, AllOption}
use beeorm.Orm.Cells.Kept.{EnumValue}
use beeorm.Orm.Rows.{Pointer, text_of, int_of, utc_seconds, utc_seconds_nullable}

pub to_uint64-lt : (i : ℤ) → to_uint64 i < 2 ^ 64
to_uint64-lt (pos n) = omega arith
to_uint64-lt (negsuc n) = omega arith

pub wrap_int64-IsInt64 : (i : ℤ) → IsInt64 (wrap_int64 i)
unfolding wrap_int64
wrap_int64-IsInt64 i = ground (arith, to_uint64-lt i)

pub utc_seconds-IsInt64 : (offset i : ℤ) → IsInt64 i → IsInt64 (utc_seconds offset i)
unfolding utc_seconds
utc_seconds-IsInt64 offset i h = ground (arith, wrap_int64-IsInt64 (i -ℤ offset))

pub utc_seconds_nullable-IsInt64 :
    (offset i : ℤ) → IsInt64 i → IsInt64 (utc_seconds_nullable offset i)
unfolding utc_seconds_nullable
utc_seconds_nullable-IsInt64 offset i h = ground (arith, wrap_int64-IsInt64 (i -ℤ offset))

module _ (p : Platform) (offset : ℤ) where
  -- The value of the field for the value of the column: NULL gives nil or the zero value, a name
  -- that the enum does not have gives "", and a number is converted to the size of the field.
  unfoldable pub loaded : (k : Kind) → Pointer p k → Value p k
  loaded ref v = ref_of p (to_uint64 (int_of v))
  loaded (uinteger size) v = to_size size v
  loaded (integer size) v = to_signed_size size v
  loaded boolean v = v
  loaded (float precision is_single) v = if is_single then p.single v else v
  loaded time v = loaded_time (utc_seconds offset v)
  loaded date v = loaded_time (utc_seconds offset v)
  loaded fake_delete v = ltb 0 v
  loaded string v = text_of v
  loaded (uinteger_nullable size) v = map_option (λ i. to_size size (to_uint64 i)) v
  loaded (integer_nullable size) v = map_option (to_signed_size size) v
  loaded (string_enum e) none = []
  loaded (string_enum e) (some v) = if index e v == 0 then [] else v
  loaded bytes v = text_of v
  loaded (string_set e) none = []
  loaded (string_set e) (some []) = []
  loaded (string_set e) (some (c ∷ cs)) = split b',' (c ∷ cs)
  loaded boolean_nullable v = v
  loaded (float_nullable precision is_single) v =
      map_option (λ f. if is_single then p.single f else f) v
  loaded time_nullable v = map_option (λ i. loaded_seconds (utc_seconds_nullable offset i)) v
  loaded date_nullable v = map_option (λ i. loaded_seconds (utc_seconds_nullable offset i)) v
  loaded json v = json_of p (text_of v)
  loaded refs_many none = []
  loaded refs_many (some v) = p.unmarshal_ids v

  -- The values that MySQL returns for a column of the kind.
  unfoldable pub IsPointer : (k : Kind) → Pointer p k → Type 0
  IsPointer ref v = Unit
  IsPointer (uinteger size) v = v < 2 ^ 64
  IsPointer (integer size) v = IsInt64 v
  IsPointer boolean v = Unit
  IsPointer (float precision is_single) v = Unit
  IsPointer time v = IsInt64 v
  IsPointer date v = IsInt64 v
  IsPointer fake_delete v = Unit
  IsPointer string v = length (text_of v) < 2 ^ 63
  IsPointer (uinteger_nullable size) v = Unit
  IsPointer (integer_nullable size) v = AllOption IsInt64 v
  IsPointer (string_enum e) v = AllOption (λ t. (index e t ≡ 0) ⊎ EnumValue e t) v
  IsPointer bytes v = length (text_of v) < 2 ^ 63
  IsPointer (string_set e) none = Unit
  IsPointer (string_set e) (some v) =
      (length (split b',' v) < 2 ^ 63) × All (EnumValue e) (split b',' v)
  IsPointer boolean_nullable v = Unit
  IsPointer (float_nullable precision is_single) v = Unit
  IsPointer time_nullable v = AllOption IsInt64 v
  IsPointer date_nullable v = AllOption IsInt64 v
  IsPointer json v = length (text_of v) < 2 ^ 63
  IsPointer refs_many none = Unit
  IsPointer refs_many (some v) =
      (length (p.unmarshal_ids v) < 2 ^ 63) × All (λ id. id < 2 ^ 64) (p.unmarshal_ids v)
