-- ===== src/Orm/Cells/Kept.antt =====
-- What is kept of a value of each kind by writing and reading it.
use beeorm.Prelude.{
  ◌≤◌, ◌<◌, ◌^◌, ◌≡◌, if◌then◌else◌, ◌⊎◌, none, some, [], length, All, eqb_ℤ, IsInt64, Text, ok,
}
use beeorm.Enum.{Enum, index, field_at}
use beeorm.Orm.{
  Platform, Kind, ref, uinteger, integer, boolean, float, time, date, fake_delete, string,
  uinteger_nullable, integer_nullable, string_enum, bytes, string_set, boolean_nullable,
  float_nullable, time_nullable, date_nullable, json, refs_many, Value,
}
use beeorm.Orm.Cells.{zero_time, to_size, to_signed_size, ref_of}
use beeorm.Orm.Cells.Times.{kept_time, IsTime}
use beeorm.Orm.Cells.Combine.{map_option, AllOption}

-- A value that the enum has, and reads back from its index.
pub record EnumValue (e : Enum) (v : Text) : Type 0 where
  pub below : index e v < 2 ^ 64
  pub positive : 1 ≤ index e v
  pub found : field_at e (index e v) ≡ ok v

module _ (p : Platform) where
  -- A reference to an entity without an identifier is lost, and so are times up to the start of
  -- 1970. Dates lose the time of the day and floats what their precision does not show. JSON is
  -- what JSON keeps of it.
  unfoldable pub kept : (k : Kind) → Value p k → Value p k
  kept ref none = none
  kept ref (some id) = ref_of p id
  kept (uinteger size) v = v
  kept (integer size) v = v
  kept boolean v = v
  kept (float precision is_single) v =
      if is_single then p.single (p.round_to precision v) else p.round_to precision v
  kept time v = kept_time v
  kept date v = if eqb_ℤ v zero_time then zero_time else kept_time (p.midnight v)
  kept fake_delete v = v
  kept string v = v
  kept (uinteger_nullable size) v = v
  kept (integer_nullable size) v = v
  kept (string_enum e) v = v
  kept bytes v = v
  kept (string_set e) v = v
  kept boolean_nullable v = v
  kept (float_nullable precision is_single) v =
      map_option
        (λ f. if is_single then p.single (p.round_to precision f) else p.round_to precision f) v
  kept time_nullable v = map_option kept_time v
  kept date_nullable v = map_option (λ t. kept_time (p.midnight t)) v
  kept json v = map_option (λ j. p.unmarshal (p.marshal j)) v
  kept refs_many v = v

  -- The values of a field of the kind: numbers of its size, names of its enum, and texts and slices
  -- whose length an `int` holds.
  unfoldable pub Fits : (k : Kind) → Value p k → Type 0
  unfolding AllOption
  Fits ref v = AllOption (λ id. id < 2 ^ 64) v
  Fits (uinteger size) v = (v < 2 ^ 64) × (to_size size v ≡ v)
  Fits (integer size) v = IsInt64 v × (to_signed_size size v ≡ v)
  Fits boolean v = Unit
  Fits (float precision is_single) v = Unit
  Fits time v = IsTime v
  Fits date v = IsTime (p.midnight v)
  Fits fake_delete v = Unit
  Fits string v = length v < 2 ^ 63
  Fits (uinteger_nullable size) v = AllOption (λ n. (n < 2 ^ 64) × (to_size size n ≡ n)) v
  Fits (integer_nullable size) v = AllOption (λ n. IsInt64 n × (to_signed_size size n ≡ n)) v
  Fits (string_enum e) v = (v ≡ []) ⊎ EnumValue e v
  Fits bytes v = length v < 2 ^ 63
  Fits (string_set e) v = (length v < 2 ^ 63) × All (EnumValue e) v
  Fits boolean_nullable v = Unit
  Fits (float_nullable precision is_single) v = Unit
  Fits time_nullable v = AllOption IsTime v
  Fits date_nullable v = AllOption (λ t. IsTime (p.midnight t)) v
  Fits json v = AllOption (λ j. length (p.marshal j) < 2 ^ 63) v
  Fits refs_many v = (length v < 2 ^ 63) × All (λ id. id < 2 ^ 64) v
