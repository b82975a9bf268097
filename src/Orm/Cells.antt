-- ===== src/Orm/Cells.antt =====
-- orm.go: one column of each kind, as `serializeFields` writes it and `deserializeFields` reads it.
pub mod Times
pub mod Combine
pub mod Kept
pub mod RoundTrip
use beeorm.Prelude.{
  ℕ, zero, suc, ◌+◌, ◌-◌, ◌%◌, ◌^◌, ◌==◌, ltb, if◌then◌else◌, Bool, true, false, Option, none, some,
  List, [], ◌∷◌, length, map, ℤ, pos, negsuc, ◌+ℤ◌, ◌-ℤ◌, ltb_ℤ, eqb_ℤ, wrap_int64, to_int64,
  to_uint64, Text, Result, ok, panic, slice_too_large,
}
use beeorm.Serializer.{
  Writer, Reader, pure, ◌>>=◌, serialize_uinteger, serialize_integer, serialize_float,
  serialize_string, serialize_bytes, serialize_bool, deserialize_uinteger, deserialize_integer,
  deserialize_float, deserialize_string, deserialize_bytes, deserialize_bool,
}
use beeorm.Enum.{Enum, index, field_at}
use beeorm.Orm.{
  Platform, Size, word, bits8, bits16, bits32, bits64, Kind, ref, uinteger, integer, boolean, float,
  time, date, fake_delete, string, uinteger_nullable, integer_nullable, string_enum, bytes,
  string_set, boolean_nullable, float_nullable, time_nullable, date_nullable, json, refs_many,
  Value,
}

abbrev pub zero_date_seconds : ℕ
zero_date_seconds = 31_622_400

abbrev pub time_stamp_seconds : ℕ
time_stamp_seconds = 62_167_219_200

-- The Unix time of the zero `time.Time`, January 1 of the year 1.
abbrev pub zero_time : ℤ
zero_time = negsuc 62_135_596_799

-- A time in the future of 1970 as the seconds since the year 0, any other as the zero date.
unfoldable pub stored_seconds : ℤ → ℤ
stored_seconds t =
    if ltb_ℤ (pos 0) t then wrap_int64 (t +ℤ pos time_stamp_seconds) else pos zero_date_seconds

unfoldable pub stored_time : ℤ → ℤ
unfolding stored_seconds
stored_time t = if eqb_ℤ t zero_time then pos zero_date_seconds else stored_seconds t

unfoldable pub loaded_seconds : ℤ → ℤ
loaded_seconds seconds = wrap_int64 (seconds -ℤ pos time_stamp_seconds)

unfoldable pub loaded_time : ℤ → ℤ
unfolding loaded_seconds
loaded_time seconds =
    if eqb_ℤ seconds (pos zero_date_seconds) then zero_time else loaded_seconds seconds

-- `uint8(v)` and the like.
unfoldable pub to_size : Size → ℕ → ℕ
to_size word v = v
to_size bits8 v = v % 2 ^ 8
to_size bits16 v = v % 2 ^ 16
to_size bits32 v = v % 2 ^ 32
to_size bits64 v = v

-- The integer of the low bits, as `int8(v)` keeps them.
abbrev signed_low : ℕ → ℕ → ℤ
signed_low half w = if ltb w half then pos w else negsuc (half + half - w - 1)

unfoldable pub to_signed_size : Size → ℤ → ℤ
to_signed_size word v = v
to_signed_size bits8 v = signed_low (2 ^ 7) (to_uint64 v % 2 ^ 8)
to_signed_size bits16 v = signed_low (2 ^ 15) (to_uint64 v % 2 ^ 16)
to_signed_size bits32 v = signed_low (2 ^ 31) (to_uint64 v % 2 ^ 32)
to_signed_size bits64 v = v

-- A flag, then the value if there is one.
abbrev pub serialize_option : {A : Type 0} → (A → Writer) → Option A → Writer
serialize_option w none s = serialize_bool false s
serialize_option w (some v) s = w v (serialize_bool true s)

abbrev pub deserialize_option : {A : Type 0} → Reader A → Reader (Option A)
deserialize_option r = do
  valid ← deserialize_bool
  if valid then (r >>= λ v. pure (some v)) else pure none

-- One value after another.
unfoldable pub write_each : {A : Type 0} → (A → Writer) → List A → Writer
write_each w [] s = s
write_each w (x ∷ xs) s = write_each w xs (w x s)

unfoldable pub read_each : {A : Type 0} → Reader A → ℕ → Reader (List A)
read_each r zero = pure []
read_each r (suc n) = do x ← r; xs ← read_each r n; pure (x ∷ xs)

abbrev pub lift : {A : Type 0} → Result A → Reader A
lift (panic p) s = panic p
lift (ok a) s = ok (a, s)

module _ (p : Platform) where
  unfoldable pub serialize_ref : Option ℕ → Writer
  serialize_ref none = serialize_uinteger p.binary 0
  serialize_ref (some id) = serialize_uinteger p.binary id

  -- An entity with the identifier, or nil for 0.
  abbrev pub ref_of : ℕ → Option ℕ
  ref_of id = if id == 0 then none else some id

  unfoldable pub deserialize_ref : Reader (Option ℕ)
  deserialize_ref = do id ← deserialize_uinteger p.binary; pure (ref_of id)

  unfoldable pub serialize_time : ℤ → Writer
  unfolding stored_time
  serialize_time t = serialize_integer p.binary (stored_time t)

  unfoldable pub deserialize_time : Reader ℤ
  unfolding loaded_time
  deserialize_time = do seconds ← deserialize_integer p.binary; pure (loaded_time seconds)

  unfoldable pub serialize_date : ℤ → Writer
  serialize_date t =
      if eqb_ℤ t zero_time
      then serialize_integer p.binary (pos zero_date_seconds)
      else serialize_integer p.binary (stored_seconds (p.midnight t))

  -- The index of "" is not looked up.
  unfoldable pub serialize_enum : Enum → Text → Writer
  serialize_enum e [] = serialize_uinteger p.binary 0
  serialize_enum e (c ∷ cs) = serialize_uinteger p.binary (index e (c ∷ cs))

  unfoldable pub deserialize_enum : Enum → Reader Text
  deserialize_enum e = do
    i ← deserialize_uinteger p.binary
    if i == 0 then pure [] else lift (field_at e i)

  unfoldable pub serialize_set : Enum → List Text → Writer
  unfolding write_each
  serialize_set e values s =
      write_each (λ v. serialize_uinteger p.binary (index e v)) values
        (serialize_uinteger p.binary (length values) s)

  unfoldable pub deserialize_set : Enum → Reader (List Text)
  unfolding read_each
  deserialize_set e = do
    l ← deserialize_uinteger p.binary
    if ltb l (2 ^ 63)
        then read_each (deserialize_uinteger p.binary >>= λ i. lift (field_at e i)) l
        else (λ s. panic slice_too_large)

  unfoldable pub serialize_json : Option p.Json → Writer
  serialize_json none = serialize_bytes p.binary []
  serialize_json (some v) = serialize_bytes p.binary (p.marshal v)

  abbrev pub json_of : Text → Option p.Json
  json_of [] = none
  json_of (c ∷ cs) = some (p.unmarshal (c ∷ cs))

  unfoldable pub deserialize_json : Reader (Option p.Json)
  deserialize_json = do encoded ← deserialize_bytes p.binary; pure (json_of encoded)

  unfoldable pub serialize_refs_many : List ℕ → Writer
  unfolding write_each
  serialize_refs_many ids s =
      write_each (serialize_uinteger p.binary) ids (serialize_uinteger p.binary (length ids) s)

  -- `int(l)` is negative from 2 ^ 63 on, and nothing is read.
  unfoldable pub deserialize_refs_many : Reader (List ℕ)
  unfolding read_each
  deserialize_refs_many = do
    l ← deserialize_uinteger p.binary
    if ltb l (2 ^ 63) then read_each (deserialize_uinteger p.binary) l else pure []

  unfoldable pub serialize_cell : (k : Kind) → Value p k → Writer
  unfolding serialize_ref serialize_time serialize_date serialize_enum serialize_set serialize_json
      serialize_refs_many
  serialize_cell ref v = serialize_ref v
  serialize_cell (uinteger size) v = serialize_uinteger p.binary v
  serialize_cell (integer size) v = serialize_integer p.binary v
  serialize_cell boolean v = serialize_bool v
  serialize_cell (float precision is_single) v = serialize_float p.binary (p.round_to precision v)
  serialize_cell time v = serialize_time v
  serialize_cell date v = serialize_date v
  serialize_cell fake_delete v = serialize_bool v
  serialize_cell string v = serialize_string p.binary v
  serialize_cell (uinteger_nullable size) v = serialize_option (serialize_uinteger p.binary) v
  serialize_cell (integer_nullable size) v = serialize_option (serialize_integer p.binary) v
  serialize_cell (string_enum e) v = serialize_enum e v
  serialize_cell bytes v = serialize_bytes p.binary v
  serialize_cell (string_set e) v = serialize_set e v
  serialize_cell boolean_nullable v = serialize_option serialize_bool v
  serialize_cell (float_nullable precision is_single) v =
      serialize_option (λ f. serialize_float p.binary (p.round_to precision f)) v
  serialize_cell time_nullable v =
      serialize_option (λ t. serialize_integer p.binary (stored_seconds t)) v
  serialize_cell date_nullable v =
      serialize_option (λ t. serialize_integer p.binary (stored_seconds (p.midnight t))) v
  serialize_cell json v = serialize_json v
  serialize_cell refs_many v = serialize_refs_many v

  -- `SetUint`, `SetInt` and `SetFloat` convert to the type of the field.
  unfoldable pub deserialize_cell : (k : Kind) → Reader (Value p k)
  unfolding deserialize_ref deserialize_time deserialize_enum deserialize_set deserialize_json
      deserialize_refs_many
  deserialize_cell ref = deserialize_ref
  deserialize_cell (uinteger size) = deserialize_uinteger p.binary >>= λ v. pure (to_size size v)
  deserialize_cell (integer size) =
      deserialize_integer p.binary >>= λ v. pure (to_signed_size size v)
  deserialize_cell boolean = deserialize_bool
  deserialize_cell (float precision is_single) =
      deserialize_float p.binary >>= λ v. pure (if is_single then p.single v else v)
  deserialize_cell time = deserialize_time
  deserialize_cell date = deserialize_time
  deserialize_cell fake_delete = deserialize_bool
  deserialize_cell string = deserialize_string p.binary
  deserialize_cell (uinteger_nullable size) =
      deserialize_option (deserialize_uinteger p.binary >>= λ v. pure (to_size size v))
  deserialize_cell (integer_nullable size) =
      deserialize_option (deserialize_integer p.binary >>= λ v. pure (to_signed_size size v))
  deserialize_cell (string_enum e) = deserialize_enum e
  deserialize_cell bytes = deserialize_bytes p.binary
  deserialize_cell (string_set e) = deserialize_set e
  deserialize_cell boolean_nullable = deserialize_option deserialize_bool
  deserialize_cell (float_nullable precision is_single) =
      deserialize_option
        (deserialize_float p.binary >>= λ v. pure (if is_single then p.single v else v))
  deserialize_cell time_nullable =
      deserialize_option (deserialize_integer p.binary >>= λ v. pure (loaded_seconds v))
  deserialize_cell date_nullable =
      deserialize_option (deserialize_integer p.binary >>= λ v. pure (loaded_seconds v))
  deserialize_cell json = deserialize_json
  deserialize_cell refs_many = deserialize_refs_many
