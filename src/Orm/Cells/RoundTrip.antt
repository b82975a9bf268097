-- ===== src/Orm/Cells/RoundTrip.antt =====
-- Each kind of column of orm.go is read back from what was written.
use mathlib.Core.Path.{fun_ext}
use beeorm.Prelude.{
  ℕ, ◌<◌, ◌^◌, ◌≡◌, ◌≢◌, lt→ltb, refl, inl, inr, Bool-cases, Option, none, some, List, [], ◌∷◌,
  length, ℤ, pos, eqb_ℤ, Text, arith,
}
use beeorm.Serializer.{
  pure, ◌>>=◌, serialize_uinteger, deserialize_uinteger, serialize_integer, deserialize_integer,
  serialize_bool, serialize_float,
}
use beeorm.Serializer.Bytes.{
  Codec, uinteger-Codec, integer-Codec, float-Codec, bool-Codec, string-Codec, bytes-Codec,
}
use beeorm.Enum.{Enum, index, field_at}
use beeorm.Orm.{
  Platform, Kind, ref, uinteger, integer, boolean, float, time, date, fake_delete, string,
  uinteger_nullable, integer_nullable, string_enum, bytes, string_set, boolean_nullable,
  float_nullable, time_nullable, date_nullable, json, refs_many, Value,
}
use beeorm.Orm.Cells.{
  zero_date_seconds, zero_time, stored_seconds, stored_time, loaded_seconds, loaded_time, to_size,
  to_signed_size, write_each, lift, ref_of, json_of, serialize_cell, deserialize_cell,
  serialize_ref, deserialize_ref, serialize_time, deserialize_time, serialize_date, serialize_enum,
  deserialize_enum, serialize_set, deserialize_set, serialize_json, deserialize_json,
  serialize_refs_many, deserialize_refs_many,
}
use beeorm.Orm.Cells.Times.{
  kept_time, IsTime, stored_seconds-IsInt64, loaded-stored_seconds, loaded_time-stored_seconds,
  stored_time-IsInt64, loaded-stored_time,
}
use beeorm.Orm.Cells.Combine.{
  Codec-map, Codec-bind_nil, Codec-bind, option-Codec, each-Codec, pos-ne-zero, map-same, Codec-eq,
  map_option-same, AllOption-any,
}
use beeorm.Orm.Cells.Kept.{kept, Fits, EnumValue}

module _ (p : Platform) where
  pub ref-Codec :
      (v : Option ℕ) → Fits p ref v → Codec (serialize_ref p v) (deserialize_ref p) (kept p ref v)
  unfolding serialize_ref deserialize_ref kept Fits
  ref-Codec none fits = Codec-map (ref_of p) none refl (uinteger-Codec p.binary 0 (omega arith))
  ref-Codec (some id) fits = Codec-map (ref_of p) _ refl (uinteger-Codec p.binary id fits)

  pub time-Codec :
      (v : ℤ) → IsTime v → Codec (serialize_time p v) (deserialize_time p) (kept_time v)
  unfolding serialize_time deserialize_time
  time-Codec v fits =
      Codec-map loaded_time _ (loaded-stored_time v fits)
        (integer-Codec p.binary (stored_time v) (stored_time-IsInt64 v fits))

  pub date-Codec :
      (v : ℤ) → Fits p date v → Codec (serialize_date p v) (deserialize_time p) (kept p date v)
  unfolding serialize_date deserialize_time kept Fits loaded_time
  date-Codec v fits = elim (Bool-cases (eqb_ℤ v zero_time)) [
    | inl zero_day ↦ rw zero_day (
        Codec-map loaded_time zero_time refl
          (integer-Codec p.binary (pos zero_date_seconds) (omega arith, omega arith)))
    | inr day ↦ rw day (
        Codec-map loaded_time _ (loaded_time-stored_seconds (p.midnight v) fits) (
          integer-Codec p.binary (stored_seconds (p.midnight v))
            (stored_seconds-IsInt64 (p.midnight v) fits)))
  ]

  pub seconds-Codec :
      (v : ℤ)
      → IsTime v
      → Codec
          (λ s. serialize_integer p.binary (stored_seconds v) s)
          (deserialize_integer p.binary >>= λ n. pure (loaded_seconds n))
          (kept_time v)
  seconds-Codec v fits =
      Codec-map loaded_seconds _ (loaded-stored_seconds v fits)
        (integer-Codec p.binary (stored_seconds v) (stored_seconds-IsInt64 v fits))

  pub enum-Codec :
      (e : Enum) (v : Text)
      → Fits p (string_enum e) v
      → Codec (serialize_enum p e v) (deserialize_enum p e) v
  unfolding serialize_enum deserialize_enum Fits
  enum-Codec e [] fits = Codec-bind_nil _ [] refl (uinteger-Codec p.binary 0 (omega arith))
  enum-Codec e (c ∷ cs) (inl empty) = cc
  enum-Codec e (c ∷ cs) (inr there) =
      Codec-bind_nil _ (c ∷ cs)
        (fun_ext (λ s. rw (pos-ne-zero (index e (c ∷ cs)) there.positive, there.found) refl))
        (uinteger-Codec p.binary (index e (c ∷ cs)) there.below)

  pub element-Codec :
      (e : Enum) (v : Text)
      → EnumValue e v
      → Codec
          (λ s. serialize_uinteger p.binary (index e v) s)
          (deserialize_uinteger p.binary >>= λ i. lift (field_at e i))
          v
  element-Codec e v there =
      Codec-bind_nil _ v (fun_ext (λ s. rw (there.found) refl))
        (uinteger-Codec p.binary (index e v) there.below)

  pub set-Codec :
      (e : Enum) (v : List Text)
      → Fits p (string_set e) v
      → Codec (serialize_set p e v) (deserialize_set p e) v
  unfolding serialize_set deserialize_set Fits
  set-Codec e v fits =
      Codec-bind {w' = λ s. write_each (λ x. serialize_uinteger p.binary (index e x)) v s} _ v
        (uinteger-Codec p.binary (length v) (omega arith))
        (rw (lt→ltb (length v) (2 ^ 63) fits.0) (
          Codec-eq (map-same v) (each-Codec (EnumValue e) _ _ (λ x. x) (element-Codec e) v fits.1)))

  pub json_of-ne : (t : Text) → t ≢ [] → json_of p t ≡ some (p.unmarshal t)
  json_of-ne [] h = absurd (h refl)
  json_of-ne (c ∷ cs) h = refl

  pub json-Codec :
      (v : Option p.Json)
      → Fits p json v
      → Codec (serialize_json p v) (deserialize_json p) (kept p json v)
  unfolding serialize_json deserialize_json kept Fits
  json-Codec none fits = Codec-map (json_of p) none refl (bytes-Codec p.binary [] (omega arith))
  json-Codec (some j) fits =
      Codec-map (json_of p) _ (json_of-ne (p.marshal j) (p.marshal-ne-nil j))
        (bytes-Codec p.binary (p.marshal j) fits)

  pub refs_many-Codec :
      (v : List ℕ)
      → Fits p refs_many v
      → Codec (serialize_refs_many p v) (deserialize_refs_many p) v
  unfolding serialize_refs_many deserialize_refs_many Fits
  refs_many-Codec v fits =
      Codec-bind {w' = λ s. write_each (serialize_uinteger p.binary) v s} _ v
        (uinteger-Codec p.binary (length v) (omega arith))
        (rw (lt→ltb (length v) (2 ^ 63) fits.0) (
          Codec-eq (map-same v)
            (each-Codec (λ id. id < 2 ^ 64) _ _ (λ x. x) (uinteger-Codec p.binary) v fits.1)))

  pub cell-Codec :
      (k : Kind) (v : Value p k)
      → Fits p k v
      → Codec (serialize_cell p k v) (deserialize_cell p k) (kept p k v)
  unfolding serialize_cell deserialize_cell kept Fits
  cell-Codec ref v h = ref-Codec v h
  cell-Codec (uinteger size) v h = Codec-map (to_size size) v h.1 (uinteger-Codec p.binary v h.0)
  cell-Codec (integer size) v h =
      Codec-map (to_signed_size size) v h.1 (integer-Codec p.binary v h.0)
  cell-Codec boolean v h = bool-Codec v
  cell-Codec (float precision is_single) v h =
      Codec-map _ _ refl (float-Codec p.binary (p.round_to precision v))
  cell-Codec time v h = time-Codec v h
  cell-Codec date v h = date-Codec v h
  cell-Codec fake_delete v h = bool-Codec v
  cell-Codec string v h = string-Codec p.binary v h
  cell-Codec (uinteger_nullable size) v h = Codec-eq (map_option-same v) (
      option-Codec _ (serialize_uinteger p.binary) _ (λ n. n)
        (λ n fits. Codec-map (to_size size) n fits.1 (uinteger-Codec p.binary n fits.0)) v h)
  cell-Codec (integer_nullable size) v h = Codec-eq (map_option-same v) (
      option-Codec _ (serialize_integer p.binary) _ (λ n. n)
        (λ n fits. Codec-map (to_signed_size size) n fits.1 (integer-Codec p.binary n fits.0)) v h)
  cell-Codec (string_enum e) v h = enum-Codec e v h
  cell-Codec bytes v h = bytes-Codec p.binary v h
  cell-Codec (string_set e) v h = set-Codec e v h
  cell-Codec boolean_nullable v h = Codec-eq (map_option-same v) (
      option-Codec (λ x. Unit) serialize_bool _ (λ x. x) (λ x fits. bool-Codec x) v
        (AllOption-any v))
  cell-Codec (float_nullable precision is_single) v h =
      option-Codec (λ x. Unit) (λ f. serialize_float p.binary (p.round_to precision f)) _ _
        (λ f fits. Codec-map _ _ refl (float-Codec p.binary (p.round_to precision f))) v
        (AllOption-any v)
  cell-Codec time_nullable v h = option-Codec IsTime _ _ kept_time seconds-Codec v h
  cell-Codec date_nullable v h =
      option-Codec (λ t. IsTime (p.midnight t))
        (λ t. serialize_integer p.binary (stored_seconds (p.midnight t))) _
        (λ t. kept_time (p.midnight t)) (λ t. seconds-Codec (p.midnight t)) v h
  cell-Codec json v h = json-Codec v h
  cell-Codec refs_many v h = refs_many-Codec v h
