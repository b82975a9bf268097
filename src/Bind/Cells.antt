-- ===== src/Bind/Cells.antt =====
-- Each column of the old entity is compared in step with its binary form.
use beeorm.Prelude.{
  ℕ, ◌^◌, ◌<◌, lt→ltb, ◌≡◌, ◌≢◌, refl, true, false, Bool-cases, inl, inr, if◌then◌else◌, Option,
  none, some, List, [], ◌∷◌, length, map, ℤ, pos, eqb_ℤ, Text, arith, subst,
}
use beeorm.Serializer.{
  serialize_uinteger, deserialize_uinteger, serialize_integer, deserialize_integer, serialize_bool,
  serialize_float, serialize_bytes, serialize_string, deserialize_string,
}
use beeorm.Serializer.Bytes.{
  Codec, uinteger-Codec, integer-Codec, float-Codec, bool-Codec, string-Codec, bytes-Codec,
}
use beeorm.Enum.{Enum, index}
use beeorm.Orm.{
  Platform, Kind, ref, uinteger, integer, boolean, float, time, date, fake_delete, string,
  uinteger_nullable, integer_nullable, string_enum, bytes, string_set, boolean_nullable,
  float_nullable, time_nullable, date_nullable, json, refs_many, Value,
}
use beeorm.Orm.Cells.{
  zero_time, zero_date_seconds, stored_seconds, stored_time, loaded_seconds, serialize_cell,
  serialize_ref, serialize_time, serialize_date, serialize_enum, serialize_set, serialize_json,
  serialize_refs_many, write_each,
}
use beeorm.Orm.Cells.Times.{IsTime, stored_time-IsInt64, stored_seconds-IsInt64}
use beeorm.Orm.Cells.Combine.{
  Codec-map, Codec-bind, Codec-eq, option-Codec, each-Codec, map_option-same, AllOption-any,
  map-same,
}
use beeorm.Orm.Cells.Kept.{Fits, EnumValue}
use beeorm.Bind.{Formats, Context}
use beeorm.Bind.Scalars.{id_of, read_seconds}
use beeorm.Bind.Strings.{
  is_empty, is_none, shown_text, add_json, json_text, read_set, read_ids, new_ids, build_json,
}
use beeorm.Bind.Build.{build_cell}
use beeorm.Bind.Compare.{stored_index, stored_date, same, shown, add, decide, is_identifier}
use beeorm.Bind.Aligned.{Aligned, column-Aligned}

module _ (p : Platform) (f : Formats p) (c : Context) where
  id-Codec :
      (v : Option ℕ)
      → Fits p ref v
      → Codec (serialize_ref p v) (deserialize_uinteger p.binary) (id_of v)
  unfolding serialize_ref Fits
  id-Codec none h = uinteger-Codec p.binary 0 (omega arith)
  id-Codec (some id) h = uinteger-Codec p.binary id h

  stored_time-Codec :
      (v : ℤ) → IsTime v → Codec (serialize_time p v) (deserialize_integer p.binary) (stored_time v)
  unfolding serialize_time
  stored_time-Codec v h = integer-Codec p.binary (stored_time v) (stored_time-IsInt64 v h)

  stored_date-Codec :
      (v : ℤ)
      → Fits p date v
      → Codec (serialize_date p v) (deserialize_integer p.binary) (stored_date p f c v)
  unfolding serialize_date Fits
  stored_date-Codec v h = elim (Bool-cases (eqb_ℤ v zero_time)) [
    | inl zero_day ↦
        rw zero_day (integer-Codec p.binary (pos zero_date_seconds) (omega arith, omega arith))
    | inr day ↦ rw day (
        integer-Codec p.binary (stored_seconds (p.midnight v))
          (stored_seconds-IsInt64 (p.midnight v) h))
  ]

  index-Codec :
      (e : Enum) (v : Text)
      → Fits p (string_enum e) v
      → Codec (serialize_enum p e v) (deserialize_uinteger p.binary) (stored_index p f c e v)
  unfolding serialize_enum Fits
  index-Codec e [] h = uinteger-Codec p.binary 0 (omega arith)
  index-Codec e (x ∷ xs) (inl empty) = cc
  index-Codec e (x ∷ xs) (inr there) = uinteger-Codec p.binary (index e (x ∷ xs)) there.below

  indexes-Codec :
      (e : Enum) (v : List Text)
      → Fits p (string_set e) v
      → Codec (serialize_set p e v) (read_set p f c []) (length v, map (index e) v)
  unfolding serialize_set Fits
  indexes-Codec e v h =
      Codec-bind {w' = λ s. write_each (λ x. serialize_uinteger p.binary (index e x)) v s} _ _
        (uinteger-Codec p.binary (length v) (omega arith))
        (rw (lt→ltb (length v) (2 ^ 63) h.0) (
          Codec-map {w = λ s. write_each (λ x. serialize_uinteger p.binary (index e x)) v s} _ _
            refl
            (each-Codec (EnumValue e) _ _ (index e)
              (λ x there. uinteger-Codec p.binary (index e x) there.below) v h.1)))

  ids-Codec :
      (text : Text) (v : List ℕ)
      → Fits p refs_many v
      → Codec (serialize_refs_many p v) (read_ids p f c [] text) (length v, v)
  unfolding serialize_refs_many Fits
  ids-Codec text v h =
      Codec-bind {w' = λ s. write_each (serialize_uinteger p.binary) v s} _ _
        (uinteger-Codec p.binary (length v) (omega arith))
        (rw (lt→ltb (length v) (2 ^ 63) h.0) (
          Codec-map {w = λ s. write_each (serialize_uinteger p.binary) v s} _ _ refl (
            Codec-eq (map-same v)
              (each-Codec (λ id. id < 2 ^ 64) _ _ (λ x. x) (uinteger-Codec p.binary) v h.1))))

  old_seconds-Codec :
      (t : ℤ)
      → IsTime t
      → Codec
          (λ s. serialize_integer p.binary (stored_seconds t) s)
          (read_seconds p f c [])
          (loaded_seconds (stored_seconds t))
  old_seconds-Codec t h =
      Codec-map loaded_seconds _ refl
        (integer-Codec p.binary (stored_seconds t) (stored_seconds-IsInt64 t h))

  -- Bytes and strings are written alike, and the builder reads bytes as a string.
  text-Codec :
      (v : Text)
      → Fits p bytes v
      → Codec (serialize_bytes p.binary v) (deserialize_string p.binary) v
  unfolding serialize_bytes serialize_string Fits
  text-Codec v h = string-Codec p.binary v h

  is_empty-ne : (t : Text) → t ≢ [] → is_empty t ≡ false
  unfolding is_empty
  is_empty-ne [] h = absurd (h refl)
  is_empty-ne (x ∷ t) h = refl

  json_cell-Aligned :
      (name : Text) (old new : Option p.Json)
      → c.in_db ≡ true
      → Fits p json old
      → Aligned (serialize_json p old) (build_json p f c name new) (
          decide p f c
            (same p f c json old new)
            name
            (shown p f c name json old new)
            (add p f c name json new))
  unfolding serialize_json build_json same shown add Fits is_empty
  json_cell-Aligned name none new there h =
      column-Aligned p f c
        (λ old.
          if is_empty old
          then is_none p f c name new
          else f.equal_json old (json_text p f c name new))
        (shown_text p f c name) name (add_json p f c name new) there
        (bytes-Codec p.binary [] (omega arith))
  json_cell-Aligned name (some j) new there h =
      subst
        (λ b. Aligned (serialize_json p (some j)) (build_json p f c name new) (
          decide p f c
            (if b
              then is_none p f c [] new
              else f.equal_json (p.marshal j) (json_text p f c [] new))
            name (shown p f c name json (some j) new) (add p f c name json new)))
        (is_empty-ne (p.marshal j) (p.marshal-ne-nil j))
        (column-Aligned p f c
          (λ old.
            if is_empty old
            then is_none p f c name new
            else f.equal_json old (json_text p f c name new))
          (shown_text p f c name) name (add_json p f c name new) there
          (bytes-Codec p.binary (p.marshal j) h))

  -- A column other than the identifier.
  pub field-Aligned :
      (name : Text) (path : List ℕ) (k : Kind) (old new : Value p k)
      → c.in_db ≡ true
      → Fits p k old
      → is_identifier p f c path k ≡ false
      → Aligned (serialize_cell p k old) (build_cell p f c name path k new) (
          decide p f c
            (same p f c k old new)
            name
            (shown p f c name k old new)
            (add p f c name k new))
  unfolding serialize_cell build_cell same shown add Fits is_identifier
  field-Aligned name path ref old new there h other =
      column-Aligned p f c _ _ name _ there (id-Codec old h)
  field-Aligned name path (uinteger size) old new there h other =
      rw other (column-Aligned p f c _ _ name _ there (uinteger-Codec p.binary old h.0))
  field-Aligned name path (integer size) old new there h other =
      column-Aligned p f c _ _ name _ there (integer-Codec p.binary old h.0)
  field-Aligned name path boolean old new there h other =
      column-Aligned p f c _ _ name _ there (bool-Codec old)
  field-Aligned name path (float precision is_single) old new there h other =
      column-Aligned p f c _ _ name _ there (float-Codec p.binary (p.round_to precision old))
  field-Aligned name path time old new there h other =
      column-Aligned p f c _ _ name _ there (stored_time-Codec old h)
  field-Aligned name path date old new there h other =
      column-Aligned p f c _ _ name _ there (stored_date-Codec old h)
  field-Aligned name path fake_delete old new there h other =
      column-Aligned p f c _ _ name _ there (bool-Codec old)
  field-Aligned name path string old new there h other =
      column-Aligned p f c _ _ name _ there (string-Codec p.binary old h)
  field-Aligned name path (uinteger_nullable size) old new there h other =
      column-Aligned p f c _ _ name _ there (
        Codec-eq (map_option-same old) (
          option-Codec _ (serialize_uinteger p.binary) _ (λ n. n)
            (λ n fits. uinteger-Codec p.binary n fits.0) old h))
  field-Aligned name path (integer_nullable size) old new there h other =
      column-Aligned p f c _ _ name _ there (
        Codec-eq (map_option-same old) (
          option-Codec _ (serialize_integer p.binary) _ (λ n. n)
            (λ n fits. integer-Codec p.binary n fits.0) old h))
  field-Aligned name path (string_enum e) old new there h other =
      column-Aligned p f c _ _ name _ there (index-Codec e old h)
  field-Aligned name path bytes old new there h other =
      column-Aligned p f c _ _ name _ there (text-Codec old h)
  field-Aligned name path (string_set e) old new there h other =
      column-Aligned p f c _ _ name _ there (indexes-Codec e old h)
  field-Aligned name path boolean_nullable old new there h other =
      column-Aligned p f c _ _ name _ there (
        Codec-eq (map_option-same old) (
          option-Codec (λ x. Unit) serialize_bool _ (λ x. x) (λ x fits. bool-Codec x) old
            (AllOption-any old)))
  field-Aligned name path (float_nullable precision is_single) old new there h other =
      column-Aligned p f c _ _ name _ there (
        option-Codec (λ x. Unit) (λ x. serialize_float p.binary (p.round_to precision x)) _ _
          (λ x fits. float-Codec p.binary (p.round_to precision x)) old (AllOption-any old))
  field-Aligned name path time_nullable old new there h other =
      column-Aligned p f c _ _ name _ there (option-Codec IsTime _ _ _ old_seconds-Codec old h)
  field-Aligned name path date_nullable old new there h other =
      column-Aligned p f c _ _ name _ there (
        option-Codec (λ t. IsTime (p.midnight t))
          (λ t. serialize_integer p.binary (stored_seconds (p.midnight t))) _ _
          (λ t fits. old_seconds-Codec (p.midnight t) fits) old h)
  field-Aligned name path json old new there h other = json_cell-Aligned name old new there h
  field-Aligned name path refs_many old new there h other =
      column-Aligned p f c _ _ name _ there (ids-Codec (new_ids p f c name new) old h)
