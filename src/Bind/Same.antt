-- ===== src/Bind/Same.antt =====
-- A value that was not changed since it was written is compared as the same.
use beeorm.Prelude.{
  ℕ, suc, ◌==◌, ◌≡◌, refl, sym, subst, ◌⊎◌, inl, inr, Bool, true, false, ◌&&◌, ◌||◌, not,
  if◌then◌else◌, Option, none, some, List, [], ◌∷◌, All, length, map, ℤ, pos, negsuc, neg_part,
  ltb_ℤ, eqb_ℤ, eqb_ℤ_refl, ◌+ℤ◌, ◌-ℤ◌, wrap_int64, Text, eqb_text, eqb_text_refl, arith,
  Bool-cases,
}
use beeorm.Enum.{Enum, index}
use beeorm.Orm.{
  Platform, Kind, ref, uinteger, integer, boolean, float, time, date, fake_delete, string,
  uinteger_nullable, integer_nullable, string_enum, bytes, string_set, boolean_nullable,
  float_nullable, time_nullable, date_nullable, json, refs_many, Value, Column,
}
use beeorm.Orm.Cells.{zero_time, zero_date_seconds, stored_seconds, stored_time, loaded_seconds}
use beeorm.Orm.Cells.Combine.{map_option, AllOption}
use beeorm.Orm.Cells.Times.{IsTime, loaded-stored_seconds}
use beeorm.Orm.Cells.Kept.{Fits}
use beeorm.Orm.Entity.{Elem}
use beeorm.Orm.RoundTrip.{FitsColumn}
use beeorm.Bind.{Formats, Context}
use beeorm.Bind.Scalars.{eqb_bool, id_of, is_zero_time, old_seconds, same_time, same_option}
use beeorm.Bind.Strings.{is_empty, is_among, all_among, ids_text}
use beeorm.Bind.Compare.{stored_index, stored_date, same, is_identifier}
use beeorm.Bind.Changes.{any_changed}

-- A time that is kept: the zero time, or none before 1970.
abbrev pub Lasts : ℤ → Type 0
Lasts t = (t ≡ zero_time) ⊎ (neg_part t ≡ 0)

same_number : (n : ℕ) → (n == n) ≡ true
same_number n = ground arith

eqb_bool_refl : (b : Bool) → eqb_bool b b ≡ true
eqb_bool_refl true = refl
eqb_bool_refl false = refl

same_option_refl :
    {A : Type 0} (eq : A → A → Bool)
    → ((a : A) → eq a a ≡ true)
    → (o : Option A) → same_option eq o o ≡ true
unfolding same_option
same_option_refl eq h none = refl
same_option_refl eq h (some a) = h a

all_among-cons :
    (e : Enum) (vs : List Text) (o : ℕ) (os : List ℕ)
    → all_among e vs os ≡ true
    → all_among e vs (o ∷ os) ≡ true
unfolding all_among is_among
all_among-cons e [] o os h = refl
all_among-cons e (v ∷ vs) o os h = ground (arith, all_among-cons e vs o os)

all_among-map : (e : Enum) (vs : List Text) → all_among e vs (map (index e) vs) ≡ true
unfolding all_among is_among
all_among-map e [] = refl
all_among-map e (v ∷ vs) =
    rw (same_number (index e v))
      (all_among-cons e vs (index e v) (map (index e) vs) (all_among-map e vs))

same_stored_seconds :
    (t : ℤ) (is_zero : Bool)
    → IsTime t
    → neg_part t ≡ 0
    → same_time (old_seconds (stored_seconds t)) t is_zero ≡ true
unfolding same_time old_seconds stored_seconds loaded_seconds wrap_int64 ◌+ℤ◌ ◌-ℤ◌
same_stored_seconds (pos n) is_zero h late = ground arith
same_stored_seconds (negsuc n) is_zero h late = ground arith

unchanged : (t rest : Bool) → rest ≡ false → (not (t || true) || rest) ≡ false
unchanged t rest h = ground arith

-- A time that may be nil is kept after the start of 1970.
abbrev pub IsLate : ℤ → Type 0
IsLate t = ltb_ℤ (pos 0) t ≡ true

loaded_same : (t : ℤ) → IsTime t → IsLate t → eqb_ℤ (loaded_seconds (stored_seconds t)) t ≡ true
loaded_same t h late = rw (loaded-stored_seconds t h, late) (eqb_ℤ_refl t)

stored_time-pos : (n : ℕ) → stored_time (pos n) ≡ stored_seconds (pos n)
unfolding stored_time
stored_time-pos n = ground arith

suc-ne-zero : (n : ℕ) → (suc n == 0) ≡ false
suc-ne-zero n = ground arith

zero_time-same :
    same_time (old_seconds (stored_time zero_time)) zero_time (is_zero_time zero_time) ≡ true
unfolding same_time old_seconds stored_time is_zero_time
zero_time-same = refl

time-same :
    (t : ℤ) → IsTime t → Lasts t → same_time (old_seconds (stored_time t)) t (is_zero_time t) ≡ true
time-same t h (inl zero_day) =
    subst (λ x. same_time (old_seconds (stored_time x)) x (is_zero_time x) ≡ true) (sym zero_day)
      zero_time-same
time-same (pos n) h (inr late) =
    rw (stored_time-pos n) (same_stored_seconds (pos n) (is_zero_time (pos n)) h refl)
time-same (negsuc n) h (inr late) = absurd (omega arith)

module _ (p : Platform) (f : Formats p) (c : Context) where
  date-same :
      (t : ℤ)
      → Fits p date t
      → neg_part (p.midnight t) ≡ 0
      → same_time (old_seconds (stored_date p f c t)) (p.midnight t) (is_zero_time t) ≡ true
  unfolding Fits is_zero_time same_time old_seconds
  date-same t h late = elim (Bool-cases (eqb_ℤ t zero_time)) [
    | inl zero_day ↦ rw zero_day refl
    | inr day ↦
        subst
          (λ x.
            same_time
              (old_seconds (if x then pos zero_date_seconds else stored_seconds (p.midnight t)))
              (p.midnight t) (is_zero_time t)
            ≡ true)
          (sym day) (same_stored_seconds (p.midnight t) (is_zero_time t) h late)
  ]

  -- The values that are compared as unchanged with what was written of them: floats as precise as
  -- their column, times that are kept, "" without an index in its enum, JSON that is equal to
  -- itself, and identifiers whose JSON has no spaces.
  unfoldable pub IsClean : (k : Kind) → Value p k → Type 0
  unfolding AllOption ids_text
  IsClean ref v = Unit
  IsClean (uinteger size) v = Unit
  IsClean (integer size) v = Unit
  IsClean boolean v = Unit
  IsClean (float precision is_single) v = p.is_close precision v (p.round_to precision v) ≡ true
  IsClean time v = Lasts v
  IsClean date v = neg_part (p.midnight v) ≡ 0
  IsClean fake_delete v = Unit
  IsClean string v = Unit
  IsClean (uinteger_nullable size) v = Unit
  IsClean (integer_nullable size) v = Unit
  IsClean (string_enum e) v = index e [] ≡ 0
  IsClean bytes v = Unit
  IsClean (string_set e) v = Unit
  IsClean boolean_nullable v = Unit
  IsClean (float_nullable precision is_single) v =
      AllOption (λ x. p.is_close precision x (p.round_to precision x) ≡ true) v
  IsClean time_nullable v = AllOption IsLate v
  IsClean date_nullable v = AllOption (λ t. IsLate (p.midnight t)) v
  IsClean json v = AllOption (λ j. f.equal_json (p.marshal j) (p.marshal j) ≡ true) v
  IsClean refs_many [] = Unit
  IsClean refs_many (id ∷ ids) = f.marshal_ids (id ∷ ids) ≡ ids_text (id ∷ ids)

  enum-same : (e : Enum) (v : Text) → index e [] ≡ 0 → (stored_index p f c e v == index e v) ≡ true
  enum-same e [] h = rw h refl
  enum-same e (x ∷ xs) h = same_number (index e (x ∷ xs))

  float_option-same :
      (precision : ℕ) (v : Option p.binary.Float)
      → AllOption (λ x. p.is_close precision x (p.round_to precision x) ≡ true) v
      → same_option (λ x y. p.is_close precision y x) (map_option (p.round_to precision) v) v ≡ true
  unfolding same_option AllOption
  float_option-same precision none h = refl
  float_option-same precision (some x) h = h

  time_option-same :
      (v : Option ℤ)
      → Fits p time_nullable v
      → AllOption IsLate v
      → same p f c time_nullable v v ≡ true
  unfolding same same_option AllOption Fits
  time_option-same none h late = refl
  time_option-same (some t) h late = loaded_same t h late

  date_option-same :
      (v : Option ℤ)
      → Fits p date_nullable v
      → AllOption (λ t. IsLate (p.midnight t)) v
      → same p f c date_nullable v v ≡ true
  unfolding same same_option AllOption Fits
  date_option-same none h late = refl
  date_option-same (some t) h late = loaded_same (p.midnight t) h late

  json-same : (v : Option p.Json) → IsClean json v → same p f c json v v ≡ true
  unfolding same IsClean
  json-same none h = refl
  json-same (some j) h = h

  refs_many-same : (v : List ℕ) → IsClean refs_many v → same p f c refs_many v v ≡ true
  unfolding same IsClean is_empty ids_text eqb_text
  refs_many-same [] h = refl
  refs_many-same (id ∷ ids) h =
      rw (h, suc-ne-zero (length ids)) (eqb_text_refl (ids_text (id ∷ ids)))

  set-same :
      (e : Enum) (v : List Text)
      → ((length v == length v) && all_among e v (map (index e) v)) ≡ true
  set-same e v = rw (same_number (length v)) (all_among-map e v)

  same-clean : (k : Kind) (v : Value p k) → Fits p k v → IsClean k v → same p f c k v v ≡ true
  unfolding same Fits IsClean
  same-clean ref v h clean = same_number (id_of v)
  same-clean (uinteger size) v h clean = same_number v
  same-clean (integer size) v h clean = eqb_ℤ_refl v
  same-clean boolean v h clean = eqb_bool_refl v
  same-clean (float precision is_single) v h clean = clean
  same-clean time v h clean = time-same v h clean
  same-clean date v h clean = date-same v h clean
  same-clean fake_delete v h clean = eqb_bool_refl v
  same-clean string v h clean = eqb_text_refl v
  same-clean (uinteger_nullable size) v h clean = same_option_refl _ same_number v
  same-clean (integer_nullable size) v h clean = same_option_refl _ eqb_ℤ_refl v
  same-clean (string_enum e) v h clean = enum-same e v clean
  same-clean bytes v h clean = eqb_text_refl v
  same-clean (string_set e) v h clean = set-same e v
  same-clean boolean_nullable v h clean = same_option_refl _ eqb_bool_refl v
  same-clean (float_nullable precision is_single) v h clean = float_option-same precision v clean
  same-clean time_nullable v h clean = time_option-same v h clean
  same-clean date_nullable v h clean = date_option-same v h clean
  same-clean json v h clean = json-same v clean
  same-clean refs_many v h clean = refs_many-same v clean

  pub any_changed-clean :
      (elem : Elem p) (cols : List Column)
      → All (FitsColumn p elem) cols
      → All (λ col. IsClean col.kind (elem col.path col.kind)) cols
      → any_changed p f c elem elem cols ≡ false
  unfolding any_changed
  any_changed-clean elem [] h clean = refl
  any_changed-clean elem (col ∷ cols) h clean =
      rw (same-clean col.kind (elem col.path col.kind) h.0 clean.0) (
        unchanged (is_identifier p f c col.path col.kind) _
          (any_changed-clean elem cols h.1 clean.1))
