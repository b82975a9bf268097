-- ===== src/Tests/Platform.antt =====
-- The platform of the binary form with concrete functions: numbers in groups of seven bits.
use beeorm.Prelude.{
  ℕ, zero, suc, ◌+◌, ◌-◌, ◌*◌, ◌/◌, ◌%◌, ◌^◌, ◌<◌, ◌≡◌, ◌≢◌, ◌==◌, ltb, if◌then◌else◌, refl, ap,
  ◌∙◌, Bool, true, false, Bool-cases, inl, inr, List, [], ◌∷◌, ℤ, pos, negsuc, IsInt64, Text, arith,
}
use beeorm.Serializer.{Binary, Yields}
use beeorm.Orm.{Platform}

pub put : ℕ → ℕ → List ℕ
put zero v = v ∷ []
put (suc fuel) v =
    let rest = put fuel (v / 128) in if ltb v 128 then v ∷ [] else (128 + v % 128) ∷ rest

pub get : {S : Type 0} → ℕ → (S → ℕ × S) → S → ℕ × S
get zero next s = next s
get (suc fuel) next s =
    let (b, s1) = next s in
    let (w, s2) = get fuel next s1 in if ltb b 128 then (b, s1) else (b - 128 + 128 * w, s2)

not_last : (n : ℕ) → ltb (128 + n) 128 ≡ false
not_last n = ground arith

pub get-put :
    {S : Type 0} (fuel : ℕ) (next : S → ℕ × S) (s s' : S) (v : ℕ)
    → Yields next s (put fuel v) s'
    → get fuel next s ≡ (v, s')
unfolding get put
get-put zero next s s' v (s1, e, end) = e ∙ ap (λ x. (v, x)) end
get-put (suc fuel) next s s' v y = elim (Bool-cases (ltb v 128)) [
  | inl small ↦
      let (s1, e, end) : Yields next s (v ∷ []) s' = rw (put, small) at y in
      rw e (rw small (ap (λ x. (v, x)) end))
  | inr large ↦
      let (s1, e, more) : Yields next s ((128 + v % 128) ∷ put fuel (v / 128)) s' =
        rw (put, large) at y in
      rw e (
        rw (not_last (v % 128), get-put fuel next s1 s' (v / 128) more)
          (ap (λ n. (n, s')) (omega arith)))
]

abbrev zigzag : ℤ → ℕ
zigzag (pos n) = 2 * n
zigzag (negsuc n) = 2 * n + 1

abbrev unzigzag : ℕ → ℤ
unzigzag n = if n % 2 == 0 then pos (n / 2) else negsuc (n / 2)

unzigzag-zigzag : (v : ℤ) → unzigzag (zigzag v) ≡ v
unzigzag-zigzag (pos n) = ground arith
unzigzag-zigzag (negsuc n) = ground arith

zigzag-lt : (v : ℤ) → IsInt64 v → zigzag v < 2 ^ 64
zigzag-lt (pos n) h = omega arith
zigzag-lt (negsuc n) h = omega arith

pub get_signed : {S : Type 0} → (S → ℕ × S) → S → ℤ × S
get_signed next s = let (n, s') = get 10 next s in (unzigzag n, s')

pub get_signed-put :
    {S : Type 0} (next : S → ℕ × S) (s s' : S) (v : ℤ)
    → IsInt64 v
    → Yields next s (put 10 (zigzag v)) s'
    → get_signed next s ≡ (v, s')
unfolding get_signed
get_signed-put next s s' v h y =
    rw (get-put 10 next s s' (zigzag v) y) (ap (λ n. (n, s')) (unzigzag-zigzag v))

-- Two floats are enough for a test.
abbrev bit : Bool → ℕ
bit true = 1
bit false = 0

pub bit-lt : (f : Bool) → bit f < 2 ^ 64
bit-lt true = omega arith
bit-lt false = omega arith

pub of_bit : (f : Bool) → (bit f == 1) ≡ f
of_bit true = refl
of_bit false = refl

-- JSON in quotes.
abbrev quoted : Text → Text
quoted j = b'"' ∷ j

abbrev unquoted : Text → Text
unquoted [] = []
unquoted (c ∷ j) = j

pub quoted-ne-nil : (j : Text) → quoted j ≢ []
quoted-ne-nil j = cc

abbrev day_start : ℤ → ℤ
day_start (pos n) = pos (n - n % 86_400)
day_start (negsuc n) = negsuc (n - n % 86_400 + 86_399)

abbrev pub bytes_binary : Binary
bytes_binary = record {
  put_uvarint = put 10;
  read_uvarint = λ {S} next s. get 10 next s;
  uvarint_law = λ {S} next s s' v h y. get-put 10 next s s' v y;
  put_varint = λ v. put 10 (zigzag v);
  read_varint = λ {S} next s. get_signed next s;
  varint_law = λ {S} next s s' v h y. get_signed-put next s s' v h y;
  Float = Bool;
  bits = bit;
  from_bits = λ n. n == 1;
  bits-lt = bit-lt;
  from_bits-bits = of_bit;
}

abbrev pub bytes_platform : Platform
bytes_platform = record {
  binary = bytes_binary;
  round_to = λ precision f. f;
  single = λ f. f;
  is_close = λ precision a b. bit a == bit b;
  midnight = day_start;
  Json = Text;
  marshal = quoted;
  unmarshal = unquoted;
  marshal-ne-nil = quoted-ne-nil;
  unmarshal_ids = λ t. t;
}
