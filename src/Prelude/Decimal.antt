-- ===== src/Prelude/Decimal.antt =====
-- strconv.FormatUint and the value that strconv.ParseUint reads back.
use Prim.Native.Nat.{ℕ, zero, suc, ◌+◌, ◌-◌, ◌*◌, ◌/◌, ◌%◌, ◌<◌, ◌≤◌}
use mathlib.Core.Path.{◌≡◌, sym, ap, ◌∙◌}
use mathlib.Core.Logic.{inl, inr}
use mathlib.Core.List.{[], ◌∷◌}
use native.Mathlib.Omega.{arith}
use beeorm.Prelude.Tests.{ltb, if◌then◌else◌, Bool-cases}
use beeorm.Prelude.Texts.{Text}
use beeorm.Prelude.Lists.{All}

-- The digits of `n` in front of `out`, by at most `fuel` divisions; `n < fuel` is enough.
emit : ℕ → ℕ → Text → Text
emit zero n out = out
emit (suc fuel) n out =
    let rest = emit fuel (n / 10) ((b'0' + n % 10) ∷ out) in
    if ltb n 10 then (b'0' + n) ∷ out else rest

unfoldable pub format_uint : ℕ → Text
unfolding emit
format_uint n = emit (suc n) n []

value_from : ℕ → Text → ℕ
value_from n [] = n
value_from n (c ∷ s) = value_from (n * 10 + (c - b'0')) s

-- The value of a text of digits.
unfoldable pub parse_uint : Text → ℕ
unfolding value_from
parse_uint s = value_from 0 s

value-emit :
    (fuel n : ℕ) (out : Text) → n < fuel → value_from 0 (emit fuel n out) ≡ value_from n out
unfolding emit value_from
value-emit zero n out h = elim h [ ]
value-emit (suc fuel) n out h = elim (Bool-cases (ltb n 10)) [
  | inl small ↦ rw small (ap (λ m. value_from m out) (omega arith))
  | inr large ↦ rw large (
      value-emit fuel (n / 10) ((b'0' + n % 10) ∷ out) (ground arith)
      ∙ ap (λ m. value_from m out) (omega arith))
]

-- Printing and reading a number gives the number back.
pub parse_uint-format_uint : (n : ℕ) → parse_uint (format_uint n) ≡ n
unfolding parse_uint format_uint
parse_uint-format_uint n = value-emit (suc n) n [] (omega arith)

pub format_uint_inj : (n m : ℕ) → format_uint n ≡ format_uint m → n ≡ m
format_uint_inj n m h = sym (parse_uint-format_uint n) ∙ ap parse_uint h ∙ parse_uint-format_uint m

digits-emit :
    (fuel n : ℕ) (out : Text)
    → n < fuel
    → All (λ c. (b'0' ≤ c) × (c ≤ b'9')) out
    → All (λ c. (b'0' ≤ c) × (c ≤ b'9')) (emit fuel n out)
unfolding emit
digits-emit zero n out h k = elim h [ ]
digits-emit (suc fuel) n out h k = elim (Bool-cases (ltb n 10)) [
  | inl small ↦ rw small ((ground arith, ground arith), k)
  | inr large ↦ rw large (
      digits-emit fuel (n / 10) ((b'0' + n % 10) ∷ out) (ground arith)
        ((omega arith, omega arith), k))
]

-- A number is printed in digits.
pub format_uint-digits : (n : ℕ) → All (λ c. (b'0' ≤ c) × (c ≤ b'9')) (format_uint n)
unfolding format_uint
format_uint-digits n = digits-emit (suc n) n [] (omega arith) tt
