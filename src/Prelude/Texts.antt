-- ===== src/Prelude/Texts.antt =====
-- Go strings as lists of bytes: keys, pool codes, stream names.
use Prim.Native.Nat.{ℕ}
use Prim.Native.Char.{code}
use Prim.Native.String.{String}
use mathlib.Core.Path.{◌≡◌, refl}
use mathlib.Core.Bool.{Bool, true, false}
use native.Mathlib.Omega.{arith}
use mathlib.Core.List.{List, [], ◌∷◌, ◌++◌}
use beeorm.Prelude.Tests.{◌==◌, if◌then◌else◌}
use native.Mathlib.Decide.{ℕ_discrete}

abbrev pub Text : Type 0
Text = List ℕ

-- The bytes of an ASCII literal.
abbrev pub codes : String → Text
codes String.[] = []
codes (String.◌∷◌ c s) = code c ∷ codes s

unfoldable pub text_discrete : Discrete Text
unfolding ℕ_discrete
text_discrete = hlevel ℕ_discrete

-- strings.Split with one character
abbrev pub before_word : ℕ → List Text → List Text
before_word x [] = (x ∷ []) ∷ []
before_word x (w ∷ ws) = (x ∷ w) ∷ ws

abbrev pub split : ℕ → Text → List Text
split c [] = [] ∷ []
split c (x ∷ s) = let rest = split c s in if x == c then [] ∷ rest else before_word x rest

same : (x : ℕ) → (x == x) ≡ true
same x = ground arith

-- `a == b` of Go strings
unfoldable pub eqb_text : Text → Text → Bool
eqb_text [] [] = true
eqb_text [] (y ∷ b) = false
eqb_text (x ∷ a) [] = false
eqb_text (x ∷ a) (y ∷ b) = let rest = eqb_text a b in if x == y then rest else false

pub eqb_text_refl : (a : Text) → eqb_text a a ≡ true
unfolding eqb_text
eqb_text_refl [] = refl
eqb_text_refl (x ∷ a) = rw (same x) (eqb_text_refl a)

-- strings.Join
unfoldable pub join : Text → List Text → Text
join sep [] = []
join sep (x ∷ []) = x
join sep (x ∷ (y ∷ ys)) = x ++ (sep ++ join sep (y ∷ ys))
