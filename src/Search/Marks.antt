-- ===== src/Search/Marks.antt =====
-- `NewWhere` and `Append` of where.go: the question marks of a query and its parameters.
use beeorm.Prelude.{
  ℕ, zero, suc, ◌+◌, ◌≡◌, refl, Bool, true, false, Option-cases, inl, inr, Option, none, some, List,
  [], ◌∷◌, ◌++◌, length, length-append, ◌==◌, if◌then◌else◌, Text, codes, arith,
}
use beeorm.Search.{
  repeat, trim_left, after_prefix, replace_first, in_list, Where, expand, new_where, append,
}

-- The number of question marks in a query.
abbrev pub marks : Text → ℕ
marks [] = 0
marks (c ∷ s) = if c == b'?' then 1 + marks s else marks s

marks-append : (s t : Text) → marks (s ++ t) ≡ marks s + marks t
marks-append [] t = omega arith
marks-append (c ∷ s) t = ground (arith, marks-append s t)

marks-repeat : (n : ℕ) → marks (repeat (codes ",?") n) ≡ n
marks-repeat zero = refl
marks-repeat (suc n) = omega (arith, marks-repeat n)

marks-trim_left : (n : ℕ) → marks (trim_left b',' (repeat (codes ",?") n)) ≡ n
marks-trim_left zero = refl
marks-trim_left (suc n) = omega (arith, marks-repeat n)

marks-in_list : (n : ℕ) → marks (in_list n) ≡ n
unfolding in_list
marks-in_list n =
    rw (marks-append (trim_left b',' (repeat (codes ",?") n)) (codes ")"))
      (omega (arith, marks-trim_left n))

marks-after_prefix : (p s t : Text) → after_prefix p s ≡ some t → marks s ≡ marks p + marks t
marks-after_prefix [] s t h = ground arith
marks-after_prefix (c ∷ p) [] t h = cc
marks-after_prefix (c ∷ p) (x ∷ s) t h = ground (arith, marks-after_prefix p s t)

-- strings.Contains
abbrev pub contains : Text → Text → Bool
contains old [] = false
contains old (x ∷ s) =
    let rest = contains old s in elim (after_prefix old (x ∷ s)) [ none ↦ rest | some tail ↦ true ]

marks-replace_first :
    (old new s : Text)
    → contains old s ≡ true
    → marks (replace_first old new s) + marks old ≡ marks s + marks new
unfolding replace_first
marks-replace_first old new [] h = cc
marks-replace_first old new (x ∷ s) h = elim (Option-cases (after_prefix old (x ∷ s))) [
  | inl no_match ↦
      rw (replace_first, no_match)
        (ground (arith, marks-replace_first old new s (rw (contains, no_match) at h)))
  | inr (tail, matched) ↦
      rw (replace_first, matched, marks-append new tail)
        (ground (arith, marks-after_prefix old (x ∷ s) tail matched))
]

module _ {A : Type 0} (elements : A → Option (List A)) where
  -- Each parameter that is a slice still finds an "IN ?" in the query.
  unfoldable pub Fits : Text → List A → Type 0
  Fits query [] = Unit
  Fits query (value ∷ rest) = elim (elements value) [
    | none ↦ Fits query rest
    | some values ↦
        (contains (codes "IN ?") query ≡ true)
        × Fits (replace_first (codes "IN ?") (in_list (length values)) query) rest
  ]

  unfoldable pub Balanced : Where elements → Type 0
  Balanced w = marks w.query ≡ length w.parameters

  expand-Balanced :
      (query : Text) (rest final : List A)
      → Fits query rest
      → marks query ≡ length final + length rest
      → Balanced (expand elements query rest final)
  unfolding expand Fits Balanced
  expand-Balanced query [] final fits h = omega (arith, h)
  expand-Balanced query (value ∷ rest) final fits h = elim (Option-cases (elements value)) [
    | inl scalar ↦
        rw (expand, scalar)
          (expand-Balanced query rest (final ++ value ∷ []) (rw (Fits, scalar) at fits)
            (omega (arith, h, length-append final (value ∷ []))))
    | inr (values, several) ↦
        rw (expand, several)
          (expand-Balanced (replace_first (codes "IN ?") (in_list (length values)) query) rest
            (final ++ values) (rw (Fits, several) at fits).1
            (omega (
              arith,
              h,
              length-append final values,
              marks-in_list (length values),
              marks-replace_first (codes "IN ?") (in_list (length values)) query
                  (rw (Fits, several) at fits).0,
            )))
  ]

  -- If the query given to `NewWhere` has one question mark for each parameter, and an "IN ?" for each
  -- parameter that is a slice, then the query of the result has one question mark for each of its
  -- parameters, and so has the `Where` to which `Append` adds it.
  pub new_where-Balanced :
      (w : Where elements) (query : Text) (parameters : List A)
      → marks query ≡ length parameters
      → Fits query parameters
      → Balanced (new_where elements query parameters)
        × (Balanced w → Balanced (append elements w query parameters))
  unfolding new_where append Balanced
  new_where-Balanced w query parameters h fits =
      let made = expand-Balanced query parameters [] fits (omega arith) in
      (
        made,
        λ before.
            rw (marks-append w.query, length-append w.parameters) (omega (arith, made, before)),
      )
