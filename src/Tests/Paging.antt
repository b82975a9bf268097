-- ===== src/Tests/Paging.antt =====
-- cached_search.go at small inputs.
use beeorm.Prelude.{
  ℕ, ◌-◌, ◌*◌, ◌≡◌, ap, refl, ℤ, pos, negsuc, ◌+ℤ◌, ◌-ℤ◌, List, [], ◌∷◌, take, drop, ok, panic,
  index_out_of_range, arith,
}
use beeorm.CachedSearch.{ids_to_return}
use beeorm.CachedSearch.Window.{ids_to_return-rows}

abbrev seven : List ℕ
seven = 11 ∷ 12 ∷ 13 ∷ 14 ∷ 15 ∷ 16 ∷ 17 ∷ []

abbrev pages_of_two : ℤ → List ℕ
pages_of_two (negsuc n) = []
pages_of_two (pos k) = take 2 (drop ((k - 1) * 2) seven)

-- The second page of three rows lies on the cache pages 2 and 3.
ids_to_return-rows_example : ids_to_return pages_of_two 7 2 3 2 ≡ ok (14 ∷ 15 ∷ 16 ∷ [])
ids_to_return-rows_example =
    ids_to_return-rows seven pages_of_two 2 3 2 (omega arith) (omega arith)
      (λ k. ap (λ (x : ℕ). take 2 (drop (x * 2) seven)) (omega arith)) (omega arith)

abbrev pages_of_four : ℤ → List ℕ
pages_of_four (negsuc n) = []
pages_of_four (pos k) = take 4 (drop ((k - 1) * 4) (11 ∷ 12 ∷ 13 ∷ 14 ∷ 15 ∷ []))

-- Beyond the rows of its last cache page a page of results is out of range.
beyond_panics : ids_to_return pages_of_four 5 4 2 4 ≡ panic index_out_of_range
unfolding ids_to_return ◌+ℤ◌ ◌-ℤ◌
beyond_panics = refl

-- Page 0 has a negative start.
page_zero_panics : ids_to_return pages_of_four 5 0 2 4 ≡ panic index_out_of_range
unfolding ids_to_return ◌+ℤ◌ ◌-ℤ◌
page_zero_panics = refl
