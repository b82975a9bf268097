-- ===== src/CachedSearch.antt =====
-- cached_search.go: the cache pages that a page of results needs, and the window of identifiers that is cut
-- out of them. Page numbers and sizes below 0 are outside the model; page 0 has a negative start.
pub mod Window
use beeorm.Prelude.{
  ℕ, zero, suc, ◌+◌, ◌-◌, ◌*◌, ◌/◌, ℤ, pos, negsuc, pos_part, sub_ℕ, ltb_ℤ, ◌+ℤ◌, ◌-ℤ◌, ltb,
  if◌then◌else◌, List, [], ◌++◌, take, drop, length, Result, panic, ok, index_out_of_range,
}

-- `(CurrentPage - 1) * PageSize`
abbrev pub start_of : ℕ → ℕ → ℤ
start_of zero size = sub_ℕ 0 size
start_of (suc n) size = pos (n * size)

-- The division of `int`, rounded toward 0.
abbrev quotient : ℤ → ℕ → ℤ
quotient (pos a) n = pos (a / n)
quotient (negsuc a) n = sub_ℕ 0 ((a + 1) / n)

-- `math.Ceil` of the quotient
abbrev ceil : ℤ → ℕ → ℤ
ceil (pos a) n = pos ((a + n - 1) / n)
ceil (negsuc a) n = sub_ℕ 0 ((a + 1) / n)

abbrev times : ℤ → ℕ → ℤ
times (pos a) n = pos (a * n)
times (negsuc a) n = sub_ℕ 0 ((a + 1) * n)

-- The first cache page, from 0, and the one after the last, for a page of results.
unfoldable pub min_cache_page : ℕ → ℕ → ℕ → ℤ
min_cache_page current size page_size = quotient (start_of current size) page_size

unfoldable pub max_cache_page : ℕ → ℕ → ℕ → ℤ
max_cache_page current size page_size = ceil (start_of current size +ℤ pos size) page_size

-- The identifiers of so many cache pages from one on; the keys of `filledPages` count from 1.
unfoldable pub results_from : (ℤ → List ℕ) → ℤ → ℕ → List ℕ
results_from filled i zero = []
results_from filled i (suc n) = filled (i +ℤ pos 1) ++ results_from filled (i +ℤ pos 1) n

-- `resultsIDs[start:end]`, for an end that is at most the length
abbrev cut : List ℕ → ℤ → ℤ → Result (List ℕ)
cut ids (negsuc start) end = panic index_out_of_range
cut ids (pos start) (negsuc end) = panic index_out_of_range
cut ids (pos start) (pos end) =
    if ltb end start then panic index_out_of_range else ok (take (end - start) (drop start ids))

abbrev at_most : ℤ → ℤ → ℤ
at_most n limit = if ltb_ℤ limit n then limit else n

unfoldable pub window : List ℕ → ℕ → ℤ → ℕ → Result (List ℕ)
window ids total start size =
    if ltb_ℤ (pos total) start
    then ok []
    else cut ids start (at_most (start +ℤ pos size) (pos (length ids)))

unfoldable pub ids_to_return : (ℤ → List ℕ) → ℕ → ℕ → ℕ → ℕ → Result (List ℕ)
unfolding min_cache_page max_cache_page results_from window
ids_to_return filled total current size page_size =
    let first = min_cache_page current size page_size in
    let count = pos_part (max_cache_page current size page_size -ℤ first) in
    window (results_from filled first count) total (start_of current size -ℤ times first page_size)
      size
