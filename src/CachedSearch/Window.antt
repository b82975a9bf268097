-- ===== src/CachedSearch/Window.antt =====
-- The window of cached_search.go against the rows themselves.
use native.Mathlib.Nat.{div-mul-le_self, div-add-mod, mod-lt, mul_comm, le_of_mul-le-mul_right}
use beeorm.Prelude.{
  ℕ, zero, suc, ◌+◌, ◌-◌, ◌*◌, ◌/◌, ◌≤◌, ◌≡◌, refl, sym, ap, ◌∙◌, subst, ltb, ltb→lt, Bool-cases,
  inl, inr, false, List, [], ◌∷◌, ◌++◌, take, drop, length, arith, Result, ok, panic,
  index_out_of_range, ℤ, pos, pos_part, ◌+ℤ◌, ◌-ℤ◌, if◌then◌else◌,
}
use beeorm.CachedSearch.{min_cache_page, max_cache_page, results_from, window, ids_to_return}

drop-nil : (n : ℕ) → drop {A = ℕ} n [] ≡ []
drop-nil zero = refl
drop-nil (suc n) = refl

take-nil : (n : ℕ) → take {A = ℕ} n [] ≡ []
take-nil zero = refl
take-nil (suc n) = refl

suc_add : (a b : ℕ) → suc a + b ≡ suc (a + b)
suc_add a b = omega arith

zero_add : (b : ℕ) → 0 + b ≡ b
zero_add b = omega arith

take_add : (a b : ℕ) (xs : List ℕ) → take (a + b) xs ≡ take a xs ++ take b (drop a xs)
take_add zero b xs = ap (λ n. take n xs) (zero_add b)
take_add (suc a) b [] = take-nil (suc a + b) ∙ sym (take-nil b)
take_add (suc a) b (x ∷ xs) =
    ap (λ n. take n (x ∷ xs)) (suc_add a b) ∙ ap (λ t. x ∷ t) (take_add a b xs)

drop_add : (a b : ℕ) (xs : List ℕ) → drop b (drop a xs) ≡ drop (a + b) xs
drop_add zero b xs = ap (λ n. drop n xs) (sym (zero_add b))
drop_add (suc a) b [] = drop-nil b ∙ sym (drop-nil (suc a + b))
drop_add (suc a) b (x ∷ xs) = drop_add a b xs ∙ ap (λ n. drop n (x ∷ xs)) (sym (suc_add a b))

take_all : (n : ℕ) (xs : List ℕ) → length xs ≤ n → take n xs ≡ xs
take_all n [] h = take-nil n
take_all zero (x ∷ xs) h = absurd (omega arith)
take_all (suc n) (x ∷ xs) h = ap (λ t. x ∷ t) (take_all n xs (omega arith))

take-take : (n m : ℕ) (xs : List ℕ) → n ≤ m → take n (take m xs) ≡ take n xs
take-take zero m xs h = refl
take-take (suc n) m [] h = ap (take (suc n)) (take-nil m)
take-take (suc n) zero (x ∷ xs) h = absurd (omega arith)
take-take (suc n) (suc m) (x ∷ xs) h = ap (λ t. x ∷ t) (take-take n m xs (omega arith))

take-drop-take :
    (n a m : ℕ) (xs : List ℕ) → a + n ≤ m → take n (drop a (take m xs)) ≡ take n (drop a xs)
take-drop-take n zero m xs h = take-take n m xs (omega arith)
take-drop-take n (suc a) m [] h = ap (λ t. take n (drop (suc a) t)) (take-nil m)
take-drop-take n (suc a) zero (x ∷ xs) h = absurd (omega arith)
take-drop-take n (suc a) (suc m) (x ∷ xs) h = take-drop-take n a m xs (omega arith)

length-take-le : (n : ℕ) (xs : List ℕ) → (n ≤ length xs) → length (take n xs) ≡ n
length-take-le zero xs h = refl
length-take-le (suc n) [] h = absurd (omega arith)
length-take-le (suc n) (x ∷ xs) h = ap suc (length-take-le n xs (omega arith))

length-drop : (n : ℕ) (xs : List ℕ) → length (drop n xs) ≡ length xs - n
length-drop zero xs = omega arith
length-drop (suc n) [] = omega arith
length-drop (suc n) (x ∷ xs) = length-drop n xs ∙ omega arith

next_page : (i n : ℕ) → (i + 1) * n ≡ i * n + n
next_page i n = omega arith

no_pages : (m : ℕ) → 0 ≡ 0 * m
no_pages m = omega arith

more_pages : (n m : ℕ) → m + n * m ≡ suc n * m
more_pages n m = omega arith

pos_add : (a b : ℕ) → pos a +ℤ pos b ≡ pos (a + b)
unfolding ◌+ℤ◌
pos_add a b = ground arith

pos_sub : (a b : ℕ) → b ≤ a → pos a -ℤ pos b ≡ pos (a - b)
unfolding ◌-ℤ◌
pos_sub a b h = ground arith

count_of : (a b : ℕ) → pos_part (pos a -ℤ pos b) ≡ a - b
unfolding ◌-ℤ◌
count_of a b = ground arith

results_from-take :
    (rows : List ℕ) (filled : ℤ → List ℕ) (page_size i n : ℕ)
    → ((k : ℕ) → filled (pos (k + 1)) ≡ take page_size (drop (k * page_size) rows))
    → results_from filled (pos i) n ≡ take (n * page_size) (drop (i * page_size) rows)
unfolding results_from
results_from-take rows filled page_size i zero pages =
    ap (λ m. take m (drop (i * page_size) rows)) (no_pages page_size)
results_from-take rows filled page_size i (suc n) pages =
    ap (λ x. filled x ++ results_from filled x n) (pos_add i 1)
    ∙ ap (λ t. t ++ results_from filled (pos (i + 1)) n) (pages i)
    ∙ ap (λ t. take page_size (drop (i * page_size) rows) ++ t)
        (results_from-take rows filled page_size (i + 1) n pages)
    ∙ ap (λ t. take page_size (drop (i * page_size) rows) ++ take (n * page_size) t)
        (ap (λ m. drop m rows) (next_page i page_size)
          ∙ sym (drop_add (i * page_size) page_size rows))
    ∙ sym (take_add page_size (n * page_size) (drop (i * page_size) rows))
    ∙ ap (λ m. take m (drop (i * page_size) rows)) (more_pages n page_size)

first_le : (x n : ℕ) → 1 ≤ n → x / n * n ≤ x
first_le x n h = div-mul-le_self x n

last_ge : (x n : ℕ) → 1 ≤ n → x ≤ (x + n - 1) / n * n
last_ge x n h =
    let parts = div-add-mod (x + n - 1) n in
    let small = mod-lt (x + n - 1) {m = n} h in
    let swap = mul_comm n ((x + n - 1) / n) in omega arith

add_mul : (a d n : ℕ) → (a + d) * n ≡ a * n + d * n
add_mul a d n = omega arith

sub_mul : (a b n : ℕ) → 1 ≤ n → a * n ≤ b * n → (b - a) * n ≡ b * n - a * n
sub_mul a b n h ordered =
    let le = le_of_mul-le-mul_right {m = a} {n = b} {k = n} ordered h in
    let whole : a + (b - a) ≡ b = omega arith in
    let parts : b * n ≡ a * n + (b - a) * n = ap (λ x. x * n) (sym whole) ∙ add_mul a (b - a) n in
    omega arith

le-length-take : (k m : ℕ) (ys : List ℕ) → k ≤ m → k ≤ length ys → k ≤ length (take m ys)
le-length-take zero m ys h h' = omega arith
le-length-take (suc k) m [] h h' = absurd (omega arith)
le-length-take (suc k) zero (y ∷ ys) h h' = absurd (omega arith)
le-length-take (suc k) (suc m) (y ∷ ys) h h' =
    let rest = le-length-take k m ys (omega arith) (omega arith) in omega arith

-- The window of the cache pages, for a start that is not negative.
window_of : List ℕ → ℕ → ℕ → ℕ → Result (List ℕ)
window_of ids total start size =
    let end = if ltb (length ids) (start + size) then length ids else start + size in
    if ltb total start
    then ok []
    else (if ltb end start
        then panic index_out_of_range
        else ok (take (end - start) (drop start ids)))

window-pos :
    (ids : List ℕ) (total start size : ℕ)
    → window ids total (pos start) size ≡ window_of ids total start size
unfolding window window_of
window-pos ids total start size = rw (pos_add start size) (ground arith)

window_lem :
    (ids : List ℕ) (total start size : ℕ)
    → start ≤ total
    → start ≤ length ids
    → window_of ids total start size ≡ ok (take size (drop start ids))
unfolding window_of
window_lem ids total start size h h' = elim (Bool-cases (ltb (length ids) (start + size))) [
  | inl short ↦
      let inside : ltb total start ≡ false = ground arith in
      let ordered : ltb (length ids) start ≡ false = ground arith in
      let ends = ltb→lt (length ids) (start + size) short in
      let len = length-drop start ids in
      rw (inside, short, ordered)
        (ap ok (
          take_all (length ids - start) (drop start ids) (omega arith)
          ∙ sym (take_all size (drop start ids) (omega arith))))
  | inr long ↦
      let inside : ltb total start ≡ false = ground arith in
      let ordered : ltb (start + size) start ≡ false = ground arith in
      let size_back : start + size - start ≡ size = omega arith in
      rw (inside, long, ordered, size_back) refl
]

-- The window in natural numbers, from page 1 on.
ids_to_return-window :
    (filled : ℤ → List ℕ) (total n size page_size : ℕ)
    → 1 ≤ page_size
    → let first = n * size / page_size in
      let last = (n * size + size + page_size - 1) / page_size in
      ids_to_return filled total (suc n) size page_size
      ≡ window_of
          (results_from filled (pos first) (last - first))
          total
          (n * size - first * page_size)
          size
unfolding ids_to_return min_cache_page max_cache_page
ids_to_return-window filled total n size page_size some_ids =
    let first = n * size / page_size in
    let last = (n * size + size + page_size - 1) / page_size in
    let inside = first_le (n * size) page_size some_ids in
    rw (pos_add (n * size) size, pos_sub (n * size) (first * page_size) inside, count_of last first)
      (window-pos (results_from filled (pos first) (last - first)) total
        (n * size - first * page_size) size)

-- The identifiers of the page after so many pages.
page-rows :
    (rows : List ℕ) (filled : ℤ → List ℕ) (n size page_size : ℕ)
    → 1 ≤ page_size
    → ((k : ℕ) → filled (pos (k + 1)) ≡ take page_size (drop (k * page_size) rows))
    → n * size ≤ length rows
    → ids_to_return filled (length rows) (suc n) size page_size
      ≡ ok (take size (drop (n * size) rows))
page-rows rows filled n size page_size some_ids pages inside =
    let start = n * size in
    let first = start / page_size in
    let last = (start + size + page_size - 1) / page_size in
    let below : first * page_size ≤ start = first_le start page_size some_ids in
    let above : start + size ≤ last * page_size = last_ge (start + size) page_size some_ids in
    let wide : (last - first) * page_size ≡ last * page_size - first * page_size =
      sub_mul first last page_size some_ids (omega arith) in
    let part = drop (first * page_size) rows in
    let count = (last - first) * page_size in
    let lo = start - first * page_size in
    let room = length-drop (first * page_size) rows in
    let ids = results_from-take rows filled page_size first (last - first) pages in
    ids_to_return-window filled (length rows) n size page_size some_ids
    ∙ ap (λ l. window_of l (length rows) lo size) ids
    ∙ window_lem (take count part) (length rows) lo size (omega arith)
        (le-length-take lo count part (omega arith) (omega arith))
    ∙ ap ok (
        take-drop-take size lo count part (omega arith)
        ∙ ap (take size) (drop_add (first * page_size) lo rows)
        ∙ ap (λ k. take size (drop k rows)) (omega arith))

before_suc : (n : ℕ) → suc n - 1 ≡ n
before_suc n = omega arith

-- From page 1 on, for a page that starts within the rows or at their end, when every cache page holds its
-- part of the rows, the identifiers that are returned are those of the page of results, also across
-- cache pages and at the end of the rows.
pub ids_to_return-rows :
    (rows : List ℕ) (filled : ℤ → List ℕ) (current size page_size : ℕ)
    → 1 ≤ current
    → 1 ≤ page_size
    → ((k : ℕ) → filled (pos (k + 1)) ≡ take page_size (drop (k * page_size) rows))
    → (current - 1) * size ≤ length rows
    → ids_to_return filled (length rows) current size page_size
      ≡ ok (take size (drop ((current - 1) * size) rows))
ids_to_return-rows rows filled zero size page_size first some_ids pages inside =
    absurd (omega arith)
ids_to_return-rows rows filled (suc n) size page_size first some_ids pages inside =
    subst
      (λ m.
        m * size ≤ length rows
        → ids_to_return filled (length rows) (suc n) size page_size
          ≡ ok (take size (drop (m * size) rows)))
      (sym (before_suc n)) (page-rows rows filled n size page_size some_ids pages) inside
