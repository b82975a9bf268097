-- ===== src/Search/Totals.antt =====
-- `searchIDs` of search.go: the page and the number of all rows.
use beeorm.Prelude.{
  ℕ, zero, suc, ◌+◌, ◌-◌, ◌*◌, ℤ, pos, ◌+ℤ◌, Result, ok, Text, codes, format_uint, ◌++◌, ◌≤◌, ◌<◌,
  ◌⊎◌, ◌≡◌, refl, ap, ◌∙◌, true, inl, dec_le, ◌||◌, ◌&&◌, Option, List, [], ◌∷◌, length, take, drop,
  ltb, ◌==◌, if◌then◌else◌, arith,
}
use beeorm.Search.{
  Pager, limit, Where, Table, visible, ids_statement, count_statement, get_total_rows, pager_or_all,
  search_ids,
}

length-take_full : (n : ℕ) (xs : List ℕ) → n ≤ length xs → length (take n xs) ≡ n
length-take_full zero xs h = refl
length-take_full (suc n) [] h = absurd (omega arith)
length-take_full (suc n) (x ∷ xs) h = omega (arith, length-take_full n xs (omega arith))

length-take_all : (n : ℕ) (xs : List ℕ) → length xs ≤ n → length (take n xs) ≡ length xs
length-take_all zero xs h = omega arith
length-take_all (suc n) [] h = refl
length-take_all (suc n) (x ∷ xs) h = omega (arith, length-take_all n xs (omega arith))

length-drop : (n : ℕ) (xs : List ℕ) → length (drop n xs) ≡ length xs - n
length-drop zero xs = omega arith
length-drop (suc n) [] = omega arith
length-drop (suc n) (x ∷ xs) = omega (arith, length-drop n xs)

-- The page holds as many rows as the size and the rest of the table allow.
length-page :
    (n o : ℕ) (xs : List ℕ)
    → let found = length (take n (drop o xs)) in
      (found ≡ n) ⊎ ((found + o ≡ length xs) × (found < n)) ⊎ ((found ≡ 0) × (length xs ≤ o))
length-page n o xs = elim (dec_le n (length (drop o xs))) [
  | yes full ↦ inl (length-take_full n (drop o xs) full)
  | no short ↦ omega (arith, length-take_all n (drop o xs) (omega arith), length-drop o xs)
]

pos_add : (a b : ℕ) → pos a +ℤ pos b ≡ pos (a + b)
unfolding ◌+ℤ◌
pos_add a b = ground arith

first_page : (n size : ℕ) → suc n ≤ 1 → n * size ≡ 0
first_page zero size h = omega arith
first_page (suc n) size h = absurd (omega arith)

pick-total :
    (found size page before total : ℕ)
    → (found ≡ size)
      ⊎ ((found + before ≡ total) × (found < size))
      ⊎ ((found ≡ 0) × (total ≤ before))
    → (page ≤ 1 → before ≡ 0)
    → (if found == size || (found == 0 && ltb 1 page) then total else found + before) ≡ total
pick-total found size page before total cases first = ground arith

-- The statement that asks for the identifiers of a part of the rows that a condition matches.
unfoldable pub part_statement : Text → Text → ℕ → ℕ → Text
part_statement table_name condition before size =
    codes "SELECT `ID` FROM `"
    ++ (table_name
        ++ (codes "` WHERE "
            ++ (condition
                ++ (codes " "
                    ++ (codes "LIMIT "
                        ++ (format_uint before ++ (codes "," ++ format_uint size)))))))

module _ {A : Type 0} (elements : A → Option (List A)) (slice : List A → A) where
  -- The statement that counts the rows of `searchIDs`, with its parameters.
  abbrev pub counted : Table elements → Where elements → Result ℕ
  counted t where_ =
      let count = count_statement elements slice t (visible elements slice t where_).1 in
      t.query_count count.query count.parameters

  get_total_rows-eq :
      (t : Table elements) (p : Pager) (w : Where elements) (n : ℕ) (matching : List ℕ)
      → p.current_page ≡ suc n
      → t.query_count
          (count_statement elements slice t w).query
          (count_statement elements slice t w).parameters
        ≡ ok (length matching)
      → get_total_rows elements slice t true p w
          (length (take p.page_size (drop (n * p.page_size) matching)))
        ≡ ok (pos (length matching))
  unfolding get_total_rows
  get_total_rows-eq t p w n matching page counted =
      let before = n * p.page_size in
      let found = length (take p.page_size (drop before matching)) in
      let total =
        pick-total found p.page_size (suc n) before (length matching)
          (length-page p.page_size before matching) (first_page n p.page_size) in
      rw (counted, page, pos_add found before) (ground arith)

  search_ids-answered :
      (t : Table elements) (where_ : Where elements) (pager : Option Pager) (ids : List ℕ)
      (total : ℤ)
      → let p = pager_or_all pager in
        t.query_ids
            (ids_statement elements slice t (visible elements slice t where_).0 p)
            (visible elements slice t where_).1.parameters
          ≡ ok ids
        → get_total_rows elements slice t true
            (pager_or_all pager)
            (visible elements slice t where_).1
            (length ids)
          ≡ ok total
        → search_ids elements slice t where_ pager true ≡ ok (ids, total)
  unfolding search_ids
  search_ids-answered t where_ pager ids total answer counts = ground arith

  ids_statement-part :
      (t : Table elements) (where_query : Text) (p : Pager) (n : ℕ)
      → p.current_page ≡ suc n
      → ids_statement elements slice t where_query p
        ≡ part_statement t.table_name where_query (n * p.page_size) p.page_size
  unfolding ids_statement limit part_statement
  ids_statement-part t where_query p n page = rw page refl

  search_ids-page :
      (t : Table elements) (where_ : Where elements) (pager : Option Pager) (n : ℕ)
      (matching : List ℕ)
      → (pager_or_all pager).current_page ≡ suc n
      → ((before size : ℕ)
          → t.query_ids
              (part_statement t.table_name (visible elements slice t where_).0 before size)
              (visible elements slice t where_).1.parameters
            ≡ ok (take size (drop before matching)))
      → counted t where_ ≡ ok (length matching)
      → let size = (pager_or_all pager).page_size in
        search_ids elements slice t where_ pager true
        ≡ ok (take size (drop (n * size) matching), pos (length matching))
  search_ids-page t where_ pager n matching page paged count =
      let p = pager_or_all pager in
      let found = visible elements slice t where_ in
      search_ids-answered t where_ pager _ _
        (ap (λ s. t.query_ids s found.1.parameters) (ids_statement-part t found.0 p n page)
          ∙ paged (n * p.page_size) p.page_size)
        (get_total_rows-eq t p found.1 n matching page count)

-- Let `matching` be the rows, in order, that the condition of `searchIDs` matches, the condition on
-- `FakeDelete` added where the table has one: MySQL answers a statement with LIMIT by that part of them,
-- and the count by their number. Then from page 1 on, or without a pager, `searchIDs` returns the
-- rows of the page and the number of all matching rows, also where it saves the count.
pub search_ids-Total :
    {A : Type 0} (elements : A → Option (List A)) (slice : List A → A) (t : Table elements)
    (where_ : Where elements) (pager : Option Pager) (matching : List ℕ)
    → 1 ≤ (pager_or_all pager).current_page
    → ((before size : ℕ)
        → t.query_ids
            (part_statement t.table_name (visible elements slice t where_).0 before size)
            (visible elements slice t where_).1.parameters
          ≡ ok (take size (drop before matching)))
    → counted elements slice t where_ ≡ ok (length matching)
    → let p = pager_or_all pager in
      search_ids elements slice t where_ pager true
      ≡ ok (
        take p.page_size (drop ((p.current_page - 1) * p.page_size) matching),
        pos (length matching),
      )
search_ids-Total elements slice t where_ pager matching first paged count =
    let p = pager_or_all pager in
    let page : p.current_page ≡ suc (p.current_page - 1) = omega arith in
    search_ids-page elements slice t where_ pager (p.current_page - 1) matching page paged count
