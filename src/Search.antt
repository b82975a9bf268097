-- ===== src/Search.antt =====
-- where.go, pager.go and the search for identifiers of search.go.
pub mod Marks
pub mod Totals
use beeorm.Prelude.{
  ℕ, zero, suc, ◌+◌, ◌*◌, ℤ, pos, negsuc, sub_ℕ, ◌+ℤ◌, Result, ok, panic, Bool, true, false, ◌&&◌,
  ◌||◌, not, Option, none, some, List, [], ◌∷◌, ◌++◌, length, ltb, ◌==◌, if◌then◌else◌, Text, codes,
  format_uint,
}

-- `Pager`; page numbers and sizes below 0 are outside the model.
pub record Pager : Type 0 where
  pub current_page : ℕ
  pub page_size : ℕ

abbrev new_pager : ℕ → ℕ → Pager
new_pager current_page page_size = record { current_page = current_page; page_size = page_size }

unfoldable pub increment_page : Pager → Pager
increment_page p = record p { current_page = p.current_page + 1 }

abbrev pages_before : ℕ → ℕ → ℤ
pages_before zero size = sub_ℕ 0 size
pages_before (suc n) size = pos (n * size)

-- `(CurrentPage - 1) * PageSize`
abbrev pub offset : Pager → ℤ
offset p = pages_before p.current_page p.page_size

-- `strconv.Itoa`
abbrev itoa : ℤ → Text
itoa (pos n) = format_uint n
itoa (negsuc n) = codes "-" ++ format_uint (n + 1)

-- `Pager.String`
unfoldable pub limit : Pager → Text
limit p = codes "LIMIT " ++ (itoa (offset p) ++ (codes "," ++ format_uint p.page_size))

-- The pager of `searchIDs`.
abbrev pub pager_or_all : Option Pager → Pager
pager_or_all none = new_pager 1 50_000
pager_or_all (some p) = p

-- strings.Repeat(",?", n)
abbrev pub repeat : Text → ℕ → Text
repeat s zero = []
repeat s (suc n) = s ++ repeat s n

-- strings.TrimLeft with one character
abbrev pub trim_left : ℕ → Text → Text
trim_left c [] = []
trim_left c (x ∷ s) = let rest = trim_left c s in if x == c then rest else x ∷ s

-- What follows a prefix.
abbrev pub after_prefix : Text → Text → Option Text
after_prefix [] s = some s
after_prefix (c ∷ p) [] = none
after_prefix (c ∷ p) (x ∷ s) = let rest = after_prefix p s in if c == x then rest else none

-- strings.Replace with the count 1
unfoldable pub replace_first : Text → Text → Text → Text
replace_first old new [] = []
replace_first old new (x ∷ s) =
    let rest = replace_first old new s in
    elim (after_prefix old (x ∷ s)) [ none ↦ x ∷ rest | some tail ↦ new ++ tail ]

unfoldable pub in_list : ℕ → Text
in_list n = codes "IN (" ++ (trim_left b',' (repeat (codes ",?") n) ++ codes ")")

-- `elements` is the reflection of a parameter: its elements if it is a slice or an array.
module _ {A : Type 0} (elements : A → Option (List A)) where
  pub record Where : Type 0 where
    pub query : Text
    pub parameters : List A
    pub show_fake_deleted : Bool

  -- The loop of `NewWhere` over the parameters that are left.
  unfoldable pub expand : Text → List A → List A → Where
  unfolding replace_first in_list
  expand query [] final = record { query = query; parameters = final; show_fake_deleted = false }
  expand query (value ∷ rest) final = elim (elements value) [
    | none ↦ expand query rest (final ++ value ∷ [])
    | some values ↦
        expand (replace_first (codes "IN ?") (in_list (length values)) query) rest (final ++ values)
  ]

  unfoldable pub new_where : Text → List A → Where
  unfolding expand
  new_where query parameters = expand query parameters []

  unfoldable pub append : Where → Text → List A → Where
  unfolding new_where
  append w query parameters =
      let more = new_where query parameters in
      record w {
        query = w.query ++ (codes " " ++ more.query);
        parameters = w.parameters ++ more.parameters;
      }

  -- The table of a schema, with MySQL's answers to a statement and its parameters: an error panics.
  pub record Table : Type 0 where
    pub table_name : Text
    pub has_fake_delete : Bool
    pub query_ids : Text → List A → Result (List ℕ)
    pub query_count : Text → List A → Result ℕ

  -- `slice` wraps a list of parameters as one parameter.
  module _ (slice : List A → A) where
    -- `whereQuery` and `where`: the text of the condition is not the one of the new `Where`.
    unfoldable pub visible : Table → Where → Text × Where
    unfolding new_where
    visible t w =
        let where_query = codes "`FakeDelete` = 0 AND " ++ w.query in
        if not w.show_fake_deleted && t.has_fake_delete
        then (where_query, new_where where_query (slice w.parameters ∷ []))
        else (w.query, w)

    pub ids_statement : Table → Text → Pager → Text
    ids_statement t where_query p =
        codes "SELECT `ID` FROM `"
        ++ (t.table_name ++ (codes "` WHERE " ++ (where_query ++ (codes " " ++ limit p))))

    pub count_statement : Table → Where → Where
    count_statement t w =
        new_where
          (codes "SELECT count(1) FROM `" ++ (t.table_name ++ (codes "` WHERE " ++ w.query)))
          w.parameters

    unfoldable pub get_total_rows : Table → Bool → Pager → Where → ℕ → Result ℤ
    unfolding count_statement
    get_total_rows t with_count p w found =
        if with_count
        then (if found == p.page_size || (found == 0 && ltb 1 p.current_page)
            then elim (t.query_count (count_statement t w).query (count_statement t w).parameters) [
              | panic e ↦ panic e
              | ok total ↦ ok (pos total)
            ]
            else ok (pos found +ℤ offset p))
        else ok (pos 0)

    unfoldable pub search_ids : Table → Where → Option Pager → Bool → Result (List ℕ × ℤ)
    unfolding get_total_rows ids_statement visible
    search_ids t where_ pager with_count =
        let p = pager_or_all pager in
        let found = visible t where_ in
        elim (t.query_ids (ids_statement t found.0 p) found.1.parameters) [
          | panic e ↦ panic e
          | ok ids ↦ elim (get_total_rows t with_count p found.1 (length ids)) [
            | panic e ↦ panic e
            | ok total ↦ ok (ids, total)
          ]
        ]
