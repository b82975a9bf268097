-- ===== src/Tests/Searching.antt =====
-- where.go, pager.go and search.go at small inputs.
use beeorm.Prelude.{
  ℕ, ◌-◌, ◌*◌, ◌≤◌, ◌==◌, ◌≡◌, refl, ap, ◌∙◌, arith, if◌then◌else◌, pos, ok, Text, All, parse_uint,
  parse_uint-format_uint, format_uint-digits, true, false, Option, none, some, List, [], ◌∷◌,
  length, take, drop, codes, format_uint, ◌++◌,
}
use beeorm.Search.{
  Pager, limit, visible, Where, Table, new_where, append, search_ids, replace_first, in_list,
}
use beeorm.Search.Marks.{Fits, Balanced, new_where-Balanced}
use beeorm.Search.Totals.{part_statement, search_ids-Total}

-- A parameter of a query: a number, or a slice of numbers.
data Param : Type 0 where
  number : ℕ → Param
  numbers : List ℕ → Param

abbrev all_numbers : List ℕ → List Param
all_numbers [] = []
all_numbers (n ∷ ns) = number n ∷ all_numbers ns

abbrev elements : Param → Option (List Param)
elements (number n) = none
elements (numbers ns) = some (all_numbers ns)

abbrev collect : List Param → List ℕ
collect [] = []
collect (number n ∷ ps) = n ∷ collect ps
collect (numbers ns ∷ ps) = ns ++ collect ps

abbrev as_slice : List Param → Param
as_slice ps = numbers (collect ps)

abbrev in_three : List Param
in_three = number 7 ∷ numbers (1 ∷ 2 ∷ 3 ∷ []) ∷ []

new_where-in_three :
    (new_where elements (codes "`A` = ? AND `B` IN ?") in_three).query
    ≡ codes "`A` = ? AND `B` IN (?,?,?)"
unfolding new_where replace_first in_list
new_where-in_three = refl

in_three-Fits : Fits elements (codes "`A` = ? AND `B` IN ?") in_three
unfolding Fits
in_three-Fits = (refl, tt)

abbrev no_where : Where elements
no_where = record { query = []; parameters = []; show_fake_deleted = false }

new_where-Balanced_example :
    Balanced elements (new_where elements (codes "`A` = ? AND `B` IN ?") in_three)
    × (Balanced elements no_where
        → Balanced elements (append elements no_where (codes "`A` = ? AND `B` IN ?") in_three))
new_where-Balanced_example =
    new_where-Balanced elements no_where (codes "`A` = ? AND `B` IN ?") in_three refl in_three-Fits

limit-second : limit (record { current_page = 2; page_size = 10 }) ≡ codes "LIMIT 10,10"
unfolding limit format_uint
limit-second = refl

-- Five rows, in pages of two: the last page has one row.
abbrev five : List ℕ
five = 1 ∷ 2 ∷ 3 ∷ 4 ∷ 5 ∷ []

abbrev third : Pager
third = record { current_page = 3; page_size = 2 }

before_comma : Text → Text
before_comma [] = []
before_comma (c ∷ s) = let rest = before_comma s in if c == b',' then [] else c ∷ rest

after_comma : Text → Text
after_comma [] = []
after_comma (c ∷ s) = let rest = after_comma s in if c == b',' then s else rest

-- A server that answers every statement by the numbers after the condition.
abbrev answer : Text → List ℕ
answer statement =
    let numbers =
      drop (length (codes "SELECT `ID` FROM `T` WHERE `FakeDelete` = 0 AND  LIMIT ")) statement in
    take (parse_uint (after_comma numbers)) (drop (parse_uint (before_comma numbers)) five)

abbrev five_rows : Table elements
five_rows = record {
  table_name = codes "T";
  has_fake_delete = true;
  query_ids = λ statement parameters. ok (answer statement);
  query_count = λ statement parameters. ok 5;
}

before_comma-digits :
    (ds rest : Text)
    → All (λ c. (b'0' ≤ c) × (c ≤ b'9')) ds
    → before_comma (ds ++ (b',' ∷ rest)) ≡ ds
unfolding before_comma
before_comma-digits [] rest h = refl
before_comma-digits (d ∷ ds) rest h =
    let other : (d == b',') ≡ false = ground arith in
    rw other (ap (λ s. d ∷ s) (before_comma-digits ds rest h.1))

after_comma-digits :
    (ds rest : Text)
    → All (λ c. (b'0' ≤ c) × (c ≤ b'9')) ds
    → after_comma (ds ++ (b',' ∷ rest)) ≡ rest
unfolding after_comma
after_comma-digits [] rest h = refl
after_comma-digits (d ∷ ds) rest h =
    let other : (d == b',') ≡ false = ground arith in rw other (after_comma-digits ds rest h.1)

five_rows-part :
    (before size : ℕ)
    → five_rows.query_ids
        (part_statement (codes "T") (visible elements as_slice five_rows no_where).0 before size)
        (visible elements as_slice five_rows no_where).1.parameters
      ≡ ok (take size (drop before five))
unfolding part_statement visible
five_rows-part before size =
    let left =
      before_comma-digits (format_uint before) (format_uint size) (format_uint-digits before) in
    let right =
      after_comma-digits (format_uint before) (format_uint size) (format_uint-digits before) in
    ap ok (
      ap
        (λ s.
          take (parse_uint s) (
            drop (parse_uint (before_comma (format_uint before ++ (b',' ∷ format_uint size))))
              five))
        right
      ∙ ap
          (λ n. take n (
            drop (parse_uint (before_comma (format_uint before ++ (b',' ∷ format_uint size))))
              five))
          (parse_uint-format_uint size)
      ∙ ap (λ s. take size (drop (parse_uint s) five)) left
      ∙ ap (λ n. take size (drop n five)) (parse_uint-format_uint before))

search_ids-Total_example :
    search_ids elements as_slice five_rows no_where (some third) true
    ≡ ok (
      take third.page_size (drop ((third.current_page - 1) * third.page_size) five),
      pos (length five),
    )
search_ids-Total_example =
    search_ids-Total elements as_slice five_rows no_where (some third) five (omega arith)
      five_rows-part refl

limit-zero : limit (record { current_page = 0; page_size = 10 }) ≡ codes "LIMIT -10,10"
unfolding limit format_uint
limit-zero = refl
