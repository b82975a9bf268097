-- ===== src/Enum.antt =====
-- The enums of table_schema.go: the values of an ENUM or SET column with their positions from 1.
use beeorm.Prelude.{
  ℕ, zero, suc, ◌+◌, ◌-◌, ◌≤◌, ◌≡◌, ◌≢◌, refl, ap, subst, ok_inj, ◌∙◌, Bool, true, false, Option,
  none, some, List, [], ◌∷◌, get_elem?, Map, lookup, insert, lookup-insert, Text, text_discrete,
  Option-cases, inl, inr, arith, if_pos, if_neg, Result, ok, panic, index_out_of_range,
}

pub record Enum : Type 0 where
  pub fields : List Text
  pub mapping : Map Text ℕ
  pub default_value : Text

unfoldable pub has : Enum → Text → Bool
has e value = elim (lookup text_discrete value e.mapping) [ none ↦ false | some i ↦ true ]

-- A missing key gives the zero value.
unfoldable pub index : Enum → Text → ℕ
index e value = elim (lookup text_discrete value e.mapping) [ none ↦ 0 | some i ↦ i ]

-- `GetFields()[index-1]`, where 0 - 1 wraps around and is out of range too.
unfoldable pub field_at : Enum → ℕ → Result Text
field_at e zero = panic index_out_of_range
field_at e (suc i) = elim (get_elem? e.fields i) [ none ↦ panic index_out_of_range | some f ↦ ok f ]

-- The loop of `initEnum` from position `i` on.
unfoldable pub mapping_from : ℕ → List Text → Map Text ℕ → Map Text ℕ
mapping_from i [] m = m
mapping_from i (name ∷ names) m = mapping_from (i + 1) names (insert text_discrete name (i + 1) m)

first_of : List Text → Result Text
first_of [] = panic index_out_of_range
first_of (name ∷ names) = ok name

enum_with : List Text → Text → Enum
enum_with names default = record {
  fields = names;
  mapping = mapping_from 0 names [];
  default_value = default;
}

-- `names` are the fields of the struct that is given, `default_value` the optional argument.
unfoldable pub init_enum : List Text → Option Text → Result Enum
unfolding first_of enum_with
init_enum names (some default) = ok (enum_with names default)
init_enum names none = elim (first_of names) [
  | panic p ↦ panic p
  | ok name ↦ ok (enum_with names name)
]

-- The mapping points at positions where the fields have the name, and at no others.
pub record IsIndexed (e : Enum) : Type 0 where
  pub position :
      (value : Text) (i : ℕ)
      → lookup text_discrete value e.mapping ≡ some i
      → (1 ≤ i) × (get_elem? e.fields (i - 1) ≡ some value)

field_at-suc :
    (e : Enum) (i : ℕ) (value : Text)
    → 1 ≤ i
    → get_elem? e.fields (i - 1) ≡ some value
    → field_at e i ≡ ok value
unfolding field_at
field_at-suc e zero value h here = absurd (omega arith)
field_at-suc e (suc i) value h here =
    let back : suc i - 1 ≡ i = omega arith in rw (field_at, rw back at here) refl

-- A value that the enum has is read back from its position.
pub field_at-index :
    (e : Enum) (value : Text)
    → IsIndexed e
    → has e value ≡ true
    → (1 ≤ index e value) × (field_at e (index e value) ≡ ok value)
unfolding has index field_at
field_at-index e value h there = elim (Option-cases (lookup text_discrete value e.mapping)) [
  | inl missing ↦ absurd (cc (rw (has, missing) at there))
  | inr (i, found) ↦
      let (low, here) = h.position value i found in
      rw (index, found) (low, field_at-suc e i value low here)
]

module _ (all : List Text) where
  abbrev Points : Map Text ℕ → Type 0
  Points m =
      (value : Text) (i : ℕ)
      → lookup text_discrete value m ≡ some i
      → (1 ≤ i) × (get_elem? all (i - 1) ≡ some value)

  Points-insert :
      (i : ℕ) (name : Text) (m : Map Text ℕ)
      → get_elem? all i ≡ some name
      → Points m
      → Points (insert text_discrete name (i + 1) m)
  Points-insert i name m here h value k found = elim (text_discrete name value) [
    | yes same ↦
        let stored =
          rw (if_pos (text_discrete name value) same) at
            (rw (lookup-insert text_discrete name value (i + 1) m) at found) in
        (ground arith, let back : k - 1 ≡ i = ground arith in rw back (here ∙ ap some same))
    | no other ↦ h value k (
        rw (if_neg (text_discrete name value) other) at
          (rw (lookup-insert text_discrete name value (i + 1) m) at found))
  ]

  Points-mapping_from :
      (i : ℕ) (names : List Text) (m : Map Text ℕ)
      → ((j : ℕ) (name : Text) → get_elem? names j ≡ some name → get_elem? all (i + j) ≡ some name)
      → Points m
      → Points (mapping_from i names m)
  unfolding mapping_from
  Points-mapping_from i [] m rest h = h
  Points-mapping_from i (name ∷ names) m rest h =
      Points-mapping_from (i + 1) names (insert text_discrete name (i + 1) m)
        (λ j n at_j. let e : i + 1 + j ≡ i + suc j = omega arith in rw e (rest (suc j) n at_j))
        (Points-insert i name m (let e : i + 0 ≡ i = omega arith in rw e at (rest 0 name refl)) h)

lookup_empty : (value : Text) (i : ℕ) → lookup {V = ℕ} text_discrete value [] ≢ some i
unfolding lookup
lookup_empty value i = cc

enum_with-IsIndexed : (names : List Text) (default : Text) → IsIndexed (enum_with names default)
unfolding enum_with
enum_with-IsIndexed names default = record {
  position =
      Points-mapping_from names 0 names []
        (λ j n at_j. let e : 0 + j ≡ j = omega arith in rw e at_j)
        (λ value i h. absurd (lookup_empty value i h));
}

init_enum-IsIndexed :
    (names : List Text) (default_value : Option Text) (e : Enum)
    → init_enum names default_value ≡ ok e
    → IsIndexed e
unfolding init_enum
init_enum-IsIndexed names (some default) e h =
    subst IsIndexed (ok_inj h) (enum_with-IsIndexed names default)
init_enum-IsIndexed [] none e h = cc
init_enum-IsIndexed (name ∷ names) none e h =
    subst IsIndexed (ok_inj h) (enum_with-IsIndexed (name ∷ names) name)

-- An enum made from names finds a name that it has at its index: indexes count from 1, and the field
-- at the index is the name.
pub field_at-init_enum :
    (names : List Text) (default_value : Option Text) (e : Enum) (value : Text)
    → init_enum names default_value ≡ ok e
    → has e value ≡ true
    → (1 ≤ index e value) × (field_at e (index e value) ≡ ok value)
field_at-init_enum names default_value e value made there =
    field_at-index e value (init_enum-IsIndexed names default_value e made) there
