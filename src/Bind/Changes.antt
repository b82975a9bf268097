-- ===== src/Bind/Changes.antt =====
-- What the comparison of two entities leaves in the builder.
use beeorm.Prelude.{
  ℕ, ◌+◌, ◌==◌, ◌≡◌, refl, ap, ◌∙◌, Bool, true, false, Bool-cases, ◌&&◌, ◌||◌, not, inl, inr,
  Option, none, some, List, [], ◌∷◌, All, length, map, Text, codes, join, Map, insert,
  text_discrete, Result, ok, arith,
}
use beeorm.Enum.{Enum, index}
use beeorm.Orm.{
  Platform, Kind, ref, uinteger, integer, boolean, float, time, date, fake_delete, string,
  uinteger_nullable, integer_nullable, string_enum, bytes, string_set, boolean_nullable,
  float_nullable, time_nullable, date_nullable, json, refs_many, Value, Column,
}
use beeorm.Orm.Cells.Combine.{pos-ne-zero}
use beeorm.Orm.Cells.Kept.{Fits, EnumValue}
use beeorm.Orm.Entity.{Elem}
use beeorm.Orm.RoundTrip.{FitsColumn}
use beeorm.Bind.{
  BindValue, bind_string, Formats, Context, BindBuilder, compared, note_current, finish,
}
use beeorm.Bind.Strings.{is_empty, set_names, shown_enum, shown_ids, shown_set, new_ids}
use beeorm.Bind.Compare.{
  stored_index, same, shown, decide, is_identifier, compare_cell, compare_columns,
}
use beeorm.Bind.Bound.{IsValid, Bound, add-Bound}

module _ (p : Platform) (f : Formats p) (c : Context) where
  -- The old values that are noted can be read.
  abbrev Ok : {A : Type 0} → Result A → Type 0
  Ok {A} result = (v : A) × (result ≡ ok v)

  enum-Ok :
      (name : Text) (e : Enum) (old : Text)
      → Fits p (string_enum e) old
      → Ok (shown_enum p f c name e (stored_index p f c e old))
  unfolding Fits
  enum-Ok name e [] h = (_, refl)
  enum-Ok name e (x ∷ xs) (inl empty) = cc
  enum-Ok name e (x ∷ xs) (inr there) = (
    some (bind_string (x ∷ xs)),
    rw (pos-ne-zero (index e (x ∷ xs)) there.positive, there.found) refl,
  )

  set_names-index :
      (e : Enum) (vs : List Text) → All (EnumValue e) vs → set_names e (map (index e) vs) ≡ ok vs
  unfolding set_names
  set_names-index e [] h = refl
  set_names-index e (v ∷ vs) h = rw (set_names, h.0.found, set_names-index e vs h.1) refl

  set-Ok :
      (name : Text) (e : Enum) (old new : List Text)
      → Fits p (string_set e) old
      → Ok (shown_set p f c name e new (length old, map (index e) old))
  unfolding Fits
  set-Ok name e old new h = elim (Bool-cases ((length old == length new) && not (is_empty new))) [
    | inl noted ↦
        (some (bind_string (join (codes ",") old)), rw (noted, set_names-index e old h.1) refl)
    | inr not_noted ↦ rw not_noted (_, refl)
  ]

  ids-Ok : (name v : Text) (old : List ℕ) → Ok (shown_ids p f c name v (length old, old))
  ids-Ok name v old = elim (Bool-cases (length old == 0)) [
    | inl none_old ↦ rw none_old (_, refl)
    | inr some_old ↦ elim (Bool-cases (is_empty v)) [
      | inl removed ↦ rw (some_old, removed) (_, refl)
      | inr changed ↦ rw (some_old, changed) (_, refl)
    ]
  ]

  json-Ok : (name : Text) (old new : Option p.Json) → Ok (shown p f c name json old new)
  unfolding shown
  json-Ok name none new = (_, refl)
  json-Ok name (some j) new = (_, refl)

  shown-Ok :
      (name : Text) (k : Kind) (old new : Value p k)
      → Fits p k old
      → Ok (shown p f c name k old new)
  unfolding shown
  shown-Ok name ref old new h = (_, refl)
  shown-Ok name (uinteger size) old new h = (_, refl)
  shown-Ok name (integer size) old new h = (_, refl)
  shown-Ok name boolean old new h = (_, refl)
  shown-Ok name (float precision is_single) old new h = (_, refl)
  shown-Ok name time old new h = (_, refl)
  shown-Ok name date old new h = (_, refl)
  shown-Ok name fake_delete old new h = (_, refl)
  shown-Ok name string old new h = (_, refl)
  shown-Ok name (uinteger_nullable size) old new h = (_, refl)
  shown-Ok name (integer_nullable size) old new h = (_, refl)
  shown-Ok name (string_enum e) old new h = enum-Ok name e old h
  shown-Ok name bytes old new h = (_, refl)
  shown-Ok name (string_set e) old new h = set-Ok name e old new h
  shown-Ok name boolean_nullable old new h = (_, refl)
  shown-Ok name (float_nullable precision is_single) old new h = (_, refl)
  shown-Ok name time_nullable old new h = (_, refl)
  shown-Ok name date_nullable old new h = (_, refl)
  shown-Ok name json old new h = json-Ok name old new
  shown-Ok name refs_many old new h = ids-Ok name (new_ids p f c name new) old

  compared-Ok :
      (is_same : Bool) (name : Text) (current : Result (Option (BindValue p)))
      (m : Map Text (BindValue p))
      → Ok current
      → (noted : Map Text (BindValue p)) × (compared p c is_same name current m
          ≡ ok (record { same = is_same; current = noted }))
  unfolding compared note_current
  compared-Ok is_same name current m (none, e) = elim (Bool-cases c.has_current) [
    | inl kept ↦ (m, rw (kept, e) refl)
    | inr not_kept ↦ (m, rw not_kept refl)
  ]
  compared-Ok is_same name current m (some v, e) = elim (Bool-cases c.has_current) [
    | inl kept ↦ (insert text_discrete name v m, rw (kept, e) refl)
    | inr not_kept ↦ (m, rw not_kept refl)
  ]

  -- A result whose bind is empty if the old one was and nothing was bound.
  abbrev pub Lands : Result (BindBuilder p) → Bool → BindBuilder p → Type 0
  Lands result is_same b =
      (b' : BindBuilder p) × (result ≡ ok b') × (is_empty b'.bind ≡ (is_same && is_empty b.bind))

  finish-Lands :
      (is_same : Bool) (name : Text) (to_add : BindBuilder p → Result (BindBuilder p))
      (noted : Map Text (BindValue p)) (b : BindBuilder p)
      → ((b1 : BindBuilder p) → Bound p f c name b1 (to_add b1))
      → Lands (finish p c to_add b (record { same = is_same; current = noted })) is_same b
  unfolding finish
  finish-Lands true name to_add noted b h = (record b { current = noted }, refl, refl)
  finish-Lands false name to_add noted b h =
      let (b', result, filled, names) = h (record b { current = noted }) in (b', result, filled)

  decide-Lands :
      (is_same : Bool) (name : Text) (current : Result (Option (BindValue p)))
      (to_add : BindBuilder p → Result (BindBuilder p)) (b : BindBuilder p)
      → Ok current
      → ((b1 : BindBuilder p) → Bound p f c name b1 (to_add b1))
      → Lands (decide p f c is_same name current to_add b) is_same b
  decide-Lands is_same name current to_add b shows adds =
      let (noted, e) = compared-Ok is_same name current b.current shows in
      rw (decide, e) (finish-Lands is_same name to_add noted b adds)

  compare_cell-Lands :
      (name : Text) (path : List ℕ) (k : Kind) (old new : Value p k) (b : BindBuilder p)
      → Fits p k old
      → IsValid p f c name k new
      → Lands
          (compare_cell p f c name path k old new b)
          (is_identifier p f c path k || same p f c k old new)
          b
  unfolding compare_cell
  compare_cell-Lands name path k old new b h valid =
      elim (Bool-cases (is_identifier p f c path k)) [
        | inl is ↦ rw is (b, refl, refl)
        | inr other ↦ rw other (
            decide-Lands (same p f c k old new) name _ _ b (shown-Ok name k old new h)
              (λ b1. add-Bound p f c name k new b1 valid))
      ]

  -- The comparison of the code finds a change in some field but the identifier.
  unfoldable pub any_changed : Elem p → Elem p → List Column → Bool
  unfolding same is_identifier
  any_changed old new [] = false
  any_changed old new (col ∷ cols) =
      let rest = any_changed old new cols in
      not (
        is_identifier p f c col.path col.kind
        || same p f c col.kind (old col.path col.kind) (new col.path col.kind))
      || rest

  -- The new values can be bound under the names of their columns.
  abbrev pub AreValid : Elem p → ℕ → List Column → Type 0
  AreValid new i [] = Unit
  AreValid new i (col ∷ cols) =
      IsValid p f c (c.column_names i) col.kind (new col.path col.kind) × AreValid new (i + 1) cols

  step : (t rest empty : Bool) → (not rest && (t && empty)) ≡ (not (not t || rest) && empty)
  step t rest empty = ground arith

  pub compare_columns-Lands :
      (old new : Elem p) (i : ℕ) (cols : List Column) (b : BindBuilder p)
      → All (FitsColumn p old) cols
      → AreValid new i cols
      → Lands (compare_columns p f c old new i cols b) (not (any_changed old new cols)) b
  unfolding compare_columns any_changed
  compare_columns-Lands old new i [] b h valid = (b, refl, refl)
  compare_columns-Lands old new i (col ∷ cols) b h valid =
      let (b1, e, is) =
        compare_cell-Lands (c.column_names i) col.path col.kind (old col.path col.kind)
          (new col.path col.kind) b h.0 valid.0 in
      let (b2, e2, is2) = compare_columns-Lands old new (i + 1) cols b1 h.1 valid.1 in
      (
        b2,
        rw (compare_columns, e) e2,
        is2
            ∙ ap (λ x. not (any_changed old new cols) && x) is
            ∙ step _ (any_changed old new cols) (is_empty b.bind),
      )
