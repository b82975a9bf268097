-- ===== src/Bind/Strings.antt =====
-- bind_builder.go: the columns that hold texts, enums, bytes, sets, JSON and lists of references, each as the
-- body of the loop of its function.
use beeorm.Prelude.{
  ℕ, ◌==◌, ◌^◌, ltb, Bool, true, false, ◌&&◌, not, if◌then◌else◌, Option, none, some, List, [], ◌∷◌,
  ◌++◌, length, map, Text, codes, eqb_text, join, format_uint, Result, panic, ok,
  unknown_enum_value, empty_enum_value,
}
use beeorm.Serializer.{
  Reader, pure, ◌>>=◌, deserialize_uinteger, deserialize_string, deserialize_bytes,
}
use beeorm.Enum.{Enum, has, index, field_at}
use beeorm.Orm.{Platform}
use beeorm.Orm.Cells.{read_each}
use beeorm.Bind.{
  BindValue, bind_nil, bind_string, Formats, Context, BindBuilder, null_sql, quote, compare,
  set_bind, set_empty, empty_current, build_column,
}
use beeorm.Bind.Escape.{escape_sql_string}

unfoldable pub is_empty : {A : Type 0} → List A → Bool
is_empty [] = true
is_empty (x ∷ xs) = false

unfoldable pub set_names : Enum → List ℕ → Result (List Text)
set_names e [] = ok []
set_names e (o ∷ os) = elim (field_at e o) [
  | panic x ↦ panic x
  | ok name ↦ elim (set_names e os) [ panic x ↦ panic x | ok names ↦ ok (name ∷ names) ]
]

unfoldable pub is_among : ℕ → List ℕ → Bool
is_among i [] = false
is_among i (o ∷ os) = let rest = is_among i os in if o == i then true else rest

unfoldable pub all_among : Enum → List Text → List ℕ → Bool
unfolding is_among
all_among e [] old = true
all_among e (v ∷ vs) old =
    let rest = all_among e vs old in if is_among (index e v) old then rest else false

-- The text of identifiers that the loop of `buildRefsMany` puts together.
unfoldable pub ids_text : List ℕ → Text
unfolding format_uint join
ids_text ids = b'[' ∷ (join (codes ",") (map format_uint ids) ++ codes "]")

module _ (p : Platform) (f : Formats p) (c : Context) (name : Text) where
  abbrev pub shown_text : Text → Result (Option (BindValue p))
  shown_text old = ok (some (if is_empty old then empty_current p c name else bind_string old))

  abbrev pub add_string : Text → BindBuilder p → Result (BindBuilder p)
  add_string v b = ok (
      if is_empty v
      then set_empty p c name (codes "''") b
      else set_bind p c name (bind_string v) (escape_sql_string v) b)

  unfoldable pub build_string : Text → BindBuilder p → Reader (BindBuilder p)
  unfolding set_bind set_empty escape_sql_string eqb_text is_empty
  build_string v =
      build_column p c
        (compare p c (deserialize_string p.binary) (λ old. eqb_text old v) shown_text name)
        (add_string v)

  abbrev pub shown_enum : Enum → ℕ → Result (Option (BindValue p))
  shown_enum e old =
      if old == 0
      then ok (some bind_nil)
      else elim (field_at e old) [ panic x ↦ panic x | ok v ↦ ok (some (bind_string v)) ]

  -- An entity of the database must keep a required value, a new one gets the default.
  abbrev pub add_no_enum : Enum → BindBuilder p → Result (BindBuilder p)
  add_no_enum e b =
      if c.is_required name
      then (if c.in_db
          then panic empty_enum_value
          else ok (set_bind p c name (bind_string e.default_value) (quote e.default_value) b))
      else ok (set_bind p c name bind_nil null_sql b)

  abbrev pub add_enum : Enum → Text → BindBuilder p → Result (BindBuilder p)
  add_enum e v b =
      if is_empty v
      then add_no_enum e b
      else (if has e v
          then ok (set_bind p c name (bind_string v) (quote v) b)
          else panic unknown_enum_value)

  unfoldable pub build_enum : Enum → Text → BindBuilder p → Reader (BindBuilder p)
  unfolding set_bind is_empty has index field_at
  build_enum e v =
      build_column p c
        (compare p c (deserialize_uinteger p.binary) (λ old. old == index e v) (shown_enum e) name)
        (add_enum e v)

  -- The value that is noted as the current one is the new value.
  unfoldable pub build_bytes : Text → BindBuilder p → Reader (BindBuilder p)
  unfolding set_bind escape_sql_string eqb_text is_empty
  build_bytes v =
      build_column p c
        (compare p c (deserialize_string p.binary) (λ old. eqb_text old v)
          (λ old. ok (some (if is_empty old then bind_nil else bind_string v))) name)
        (λ b. ok (
          if is_empty v
          then set_bind p c name bind_nil null_sql b
          else set_bind p c name (bind_string v) (escape_sql_string v) b))

  -- `int(l)` is negative from 2 ^ 63 on.
  abbrev pub read_set : Reader (ℕ × List ℕ)
  read_set = do
    l ← deserialize_uinteger p.binary
    xs ← (if ltb l (2 ^ 63) then read_each (deserialize_uinteger p.binary) l else pure [])
    pure (l, xs)

  -- The old names are noted only if there are as many as new ones.
  abbrev pub shown_set : Enum → List Text → ℕ × List ℕ → Result (Option (BindValue p))
  shown_set e vs old =
      if (old.0 == length vs) && not (is_empty vs)
      then elim (set_names e old.1) [
        | panic x ↦ panic x
        | ok names ↦ ok (some (bind_string (join (codes ",") names)))
      ]
      else ok (some (empty_current p c name))

  unfoldable pub build_set : Enum → List Text → BindBuilder p → Reader (BindBuilder p)
  unfolding set_bind set_empty read_each is_empty set_names all_among join
  build_set e vs =
      build_column p c
        (compare p c read_set (λ old. (old.0 == length vs) && all_among e vs old.1) (shown_set e vs)
          name)
        (λ b. ok (
          if is_empty vs
          then set_empty p c name (codes "''") b
          else set_bind p c name (bind_string (join (codes ",") vs)) (quote (join (codes ",") vs))
              b))

  abbrev pub json_text : Option p.Json → Text
  json_text none = f.marshal_nil
  json_text (some j) = p.marshal j

  abbrev pub is_none : Option p.Json → Bool
  is_none none = true
  is_none (some j) = false

  abbrev pub add_json : Option p.Json → BindBuilder p → Result (BindBuilder p)
  add_json none b = ok (set_empty p c name (codes "''") b)
  add_json (some j) b =
      ok (set_bind p c name (bind_string (p.marshal j)) (escape_sql_string (p.marshal j)) b)

  -- The texts are compared by what they hold.
  unfoldable pub build_json : Option p.Json → BindBuilder p → Reader (BindBuilder p)
  unfolding set_bind set_empty escape_sql_string is_empty
  build_json v =
      build_column p c
        (compare p c (deserialize_bytes p.binary)
          (λ old. if is_empty old then is_none v else f.equal_json old (json_text v)) shown_text
          name)
        (add_json v)

  -- The JSON of the new identifiers, "" without any.
  abbrev pub new_ids : List ℕ → Text
  new_ids [] = []
  new_ids (id ∷ ids) = f.marshal_ids (id ∷ ids)

  -- With a new value the first identifier is read before the loop tests `int(l)`, which is negative
  -- from 2 ^ 63 on.
  abbrev pub read_ids : Text → Reader (ℕ × List ℕ)
  read_ids v = do
    l ← deserialize_uinteger p.binary
    ids ←
        (if ltb l (2 ^ 63)
          then read_each (deserialize_uinteger p.binary) l
          else (if is_empty v
              then pure []
              else (deserialize_uinteger p.binary >>= λ id. pure (id ∷ []))))
    pure (l, ids)

  abbrev pub same_ids : Text → ℕ × List ℕ → Bool
  same_ids v old =
      if old.0 == 0 then is_empty v else (if is_empty v then false else eqb_text (ids_text old.1) v)

  -- Nothing is noted when all references were removed.
  abbrev pub shown_ids : Text → ℕ × List ℕ → Result (Option (BindValue p))
  shown_ids v old =
      if old.0 == 0
      then ok (some (empty_current p c name))
      else (if is_empty v then ok none else ok (some (bind_string (ids_text old.1))))

  unfoldable pub build_refs_many : List ℕ → BindBuilder p → Reader (BindBuilder p)
  unfolding set_bind set_empty read_each is_empty eqb_text ids_text
  build_refs_many ids =
      let v = new_ids ids in
      build_column p c (compare p c (read_ids v) (same_ids v) (shown_ids v) name) (λ b. ok (
        if is_empty v
        then set_empty p c name (codes "'[]'") b
        else set_bind p c name (bind_string v) (quote v) b))
