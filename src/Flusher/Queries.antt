-- ===== src/Flusher/Queries.antt =====
-- flusher.go: the keys of the cached queries whose results a saved row may change.
use beeorm.Prelude.{
  Bool, true, false, ◌&&◌, ◌||◌, not, Option, none, some, List, [], ◌∷◌, ◌++◌, Map, Text, codes,
  lookup, text_discrete, eqb_text, if◌then◌else◌,
}
use beeorm.Flusher.World.{Schema, CachedQueryDefinition, Model}

abbrev pub fake_delete_column : Text
fake_delete_column = codes "FakeDelete"

abbrev pub has_key {ℓ} : {V : Type ℓ} → Option V → Bool
has_key none = false
has_key (some v) = true

-- The loop over the tracked fields stops at the first that calls for the key.
unfoldable pub any_tracked : {V : Type 0} → Bool → Map Text V → List Text → Bool
any_tracked added_deleted bind [] = false
any_tracked added_deleted bind (field ∷ fields) =
    if has_key (lookup text_discrete field bind) || added_deleted
    then true
    else any_tracked added_deleted bind fields

abbrev pub is_nil : List Text → Bool
is_nil [] = true
is_nil (x ∷ xs) = false

-- A change of the column `FakeDelete` counts as a row added or deleted.
abbrev pub counts_as_added : {V : Type 0} → Schema → Map Text V → Bool → Bool
counts_as_added schema bind added_deleted =
    if not added_deleted && schema.has_fake_delete
    then has_key (lookup text_discrete fake_delete_column bind)
    else added_deleted

module _ (m : Model) where
  abbrev value_or_nil : Option m.Value → m.Value
  value_or_nil none = m.nil_value
  value_or_nil (some v) = v

  -- The value of one query field: of the new row, or with `old` of the row before.
  abbrev pub attribute : Map Text m.Value → Map Text m.Value → Bool → Text → m.Value
  attribute bind current old field =
      if not (has_key (lookup text_discrete field bind)) || old
      then value_or_nil (lookup text_discrete field current)
      else value_or_nil (lookup text_discrete field bind)

  unfoldable pub attributes :
      Schema → Map Text m.Value → Map Text m.Value → Bool → List Text → List m.Value
  attributes schema bind current old [] = []
  attributes schema bind current old (field ∷ fields) =
      let rest = attributes schema bind current old fields in
      if not schema.has_fake_delete || not (eqb_text field fake_delete_column)
      then attribute bind current old field ∷ rest
      else rest

  -- The keys of one cached query.
  unfoldable pub index_keys :
      Schema
      → Map Text m.Value
      → Map Text m.Value
      → Bool
      → Bool
      → Text
      → CachedQueryDefinition
      → List Text
  unfolding any_tracked attributes
  index_keys schema bind current old added_deleted name definition =
      (if added_deleted && is_nil definition.tracked_fields
        then m.get_cache_key_search schema name [] ∷ []
        else [])
      ++ (if any_tracked added_deleted bind definition.tracked_fields
          then m.get_cache_key_search schema name
              (attributes schema bind current old definition.query_fields)
            ∷ []
          else [])

  unfoldable pub get_cache_queries_keys :
      Schema
      → Map Text m.Value
      → Map Text m.Value
      → Bool
      → Bool
      → Map Text CachedQueryDefinition
      → List Text
  unfolding index_keys
  get_cache_queries_keys schema bind current old added_deleted [] = []
  get_cache_queries_keys schema bind current old added_deleted ((name, definition) ∷ rest) =
      let added = counts_as_added schema bind added_deleted in
      index_keys schema bind current old added name definition
      ++ get_cache_queries_keys schema bind current old added rest
