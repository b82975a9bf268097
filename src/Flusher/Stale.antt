-- ===== src/Flusher/Stale.antt =====
-- flusher.go: which results of cached queries an update removes.
use beeorm.Prelude.{
  ◌≡◌, refl, subst, Bool, true, false, List, [], ◌∷◌, All, Map, Text, Bool-cases, lookup,
  text_discrete, inl, inr, ◌⊎◌, arith, if◌then◌else◌, ◌&&◌, none, some, map, eqb_text, ℕ,
}
use beeorm.Flusher.World.{Ref, Schema, CachedQueryDefinition, Model, World}
use beeorm.Flusher.Caches.{update_cache_after_update}
use beeorm.Flusher.Waiting.{IsRemoved, IsRemoved-left, IsRemoved-right, IsQueued}
use beeorm.Flusher.Queued.{updated-IsQueued}
use beeorm.Flusher.Queries.{
  fake_delete_column, has_key, any_tracked, counts_as_added, attribute, attributes, index_keys,
  is_nil, get_cache_queries_keys,
}

-- The cached query is one of the schema's.
abbrev pub IsIndex : Text → CachedQueryDefinition → Map Text CachedQueryDefinition → Type 0
IsIndex name definition [] = ⊥
IsIndex name definition ((n, d) ∷ rest) =
    ((name ≡ n) × (definition ≡ d)) ⊎ IsIndex name definition rest

any_tracked-more :
    {V : Type 0} (added : Bool) (bind : Map Text V) (fields : List Text)
    → any_tracked false bind fields ≡ true
    → any_tracked added bind fields ≡ true
unfolding any_tracked
any_tracked-more added bind [] h = h
any_tracked-more added bind (f ∷ fields) h = grind (arith, any_tracked-more added bind fields)

chosen : (key : Text) (b : Bool) → b ≡ true → IsRemoved key (if b then key ∷ [] else [])
chosen key true h = inl refl
chosen key false h = cc

not_added :
    {V : Type 0} (schema : Schema) (bind : Map Text V)
    → has_key (lookup text_discrete fake_delete_column bind) ≡ false
    → counts_as_added schema bind false ≡ false
not_added schema bind h = elim (Bool-cases schema.has_fake_delete) [
  | inl e ↦ rw (e, h) refl
  | inr e ↦ rw e refl
]

-- The columns that the key of a cached query is made of: `FakeDelete` is left out where the table has it.
abbrev key_columns : Bool → List Text → List Text
key_columns fake_delete [] = []
key_columns fake_delete (column ∷ columns) =
    let rest = key_columns fake_delete columns in
    if fake_delete && eqb_text column fake_delete_column then rest else column ∷ rest

-- The row before an update, and the row after it; a column that is missing is nil.
abbrev pub row_before : {V : Type 0} → V → Map Text V → Text → V
row_before nil current column = elim (lookup text_discrete column current) [
  | none ↦ nil
  | some v ↦ v
]

abbrev pub row_after : {V : Type 0} → V → Map Text V → Map Text V → Text → V
row_after nil bind current column = elim (lookup text_discrete column bind) [
  | none ↦ row_before nil current column
  | some v ↦ v
]

-- The key of the results of a cached query for the values of a row.
abbrev pub key_of_row :
    (m : Model) → Schema → Text → CachedQueryDefinition → (Text → m.Value) → Text
key_of_row m schema name definition row =
    m.get_cache_key_search schema name
      (map row (key_columns schema.has_fake_delete definition.query_fields))

module _ (m : Model) (schema : Schema) (bind current : Map Text m.Value) where
  attribute-old :
      (column : Text) → attribute m bind current true column ≡ row_before m.nil_value current column
  attribute-old column = ground arith

  attribute-new :
      (column : Text)
      → attribute m bind current false column ≡ row_after m.nil_value bind current column
  attribute-new column = ground arith

  attributes-row :
      (old : Bool) (row : Text → m.Value)
      → ((column : Text) → attribute m bind current old column ≡ row column)
      → (columns : List Text)
      → attributes m schema bind current old columns
        ≡ map row (key_columns schema.has_fake_delete columns)
  unfolding attributes
  attributes-row old row same [] = refl
  attributes-row old row same (column ∷ columns) =
      ground (arith, same column, attributes-row old row same columns)

module _ (m : Model) (schema : Schema) (bind current : Map Text m.Value) (old : Bool) where
  abbrev key_of : Text → CachedQueryDefinition → Text
  key_of name definition =
      m.get_cache_key_search schema name
        (attributes m schema bind current old definition.query_fields)

  index-IsRemoved :
      (added : Bool) (name : Text) (definition : CachedQueryDefinition)
      → any_tracked false bind definition.tracked_fields ≡ true
      → IsRemoved
          (key_of name definition)
          (index_keys m schema bind current old added name definition)
  unfolding index_keys
  index-IsRemoved added name definition h =
      IsRemoved-right (key_of name definition)
        (if added && is_nil definition.tracked_fields
          then m.get_cache_key_search schema name [] ∷ []
          else [])
        _
        (chosen (key_of name definition) (any_tracked added bind definition.tracked_fields)
          (any_tracked-more added bind definition.tracked_fields h))

  all-IsRemoved :
      (indexes : Map Text CachedQueryDefinition) (added : Bool) (name : Text)
      (definition : CachedQueryDefinition)
      → IsIndex name definition indexes
      → any_tracked false bind definition.tracked_fields ≡ true
      → IsRemoved
          (key_of name definition)
          (get_cache_queries_keys m schema bind current old added indexes)
  unfolding get_cache_queries_keys
  all-IsRemoved [] added name definition h changed = absurd h
  all-IsRemoved ((n, d) ∷ rest) added name definition (inl (same_name, same)) changed =
      let counted = counts_as_added schema bind added in
      IsRemoved-left (key_of name definition) _ _ (
        subst
          (λ d'.
            IsRemoved (key_of name definition) (index_keys m schema bind current old counted n d'))
          same
          (subst
            (λ n'.
              IsRemoved (key_of name definition)
                (index_keys m schema bind current old counted n' definition))
            same_name (index-IsRemoved counted name definition changed)))
  all-IsRemoved ((n, d) ∷ rest) added name definition (inr h) changed =
      IsRemoved-right (key_of name definition) _ _
        (all-IsRemoved rest (counts_as_added schema bind added) name definition h changed)

  none_removed :
      (indexes : Map Text CachedQueryDefinition)
      → has_key (lookup text_discrete fake_delete_column bind) ≡ false
      → All (λ index. any_tracked false bind index.1.tracked_fields ≡ false) indexes
      → get_cache_queries_keys m schema bind current old false indexes ≡ []
  unfolding get_cache_queries_keys index_keys
  none_removed [] h unchanged = refl
  none_removed ((n, d) ∷ rest) h unchanged =
      rw (not_added schema bind h, unchanged.0, none_removed rest h unchanged.1) refl

-- An update that changes a tracked column of a cached query removes the results of that query: the key
-- made of the values before the update and the key made of the values after it both wait to be
-- removed, from the local cache where the schema or the engine has one and from Redis where the
-- schema uses it, also after the event for the log.
pub update-IsRemoved :
    (m : Model) (r : Ref) (bind current : Map Text m.Value) (id : ℕ) (w : World m) (name : Text)
    (definition : CachedQueryDefinition)
    → IsIndex name definition (m.schema (w.store r).table).cached_indexes_all
    → any_tracked false bind definition.tracked_fields ≡ true
    → let schema = m.schema (w.store r).table in
      let key = key_of_row m schema name definition in
      let after = (update_cache_after_update m r bind current id w).1 in
      IsQueued schema (key (row_before m.nil_value current)) after
      × IsQueued schema (key (row_after m.nil_value bind current)) after
update-IsRemoved m r bind current id w name definition listed changed =
    let schema = m.schema (w.store r).table in
    let indexes = schema.cached_indexes_all in
    let keys = λ (old : Bool). get_cache_queries_keys m schema bind current old false indexes in
    let columns = definition.query_fields in
    let before = row_before m.nil_value current in
    let now = row_after m.nil_value bind current in
    let search_key = m.get_cache_key_search schema name in
    let olds =
      attributes-row m schema bind current true before (attribute-old m schema bind current)
        columns in
    let news =
      attributes-row m schema bind current false now (attribute-new m schema bind current)
        columns in
    let old =
      subst (λ a. IsRemoved (search_key a) (keys true)) olds
        (all-IsRemoved m schema bind current true indexes false name definition listed changed) in
    let new =
      subst (λ a. IsRemoved (search_key a) (keys false)) news
        (all-IsRemoved m schema bind current false indexes false name definition listed changed) in
    (
      updated-IsQueued r bind current id (key_of_row m schema name definition before) w (
          IsRemoved-left (key_of_row m schema name definition before) (keys true) (keys false) old),
      updated-IsQueued r bind current id (key_of_row m schema name definition now) w
          (IsRemoved-right (key_of_row m schema name definition now) (keys true) (keys false) new),
    )

-- An update that changes no tracked column of a cached query and leaves `FakeDelete` as it is removes
-- no results.
pub update-nothing :
    (m : Model) (schema : Schema) (bind current : Map Text m.Value) (old : Bool)
    → has_key (lookup text_discrete fake_delete_column bind) ≡ false
    → All (λ index. any_tracked false bind index.1.tracked_fields ≡ false) schema.cached_indexes_all
    → get_cache_queries_keys m schema bind current old false schema.cached_indexes_all ≡ []
update-nothing m schema bind current old h unchanged =
    none_removed m schema bind current old schema.cached_indexes_all h unchanged
