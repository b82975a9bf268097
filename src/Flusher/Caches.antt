-- ===== src/Flusher/Caches.antt =====
-- flusher.go: how a row that is inserted, updated or deleted goes to the caches, and how the updates
-- collected are sent.
use beeorm.Prelude.{
  ℕ, Bool, true, false, Option, none, some, List, [], ◌∷◌, ◌++◌, Map, Text, ok, lookup, insert,
  text_discrete, if◌then◌else◌,
}
use beeorm.LoadById.{get_cache_key}
use beeorm.RedisFlusher.{append_to, flush}
use beeorm.Db.{Pair, Publish, local_mset, local_remove, requests}
use beeorm.Flusher.World.{Ref, Schema, Model, World, Action, and_then, modify}
use beeorm.Flusher.Queries.{get_cache_queries_keys}
use beeorm.Flusher.Pending.{
  local_cache_of, add_local_cache_set, add_local_cache_deletes, get_redis_flusher, put_pipelines,
  redis_del, redis_set, add_to_log_queue,
}

module _ (m : Model) where
  -- The value of a row in a local cache, and the removal of the results of cached queries.
  unfoldable pub to_local_cache : Schema → Text → Text → List Text → World m → World m
  unfolding local_cache_of add_local_cache_set add_local_cache_deletes
  to_local_cache schema key value keys w = elim (local_cache_of m schema) [
    | none ↦ w
    | some code ↦ add_local_cache_deletes m code keys (add_local_cache_set m code key value w)
  ]

  -- A row is removed from Redis, with the results of cached queries.
  unfoldable pub drop_from_redis : Schema → Text → List Text → World m → World m
  unfolding redis_del
  drop_from_redis schema key keys w = elim schema.redis_cache [
    | none ↦ w
    | some code ↦ redis_del m code keys (redis_del m code (key ∷ []) w)
  ]

  -- A new row goes to Redis only where its id is a UUID.
  unfoldable pub inserted_to_redis : Schema → Text → Text → List Text → Action m Unit
  unfolding redis_del redis_set drop_from_redis
  inserted_to_redis schema key value keys w = elim schema.redis_cache [
    | none ↦ (ok tt, w)
    | some code ↦
        if schema.has_uuid
        then and_then (redis_set m code key value w) (λ _. modify (redis_del m code keys))
        else (ok tt, drop_from_redis schema key keys w)
  ]

  unfoldable pub update_cache_for_inserted : Ref → ℕ → Map Text m.Value → Action m Unit
  unfolding get_cache_queries_keys to_local_cache inserted_to_redis add_to_log_queue get_cache_key
  update_cache_for_inserted r id bind w =
      let e = w.store r in
      let schema = m.schema e.table in
      let key = get_cache_key schema.config id in
      let keys = get_cache_queries_keys m schema bind [] false true schema.cached_indexes_all in
      and_then
        (inserted_to_redis schema key e.binary keys (to_local_cache schema key e.binary keys w))
        (λ _. add_to_log_queue m r id none (some bind))

  -- The keys of the row before and of the row now are added one after the other.
  unfoldable pub update_cache_after_update :
      Ref → Map Text m.Value → Map Text m.Value → ℕ → Action m Unit
  unfolding get_cache_queries_keys to_local_cache drop_from_redis add_to_log_queue get_cache_key
  update_cache_after_update r bind current id w =
      let e = w.store r in
      let schema = m.schema e.table in
      let key = get_cache_key schema.config id in
      let indexes = schema.cached_indexes_all in
      let keys =
        get_cache_queries_keys m schema bind current true false indexes
        ++ get_cache_queries_keys m schema bind current false false indexes in
      let cached = drop_from_redis schema key keys (to_local_cache schema key e.binary keys w) in
      if schema.has_log
      then add_to_log_queue m r id (some current) (some bind) cached
      else (ok tt, cached)

  -- What a deleted row does to the caches: the empty value stands for `cacheNilValue`.
  unfoldable pub update_cache_after_delete :
      Schema → ℕ → Map Text m.Value → Map Text m.Value → World m → World m
  unfolding get_cache_queries_keys to_local_cache drop_from_redis get_cache_key
  update_cache_after_delete schema id bind current w =
      let key = get_cache_key schema.config id in
      let keys = get_cache_queries_keys m schema bind current true true schema.cached_indexes_all in
      drop_from_redis schema key keys (to_local_cache schema key [] keys w)

  unfoldable pub publish_all : List Publish → World m → World m
  publish_all ps w = record w { engine = record w.engine { published = w.engine.published ++ ps } }

  unfoldable pub removes : Map Text (List Text) → List Publish
  removes [] = []
  removes ((code, keys) ∷ rest) = local_remove code keys ∷ removes rest

  unfoldable pub set_now : Map Text (List Pair) → List Publish
  set_now [] = []
  set_now ((code, pairs) ∷ rest) = local_mset code pairs ∷ set_now rest

  abbrev entries : Option (Map Text (List Pair)) → Map Text (List Pair)
  entries none = []
  entries (some sets) = sets

  -- The sets that wait for the commit, added to those of the engine.
  unfoldable pub set_later :
      Map Text (List Pair) → Option (Map Text (List Pair)) → Option (Map Text (List Pair))
  set_later [] later = later
  set_later ((code, pairs) ∷ rest) later =
      let old = entries later in
      set_later rest
        (some (insert text_discrete code (append_to (lookup text_discrete code old) pairs) old))

  -- The removals are not put off until the commit.
  unfoldable pub update_local_cache : Bool → World m → World m
  unfolding publish_all removes set_now set_later
  update_local_cache transaction w =
      let removed = publish_all (removes w.local_cache_deletes) w in
      if transaction
      then record removed {
        engine = record removed.engine {
          after_commit_local_cache_sets =
              set_later w.local_cache_sets removed.engine.after_commit_local_cache_sets;
        };
      }
      else publish_all (set_now w.local_cache_sets) removed

  unfoldable pub share_redis_flusher : World m → World m
  unfolding get_redis_flusher
  share_redis_flusher w =
      let ready = get_redis_flusher m w in
      record ready {
        engine = record ready.engine { after_commit_redis_flusher = ready.redis_flusher };
        shared = true;
      }

  -- `f.redisFlusher.Flush()`
  unfoldable pub flush_redis : World m → World m
  unfolding put_pipelines publish_all flush
  flush_redis w = elim w.redis_flusher [
    | none ↦ w
    | some f ↦ put_pipelines m (flush f).1 (publish_all (requests (flush f).0) w)
  ]

  unfoldable pub update_redis_cache : Bool → Bool → World m → World m
  unfolding share_redis_flusher flush_redis
  update_redis_cache root transaction w =
      if transaction then share_redis_flusher w else if root then flush_redis w else w
