-- ===== src/Flusher/Pending.antt =====
-- flusher.go: the cache updates and the log events that a flush collects until it ends.
use beeorm.Prelude.{
  ℕ, suc, Bool, true, false, ◌||◌, not, Option, none, some, List, [], ◌∷◌, Map, Text, codes, Result,
  ok, panic, lookup, insert, text_discrete, length, if◌then◌else◌, ◌==◌,
}
use beeorm.RedisFlusher.{Pipelines, Event, del, set, publish, append_to}
use beeorm.Flusher.Queries.{has_key}
use beeorm.Flusher.World.{Ref, Schema, Model, World, Action, set_entity}

abbrev pub request_cache_key : Text
request_cache_key = codes "_request"

abbrev pub log_channel_name : Text
log_channel_name = codes "orm-log-channel"

abbrev pub pipelines_of : Option Pipelines → Pipelines
pipelines_of none = []
pipelines_of (some f) = f

module _ (m : Model) where
  -- `schema.GetLocalCache`, and the request cache of the engine where the schema has none.
  unfoldable pub local_cache_of : Schema → Option Text
  local_cache_of schema = elim schema.local_cache [
    | some code ↦ some code
    | none ↦ if m.has_request_cache then some request_cache_key else none
  ]

  unfoldable pub add_local_cache_set : Text → Text → Text → World m → World m
  add_local_cache_set code key value w = record w {
    local_cache_sets =
        insert text_discrete code
          (append_to (lookup text_discrete code w.local_cache_sets) ((key, value) ∷ []))
          w.local_cache_sets;
  }

  unfoldable pub add_local_cache_deletes : Text → List Text → World m → World m
  add_local_cache_deletes code [] w = w
  add_local_cache_deletes code (k ∷ ks) w = record w {
    local_cache_deletes =
        insert text_discrete code
          (append_to (lookup text_discrete code w.local_cache_deletes) (k ∷ ks))
          w.local_cache_deletes;
  }

  unfoldable pub get_redis_flusher : World m → World m
  get_redis_flusher w = elim w.redis_flusher [
    | some f ↦ w
    | none ↦ elim w.engine.after_commit_redis_flusher [
      | some f ↦ record w { redis_flusher = some f; shared = true }
      | none ↦ record w { redis_flusher = some []; shared = false }
    ]
  ]

  -- The object of the flusher is written; the engine sees it where it is the same object.
  unfoldable pub put_pipelines : Pipelines → World m → World m
  put_pipelines f w = record w {
    redis_flusher = some f;
    engine = if w.shared then record w.engine { after_commit_redis_flusher = some f } else w.engine;
  }

  -- `f.getRedisFlusher().Del(pool, keys...)`
  unfoldable pub redis_del : Text → List Text → World m → World m
  unfolding get_redis_flusher put_pipelines
  redis_del pool keys w =
      let ready = get_redis_flusher w in
      put_pipelines (del pool keys (pipelines_of ready.redis_flusher)) ready

  unfoldable pub put_result : Result Pipelines → Action m Unit
  unfolding put_pipelines
  put_result (panic p) w = (panic p, w)
  put_result (ok f) w = (ok tt, put_pipelines f w)

  -- `f.getRedisFlusher().Set(pool, key, value)`
  unfoldable pub redis_set : Text → Text → Text → Action m Unit
  unfolding get_redis_flusher put_result
  redis_set pool key value w =
      let ready = get_redis_flusher w in
      put_result (set pool key value (pipelines_of ready.redis_flusher)) ready

  -- `f.getRedisFlusher().Publish(LogChannelName, val)`
  unfoldable pub redis_publish : Event → Action m Unit
  unfolding get_redis_flusher put_result
  redis_publish event w =
      let ready = get_redis_flusher w in
      put_result
        (publish m.redis_stream_pools log_channel_name event (pipelines_of ready.redis_flusher))
        ready

  -- The number of columns in `skipLogs` that changed.
  unfoldable pub skipped : List Text → Map Text m.Value → ℕ
  skipped [] changes = 0
  skipped (skip ∷ rest) changes =
      let count = skipped rest changes in
      if has_key (lookup text_discrete skip changes) then suc count else count

  abbrev is_skipped : List Text → Option (Map Text m.Value) → Bool
  is_skipped [] changes = false
  is_skipped (skip ∷ rest) none = false
  is_skipped (skip ∷ rest) (some changes) = skipped (skip ∷ rest) changes == length changes

  -- `for k, v := range logMetaData { Meta[k] = v }`
  unfoldable pub merge_meta : Map Text m.Value → Map Text m.Value → Map Text m.Value
  merge_meta meta [] = meta
  merge_meta meta ((k, v) ∷ rest) = merge_meta (insert text_discrete k v meta) rest

  abbrev meta_entries : Option (Map Text m.Value) → Map Text m.Value
  meta_entries none = []
  meta_entries (some meta) = meta

  abbrev meta_of : Option (Map Text m.Value) → Option (Map Text m.Value)
  meta_of none = m.log_meta_data
  meta_of (some meta) = some (merge_meta meta (meta_entries m.log_meta_data))

  -- What is merged stays in the entity's own map.
  abbrev kept_meta : Option (Map Text m.Value) → Option (Map Text m.Value)
  kept_meta none = none
  kept_meta (some meta) = some (merge_meta meta (meta_entries m.log_meta_data))

  unfoldable pub add_to_log_queue :
      Ref → ℕ → Option (Map Text m.Value) → Option (Map Text m.Value) → Action m Unit
  unfolding skipped set_entity redis_publish
  add_to_log_queue r id before changes w =
      let e = w.store r in
      let schema = m.schema e.table in
      if not schema.has_log || is_skipped schema.skip_logs changes
      then (ok tt, w)
      else redis_publish (m.log_event schema id before changes (meta_of e.log_meta))
          (set_entity r (record e { log_meta = kept_meta e.log_meta }) w)
