-- ===== src/Flusher/Queued.antt =====
-- flusher.go: the keys that wait to be removed from the caches when an update is collected.
use beeorm.Prelude.{
  ℕ, ◌≡◌, refl, sym, subst, Bool, true, false, Option-cases, inl, inr, Option, some, List, [], ◌∷◌,
  ◌++◌, Map, Text, lookup, text_discrete,
}
use beeorm.RedisFlusher.{Event}
use beeorm.RedisFlusher.Record.{or_nil}
use beeorm.Flusher.World.{Ref, Schema, Model, World, Entity, set_entity}
use beeorm.Flusher.Loops.{if-keeps}
use beeorm.Flusher.Pending.{
  local_cache_of, add_local_cache_set, add_local_cache_deletes, redis_del, redis_publish,
  add_to_log_queue,
}
use beeorm.Flusher.Caches.{to_local_cache, drop_from_redis, update_cache_after_update}
use beeorm.Flusher.Queries.{get_cache_queries_keys}
use beeorm.Flusher.Waiting.{
  IsRemoved, InCache, InCache-map, local_waiting, redis_waiting, IsQueued, publish-deletes,
  publish-waiting, add_deletes-IsRemoved, drop-deletes, redis_del-IsRemoved,
}

module _ {m : Model} where
  published-IsQueued :
      (schema : Schema) (key : Text) (event : Event) (w : World m)
      → IsQueued schema key w
      → IsQueued schema key (redis_publish m event w).1
  published-IsQueued schema key event w (local, redis) = (
    InCache-map (local_cache_of m schema) _ _
        (λ code h.
          subst (λ d. IsRemoved key (or_nil (lookup text_discrete code d)))
            (sym (publish-deletes event w)) h)
        local,
    InCache-map schema.redis_cache _ _ (λ pool h. publish-waiting pool key event w h) redis,
  )

  written-IsQueued :
      (schema : Schema) (key : Text) (r : Ref) (e : Entity m.Content m.Value) (w : World m)
      → IsQueued schema key w
      → IsQueued schema key (set_entity r e w)
  unfolding set_entity
  written-IsQueued schema key r e w h = h

  to_local_cache-some :
      (schema : Schema) (row value code : Text) (keys : List Text) (w : World m)
      → local_cache_of m schema ≡ some code
      → to_local_cache m schema row value keys w
        ≡ add_local_cache_deletes m code keys (add_local_cache_set m code row value w)
  unfolding to_local_cache
  to_local_cache-some schema row value code keys w e = rw (to_local_cache, e) refl

  local-IsRemoved :
      (schema : Schema) (row key value : Text) (keys : List Text) (w : World m)
      → IsRemoved key keys
      → InCache
          (local_cache_of m schema)
          (λ code. IsRemoved key (local_waiting (to_local_cache m schema row value keys w) code))
  local-IsRemoved schema row key value keys w h = elim (Option-cases (local_cache_of m schema)) [
    | inl e ↦ rw e tt
    | inr (code, e) ↦ rw e (
        subst (λ v. IsRemoved key (local_waiting v code))
          (sym (to_local_cache-some schema row value code keys w e))
          (add_deletes-IsRemoved code key keys (add_local_cache_set m code row value w) h))
  ]

  redis-IsRemoved :
      (schema : Schema) (row key : Text) (keys : List Text) (w : World m)
      → IsRemoved key keys
      → InCache schema.redis_cache
          (λ pool. IsRemoved key (redis_waiting (drop_from_redis m schema row keys w) pool))
  unfolding drop_from_redis
  redis-IsRemoved schema row key keys w h = elim (Option-cases schema.redis_cache) [
    | inl e ↦ rw e tt
    | inr (pool, e) ↦ rw e (redis_del-IsRemoved pool key keys (redis_del m pool (row ∷ []) w) h)
  ]

  -- What an update adds to both caches.
  cached-IsQueued :
      (schema : Schema) (row key value : Text) (keys : List Text) (w : World m)
      → IsRemoved key keys
      → IsQueued schema key
          (drop_from_redis m schema row keys (to_local_cache m schema row value keys w))
  cached-IsQueued schema row key value keys w h =
      let filled = to_local_cache m schema row value keys w in
      (
        InCache-map (local_cache_of m schema) _ _
            (λ code there.
              subst (λ d. IsRemoved key (or_nil (lookup text_discrete code d)))
                (sym (drop-deletes schema row keys filled)) there)
            (local-IsRemoved schema row key value keys w h),
        redis-IsRemoved schema row key keys filled h,
      )

module _ {m : Model} (P : World m → Type 0)
    (published : (event : Event) (w : World m) → P w → P (redis_publish m event w).1)
    (written : (r : Ref) (e : Entity m.Content m.Value) (w : World m)
      → P w
      → P (set_entity r e w)) where
  logged-keeps :
      (r : Ref) (id : ℕ) (before changes : Option (Map Text m.Value)) (w : World m)
      → P w
      → P (add_to_log_queue m r id before changes w).1
  unfolding add_to_log_queue
  logged-keeps r id before changes w h = if-keeps P _ _ _ h (published _ _ (written r _ w h))

  update-keeps :
      (r : Ref) (bind current : Map Text m.Value) (id : ℕ) (w : World m)
      → let schema = m.schema (w.store r).table in
        let keys = λ (old : Bool).
          get_cache_queries_keys m schema bind current old false schema.cached_indexes_all in
        ((row : Text)
          → P (
              drop_from_redis m schema row
                (keys true ++ keys false)
                (to_local_cache m schema row (w.store r).binary (keys true ++ keys false) w)))
        → P (update_cache_after_update m r bind current id w).1
  unfolding update_cache_after_update
  update-keeps r bind current id w h = if-keeps P _ _ _ (logged-keeps r id _ _ _ (h _)) (h _)

-- A key of the row before or of the row now waits in both caches after an update.
pub updated-IsQueued :
    {m : Model} (r : Ref) (bind current : Map Text m.Value) (id : ℕ) (key : Text) (w : World m)
    → let schema = m.schema (w.store r).table in
      let keys = λ (old : Bool).
        get_cache_queries_keys m schema bind current old false schema.cached_indexes_all in
      IsRemoved key (keys true ++ keys false)
      → IsQueued
          (m.schema (w.store r).table)
          key
          (update_cache_after_update m r bind current id w).1
updated-IsQueued {m = m} r bind current id key w h =
    let schema = m.schema (w.store r).table in
    update-keeps (IsQueued schema key) (published-IsQueued schema key) (written-IsQueued schema key)
      r bind current id w (λ row. cached-IsQueued schema row key (w.store r).binary _ w h)
