-- ===== src/Flusher/Frame/Caches.antt =====
-- flusher.go: the calls that collect and send cache updates and log events keep the entities.
use beeorm.Prelude.{
  ◌∙◌, ◌≡◌, refl, ℕ, Bool, true, false, Option, none, some, List, [], ◌∷◌, ◌++◌, Map, Text, Result,
  ok, panic, arith,
}
use beeorm.Flusher.World.{Ref, Schema, Model, World}
use beeorm.Flusher.Loops.{and_then-keeps, if-keeps, elim-keeps}
use beeorm.RedisFlusher.{Pipelines, Event}
use beeorm.Flusher.Pending.{
  local_cache_of, add_local_cache_set, add_local_cache_deletes, get_redis_flusher, put_pipelines,
  redis_del, put_result, redis_set, redis_publish, add_to_log_queue,
}
use beeorm.Flusher.Caches.{
  to_local_cache, drop_from_redis, inserted_to_redis, update_cache_for_inserted,
  update_cache_after_update, update_cache_after_delete, update_local_cache, update_redis_cache,
  share_redis_flusher, flush_redis, publish_all,
}
use beeorm.LoadById.{get_cache_key}
use beeorm.Flusher.Queries.{get_cache_queries_keys}
use beeorm.Flusher.Frame.{Same, SameData, IsFramed}

module _ {m : Model} where
  add_deletes-Same :
      (code : Text) (keys : List Text) (w : World m)
      → Same w (add_local_cache_deletes m code keys w)
  unfolding add_local_cache_deletes
  add_deletes-Same code [] w = record {
    store = refl;
    tracked = refl;
    history = refl;
    update_sqls = refl;
    published = refl;
  }
  add_deletes-Same code (k ∷ ks) w = record {
    store = refl;
    tracked = refl;
    history = refl;
    update_sqls = refl;
    published = refl;
  }

  ready-Same : (w : World m) → Same w (get_redis_flusher m w)
  unfolding get_redis_flusher
  ready-Same w = record {
    store = ground arith;
    tracked = ground arith;
    history = ground arith;
    update_sqls = ground arith;
    published = ground arith;
  }

  put_published :
      (f : Pipelines) (w : World m) → (put_pipelines m f w).engine.published ≡ w.engine.published
  unfolding put_pipelines
  put_published f w = ground arith

  del-Same : (code : Text) (keys : List Text) (w : World m) → Same w (redis_del m code keys w)
  unfolding redis_del put_pipelines
  del-Same code keys w = record {
    store = (ready-Same w).store;
    tracked = (ready-Same w).tracked;
    history = (ready-Same w).history;
    update_sqls = (ready-Same w).update_sqls;
    published = put_published _ (get_redis_flusher m w) ∙ (ready-Same w).published;
  }

  put_result-Same : (f : Result Pipelines) (w : World m) → Same w (put_result m f w).1
  unfolding put_result put_pipelines
  put_result-Same (panic p) w = record {
    store = refl;
    tracked = refl;
    history = refl;
    update_sqls = refl;
    published = refl;
  }
  put_result-Same (ok f) w = record {
    store = refl;
    tracked = refl;
    history = refl;
    update_sqls = refl;
    published = put_published f w;
  }

module _ {m : Model} (P : World m → Type 0) (framed : IsFramed P) where
  set_stable : (code key value : Text) (w : World m) → P w → P (redis_set m code key value w).1
  unfolding redis_set
  set_stable code key value w k =
      framed.same _ _ (put_result-Same _ _) (framed.same _ _ (ready-Same w) k)

  publish_stable : (event : Event) (w : World m) → P w → P (redis_publish m event w).1
  unfolding redis_publish
  publish_stable event w k =
      framed.same _ _ (put_result-Same _ _) (framed.same _ _ (ready-Same w) k)

  pub log_stable :
      (r : Ref) (id : ℕ) (before changes : Option (Map Text m.Value)) (w : World m)
      → P w
      → P (add_to_log_queue m r id before changes w).1
  unfolding add_to_log_queue
  log_stable r id before changes w k =
      if-keeps P _ _ _ k (publish_stable _ _ (framed.written r _ w refl refl refl k))

  local_stable :
      (schema : Schema) (key value : Text) (keys : List Text) (w : World m)
      → P w
      → P (to_local_cache m schema key value keys w)
  unfolding to_local_cache add_local_cache_set
  local_stable schema key value keys w k = elim-keeps P (local_cache_of m schema) w _ k (λ code.
      framed.same _ _ (add_deletes-Same code keys _) (
        framed.same _ _
          (record {
            store = refl;
            tracked = refl;
            history = refl;
            update_sqls = refl;
            published = refl;
          })
          k))

  redis_stable :
      (schema : Schema) (key : Text) (keys : List Text) (w : World m)
      → P w
      → P (drop_from_redis m schema key keys w)
  unfolding drop_from_redis
  redis_stable schema key keys w k =
      elim-keeps P schema.redis_cache w _ k
        (λ code. framed.same _ _ (del-Same code keys _) (framed.same _ _ (del-Same code _ w) k))

  inserted_redis_stable :
      (schema : Schema) (key value : Text) (keys : List Text) (w : World m)
      → P w
      → P (inserted_to_redis m schema key value keys w).1
  unfolding inserted_to_redis
  inserted_redis_stable schema key value keys w k =
      elim-keeps {X = Result (Unit {0}) × World m} (λ p. P p.1) schema.redis_cache (ok tt, w) _ k
        (λ code.
          if-keeps P schema.has_uuid _ _
            (and_then-keeps P (redis_set m code key value w) _ (set_stable code key value w k)
              (λ _ set kept. framed.same _ _ (del-Same code keys set) kept))
            (redis_stable schema key keys w k))

  pub inserted_stable :
      (r : Ref) (id : ℕ) (bind : Map Text m.Value) (w : World m)
      → P w
      → P (update_cache_for_inserted m r id bind w).1
  unfolding update_cache_for_inserted
  inserted_stable r id bind w k =
      let schema = m.schema (w.store r).table in
      let key = get_cache_key schema.config id in
      let keys = get_cache_queries_keys m schema bind [] false true schema.cached_indexes_all in
      let binary = (w.store r).binary in
      and_then-keeps P _ _
        (inserted_redis_stable schema key binary keys _ (local_stable schema key binary keys w k))
        (λ _. log_stable r id none (some bind))

  pub updated_stable :
      (r : Ref) (bind current : Map Text m.Value) (id : ℕ) (w : World m)
      → P w
      → P (update_cache_after_update m r bind current id w).1
  unfolding update_cache_after_update
  updated_stable r bind current id w k =
      let schema = m.schema (w.store r).table in
      let key = get_cache_key schema.config id in
      let indexes = schema.cached_indexes_all in
      let keys =
        get_cache_queries_keys m schema bind current true false indexes
        ++ get_cache_queries_keys m schema bind current false false indexes in
      let binary = (w.store r).binary in
      let cached = drop_from_redis m schema key keys (to_local_cache m schema key binary keys w) in
      let kept = redis_stable schema key keys _ (local_stable schema key binary keys w k) in
      if-keeps P schema.has_log (add_to_log_queue m r id (some current) (some bind) cached)
        (ok tt, cached) (log_stable r id (some current) (some bind) cached kept) kept

  pub deleted_stable :
      (schema : Schema) (id : ℕ) (bind current : Map Text m.Value) (w : World m)
      → P w
      → P (update_cache_after_delete m schema id bind current w)
  unfolding update_cache_after_delete
  deleted_stable schema id bind current w k =
      let key = get_cache_key schema.config id in
      let keys = get_cache_queries_keys m schema bind current true true schema.cached_indexes_all in
      redis_stable schema key keys _ (local_stable schema key [] keys w k)

module _ {m : Model} (P : World m → Type 0)
    (data_only : (w w' : World m) → SameData w w' → P w → P w') where
  pub local_updates_stable :
      (transaction : Bool) (w : World m) → P w → P (update_local_cache m transaction w)
  unfolding update_local_cache publish_all
  local_updates_stable true w k =
      data_only w _ (record { store = refl; tracked = refl; history = refl; update_sqls = refl }) k
  local_updates_stable false w k =
      data_only w _ (record { store = refl; tracked = refl; history = refl; update_sqls = refl }) k

  flush_redis_stable : (w : World m) → P w → P (flush_redis m w)
  unfolding flush_redis put_pipelines publish_all
  flush_redis_stable w k = elim-keeps P w.redis_flusher w _ k (λ f.
      data_only w _ (record { store = refl; tracked = refl; history = refl; update_sqls = refl }) k)

  share_stable : (w : World m) → P w → P (share_redis_flusher m w)
  unfolding share_redis_flusher
  share_stable w k =
      data_only w _
        (record {
          store = (ready-Same w).store;
          tracked = (ready-Same w).tracked;
          history = (ready-Same w).history;
          update_sqls = (ready-Same w).update_sqls;
        })
        k

  pub redis_updates_stable :
      (root transaction : Bool) (w : World m) → P w → P (update_redis_cache m root transaction w)
  unfolding update_redis_cache
  redis_updates_stable root true w k = share_stable w k
  redis_updates_stable true false w k = flush_redis_stable w k
  redis_updates_stable false false w k = k
