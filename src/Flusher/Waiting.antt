-- ===== src/Flusher/Waiting.antt =====
-- flusher.go: the keys that wait to be removed from a local cache and from Redis.
use beeorm.Prelude.{
  ◌≡◌, refl, sym, ◌∙◌, subst, Option-cases, inl, inr, ◌⊎◌, Option, none, some, List, [], ◌∷◌, ◌++◌,
  Text, Result, ok, panic, lookup, insert, text_discrete, lookup-insert, arith,
}
use beeorm.RedisFlusher.{Pipelines, Event, append_to}
use beeorm.RedisFlusher.Record.{or_nil, deletes_at, deletes-del_own, deletes-publish}
use beeorm.Flusher.World.{Schema, Model, World}
use beeorm.Flusher.Pending.{
  local_cache_of, add_local_cache_deletes, get_redis_flusher, put_pipelines, redis_del, put_result,
  redis_publish, pipelines_of, log_channel_name,
}
use beeorm.Flusher.Caches.{drop_from_redis}

-- A key is one of those to be removed.
abbrev pub IsRemoved : Text → List Text → Type 0
IsRemoved key [] = ⊥
IsRemoved key (k ∷ keys) = (key ≡ k) ⊎ IsRemoved key keys

pub IsRemoved-left : (key : Text) (xs ys : List Text) → IsRemoved key xs → IsRemoved key (xs ++ ys)
IsRemoved-left key [] ys h = absurd h
IsRemoved-left key (x ∷ xs) ys (inl e) = inl e
IsRemoved-left key (x ∷ xs) ys (inr h) = inr (IsRemoved-left key xs ys h)

pub IsRemoved-right : (key : Text) (xs ys : List Text) → IsRemoved key ys → IsRemoved key (xs ++ ys)
IsRemoved-right key [] ys h = h
IsRemoved-right key (x ∷ xs) ys h = inr (IsRemoved-right key xs ys h)

-- What holds of a cache, where the schema has one.
abbrev pub InCache : Option Text → (Text → Type 0) → Type 0
InCache none P = Unit
InCache (some code) P = P code

pub InCache-map :
    (c : Option Text) (P Q : Text → Type 0)
    → ((code : Text) → P code → Q code)
    → InCache c P
    → InCache c Q
InCache-map none P Q f h = tt
InCache-map (some code) P Q f h = f code h

module _ {m : Model} where
  -- The keys that wait for a local cache, and for a pool of Redis.
  abbrev pub local_waiting : World m → Text → List Text
  local_waiting w code = or_nil (lookup text_discrete code w.local_cache_deletes)

  abbrev pub redis_waiting : World m → Text → List Text
  redis_waiting w pool = deletes_at pool (pipelines_of w.redis_flusher)

  -- The key waits to be removed from the local cache and from the Redis pool of the schema.
  abbrev pub IsQueued : Schema → Text → World m → Type 0
  IsQueued schema key w =
      InCache (local_cache_of m schema) (λ code. IsRemoved key (local_waiting w code))
      × InCache schema.redis_cache (λ pool. IsRemoved key (redis_waiting w pool))

  pub add_deletes-IsRemoved :
      (code key : Text) (keys : List Text) (w : World m)
      → IsRemoved key keys
      → IsRemoved key (local_waiting (add_local_cache_deletes m code keys w) code)
  unfolding add_local_cache_deletes
  add_deletes-IsRemoved code key [] w h = absurd h
  add_deletes-IsRemoved code key (k ∷ ks) w h =
      let old = lookup text_discrete code w.local_cache_deletes in
      let all : or_nil (
            lookup text_discrete code
              (insert text_discrete code (append_to old (k ∷ ks)) w.local_cache_deletes))
          ≡ or_nil old ++ (k ∷ ks) =
        ground (
          arith,
          lookup-insert text_discrete code code (append_to old (k ∷ ks)) w.local_cache_deletes,
        ) in
      subst (IsRemoved key) (sym all) (IsRemoved-right key (or_nil old) (k ∷ ks) h)

  ready-deletes :
      (w : World m) → (get_redis_flusher m w).local_cache_deletes ≡ w.local_cache_deletes
  unfolding get_redis_flusher
  ready-deletes w = ground arith

  redis_del-deletes :
      (pool : Text) (keys : List Text) (w : World m)
      → (redis_del m pool keys w).local_cache_deletes ≡ w.local_cache_deletes
  unfolding redis_del put_pipelines
  redis_del-deletes pool keys w = ready-deletes w

  pub drop-deletes :
      (schema : Schema) (key : Text) (keys : List Text) (w : World m)
      → (drop_from_redis m schema key keys w).local_cache_deletes ≡ w.local_cache_deletes
  unfolding drop_from_redis
  drop-deletes schema key keys w = elim (Option-cases schema.redis_cache) [
    | inl e ↦ rw e refl
    | inr (code, e) ↦ rw e (
        redis_del-deletes code keys (redis_del m code (key ∷ []) w)
        ∙ redis_del-deletes code (key ∷ []) w)
  ]

  pub redis_del-IsRemoved :
      (pool key : Text) (keys : List Text) (w : World m)
      → IsRemoved key keys
      → IsRemoved key (redis_waiting (redis_del m pool keys w) pool)
  unfolding redis_del put_pipelines
  redis_del-IsRemoved pool key keys w h =
      let f = pipelines_of (get_redis_flusher m w).redis_flusher in
      subst (IsRemoved key) (sym (deletes-del_own [] pool keys f))
        (IsRemoved-right key (deletes_at pool f) keys h)

  ready-same : (w : World m) (f : Pipelines) → w.redis_flusher ≡ some f → get_redis_flusher m w ≡ w
  unfolding get_redis_flusher
  ready-same w f e = rw e refl

  -- The flusher that is there is used on.
  ready-waiting :
      (pool key : Text) (w : World m)
      → IsRemoved key (redis_waiting w pool)
      → IsRemoved key (redis_waiting (get_redis_flusher m w) pool)
  unfolding lookup
  ready-waiting pool key w h = elim (Option-cases w.redis_flusher) [
    | inl e ↦ absurd (subst (λ f. IsRemoved key (deletes_at pool (pipelines_of f))) e h)
    | inr (f, e) ↦ subst (λ v. IsRemoved key (redis_waiting v pool)) (sym (ready-same w f e)) h
  ]

  published-waiting :
      (pool key : Text) (w : World m) (f : Result Pipelines)
      → ((g : Pipelines) → f ≡ ok g → IsRemoved key (deletes_at pool g))
      → IsRemoved key (redis_waiting w pool)
      → IsRemoved key (redis_waiting (put_result m f w).1 pool)
  unfolding put_result put_pipelines
  published-waiting pool key w (panic p) made h = h
  published-waiting pool key w (ok g) made h = made g refl

  pub publish-waiting :
      (pool key : Text) (event : Event) (w : World m)
      → IsRemoved key (redis_waiting w pool)
      → IsRemoved key (redis_waiting (redis_publish m event w).1 pool)
  unfolding redis_publish
  publish-waiting pool key event w h =
      let there = ready-waiting pool key w h in
      let ready = get_redis_flusher m w in
      published-waiting pool key ready _
        (λ g made.
          subst (IsRemoved key)
            (sym (
              deletes-publish m.redis_stream_pools pool log_channel_name event
                (pipelines_of ready.redis_flusher) made))
            there)
        there

  put_result-deletes :
      (f : Result Pipelines) (w : World m)
      → (put_result m f w).1.local_cache_deletes ≡ w.local_cache_deletes
  unfolding put_result put_pipelines
  put_result-deletes (panic p) w = refl
  put_result-deletes (ok f) w = refl

  pub publish-deletes :
      (event : Event) (w : World m)
      → (redis_publish m event w).1.local_cache_deletes ≡ w.local_cache_deletes
  unfolding redis_publish
  publish-deletes event w = put_result-deletes _ (get_redis_flusher m w) ∙ ready-deletes w
