-- ===== src/LoadById/Queries.antt =====
-- load_by_id.go: when the database is asked.
use beeorm.Prelude.{
  ◌≡◌, ◌+◌, ℕ, Bool, true, false, Option, none, some, Text, arith, ◌||◌, ◌&&◌, if◌then◌else◌,
  Option-cases, inl, inr, refl, [], ◌∷◌,
}
use beeorm.LoadById.{
  Cached, cache_nil_value, binary, Config, get_cache_key, Tier, schema_pool, request_pool,
  local_tier, Backend, Caches, pool_of, with_pool, set_local, set_redis, missing, filled, from_db,
  redis_hit, from_redis, local_hit, from_local, load_by_id,
}
use beeorm.LoadById.Coherence.{is_some}

module _ (b : Backend) (c : Config) where
  queries-set_local :
      (t : Option Tier) (key : Text) (v : Cached) (s : Caches b)
      → (set_local b t key v s).queries ≡ s.queries
  unfolding set_local
  queries-set_local none key v s = refl
  queries-set_local (some schema_pool) key v s = refl
  queries-set_local (some request_pool) key v s = refl

  queries-set_redis :
      (has : Bool) (key v : Text) (ttl : ℕ) (s : Caches b)
      → (set_redis b has key v ttl s).queries ≡ s.queries
  unfolding set_redis
  queries-set_redis false key v ttl s = refl
  queries-set_redis true key v ttl s = refl

  redis-with_pool :
      (t : Tier) (l : b.local.State) (s : Caches b)
      → ((with_pool b t l s).redis_cache ≡ s.redis_cache)
        × ((with_pool b t l s).queries ≡ s.queries)
  redis-with_pool schema_pool l s = (refl, refl)
  redis-with_pool request_pool l s = (refl, refl)

  queries-from_db :
      (u : Bool) (t : Option Tier) (key : Text) (row : Option b.Row) (s : Caches b)
      → (from_db b c u t key row s).caches.queries ≡ s.queries + 1
  unfolding from_db missing filled
  queries-from_db u t key none s = rw (queries-set_redis, queries-set_local)
  queries-from_db true t key (some r) s = rw (queries-set_redis, queries-set_local)
  queries-from_db false t key (some r) s = refl

  queries-redis_hit :
      (t : Option Tier) (key v : Text) (s : Caches b)
      → (redis_hit b c t key v s).caches.queries ≡ s.queries
  unfolding redis_hit missing filled
  queries-redis_hit t key [] s = queries-set_local t key cache_nil_value s
  queries-redis_hit t key (x ∷ xs) s = queries-set_local t key (binary (x ∷ xs)) s

  queries-local_hit : (v : Cached) (s : Caches b) → (local_hit b c v s).caches.queries ≡ s.queries
  unfolding local_hit missing filled
  queries-local_hit cache_nil_value s = refl
  queries-local_hit (binary bytes) s = refl

  -- Whether the local cache of a load, or Redis, has the key.
  abbrev pub in_local : Option Tier → Text → Caches b → Bool
  in_local none key s = false
  in_local (some t) key s = is_some (b.local.find (pool_of b t s) key)

  abbrev pub in_redis : Text → Caches b → Bool
  in_redis key s = c.has_redis_cache && is_some (b.redis.find s.redis_cache key)

  abbrev asked : Bool → ℕ
  asked true = 0
  asked false = 1

  queries-from_redis :
      (t : Option Tier) (key : Text) (row : Option b.Row) (s : Caches b)
      → (from_redis b c t key row s).caches.queries ≡ s.queries + asked (in_redis key s)
  unfolding from_redis
  queries-from_redis t key row s = elim (Option-cases (b.redis.find s.redis_cache key)) [
    | inl miss ↦ ground (arith, queries-from_db true t key row s)
    | inr (v, hit) ↦ ground (arith, queries-from_db true t key row s, queries-redis_hit t key v s)
  ]

  queries-from_local :
      (t : Option Tier) (key : Text) (row : Option b.Row) (s : Caches b)
      → (from_local b c t key row s).caches.queries
        ≡ s.queries + asked (in_local t key s || in_redis key s)
  unfolding from_local
  queries-from_local none key row s = queries-from_redis none key row s
  queries-from_local (some t) key row s =
      let l = b.local.touch (pool_of b t s) key in
      let (redis, queries) = redis-with_pool t l s in
      let reading = with_pool b t l s in
      elim (Option-cases (b.local.find (pool_of b t s) key)) [
        | inl miss ↦ ground (arith, queries-from_redis (some t) key row reading, redis, queries)
        | inr (v, hit) ↦ ground (arith, queries-local_hit v reading, queries)
      ]

  -- A load with the cache asks the database exactly when neither the local cache nor Redis has the
  -- key of the entity, and then once; a load without the cache always asks it once.
  pub queries-load_by_id :
      (row_of : ℕ → Option b.Row) (id : ℕ) (use_cache : Bool) (s : Caches b)
      → (load_by_id b c row_of id use_cache s).caches.queries
        ≡ s.queries
          + (if use_cache
                && (in_local (local_tier c true) (get_cache_key c id) s
                    || in_redis (get_cache_key c id) s)
              then 0
              else 1)
  unfolding load_by_id
  queries-load_by_id row_of id true s =
      ground (arith, queries-from_local (local_tier c true) (get_cache_key c id) (row_of id) s)
  queries-load_by_id row_of id false s = queries-from_db false (local_tier c false) [] (row_of id) s
