-- ===== src/LoadById/Coherence.antt =====
-- load_by_id.go: caches that agree with the table stay so, and then the loaded entity is the row.
use beeorm.Prelude.{
  ℕ, ◌≡◌, ◌≢◌, refl, sym, ap, subst, ◌∙◌, Bool, true, false, Option, none, some, [], ◌∷◌, ◌++◌,
  Text, inl, inr, format_uint_inj,
}
use beeorm.LoadById.{
  Cached, cache_nil_value, binary, Config, get_cache_key, Tier, schema_pool, request_pool,
  local_tier, Backend, Caches, pool_of, with_pool, set_local, set_redis,
}

append_cancel_left : (p a b : Text) → p ++ a ≡ p ++ b → a ≡ b
append_cancel_left [] a b h = h
append_cancel_left (x ∷ p) a b h = append_cancel_left p a b (cc)

pub get_cache_key_inj : (c : Config) (n m : ℕ) → get_cache_key c n ≡ get_cache_key c m → n ≡ m
unfolding get_cache_key
get_cache_key_inj c n m h = format_uint_inj n m (cc (append_cancel_left c.cache_prefix _ _ h))

append-ne-nil : (p : Text) (x : ℕ) (a : Text) → p ++ (x ∷ a) ≢ []
append-ne-nil [] x a h = cc
append-ne-nil (y ∷ p) x a h = cc

get_cache_key-ne-nil : (c : Config) (n : ℕ) → get_cache_key c n ≢ []
unfolding get_cache_key
get_cache_key-ne-nil c n h = append-ne-nil c.cache_prefix _ _ h

abbrev pub is_some {ℓ} : {A : Type ℓ} → Option A → Bool
is_some none = false
is_some (some a) = true

module _ (b : Backend) (c : Config) (row_of : ℕ → Option b.Row) where
  -- The row that a cached value stands for.
  abbrev pub local_row : Cached → Option b.Row
  local_row cache_nil_value = none
  local_row (binary bytes) = some (b.decode bytes)

  abbrev pub redis_row : Text → Option b.Row
  redis_row [] = none
  redis_row (x ∷ xs) = some (b.decode (x ∷ xs))

  abbrev pub LocalAgrees : b.local.State → Type 0
  LocalAgrees l =
      (id : ℕ) (v : Cached) → b.local.find l (get_cache_key c id) ≡ some v → local_row v ≡ row_of id

  abbrev pub RedisAgrees : b.redis.State → Type 0
  RedisAgrees r =
      (id : ℕ) (v : Text) → b.redis.find r (get_cache_key c id) ≡ some v → redis_row v ≡ row_of id

  -- In the caches that the schema uses, every value under a key of the schema stands for the row in
  -- the table.
  pub record Coherent (s : Caches b) : Type 0 where
    pub local_agrees : (t : Tier) → local_tier c true ≡ some t → LocalAgrees (pool_of b t s)
    pub redis_agrees : c.has_redis_cache ≡ true → RedisAgrees s.redis_cache

  -- A write that keeps the agreement: under the key of a row it writes what stands for the row.
  abbrev pub MayStore : Text → Option b.Row → Type 0
  MayStore key r = (id : ℕ) → get_cache_key c id ≡ key → r ≡ row_of id

  pub MayStore-key : (id : ℕ) (r : Option b.Row) → r ≡ row_of id → MayStore (get_cache_key c id) r
  MayStore-key id r h n e = h ∙ ap row_of (sym (get_cache_key_inj c n id e))

  pub MayStore-nil : (r : Option b.Row) → MayStore [] r
  MayStore-nil r n e = absurd (get_cache_key-ne-nil c n e)

  store-LocalAgrees :
      (l : b.local.State) (key : Text) (v : Cached)
      → MayStore key (local_row v)
      → LocalAgrees l
      → LocalAgrees (b.local.store l key v)
  store-LocalAgrees l key v may h id w found =
      elim (b.local.store_sound l key (get_cache_key c id) v found) [
        | inl (same, value) ↦ ap local_row value ∙ may id same
        | inr old ↦ h id w old
      ]

  pub touch-LocalAgrees :
      (l : b.local.State) (key : Text) → LocalAgrees l → LocalAgrees (b.local.touch l key)
  touch-LocalAgrees l key h id w found =
      h id w (b.local.touch_sound l key (get_cache_key c id) found)

  store-RedisAgrees :
      (r : b.redis.State) (key v : Text) (ttl : ℕ)
      → MayStore key (redis_row v)
      → RedisAgrees r
      → RedisAgrees (b.redis.store r key v ttl)
  store-RedisAgrees r key v ttl may h id w found =
      elim (b.redis.store_sound r key (get_cache_key c id) v ttl found) [
        | inl (same, value) ↦ ap redis_row value ∙ may id same
        | inr old ↦ h id w old
      ]

  pool_of-with_pool :
      (u t : Tier) (l : b.local.State) (s : Caches b)
      → (local_tier c true ≡ some t → LocalAgrees l)
      → (local_tier c true ≡ some u → LocalAgrees (pool_of b u s))
      → local_tier c true ≡ some u
      → LocalAgrees (pool_of b u (with_pool b t l s))
  pool_of-with_pool schema_pool schema_pool l s hl h e = hl e
  pool_of-with_pool schema_pool request_pool l s hl h e = h e
  pool_of-with_pool request_pool schema_pool l s hl h e = h e
  pool_of-with_pool request_pool request_pool l s hl h e = hl e

  redis-with_pool :
      (t : Tier) (l : b.local.State) (s : Caches b)
      → (with_pool b t l s).redis_cache ≡ s.redis_cache
  redis-with_pool schema_pool l s = refl
  redis-with_pool request_pool l s = refl

  pub with_pool-Coherent :
      (t : Tier) (l : b.local.State) (s : Caches b)
      → (local_tier c true ≡ some t → LocalAgrees l)
      → Coherent s
      → Coherent (with_pool b t l s)
  with_pool-Coherent t l s hl h = record {
    local_agrees = λ u. pool_of-with_pool u t l s hl (h.local_agrees u);
    redis_agrees = λ on. subst RedisAgrees (sym (redis-with_pool t l s)) (h.redis_agrees on);
  }

  pub set_local-Coherent :
      (t : Option Tier) (key : Text) (v : Cached) (s : Caches b)
      → MayStore key (local_row v)
      → Coherent s
      → Coherent (set_local b t key v s)
  unfolding set_local
  set_local-Coherent none key v s may h = h
  set_local-Coherent (some t) key v s may h =
      with_pool-Coherent t _ s
        (λ used. store-LocalAgrees (pool_of b t s) key v may (h.local_agrees t used)) h

  -- The pools do not depend on the other fields.
  pub same_pools-Coherent :
      (s s' : Caches b)
      → ((t : Tier) → pool_of b t s ≡ pool_of b t s')
      → (c.has_redis_cache ≡ true → RedisAgrees s'.redis_cache)
      → Coherent s
      → Coherent s'
  same_pools-Coherent s s' same redis h = record {
    local_agrees = λ t used. subst LocalAgrees (same t) (h.local_agrees t used);
    redis_agrees = redis;
  }

  redis-pools :
      (s : Caches b) (r : b.redis.State) (n : ℕ) (t : Tier)
      → pool_of b t s ≡ pool_of b t (record s { redis_cache = r; queries = n })
  redis-pools s r n schema_pool = refl
  redis-pools s r n request_pool = refl

  pub set_redis-Coherent :
      (has : Bool) (key v : Text) (ttl : ℕ) (s : Caches b)
      → MayStore key (redis_row v)
      → Coherent s
      → Coherent (set_redis b has key v ttl s)
  unfolding set_redis
  set_redis-Coherent false key v ttl s may h = h
  set_redis-Coherent true key v ttl s may h =
      same_pools-Coherent s _ (redis-pools s _ s.queries)
        (λ on. store-RedisAgrees s.redis_cache key v ttl may (h.redis_agrees on)) h

  pub asked-Coherent : (s : Caches b) (n : ℕ) → Coherent s → Coherent (record s { queries = n })
  asked-Coherent s n h = same_pools-Coherent s _ (redis-pools s s.redis_cache n) h.redis_agrees h

  pub redis_row-encode : (r : b.Row) → redis_row (b.encode r) ≡ some r
  redis_row-encode r = go (b.encode r) refl
    where
      go : (t : Text) → b.encode r ≡ t → redis_row t ≡ some r
      go [] e = absurd (b.encode-ne-nil r e)
      go (x ∷ xs) e = ap some (ap b.decode (sym e) ∙ b.decode-encode r)
