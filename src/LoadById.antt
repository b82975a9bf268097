-- ===== src/LoadById.antt =====
-- load_by_id.go: an entity is looked up in the local cache, then in Redis, then in MySQL, and what
-- is found is written to the caches that missed it.
pub mod Steps
pub mod Coherence
pub mod Correct
pub mod Queries
use beeorm.Prelude.{
  ℕ, ◌≡◌, ◌≢◌, ◌+◌, Bool, true, false, Option, none, some, List, [], ◌∷◌, ◌++◌, Text, format_uint,
  if◌then◌else◌,
}
use beeorm.Cache.{LocalCache, Redis}

-- `cacheNilValue`: the value "" says that the row does not exist.
pub data Cached : Type 0 where
  cache_nil_value : Cached
  binary : Text → Cached

-- The parts of `tableSchema` and of the engine that choose the caches.
pub record Config : Type 0 where
  pub cache_prefix : Text
  pub has_local_cache : Bool
  pub has_redis_cache : Bool
  pub has_request_cache : Bool

-- tableSchema.getCacheKey
unfoldable pub get_cache_key : Config → ℕ → Text
get_cache_key c id = c.cache_prefix ++ (b':' ∷ format_uint id)

-- Which pool the variable `localCache` points to.
pub data Tier : Type 0 where
  schema_pool request_pool : Tier

-- `GetLocalCache`, and the request cache where the cache is used and the schema has no local cache.
unfoldable pub local_tier : Config → Bool → Option Tier
local_tier c use_cache =
    if c.has_local_cache
    then some schema_pool
    else if use_cache
    then (if c.has_request_cache then some request_pool else none)
    else none

-- What stands behind the loading code: the columns of an entity with their binary form
-- (`orm.binary`) and the reading of it (`deserialize`), and the caches.
pub record Backend : Type 1 where
  pub Row : Type 0
  pub encode : Row → Text
  pub decode : Text → Row
  pub decode-encode : (r : Row) → decode (encode r) ≡ r
  pub encode-ne-nil : (r : Row) → encode r ≢ []
  pub local : LocalCache Cached
  pub redis : Redis

module _ (b : Backend) where
  pub record Caches : Type 0 where
    pub schema_cache : b.local.State
    pub request_cache : b.local.State
    pub redis_cache : b.redis.State
    -- the number of `SELECT`s so far
    pub queries : ℕ

  -- `found`, the columns that the entity is filled with, and the caches afterwards.
  pub record Loaded : Type 0 where
    pub found : Bool
    pub entity : Option b.Row
    pub caches : Caches

module _ (b : Backend) where
  abbrev pub pool_of : Tier → Caches b → b.local.State
  pool_of schema_pool s = s.schema_cache
  pool_of request_pool s = s.request_cache

  abbrev pub with_pool : Tier → b.local.State → Caches b → Caches b
  with_pool schema_pool l s = record s { schema_cache = l }
  with_pool request_pool l s = record s { request_cache = l }

  -- `if localCache != nil { localCache.Set(key, value) }`
  unfoldable pub set_local : Option Tier → Text → Cached → Caches b → Caches b
  set_local none key v s = s
  set_local (some t) key v s = with_pool t (b.local.store (pool_of t s) key v) s

  -- `if redisCache != nil { redisCache.Set(key, value, ttl) }`
  unfoldable pub set_redis : Bool → Text → Text → ℕ → Caches b → Caches b
  set_redis false key v ttl s = s
  set_redis true key v ttl s = record s { redis_cache = b.redis.store s.redis_cache key v ttl }

  pub missing : Caches b → Loaded b
  missing s = record { found = false; entity = none; caches = s }

  pub filled : b.Row → Caches b → Loaded b
  filled r s = record { found = true; entity = some r; caches = s }

  module _ (c : Config) where
    -- The `SELECT`, and what it writes to the caches; `row` is the row of the table, if there is one.
    pub from_db : Bool → Option Tier → Text → Option b.Row → Caches b → Loaded b
    from_db use_cache tier key none s = missing (
        set_redis c.has_redis_cache key [] 60
          (set_local tier key cache_nil_value (record s { queries = s.queries + 1 })))
    from_db use_cache tier key (some r) s =
        let asked = record s { queries = s.queries + 1 } in
        if use_cache
        then filled r (
            set_redis c.has_redis_cache key (b.encode r) 0
              (set_local tier key (binary (b.encode r)) asked))
        else filled r asked

    pub redis_hit : Option Tier → Text → Text → Caches b → Loaded b
    redis_hit tier key [] s = missing (set_local tier key cache_nil_value s)
    redis_hit tier key (x ∷ xs) s =
        filled (b.decode (x ∷ xs)) (set_local tier key (binary (x ∷ xs)) s)

    pub from_redis : Option Tier → Text → Option b.Row → Caches b → Loaded b
    from_redis tier key row s =
        if c.has_redis_cache
        then elim (b.redis.find s.redis_cache key) [
          | none ↦ from_db true tier key row s
          | some hit ↦ redis_hit tier key hit s
        ]
        else from_db true tier key row s

    pub local_hit : Cached → Caches b → Loaded b
    local_hit cache_nil_value s = missing s
    local_hit (binary bytes) s = filled (b.decode bytes) s

    pub from_local : Option Tier → Text → Option b.Row → Caches b → Loaded b
    from_local none key row s = from_redis none key row s
    from_local (some t) key row s =
        let read = with_pool t (b.local.touch (pool_of t s) key) s in
        elim (b.local.find (pool_of t s) key) [
          | none ↦ from_redis (some t) key row read
          | some hit ↦ local_hit hit read
        ]

    -- Without the cache the variable `cacheKey` keeps its zero value "".
    pub load_by_id : (ℕ → Option b.Row) → ℕ → Bool → Caches b → Loaded b
    load_by_id row_of id use_cache s =
        if use_cache
        then from_local (local_tier c true) (get_cache_key c id) (row_of id) s
        else from_db false (local_tier c false) [] (row_of id) s
