-- ===== src/LoadById/Steps.antt =====
-- load_by_id.go: which step answers a load.
use beeorm.Prelude.{◌≡◌, true, false, Option, none, some, Text, arith}
use beeorm.LoadById.{
  Cached, Config, Tier, Backend, Caches, pool_of, with_pool, from_db, redis_hit, from_redis,
  local_hit, from_local,
}

module _ (b : Backend) (c : Config) (key : Text) (row : Option b.Row) (s : Caches b) where
  pub from_redis-off :
      (t : Option Tier)
      → c.has_redis_cache ≡ false
      → from_redis b c t key row s ≡ from_db b c true t key row s
  unfolding from_redis
  from_redis-off t off = ground arith

  pub from_redis-miss :
      (t : Option Tier)
      → b.redis.find s.redis_cache key ≡ none
      → from_redis b c t key row s ≡ from_db b c true t key row s
  unfolding from_redis
  from_redis-miss t miss = ground arith

  pub from_redis-hit :
      (t : Option Tier) (v : Text)
      → c.has_redis_cache ≡ true
      → b.redis.find s.redis_cache key ≡ some v
      → from_redis b c t key row s ≡ redis_hit b c t key v s
  unfolding from_redis
  from_redis-hit t v on hit = ground arith

  -- The caches after the local cache was read.
  abbrev pub read : Tier → Caches b
  read t = with_pool b t (b.local.touch (pool_of b t s) key) s

  pub from_local-none : from_local b c none key row s ≡ from_redis b c none key row s
  unfolding from_local
  from_local-none = ground arith

  pub from_local-miss :
      (t : Tier)
      → b.local.find (pool_of b t s) key ≡ none
      → from_local b c (some t) key row s ≡ from_redis b c (some t) key row (read t)
  unfolding from_local
  from_local-miss t miss = ground arith

  pub from_local-hit :
      (t : Tier) (v : Cached)
      → b.local.find (pool_of b t s) key ≡ some v
      → from_local b c (some t) key row s ≡ local_hit b c v (read t)
  unfolding from_local
  from_local-hit t v hit = ground arith
