-- ===== src/ClearByIds.antt =====
-- clear_by_ids.go: the cached values of some rows are dropped.
use beeorm.Prelude.{
  ℕ, ◌≡◌, ◌≢◌, refl, sym, ap, subst, ◌∙◌, Bool, true, false, Option, none, some, List, [], ◌∷◌, map,
  All, Text,
}
use beeorm.LoadById.{
  Config, get_cache_key, Tier, schema_pool, request_pool, local_tier, Backend, Caches, pool_of,
  with_pool,
}
use beeorm.LoadById.Coherence.{Coherent, LocalAgrees, RedisAgrees}

module _ (b : Backend) where
  -- `localCache.Remove(keys...)`
  unfoldable pub remove_all : b.local.State → List Text → b.local.State
  remove_all l [] = l
  remove_all l (k ∷ ks) = remove_all (b.local.remove l k) ks

  unfoldable pub remove_local : Option Tier → List Text → Caches b → Caches b
  unfolding remove_all
  remove_local none keys s = s
  remove_local (some t) keys s = with_pool b t (remove_all (pool_of b t s) keys) s

  unfoldable pub del_redis : Bool → List Text → Caches b → Caches b
  del_redis false keys s = s
  del_redis true keys s = record s { redis_cache = b.redis.del s.redis_cache keys }

  unfoldable pub clear_by_ids : Config → List ℕ → Caches b → Caches b
  clear_by_ids c ids s =
      let keys = map (get_cache_key c) ids in
      del_redis c.has_redis_cache keys (remove_local (local_tier c true) keys s)

  remove_all_sound :
      (l : b.local.State) (ks : List Text) (j : Text) {v : _}
      → b.local.find (remove_all l ks) j ≡ some v
      → All (λ k. j ≢ k) ks × (b.local.find l j ≡ some v)
  unfolding remove_all
  remove_all_sound l [] j h = (tt, h)
  remove_all_sound l (k ∷ ks) j h =
      let (rest, before) = remove_all_sound (b.local.remove l k) ks j h in
      let (ne, first) = b.local.remove_sound l k j before in ((ne, rest), first)

  pool_of-remove_local :
      (o : Option Tier) (t : Tier) (keys : List Text) (s : Caches b)
      → o ≡ some t
      → pool_of b t (remove_local o keys s) ≡ remove_all (pool_of b t s) keys
  unfolding remove_local
  pool_of-remove_local none t keys s e = cc
  pool_of-remove_local (some schema_pool) schema_pool keys s e = refl
  pool_of-remove_local (some schema_pool) request_pool keys s e = cc
  pool_of-remove_local (some request_pool) schema_pool keys s e = cc
  pool_of-remove_local (some request_pool) request_pool keys s e = refl

  redis-remove_local :
      (o : Option Tier) (keys : List Text) (s : Caches b)
      → (remove_local o keys s).redis_cache ≡ s.redis_cache
  unfolding remove_local
  redis-remove_local none keys s = refl
  redis-remove_local (some schema_pool) keys s = refl
  redis-remove_local (some request_pool) keys s = refl

  pool_of-del_redis :
      (has : Bool) (t : Tier) (keys : List Text) (s : Caches b)
      → pool_of b t (del_redis has keys s) ≡ pool_of b t s
  unfolding del_redis
  pool_of-del_redis false t keys s = refl
  pool_of-del_redis true schema_pool keys s = refl
  pool_of-del_redis true request_pool keys s = refl

  redis-del_redis :
      (has : Bool) (keys : List Text) (s : Caches b)
      → has ≡ true
      → (del_redis has keys s).redis_cache ≡ b.redis.del s.redis_cache keys
  unfolding del_redis
  redis-del_redis false keys s e = cc
  redis-del_redis true keys s e = refl

-- A key that differs from the keys of all `ids` is the key of none of them.
All-ids :
    (c : Config) (id : ℕ) (ids : List ℕ)
    → All (λ k. get_cache_key c id ≢ k) (map (get_cache_key c) ids)
    → All (λ i. id ≢ i) ids
All-ids c id [] h = tt
All-ids c id (i ∷ ids) h = (λ e. h.0 (ap (get_cache_key c) e), All-ids c id ids h.1)

module _ (b : Backend) (c : Config) (row_of row_of' : ℕ → Option b.Row) (ids : List ℕ)
    (others : (id : ℕ) → All (λ i. id ≢ i) ids → row_of' id ≡ row_of id) where
  abbrev cleared : List Text
  cleared = map (get_cache_key c) ids

  remove_all-LocalAgrees :
      (l : b.local.State)
      → LocalAgrees b c row_of l
      → LocalAgrees b c row_of' (remove_all b l cleared)
  remove_all-LocalAgrees l h id v found =
      let (kept, before) = remove_all_sound b l cleared (get_cache_key c id) found in
      h id v before ∙ sym (others id (All-ids c id ids kept))

  del-RedisAgrees :
      (r : b.redis.State)
      → RedisAgrees b c row_of r
      → RedisAgrees b c row_of' (b.redis.del r cleared)
  del-RedisAgrees r h id v found =
      let (kept, before) = b.redis.del_sound r cleared (get_cache_key c id) found in
      h id v before ∙ sym (others id (All-ids c id ids kept))

-- If the caches agree with the table, and then rows are changed, deleted or inserted only under the
-- given ids, the caches agree with the new table once `clearByIDs` was called with these ids.
pub clear_by_ids-Coherent :
    (b : Backend) (c : Config) (row_of row_of' : ℕ → Option b.Row) (ids : List ℕ)
    → ((id : ℕ) → All (λ i. id ≢ i) ids → row_of' id ≡ row_of id)
    → (s : Caches b) → Coherent b c row_of s
    → Coherent b c row_of' (clear_by_ids b c ids s)
unfolding clear_by_ids
clear_by_ids-Coherent b c row_of row_of' ids others s h =
    let keys = map (get_cache_key c) ids in
    let tier = local_tier c true in
    let middle = remove_local b tier keys s in
    record {
      local_agrees = λ t used.
          subst (LocalAgrees b c row_of')
            (sym (
              pool_of-del_redis b c.has_redis_cache t keys middle
              ∙ pool_of-remove_local b tier t keys s used))
            (remove_all-LocalAgrees b c row_of row_of' ids others (pool_of b t s)
              (h.local_agrees t used));
      redis_agrees = λ on.
          subst (RedisAgrees b c row_of')
            (sym (
              redis-del_redis b c.has_redis_cache keys middle on
              ∙ ap (λ r. b.redis.del r keys) (redis-remove_local b tier keys s)))
            (del-RedisAgrees b c row_of row_of' ids others s.redis_cache (h.redis_agrees on));
    }
