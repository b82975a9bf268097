-- ===== src/LocalCache/Shards.antt =====
-- local_cache.go: the 100 lists are always there, so that no operation panics, and each operation
-- is a change of one list.
use beeorm.Prelude.{
  ℕ, ◌<◌, ◌≡◌, ◌≢◌, Option, none, some, Text, length, get_elem?, set, length-set,
  get_elem?-set_self, get_elem?-set_ne, get_elem?-in_range, length-replicate, Option-cases, inl,
  inr, ok, arith,
}
use beeorm.LocalCache.{
  Lru, shard, local_cache_pools, Shards, new_local_cache_config, get_lru_mutex, get, put,
  remove_one,
}

pub shard-lt : (key : Text) → shard key < local_cache_pools
unfolding shard
shard-lt key = omega arith

module _ {V : Type 0} (lru : Lru V) where
  abbrev pub IsSharded : Shards lru → Type 0
  IsSharded c = length c ≡ local_cache_pools

  -- What the cache holds for a key.
  unfoldable pub view : Shards lru → Text → Option V
  view c key = elim (get_elem? c (shard key)) [ none ↦ none | some l ↦ lru.find l key ]

  -- The list of a key is changed, if there is one.
  unfoldable pub change : (lru.State → lru.State) → Shards lru → Text → Shards lru
  change f c key = elim (get_elem? c (shard key)) [ none ↦ c | some l ↦ set c (shard key) (f l) ]

  pub IsSharded-change :
      (f : lru.State → lru.State) (c : Shards lru) (key : Text)
      → IsSharded c
      → IsSharded (change f c key)
  unfolding change
  IsSharded-change f c key h = elim (Option-cases (get_elem? c (shard key))) [
    | inl e ↦ ground arith
    | inr (l, e) ↦ ground (arith, length-set c (shard key) (f l))
  ]

  in_range :
      (c : Shards lru) (key : Text)
      → IsSharded c
      → (l : lru.State) × (get_elem? c (shard key) ≡ some l)
  in_range c key h = get_elem?-in_range c (shard key) (omega (arith, shard-lt key))

  pub get-eq :
      (c : Shards lru) (key : Text)
      → IsSharded c
      → get lru c key ≡ ok (view c key, change (λ l. lru.touch l key) c key)
  unfolding get get_lru_mutex view change
  get-eq c key h = let (l, e) = in_range c key h in ground arith

  pub put-eq :
      (c : Shards lru) (key : Text) (v : V)
      → IsSharded c
      → put lru c key v ≡ ok (change (λ l. lru.add l key v) c key)
  unfolding put get_lru_mutex change
  put-eq c key v h = let (l, e) = in_range c key h in ground arith

  pub remove_one-eq :
      (c : Shards lru) (key : Text)
      → IsSharded c
      → remove_one lru c key ≡ ok (change (λ l. lru.remove l key) c key)
  unfolding remove_one get_lru_mutex change
  remove_one-eq c key h = let (l, e) = in_range c key h in ground arith

  -- A change shows in the changed list alone.
  pub view-change_same :
      (f : lru.State → lru.State) (c : Shards lru) (k j : Text)
      → shard k ≡ shard j
      → IsSharded c
      → (l : lru.State) × (view c j ≡ lru.find l j) × (view (change f c k) j ≡ lru.find (f l) j)
  unfolding view change
  view-change_same f c k j e h =
      let (l, at) = in_range c k h in
      (l, ground arith, ground (arith, get_elem?-set_self c (shard k) (f l), shard-lt k))

  pub view-change_other :
      (f : lru.State → lru.State) (c : Shards lru) (k j : Text)
      → shard k ≢ shard j
      → view (change f c k) j ≡ view c j
  unfolding view change
  view-change_other f c k j ne = elim (Option-cases (get_elem? c (shard k))) [
    | inl e ↦ ground arith
    | inr (l, e) ↦ ground (arith, get_elem?-set_ne c (shard k) (shard j) (f l) ne)
  ]

  pub new_local_cache_config-IsSharded : (limit : ℕ) → IsSharded (new_local_cache_config lru limit)
  unfolding new_local_cache_config
  new_local_cache_config-IsSharded limit = length-replicate local_cache_pools (lru.fresh limit)
