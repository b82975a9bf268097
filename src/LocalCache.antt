-- ===== src/LocalCache.antt =====
-- local_cache.go: a local cache of 100 LRU lists, each behind a mutex. An operation locks one list
-- at a time, so it is a step on that list.
pub mod Shards
pub mod Reads
pub mod GetSet
use Prim.Native.Nat.{bit_xor}
use beeorm.Prelude.{
  ℕ, ◌+◌, ◌*◌, ◌%◌, ◌^◌, ◌≡◌, ◌≢◌, ◌⊎◌, Bool, true, false, Option, none, some, List, [], ◌∷◌, Text,
  get_elem?, set, replicate, leb, ◌==◌, ◌||◌, if◌then◌else◌, Result, ok, panic, type_assertion,
  index_out_of_range,
}

-- `groupcache/lru`: an addition may evict other keys, a read may only reorder.
pub record Lru (V : Type 0) : Type 1 where
  pub State : Type 0
  pub fresh : ℕ → State
  pub find : State → Text → Option V
  pub touch : State → Text → State
  pub add : State → Text → V → State
  pub remove : State → Text → State
  pub clear : State → State
  pub len : State → ℕ
  pub find-fresh : (limit : ℕ) (k : Text) → find (fresh limit) k ≡ none
  pub find-touch : (s : State) (k j : Text) → find (touch s k) j ≡ find s j
  pub find-add_self : (s : State) (k : Text) (v : V) → find (add s k v) k ≡ some v
  pub find-add_ne :
      (s : State) (k j : Text) (w : V) {v : V}
      → j ≢ k
      → find (add s k w) j ≡ some v
      → find s j ≡ some v
  pub find-remove_self : (s : State) (k : Text) → find (remove s k) k ≡ none
  pub find-remove_ne : (s : State) (k j : Text) → j ≢ k → find (remove s k) j ≡ find s j
  pub find-clear : (s : State) (k : Text) → find (clear s) k ≡ none

-- hash/fnv: FNV-1a, 32 bits.
fnv_step : ℕ → ℕ → ℕ
fnv_step h byte = bit_xor h byte * 16_777_619 % 2 ^ 32

unfoldable pub fnv32a_from : ℕ → Text → ℕ
unfolding fnv_step
fnv32a_from h [] = h
fnv32a_from h (c ∷ s) = fnv32a_from (fnv_step h c) s

abbrev pub local_cache_pools : ℕ
local_cache_pools = 100

-- The index that `getLruMutex` uses.
unfoldable pub shard : Text → ℕ
unfolding fnv32a_from
shard key = fnv32a_from 2_166_136_261 key % local_cache_pools

module _ {V : Type 0} (lru : Lru V) where
  -- `localCachePoolConfig.lru`
  abbrev pub Shards : Type 0
  Shards = List lru.State

  unfoldable pub new_local_cache_config : ℕ → Shards
  new_local_cache_config limit = replicate local_cache_pools (lru.fresh limit)

  -- `c.config.lru[modulo]`, which is out of range on fewer than 100 lists.
  unfoldable pub get_lru_mutex : Shards → Text → Result lru.State
  get_lru_mutex c key = elim (get_elem? c (shard key)) [
    | none ↦ panic index_out_of_range
    | some l ↦ ok l
  ]

  -- `Get`, with the lists afterwards.
  unfoldable pub get : Shards → Text → Result (Option V × Shards)
  get c key = elim (get_lru_mutex c key) [
    | panic p ↦ panic p
    | ok l ↦ ok (lru.find l key, set c (shard key) (lru.touch l key))
  ]

  unfoldable pub put : Shards → Text → V → Result Shards
  put c key v = elim (get_lru_mutex c key) [
    | panic p ↦ panic p
    | ok l ↦ ok (set c (shard key) (lru.add l key v))
  ]

  unfoldable pub remove_one : Shards → Text → Result Shards
  remove_one c key = elim (get_lru_mutex c key) [
    | panic p ↦ panic p
    | ok l ↦ ok (set c (shard key) (lru.remove l key))
  ]

  unfoldable pub mget : Shards → List Text → Result (List (Option V) × Shards)
  mget c [] = ok ([], c)
  mget c (k ∷ ks) = elim (get c k) [
    | panic p ↦ panic p
    | ok (v, c') ↦ elim (mget c' ks) [ panic p ↦ panic p | ok (vs, c'') ↦ ok (v ∷ vs, c'') ]
  ]

  unfoldable pub mset : Shards → List (Text × V) → Result Shards
  mset c [] = ok c
  mset c ((k, v) ∷ ps) = elim (put c k v) [ panic p ↦ panic p | ok c' ↦ mset c' ps ]

  unfoldable pub remove : Shards → List Text → Result Shards
  remove c [] = ok c
  remove c (k ∷ ks) = elim (remove_one c k) [ panic p ↦ panic p | ok c' ↦ remove c' ks ]

  unfoldable pub clear : Shards → Shards
  clear [] = []
  clear (l ∷ c) = lru.clear l ∷ clear c

  unfoldable pub get_objects_count : Shards → ℕ
  get_objects_count [] = 0
  get_objects_count (l ∷ c) = lru.len l + get_objects_count c

-- What `GetSet` stores, `ttlValue`, beside other values.
pub data Stored (A : Type 0) : Type 0 where
  ttl_value : A → ℕ → Stored A
  raw : A → Stored A

-- `to_seconds` is `int64(ttl.Seconds())`, of package time, for a ttl in nanoseconds; a ttl below 0 is
-- outside the model.
module _ {A : Type 0} (lru : Lru (Stored A)) (to_seconds : ℕ → ℕ) where
  -- The provider has returned; the value is stored with the Unix time in seconds of then. The flag
  -- says that the provider was called.
  refresh : Shards lru → Text → ℕ → A → Result (A × Bool × Shards lru)
  refresh c key stored_at provided = elim (put lru c key (ttl_value provided stored_at)) [
    | panic p ↦ panic p
    | ok c' ↦ ok (provided, true, c')
  ]

  -- `seconds == 0 || now - time <= seconds`, with the subtraction on the other side.
  is_fresh : ℕ → ℕ → ℕ → Bool
  is_fresh seconds now time = seconds == 0 || leb now (time + seconds)

  get_set_with :
      ℕ → ℕ → ℕ → Text → A → Option (Stored A) × Shards lru → Result (A × Bool × Shards lru)
  get_set_with ttl now stored_at key provided (none, c) = refresh c key stored_at provided
  get_set_with ttl now stored_at key provided (some (raw v), c) = panic type_assertion
  get_set_with ttl now stored_at key provided (some (ttl_value v time), c) =
      if is_fresh (to_seconds ttl) now time
      then ok (v, false, c)
      else refresh c key stored_at provided

  -- The clock reads `now` when a value was found, and `stored_at` after a call of the provider.
  -- `provided` is what the provider returns if it is called.
  unfoldable pub get_set : Shards lru → Text → ℕ → ℕ → ℕ → A → Result (A × Bool × Shards lru)
  unfolding get_set_with refresh is_fresh
  get_set c key ttl now stored_at provided = elim (get lru c key) [
    | panic p ↦ panic p
    | ok found ↦ get_set_with ttl now stored_at key provided found
  ]
