-- ===== src/Tests/Caching.antt =====
-- local_cache.go at small inputs.
use beeorm.Prelude.{
  ℕ, ◌*◌, ◌/◌, ◌^◌, ◌≡◌, ◌≢◌, ◌<◌, refl, not, if◌then◌else◌, arith, true, false, none, some, [],
  ◌∷◌, map, Text, codes, lookup, ok,
}
use beeorm.LocalCache.{
  Lru, Shards, Stored, ttl_value, new_local_cache_config, shard, put, mget, remove, get_set,
}
use beeorm.LocalCache.Shards
use beeorm.LocalCache.Reads
use beeorm.LocalCache.GetSet.{is_served, get_set_again}
use beeorm.Tests.Toy.{toy_lru}

abbrev lru : Lru (Stored ℕ)
lru = toy_lru (Stored ℕ)

abbrev fresh : Shards lru
fresh = new_local_cache_config lru 10

fresh-IsSharded : Shards.IsSharded lru fresh
fresh-IsSharded = Shards.new_local_cache_config-IsSharded lru 10

fresh-view : Shards.view lru fresh (codes "k") ≡ none
unfolding Shards.view new_local_cache_config shard lookup
fresh-view = refl

abbrev whole_seconds : ℕ → ℕ
whole_seconds d = d / 10 ^ 9

whole_seconds-exact : (d : ℕ) → d < 2 ^ 23 * 10 ^ 9 → whole_seconds d ≡ d / 10 ^ 9
whole_seconds-exact d h = refl

mget-eq-views_example :
    (c' : Shards lru) × (mget lru fresh (codes "k" ∷ codes "j" ∷ [])
      ≡ ok (map (Shards.view lru fresh) (codes "k" ∷ codes "j" ∷ []), c'))
    × Shards.IsSharded lru c'
    × ((j : Text) → Shards.view lru c' j ≡ Shards.view lru fresh j)
mget-eq-views_example = Reads.mget-eq-views lru (codes "k" ∷ codes "j" ∷ []) fresh fresh-IsSharded

put_lem_example :
    (c' : Shards lru) × (put lru fresh (codes "k") (ttl_value 5 1) ≡ ok c')
    × Shards.IsSharded lru c'
    × (Shards.view lru c' (codes "k") ≡ some (ttl_value 5 1))
    × ((j : Text) (w : Stored ℕ)
        → j ≢ codes "k"
        → Shards.view lru c' j ≡ some w
        → Shards.view lru fresh j ≡ some w)
    × ((j : Text) → shard (codes "k") ≢ shard j → Shards.view lru c' j ≡ Shards.view lru fresh j)
put_lem_example = Reads.put_lem lru fresh (codes "k") (ttl_value 5 1) fresh-IsSharded

remove_lem_example :
    (c' : Shards lru) × (remove lru fresh (codes "k" ∷ []) ≡ ok c')
    × Shards.IsSharded lru c'
    × ((j : Text)
        → Shards.view lru c' j ≡ Reads.without lru j (codes "k" ∷ []) (Shards.view lru fresh j))
remove_lem_example = Reads.remove_lem lru (codes "k" ∷ []) fresh fresh-IsSharded

-- A ttl of ten and a half seconds, and eleven seconds between the calls.
get_set_again_example :
    let served = is_served 10_500_000_000 111 100 in
    (c₁ : Shards lru) × (get_set lru whole_seconds fresh (codes "k") 10_500_000_000 99 100 5
      ≡ ok (5, true, c₁))
    × (c₂ : Shards lru) × (get_set lru whole_seconds c₁ (codes "k") 10_500_000_000 111 112 6
        ≡ ok (if served then 5 else 6, not served, c₂))
    × (Shards.view lru c₂ (codes "k") ≡ some (if served then ttl_value 5 100 else ttl_value 6 112))
get_set_again_example =
    get_set_again lru whole_seconds fresh (codes "k") 10_500_000_000 99 100 111 112 5 6
      whole_seconds-exact (omega arith) fresh-IsSharded fresh-view

eleven_passed : is_served 10_500_000_000 111 100 ≡ false
unfolding is_served
eleven_passed = refl

-- Half a second is 0 seconds: the value is served for ever.
half_second : is_served 500_000_000 100_000 100 ≡ true
unfolding is_served
half_second = refl
