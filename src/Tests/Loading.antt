-- ===== src/Tests/Loading.antt =====
-- load_by_id.go, clear_by_ids.go at a small table.
use beeorm.Prelude.{
  ℕ, ◌≡◌, ◌≢◌, ite, true, false, Option, none, some, [], ◌∷◌, All, codes, text_discrete, lookup, ap,
  format_uint, ℕ_discrete, arith,
}
use beeorm.LoadById.{
  Config, Cached, binary, Caches, get_cache_key, load_by_id, local_tier, pool_of, Tier, schema_pool,
  request_pool,
}
use beeorm.LoadById.Coherence.{Coherent, local_row, get_cache_key_inj}
use beeorm.LoadById.Correct.{Correct, load_by_id-Correct}
use beeorm.LoadById.Queries.{queries-load_by_id}
use beeorm.ClearByIds.{clear_by_ids, clear_by_ids-Coherent}
use beeorm.Tests.Toy.{toy_backend}

abbrev config : Config
config = record {
  cache_prefix = codes "user";
  has_local_cache = true;
  has_redis_cache = true;
  has_request_cache = false;
}

-- Row 3 holds 42.
abbrev rows : ℕ → Option ℕ
rows id = ite (ℕ_discrete id 3) (some 42) none

-- The local cache holds row 3.
abbrev warm : Caches toy_backend
warm = record {
  schema_cache = (get_cache_key config 3, binary (42 ∷ [])) ∷ [];
  request_cache = [];
  redis_cache = [];
  queries = 0;
}

warm-agrees :
    (id : ℕ) (v : Cached)
    → lookup text_discrete (get_cache_key config id) (warm.schema_cache) ≡ some v
    → local_row toy_backend config rows v ≡ rows id
unfolding lookup ℕ_discrete
warm-agrees id v found = elim (text_discrete (get_cache_key config 3) (get_cache_key config id)) [
  | yes e ↦
      let same = get_cache_key_inj config 3 id e in
      let value : v ≡ binary (42 ∷ []) = ground arith in
      rw (← same) (ap (local_row toy_backend config rows) value)
  | no ne ↦ absurd (ground arith)
]

warm-local :
    (t : Tier) (id : ℕ) (v : Cached)
    → toy_backend.local.find (pool_of toy_backend t warm) (get_cache_key config id) ≡ some v
    → local_row toy_backend config rows v ≡ rows id
unfolding lookup
warm-local schema_pool id v found = warm-agrees id v found
warm-local request_pool id v found = cc

warm-Coherent : Coherent toy_backend config rows warm
unfolding lookup
warm-Coherent = record {
  local_agrees = λ t used id v found. warm-local t id v found;
  redis_agrees = λ on id v found. cc;
}

load_by_id-Correct_example :
    Correct toy_backend config rows 3 (load_by_id toy_backend config rows 3 true warm)
load_by_id-Correct_example = load_by_id-Correct toy_backend config rows 3 true warm warm-Coherent

-- Row 4 is in no cache.
queries-load_by_id_example : (load_by_id toy_backend config rows 4 true warm).caches.queries ≡ 1
unfolding get_cache_key lookup text_discrete local_tier format_uint
queries-load_by_id_example = queries-load_by_id toy_backend config rows 4 true warm

-- Row 3 is changed to 43 in the table.
abbrev new_rows : ℕ → Option ℕ
new_rows id = ite (ℕ_discrete id 3) (some 43) none

new_rows-elsewhere : (id : ℕ) → All (λ i. id ≢ i) (3 ∷ []) → new_rows id ≡ rows id
new_rows-elsewhere id h = ground (arith, h.0)

clear_by_ids-Coherent_example :
    Coherent toy_backend config new_rows (clear_by_ids toy_backend config (3 ∷ []) warm)
clear_by_ids-Coherent_example =
    clear_by_ids-Coherent toy_backend config rows new_rows (3 ∷ []) new_rows-elsewhere warm
      warm-Coherent
