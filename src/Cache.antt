-- ===== src/Cache.antt =====
-- What the loading code relies on of a cache: an interface, with LocalCache and RedisCache behind it.
use beeorm.Prelude.{ℕ, ◌≡◌, ◌≢◌, ◌⊎◌, Option, some, List, All, Text}

-- A local cache. It may forget keys at any time (the LRU evicts), so a lookup that misses says
-- nothing; the laws say that it never makes a value up.
pub record LocalCache (V : Type 0) : Type 1 where
  pub State : Type 0
  pub find : State → Text → Option V
  -- what reading a key does to the state
  pub touch : State → Text → State
  pub store : State → Text → V → State
  pub remove : State → Text → State
  pub touch_sound :
      (s : State) (k j : Text) {v : V} → find (touch s k) j ≡ some v → find s j ≡ some v
  pub store_sound :
      (s : State) (k j : Text) (w : V) {v : V}
      → find (store s k w) j ≡ some v
      → ((j ≡ k) × (v ≡ w)) ⊎ (find s j ≡ some v)
  pub remove_sound :
      (s : State) (k j : Text) {v : V}
      → find (remove s k) j ≡ some v
      → (j ≢ k) × (find s j ≡ some v)

-- Redis: `GET`, and `SET` with an expiration in seconds, 0 for none, and `DEL`. Keys may expire at any time.
pub record Redis : Type 1 where
  pub State : Type 0
  pub find : State → Text → Option Text
  pub store : State → Text → Text → ℕ → State
  pub del : State → List Text → State
  pub store_sound :
      (s : State) (k j w : Text) (ttl : ℕ) {v : Text}
      → find (store s k w ttl) j ≡ some v
      → ((j ≡ k) × (v ≡ w)) ⊎ (find s j ≡ some v)
  pub del_sound :
      (s : State) (ks : List Text) (j : Text) {v : Text}
      → find (del s ks) j ≡ some v
      → All (λ k. j ≢ k) ks × (find s j ≡ some v)
