-- ===== src/LocalCache/GetSet.antt =====
-- `GetSet` of local_cache.go: how long the provider's value is served again.
use beeorm.Prelude.{
  ℕ, ◌+◌, ◌*◌, ◌/◌, ◌^◌, ◌==◌, ◌||◌, leb, ◌≡◌, ◌<◌, refl, ◌∙◌, Bool, true, false, not, Bool-cases,
  inl, inr, if◌then◌else◌, none, some, Text, ok, arith,
}
use beeorm.LocalCache.{Lru, Shards, Stored, ttl_value, get_set, refresh}
use beeorm.LocalCache.Shards
use beeorm.LocalCache.Reads

-- A ttl in nanoseconds, in whole seconds, has not passed at `now` for a value of the time. A ttl under a
-- second is 0 seconds, and 0 seconds never pass.
unfoldable pub is_served : ℕ → ℕ → ℕ → Bool
is_served ttl now time = let seconds = ttl / 10 ^ 9 in seconds == 0 || leb now (time + seconds)

module _ {A : Type 0} (lru : Lru (Stored A)) (to_seconds : ℕ → ℕ) where
  -- The lists after a read of the key.
  abbrev touched : Shards lru → Text → Shards lru
  touched c k = Shards.change lru (λ l. lru.touch l k) c k

  touched-IsSharded :
      (c : Shards lru) (k : Text) → Shards.IsSharded lru c → Shards.IsSharded lru (touched c k)
  touched-IsSharded c k h = Shards.IsSharded-change lru (λ l. lru.touch l k) c k h

  abbrev stored : Shards lru → Text → ℕ → A → Shards lru
  stored c k at p = Shards.change lru (λ l. lru.add l k (ttl_value p at)) c k

  refresh-eq :
      (c : Shards lru) (k : Text) (at : ℕ) (p : A)
      → Shards.IsSharded lru c
      → refresh lru to_seconds c k at p ≡ ok (p, true, stored c k at p)
  unfolding refresh
  refresh-eq c k at p h = ground (arith, Shards.put-eq lru c k (ttl_value p at) h)

  stored-view :
      (c : Shards lru) (k : Text) (at : ℕ) (p : A)
      → Shards.IsSharded lru c
      → Shards.view lru (stored c k at p) k ≡ some (ttl_value p at)
  stored-view c k at p h =
      let f = λ (l : lru.State). lru.add l k (ttl_value p at) in
      let (l, before, after) = Shards.view-change_same lru f c k k refl h in
      after ∙ lru.find-add_self l k (ttl_value p at)

  get_set-miss :
      (c : Shards lru) (k : Text) (ttl now at : ℕ) (p : A)
      → Shards.IsSharded lru c
      → Shards.view lru c k ≡ none
      → get_set lru to_seconds c k ttl now at p ≡ ok (p, true, stored (touched c k) k at p)
  unfolding get_set
  get_set-miss c k ttl now at p h miss =
      ground
        (arith, Shards.get-eq lru c k h, refresh-eq (touched c k) k at p (touched-IsSharded c k h))

  get_set-fresh :
      (c : Shards lru) (k : Text) (ttl now at time : ℕ) (v p : A)
      → to_seconds ttl ≡ ttl / 10 ^ 9
      → Shards.IsSharded lru c
      → Shards.view lru c k ≡ some (ttl_value v time)
      → is_served ttl now time ≡ true
      → get_set lru to_seconds c k ttl now at p ≡ ok (v, false, touched c k)
  unfolding get_set is_served
  get_set-fresh c k ttl now at time v p exact h hit served = ground (arith, Shards.get-eq lru c k h)

  get_set-stale :
      (c : Shards lru) (k : Text) (ttl now at time : ℕ) (v p : A)
      → to_seconds ttl ≡ ttl / 10 ^ 9
      → Shards.IsSharded lru c
      → Shards.view lru c k ≡ some (ttl_value v time)
      → is_served ttl now time ≡ false
      → get_set lru to_seconds c k ttl now at p ≡ ok (p, true, stored (touched c k) k at p)
  unfolding get_set is_served
  get_set-stale c k ttl now at time v p exact h hit passed =
      ground
        (arith, Shards.get-eq lru c k h, refresh-eq (touched c k) k at p (touched-IsSharded c k h))

  -- What a call of `GetSet` does with a value that is found.
  get_set-hit :
      (c : Shards lru) (k : Text) (ttl now at time : ℕ) (v p : A)
      → to_seconds ttl ≡ ttl / 10 ^ 9
      → Shards.IsSharded lru c
      → Shards.view lru c k ≡ some (ttl_value v time)
      → let served = is_served ttl now time in
        (c' : Shards lru) × (get_set lru to_seconds c k ttl now at p
          ≡ ok (if served then v else p, not served, c'))
        × (Shards.view lru c' k ≡ some (if served then ttl_value v time else ttl_value p at))
  get_set-hit c k ttl now at time v p exact h hit = elim (Bool-cases (is_served ttl now time)) [
    | inl yet ↦ (
      touched c k,
      rw yet (get_set-fresh c k ttl now at time v p exact h hit yet),
      rw yet (Reads.view-touch lru c k k h ∙ hit),
    )
    | inr passed ↦ (
      stored (touched c k) k at p,
      rw passed (get_set-stale c k ttl now at time v p exact h hit passed),
      rw passed (stored-view (touched c k) k at p (touched-IsSharded c k h)),
    )
  ]

  -- On the 100 lists of a cache that holds nothing for the key, `GetSet` calls the provider and
  -- returns its value. A second `GetSet` of the key with the same ttl, below 2^23 seconds, with nothing
  -- in between, returns the first value without a call and keeps it if the whole seconds of the ttl
  -- are 0 or at most as many have passed since it was stored; otherwise it calls its provider, and
  -- returns and keeps the new value with the time after the call. `int64(ttl.Seconds())` is taken to
  -- be exact below 2^23 seconds.
  pub get_set_again :
      (c : Shards lru) (k : Text) (ttl now₁ at₁ now₂ at₂ : ℕ) (p₁ p₂ : A)
      → ((d : ℕ) → d < 2 ^ 23 * 10 ^ 9 → to_seconds d ≡ d / 10 ^ 9)
      → ttl < 2 ^ 23 * 10 ^ 9
      → Shards.IsSharded lru c
      → Shards.view lru c k ≡ none
      → let served = is_served ttl now₂ at₁ in
        (c₁ : Shards lru) × (get_set lru to_seconds c k ttl now₁ at₁ p₁ ≡ ok (p₁, true, c₁))
        × (c₂ : Shards lru) × (get_set lru to_seconds c₁ k ttl now₂ at₂ p₂
            ≡ ok (if served then p₁ else p₂, not served, c₂))
        × (Shards.view lru c₂ k ≡ some (if served then ttl_value p₁ at₁ else ttl_value p₂ at₂))
  get_set_again c k ttl now₁ at₁ now₂ at₂ p₁ p₂ exact short h miss =
      let read = touched-IsSharded c k h in
      let c₁ = stored (touched c k) k at₁ p₁ in
      let h₁ =
        Shards.IsSharded-change lru (λ l. lru.add l k (ttl_value p₁ at₁)) (touched c k) k read in
      let held = stored-view (touched c k) k at₁ p₁ read in
      let (c₂, again, kept) = get_set-hit c₁ k ttl now₂ at₂ at₁ p₁ p₂ (exact ttl short) h₁ held in
      (c₁, get_set-miss c k ttl now₁ at₁ p₁ h miss, c₂, again, kept)
