-- ===== src/LoadById/Correct.antt =====
-- load_by_id.go: what a load returns, whichever cache answers.
use beeorm.Prelude.{
  ℕ, ◌≡◌, refl, sym, ap, subst, ◌∙◌, Bool, true, false, Option, none, some, [], ◌∷◌, Text, inl, inr,
  Bool-cases, Option-cases,
}
use beeorm.LoadById.{
  Cached, cache_nil_value, binary, Config, get_cache_key, Tier, local_tier, Backend, Caches, Loaded,
  pool_of, missing, filled, from_db, redis_hit, from_redis, local_hit, from_local, load_by_id,
}
use beeorm.LoadById.Steps
use beeorm.LoadById.Coherence
use beeorm.LoadById.Coherence.{is_some, local_row, redis_row, Coherent, MayStore}

module _ (b : Backend) (c : Config) (row_of : ℕ → Option b.Row) where
  -- The outcome of a load of `id`: what it says of the row, and the caches that it leaves.
  pub record Correct (id : ℕ) (r : Loaded b) : Type 0 where
    pub is_row : r.entity ≡ row_of id
    pub is_found : r.found ≡ is_some (row_of id)
    pub coherent : Coherent b c row_of r.caches

  module _ (id : ℕ) where
    missing-Correct :
        (s : Caches b) → none ≡ row_of id → Coherent b c row_of s → Correct id (missing b s)
    unfolding missing
    missing-Correct s e h = record { is_row = e; is_found = ap is_some e; coherent = h }

    filled-Correct :
        (r : b.Row) (s : Caches b)
        → some r ≡ row_of id
        → Coherent b c row_of s
        → Correct id (filled b r s)
    unfolding filled
    filled-Correct r s e h = record { is_row = e; is_found = ap is_some e; coherent = h }

    module _ (t : Option Tier) (k : Text)
        (may : (r : Option b.Row) → r ≡ row_of id → MayStore b c row_of k r) where
      from_db-Correct :
          (use_cache : Bool) (r : Option b.Row) (s : Caches b)
          → r ≡ row_of id
          → Coherent b c row_of s
          → Correct id (from_db b c use_cache t k r s)
      unfolding from_db
      from_db-Correct use_cache none s e h = missing-Correct _ e (
          Coherence.set_redis-Coherent b c row_of c.has_redis_cache k [] 60 _ (may none e) (
            Coherence.set_local-Coherent b c row_of t k cache_nil_value _ (may none e)
              (Coherence.asked-Coherent b c row_of s _ h)))
      from_db-Correct true (some r) s e h =
          let row = Coherence.redis_row-encode b c row_of r ∙ e in
          let bytes = ap some (b.decode-encode r) ∙ e in
          filled-Correct r _ e (
            Coherence.set_redis-Coherent b c row_of c.has_redis_cache k (b.encode r) 0 _ (may _ row)
              (Coherence.set_local-Coherent b c row_of t k (binary (b.encode r)) _ (may _ bytes)
                (Coherence.asked-Coherent b c row_of s _ h)))
      from_db-Correct false (some r) s e h =
          filled-Correct r _ e (Coherence.asked-Coherent b c row_of s _ h)

      redis_hit-Correct :
          (v : Text) (s : Caches b)
          → redis_row b c row_of v ≡ row_of id
          → Coherent b c row_of s
          → Correct id (redis_hit b c t k v s)
      unfolding redis_hit
      redis_hit-Correct [] s e h =
          missing-Correct _ e
            (Coherence.set_local-Coherent b c row_of t k cache_nil_value s (may none e) h)
      redis_hit-Correct (x ∷ xs) s e h =
          filled-Correct (b.decode (x ∷ xs)) _ e
            (Coherence.set_local-Coherent b c row_of t k (binary (x ∷ xs)) s (may _ e) h)

    local_hit-Correct :
        (v : Cached) (s : Caches b)
        → local_row b c row_of v ≡ row_of id
        → Coherent b c row_of s
        → Correct id (local_hit b c v s)
    unfolding local_hit
    local_hit-Correct cache_nil_value s e h = missing-Correct s e h
    local_hit-Correct (binary bytes) s e h = filled-Correct (b.decode bytes) s e h

    abbrev key : Text
    key = get_cache_key c id

    may_key : (r : Option b.Row) → r ≡ row_of id → MayStore b c row_of key r
    may_key r e = Coherence.MayStore-key b c row_of id r e

    from_redis-Correct :
        (t : Option Tier) (s : Caches b)
        → Coherent b c row_of s
        → Correct id (from_redis b c t key (row_of id) s)
    from_redis-Correct t s h =
        let database = from_db-Correct t key may_key true (row_of id) s refl h in
        elim (Bool-cases c.has_redis_cache) [
          | inr off ↦
              subst (Correct id) (sym (Steps.from_redis-off b c key (row_of id) s t off)) database
          | inl on ↦ elim (Option-cases (b.redis.find s.redis_cache key)) [
            | inl miss ↦
                subst (Correct id) (sym (Steps.from_redis-miss b c key (row_of id) s t miss))
                  database
            | inr (v, hit) ↦
                subst (Correct id) (sym (Steps.from_redis-hit b c key (row_of id) s t v on hit))
                  (redis_hit-Correct t key may_key v s (h.redis_agrees on id v hit) h)
          ]
        ]

    read-Coherent :
        (t : Tier) (s : Caches b)
        → Coherent b c row_of s
        → Coherent b c row_of (Steps.read b c key (row_of id) s t)
    read-Coherent t s h =
        Coherence.with_pool-Coherent b c row_of t _ s
          (λ used.
            Coherence.touch-LocalAgrees b c row_of (pool_of b t s) key (h.local_agrees t used))
          h

    from_local-Correct :
        (t : Option Tier) (s : Caches b)
        → local_tier c true ≡ t
        → Coherent b c row_of s
        → Correct id (from_local b c t key (row_of id) s)
    from_local-Correct none s used h =
        subst (Correct id) (sym (Steps.from_local-none b c key (row_of id) s))
          (from_redis-Correct none s h)
    from_local-Correct (some t) s used h = elim (Option-cases (b.local.find (pool_of b t s) key)) [
      | inl miss ↦
          subst (Correct id) (sym (Steps.from_local-miss b c key (row_of id) s t miss))
            (from_redis-Correct (some t) _ (read-Coherent t s h))
      | inr (v, hit) ↦
          subst (Correct id) (sym (Steps.from_local-hit b c key (row_of id) s t v hit))
            (local_hit-Correct v _ (h.local_agrees t used id v hit) (read-Coherent t s h))
    ]

  -- If every cached value of the schema agrees with the table, then a load, with the cache or
  -- without it, and whichever caches the schema has, says whether the row exists, fills the entity
  -- with the row of the table, and leaves caches that agree with the table.
  pub load_by_id-Correct :
      (id : ℕ) (use_cache : Bool) (s : Caches b)
      → Coherent b c row_of s
      → Correct id (load_by_id b c row_of id use_cache s)
  unfolding load_by_id
  load_by_id-Correct id true s h = from_local-Correct id (local_tier c true) s refl h
  load_by_id-Correct id false s h =
      from_db-Correct id (local_tier c false) [] (λ r e. Coherence.MayStore-nil b c row_of r) false
        (row_of id) s refl h
