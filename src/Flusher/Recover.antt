-- ===== src/Flusher/Recover.antt =====
-- flusher.go: a flush that fails leaves no transaction open.
use beeorm.Prelude.{
  ◌≡◌, refl, sym, ap, subst, ◌∙◌, ℕ, true, false, some, [], All, Result, ok, panic, Panic,
  Bool-cases, inl, inr, arith, if◌then◌else◌, ◌==◌,
}
use beeorm.Flusher.World.{Model, World, and_then, for_each, rollback_db, modify}
use beeorm.Flusher.Loops.{and_then-ok, and_then-panic, if-keeps, if-each}
use beeorm.Flusher.Flush.{
  db_pools, rollback_all, deferred_rollback, flush_tracked_entities, flush_entities, is_fatal,
  is_reported, recover_some, flush_with_check, commit_all,
}
use beeorm.Flusher.Track.{clear}
use beeorm.Flusher.Rollback.{RollsBack, IsClosed, rollbacks-ok, rollbacks-All, db_pools-Keeps}
use beeorm.Flusher.Frame.{Keeps, Keeps-refl}
use beeorm.Flusher.Frame.Whole.{flush_entities-Keeps, commit_all-Keeps}

-- What the deferred function and the recovery leave after a panic.
pub record IsClean {m : Model} (before after : World m) : Type 0 where
  pub untracked : after.tracked_entities ≡ []
  pub uncounted : after.tracked_entities_counter ≡ 0
  pub no_updates : after.update_sqls ≡ []
  pub no_deletes : after.delete_binds ≡ []
  pub closed : All (IsClosed after) (db_pools m before before.tracked_entities)

never_panics : (done_ok : Result (Unit {0})) (p : Panic) → done_ok ≡ ok tt → done_ok ≡ panic p → ⊥
never_panics done_ok p d h = cc

module _ (m : Model) where
  -- What the deferred rollback protects.
  abbrev flush_and_commit : ℕ → World m → Result (Unit {0}) × World m
  flush_and_commit fuel w =
      and_then (flush_entities m fuel true false w.tracked_entities w) (λ use_transaction flushed.
        and_then (if use_transaction then commit_all m flushed else (ok tt, flushed))
          (λ _. modify clear))

  fatal_panics :
      (q err : Panic) (v : World m)
      → is_fatal q ≡ true
      → (recover_some m (panic q, v)).0 ≡ ok (some err)
      → ⊥
  unfolding recover_some
  fatal_panics q err v fatal h = grind (arith)

  reported_error :
      (q err : Panic) (v : World m)
      → is_fatal q ≡ false
      → (recover_some m (panic q, v)).0 ≡ ok (some err)
      → is_reported err ≡ true
  unfolding recover_some
  reported_error q err v fatal h = grind (arith)

  not_reported : (v : World m) (err : Panic) → (recover_some m (ok tt, v)).0 ≡ ok (some err) → ⊥
  unfolding recover_some
  not_reported v err h = cc

  deferred_ok : (v : World m) (q : Panic) → (deferred_rollback m (ok tt, v)).0 ≡ panic q → ⊥
  unfolding deferred_rollback
  deferred_ok v q h = cc

  deferred_fatal :
      (v : World m) (p q : Panic)
      → is_fatal p ≡ true
      → (deferred_rollback m (panic p, v)).0 ≡ panic q
      → is_fatal q ≡ false
      → ⊥
  unfolding deferred_rollback
  deferred_fatal v p q ends h fatal = grind (arith)

module _ (m : Model) (done_always : RollsBack m) where
  failed-IsClosed :
      (w v : World m) (q : Panic)
      → Keeps w v
      → is_fatal q ≡ false
      → ((deferred_rollback m (panic q, v)).0 ≡ panic q)
        × All (IsClosed (deferred_rollback m (panic q, v)).1) (db_pools m w w.tracked_entities)
  unfolding deferred_rollback rollback_all
  failed-IsClosed w v q k fatal =
      let pools = db_pools m v v.tracked_entities in
      let same = ap (db_pools m v) k.tracked ∙ db_pools-Keeps m w v w.tracked_entities k in
      let rolled =
        and_then-ok {B = Unit {0}} (for_each pools rollback_db v)
          (λ _ (closed : World m). (panic q, closed)) tt (rollbacks-ok done_always pools v) in
      rw (fatal, rolled) (refl, subst (All _) same (rollbacks-All done_always pools v))

  reported :
      (q err : Panic) (v : World m)
      → (recover_some m (panic q, v)).0 ≡ ok (some err)
      → (is_fatal q ≡ false)
        × (is_reported err ≡ true)
        × ((recover_some m (panic q, v)).1 ≡ clear v)
  unfolding recover_some
  reported q err v h = elim (Bool-cases (is_fatal q)) [
    | inl fatal ↦ absurd (fatal_panics m q err v fatal h)
    | inr fatal ↦ (fatal, reported_error m q err v fatal h, rw fatal refl)
  ]

  settled :
      (w : World m) (d : Result (Unit {0}) × World m) (err : Panic)
      → ((q : Panic)
          → d.0 ≡ panic q
          → is_fatal q ≡ false
          → All (IsClosed d.1) (db_pools m w w.tracked_entities))
      → (recover_some m d).0 ≡ ok (some err)
      → (is_reported err ≡ true) × IsClean w (recover_some m d).1
  unfolding recover_some clear
  settled w (ok unit, v) err c h = absurd (not_reported m v err h)
  settled w (panic q, v) err c h =
      let found = reported q err v h in
      (
        found.1,
        subst (IsClean w) (sym found.2) (record {
          untracked = refl;
          uncounted = refl;
          no_updates = refl;
          no_deletes = refl;
          closed = c q refl found.0;
        }),
      )

  deferred-IsClosed :
      (w : World m) (body : Result (Unit {0}) × World m)
      → ((p : Panic) → body.0 ≡ panic p → Keeps w body.1)
      → (q : Panic) → (deferred_rollback m body).0 ≡ panic q
      → is_fatal q ≡ false
      → All (IsClosed (deferred_rollback m body).1) (db_pools m w w.tracked_entities)
  deferred-IsClosed w (ok unit, v) k q h fatal = absurd (deferred_ok m v q h)
  deferred-IsClosed w (panic p, v) k q h fatal = elim (Bool-cases (is_fatal p)) [
    | inl ends ↦ absurd (deferred_fatal m v p q ends h fatal)
    | inr goes_on ↦ (failed-IsClosed w v p (k p refl) goes_on).1
  ]

  body-Keeps :
      (fuel : ℕ) (w : World m) (p : Panic)
      → (flush_and_commit m fuel w).0 ≡ panic p
      → Keeps w (flush_and_commit m fuel w).1
  body-Keeps fuel w p h =
      and_then-panic (Keeps w) (flush_entities m fuel true false w.tracked_entities w) _ p
        (flush_entities-Keeps m fuel true false w.tracked_entities w w (Keeps-refl w))
        (λ use_transaction flushed kept.
          and_then-panic (Keeps w)
            (if use_transaction then commit_all m flushed else (ok tt, flushed)) _ p
            (if-keeps (Keeps w) use_transaction (commit_all m flushed) (ok tt, flushed)
              (commit_all-Keeps flushed kept) kept)
            (λ _ committed after e. absurd (never_panics (ok tt) p refl e)))
        h

  tracked-IsClosed :
      (fuel : ℕ) (w : World m) (q : Panic)
      → (flush_tracked_entities m fuel false w).0 ≡ panic q
      → is_fatal q ≡ false
      → All (IsClosed (flush_tracked_entities m fuel false w).1) (db_pools m w w.tracked_entities)
  unfolding flush_tracked_entities and_then
  tracked-IsClosed fuel w =
      if-each
        (λ (d : Result (Unit {0}) × World m).
          (q : Panic)
          → d.0 ≡ panic q
          → is_fatal q ≡ false
          → All (IsClosed d.1) (db_pools m w w.tracked_entities))
        (w.tracked_entities_counter == 0) (ok tt, w)
        (deferred_rollback m (flush_and_commit m fuel w))
        (λ q h fatal. absurd (never_panics (ok tt) q refl h))
        (deferred-IsClosed w (flush_and_commit m fuel w) (body-Keeps fuel w))

-- When FlushWithCheck returns an error and the rollbacks go through, the error is one of a
-- duplicated or a foreign key, nothing is tracked or left to update or delete, and no pool of an
-- entity that was tracked is in a transaction.
pub flush_with_check-IsClean :
    (m : Model) (fuel : ℕ) (w : World m) (err : Panic)
    → RollsBack m
    → (flush_with_check m fuel false w).0 ≡ ok (some err)
    → (is_reported err ≡ true) × IsClean w (flush_with_check m fuel false w).1
unfolding flush_with_check
flush_with_check-IsClean m fuel w err done_always h =
    settled m done_always w (flush_tracked_entities m fuel false w) err
      (tracked-IsClosed m done_always fuel w) h
