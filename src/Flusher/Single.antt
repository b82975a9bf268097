-- ===== src/Flusher/Single.antt =====
-- flusher.go: a flush that starts no transaction sends one statement at most.
use beeorm.Prelude.{
  ◌≡◌, refl, sym, subst, ◌≤◌, ◌+◌, ℕ, suc, Bool, true, false, List, [], ◌∷◌, Map, Text, length,
  Result, ok, arith, tests, if◌then◌else◌, ◌||◌,
}
use beeorm.Flusher.World.{Model, World, and_then}
use beeorm.Flusher.Loops.{and_then-keeps, and_then-leads, if-keeps}
use beeorm.Flusher.Execute.{execute_deletes, execute_updates, execute_inserts}
use beeorm.Flusher.Collect.{FlushPackage}
use beeorm.Flusher.Flush.{
  start_transaction, diffs_of, needs_transaction, execute_all, publish_caches, finish,
}
use beeorm.Flusher.Frame.Caches.{local_updates_stable, redis_updates_stable}
use beeorm.Flusher.Sent.{Sent, SameData-Sent, more_sent, deletes_sent, updates_sent, inserts_sent}

-- The statements that wait, each query of an update counted.
unfoldable pub queries_in : Map Text (List Text) → ℕ
queries_in [] = 0
queries_in ((pool, queries) ∷ rest) = length queries + queries_in rest

module _ {m : Model} where
  diffs_bound :
      (pkg : FlushPackage m.Value) (w : World m)
      → needs_transaction m false pkg w ≡ false
      → length pkg.inserts + length w.update_sqls + length w.delete_binds ≤ 1
  unfolding needs_transaction diffs_of
  diffs_bound pkg w h = grind tests

  execute_sent :
      (root : Bool) (pkg : FlushPackage m.Value) (n : ℕ) (w : World m)
      → Sent w.update_sqls n w
      → Sent w.update_sqls
          (length w.update_sqls + (length pkg.inserts + (length w.delete_binds + n)))
          (execute_all m root pkg w).1
  unfolding execute_all
  execute_sent root pkg n w h =
      let u = w.update_sqls in
      let deleted_n = length w.delete_binds + n in
      let inserted_n = length pkg.inserts + deleted_n in
      let total = length u + inserted_n in
      and_then-leads (Sent u deleted_n) (Sent u total) (execute_deletes m w.delete_binds w) _
        (deletes_sent w.delete_binds n w h) (λ v. more_sent deleted_n total v (omega arith))
        (λ _ deleted k.
          and_then-leads (Sent u inserted_n) (Sent u total) (execute_inserts m pkg.inserts deleted)
            _ (inserts_sent pkg.inserts deleted_n deleted k)
            (λ v. more_sent inserted_n total v (omega arith))
            (λ _ inserted k2.
              if-keeps (Sent u total) root (execute_updates m inserted.update_sqls inserted)
                (ok tt, inserted)
                (subst
                  (λ qs.
                    Sent u (length qs + inserted_n)
                      (execute_updates m inserted.update_sqls inserted).1)
                  k2.waiting (updates_sent inserted.update_sqls inserted_n inserted k2))
                (more_sent inserted_n total inserted (omega arith) k2)))

  publish_sent :
      (u : Map Text (List Text)) (n : ℕ) (root transaction : Bool) (w : World m)
      → Sent u n w
      → Sent u n (publish_caches m root transaction w)
  unfolding publish_caches
  publish_sent u n true transaction w h =
      redis_updates_stable (Sent u n) (SameData-Sent n) true transaction _
        (local_updates_stable (Sent u n) (SameData-Sent n) transaction w h)
  publish_sent u n false transaction w h =
      redis_updates_stable (Sent u n) (SameData-Sent n) false transaction w h

  Sent-now : (w : World m) → Sent w.update_sqls (length w.history) w
  Sent-now w = record { bound = omega arith; waiting = refl }

  not_started :
      (b : Bool) (w : World m)
      → b ≡ false
      → (if b then start_transaction m w else (ok tt, w)) ≡ (ok tt, w)
  not_started b w h = rw h refl

  finish_sent :
      (root : Bool) (pkg : FlushPackage m.Value) (w : World m)
      → needs_transaction m false pkg w ≡ false
      → length (finish m root false pkg w).1.history ≤ suc (length w.history)
  unfolding finish and_then
  finish_sent root pkg w h =
      let u = w.update_sqls in
      let total = length u + (length pkg.inserts + (length w.delete_binds + length w.history)) in
      let use_transaction = needs_transaction m false pkg w in
      let sent =
        and_then-keeps (Sent u total) (execute_all m root pkg w)
          (λ _ executed.
            (ok use_transaction, publish_caches m root (use_transaction || false) executed))
          (execute_sent root pkg (length w.history) w (Sent-now w))
          (λ _ executed k. publish_sent u total root (use_transaction || false) executed k) in
      subst
        (λ (started : Result (Unit {0}) × World m).
          length
            (and_then started (λ _ ready. and_then (execute_all m root pkg ready) (λ _ executed. (
              ok use_transaction,
              publish_caches m root (use_transaction || false) executed,
            )))).1.history
          ≤ suc (length w.history))
        (sym (not_started use_transaction w h)) (omega (arith, sent.bound, diffs_bound pkg w h))

  single_queries :
      (pkg : FlushPackage m.Value) (w : World m) (queries : Map Text (List Text))
      → w.update_sqls ≡ queries
      → needs_transaction m false pkg w ≡ false
      → length pkg.inserts + queries_in w.update_sqls + length w.delete_binds ≤ 1
  unfolding needs_transaction diffs_of queries_in
  single_queries pkg w [] e h = grind tests
  single_queries pkg w ((p, qs) ∷ []) e h = grind tests
  single_queries pkg w ((p, qs) ∷ (q ∷ rest)) e h = grind tests

-- Where a flush without references to save first starts no transaction of its own and runs in none,
-- it sends at most one statement, and the deletes by table, the inserts by table and the single
-- update queries that it has are at most one together.
pub finish-single :
    (m : Model) (root : Bool) (pkg : FlushPackage m.Value) (w : World m)
    → needs_transaction m false pkg w ≡ false
    → (length (finish m root false pkg w).1.history ≤ suc (length w.history))
      × (length pkg.inserts + queries_in w.update_sqls + length w.delete_binds ≤ 1)
finish-single m root pkg w h = (finish_sent root pkg w h, single_queries pkg w w.update_sqls refl h)
