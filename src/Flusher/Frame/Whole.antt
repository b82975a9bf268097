-- ===== src/Flusher/Frame/Whole.antt =====
-- flusher.go: a whole flush keeps which entities are tracked, their types and their references.
use beeorm.Prelude.{
  refl, ℕ, zero, suc, Bool, true, false, List, [], ◌∷◌, Text, Result, ok, panic, if◌then◌else◌,
}
use beeorm.Db.{commit}
use beeorm.Flusher.World.{Ref, Model, World, Action, as_panic, begin_db, commit_db}
use beeorm.Flusher.Loops.{and_then-keeps, if-keeps, elim-keeps, for_each-keeps}
use beeorm.Flusher.Execute.{execute_deletes, execute_inserts, execute_updates}
use beeorm.Flusher.Collect.{FlushPackage, collect}
use beeorm.Flusher.Flush.{
  start_transaction, db_pools, needs_transaction, execute_all, publish_caches, finish, rest_of,
  flush_references, flush_entities, flush_rest, flush_collected, commit_all,
}
use beeorm.Flusher.Frame.{SameData-Keeps, Keeps, SameStore-Keeps}
use beeorm.Flusher.Frame.Caches.{local_updates_stable, redis_updates_stable}
use beeorm.Flusher.Frame.Collecting.{collect-Keeps}
use beeorm.Flusher.Frame.Statements.{deletes-Keeps, updates-Keeps, inserts-Keeps}

module _ {m : Model} {w0 : World m} where
  begin-Keeps : (pool : Text) (w : World m) → Keeps w0 w → Keeps w0 (begin_db pool w).1
  unfolding begin_db
  begin-Keeps pool w k = SameStore-Keeps w _ (record { store = refl; tracked = refl }) k

  pub start-Keeps : (w : World m) → Keeps w0 w → Keeps w0 (start_transaction m w).1
  unfolding start_transaction
  start-Keeps w k =
      for_each-keeps (Keeps w0) begin_db begin-Keeps (db_pools m w w.tracked_entities) w k

  commit-Keeps : (pool : Text) (w : World m) → Keeps w0 w → Keeps w0 (commit_db pool w).1
  unfolding commit_db
  commit-Keeps pool w k =
      elim-keeps {X = Result (Unit {0}) × World m} (λ p. Keeps w0 p.1)
        (commit pool (m.commits w.history pool) w.engine).1 (ok tt, _)
        (λ err. (panic (as_panic err), _))
        (SameStore-Keeps w _ (record { store = refl; tracked = refl }) k)
        (λ err. SameStore-Keeps w _ (record { store = refl; tracked = refl }) k)

  pub commit_all-Keeps : (w : World m) → Keeps w0 w → Keeps w0 (commit_all m w).1
  unfolding commit_all
  commit_all-Keeps w k =
      for_each-keeps (Keeps w0) commit_db commit-Keeps (db_pools m w w.tracked_entities) w k

  execute-Keeps :
      (root : Bool) (pkg : FlushPackage m.Value) (w : World m)
      → Keeps w0 w
      → Keeps w0 (execute_all m root pkg w).1
  unfolding execute_all
  execute-Keeps root pkg w k =
      and_then-keeps (Keeps w0) (execute_deletes m w.delete_binds w) _ (deletes-Keeps _ w k)
        (λ _ deleted kept.
          and_then-keeps (Keeps w0) (execute_inserts m pkg.inserts deleted) _
            (inserts-Keeps pkg.inserts deleted kept)
            (λ _ inserted after.
              if-keeps (Keeps w0) root (execute_updates m inserted.update_sqls inserted)
                (ok tt, inserted) (updates-Keeps inserted.update_sqls inserted after) after))

  publish-Keeps :
      (root transaction : Bool) (w : World m)
      → Keeps w0 w
      → Keeps w0 (publish_caches m root transaction w)
  unfolding publish_caches
  publish-Keeps true transaction w k =
      redis_updates_stable (Keeps w0) SameData-Keeps true transaction _
        (local_updates_stable (Keeps w0) SameData-Keeps transaction w k)
  publish-Keeps false transaction w k =
      redis_updates_stable (Keeps w0) SameData-Keeps false transaction w k

  pub finish-Keeps :
      (root transaction : Bool) (pkg : FlushPackage m.Value) (w : World m)
      → Keeps w0 w
      → Keeps w0 (finish m root transaction pkg w).1
  unfolding finish
  finish-Keeps root transaction pkg w k =
      let use_transaction = needs_transaction m transaction pkg w in
      and_then-keeps (Keeps w0) (if use_transaction then start_transaction m w else (ok tt, w)) _
        (if-keeps (Keeps w0) use_transaction (start_transaction m w) (ok tt, w) (start-Keeps w k) k)
        (λ _ started kept.
          and_then-keeps (Keeps w0) (execute_all m root pkg started) _
            (execute-Keeps root pkg started kept)
            (λ _ executed after. publish-Keeps root _ executed after))

  rest-Keeps :
      (rest : List Ref) (again : List Ref → Action m Bool)
      → ((es : List Ref) (w : World m) → Keeps w0 w → Keeps w0 (again es w).1)
      → (w : World m) → Keeps w0 w
      → Keeps w0 (flush_rest m rest again w).1
  rest-Keeps [] again h w k = k
  rest-Keeps (r ∷ rest) again h w k =
      and_then-keeps (Keeps w0) (again (r ∷ rest) w) _ (h (r ∷ rest) w k) (λ _ done after. after)

  references-Keeps :
      (again : Bool → List Ref → Action m Bool) (references : List Ref) (transaction : Bool)
      (entities : List Ref)
      → ((root : Bool) (es : List Ref) (w : World m) → Keeps w0 w → Keeps w0 (again root es w).1)
      → (w : World m) → Keeps w0 w
      → Keeps w0 (flush_references m again references transaction entities w).1
  unfolding flush_references
  references-Keeps again references transaction entities h w k =
      and_then-keeps (Keeps w0) (if transaction then (ok tt, w) else start_transaction m w) _
        (if-keeps (Keeps w0) transaction (ok tt, w) (start_transaction m w) k (start-Keeps w k))
        (λ _ started kept.
          and_then-keeps (Keeps w0) (again false references started) _
            (h false references started kept)
            (λ _ saved after.
              rest-Keeps (rest_of references entities) (again true) (h true) saved after))

  collected-Keeps :
      (again : Bool → List Ref → Action m Bool) (root : Bool)
      (collected : Bool × FlushPackage m.Value) (entities references : List Ref)
      → ((nested : Bool) (es : List Ref) (w : World m)
          → Keeps w0 w
          → Keeps w0 (again nested es w).1)
      → (w : World m) → Keeps w0 w
      → Keeps w0 (flush_collected m again root collected entities references w).1
  unfolding flush_collected
  collected-Keeps again root collected entities [] h w k =
      finish-Keeps root collected.0 collected.1 w k
  collected-Keeps again root collected entities (r ∷ references) h w k =
      and_then-keeps (Keeps w0) (flush_references m again (r ∷ references) collected.0 entities w) _
        (references-Keeps again (r ∷ references) collected.0 entities h w k)
        (λ _ saved after. after)

-- After a flush, whether it returns or panics, the same entities are tracked, each with its type
-- and its references, and every id that was given is still not 0.
pub flush_entities-Keeps :
    (m : Model) (fuel : ℕ) (root transaction : Bool) (entities : List Ref) (w0 w : World m)
    → Keeps w0 w
    → Keeps w0 (flush_entities m fuel root transaction entities w).1
unfolding flush_entities
flush_entities-Keeps m zero root transaction entities w0 w k = k
flush_entities-Keeps m (suc n) root transaction entities w0 w k =
    and_then-keeps (Keeps w0)
      (collect m transaction entities (record { inserts = []; references_to_flash = [] }) w) _
      (collect-Keeps entities transaction _ w k)
      (λ collected before kept.
        collected-Keeps (λ nested. flush_entities m n nested collected.0) root collected entities
          collected.1.references_to_flash
          (λ nested es v. flush_entities-Keeps m n nested collected.0 es w0 v) before kept)
