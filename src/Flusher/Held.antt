-- ===== src/Flusher/Held.antt =====
-- flusher.go: what a flush in a transaction sends to the caches before the commit.
use beeorm.Prelude.{
  ◌≡◌, refl, sym, ap, subst, ◌∙◌, append-nil, ℕ, Bool, true, false, List, [], ◌++◌, Map, Text, ok,
  arith, if◌then◌else◌, ◌||◌,
}
use beeorm.Db.{begin, set_db}
use beeorm.Flusher.World.{Ref, Model, World, begin_db, exec_db, set_entity}
use beeorm.Flusher.Loops.{and_then-keeps, and_then-leads, for_each-keeps, if-keeps}
use beeorm.Flusher.Caches.{
  removes, publish_all, update_local_cache, update_redis_cache, share_redis_flusher,
}
use beeorm.Flusher.Pending.{get_redis_flusher}
use beeorm.Flusher.Execute.{execute_deletes, execute_inserts, execute_updates, mark_inserted}
use beeorm.Flusher.Collect.{FlushPackage}
use beeorm.Flusher.Flush.{
  db_pools, start_transaction, needs_transaction, execute_all, publish_caches, finish,
}
use beeorm.Flusher.Frame.{IsFramed}
use beeorm.Flusher.Frame.Statements.{deletes_stable, inserts_stable, updates_stable}

-- Nothing was published.
abbrev pub IsHeld : {m : Model} → World m → World m → Type 0
IsHeld before after = after.engine.published ≡ before.engine.published

-- All that was published is that keys were removed from local caches.
abbrev pub OnlyRemoves : {m : Model} → World m → World m → Type 0
OnlyRemoves {m} before after =
    (keys : Map Text (List Text)) × (after.engine.published
      ≡ before.engine.published ++ removes m keys)

module _ {m : Model} where
  share-published : (w : World m) → (share_redis_flusher m w).engine.published ≡ w.engine.published
  unfolding share_redis_flusher get_redis_flusher
  share-published w = ground arith

module _ {m : Model} (w0 : World m) where
  IsHeld-IsFramed : IsFramed (IsHeld w0)
  unfolding set_entity
  IsHeld-IsFramed = record { same = λ w w' h k. h.published ∙ k; written = λ r e w t refs i k. k }

  exec-IsHeld : (pool sql : Text) (w : World m) → IsHeld w0 w → IsHeld w0 (exec_db pool sql w).1
  unfolding exec_db
  exec-IsHeld pool sql w k = k

  mark-IsHeld :
      (id : ℕ) (r : Ref) (w : World m) → IsHeld w0 w → IsHeld w0 (mark_inserted m id r w).1
  unfolding mark_inserted set_entity
  mark-IsHeld id r w k = k

  begin-IsHeld : (pool : Text) (w : World m) → IsHeld w0 w → IsHeld w0 (begin_db pool w).1
  unfolding begin_db begin set_db
  begin-IsHeld pool w k = grind arith

  start-IsHeld : (w : World m) → IsHeld w0 w → IsHeld w0 (start_transaction m w).1
  unfolding start_transaction
  start-IsHeld w k =
      for_each-keeps (IsHeld w0) begin_db begin-IsHeld (db_pools m w w.tracked_entities) w k

  execute-IsHeld :
      (root : Bool) (pkg : FlushPackage m.Value) (w : World m)
      → IsHeld w0 w
      → IsHeld w0 (execute_all m root pkg w).1
  unfolding execute_all
  execute-IsHeld root pkg w k =
      and_then-keeps (IsHeld w0) (execute_deletes m w.delete_binds w) _
        (deletes_stable (IsHeld w0) IsHeld-IsFramed exec-IsHeld mark-IsHeld w.delete_binds w k)
        (λ _ deleted kept.
          and_then-keeps (IsHeld w0) (execute_inserts m pkg.inserts deleted) _
            (inserts_stable (IsHeld w0) IsHeld-IsFramed exec-IsHeld mark-IsHeld pkg.inserts deleted
              kept)
            (λ _ inserted after.
              if-keeps (IsHeld w0) root (execute_updates m inserted.update_sqls inserted)
                (ok tt, inserted)
                (updates_stable (IsHeld w0) IsHeld-IsFramed exec-IsHeld mark-IsHeld
                  inserted.update_sqls inserted after)
                after))

  IsHeld-OnlyRemoves : (w : World m) → IsHeld w0 w → OnlyRemoves w0 w
  unfolding removes
  IsHeld-OnlyRemoves w k = ([], k ∙ sym (append-nil w0.engine.published))

  publish-OnlyRemoves :
      (root : Bool) (w : World m) → IsHeld w0 w → OnlyRemoves w0 (publish_caches m root true w)
  unfolding publish_caches update_local_cache update_redis_cache publish_all
  publish-OnlyRemoves true w k = (
    w.local_cache_deletes,
    share-published (update_local_cache m true w)
        ∙ ap (λ sent. sent ++ removes m w.local_cache_deletes) k,
  )
  publish-OnlyRemoves false w k =
      IsHeld-OnlyRemoves (share_redis_flusher m w) (share-published w ∙ k)

-- A flush without references to save first that runs in a transaction, its own or another, publishes
-- nothing before the commit but that keys are removed from local caches, also where it panics.
pub finish-OnlyRemoves :
    (m : Model) (root transaction : Bool) (pkg : FlushPackage m.Value) (w : World m)
    → (needs_transaction m transaction pkg w || transaction) ≡ true
    → OnlyRemoves w (finish m root transaction pkg w).1
unfolding finish
finish-OnlyRemoves m root transaction pkg w h =
    let use_transaction = needs_transaction m transaction pkg w in
    and_then-leads (IsHeld w) (OnlyRemoves w)
      (if use_transaction then start_transaction m w else (ok tt, w)) _
      (if-keeps (IsHeld w) use_transaction (start_transaction m w) (ok tt, w)
        (start-IsHeld w w refl) refl)
      (IsHeld-OnlyRemoves w)
      (λ _ started k.
        and_then-leads (IsHeld w) (OnlyRemoves w) (execute_all m root pkg started) _
          (execute-IsHeld w root pkg started k) (IsHeld-OnlyRemoves w)
          (λ _ executed kept.
            subst (λ b. OnlyRemoves w (publish_caches m root b executed)) (sym h)
              (publish-OnlyRemoves w root executed kept)))
