-- ===== src/Flusher/Flush.antt =====
-- flusher.go: a flush, the transaction around it, and the variants that return errors.
use beeorm.Prelude.{
  ℕ, zero, suc, ◌+◌, Bool, true, false, ◌||◌, not, Option, none, some, List, [], ◌∷◌, Map, Text,
  length, ltb, leb, Result, ok, panic, Panic, duplicated_key, foreign_key, stack_overflow, eqb_text,
  if◌then◌else◌, ◌==◌,
}
use beeorm.Flusher.World.{
  Ref, Model, World, Action, and_then, for_each, begin_db, commit_db, rollback_db, modify,
}
use beeorm.Flusher.Track.{is_tracked, clear}
use beeorm.Flusher.Caches.{update_local_cache, update_redis_cache}
use beeorm.Flusher.Execute.{execute_deletes, execute_inserts, execute_updates}
use beeorm.Flusher.Collect.{FlushPackage, collect}

unfoldable pub has_pool : Text → List Text → Bool
has_pool code [] = false
has_pool code (c ∷ cs) = if eqb_text c code then true else has_pool code cs

-- The queries of the only pool, or the sum so far.
abbrev pub single_pool : ℕ → Map Text (List Text) → ℕ
single_pool diffs [] = diffs
single_pool diffs ((pool, queries) ∷ []) = length queries
single_pool diffs (p ∷ (q ∷ rest)) = diffs

-- A full stack ends the process: it cannot be recovered, and no deferred function runs.
unfoldable pub is_fatal : Panic → Bool
is_fatal stack_overflow = true
is_fatal _ = false

unfoldable pub is_reported : Panic → Bool
is_reported foreign_key = true
is_reported duplicated_key = true
is_reported _ = false

-- The entities that are not among the references.
unfoldable pub rest_of : List Ref → List Ref → List Ref
unfolding is_tracked
rest_of references [] = []
rest_of references (r ∷ entities) =
    let rest = rest_of references entities in if is_tracked r references then rest else r ∷ rest

module _ (m : Model) where
  -- `dbPools`: each pool of the tracked entities once.
  unfoldable pub db_pools : World m → List Ref → List Text
  unfolding has_pool
  db_pools w [] = []
  db_pools w (r ∷ rest) =
      let pools = db_pools w rest in
      let pool = (m.schema (w.store r).table).mysql_pool_name in
      if has_pool pool pools then pools else pool ∷ pools

  unfoldable pub start_transaction : Action m Unit
  unfolding db_pools for_each begin_db
  start_transaction w = for_each (db_pools w w.tracked_entities) begin_db w

  -- `diffs`: more than one calls for a transaction.
  unfoldable pub diffs_of : FlushPackage m.Value → World m → ℕ
  diffs_of pkg w =
      let inserted = length pkg.inserts in
      let updated = inserted + length w.update_sqls in
      let deleted = updated + length w.delete_binds in
      if leb inserted 1
      then (if leb updated 1
          then (if leb deleted 1 then single_pool deleted w.update_sqls else deleted)
          else updated)
      else inserted

  unfoldable pub needs_transaction : Bool → FlushPackage m.Value → World m → Bool
  unfolding diffs_of
  needs_transaction true pkg w = false
  needs_transaction false pkg w = ltb 1 (diffs_of pkg w)

  unfoldable pub execute_all : Bool → FlushPackage m.Value → Action m Unit
  unfolding execute_deletes execute_inserts execute_updates
  execute_all root pkg w = and_then (execute_deletes m w.delete_binds w) (λ _ deleted.
      and_then (execute_inserts m pkg.inserts deleted) (λ _ inserted.
        if root then execute_updates m inserted.update_sqls inserted else (ok tt, inserted)))

  unfoldable pub publish_caches : Bool → Bool → World m → World m
  unfolding update_local_cache update_redis_cache
  publish_caches root transaction w =
      update_redis_cache m root transaction (if root then update_local_cache m transaction w else w)

  -- A flush without references to save first.
  unfoldable pub finish : Bool → Bool → FlushPackage m.Value → Action m Bool
  unfolding needs_transaction start_transaction execute_all publish_caches
  finish root transaction pkg w =
      let use_transaction = needs_transaction transaction pkg w in
      and_then (if use_transaction then start_transaction w else (ok tt, w)) (λ _ started.
        and_then (execute_all root pkg started) (λ _ executed.
          (ok use_transaction, publish_caches root (use_transaction || transaction) executed)))

  abbrev pub flush_rest : List Ref → (List Ref → Action m Bool) → Action m Unit
  flush_rest [] again w = (ok tt, w)
  flush_rest (r ∷ rest) again w = and_then (again (r ∷ rest) w) (λ _ done. (ok tt, done))

  -- `again` is `flush`, for a root or not. The references go first, then the entities that are left.
  unfoldable pub flush_references :
      (Bool → List Ref → Action m Bool) → List Ref → Bool → List Ref → Action m Unit
  unfolding start_transaction rest_of
  flush_references again references transaction entities w =
      and_then (if transaction then (ok tt, w) else start_transaction w) (λ _ started.
        and_then (again false references started)
          (λ _ saved. flush_rest (rest_of references entities) (again true) saved))

  -- What follows the first loop: the last argument is `referencesToFlash`.
  unfoldable pub flush_collected :
      (Bool → List Ref → Action m Bool)
      → Bool
      → Bool × FlushPackage m.Value
      → List Ref
      → List Ref
      → Action m Bool
  unfolding flush_references finish
  flush_collected again root collected entities [] w = finish root collected.0 collected.1 w
  flush_collected again root collected entities (r ∷ references) w =
      and_then (flush_references again (r ∷ references) collected.0 entities w)
        (λ _ saved. (ok (not collected.0), saved))

  -- `flush`: the fuel bounds the depth of the recursion, which the source does not bound.
  unfoldable pub flush_entities : ℕ → Bool → Bool → List Ref → Action m Bool
  unfolding collect flush_collected
  flush_entities zero root transaction entities w = (panic stack_overflow, w)
  flush_entities (suc n) root transaction entities w =
      and_then
        (collect m transaction entities (record { inserts = []; references_to_flash = [] }) w)
        (λ collected.
          flush_collected (λ nested. flush_entities n nested collected.0) root collected entities
            collected.1.references_to_flash)

  unfoldable pub rollback_all : Action m Unit
  unfolding db_pools for_each rollback_db
  rollback_all w = for_each (db_pools w w.tracked_entities) rollback_db w

  unfoldable pub commit_all : Action m Unit
  unfolding db_pools for_each commit_db
  commit_all w = for_each (db_pools w w.tracked_entities) commit_db w

  -- The deferred function after a panic.
  unfoldable pub deferred_rollback : Result (Unit {0}) × World m → Result (Unit {0}) × World m
  unfolding is_fatal rollback_all
  deferred_rollback (ok done, w) = (ok done, w)
  deferred_rollback (panic p, w) =
      if is_fatal p then (panic p, w) else and_then (rollback_all w) (λ _ closed. (panic p, closed))

  -- `fuel` is that of `flush_entities`.
  unfoldable pub flush_tracked_entities : ℕ → Bool → Action m Unit
  unfolding start_transaction flush_entities commit_all clear deferred_rollback
  flush_tracked_entities fuel transaction w =
      if w.tracked_entities_counter == 0
      then (ok tt, w)
      else and_then (if transaction then start_transaction w else (ok tt, w)) (λ _ started.
        deferred_rollback (
          and_then (flush_entities fuel true transaction started.tracked_entities started)
            (λ use_transaction flushed.
              and_then
                (if transaction || use_transaction then commit_all flushed else (ok tt, flushed))
                (λ _. modify clear))))

  -- `recover` of `flushWithCheck`: the error that is returned, or the panic that goes on.
  unfoldable pub recover_some : Result (Unit {0}) × World m → Result (Option Panic) × World m
  unfolding is_fatal is_reported clear
  recover_some (ok done, w) = (ok none, w)
  recover_some (panic p, w) =
      if is_fatal p then (panic p, w) else (if is_reported p then ok (some p) else panic p, clear w)

  unfoldable pub flush_with_check : ℕ → Bool → Action m (Option Panic)
  unfolding flush_tracked_entities recover_some
  flush_with_check fuel transaction w = recover_some (flush_tracked_entities fuel transaction w)

  unfoldable pub recover_every : Result (Unit {0}) × World m → Result (Option Panic) × World m
  unfolding is_fatal clear
  recover_every (ok done, w) = (ok none, w)
  recover_every (panic p, w) = if is_fatal p then (panic p, w) else (ok (some p), clear w)

  unfoldable pub flush_with_full_check : ℕ → Action m (Option Panic)
  unfolding flush_tracked_entities recover_every
  flush_with_full_check fuel w = recover_every (flush_tracked_entities fuel false w)
