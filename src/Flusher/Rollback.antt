-- ===== src/Flusher/Rollback.antt =====
-- flusher.go: the deferred rollback of every pool closes the transactions.
use beeorm.Prelude.{◌≡◌, refl, sym, subst, false, List, [], ◌∷◌, All, Text, Result, ok, arith}
use beeorm.Db.{done, db_at, rollback}
use beeorm.Db.Transactions.{db_at-set_db}
use beeorm.Flusher.World.{Ref, Model, World, History, for_each, rollback_db}
use beeorm.Flusher.Loops.{and_then-ok, for_each-keeps}
use beeorm.Flusher.Flush.{db_pools}
use beeorm.Flusher.Frame.{Keeps}

abbrev pub RollsBack : Model → Type 0
RollsBack m = (sent : History) (pool : Text) → m.rolls_back sent pool ≡ done

module _ {m : Model} where
  abbrev pub IsClosed : World m → Text → Type 0
  IsClosed w pool = (db_at pool w.engine).in_transaction ≡ false

module _ {m : Model} (done_always : RollsBack m) where
  rollback_db-ok : (p : Text) (w : World m) → (rollback_db p w).0 ≡ ok tt
  unfolding rollback_db rollback
  rollback_db-ok p w = grind (arith, done_always w.history p)

  rollback_db-IsClosed : (p : Text) (w : World m) → IsClosed (rollback_db p w).1 p
  unfolding rollback_db rollback
  rollback_db-IsClosed p w = grind (arith, done_always w.history p, db_at-set_db)

  rollback_db-StaysClosed :
      (p q : Text) (w : World m) → IsClosed w q → IsClosed (rollback_db p w).1 q
  unfolding rollback_db rollback
  rollback_db-StaysClosed p q w h = grind (arith, done_always w.history p, db_at-set_db)

  rollbacks-StaysClosed :
      (q : Text) (pools : List Text) (w : World m)
      → IsClosed w q
      → IsClosed (for_each pools rollback_db w).1 q
  rollbacks-StaysClosed q pools w h =
      for_each-keeps (λ v. IsClosed v q) rollback_db (λ p v k. rollback_db-StaysClosed p q v k)
        pools w h

  pub rollbacks-ok : (pools : List Text) (w : World m) → (for_each pools rollback_db w).0 ≡ ok tt
  unfolding for_each
  rollbacks-ok [] w = refl
  rollbacks-ok (p ∷ pools) w =
      rw (and_then-ok (rollback_db p w) (λ _. for_each pools rollback_db) tt (rollback_db-ok p w))
        (rollbacks-ok pools (rollback_db p w).1)

  pub rollbacks-All :
      (pools : List Text) (w : World m) → All (IsClosed (for_each pools rollback_db w).1) pools
  unfolding for_each
  rollbacks-All [] w = tt
  rollbacks-All (p ∷ pools) w =
      let next = (rollback_db p w).1 in
      subst (λ (v : Result (Unit {0}) × World m). All (IsClosed v.1) (p ∷ pools))
        (sym
          (and_then-ok (rollback_db p w) (λ _. for_each pools rollback_db) tt (rollback_db-ok p w)))
        (rollbacks-StaysClosed p pools next (rollback_db-IsClosed p w), rollbacks-All pools next)

pub db_pools-Keeps :
    (m : Model) (w w' : World m) (entities : List Ref)
    → Keeps w w'
    → db_pools m w' entities ≡ db_pools m w entities
unfolding db_pools
db_pools-Keeps m w w' [] k = refl
db_pools-Keeps m w w' (r ∷ rest) k = rw (k.tables r, db_pools-Keeps m w w' rest k) refl
