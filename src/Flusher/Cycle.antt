-- ===== src/Flusher/Cycle.antt =====
-- flusher.go: the recursion of a flush over references that have no id.
use beeorm.Prelude.{
  ◌≡◌, refl, sym, ap, ◌∙◌, ℕ, Text, zero, suc, Bool, true, false, List, [], ◌∷◌, Result, ok, panic,
  if◌then◌else◌,
}
use beeorm.Db.{db_at}
use beeorm.Flusher.World.{Ref, Model, World, Action, and_then, begin_db}
use beeorm.Flusher.Loops.{for_each-keeps}
use beeorm.Flusher.Collect.{references_of, check_references, add_reference, flush_entity, collect}
use beeorm.Flusher.Track.{is_tracked}
use beeorm.Flusher.Flush.{
  start_transaction, flush_references, flush_entities, flush_collected, db_pools,
}

-- An entity without an id whose only reference is the entity itself.
pub record IsOwnParent {m : Model} (w : World m) (r : Ref) : Type 0 where
  pub no_id : (w.store r).id ≡ 0
  pub own : references_of m (w.store r) ≡ r ∷ []

module _ {m : Model} where
  -- The call does not return.
  abbrev pub Fails : {A : Type 0} → Result A × World m → Type 0
  Fails {A} call = (a : A) → call.0 ≡ ok a → ⊥

  first-Fails :
      {A B : Type 0} (first : Result A × World m) (next : A → Action m B)
      → Fails first
      → Fails (and_then first next)
  unfolding and_then
  first-Fails (panic p, w) next h b e = cc
  first-Fails (ok a, w) next h b e = h a refl

  rest-Fails :
      {A B : Type 0} (P : World m → Type 0) (first : Result A × World m) (next : A → Action m B)
      → P first.1
      → ((a : A) (w : World m) → P w → Fails (next a w))
      → Fails (and_then first next)
  unfolding and_then
  rest-Fails P (panic p, w) next h k b e = cc
  rest-Fails P (ok a, w) next h k b e = k a w h b e

  check-own :
      (r : Ref) (w : World m)
      → IsOwnParent w r
      → check_references m (references_of m (w.store r)) w [] ≡ (true, r ∷ [])
  unfolding check_references add_reference is_tracked
  check-own r w h = rw (h.own, h.no_id) refl

  flush_entity-own :
      (r : Ref) (w : World m)
      → IsOwnParent w r
      → flush_entity m r (record { inserts = []; references_to_flash = [] }) w
        ≡ (ok (record { inserts = []; references_to_flash = r ∷ [] }), w)
  unfolding flush_entity
  flush_entity-own r w h = rw (check-own r w h) refl

  joins : Bool → Ref → World m → Bool
  joins transaction r w =
      if transaction
      then true
      else (db_at (m.schema (w.store r).table).mysql_pool_name w.engine).in_transaction

  collect-own :
      (transaction : Bool) (r : Ref) (w : World m)
      → IsOwnParent w r
      → collect m transaction (r ∷ []) (record { inserts = []; references_to_flash = [] }) w
        ≡ (ok (joins transaction r w, record { inserts = []; references_to_flash = r ∷ [] }), w)
  unfolding collect joins and_then
  collect-own transaction r w h = rw (flush_entity-own r w h) refl

  begin_own :
      (r : Ref) (pool : Text) (w : World m) → IsOwnParent w r → IsOwnParent (begin_db pool w).1 r
  unfolding begin_db
  begin_own r pool w h = record { no_id = h.no_id; own = h.own }

  started_own :
      (joined : Bool) (r : Ref) (w : World m)
      → IsOwnParent w r
      → IsOwnParent (if joined then (ok tt, w) else start_transaction m w).1 r
  unfolding start_transaction
  started_own true r w h = h
  started_own false r w h =
      for_each-keeps (λ v. IsOwnParent v r) begin_db (begin_own r) (db_pools m w w.tracked_entities)
        w h

  no_fuel :
      (root transaction : Bool) (r : Ref) (w : World m)
      → Fails (flush_entities m zero root transaction (r ∷ []) w)
  unfolding flush_entities
  no_fuel root transaction r w b e = cc

  -- The flush of the references is the flush of the entity again.
  collected-Fails :
      (again : Bool → List Ref → Action m Bool) (root joined : Bool) (r : Ref) (w : World m)
      → ((inner : Bool) (saved : World m)
          → IsOwnParent saved r
          → Fails (again inner (r ∷ []) saved))
      → IsOwnParent w r
      → Fails (
          flush_collected m again root
            (joined, record { inserts = []; references_to_flash = r ∷ [] })
            (r ∷ [])
            (r ∷ [])
            w)
  unfolding flush_collected flush_references
  collected-Fails again root joined r w ih h = first-Fails _ _ (
      rest-Fails (λ v. IsOwnParent v r) (if joined then (ok tt, w) else start_transaction m w) _
        (started_own joined r w h)
        (λ _ started own. first-Fails (again false (r ∷ []) started) _ (ih false started own)))

  continues :
      (n : ℕ) (root transaction : Bool) (r : Ref) (w : World m)
      → IsOwnParent w r
      → flush_entities m (suc n) root transaction (r ∷ []) w
        ≡ flush_collected m
            (λ inner. flush_entities m n inner (joins transaction r w))
            root
            (joins transaction r w, record { inserts = []; references_to_flash = r ∷ [] })
            (r ∷ [])
            (r ∷ [])
            w
  unfolding flush_entities and_then
  continues n root transaction r w h = rw (collect-own transaction r w h) refl

-- A flush of an entity without an id that refers to nothing but itself never returns, whatever the
-- depth of the recursion: it panics or overflows the stack.
pub flush_entities-Fails :
    (m : Model) (fuel : ℕ) (root transaction : Bool) (r : Ref) (w : World m)
    → IsOwnParent w r
    → Fails (flush_entities m fuel root transaction (r ∷ []) w)
flush_entities-Fails m zero root transaction r w h b e = no_fuel root transaction r w b e
flush_entities-Fails m (suc n) root transaction r w h b e =
    collected-Fails (λ inner. flush_entities m n inner (joins transaction r w)) root
      (joins transaction r w) r w
      (λ inner saved. flush_entities-Fails m n inner (joins transaction r w) r saved) h b
      (sym (ap (λ x. x.0) (continues n root transaction r w h)) ∙ e)
