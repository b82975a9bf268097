-- ===== src/Flusher/Saved.antt =====
-- flusher.go: a flush of entities that refer to saved entities only.
use beeorm.Prelude.{
  ◌≡◌, ◌≢◌, refl, sym, ap, subst, ◌∙◌, ℕ, suc, Bool, false, not, List, [], ◌∷◌, All, Result, ok,
  ok_inj, arith, if◌then◌else◌,
}
use beeorm.Flusher.World.{Ref, Model, World, Action, DirtyBind, and_then, id_of}
use beeorm.Flusher.Loops.{and_then-returned, and_then-same, if-each}
use beeorm.Flusher.Collect.{
  FlushPackage, decide_delete, give_uuid, flush_delete, row_of, references_of, check_references,
  flush_entity, flush_dirty, flush_insert, flush_update, collect,
}
use beeorm.Flusher.Execute.{build_bind}
use beeorm.Flusher.Flush.{finish, flush_collected, flush_entities}
use beeorm.Flusher.Frame.{Keeps, Keeps-refl}
use beeorm.Flusher.Frame.Collecting.{entity-Keeps}

-- All references of the entities have an id.
abbrev pub AllSaved : (m : Model) → List Ref → World m → Type 0
AllSaved m entities w =
    All (λ r. All (λ s. (w.store s).id ≢ 0) (references_of m (w.store r))) entities

module _ {m : Model} where
  refs-AllSaved :
      (w w' : World m) (refs : List Ref)
      → Keeps w w'
      → All (λ s. (w.store s).id ≢ 0) refs
      → All (λ s. (w'.store s).id ≢ 0) refs
  refs-AllSaved w w' [] k h = tt
  refs-AllSaved w w' (r ∷ refs) k h = (k.ids r h.0, refs-AllSaved w w' refs k h.1)

  AllSaved-Keeps :
      (entities : List Ref) (w w' : World m)
      → Keeps w w'
      → AllSaved m entities w
      → AllSaved m entities w'
  AllSaved-Keeps [] w w' k h = tt
  AllSaved-Keeps (r ∷ entities) w w' k h = (
    subst (All (λ s. (w'.store s).id ≢ 0)) (sym (k.references r)) (refs-AllSaved w w' _ k h.0),
    AllSaved-Keeps entities w w' k h.1,
  )

  check-saved :
      (refs : List Ref) (w : World m) (noted : List Ref)
      → All (λ s. (w.store s).id ≢ 0) refs
      → check_references m refs w noted ≡ (false, noted)
  unfolding check_references
  check-saved [] w noted h = refl
  check-saved (r ∷ refs) w noted h = grind (arith, h.0, check-saved refs w noted h.1)

  -- A call that returns notes no reference.
  abbrev IsQuiet : FlushPackage m.Value → Result (FlushPackage m.Value) × World m → Type 0
  IsQuiet pkg call =
      (grown : FlushPackage m.Value)
      → call.0 ≡ ok grown
      → grown.references_to_flash ≡ pkg.references_to_flash

  ok-IsQuiet :
      (pkg next : FlushPackage m.Value) (w : World m)
      → next.references_to_flash ≡ pkg.references_to_flash
      → IsQuiet pkg (ok next, w)
  ok-IsQuiet pkg next w same grown h = ap (λ g. g.references_to_flash) (sym (ok_inj h)) ∙ same

  then-IsQuiet :
      {A : Type 0} (pkg : FlushPackage m.Value) (first : Result A × World m)
      (next : A → Action m (FlushPackage m.Value))
      → ((a : A) (w : World m) → IsQuiet pkg (next a w))
      → IsQuiet pkg (and_then first next)
  then-IsQuiet pkg first next k grown h =
      let (a, ran, returned) = and_then-returned first next h in k a first.1 grown returned

  dirty-IsQuiet :
      (r : Ref) (d : DirtyBind m.Content m.Value) (pkg : FlushPackage m.Value) (w : World m)
      → IsQuiet pkg (flush_dirty m r d pkg w)
  unfolding flush_dirty flush_insert
  dirty-IsQuiet r d pkg w =
      let decided = decide_delete m r w in
      let e = decided.store r in
      let known = give_uuid m r decided in
      let inserted = flush_insert e.table (row_of m r (id_of known r) d) pkg in
      if-each (IsQuiet pkg) e.delete (ok pkg, flush_delete m e.table e.id r decided)
        (if not e.in_db
          then (ok inserted, known)
          else and_then (flush_update m r d decided) (λ _ updated. (ok pkg, updated)))
        (ok-IsQuiet pkg pkg (flush_delete m e.table e.id r decided) refl)
        (if-each (IsQuiet pkg) (not e.in_db) (ok inserted, known)
          (and_then (flush_update m r d decided) (λ _ updated. (ok pkg, updated)))
          (ok-IsQuiet pkg inserted known refl)
          (then-IsQuiet pkg (flush_update m r d decided) (λ _ updated. (ok pkg, updated))
            (λ _ updated. ok-IsQuiet pkg pkg updated refl)))

  entity-IsQuiet :
      (r : Ref) (pkg : FlushPackage m.Value) (w : World m)
      → All (λ s. (w.store s).id ≢ 0) (references_of m (w.store r))
      → IsQuiet pkg (flush_entity m r pkg w)
  unfolding flush_entity
  entity-IsQuiet r pkg w saved =
      let after_build = λ (d : DirtyBind m.Content m.Value) (built : World m).
        (if d.is_dirty then flush_dirty m r d pkg built else (ok pkg, built)) in
      subst
        (λ (checked : Bool × List Ref). IsQuiet pkg (
          if checked.0
          then (ok (record pkg { references_to_flash = checked.1 }), w)
          else and_then (build_bind m r w) after_build))
        (sym (check-saved (references_of m (w.store r)) w pkg.references_to_flash saved))
        (then-IsQuiet pkg (build_bind m r w) after_build (λ d built.
          if-each (IsQuiet pkg) d.is_dirty (flush_dirty m r d pkg built) (ok pkg, built)
            (dirty-IsQuiet r d pkg built) (ok-IsQuiet pkg pkg built refl)))

  collect-quiet :
      (entities : List Ref) (transaction : Bool) (pkg : FlushPackage m.Value) (w : World m)
      → AllSaved m entities w
      → (collected : Bool × FlushPackage m.Value)
      → (collect m transaction entities pkg w).0 ≡ ok collected
      → collected.1.references_to_flash ≡ pkg.references_to_flash
  unfolding collect
  collect-quiet [] transaction pkg w saved collected h =
      ap (λ c. c.1.references_to_flash) (sym (ok_inj h))
  collect-quiet (r ∷ entities) transaction pkg w saved collected h =
      let (grown, ran, returned) = and_then-returned (flush_entity m r pkg w) _ h in
      let later = AllSaved-Keeps entities w _ (entity-Keeps r pkg w (Keeps-refl w)) saved.1 in
      collect-quiet entities _ grown _ later collected returned
      ∙ entity-IsQuiet r pkg w saved.0 grown ran

  collected-none :
      (again : Bool → List Ref → Action m Bool) (root : Bool)
      (collected : Bool × FlushPackage m.Value) (entities references : List Ref) (w : World m)
      → references ≡ []
      → flush_collected m again root collected entities references w
        ≡ finish m root collected.0 collected.1 w
  unfolding flush_collected
  collected-none again root collected entities references w e = rw e refl

-- Where the references of all entities have an id, any fuel but none is enough: the flush does not
-- call itself, and is its first loop and then the statements and the updates of the caches.
pub flush_entities-AllSaved :
    (m : Model) (n : ℕ) (root transaction : Bool) (entities : List Ref) (w : World m)
    → AllSaved m entities w
    → flush_entities m (suc n) root transaction entities w
      ≡ and_then
          (collect m transaction entities (record { inserts = []; references_to_flash = [] }) w)
          (λ collected. finish m root collected.0 collected.1)
unfolding flush_entities
flush_entities-AllSaved m n root transaction entities w saved =
    let first =
      collect m transaction entities (record { inserts = []; references_to_flash = [] }) w in
    and_then-same first _ (λ collected. finish m root collected.0 collected.1)
      (λ collected ran.
        collected-none (λ nested. flush_entities m n nested collected.0) root collected entities
          collected.1.references_to_flash first.1
          (collect-quiet entities transaction _ w saved collected ran))
