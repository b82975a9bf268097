-- ===== src/Flusher/Frame/Collecting.antt =====
-- flusher.go: the first loop of a flush keeps the entities, but for the ids of new rows.
use beeorm.Prelude.{
  ◌≡◌, refl, ℕ, Bool, true, List, [], ◌∷◌, ok, panic, not_loaded, Bool-cases, inl, inr, arith, ◌==◌,
  ◌&&◌, not,
}
use beeorm.Uuid.{uuid}
use beeorm.Flusher.World.{Ref, Model, World, DirtyBind}
use beeorm.Flusher.Loops.{and_then-keeps, if-keeps}
use beeorm.Flusher.Caches.{update_cache_after_update}
use beeorm.Flusher.Execute.{build_bind, update_sql}
use beeorm.Flusher.Collect.{
  FlushPackage, references_of, decide_delete, give_uuid, set_binary, add_update_sql, flush_delete,
  flush_update, flush_dirty, flush_entity, collect, check_references,
}
use beeorm.Flusher.Frame.{Keeps-IsFramed, Keeps, SameStore-Keeps, set_entity-Keeps}
use beeorm.Flusher.Frame.Caches.{updated_stable}
use beeorm.Flusher.Frame.Statements.{build-Keeps}

is_zero : (id : ℕ) (b : Bool) → ((id == 0) && b) ≡ true → id ≡ 0
is_zero id b h = ground arith

module _ {m : Model} {w0 : World m} where
  decide-Keeps : (r : Ref) (w : World m) → Keeps w0 w → Keeps w0 (decide_delete m r w)
  unfolding decide_delete
  decide-Keeps r w k =
      elim (Bool-cases
        ((w.store r).fake_delete && not (m.schema (w.store r).table).has_fake_delete)) [
          | inl h ↦ rw h (set_entity-Keeps r _ w refl refl (λ given. given) k)
          | inr h ↦ rw h k
        ]

  uuid-Keeps : (r : Ref) (w : World m) → Keeps w0 w → Keeps w0 (give_uuid m r w)
  unfolding give_uuid
  uuid-Keeps r w k =
      elim (Bool-cases ((w.store r).id == 0 && (m.schema (w.store r).table).has_uuid)) [
        | inl h ↦ rw h (
            set_entity-Keeps r _ (record w { uuid_state = (uuid w.uuid_state).1 }) refl refl
              (λ given. absurd (given (is_zero (w.store r).id _ h)))
              (SameStore-Keeps w _ (record { store = refl; tracked = refl }) k))
        | inr h ↦ rw h k
      ]

  flush_update-Keeps :
      (r : Ref) (d : DirtyBind m.Content m.Value) (w : World m)
      → Keeps w0 w
      → Keeps w0 (flush_update m r d w).1
  unfolding flush_update add_update_sql set_binary
  flush_update-Keeps r d w k =
      let e = w.store r in
      let schema = m.schema e.table in
      let added =
        add_update_sql m schema.mysql_pool_name (update_sql schema.table_name d.sql_bind e.id) w in
      if-keeps (Keeps w0) e.loaded
        (update_cache_after_update m r d.bind d.current e.id (set_binary m r added))
        (panic not_loaded, w)
        (updated_stable (Keeps w0) Keeps-IsFramed r d.bind d.current e.id _ (
          set_entity-Keeps r _ added refl refl (λ given. given)
            (SameStore-Keeps w _ (record { store = refl; tracked = refl }) k)))
        k

  pub dirty-Keeps :
      (r : Ref) (d : DirtyBind m.Content m.Value) (pkg : FlushPackage m.Value) (w : World m)
      → Keeps w0 w
      → Keeps w0 (flush_dirty m r d pkg w).1
  unfolding flush_dirty flush_delete
  dirty-Keeps r d pkg w k =
      let decided = decide_delete m r w in
      let kept = decide-Keeps r w k in
      let e = decided.store r in
      if-keeps (Keeps w0) e.delete (ok pkg, flush_delete m e.table e.id r decided) _
        (SameStore-Keeps decided _ (record { store = refl; tracked = refl }) kept)
        (if-keeps (Keeps w0) (not e.in_db) (ok _, give_uuid m r decided) _
          (uuid-Keeps r decided kept)
          (and_then-keeps (Keeps w0) (flush_update m r d decided) _
            (flush_update-Keeps r d decided kept) (λ _ updated after. after)))

  pub entity-Keeps :
      (r : Ref) (pkg : FlushPackage m.Value) (w : World m)
      → Keeps w0 w
      → Keeps w0 (flush_entity m r pkg w).1
  unfolding flush_entity
  entity-Keeps r pkg w k =
      let checked = check_references m (references_of m (w.store r)) w pkg.references_to_flash in
      if-keeps (Keeps w0) checked.0 (ok (record pkg { references_to_flash = checked.1 }), w) _ k
        (and_then-keeps (Keeps w0) (build_bind m r w) _ (build-Keeps r w k) (λ d built kept.
          if-keeps (Keeps w0) d.is_dirty (flush_dirty m r d pkg built) (ok pkg, built)
            (dirty-Keeps r d pkg built kept) kept))

  pub collect-Keeps :
      (entities : List Ref) (transaction : Bool) (pkg : FlushPackage m.Value) (w : World m)
      → Keeps w0 w
      → Keeps w0 (collect m transaction entities pkg w).1
  unfolding collect
  collect-Keeps [] transaction pkg w k = k
  collect-Keeps (r ∷ rest) transaction pkg w k =
      and_then-keeps (Keeps w0) (flush_entity m r pkg w) _ (entity-Keeps r pkg w k)
        (λ grown. collect-Keeps rest _ grown)
