-- ===== src/Flusher/Frame/Statements.antt =====
-- flusher.go: the statements of a flush keep what neither they nor the caches change.
use beeorm.Prelude.{
  ◌≢◌, refl, sym, ap, subst, ℕ, Bool, true, false, none, some, List, [], ◌∷◌, Map, Text, ok, arith,
  if◌then◌else◌, ◌==◌,
}
use beeorm.Flusher.World.{Ref, Schema, Model, World, set_entity, exec_db}
use beeorm.Flusher.Loops.{and_then-keeps, if-keeps}
use beeorm.Flusher.Pending.{add_to_log_queue}
use beeorm.Flusher.Execute.{
  InsertRow, InsertGroup, build_bind, execute_delete, execute_rows, execute_deletes,
  execute_updates, mark_inserted, inserted_rows, execute_inserts,
}
use beeorm.Flusher.Collect.{references_of}
use beeorm.Flusher.Frame.{
  IsFramed, Keeps-IsFramed, Keeps, SameStore-Keeps, set_entity-Keeps, set_entity_self,
}
use beeorm.Flusher.Frame.Caches.{log_stable, inserted_stable, deleted_stable}

still_given : (own id : ℕ) → own ≢ 0 → (if own == 0 then id else own) ≢ 0
still_given own id h = ground arith

module _ {m : Model} (P : World m → Type 0) (framed : IsFramed P)
    (sends : (pool sql : Text) (w : World m) → P w → P (exec_db pool sql w).1)
    (marks : (id : ℕ) (r : Ref) (w : World m) → P w → P (mark_inserted m id r w).1) where
  pub build_stable : (r : Ref) (w : World m) → P w → P (build_bind m r w).1
  unfolding build_bind
  build_stable r w k = framed.written r _ w refl refl refl k

  delete_stable :
      (schema : Schema) (sql : Text) (executed : Bool) (id : ℕ) (r : Ref) (w : World m)
      → P w
      → P (execute_delete m schema sql executed id r w).1
  unfolding execute_delete
  delete_stable schema sql executed id r w k =
      and_then-keeps P (build_bind m r w) _ (build_stable r w k) (λ d built kept.
        and_then-keeps P _ _
          (if-keeps P executed (ok 0, built) _ kept (sends schema.mysql_pool_name sql built kept))
          (λ result sent kept_sent.
            and_then-keeps P (add_to_log_queue m r id (some d.current) none sent) _
              (log_stable P framed r id (some d.current) none sent kept_sent)
              (λ _ logged. deleted_stable P framed schema id d.bind d.current logged)))

  rows_stable :
      (schema : Schema) (sql : Text) (executed : Bool) (binds : Map ℕ Ref) (w : World m)
      → P w
      → P (execute_rows m schema sql executed binds w).1
  unfolding execute_rows
  rows_stable schema sql executed [] w k = k
  rows_stable schema sql executed ((id, r) ∷ rest) w k =
      and_then-keeps P (execute_delete m schema sql executed id r w) _
        (delete_stable schema sql executed id r w k) (λ _. rows_stable schema sql true rest)

  pub deletes_stable :
      (binds : Map ℕ (Map ℕ Ref)) (w : World m) → P w → P (execute_deletes m binds w).1
  unfolding execute_deletes
  deletes_stable [] w k = k
  deletes_stable ((t, binds) ∷ rest) w k =
      and_then-keeps P _ _ (rows_stable (m.schema t) _ false binds w k) (λ _. deletes_stable rest)

  pub updates_stable :
      (queries : Map Text (List Text)) (w : World m) → P w → P (execute_updates m queries w).1
  unfolding execute_updates
  updates_stable [] w k = k
  updates_stable ((pool, qs) ∷ rest) w k =
      and_then-keeps P _ _ (sends pool _ w k) (λ _. updates_stable rest)

  inserted_rows_stable :
      (pool : Text) (rows : List (InsertRow m.Value)) (id : ℕ) (w : World m)
      → P w
      → P (inserted_rows m pool id rows w).1
  unfolding inserted_rows
  inserted_rows_stable pool [] id w k = k
  inserted_rows_stable pool (row ∷ rest) id w k =
      and_then-keeps P (mark_inserted m id row.entity w) _ (marks id row.entity w k)
        (λ _ saved kept.
          and_then-keeps P _ _ (inserted_stable P framed row.entity _ row.bind saved kept)
            (λ _. inserted_rows_stable pool rest _))

  pub inserts_stable :
      (inserts : Map ℕ (InsertGroup m.Value)) (w : World m)
      → P w
      → P (execute_inserts m inserts w).1
  unfolding execute_inserts
  inserts_stable [] w k = k
  inserts_stable ((t, group) ∷ rest) w k =
      and_then-keeps P _ _ (sends (m.schema t).mysql_pool_name _ w k) (λ id sent kept.
        and_then-keeps P _ _
          (inserted_rows_stable (m.schema t).mysql_pool_name group.rows id sent kept)
          (λ _. inserts_stable rest))

module _ {m : Model} {w0 : World m} where
  exec-Keeps : (pool sql : Text) (w : World m) → Keeps w0 w → Keeps w0 (exec_db pool sql w).1
  unfolding exec_db
  exec-Keeps pool sql w k = SameStore-Keeps w _ (record { store = refl; tracked = refl }) k

  mark-Keeps : (id : ℕ) (r : Ref) (w : World m) → Keeps w0 w → Keeps w0 (mark_inserted m id r w).1
  unfolding mark_inserted
  mark-Keeps id r w k =
      let e = w.store r in
      let saved = record e { in_db = true; loaded = true; id = if e.id == 0 then id else e.id } in
      let known = set_entity r saved w in
      let kept = set_entity-Keeps r saved w refl refl (λ given. still_given e.id id given) k in
      let now = set_entity_self r saved w in
      set_entity-Keeps r _ known (ap (λ x. x.table) (sym now)) (ap (references_of m) (sym now))
        (λ given. subst (λ x. x.id ≢ 0) now given) kept

  pub build-Keeps : (r : Ref) (w : World m) → Keeps w0 w → Keeps w0 (build_bind m r w).1
  build-Keeps = build_stable (Keeps w0) Keeps-IsFramed exec-Keeps mark-Keeps

  pub deletes-Keeps :
      (binds : Map ℕ (Map ℕ Ref)) (w : World m)
      → Keeps w0 w
      → Keeps w0 (execute_deletes m binds w).1
  deletes-Keeps = deletes_stable (Keeps w0) Keeps-IsFramed exec-Keeps mark-Keeps

  pub updates-Keeps :
      (queries : Map Text (List Text)) (w : World m)
      → Keeps w0 w
      → Keeps w0 (execute_updates m queries w).1
  updates-Keeps = updates_stable (Keeps w0) Keeps-IsFramed exec-Keeps mark-Keeps

  pub inserts-Keeps :
      (inserts : Map ℕ (InsertGroup m.Value)) (w : World m)
      → Keeps w0 w
      → Keeps w0 (execute_inserts m inserts w).1
  inserts-Keeps = inserts_stable (Keeps w0) Keeps-IsFramed exec-Keeps mark-Keeps
