-- ===== src/Flusher/Collect.antt =====
-- flusher.go: the first loop of a flush, which sorts the entities into rows to delete, rows to insert,
-- queries for updates and references that must be saved first.
use beeorm.Prelude.{
  ℕ, Bool, true, false, ◌&&◌, not, Option, none, some, List, [], ◌∷◌, ◌++◌, Map, Text, codes,
  format_uint, ok, panic, not_loaded, lookup, insert, text_discrete, ℕ_discrete, if◌then◌else◌,
  ◌==◌,
}
use beeorm.Uuid.{uuid}
use beeorm.RedisFlusher.{append_to}
use beeorm.Db.{db_at}
use beeorm.Flusher.World.{Ref, Model, World, Action, Entity, DirtyBind, and_then, set_entity, id_of}
use beeorm.Flusher.Track.{is_tracked}
use beeorm.Flusher.Caches.{update_cache_after_update}
use beeorm.Flusher.Execute.{InsertRow, InsertGroup, build_bind, update_sql}

-- `insertKeys`, `insertBinds`, `insertSQLBinds` and `insertReflectValues` are one map here; the keys
-- of `referencesToFlash` stand in the order in which they came.
pub record FlushPackage (Value : Type 0) : Type 0 where
  pub inserts : Map ℕ (InsertGroup Value)
  pub references_to_flash : List Ref

abbrev pub id_column : Text
id_column = codes "ID"

unfoldable pub add_reference : Ref → List Ref → List Ref
unfolding is_tracked
add_reference r references = if is_tracked r references then references else references ++ r ∷ []

abbrev keys_of {ℓ} : {V : Type ℓ} → List (Text × V) → List Text
keys_of [] = []
keys_of ((key, value) ∷ rest) = key ∷ keys_of rest

module _ {V : Type 0} where
  -- The columns of the statement are those of the first row.
  abbrev pub group_with : InsertRow V → Option (InsertGroup V) → InsertGroup V
  group_with row none = record { insert_keys = keys_of row.bind; rows = row ∷ [] }
  group_with row (some group) = record group { rows = group.rows ++ row ∷ [] }

  unfoldable pub flush_insert : ℕ → InsertRow V → FlushPackage V → FlushPackage V
  flush_insert t row pkg = record pkg {
    inserts = insert ℕ_discrete t (group_with row (lookup ℕ_discrete t pkg.inserts)) pkg.inserts;
  }

-- The references of a slice that are not nil.
abbrev pub present : List (Option Ref) → List Ref
present [] = []
present (none ∷ rest) = present rest
present (some r ∷ rest) = r ∷ present rest

abbrev pub flat : List (List Ref) → List Ref
flat [] = []
flat (refs ∷ rest) = refs ++ flat rest

module _ (m : Model) where
  abbrev pub references_of : Entity m.Content m.Value → List Ref
  references_of e = present e.ref_one ++ flat e.ref_many

  -- The references without an id are noted; the result is whether there is one.
  unfoldable pub check_references : List Ref → World m → List Ref → Bool × List Ref
  unfolding add_reference
  check_references [] w noted = (false, noted)
  check_references (r ∷ refs) w noted =
      if id_of w r == 0
      then (true, (check_references refs w (add_reference r noted)).1)
      else check_references refs w noted

  abbrev binds_at : Option (Map ℕ Ref) → Map ℕ Ref
  binds_at none = []
  binds_at (some binds) = binds

  unfoldable pub flush_delete : ℕ → ℕ → Ref → World m → World m
  flush_delete t id r w = record w {
    delete_binds =
        insert ℕ_discrete t (insert ℕ_discrete id r (binds_at (lookup ℕ_discrete t w.delete_binds)))
          w.delete_binds;
  }

  unfoldable pub add_update_sql : Text → Text → World m → World m
  add_update_sql pool sql w = record w {
    update_sqls =
        insert text_discrete pool (append_to (lookup text_discrete pool w.update_sqls) (sql ∷ []))
          w.update_sqls;
  }

  unfoldable pub set_binary : Ref → World m → World m
  unfolding set_entity
  set_binary r w =
      set_entity r (record (w.store r) { binary = m.serialize (id_of w) (w.store r) }) w

  unfoldable pub flush_update : Ref → DirtyBind m.Content m.Value → Action m Unit
  unfolding add_update_sql set_binary update_cache_after_update
  flush_update r d w =
      let e = w.store r in
      let schema = m.schema e.table in
      if e.loaded
      then update_cache_after_update m r d.bind d.current e.id (
          set_binary r (
            add_update_sql schema.mysql_pool_name (update_sql schema.table_name d.sql_bind e.id) w))
      else (panic not_loaded, w)

  -- `orm.delete = true` where a fake delete is asked for and the table has none.
  unfoldable pub decide_delete : Ref → World m → World m
  unfolding set_entity
  decide_delete r w =
      let e = w.store r in
      if e.fake_delete && not (m.schema e.table).has_fake_delete
      then set_entity r (record e { delete = true }) w
      else w

  -- `idElem.SetUint(uuid())` for a new row without an id.
  unfoldable pub give_uuid : Ref → World m → World m
  unfolding uuid set_entity
  give_uuid r w =
      let e = w.store r in
      if e.id == 0 && (m.schema e.table).has_uuid
      then set_entity r (record e { id = (uuid w.uuid_state).0 })
          (record w { uuid_state = (uuid w.uuid_state).1 })
      else w

  -- The row of an entity: an id that is known is a column of it. `buildSQL` holds here, since the
  -- entity is not marked as deleted.
  abbrev pub row_of : Ref → ℕ → DirtyBind m.Content m.Value → InsertRow m.Value
  row_of r id d =
      if id == 0 then record { entity = r; bind = d.bind; sql_bind = d.sql_bind } else record {
        entity = r;
        bind = insert text_discrete id_column (m.uint_value id) d.bind;
        sql_bind = insert text_discrete id_column (format_uint id) d.sql_bind;
      }

  -- What is done with an entity that is dirty.
  unfoldable pub flush_dirty :
      Ref → DirtyBind m.Content m.Value → FlushPackage m.Value → Action m (FlushPackage m.Value)
  unfolding decide_delete flush_delete give_uuid flush_insert flush_update
  flush_dirty r d pkg w =
      let decided = decide_delete r w in
      let e = decided.store r in
      let known = give_uuid r decided in
      if e.delete
      then (ok pkg, flush_delete e.table e.id r decided)
      else if not e.in_db
      then (ok (flush_insert e.table (row_of r (id_of known r) d) pkg), known)
      else and_then (flush_update r d decided) (λ _ updated. (ok pkg, updated))

  unfoldable pub flush_entity : Ref → FlushPackage m.Value → Action m (FlushPackage m.Value)
  unfolding check_references build_bind flush_dirty
  flush_entity r pkg w =
      let checked = check_references (references_of (w.store r)) w pkg.references_to_flash in
      if checked.0
      then (ok (record pkg { references_to_flash = checked.1 }), w)
      else and_then (build_bind m r w)
          (λ d built. if d.is_dirty then flush_dirty r d pkg built else (ok pkg, built))

  abbrev pool_of : World m → Ref → Text
  pool_of w r = (m.schema (w.store r).table).mysql_pool_name

  -- The loop, and whether a pool of an entity turned out to be in a transaction.
  unfoldable pub collect :
      Bool → List Ref → FlushPackage m.Value → Action m (Bool × FlushPackage m.Value)
  unfolding flush_entity
  collect transaction [] pkg w = (ok (transaction, pkg), w)
  collect transaction (r ∷ rest) pkg w =
      let joined = if transaction then true else (db_at (pool_of w r) w.engine).in_transaction in
      and_then (flush_entity r pkg w) (λ grown. collect joined rest grown)
