-- ===== src/Flusher/Execute.antt =====
-- flusher.go: the statements of one flush, sent in the order DELETE, INSERT, UPDATE.
use beeorm.Prelude.{
  ℕ, ◌+◌, ◌%◌, ◌^◌, Bool, true, false, Option, none, some, List, [], ◌∷◌, ◌++◌, map, Map, Text,
  codes, join, format_uint, ok, lookup, text_discrete, if◌then◌else◌, ◌==◌,
}
use beeorm.Flusher.World.{
  Ref, Schema, Model, Action, DirtyBind, and_then, set_entity, id_of, exec_db,
}
use beeorm.Flusher.Pending.{add_to_log_queue}
use beeorm.Flusher.Caches.{update_cache_for_inserted, update_cache_after_delete}

-- `insertBinds`, `insertSQLBinds` and `insertReflectValues` at one index.
pub record InsertRow (Value : Type 0) : Type 0 where
  pub entity : Ref
  pub bind : Map Text Value
  pub sql_bind : Map Text Text

-- What `flushPackage` holds for one type; its maps have the same keys.
pub record InsertGroup (Value : Type 0) : Type 0 where
  pub insert_keys : List Text
  pub rows : List (InsertRow Value)

abbrev comma : Text
comma = codes ","

abbrev quoted : Text → Text
quoted column = codes "`" ++ (column ++ codes "`")

abbrev parenthesized : List Text → Text
parenthesized parts = codes "(" ++ (join comma parts ++ codes ")")

abbrev ids_of {ℓ} : {V : Type ℓ} → List (ℕ × V) → List Text
ids_of [] = []
ids_of ((id, entity) ∷ rest) = format_uint id ∷ ids_of rest

abbrev delete_sql : Text → List Text → Text
delete_sql table ids =
    codes "DELETE FROM `" ++ (table ++ (codes "` WHERE `ID` IN " ++ parenthesized ids))

-- A missing column leaves its place empty.
abbrev pub cell : Option Text → Text
cell none = []
cell (some value) = value

abbrev pub row_values : List Text → Map Text Text → List Text
row_values [] row = []
row_values (column ∷ columns) row = cell (lookup text_discrete column row) ∷ row_values columns row

abbrev columns_sql : List Text → Text
columns_sql [] = []
columns_sql (c ∷ cs) = parenthesized (map quoted (c ∷ cs))

abbrev assignments : Map Text Text → List Text
assignments [] = []
assignments ((key, value) ∷ rest) = (quoted key ++ (codes "=" ++ value)) ∷ assignments rest

abbrev pub update_sql : Text → Map Text Text → ℕ → Text
update_sql table sql_bind id =
    codes "UPDATE `"
    ++ (table
        ++ (codes "` SET "
            ++ (join comma (assignments sql_bind) ++ (codes " WHERE `ID` = " ++ format_uint id))))

module _ (m : Model) where
  abbrev insert_rows : List Text → List (InsertRow m.Value) → List Text
  insert_rows columns [] = []
  insert_rows columns (row ∷ rest) =
      parenthesized (row_values columns row.sql_bind) ∷ insert_rows columns rest

  abbrev pub insert_sql : Text → InsertGroup m.Value → Text
  insert_sql table group =
      codes "INSERT INTO `"
      ++ (table
          ++ (codes "`"
              ++ (columns_sql group.insert_keys
                  ++ (codes " VALUES " ++ join comma (insert_rows group.insert_keys group.rows)))))

  -- `orm.buildDirtyBind`, which may write the entity's mark of a deleted row.
  unfoldable pub build_bind : Ref → Action m (DirtyBind m.Content m.Value)
  unfolding set_entity
  build_bind r w =
      let e = w.store r in
      let d = m.build_dirty_bind (id_of w) e in
      (ok d, set_entity r (record e { content = d.filled }) w)

  -- One deleted row. The statement for all rows of the table goes out with the first.
  unfoldable pub execute_delete : Schema → Text → Bool → ℕ → Ref → Action m Unit
  unfolding build_bind exec_db add_to_log_queue update_cache_after_delete
  execute_delete schema sql query_executed id r w = and_then (build_bind r w) (λ d sent_before.
      and_then
        (if query_executed
          then (ok 0, sent_before)
          else exec_db schema.mysql_pool_name sql sent_before)
        (λ result sent.
          and_then (add_to_log_queue m r id (some d.current) none sent)
            (λ _ logged. (ok tt, update_cache_after_delete m schema id d.bind d.current logged))))

  unfoldable pub execute_rows : Schema → Text → Bool → Map ℕ Ref → Action m Unit
  unfolding execute_delete
  execute_rows schema sql query_executed [] w = (ok tt, w)
  execute_rows schema sql query_executed ((id, r) ∷ rest) w =
      and_then (execute_delete schema sql query_executed id r w)
        (λ _. execute_rows schema sql true rest)

  unfoldable pub execute_deletes : Map ℕ (Map ℕ Ref) → Action m Unit
  unfolding execute_rows
  execute_deletes [] w = (ok tt, w)
  execute_deletes ((t, delete_binds) ∷ rest) w =
      let schema = m.schema t in
      and_then
        (execute_rows schema (delete_sql schema.table_name (ids_of delete_binds)) false delete_binds
          w)
        (λ _. execute_deletes rest)

  -- One query goes out as it is, several as one text.
  abbrev pub queries_sql : List Text → Text
  queries_sql [] = codes ";"
  queries_sql (q ∷ []) = q
  queries_sql (q ∷ (q2 ∷ qs)) = join (codes ";") (q ∷ (q2 ∷ qs)) ++ codes ";"

  unfoldable pub execute_updates : Map Text (List Text) → Action m Unit
  unfolding exec_db
  execute_updates [] w = (ok tt, w)
  execute_updates ((pool, queries) ∷ rest) w =
      and_then (exec_db pool (queries_sql queries) w) (λ _. execute_updates rest)

  -- An inserted entity: `id` is the next id that MySQL gave.
  unfoldable pub mark_inserted : ℕ → Ref → Action m Unit
  unfolding set_entity
  mark_inserted id r w =
      let e = w.store r in
      let saved = record e { in_db = true; loaded = true; id = if e.id == 0 then id else e.id } in
      let known = set_entity r saved w in
      (ok tt, set_entity r (record saved { binary = m.serialize (id_of known) saved }) known)

  abbrev next_id : Text → ℕ → ℕ → ℕ
  next_id pool entity_id id = if entity_id == 0 then (id + m.autoincrement pool) % 2 ^ 64 else id

  unfoldable pub inserted_rows : Text → ℕ → List (InsertRow m.Value) → Action m Unit
  unfolding mark_inserted update_cache_for_inserted
  inserted_rows pool id [] w = (ok tt, w)
  inserted_rows pool id (row ∷ rest) w =
      let own = (w.store row.entity).id in
      and_then (mark_inserted id row.entity w) (λ _ saved.
        and_then
          (update_cache_for_inserted m row.entity (if own == 0 then id else own) row.bind saved)
          (λ _. inserted_rows pool (next_id pool own id) rest))

  unfoldable pub execute_inserts : Map ℕ (InsertGroup m.Value) → Action m Unit
  unfolding exec_db inserted_rows
  execute_inserts [] w = (ok tt, w)
  execute_inserts ((t, group) ∷ rest) w =
      let schema = m.schema t in
      and_then (exec_db schema.mysql_pool_name (insert_sql schema.table_name group) w) (λ id sent.
        and_then (inserted_rows schema.mysql_pool_name id group.rows sent)
          (λ _. execute_inserts rest))
