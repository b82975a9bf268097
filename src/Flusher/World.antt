-- ===== src/Flusher/World.antt =====
-- flusher.go: what a flush reads and writes, and the calls of the other parts that it makes. The
-- entities are objects behind pointers; two pointers may be to one entity.
use beeorm.Prelude.{
  ℕ, Bool, false, Option, none, some, List, [], ◌∷◌, ◌++◌, Map, Text, Result, ok, panic, Panic,
  transaction_started, transaction_missing, sql_error, if◌then◌else◌, ◌==◌,
}
use beeorm.Uuid.{UuidState}
use beeorm.LoadById.{Config}
use beeorm.RedisFlusher.{Pipelines, Event}
use beeorm.Db.{
  Engine, Pair, Answer, SqlError, already_started, not_started, driver_error, begin, commit,
  rollback,
}

-- A pointer to an entity.
abbrev pub Ref : Type 0
Ref = ℕ

pub record CachedQueryDefinition : Type 0 where
  pub tracked_fields : List Text
  pub query_fields : List Text

-- The parts of `tableSchema` that a flush uses. `local_cache` and `redis_cache` are the pools of
-- the caches, `config` what the cache key of a row is made of.
pub record Schema : Type 0 where
  pub table_name : Text
  pub mysql_pool_name : Text
  pub local_cache : Option Text
  pub redis_cache : Option Text
  pub config : Config
  pub has_uuid : Bool
  pub has_fake_delete : Bool
  pub has_log : Bool
  pub skip_logs : List Text
  pub cached_indexes_all : Map Text CachedQueryDefinition

-- An `ORM` with its entity. `table` stands for `reflect.Type`; a nil reference is `none`; `Content`
-- is the rest of the entity's fields and the columns read from the table.
pub record Entity (Content Value : Type 0) : Type 0 where
  pub table : ℕ
  pub id : ℕ
  pub in_db : Bool
  pub loaded : Bool
  pub delete : Bool
  pub fake_delete : Bool
  pub ref_one : List (Option Ref)
  pub ref_many : List (List Ref)
  pub log_meta : Option (Map Text Value)
  pub content : Content
  pub binary : Text

-- The result of `buildDirtyBind`; `filled` is the entity's content afterwards, in which the mark of
-- a deleted row may be set.
pub record DirtyBind (Content Value : Type 0) : Type 0 where
  pub bind : Map Text Value
  pub sql_bind : Map Text Text
  pub current : Map Text Value
  pub is_dirty : Bool
  pub filled : Content

-- The statements sent so far, each with its pool.
abbrev pub History : Type 0
History = List (Text × Text)

-- What stands behind a flush: the schemas of the registry, the bind builder and the serializer, the
-- MySQL servers, and the writing of values in keys and events.
pub record Model : Type 1 where
  pub Content : Type 0
  pub Value : Type 0
  pub nil_value : Value
  pub uint_value : ℕ → Value
  pub schema : ℕ → Schema
  pub autoincrement : Text → ℕ
  -- the first argument is `GetID` of the entities referred to
  pub build_dirty_bind : (Ref → ℕ) → Entity Content Value → DirtyBind Content Value
  pub serialize : (Ref → ℕ) → Entity Content Value → Text
  -- the last insert id, or the error with which `Exec` or `Query` panics
  pub exec : History → Text → Text → Result ℕ
  pub begins : History → Text → Answer
  pub commits : History → Text → Answer
  pub rolls_back : History → Text → Answer
  pub get_cache_key_search : Schema → Text → List Value → Text
  -- `LogQueueValue` as an event: the schema, the id, `Before`, `Changes` and `Meta`
  pub log_event :
      Schema
      → ℕ
      → Option (Map Text Value)
      → Option (Map Text Value)
      → Option (Map Text Value)
      → Event
  pub redis_stream_pools : Map Text Text
  pub log_meta_data : Option (Map Text Value)
  pub has_request_cache : Bool

-- The flusher, and what it reaches. A nil map is the empty one. `redis_flusher` is the flusher's
-- own field; `shared` says that `afterCommitRedisFlusher` of the engine is the same object, and the
-- two are then written together.
pub record World (m : Model) : Type 0 where
  pub store : Ref → Entity m.Content m.Value
  pub uuid_state : UuidState
  pub tracked_entities : List Ref
  pub tracked_entities_counter : ℕ
  pub redis_flusher : Option Pipelines
  pub shared : Bool
  pub update_sqls : Map Text (List Text)
  pub delete_binds : Map ℕ (Map ℕ Ref)
  pub local_cache_deletes : Map Text (List Text)
  pub local_cache_sets : Map Text (List Pair)
  pub engine : Engine
  pub history : History

-- A call: it may panic, and what was written before a panic stays written.
abbrev pub Action : Model → Type 0 → Type 0
Action m A = World m → Result A × World m

module _ {m : Model} where
  abbrev pub pure : {A : Type 0} → A → Action m A
  pure a w = (ok a, w)

  abbrev pub raise : {A : Type 0} → Panic → Action m A
  raise p w = (panic p, w)

  unfoldable pub and_then :
      {A B : Type 0} → Result A × World m → (A → Action m B) → Result B × World m
  and_then (panic p, w) next = (panic p, w)
  and_then (ok a, w) next = next a w

  infixl 5 ◌>>=◌
  abbrev pub ◌>>=◌ : {A B : Type 0} → Action m A → (A → Action m B) → Action m B
  (call >>= next) w = and_then (call w) next

  abbrev pub modify : (World m → World m) → Action m Unit
  modify f w = (ok tt, f w)

  abbrev pub gets : {A : Type 0} → (World m → A) → Action m A
  gets f w = (ok (f w), w)

  -- A loop over a slice.
  unfoldable pub for_each : {A : Type 0} → List A → (A → Action m Unit) → Action m Unit
  for_each [] body w = (ok tt, w)
  for_each (x ∷ xs) body w = and_then (body x w) (λ _. for_each xs body)

  unfoldable pub set_entity : Ref → Entity m.Content m.Value → World m → World m
  set_entity r e w = record w { store = λ s. if s == r then e else w.store s }

  abbrev pub id_of : World m → Ref → ℕ
  id_of w r = (w.store r).id

-- `checkError` on the error of a transaction.
abbrev pub as_panic : SqlError → Panic
as_panic already_started = transaction_started
as_panic not_started = transaction_missing
as_panic driver_error = sql_error

settle : Option SqlError → Result {0} Unit
settle none = ok tt
settle (some err) = panic (as_panic err)

emptied : Bool → Option Pipelines → Option Pipelines
emptied shared f = if shared then some [] else f

module _ {m : Model} where
  -- `db.Begin()`
  unfoldable pub begin_db : Text → Action m Unit
  unfolding settle begin
  begin_db pool w =
      let after = begin pool (m.begins w.history pool) w.engine in
      (settle after.1, record w { engine = after.0 })

  -- `db.Commit()`; a commit that succeeds sends what the shared Redis flusher holds and empties it.
  unfoldable pub commit_db : Text → Action m Unit
  unfolding settle commit emptied
  commit_db pool w =
      let after = commit pool (m.commits w.history pool) w.engine in
      elim after.1 [
        | none ↦ (
          ok tt,
          record w {
            engine = after.0;
            redis_flusher = emptied w.shared w.redis_flusher;
            shared = false;
          },
        )
        | some err ↦ (panic (as_panic err), record w { engine = after.0 })
      ]

  -- `db.Rollback()`; the flusher's own Redis flusher keeps what it holds.
  unfoldable pub rollback_db : Text → Action m Unit
  unfolding rollback
  rollback_db pool w =
      let after = rollback pool (m.rolls_back w.history pool) w.engine in
      elim after.1 [
        | none ↦ (ok tt, record w { engine = after.0; shared = false })
        | some err ↦ (panic (as_panic err), record w { engine = after.0 })
      ]

  -- `db.Exec(sql)` and `db.Query(sql)`
  unfoldable pub exec_db : Text → Text → Action m ℕ
  exec_db pool sql w =
      (m.exec w.history pool sql, record w { history = w.history ++ (pool, sql) ∷ [] })
