-- ===== src/Db.antt =====
-- db.go: the transaction of each MySQL pool, and the cache updates of the engine that wait for a
-- commit.
pub mod Transactions
pub mod Publication
use beeorm.Prelude.{
  Bool, true, false, Option, none, some, List, [], ◌∷◌, ◌++◌, Map, lookup, insert, Text,
  text_discrete, if◌then◌else◌,
}
use beeorm.RedisFlusher.{Pipelines, Request, flush}

-- What `database/sql` answers: the call went through, or it returned an error.
pub data Answer : Type 0 where
  done failed : Answer

pub data SqlError : Type 0 where
  already_started not_started driver_error : SqlError

-- `standardSQLClient`: `tx` is whether the field of that name is not nil. A method returns the new
-- `tx` and its error, `none` for nil.
unfoldable pub client_begin : Bool → Answer → Bool × Option SqlError
client_begin true answer = (true, some already_started)
client_begin false failed = (false, some driver_error)
client_begin false done = (true, none)

unfoldable pub client_commit : Bool → Answer → Bool × Option SqlError
client_commit false answer = (false, some not_started)
client_commit true failed = (true, some driver_error)
client_commit true done = (false, none)

-- The first result of `Rollback` is used for logging only.
unfoldable pub client_rollback : Bool → Answer → Bool × (Bool × Option SqlError)
client_rollback false answer = (false, (false, none))
client_rollback true failed = (true, (true, some driver_error))
client_rollback true done = (false, (true, none))

pub record Db : Type 0 where
  pub tx : Bool
  pub in_transaction : Bool

-- A key of a local cache and its value; the empty value is `cacheNilValue`.
abbrev pub Pair : Type 0
Pair = Text × Text

-- What is published to the caches, in order: an `MSet` or a `Remove` of a local cache, or a request
-- to Redis.
pub data Publish : Type 0 where
  local_mset : Text → List Pair → Publish
  local_remove : Text → List Text → Publish
  to_redis : Request → Publish

-- The part of `engineImplementation` that transactions use, and the trace of what is published.
pub record Engine : Type 0 where
  pub dbs : Map Text Db
  pub after_commit_local_cache_sets : Option (Map Text (List Pair))
  pub after_commit_redis_flusher : Option Pipelines
  pub published : List Publish

-- `GetMysql` of a registered pool: a new `DB` has no transaction.
abbrev pub or_fresh : Option Db → Db
or_fresh none = record { tx = false; in_transaction = false }
or_fresh (some db) = db

abbrev pub db_at : Text → Engine → Db
db_at code e = or_fresh (lookup text_discrete code e.dbs)

unfoldable pub set_db : Text → Db → Engine → Engine
set_db code db e = record e { dbs = insert text_discrete code db e.dbs }

-- A method of `DB`: the engine afterwards, and the error with which `checkError` panics.
abbrev pub Outcome : Type 0
Outcome = Engine × Option SqlError

begin_after : Text → Engine → Bool × Option SqlError → Outcome
begin_after code e (tx, some err) = (set_db code (record (db_at code e) { tx = tx }) e, some err)
begin_after code e (tx, none) = (set_db code (record { tx = tx; in_transaction = true }) e, none)

unfoldable pub begin : Text → Answer → Engine → Outcome
unfolding client_begin begin_after
begin code answer e = begin_after code e (client_begin (db_at code e).tx answer)

pub msets : Map Text (List Pair) → List Publish
msets [] = []
msets ((code, pairs) ∷ m) = local_mset code pairs ∷ msets m

pub requests : List Request → List Publish
requests [] = []
requests (r ∷ rs) = to_redis r ∷ requests rs

-- What `Commit` publishes after the transaction is over.
pub local_publishes : Option (Map Text (List Pair)) → List Publish
local_publishes none = []
local_publishes (some m) = msets m

pub redis_publishes : Option Pipelines → List Publish
redis_publishes none = []
redis_publishes (some f) = requests (flush f).0

-- A panic of Redis in `Flush`, which leaves the engine's Redis flusher pending, is not modelled.
commit_after : Text → Engine → Bool × Option SqlError → Outcome
commit_after code e (tx, some err) = (set_db code (record (db_at code e) { tx = tx }) e, some err)
commit_after code e (tx, none) =
    let closed = set_db code (record { tx = tx; in_transaction = false }) e in
    (
      record closed {
        after_commit_local_cache_sets = none;
        after_commit_redis_flusher = none;
        published =
            e.published
            ++ (local_publishes e.after_commit_local_cache_sets
                ++ redis_publishes e.after_commit_redis_flusher);
      },
      none,
    )

unfoldable pub commit : Text → Answer → Engine → Outcome
unfolding client_commit commit_after
commit code answer e = commit_after code e (client_commit (db_at code e).tx answer)

rollback_after : Text → Engine → Bool × (Bool × Option SqlError) → Outcome
rollback_after code e (tx, (has, some err)) =
    (set_db code (record (db_at code e) { tx = tx }) e, some err)
rollback_after code e (tx, (has, none)) =
    let closed = set_db code (record { tx = tx; in_transaction = false }) e in
    (
      record closed { after_commit_local_cache_sets = none; after_commit_redis_flusher = none },
      none,
    )

unfoldable pub rollback : Text → Answer → Engine → Outcome
unfolding client_rollback rollback_after
rollback code answer e = rollback_after code e (client_rollback (db_at code e).tx answer)
