-- ===== src/Db/Publication.antt =====
-- db.go: when the pending cache updates of the engine are published, and when they are dropped.
use beeorm.Prelude.{
  ◌≡◌, ◌≢◌, refl, ◌∙◌, Bool, true, false, some, List, [], ◌++◌, append-nil, Text, arith,
  if◌then◌else◌, ◌&&◌,
}
use beeorm.Db.{
  Db, Answer, done, failed, Engine, Publish, driver_error, db_at, begin, commit, rollback, set_db,
  local_publishes, redis_publishes,
}
use beeorm.Db.Transactions.{Call, call_begin, call_commit, call_rollback, after, db_at-set_db}

-- All that is pending for the caches.
abbrev pub pending : Engine → List Publish
pending e =
    local_publishes e.after_commit_local_cache_sets ++ redis_publishes e.after_commit_redis_flusher

abbrev pub succeeds : Answer → Bool
succeeds done = true
succeeds failed = false

-- The call commits an open transaction and the driver accepts it.
abbrev pub commits : Call → Engine → Bool
commits (call_commit p a) e = (db_at p e).tx && succeeds a
commits c e = false

-- The call rolls back, and no error stops it.
abbrev pub rolls_back : Call → Engine → Bool
rolls_back (call_rollback p a) e = if (db_at p e).tx then succeeds a else true
rolls_back c e = false

published-set_db : (p : Text) (db : Db) (e : Engine) → (set_db p db e).published ≡ e.published
unfolding set_db
published-set_db p db e = refl

local-set_db :
    (p : Text) (db : Db) (e : Engine)
    → (set_db p db e).after_commit_local_cache_sets ≡ e.after_commit_local_cache_sets
unfolding set_db
local-set_db p db e = refl

redis-set_db :
    (p : Text) (db : Db) (e : Engine)
    → (set_db p db e).after_commit_redis_flusher ≡ e.after_commit_redis_flusher
unfolding set_db
redis-set_db p db e = refl

ruleset set_db_laws = (arith, published-set_db, local-set_db, redis-set_db)

-- A call publishes the pending cache updates, each once and in order, exactly when it commits an
-- open transaction that the driver accepts; any other call publishes nothing.
pub published-after :
    (c : Call) (e : Engine)
    → (after c e).published ≡ e.published ++ (if commits c e then pending e else [])
unfolding after begin commit rollback
published-after (call_begin p a) e = grind (set_db_laws, append-nil e.published)
published-after (call_commit p a) e = grind (set_db_laws, append-nil e.published)
published-after (call_rollback p a) e = grind (set_db_laws, append-nil e.published)

-- A call drops all pending cache updates exactly when it commits or rolls back without an error; a
-- `Begin`, and a `Commit` or `Rollback` that fails, leave them as they are.
pub pending-after :
    (c : Call) (e : Engine)
    → pending (after c e) ≡ (if commits c e then [] else if rolls_back c e then [] else pending e)
unfolding after begin commit rollback local_publishes redis_publishes
pending-after (call_begin p a) e = grind set_db_laws
pending-after (call_commit p a) e = grind set_db_laws
pending-after (call_rollback p a) e = grind set_db_laws

module _ (p q : Text) (e : Engine) (opened : (db_at p e).tx ≡ true) where
  commit-done-published : (commit p done e).0.published ≡ e.published ++ pending e
  unfolding commit
  commit-done-published = grind set_db_laws

  commit-done-pending : pending (commit p done e).0 ≡ []
  unfolding commit local_publishes redis_publishes
  commit-done-pending = grind set_db_laws

  commit-done-other : p ≢ q → (db_at q (commit p done e).0).tx ≡ (db_at q e).tx
  unfolding commit
  commit-done-other ne = grind (arith, db_at-set_db)

module _ (q : Text) (e : Engine) (opened : (db_at q e).tx ≡ true) where
  commit-failed-error : (commit q failed e).1 ≡ some driver_error
  unfolding commit
  commit-failed-error = ground arith

  commit-failed-open : (db_at q (commit q failed e).0).tx ≡ true
  unfolding commit
  commit-failed-open = grind (arith, db_at-set_db)

  commit-failed-published : (commit q failed e).0.published ≡ e.published
  unfolding commit
  commit-failed-published = grind set_db_laws

  commit-failed-pending : pending (commit q failed e).0 ≡ pending e
  unfolding commit local_publishes redis_publishes
  commit-failed-pending = grind set_db_laws

-- The pending updates belong to the engine, not to a pool: when two pools hold transactions and the
-- first commits, the updates of both are published, and a failing commit of the second pool leaves
-- its transaction open with nothing pending that its rollback could drop.
pub commit_first_of_two :
    (p q : Text) (e : Engine)
    → p ≢ q
    → (db_at p e).tx ≡ true
    → (db_at q e).tx ≡ true
    → let first = (commit p done e).0 in
      let second = commit q failed first in
      (first.published ≡ e.published ++ pending e)
      × (second.1 ≡ some driver_error)
      × ((db_at q second.0).tx ≡ true)
      × (pending second.0 ≡ [])
      × (second.0.published ≡ e.published ++ pending e)
commit_first_of_two p q e ne hp hq =
    let first = (commit p done e).0 in
    let still = commit-done-other p q e hp ne ∙ hq in
    (
      commit-done-published p q e hp,
      commit-failed-error q first still,
      commit-failed-open q first still,
      commit-failed-pending q first still ∙ commit-done-pending p q e hp,
      commit-failed-published q first still ∙ commit-done-published p q e hp,
    )
