-- ===== src/Db/Transactions.antt =====
-- db.go: a pool's flag `inTransaction` and its client's `tx` agree.
use beeorm.Prelude.{◌≡◌, List, [], ◌∷◌, Text, lookup-insert, text_discrete, arith, lookup, ite}
use beeorm.Db.{Db, Answer, Engine, db_at, begin, commit, rollback, set_db, or_fresh}

-- The operations on transactions, each with the driver's answer.
pub data Call : Type 0 where
  call_begin call_commit call_rollback : Text → Answer → Call

-- One call; a panic that the caller recovers leaves the engine as the call left it.
unfoldable pub after : Call → Engine → Engine
after (call_begin code a) e = (begin code a e).0
after (call_commit code a) e = (commit code a e).0
after (call_rollback code a) e = (rollback code a e).0

unfoldable pub after_all : List Call → Engine → Engine
after_all [] e = e
after_all (c ∷ cs) e = after_all cs (after c e)

abbrev pub FlagsAgree : Engine → Type 0
FlagsAgree e = (code : Text) → (db_at code e).in_transaction ≡ (db_at code e).tx

pub db_at-set_db :
    (code p : Text) (db : Db) (e : Engine)
    → or_fresh (lookup text_discrete code (set_db p db e).dbs)
      ≡ ite (text_discrete p code) db (db_at code e)
unfolding set_db
db_at-set_db code p db e = ground (arith, lookup-insert text_discrete p code db e.dbs)

module _ (p : Text) (a : Answer) (e : Engine) (h : FlagsAgree e) where
  begin-FlagsAgree : FlagsAgree (begin p a e).0
  unfolding begin
  begin-FlagsAgree code = grind (arith, h code, h p, db_at-set_db)

  commit-FlagsAgree : FlagsAgree (commit p a e).0
  unfolding commit
  commit-FlagsAgree code = grind (arith, h code, h p, db_at-set_db)

  rollback-FlagsAgree : FlagsAgree (rollback p a e).0
  unfolding rollback
  rollback-FlagsAgree code = grind (arith, h code, h p, db_at-set_db)

after-FlagsAgree : (c : Call) (e : Engine) → FlagsAgree e → FlagsAgree (after c e)
unfolding after
after-FlagsAgree (call_begin p a) e h = begin-FlagsAgree p a e h
after-FlagsAgree (call_commit p a) e h = commit-FlagsAgree p a e h
after-FlagsAgree (call_rollback p a) e h = rollback-FlagsAgree p a e h

-- Whatever the driver answers, also with errors whose panics are recovered, in every pool the flag
-- `inTransaction` of `DB` says whether its client holds a transaction, if it did so at the start.
pub after_all-FlagsAgree :
    (cs : List Call) (e : Engine) → FlagsAgree e → FlagsAgree (after_all cs e)
unfolding after_all
after_all-FlagsAgree [] e h = h
after_all-FlagsAgree (c ∷ cs) e h = after_all-FlagsAgree cs (after c e) (after-FlagsAgree c e h)
