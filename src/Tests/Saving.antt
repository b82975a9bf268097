-- ===== src/Tests/Saving.antt =====
-- flusher.go at small inputs: the table of people.
use beeorm.Prelude.{
  ◌||◌, arith, ◌≡◌, refl, inl, ◌≤◌, ◌+◌, ℕ, true, false, some, [], ◌∷◌, ◌++◌, codes, format_uint,
  length, Result, ok, panic, duplicated_key, lookup, insert, join, text_discrete, eqb_text,
}
use beeorm.Db.{set_db, local_mset, local_remove}
use beeorm.Flusher.World.{World, and_then, for_each, id_of}
use beeorm.Flusher.Queries.{any_tracked}
use beeorm.Flusher.Held.{OnlyRemoves, finish-OnlyRemoves}
use beeorm.Flusher.Collect.{FlushPackage, collect}
use beeorm.Flusher.Saved.{AllSaved, flush_entities-AllSaved}
use beeorm.Flusher.Flush.{
  needs_transaction, finish, flush_entities, flush_tracked_entities, flush_with_check, is_reported,
}
use beeorm.Flusher.Tracked.{
  WellTracked, no_duplicates, call_delete, after_call, after_call-WellTracked,
}
use beeorm.Flusher.Rollback.{RollsBack}
use beeorm.Flusher.Recover.{IsClean, flush_with_check-IsClean}
use beeorm.Flusher.Single.{queries_in, finish-single}
use beeorm.Flusher.Cycle.{IsOwnParent, Fails, flush_entities-Fails}
use beeorm.Flusher.Caches.{update_cache_after_update}
use beeorm.Flusher.Waiting.{IsQueued}
use beeorm.Flusher.Stale.{key_of_row, row_before, row_after, update-IsRemoved}
use beeorm.Tests.People.{name_column, by_name, people_schema, people_with, world_of}

-- One new row: its id is that which MySQL gave, and the results of the query by its name go.
flush_new :
    let w = (flush_tracked_entities (people_with (ok 31)) 1 false (world_of (ok 31) (0 ∷ []))).1 in
    (w.history ≡ (codes "default", codes "INSERT INTO `people`(`Name`) VALUES (7)") ∷ [])
    × (id_of w 0 ≡ 31)
    × (w.engine.published
        ≡ local_remove (codes "default") ((codes "ByName" ++ 58 ∷ (7 ∷ [])) ∷ [])
          ∷ (local_mset (codes "default") ((codes "p:31", 31 ∷ (7 ∷ [])) ∷ []) ∷ []))
unfolding flush_tracked_entities and_then for_each lookup insert text_discrete join format_uint
flush_new = (refl, refl, refl)

-- A new row and an update are two statements, in a transaction; the update comes last.
flush_two :
    let w =
      (flush_tracked_entities (people_with (ok 31)) 1 false (world_of (ok 31) (0 ∷ (1 ∷ [])))).1 in
    w.history
    ≡ (codes "default", codes "INSERT INTO `people`(`Name`) VALUES (7)")
      ∷ ((codes "default", codes "UPDATE `people` SET `Name`=8 WHERE `ID` = 5") ∷ [])
unfolding flush_tracked_entities and_then for_each lookup insert text_discrete join format_uint
    eqb_text set_db
flush_two = refl

nothing_tracked : (answer : Result ℕ) → WellTracked {m = people_with answer} (world_of answer [])
unfolding no_duplicates
nothing_tracked answer = record { distinct = refl; counted = refl }

after_call-WellTracked_example :
    WellTracked {m = people_with (ok 31)}
      (after_call (call_delete (1 ∷ (2 ∷ (1 ∷ [])))) (world_of (ok 31) []))
after_call-WellTracked_example =
    after_call-WellTracked (people_with (ok 31)) (call_delete (1 ∷ (2 ∷ (1 ∷ []))))
      (world_of (ok 31) []) (nothing_tracked (ok 31))

rolls_back_people : RollsBack (people_with (panic duplicated_key))
rolls_back_people sent pool = refl

-- The server answers with the error of a duplicated key.
duplicated_error :
    (flush_with_check
      (people_with (panic duplicated_key))
      1
      false
      (world_of (panic duplicated_key) (0 ∷ (1 ∷ [])))).0
    ≡ ok (some duplicated_key)
unfolding flush_with_check and_then for_each lookup insert text_discrete join format_uint eqb_text
    set_db
duplicated_error = refl

flush_with_check-IsClean_example :
    (is_reported duplicated_key ≡ true)
    × IsClean
        (world_of (panic duplicated_key) (0 ∷ (1 ∷ [])))
        (flush_with_check
          (people_with (panic duplicated_key))
          1
          false
          (world_of (panic duplicated_key) (0 ∷ (1 ∷ [])))).1
flush_with_check-IsClean_example =
    flush_with_check-IsClean (people_with (panic duplicated_key)) 1
      (world_of (panic duplicated_key) (0 ∷ (1 ∷ []))) duplicated_key rolls_back_people
      duplicated_error

-- One query waits, and nothing else.
abbrev one_update : World (people_with (ok 31))
one_update = record (world_of (ok 31) (1 ∷ [])) {
  update_sqls = (codes "default", codes "UPDATE" ∷ []) ∷ [];
}

abbrev no_inserts : FlushPackage ℕ
no_inserts = record { inserts = []; references_to_flash = [] }

no_transaction : needs_transaction (people_with (ok 31)) false no_inserts one_update ≡ false
unfolding needs_transaction
no_transaction = refl

finish-single_example :
    (length (finish (people_with (ok 31)) true false no_inserts one_update).1.history ≤ 1)
    × (0 + queries_in one_update.update_sqls + 0 ≤ 1)
finish-single_example =
    finish-single (people_with (ok 31)) true no_inserts one_update no_transaction

own_parent : IsOwnParent {m = people_with (ok 31)} (world_of (ok 31) (2 ∷ [])) 2
own_parent = record { no_id = refl; own = refl }

flush_entities-Fails_example :
    Fails (flush_entities (people_with (ok 31)) 4 true false (2 ∷ []) (world_of (ok 31) (2 ∷ [])))
flush_entities-Fails_example =
    flush_entities-Fails (people_with (ok 31)) 4 true false 2 (world_of (ok 31) (2 ∷ [])) own_parent

name_changed : any_tracked {V = ℕ} false ((name_column, 8) ∷ []) by_name.tracked_fields ≡ true
unfolding any_tracked lookup text_discrete
name_changed = refl

-- The name of person 5 goes from 7 to 8: both keys of the query by name wait.
update-IsRemoved_example :
    let m = people_with (ok 31) in
    let key = key_of_row m people_schema (codes "ByName") by_name in
    let after =
      (update_cache_after_update m 1
        ((name_column, 8) ∷ [])
        ((name_column, 7) ∷ [])
        5
        (world_of (ok 31) (1 ∷ []))).1 in
    IsQueued people_schema (key (row_before m.nil_value ((name_column, 7) ∷ []))) after
    × IsQueued people_schema
        (key (row_after m.nil_value ((name_column, 8) ∷ []) ((name_column, 7) ∷ [])))
        after
update-IsRemoved_example =
    update-IsRemoved (people_with (ok 31)) 1 ((name_column, 8) ∷ []) ((name_column, 7) ∷ []) 5
      (world_of (ok 31) (1 ∷ [])) (codes "ByName") by_name (inl (refl, refl)) name_changed

all_saved : AllSaved (people_with (ok 31)) (3 ∷ (1 ∷ [])) (world_of (ok 31) (3 ∷ (1 ∷ [])))
all_saved = ((omega arith, tt), (tt, tt))

flush_entities-AllSaved_example :
    flush_entities
      (people_with (ok 31))
      3
      true
      false
      (3 ∷ (1 ∷ []))
      (world_of (ok 31) (3 ∷ (1 ∷ [])))
    ≡ and_then
        (collect
          (people_with (ok 31))
          false
          (3 ∷ (1 ∷ []))
          no_inserts
          (world_of (ok 31) (3 ∷ (1 ∷ []))))
        (λ collected. finish (people_with (ok 31)) true collected.0 collected.1)
flush_entities-AllSaved_example =
    flush_entities-AllSaved (people_with (ok 31)) 2 true false (3 ∷ (1 ∷ []))
      (world_of (ok 31) (3 ∷ (1 ∷ []))) all_saved

-- Two kinds of statements, so that the flush starts a transaction.
abbrev one_insert : FlushPackage ℕ
one_insert = record {
  inserts =
      (
        0,
        record {
          insert_keys = name_column ∷ [];
          rows =
              record {
                entity = 0;
                bind = (name_column, 7) ∷ [];
                sql_bind = (name_column, format_uint 7) ∷ [];
              }
              ∷ [];
        },
      )
      ∷ [];
  references_to_flash = [];
}

two_statements :
    (needs_transaction (people_with (ok 31)) false one_insert one_update || false) ≡ true
unfolding needs_transaction
two_statements = refl

finish-OnlyRemoves_example :
    OnlyRemoves {m = people_with (ok 31)} one_update
      (finish (people_with (ok 31)) true false one_insert one_update).1
finish-OnlyRemoves_example =
    finish-OnlyRemoves (people_with (ok 31)) true false one_insert one_update two_statements
