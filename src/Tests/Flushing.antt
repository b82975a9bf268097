-- ===== src/Tests/Flushing.antt =====
-- uuid.go, redis_flusher.go and db.go at small inputs.
use mathlib.Core.List.{Perm}
use beeorm.Prelude.{
  ◌+◌, ◌*◌, ◌/◌, ◌%◌, ◌^◌, ◌≡◌, ◌≢◌, refl, inl, true, none, some, List, [], ◌∷◌, ◌++◌, Map, lookup,
  insert, All, Text, codes, text_discrete, ok, panic, nil_map, ◌>>=◌, if◌then◌else◌, leb, length,
  arith,
}
use beeorm.Uuid.{UuidState, uuid, uuids}
use beeorm.Uuid.Layout.{HasRoom, uuid_layout}
use beeorm.Uuid.Generate.{Increasing, uuids-Increasing, uuids_disjoint}
use beeorm.RedisFlusher.{Pipelines, del, set, publish, hset, del_into, publish_into, flush}
use beeorm.RedisFlusher.Wire.{wire, recorded_all, writes_all, events_all, wire-flush, flush-perm}
use beeorm.RedisFlusher.Order.{flush-EventsLast}
use beeorm.RedisFlusher.Record.{
  call_del, call_publish, Call, call, calls, deletes_at, events_at, deletes-calls, set_after_other,
}
use beeorm.RedisFlusher.Events.{events-calls}
use beeorm.RedisFlusher.Wire.{EventsLast}
use beeorm.Db.{Engine, done, failed, driver_error, db_at, commit}
use beeorm.Db.Transactions.{
  call_commit, call_rollback, after, after_all, FlagsAgree, after_all-FlagsAgree,
}
use beeorm.Db.Publication.{pending, published-after, pending-after, commit_first_of_two}

abbrev server_one : UuidState
server_one = record { code_start_time = 1_700_000_000; uuid_server_id = 1; uuid_counter = 0 }

abbrev server_two : UuidState
server_two = record server_one { uuid_server_id = 2; uuid_counter = 7 }

has_room : HasRoom 3 server_one
has_room = omega arith

first_id : (uuid server_one).0 ≡ 1 * 2 ^ 56 + 1_700_000_000 * 2 ^ 24 + 1
unfolding uuid
first_id = refl

uuid_layout_example :
    ((uuid server_one).0 / 2 ^ 56 ≡ 1)
    × ((uuid server_one).0 / 2 ^ 24 % 2 ^ 32 ≡ 1_700_000_000)
    × ((uuid server_one).0 % 2 ^ 24 ≡ 1)
uuid_layout_example = uuid_layout server_one (omega arith)

uuids-Increasing_example : Increasing (uuids 3 server_one)
uuids-Increasing_example = uuids-Increasing 3 server_one has_room

uuids_disjoint_example : All (λ i. All (λ j. i ≢ j) (uuids 2 server_two)) (uuids 3 server_one)
uuids_disjoint_example =
    uuids_disjoint 3 2 server_one server_two has_room (omega arith) (inl (omega arith))

abbrev streams : Map Text Text
streams = (codes "log", codes "main") ∷ []

-- Two deletes with an event between them, in two pools.
abbrev script : List Call
script =
    call_del (codes "main") (codes "k1" ∷ [])
    ∷ call_publish (codes "log") (codes "e1" ∷ [])
    ∷ call_del (codes "other") (codes "k2" ∷ [])
    ∷ call_del (codes "main") (codes "k3" ∷ [])
    ∷ []

abbrev two_pools : Pipelines
two_pools =
    hset (codes "main") (codes "h") (codes "f" ∷ codes "v" ∷ [])
      (del (codes "other") (codes "k2" ∷ []) (del (codes "main") (codes "k1" ∷ codes "k3" ∷ []) []))

abbrev recorded_two : Pipelines
recorded_two = elim (calls streams script []) [ ok f ↦ f | panic p ↦ [] ]

script_runs : calls streams script [] ≡ ok recorded_two
unfolding calls call del publish del_into publish_into lookup insert text_discrete
script_runs = refl

wire-flush_example : wire (flush recorded_two).0 ≡ (
    if leb (length recorded_two) 1
    then recorded_all recorded_two
    else writes_all recorded_two ++ events_all recorded_two)
wire-flush_example = wire-flush recorded_two

flush-perm_example :
    Perm (wire (flush recorded_two).0) (recorded_all recorded_two) × ((flush recorded_two).1 ≡ [])
flush-perm_example = flush-perm recorded_two

flush-EventsLast_example : EventsLast (wire (flush recorded_two).0)
unfolding calls call del publish del_into publish_into lookup insert text_discrete
flush-EventsLast_example = flush-EventsLast recorded_two (omega arith)

deletes-calls_example : deletes_at (codes "main") recorded_two ≡ codes "k1" ∷ codes "k3" ∷ []
unfolding lookup text_discrete
deletes-calls_example = deletes-calls streams (codes "main") script [] recorded_two script_runs

events-calls_example : events_at (codes "main") (codes "log") recorded_two ≡ (codes "e1" ∷ []) ∷ []
unfolding lookup text_discrete
events-calls_example =
    events-calls streams (codes "main") (codes "log") script [] recorded_two script_runs

set_after_other_example :
    (set (codes "main") (codes "k") (codes "v") (del (codes "main") (codes "a" ∷ []) [])
      ≡ panic nil_map)
    × ((publish streams (codes "log") (codes "e" ∷ []) []
          >>= set (codes "main") (codes "k") (codes "v"))
        ≡ panic nil_map)
    × (set
          (codes "main")
          (codes "k")
          (codes "v")
          (hset (codes "main") (codes "a") (codes "b" ∷ []) [])
        ≡ panic nil_map)
    × ((g : Pipelines) × (set (codes "main") (codes "k") (codes "v") [] ≡ ok g))
unfolding lookup text_discrete
set_after_other_example =
    set_after_other streams (codes "main") (codes "k") (codes "v") (codes "log") (codes "e" ∷ [])
      (codes "a") [] (codes "b" ∷ []) [] refl refl

-- Two pools of one engine, both in a transaction, with a cache update pending.
abbrev in_two : Engine
in_two = record {
  dbs =
      (codes "a", record { tx = true; in_transaction = true })
      ∷ (codes "b", record { tx = true; in_transaction = true })
      ∷ [];
  after_commit_local_cache_sets = some ((codes "default", (codes "k", codes "v") ∷ []) ∷ []);
  after_commit_redis_flusher = none;
  published = [];
}

in_two-FlagsAgree : FlagsAgree in_two
unfolding lookup
in_two-FlagsAgree code = ground arith

after_all-FlagsAgree_example :
    FlagsAgree
      (after_all (call_commit (codes "a") done ∷ call_commit (codes "b") failed ∷ []) in_two)
after_all-FlagsAgree_example =
    after_all-FlagsAgree (call_commit (codes "a") done ∷ call_commit (codes "b") failed ∷ []) in_two
      in_two-FlagsAgree

published-after_example : (after (call_commit (codes "a") done) in_two).published ≡ pending in_two
unfolding lookup text_discrete
published-after_example = published-after (call_commit (codes "a") done) in_two

pending-after_example : pending (after (call_rollback (codes "b") done) in_two) ≡ []
unfolding lookup text_discrete
pending-after_example = pending-after (call_rollback (codes "b") done) in_two

commit_first_of_two_example :
    let first = (commit (codes "a") done in_two).0 in
    let second = commit (codes "b") failed first in
    (first.published ≡ pending in_two)
    × (second.1 ≡ some driver_error)
    × ((db_at (codes "b") second.0).tx ≡ true)
    × (pending second.0 ≡ [])
    × (second.0.published ≡ pending in_two)
unfolding lookup text_discrete
commit_first_of_two_example =
    commit_first_of_two (codes "a") (codes "b") in_two (ground arith) refl refl
