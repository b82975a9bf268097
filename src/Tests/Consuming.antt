-- ===== src/Tests/Consuming.antt =====
-- event_broker.go at small inputs.
use beeorm.Prelude.{
  ◌<◌, ok, ◌++◌, format_uint, ℕ, ◌+◌, ◌≡◌, ◌≢◌, refl, inl, inr, true, false, none, some, List, [],
  ◌∷◌, ◌⊎◌, ◌&&◌, not, map, if◌then◌else◌, Text, codes, text_discrete, insert, lookup, arith,
}
use beeorm.Locker.{Lock, locked, unlocked, obtain, release}
use beeorm.EventBroker.{
  Message, Row, Event, Action, act_ack, act_delete, EventsConsumer, ConsumeAttributes, events_of,
  digest_keys, digest, ack_event, delete_event, read_args, last_id,
}
use beeorm.EventBroker.Consume.{Round, default, returned, running, consume}
use beeorm.EventBroker.Acks.{acked, delivered, repeated, acked-digest_keys}
use beeorm.EventBroker.Ids.{max_int, increment_id, stream_id, increment_id_lem}
use beeorm.EventBroker.Phases.{IsPhase, digest_keys-IsPhase}
use beeorm.EventBroker.Loop.{Drains, consume_drained, consume-Released}

abbrev group_one : EventsConsumer
group_one = record {
  pool = codes "default";
  streams = codes "log" ∷ [];
  group = codes "g";
  block = false;
  block_time = 5;
  garbage_last_tick = 0;
}

abbrev at_first : ConsumeAttributes
at_first = record {
  pending = true;
  block_time = none;
  name = codes "consumer-1";
  count = 10;
  last_ids = (codes "log", codes "0") ∷ [];
}

abbrev message : Text → Message
message id = record { id = id; values = [] }

abbrev two_messages : List Row
two_messages = (codes "log", message (codes "1-0") ∷ message (codes "2-0") ∷ []) ∷ []

-- A handler that deletes the first event and acknowledges it once more, and leaves the second.
abbrev handler : List Event → List Action
handler evs = act_delete 0 ∷ act_ack 0 ∷ []

abbrev acked_first : ℕ
acked_first =
    acked (codes "log") (codes "1-0")
      (digest_keys group_one (λ args. two_messages) handler 100 at_first).calls

acked_first-two : acked_first ≡ 2
unfolding digest_keys acked text_discrete delete_event insert lookup
acked_first-two = refl

acked-digest_keys_example :
    acked
      (codes "log")
      (codes "1-0")
      (digest_keys group_one (λ args. two_messages) handler 100 at_first).calls
    ≡ delivered (codes "log") (codes "1-0") two_messages
      + repeated
          (codes "log")
          (codes "1-0")
          group_one.group
          (handler (events_of two_messages))
          (events_of two_messages)
acked-digest_keys_example =
    acked-digest_keys (codes "log") (codes "1-0") group_one (λ args. two_messages) handler 100
      at_first two_messages refl (omega arith)

at_first-IsPhase : IsPhase group_one at_first
unfolding IsPhase
at_first-IsPhase = refl

-- A read that finds no pending messages: the next one asks for the new messages and blocks.
digest_keys-IsPhase_example :
    let d = digest_keys group_one (λ args. []) handler 100 at_first in
    let next = read_args d.consumer d.attributes in
    let still = at_first.pending && not true in
    IsPhase d.consumer d.attributes
    × (d.attributes.pending ≡ still)
    × (d.finished ≡ (not at_first.pending && true))
    × (next.streams
        ≡ group_one.streams
          ++ map
              (λ stream. if still then last_id d.attributes.last_ids stream else codes ">")
              group_one.streams)
    × (next.block
        ≡ (if still then none else if group_one.block then some group_one.block_time else none))
digest_keys-IsPhase_example =
    digest_keys-IsPhase group_one (λ args. []) handler 100 at_first at_first-IsPhase

abbrev read_once : List Round
read_once =
    default (λ args. two_messages) handler 100
    ∷ default (λ args. []) handler 101
    ∷ default (λ args. []) handler 102
    ∷ []

read_once-Drains : Drains 2 read_once
unfolding Drains
read_once-Drains = inl (inr (λ args. refl, inr (λ args. refl, tt)))

consume_drained_example :
    (consume (λ plan. locked) unlocked 100 read_once (codes "consumer-1") 10 group_one).outcome
    ≢ running
consume_drained_example =
    consume_drained (λ plan. locked) unlocked 100 read_once (codes "consumer-1") 10 group_one refl
      read_once-Drains

read_once_returned :
    (consume (λ plan. locked) unlocked 100 read_once (codes "consumer-1") 10 group_one).outcome
    ≡ returned true
unfolding consume text_discrete obtain digest ack_event delete_event release
read_once_returned = refl

consume-Released_example :
    let c = consume (λ plan. locked) unlocked 100 read_once (codes "consumer-1") 10 group_one in
    ((c.lock ≡ none) × (c.calls ≡ [])) ⊎ ((l : Lock) × (c.lock ≡ some l) × (l.has ≡ false))
consume-Released_example =
    consume-Released (λ plan. locked) unlocked 100 read_once (codes "consumer-1") 10 group_one
      consume_drained_example

increment_id_example :
    (5 < max_int
      → increment_id (stream_id 1_700_000_000_000 5) ≡ ok (stream_id 1_700_000_000_000 (5 + 1)))
    × (5 ≡ max_int
        → increment_id (stream_id 1_700_000_000_000 5)
          ≡ ok (format_uint 1_700_000_000_000 ++ (codes "--" ++ format_uint (max_int + 1))))
increment_id_example = increment_id_lem 1_700_000_000_000 5 (omega arith)
