-- ===== src/EventBroker.antt =====
-- event_broker.go: events of Redis streams, and the consumer that reads, handles and acknowledges them.
pub mod Consume
pub mod Acks
pub mod Phases
pub mod Ids
pub mod Loop
use beeorm.Prelude.{
  ℕ, ◌+◌, Bool, true, false, ◌&&◌, not, Option, none, some, List, [], ◌∷◌, ◌++◌, map, length,
  get_elem?, set, leb, ◌==◌, if◌then◌else◌, Map, lookup, insert, Text, codes, text_discrete,
  format_uint,
}
use beeorm.RedisFlusher.{append_to}

-- `redis.XMessage`, and a row of the result of `XReadGroup`.
pub record Message : Type 0 where
  pub id : Text
  pub values : Map Text Text

abbrev pub Row : Type 0
Row = Text × List Message

-- `event`
pub record Event : Type 0 where
  pub stream : Text
  pub message : Message
  pub ack : Bool
  pub deleted : Bool

unfoldable pub tag : Text → Event → Text
tag key ev = elim (lookup text_discrete key ev.message.values) [ none ↦ [] | some val ↦ val ]

-- The body of an event after `msgpack.Marshal`, under the key "s" in front of the tags.
unfoldable pub create_event_slice : Option Text → List Text → List Text
create_event_slice none meta = meta
create_event_slice (some body) meta = codes "s" ∷ body ∷ meta

-- `redis.XReadGroupArgs`; `none` is the block time -1.
pub record ReadArgs : Type 0 where
  pub consumer : Text
  pub group : Text
  pub streams : List Text
  pub count : ℕ
  pub block : Option ℕ

-- The calls of Redis, and the event that `garbage` publishes.
pub data StreamCall : Type 0 where
  x_group_create : Text → Text → StreamCall
  x_read_group : ReadArgs → StreamCall
  x_ack : Text → Text → List Text → StreamCall
  x_del : Text → Text → StreamCall
  garbage_event : Text → Text → StreamCall

-- `eventsConsumer`; `pool` is the code of its Redis pool, times are in seconds.
pub record EventsConsumer : Type 0 where
  pub pool : Text
  pub streams : List Text
  pub group : Text
  pub block : Bool
  pub block_time : ℕ
  pub garbage_last_tick : ℕ

-- `consumeAttributes`; the handler is an argument of `digest_keys`.
pub record ConsumeAttributes : Type 0 where
  pub pending : Bool
  pub block_time : Option ℕ
  pub name : Text
  pub count : ℕ
  pub last_ids : Map Text Text

unfoldable pub get_name : ℕ → Text
get_name nr = codes "consumer-" ++ format_uint nr

-- `Ack` and `delete`: the event afterwards and the calls.
unfoldable pub ack_event : Text → Event → Event × List StreamCall
ack_event group ev = (record ev { ack = true }, x_ack ev.stream group (ev.message.id ∷ []) ∷ [])

unfoldable pub delete_event : Text → Event → Event × List StreamCall
unfolding ack_event
delete_event group ev =
    let (acked, calls) = ack_event group ev in
    (record acked { deleted = true }, calls ++ x_del ev.stream ev.message.id ∷ [])

-- What a handler does with the events that it is given, by their positions.
pub data Action : Type 0 where
  act_ack : ℕ → Action
  act_delete : ℕ → Action

abbrev target : Action → ℕ
target (act_ack i) = i
target (act_delete i) = i

abbrev act_on : Text → Action → Event → Event × List StreamCall
act_on group (act_ack i) ev = ack_event group ev
act_on group (act_delete i) ev = delete_event group ev

unfoldable act : Text → Action → List Event → List Event × List StreamCall
act group a evs = elim (get_elem? evs (target a)) [
  | none ↦ (evs, [])
  | some ev ↦ (set evs (target a) (act_on group a ev).0, (act_on group a ev).1)
]

unfoldable pub act_all : Text → List Action → List Event → List Event × List StreamCall
unfolding act
act_all group [] evs = (evs, [])
act_all group (a ∷ rest) evs =
    let (next, calls) = act group a evs in
    let (last, more) = act_all group rest next in (last, calls ++ more)

unfoldable pub garbage : ℕ → EventsConsumer → EventsConsumer × List StreamCall
garbage now r =
    if leb (r.garbage_last_tick + 10) now
    then (record r { garbage_last_tick = now }, garbage_event r.group r.pool ∷ [])
    else (r, [])

-- `attributes.LastIDs[stream]`, the zero value where it is missing.
unfoldable pub last_id : Map Text Text → Text → Text
last_id ids stream = elim (lookup text_discrete stream ids) [ none ↦ [] | some id ↦ id ]

unfoldable pub read_args : EventsConsumer → ConsumeAttributes → ReadArgs
unfolding last_id
read_args r a = record {
  consumer = a.name;
  group = r.group;
  streams =
      r.streams
      ++ map (λ stream. if a.pending then last_id a.last_ids stream else codes ">") r.streams;
  count = a.count;
  block = a.block_time;
}

abbrev last_message : List Message → Option Message
last_message [] = none
last_message (x ∷ []) = some x
last_message (x ∷ y ∷ xs) = last_message (y ∷ xs)

unfoldable pub next_ids : List Row → Map Text Text → Map Text Text
next_ids [] ids = ids
next_ids ((stream, messages) ∷ rows) ids =
    next_ids rows
      (elim (last_message messages) [ none ↦ ids | some m ↦ insert text_discrete stream m.id ids ])

abbrev pub total_messages : List Row → ℕ
total_messages [] = 0
total_messages ((stream, messages) ∷ rows) = length messages + total_messages rows

abbrev new_event : Text → Message → Event
new_event stream m = record { stream = stream; message = m; ack = false; deleted = false }

abbrev pub events_of : List Row → List Event
events_of [] = []
events_of ((stream, messages) ∷ rows) = map (new_event stream) messages ++ events_of rows

-- The events that the handler left, by stream.
unfoldable pub to_ack : List Event → Map Text (List Text) → Map Text (List Text)
to_ack [] m = m
to_ack (ev ∷ evs) m = to_ack evs (
    if ev.ack
    then m
    else insert text_discrete ev.stream
        (append_to (lookup text_discrete ev.stream m) (ev.message.id ∷ [])) m)

unfoldable pub all_deleted : List Event → Bool
all_deleted [] = true
all_deleted (ev ∷ evs) = ev.ack && ev.deleted && all_deleted evs

-- What a call of `digestKeys` returns and leaves, with its calls of Redis in order.
pub record Digest : Type 0 where
  pub finished : Bool
  pub consumer : EventsConsumer
  pub attributes : ConsumeAttributes
  pub calls : List StreamCall

-- `totalMessages == 0`
unfoldable pub no_messages : EventsConsumer → ConsumeAttributes → List StreamCall → Digest
no_messages r a calls =
    if a.pending
    then record {
      finished = false;
      consumer = r;
      attributes = record a {
        pending = false;
        block_time = if r.block then some r.block_time else a.block_time;
      };
      calls = calls;
    }
    else record { finished = true; consumer = r; attributes = a; calls = calls }

-- The handler and the acknowledgements after it.
unfoldable pub handle :
    EventsConsumer → (List Event → List Action) → ℕ → List Row → EventsConsumer × List StreamCall
unfolding act_all garbage to_ack all_deleted
handle r handler now rows =
    let (evs, acted) = act_all r.group (handler (events_of rows)) (events_of rows) in
    let (left, collected) = if all_deleted evs then (r, []) else garbage now r in
    let acks = map (λ e. x_ack e.0 r.group e.1) (to_ack evs []) in
    (left, acted ++ (collected ++ acks))

unfoldable pub seen : List Row → ConsumeAttributes → ConsumeAttributes
unfolding next_ids
seen rows a = if a.pending then record a { last_ids = next_ids rows a.last_ids } else a

-- `read` is the answer of `XReadGroup`, `now` the time at which `garbage` is called.
unfoldable pub digest_keys :
    EventsConsumer
    → (ReadArgs → List Row)
    → (List Event → List Action)
    → ℕ
    → ConsumeAttributes
    → Digest
unfolding read_args seen no_messages handle
digest_keys r read handler now a =
    let args = read_args r a in
    let rows = read args in
    if total_messages rows == 0
    then no_messages r (seen rows a) (x_read_group args ∷ [])
    else (let (left, calls) = handle r handler now rows in
        record {
          finished = false;
          consumer = left;
          attributes = seen rows a;
          calls = x_read_group args ∷ calls;
        })

unfoldable pub digest :
    EventsConsumer
    → (ReadArgs → List Row)
    → (List Event → List Action)
    → ℕ
    → ConsumeAttributes
    → Bool × Digest
unfolding digest_keys
digest r read handler now a =
    let d = digest_keys r read handler now a in (not r.block && d.finished, d)
