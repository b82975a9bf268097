-- ===== src/EventBroker/Consume.antt =====
-- `consume` of event_broker.go: the loop of a consumer under its lock.
use beeorm.Prelude.{
  ℕ, ◌*◌, Bool, true, false, Option, none, some, List, [], ◌∷◌, ◌++◌, map, if◌then◌else◌, Text,
  codes, Panic, Result, ok, panic,
}
use beeorm.Locker.{
  Lock, Retry, LockAnswer, UnlockAnswer, ExtendAnswer, millisecond, obtain, refresh, release,
}
use beeorm.EventBroker.{
  Row, Event, ReadArgs, Action, StreamCall, x_group_create, EventsConsumer, ConsumeAttributes,
  garbage, digest,
}

-- What one round of the `select` finds: the context is done, the timer fired (with the answer of
-- redsync to the refresh), or neither, with what a read of the streams and the handler then do.
pub data Round : Type 0 where
  ctx_done : Round
  timer_fired : ExtendAnswer → Round
  default : (ReadArgs → List Row) → (List Event → List Action) → ℕ → Round

pub data Outcome : Type 0 where
  running : Outcome
  returned : Bool → Outcome
  panicked : Panic → Outcome

-- Where `consume` stands after the rounds so far.
pub record Consumption : Type 0 where
  pub outcome : Outcome
  pub lock : Option Lock
  pub consumer : EventsConsumer
  pub attributes : ConsumeAttributes
  pub calls : List StreamCall

-- The deferred `lock.Release()`, which replaces the outcome if it panics.
unfoldable pub close :
    UnlockAnswer → Outcome → Lock → EventsConsumer → ConsumeAttributes → Consumption
close at_end outcome l r a = record {
  outcome = elim (release at_end l).1 [ panic p ↦ panicked p | ok u ↦ outcome ];
  lock = some (release at_end l).0;
  consumer = r;
  attributes = a;
  calls = [];
}

abbrev pub after_calls : List StreamCall → Consumption → Consumption
after_calls calls c = record c { calls = calls ++ c.calls }

-- After `lock.Refresh`: `more` is what the further rounds do.
unfoldable pub on_refresh :
    UnlockAnswer
    → Result Bool
    → Lock
    → EventsConsumer
    → ConsumeAttributes
    → Consumption
    → Consumption
unfolding close
on_refresh at_end (panic p) l r a more = close at_end (panicked p) l r a
on_refresh at_end (ok true) l r a more = more
on_refresh at_end (ok false) l r a more = close at_end (returned false) l r a

unfoldable pub rounds :
    UnlockAnswer → List Round → Lock → EventsConsumer → ConsumeAttributes → Consumption
unfolding close on_refresh
rounds at_end [] l r a = record {
  outcome = running;
  lock = some l;
  consumer = r;
  attributes = a;
  calls = [];
}
rounds at_end (ctx_done ∷ rest) l r a = close at_end (returned true) l r a
rounds at_end (timer_fired extend ∷ rest) l r a =
    let (kept, answer) = refresh extend l in
    on_refresh at_end answer kept r a (rounds at_end rest kept r a)
rounds at_end (default read handler now ∷ rest) l r a =
    let (stop, d) = digest r read handler now a in
    let more = rounds at_end rest l d.consumer d.attributes in
    after_calls d.calls
      (if stop then close at_end (returned true) l d.consumer d.attributes else more)

unfoldable pub first_attributes : EventsConsumer → Text → ℕ → ConsumeAttributes
first_attributes r name count = record {
  pending = true;
  block_time = none;
  name = name;
  count = count;
  last_ids = map (λ stream. (stream, codes "0")) r.streams;
}

-- `r.lockTTL`
abbrev pub lock_ttl : ℕ
lock_ttl = 90_000 * millisecond

-- `consume` after the answer to `Obtain`; `now` is the time of the first `garbage`.
unfoldable pub under_lock :
    UnlockAnswer
    → ℕ
    → List Round
    → EventsConsumer
    → ConsumeAttributes
    → Result (Option Lock)
    → Consumption
unfolding rounds
under_lock at_end now script r a (panic p) = record {
  outcome = panicked p;
  lock = none;
  consumer = r;
  attributes = a;
  calls = [];
}
under_lock at_end now script r a (ok none) = record {
  outcome = returned false;
  lock = none;
  consumer = r;
  attributes = a;
  calls = [];
}
under_lock at_end now script r a (ok (some l)) =
    let (started, collected) = garbage now r in
    after_calls (collected ++ map (λ stream. x_group_create stream r.group) r.streams)
      (rounds at_end script l started a)

unfoldable pub consume :
    (Retry → LockAnswer) → UnlockAnswer → ℕ → List Round → Text → ℕ → EventsConsumer → Consumption
unfolding under_lock first_attributes
consume redsync at_end now script name count r =
    under_lock at_end now script r (first_attributes r name count) (obtain redsync lock_ttl 0)
