-- ===== src/EventBroker/Phases.antt =====
-- The phases of a consumer of event_broker.go: its pending messages, then the new ones; and the end
-- of its loop.
use beeorm.Prelude.{
  ℕ, ◌≡◌, refl, ◌∙◌, Bool, true, false, Bool-cases, ◌⊎◌, inl, inr, none, some, List, [], ◌∷◌, ◌++◌,
  ◌&&◌, not, map, Text, codes, ◌==◌, if◌then◌else◌, Result, ok, panic, arith,
}
use beeorm.Locker.{Lock, UnlockAnswer, refresh, release}
use beeorm.EventBroker.{
  Row, Event, ReadArgs, Action, EventsConsumer, ConsumeAttributes, garbage, handle, no_messages,
  digest_keys, digest, seen, read_args, total_messages, StreamCall, Digest, last_id,
}
use beeorm.EventBroker.Consume.{
  Round, ctx_done, timer_fired, default, Outcome, running, returned, panicked, Consumption, close,
  on_refresh, rounds, after_calls,
}

-- While messages are pending a read does not block; afterwards it blocks as the consumer is set.
unfoldable pub IsPhase : EventsConsumer → ConsumeAttributes → Type 0
IsPhase r a =
    a.block_time ≡ (if a.pending then none else if r.block then some r.block_time else none)

module _ (now : ℕ) (r : EventsConsumer) where
  pub garbage-block : (garbage now r).0.block ≡ r.block
  unfolding garbage
  garbage-block = ground arith

  garbage-block_time : (garbage now r).0.block_time ≡ r.block_time
  unfolding garbage
  garbage-block_time = ground arith

module _ (r : EventsConsumer) (handler : List Event → List Action) (now : ℕ) (rows : List Row) where
  collected-block :
      (skip : Bool)
      → let left = (if skip then (r, []) else garbage now r).0 in
        (left.block ≡ r.block) × (left.block_time ≡ r.block_time)
  collected-block true = (refl, refl)
  collected-block false = (garbage-block now r, garbage-block_time now r)

  pub handle-block :
      ((handle r handler now rows).0.block ≡ r.block)
      × ((handle r handler now rows).0.block_time ≡ r.block_time)
  unfolding handle
  handle-block = collected-block _

garbage-streams : (now : ℕ) (r : EventsConsumer) → (garbage now r).0.streams ≡ r.streams
unfolding garbage
garbage-streams now r = ground arith

collected-streams :
    (now : ℕ) (r : EventsConsumer) (skip : Bool)
    → (if skip then (r, []) else garbage now r).0.streams ≡ r.streams
collected-streams now r true = refl
collected-streams now r false = garbage-streams now r

handle-streams :
    (r : EventsConsumer) (handler : List Event → List Action) (now : ℕ) (rows : List Row)
    → (handle r handler now rows).0.streams ≡ r.streams
unfolding handle
handle-streams r handler now rows = collected-streams now r _

IsPhase-seen :
    (r : EventsConsumer) (rows : List Row) (a : ConsumeAttributes)
    → IsPhase r a
    → IsPhase r (seen rows a)
unfolding IsPhase seen
IsPhase-seen r rows a h = ground arith

IsPhase-same :
    (r r' : EventsConsumer) (a : ConsumeAttributes)
    → (r'.block ≡ r.block) × (r'.block_time ≡ r.block_time)
    → IsPhase r a
    → IsPhase r' a
unfolding IsPhase
IsPhase-same r r' a same h = ground arith

IsPhase-no_messages :
    (r : EventsConsumer) (a : ConsumeAttributes) (calls : List StreamCall)
    → IsPhase r a
    → IsPhase (no_messages r a calls).consumer (no_messages r a calls).attributes
unfolding IsPhase no_messages
IsPhase-no_messages r a calls h = ground arith

pub new_phase-seen : (rows : List Row) (a : ConsumeAttributes) → a.pending ≡ false → seen rows a ≡ a
unfolding seen
new_phase-seen rows a h = rw h refl

pub new_phase-no_messages :
    (r : EventsConsumer) (a : ConsumeAttributes) (calls : List StreamCall)
    → a.pending ≡ false
    → (no_messages r a calls).attributes ≡ a
unfolding no_messages
new_phase-no_messages r a calls h = rw h refl

pending-seen : (rows : List Row) (a : ConsumeAttributes) → (seen rows a).pending ≡ a.pending
unfolding seen
pending-seen rows a = ground arith

-- What a call of `digestKeys` that began with the attributes `a` and read the rows has left.
record Left (r : EventsConsumer) (rows : List Row) (a : ConsumeAttributes) (d : Digest)
    : Type 0 where
  block : d.consumer.block ≡ r.block
  block_time : d.consumer.block_time ≡ r.block_time
  streams : d.consumer.streams ≡ r.streams
  phase : IsPhase d.consumer d.attributes
  pending : d.attributes.pending ≡ (a.pending && not (total_messages rows == 0))
  finished : d.finished ≡ (not a.pending && total_messages rows == 0)

no_messages-Left :
    (r : EventsConsumer) (rows : List Row) (a : ConsumeAttributes) (calls : List StreamCall)
    → IsPhase r a
    → (total_messages rows == 0) ≡ true
    → Left r rows a (no_messages r (seen rows a) calls)
unfolding no_messages
no_messages-Left r rows a calls h empty =
    let same = pending-seen rows a in
    record {
      block = ground arith;
      block_time = ground arith;
      streams = ground arith;
      phase = IsPhase-no_messages r (seen rows a) calls (IsPhase-seen r rows a h);
      pending = ground arith;
      finished = ground arith;
    }

digest_keys-Left :
    (r : EventsConsumer) (read : ReadArgs → List Row) (handler : List Event → List Action) (now : ℕ)
    (a : ConsumeAttributes)
    → IsPhase r a
    → Left r (read (read_args r a)) a (digest_keys r read handler now a)
unfolding digest_keys
digest_keys-Left r read handler now a h =
    let rows = read (read_args r a) in
    let same = pending-seen rows a in
    elim (Bool-cases (total_messages rows == 0)) [
      | inl empty ↦ rw empty (no_messages-Left r rows a _ h empty)
      | inr some_read ↦ rw some_read (record {
        block = (handle-block r handler now rows).0;
        block_time = (handle-block r handler now rows).1;
        streams = handle-streams r handler now rows;
        phase =
            IsPhase-same r _ (seen rows a) (handle-block r handler now rows)
              (IsPhase-seen r rows a h);
        pending = ground arith;
        finished = ground arith;
      })
    ]

-- The streams and ids that are asked for: while messages are pending those after the last ids read,
-- and then the new messages.
asked_for : EventsConsumer → ConsumeAttributes → Bool → List Text
asked_for r a still =
    r.streams ++ map (λ stream. if still then last_id a.last_ids stream else codes ">") r.streams

next-read :
    (r : EventsConsumer) (rows : List Row) (a : ConsumeAttributes) (d : Digest)
    → Left r rows a d
    → let still = a.pending && not (total_messages rows == 0) in
      let next = read_args d.consumer d.attributes in
      (next.streams ≡ asked_for r d.attributes still)
      × (next.block ≡ (if still then none else if r.block then some r.block_time else none))
unfolding read_args asked_for IsPhase
next-read r rows a d left = (
  rw (left.streams, left.pending) refl,
  left.phase ∙ rw (left.pending, left.block, left.block_time) refl,
)

-- One call of `digestKeys` decides the phase: messages stay pending only if they were and the call
-- read some, and only a call that reads none after the pending messages ends the work. While
-- messages stay pending the next read asks for those after the last ids and does not block; after
-- them it asks for the new messages and blocks as the consumer is set. This needs that the first read
-- blocks by the same rule, which `IsPhase` says of the attributes before and after.
pub digest_keys-IsPhase :
    (r : EventsConsumer) (read : ReadArgs → List Row) (handler : List Event → List Action) (now : ℕ)
    (a : ConsumeAttributes)
    → IsPhase r a
    → let empty = total_messages (read (read_args r a)) == 0 in
      let still = a.pending && not empty in
      let d = digest_keys r read handler now a in
      let next = read_args d.consumer d.attributes in
      IsPhase d.consumer d.attributes
      × (d.attributes.pending ≡ still)
      × (d.finished ≡ (not a.pending && empty))
      × (next.streams
          ≡ r.streams
            ++ map
                (λ stream. if still then last_id d.attributes.last_ids stream else codes ">")
                r.streams)
      × (next.block ≡ (if still then none else if r.block then some r.block_time else none))
unfolding asked_for
digest_keys-IsPhase r read handler now a h =
    let left = digest_keys-Left r read handler now a h in
    let (streams, block) =
      next-read r (read (read_args r a)) a (digest_keys r read handler now a) left in
    (left.phase, left.pending, left.finished, streams, block)

-- The lock of an ended loop is not held.
unfoldable pub Ended : Consumption → Type 0
Ended c = (c.outcome ≡ running) ⊎ ((l : Lock) × (c.lock ≡ some l) × (l.has ≡ false))

release-has : (answer : UnlockAnswer) (l : Lock) → (release answer l).0.has ≡ false
unfolding release
release-has answer l = ground arith

module _ (at_end : UnlockAnswer) where
  close-Ended :
      (o : Outcome) (l : Lock) (r : EventsConsumer) (a : ConsumeAttributes)
      → Ended (close at_end o l r a)
  unfolding Ended close
  close-Ended o l r a = inr ((release at_end l).0, refl, release-has at_end l)

  timer-Ended :
      (answer : Result Bool) (l : Lock) (r : EventsConsumer) (a : ConsumeAttributes)
      (more : Consumption)
      → Ended more
      → Ended (on_refresh at_end answer l r a more)
  unfolding on_refresh
  timer-Ended (panic p) l r a more h = close-Ended (panicked p) l r a
  timer-Ended (ok true) l r a more h = h
  timer-Ended (ok false) l r a more h = close-Ended (returned false) l r a

  default-Ended :
      (stop : Bool) (l : Lock) (r : EventsConsumer) (a : ConsumeAttributes) (more : Consumption)
      (calls : List StreamCall)
      → Ended more
      → Ended (after_calls calls (if stop then close at_end (returned true) l r a else more))
  unfolding Ended
  default-Ended true l r a more calls h = close-Ended (returned true) l r a
  default-Ended false l r a more calls h = h

  pub rounds-Ended :
      (script : List Round) (l : Lock) (r : EventsConsumer) (a : ConsumeAttributes)
      → Ended (rounds at_end script l r a)
  unfolding rounds Ended
  rounds-Ended [] l r a = inl refl
  rounds-Ended (ctx_done ∷ rest) l r a = close-Ended (returned true) l r a
  rounds-Ended (timer_fired extend ∷ rest) l r a =
      timer-Ended (refresh extend l).1 (refresh extend l).0 r a _
        (rounds-Ended rest (refresh extend l).0 r a)
  rounds-Ended (default read handler now ∷ rest) l r a =
      let (stop, d) = digest r read handler now a in
      default-Ended stop l d.consumer d.attributes _ d.calls
        (rounds-Ended rest l d.consumer d.attributes)
