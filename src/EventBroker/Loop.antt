-- ===== src/EventBroker/Loop.antt =====
-- `consume` of event_broker.go: how its loop ends.
use beeorm.Prelude.{
  ℕ, zero, suc, ◌≡◌, ◌≢◌, refl, ap, ◌∙◌, not, ◌&&◌, Bool, true, false, Bool-cases, ◌⊎◌, inl, inr,
  Option, none, some, List, [], ◌∷◌, ◌==◌, if◌then◌else◌, Result, ok, panic, arith, Text, Panic,
}
use beeorm.Locker.{Lock, Retry, LockAnswer, UnlockAnswer, refresh, release, obtain}
use beeorm.EventBroker.{
  Row, Event, ReadArgs, Action, EventsConsumer, ConsumeAttributes, garbage, no_messages,
  digest_keys, digest, seen, read_args, total_messages, StreamCall,
}
use beeorm.EventBroker.Consume.{
  Round, ctx_done, timer_fired, default, Outcome, running, returned, panicked, Consumption, close,
  on_refresh, rounds, under_lock, consume, after_calls, first_attributes, lock_ttl,
}
use beeorm.EventBroker.Phases.{handle-block, Ended, rounds-Ended, garbage-block}

-- The script has the given number of reads that find no message, or the context ends before.
unfoldable pub Drains : ℕ → List Round → Type 0
Drains zero script = Unit
Drains (suc n) [] = ⊥
Drains (suc n) (ctx_done ∷ rest) = Unit
Drains (suc n) (timer_fired extend ∷ rest) = Drains (suc n) rest
Drains (suc n) (default read handler now ∷ rest) =
    Drains (suc n) rest ⊎ (((args : ReadArgs) → total_messages (read args) ≡ 0) × Drains n rest)

Drains-less : (n : ℕ) (script : List Round) → Drains (suc n) script → Drains n script
unfolding Drains
Drains-less zero script h = tt
Drains-less (suc n) [] h = h
Drains-less (suc n) (ctx_done ∷ rest) h = tt
Drains-less (suc n) (timer_fired extend ∷ rest) h = Drains-less (suc n) rest h
Drains-less (suc n) (default read handler now ∷ rest) (inl h) = inl (Drains-less (suc n) rest h)
Drains-less (suc n) (default read handler now ∷ rest) (inr h) = inr (h.0, Drains-less n rest h.1)

module _ (r : EventsConsumer) (a : ConsumeAttributes) (calls : List StreamCall) where
  no_messages-consumer : (no_messages r a calls).consumer ≡ r
  unfolding no_messages
  no_messages-consumer = elim (Bool-cases a.pending) [ inl p ↦ rw p refl | inr n ↦ rw n refl ]

  no_messages-pending : (no_messages r a calls).attributes.pending ≡ false
  unfolding no_messages
  no_messages-pending = elim (Bool-cases a.pending) [ inl p ↦ rw p refl | inr n ↦ rw n refl ]

  no_messages-finished : a.pending ≡ false → (no_messages r a calls).finished ≡ true
  unfolding no_messages
  no_messages-finished n = rw n refl

seen-pending : (rows : List Row) (a : ConsumeAttributes) → (seen rows a).pending ≡ a.pending
unfolding seen
seen-pending rows a = ground arith

zero-test : (n : ℕ) → n ≡ 0 → (n == 0) ≡ true
zero-test n h = ground arith

module _ (r : EventsConsumer) (read : ReadArgs → List Row) (handler : List Event → List Action)
    (now : ℕ) (a : ConsumeAttributes) where
  digest_keys-block : (digest_keys r read handler now a).consumer.block ≡ r.block
  unfolding digest_keys
  digest_keys-block =
      let rows = read (read_args r a) in
      elim (Bool-cases (total_messages rows == 0)) [
        | inl empty ↦ rw empty (ap (λ x. x.block) (no_messages-consumer r (seen rows a) _))
        | inr some_read ↦ rw some_read (handle-block r handler now rows).0
      ]

  digest_keys-empty :
      ((args : ReadArgs) → total_messages (read args) ≡ 0)
      → let d = digest_keys r read handler now a in
        (d.attributes.pending ≡ false) × (a.pending ≡ false → d.finished ≡ true)
  unfolding digest_keys
  digest_keys-empty empty =
      let rows = read (read_args r a) in
      rw (zero-test (total_messages rows) (empty (read_args r a))) (
        no_messages-pending r (seen rows a) _,
        λ new. no_messages-finished r (seen rows a) _ (seen-pending rows a ∙ new),
      )

  digest_keys-new :
      a.pending ≡ false → (digest_keys r read handler now a).attributes.pending ≡ false
  unfolding digest_keys
  digest_keys-new new =
      let rows = read (read_args r a) in
      elim (Bool-cases (total_messages rows == 0)) [
        | inl empty ↦ rw empty (no_messages-pending r (seen rows a) _)
        | inr some_read ↦ rw some_read (seen-pending rows a ∙ new)
      ]

close-outcome :
    (at_end : UnlockAnswer) (o : Outcome) (l : Lock) (r : EventsConsumer) (a : ConsumeAttributes)
    → o ≢ running
    → (close at_end o l r a).outcome ≢ running
unfolding close
close-outcome at_end o l r a h = after (release at_end l).1
  where
    after : (x : Result (Unit {0})) → elim x [ panic p ↦ panicked p | ok u ↦ o ] ≢ running
    after (panic p) = cc
    after (ok u) = h

returned-ne-running : (b : Bool) → returned b ≢ running
returned-ne-running b = cc

panicked-ne-running : (p : Panic) → panicked p ≢ running
panicked-ne-running p = cc

module _ (at_end : UnlockAnswer) (l : Lock) (r : EventsConsumer) (a : ConsumeAttributes)
    (more : Consumption) (ends : more.outcome ≢ running) where
  timer-ends : (answer : Result Bool) → (on_refresh at_end answer l r a more).outcome ≢ running
  unfolding on_refresh
  timer-ends (panic p) = close-outcome at_end (panicked p) l r a (panicked-ne-running p)
  timer-ends (ok true) = ends
  timer-ends (ok false) = close-outcome at_end (returned false) l r a (returned-ne-running false)

  default-ends :
      (stop : Bool) (calls : List StreamCall)
      → (after_calls calls (if stop then close at_end (returned true) l r a else more)).outcome
        ≢ running
  default-ends true calls = close-outcome at_end (returned true) l r a (returned-ne-running true)
  default-ends false calls = ends

stops :
    (at_end : UnlockAnswer) (l : Lock) (r : EventsConsumer) (a : ConsumeAttributes)
    (more : Consumption) (stop : Bool) (calls : List StreamCall)
    → stop ≡ true
    → (after_calls calls (if stop then close at_end (returned true) l r a else more)).outcome
      ≢ running
stops at_end l r a more true calls e =
    close-outcome at_end (returned true) l r a (returned-ne-running true)
stops at_end l r a more false calls e = cc

stop-finished :
    (blocks finished : Bool) → blocks ≡ false → finished ≡ true → (not blocks && finished) ≡ true
stop-finished true finished h k = cc
stop-finished false finished h k = k

module _ (at_end : UnlockAnswer) where
  rounds-new :
      (script : List Round) (l : Lock) (r : EventsConsumer) (a : ConsumeAttributes)
      → r.block ≡ false
      → a.pending ≡ false
      → Drains 1 script
      → (rounds at_end script l r a).outcome ≢ running
  unfolding rounds Drains digest
  rounds-new [] l r a nb new h = absurd h
  rounds-new (ctx_done ∷ rest) l r a nb new h =
      close-outcome at_end (returned true) l r a (returned-ne-running true)
  rounds-new (timer_fired extend ∷ rest) l r a nb new h =
      timer-ends at_end (refresh extend l).0 r a _
        (rounds-new rest (refresh extend l).0 r a nb new h) (refresh extend l).1
  rounds-new (default read handler now ∷ rest) l r a nb new (inl h) =
      let d = digest_keys r read handler now a in
      default-ends at_end l d.consumer d.attributes _
        (rounds-new rest l d.consumer d.attributes (digest_keys-block r read handler now a ∙ nb)
          (digest_keys-new r read handler now a new) h)
        _ d.calls
  rounds-new (default read handler now ∷ rest) l r a nb new (inr (empty, h)) =
      let d = digest_keys r read handler now a in
      stops at_end l d.consumer d.attributes _ _ d.calls
        (stop-finished r.block d.finished nb ((digest_keys-empty r read handler now a empty).1 new))

  rounds-drained :
      (script : List Round) (l : Lock) (r : EventsConsumer) (a : ConsumeAttributes)
      → r.block ≡ false
      → Drains 2 script
      → (rounds at_end script l r a).outcome ≢ running
  unfolding rounds Drains digest
  rounds-drained [] l r a nb h = absurd h
  rounds-drained (ctx_done ∷ rest) l r a nb h =
      close-outcome at_end (returned true) l r a (returned-ne-running true)
  rounds-drained (timer_fired extend ∷ rest) l r a nb h =
      timer-ends at_end (refresh extend l).0 r a _
        (rounds-drained rest (refresh extend l).0 r a nb h) (refresh extend l).1
  rounds-drained (default read handler now ∷ rest) l r a nb (inl h) =
      let d = digest_keys r read handler now a in
      default-ends at_end l d.consumer d.attributes _
        (rounds-drained rest l d.consumer d.attributes (digest_keys-block r read handler now a ∙ nb)
          h)
        _ d.calls
  rounds-drained (default read handler now ∷ rest) l r a nb (inr (empty, h)) =
      let d = digest_keys r read handler now a in
      default-ends at_end l d.consumer d.attributes _
        (rounds-new rest l d.consumer d.attributes (digest_keys-block r read handler now a ∙ nb)
          (digest_keys-empty r read handler now a empty).0 h)
        _ d.calls

module _ (at_end : UnlockAnswer) (now : ℕ) (script : List Round) (r : EventsConsumer)
    (a : ConsumeAttributes) where
  under_lock-drained :
      (answer : Result (Option Lock))
      → r.block ≡ false
      → Drains 2 script
      → (under_lock at_end now script r a answer).outcome ≢ running
  unfolding under_lock
  under_lock-drained (panic p) nb h = panicked-ne-running p
  under_lock-drained (ok none) nb h = returned-ne-running false
  under_lock-drained (ok (some l)) nb h =
      rounds-drained at_end script l (garbage now r).0 a (garbage-block now r ∙ nb) h

  under_lock-Released :
      (answer : Result (Option Lock))
      → let c = under_lock at_end now script r a answer in
        c.outcome ≢ running
        → ((c.lock ≡ none) × (c.calls ≡ [])) ⊎ ((l : Lock) × (c.lock ≡ some l) × (l.has ≡ false))
  unfolding under_lock Ended
  under_lock-Released (panic p) h = inl (refl, refl)
  under_lock-Released (ok none) h = inl (refl, refl)
  under_lock-Released (ok (some l)) h = elim (rounds-Ended at_end script l (garbage now r).0 a) [
    | inl runs ↦ absurd (h runs)
    | inr released ↦ inr released
  ]

-- A consumer that does not block does not go on for ever: once two reads have found no message, or
-- before, its loop has ended, whatever the other reads, the handler and redsync answer.
pub consume_drained :
    (redsync : Retry → LockAnswer) (at_end : UnlockAnswer) (now : ℕ) (script : List Round)
    (name : Text) (count : ℕ) (r : EventsConsumer)
    → r.block ≡ false
    → Drains 2 script
    → (consume redsync at_end now script name count r).outcome ≢ running
unfolding consume
consume_drained redsync at_end now script name count r nb h =
    under_lock-drained at_end now script r (first_attributes r name count)
      (obtain redsync lock_ttl 0) nb h

-- A consumer that has ended does not hold its lock: it did not get it and called Redis for nothing
-- else, or it has released or lost it.
pub consume-Released :
    (redsync : Retry → LockAnswer) (at_end : UnlockAnswer) (now : ℕ) (script : List Round)
    (name : Text) (count : ℕ) (r : EventsConsumer)
    → (consume redsync at_end now script name count r).outcome ≢ running
    → let c = consume redsync at_end now script name count r in
      ((c.lock ≡ none) × (c.calls ≡ [])) ⊎ ((l : Lock) × (c.lock ≡ some l) × (l.has ≡ false))
unfolding consume
consume-Released redsync at_end now script name count r =
    under_lock-Released at_end now script r (first_attributes r name count)
      (obtain redsync lock_ttl 0)
