-- ===== src/EventBroker/Acks.antt =====
-- `digestKeys` of event_broker.go: which messages are acknowledged.
use beeorm.Prelude.{
  ℕ, zero, suc, ◌+◌, ◌≡◌, ◌≢◌, refl, sym, ap, ◌∙◌, ite, Bool, true, false, Bool-cases, Option-cases,
  inl, inr, if_pos, if_neg, Option, none, some, List, [], ◌∷◌, ◌++◌, map, get_elem?, set, ◌==◌,
  if◌then◌else◌, Map, lookup, insert, Text, text_discrete, arith,
}
use beeorm.RedisFlusher.{append_to}
use beeorm.EventBroker.{
  Message, Row, Event, ReadArgs, StreamCall, x_group_create, x_read_group, x_ack, x_del,
  garbage_event, EventsConsumer, ConsumeAttributes, Action, act_ack, act_delete, ack_event,
  delete_event, target, act_on, act, act_all, garbage, to_ack, all_deleted, total_messages,
  new_event, events_of, handle, digest_keys, read_args,
}

not_zero : (n : ℕ) → n ≢ 0 → (n == 0) ≡ false
not_zero n h = ground arith

module _ (stream id : Text) where
  -- 1 where the given stream and identifier are the ones that are counted.
  hit : Text → Text → ℕ
  hit s i = ite (text_discrete s stream) (ite (text_discrete i id) 1 0) 0

  hits : Text → List Text → ℕ
  unfolding hit
  hits s [] = 0
  hits s (i ∷ is) = hit s i + hits s is

  -- How often the message is acknowledged by the calls.
  unfoldable pub acked : List StreamCall → ℕ
  unfolding hits
  acked [] = 0
  acked (x_ack s group ids ∷ calls) = hits s ids + acked calls
  acked (x_group_create s group ∷ calls) = acked calls
  acked (x_read_group args ∷ calls) = acked calls
  acked (x_del s i ∷ calls) = acked calls
  acked (garbage_event group pool ∷ calls) = acked calls

  -- How often the message is among those that `XReadGroup` returned.
  unfoldable pub delivered : List Row → ℕ
  unfolding hits
  delivered [] = 0
  delivered ((s, messages) ∷ rows) = hits s (map (λ m. m.id) messages) + delivered rows

  open_events : List Event → ℕ
  unfolding hit
  open_events [] = 0
  open_events (ev ∷ evs) =
      if ev.ack then open_events evs else hit ev.stream ev.message.id + open_events evs

  again : Option Event → ℕ
  unfolding hit
  again none = 0
  again (some ev) = if ev.ack then hit ev.stream ev.message.id else 0

  -- How often the handler acknowledges the message through an event that is acknowledged already.
  unfoldable pub repeated : Text → List Action → List Event → ℕ
  unfolding act again
  repeated group [] evs = 0
  repeated group (a ∷ rest) evs =
      again (get_elem? evs (target a)) + repeated group rest (act group a evs).0

  acked-append : (xs ys : List StreamCall) → acked (xs ++ ys) ≡ acked xs + acked ys
  unfolding acked
  acked-append [] ys = omega arith
  acked-append (x_ack s group ids ∷ xs) ys = omega (arith, acked-append xs ys)
  acked-append (x_group_create s group ∷ xs) ys = acked-append xs ys
  acked-append (x_read_group args ∷ xs) ys = acked-append xs ys
  acked-append (x_del s i ∷ xs) ys = acked-append xs ys
  acked-append (garbage_event group pool ∷ xs) ys = acked-append xs ys

  hits-append : (s : Text) (is js : List Text) → hits s (is ++ js) ≡ hits s is + hits s js
  unfolding hits
  hits-append s [] js = omega arith
  hits-append s (i ∷ is) js = omega (arith, hits-append s is js)

  acks_of : Text → Map Text (List Text) → List StreamCall
  acks_of group m = map (λ e. x_ack e.0 group e.1) m

  lookup_miss :
      (s t : Text) (is : List Text) (m : Map Text (List Text))
      → ¬ (t ≡ s)
      → lookup text_discrete s ((t, is) ∷ m) ≡ lookup text_discrete s m
  unfolding lookup
  lookup_miss s t is m ne = if_neg (text_discrete t s) ne _ _

  insert_miss :
      (s t : Text) (is js : List Text) (m : Map Text (List Text))
      → ¬ (t ≡ s)
      → insert text_discrete s js ((t, is) ∷ m) ≡ (t, is) ∷ insert text_discrete s js m
  unfolding insert
  insert_miss s t is js m ne = if_neg (text_discrete t s) ne _ _

  insert_hit :
      (s i : Text) (is : List Text) (m : Map Text (List Text))
      → insert text_discrete s
          (append_to (lookup text_discrete s ((s, is) ∷ m)) (i ∷ []))
          ((s, is) ∷ m)
        ≡ (s, is ++ i ∷ []) ∷ m
  unfolding insert lookup
  insert_hit s i is m =
      if_pos (text_discrete s s) refl _ _
      ∙ ap (λ o. (s, append_to o (i ∷ [])) ∷ m) (if_pos (text_discrete s s) refl _ _)

  insert_nil :
      (s i : Text)
      → insert text_discrete s (append_to (lookup {V = List Text} text_discrete s []) (i ∷ [])) []
        ≡ (s, i ∷ []) ∷ []
  unfolding insert lookup
  insert_nil s i = refl

  acked-insert :
      (group s i : Text) (m : Map Text (List Text))
      → acked
          (acks_of group (insert text_discrete s (append_to (lookup text_discrete s m) (i ∷ [])) m))
        ≡ hit s i + acked (acks_of group m)
  unfolding acked acks_of hits
  acked-insert group s i [] = rw (insert_nil s i) (omega arith)
  acked-insert group s i ((t, is) ∷ m) = elim (text_discrete t s) [
    | yes e ↦ rw (sym e) (rw (insert_hit t i is m, hits-append) (omega arith))
    | no ne ↦
        rw (lookup_miss s t is m ne, insert_miss s t is _ m ne)
          (omega (arith, acked-insert group s i m))
  ]

  acked-to_ack :
      (group : Text) (evs : List Event) (m : Map Text (List Text))
      → acked (acks_of group (to_ack evs m)) ≡ open_events evs + acked (acks_of group m)
  unfolding to_ack open_events
  acked-to_ack group [] m = omega arith
  acked-to_ack group (ev ∷ evs) m = elim (Bool-cases ev.ack) [
    | inl done ↦ rw done (acked-to_ack group evs m)
    | inr left ↦
        rw left
          (omega (arith, acked-to_ack group evs, acked-insert group ev.stream ev.message.id m))
  ]

  open_events-set :
      (evs : List Event) (i : ℕ) (ev ev' : Event)
      → get_elem? evs i ≡ some ev
      → open_events (set evs i ev') + open_events (ev ∷ [])
        ≡ open_events evs + open_events (ev' ∷ [])
  unfolding open_events
  open_events-set [] i ev ev' h = cc
  open_events-set (x ∷ evs) zero ev ev' h = ground arith
  open_events-set (x ∷ evs) (suc i) ev ev' h = ground (arith, open_events-set evs i ev ev')

  -- Acting on an event that is open acknowledges it once more, and once if it was done already.
  acked-act_on :
      (group : Text) (a : Action) (ev : Event)
      → acked (act_on group a ev).1 + open_events ((act_on group a ev).0 ∷ [])
        ≡ hit ev.stream ev.message.id
  unfolding acked open_events hits ack_event delete_event
  acked-act_on group (act_ack i) ev = omega arith
  acked-act_on group (act_delete i) ev = omega arith

  open_events-single :
      (ev : Event) → open_events (ev ∷ []) + again (some ev) ≡ hit ev.stream ev.message.id
  unfolding open_events again
  open_events-single ev = ground arith

  acked-act :
      (group : Text) (a : Action) (evs : List Event)
      → acked (act group a evs).1 + open_events (act group a evs).0
        ≡ open_events evs + again (get_elem? evs (target a))
  unfolding act acked again
  acked-act group a evs = elim (Option-cases (get_elem? evs (target a))) [
    | inl no_event ↦ rw (act, no_event) (omega arith)
    | inr (ev, there) ↦
        rw (act, there)
          (omega (
            arith,
            acked-act_on group a ev,
            open_events-single ev,
            open_events-set evs (target a) ev (act_on group a ev).0 there,
          ))
  ]

  acked-act_all :
      (group : Text) (as' : List Action) (evs : List Event)
      → acked (act_all group as' evs).1 + open_events (act_all group as' evs).0
        ≡ open_events evs + repeated group as' evs
  unfolding act_all acked repeated
  acked-act_all group [] evs = omega arith
  acked-act_all group (a ∷ rest) evs = omega (
    arith,
    acked-append (act group a evs).1 (act_all group rest (act group a evs).0).1,
    acked-act group a evs,
    acked-act_all group rest (act group a evs).0,
  )

  open_events-new :
      (s : Text) (ms : List Message) (evs : List Event)
      → open_events (map (new_event s) ms ++ evs) ≡ hits s (map (λ m. m.id) ms) + open_events evs
  unfolding open_events hits
  open_events-new s [] evs = omega arith
  open_events-new s (m ∷ ms) evs = omega (arith, open_events-new s ms evs)

  open_events-events_of : (rows : List Row) → open_events (events_of rows) ≡ delivered rows
  unfolding open_events delivered
  open_events-events_of [] = refl
  open_events-events_of ((s, ms) ∷ rows) =
      rw (open_events-new s ms (events_of rows)) (omega (arith, open_events-events_of rows))

  acked-garbage : (now : ℕ) (r : EventsConsumer) → acked (garbage now r).1 ≡ 0
  unfolding garbage acked
  acked-garbage now r = ground arith

  acked-collected :
      (skip : Bool) (now : ℕ) (r : EventsConsumer)
      → acked (if skip then (r, []) else garbage now r).1 ≡ 0
  unfolding acked
  acked-collected true now r = refl
  acked-collected false now r = acked-garbage now r

  acked-handle :
      (r : EventsConsumer) (handler : List Event → List Action) (now : ℕ) (rows : List Row)
      → acked (handle r handler now rows).1
        ≡ delivered rows + repeated r.group (handler (events_of rows)) (events_of rows)
  unfolding handle acks_of acked
  acked-handle r handler now rows =
      let evs = (act_all r.group (handler (events_of rows)) (events_of rows)).0 in
      rw (acked-append, acked-append)
        (omega (
          arith,
          acked-act_all r.group (handler (events_of rows)) (events_of rows),
          acked-collected (all_deleted evs) now r,
          acked-to_ack r.group evs [],
          open_events-events_of rows,
        ))

  digest_keys_read :
      (r : EventsConsumer) (read : ReadArgs → List Row) (handler : List Event → List Action)
      (now : ℕ) (a : ConsumeAttributes)
      → total_messages (read (read_args r a)) ≢ 0
      → (digest_keys r read handler now a).calls
        ≡ x_read_group (read_args r a) ∷ (handle r handler now (read (read_args r a))).1
  unfolding digest_keys
  digest_keys_read r read handler now a some_read = rw (not_zero _ some_read) refl

  -- A message is acknowledged as often as it was read, and once more for each time that the handler
  -- acknowledges or deletes an event that it has acknowledged before. So without such a repetition every
  -- message read is acknowledged exactly once, whatever the handler acknowledges itself.
  pub acked-digest_keys :
      (r : EventsConsumer) (read : ReadArgs → List Row) (handler : List Event → List Action)
      (now : ℕ) (a : ConsumeAttributes) (rows : List Row)
      → read (read_args r a) ≡ rows
      → (total_messages rows ≢ 0)
      → acked (digest_keys r read handler now a).calls
        ≡ delivered rows + repeated r.group (handler (events_of rows)) (events_of rows)
  unfolding acked
  acked-digest_keys r read handler now a rows e some_read = rw e at (
      ap acked (digest_keys_read r read handler now a (rw e some_read))
      ∙ acked-handle r handler now (read (read_args r a)))
