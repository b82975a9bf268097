-- ===== src/RedisFlusher/Events.antt =====
-- `Publish` of redis_flusher.go: no event is lost, doubled or moved within its stream.
use beeorm.Prelude.{
  ◌≡◌, refl, sym, ap, ◌∙◌, inl, inr, ite, Option, none, some, List, [], ◌∷◌, ◌++◌, append_assoc,
  append-nil, Map, lookup, insert, lookup-insert, Text, text_discrete, ok, both_ok, Option-cases,
  arith,
}
use beeorm.RedisFlusher.{
  RedisFlusherCommands, Event, Pipelines, del_into, set_into, publish_into, hset_into, del, set,
  publish, hset,
}
use beeorm.RedisFlusher.Record.{
  Call, call_del, call_set, call_publish, call_hset, call, calls, or_nil, events_in, events_at,
  events_of, all_events,
}

abbrev one_if : Text → Text → Event → List Event
one_if stream s event = ite (text_discrete stream s) (event ∷ []) []

module _ (s : Text) where
  events_in-del_into :
      (o : Option RedisFlusherCommands) (keys : List Text)
      → events_in s (some (del_into o keys)) ≡ events_in s o
  unfolding del_into
  events_in-del_into o keys = ground arith

  events_in-set_into :
      (o : Option RedisFlusherCommands) (key value : Text) (c : RedisFlusherCommands)
      → set_into o key value ≡ ok c
      → events_in s (some c) ≡ events_in s o
  unfolding set_into
  events_in-set_into o key value c h = ground arith

  events_in-hset_into :
      (o : Option RedisFlusherCommands) (key : Text) (values : List Text)
      → events_in s (some (hset_into o key values)) ≡ events_in s o
  unfolding hset_into
  events_in-hset_into o key values = ground arith

  or_nil-insert :
      (m : Map Text (List Event)) (stream : Text) (event : Event)
      → or_nil (
          lookup text_discrete s
            (insert text_discrete stream (or_nil (lookup text_discrete stream m) ++ event ∷ []) m))
        ≡ or_nil (lookup text_discrete s m) ++ one_if stream s event
  or_nil-insert m stream event = ground (
    arith,
    lookup-insert text_discrete stream s (or_nil (lookup text_discrete stream m) ++ event ∷ []) m,
    append-nil (or_nil (lookup text_discrete s m)),
  )

  or_nil-first :
      (stream : Text) (event : Event)
      → or_nil (lookup text_discrete s ((stream, event ∷ []) ∷ [])) ≡ one_if stream s event
  unfolding lookup
  or_nil-first stream event = ground arith

  events_in-publish_into :
      (o : Option RedisFlusherCommands) (stream : Text) (event : Event)
      → events_in s (some (publish_into o stream event)) ≡ events_in s o ++ one_if stream s event
  unfolding publish_into
  events_in-publish_into none stream event = ground (arith, or_nil-first stream event)
  events_in-publish_into (some c) stream event = elim (Option-cases c.events) [
    | inl e ↦ ground (arith, or_nil-first stream event)
    | inr (m, e) ↦ ground (arith, or_nil-insert m stream event)
  ]

module _ (pools : Map Text Text) (pool stream : Text) where
  events-del :
      (p : Text) (keys : List Text) (f : Pipelines)
      → events_at pool stream (del p keys f) ≡ events_at pool stream f
  unfolding del
  events-del p [] f = refl
  events-del p (k ∷ ks) f = ground (
    arith,
    lookup-insert text_discrete p pool (del_into (lookup text_discrete p f) (k ∷ ks)) f,
    events_in-del_into stream (lookup text_discrete p f) (k ∷ ks),
  )

  events-set :
      (p key value : Text) (f : Pipelines) {f' : Pipelines}
      → set p key value f ≡ ok f'
      → events_at pool stream f' ≡ events_at pool stream f
  unfolding set
  events-set p key value f h =
      let (c, stored, made) = both_ok (set_into (lookup text_discrete p f) key value) _ h in
      ground (
        arith,
        lookup-insert text_discrete p pool c f,
        events_in-set_into stream (lookup text_discrete p f) key value c made,
      )

  events-hset :
      (p key : Text) (values : List Text) (f : Pipelines)
      → events_at pool stream (hset p key values f) ≡ events_at pool stream f
  unfolding hset
  events-hset p key values f = ground (
    arith,
    lookup-insert text_discrete p pool (hset_into (lookup text_discrete p f) key values) f,
    events_in-hset_into stream (lookup text_discrete p f) key values,
  )

  events-publish :
      (s : Text) (event : Event) (f : Pipelines) {f' : Pipelines}
      → publish pools s event f ≡ ok f'
      → events_at pool stream f'
        ≡ events_at pool stream f ++ events_of pools pool stream (call_publish s event)
  unfolding publish
  events-publish s event f h = elim (Option-cases (lookup text_discrete s pools)) [
    | inl e ↦ ground arith
    | inr (p, e) ↦ ground (
      arith,
      lookup-insert text_discrete p pool (publish_into (lookup text_discrete p f) s event) f,
      events_in-publish_into stream (lookup text_discrete p f) s event,
      append-nil (events_at pool stream f),
    )
  ]

  events-call :
      (c : Call) (f f' : Pipelines)
      → call pools c f ≡ ok f'
      → events_at pool stream f' ≡ events_at pool stream f ++ events_of pools pool stream c
  unfolding call
  events-call (call_del p keys) f f' h =
      ground (arith, events-del p keys f, append-nil (events_at pool stream f))
  events-call (call_set p key value) f f' h =
      events-set p key value f h ∙ sym (append-nil (events_at pool stream f))
  events-call (call_publish s event) f f' h = events-publish s event f h
  events-call (call_hset p key values) f f' h =
      ground (arith, events-hset p key values f, append-nil (events_at pool stream f))

  -- However the calls are interleaved, if none panics, the events that are recorded for a stream in
  -- a pool afterwards are those recorded before and then, in order, each event that is published to
  -- that stream, if the registry puts the stream in that pool.
  pub events-calls :
      (cs : List Call) (f f' : Pipelines)
      → calls pools cs f ≡ ok f'
      → events_at pool stream f' ≡ events_at pool stream f ++ all_events pools pool stream cs
  unfolding calls
  events-calls [] f f' h = ground (arith, append-nil (events_at pool stream f))
  events-calls (c ∷ cs) f f' h =
      let (g, rest, first) = both_ok (call pools c f) (calls pools cs) h in
      events-calls cs g f' rest
      ∙ ap (λ x. x ++ all_events pools pool stream cs) (events-call c f g first)
      ∙ append_assoc (events_at pool stream f) (events_of pools pool stream c)
          (all_events pools pool stream cs)
