-- ===== src/RedisFlusher/Record.antt =====
-- `Del`, `Set`, `Publish` and `HSet` of redis_flusher.go: what a sequence of calls records.
use beeorm.Prelude.{
  ◌≡◌, sym, ap, ◌∙◌, inl, inr, ite, Option, none, some, List, [], ◌∷◌, ◌++◌, append_assoc,
  append-nil, Map, lookup, insert, lookup-insert, Text, text_discrete, Result, ok, panic, nil_map,
  ◌>>=◌, both_ok, Option-cases, arith,
}
use beeorm.RedisFlusher.{
  RedisFlusherCommands, Event, Pipelines, first_command, command_set, del_into, set_into,
  publish_into, hset_into, del, set, publish, hset,
}

-- The calls of a flush.
pub data Call : Type 0 where
  call_del : Text → List Text → Call
  call_set : Text → Text → Text → Call
  call_publish : Text → Event → Call
  call_hset : Text → Text → List Text → Call

unfoldable pub call : Map Text Text → Call → Pipelines → Result Pipelines
call pools (call_del pool keys) f = ok (del pool keys f)
call pools (call_set pool key value) f = set pool key value f
call pools (call_publish stream event) f = publish pools stream event f
call pools (call_hset pool key values) f = ok (hset pool key values f)

unfoldable pub calls : Map Text Text → List Call → Pipelines → Result Pipelines
calls pools [] f = ok f
calls pools (c ∷ cs) f = call pools c f >>= calls pools cs

abbrev pub or_nil {ℓ} : {A : Type ℓ} → Option (List A) → List A
or_nil none = []
or_nil (some es) = es

abbrev deletes_in : Option RedisFlusherCommands → List Text
deletes_in none = []
deletes_in (some c) = or_nil c.deletes

-- The keys that are recorded for deletion in a pool.
abbrev pub deletes_at : Text → Pipelines → List Text
deletes_at pool f = deletes_in (lookup text_discrete pool f)

abbrev pub events_in : Text → Option RedisFlusherCommands → List Event
events_in stream none = []
events_in stream (some c) = elim c.events [
  | none ↦ []
  | some m ↦ or_nil (lookup text_discrete stream m)
]

-- The events that are recorded for a stream in a pool, in order.
abbrev pub events_at : Text → Text → Pipelines → List Event
events_at pool stream f = events_in stream (lookup text_discrete pool f)

-- What one call adds to the deletes of a pool, and to a stream of a pool.
abbrev pub keys_of : Text → Call → List Text
keys_of pool (call_del p keys) = ite (text_discrete p pool) keys []
keys_of pool c = []

abbrev pub events_of : Map Text Text → Text → Text → Call → List Event
events_of pools pool stream (call_publish s event) = elim (lookup text_discrete s pools) [
  | none ↦ []
  | some p ↦ ite (text_discrete p pool) (ite (text_discrete s stream) (event ∷ []) []) []
]
events_of pools pool stream c = []

abbrev pub all_keys : Text → List Call → List Text
all_keys pool [] = []
all_keys pool (c ∷ cs) = keys_of pool c ++ all_keys pool cs

abbrev pub all_events : Map Text Text → Text → Text → List Call → List Event
all_events pools pool stream [] = []
all_events pools pool stream (c ∷ cs) =
    events_of pools pool stream c ++ all_events pools pool stream cs

deletes_in-del_into :
    (o : Option RedisFlusherCommands) (k : Text) (ks : List Text)
    → deletes_in (some (del_into o (k ∷ ks))) ≡ deletes_in o ++ (k ∷ ks)
unfolding del_into
deletes_in-del_into o k ks = ground (arith, append-nil ks)

deletes_in-set_into :
    (o : Option RedisFlusherCommands) (key value : Text) (c : RedisFlusherCommands)
    → set_into o key value ≡ ok c
    → deletes_in (some c) ≡ deletes_in o
unfolding set_into
deletes_in-set_into o key value c h = ground arith

deletes_in-publish_into :
    (o : Option RedisFlusherCommands) (stream : Text) (event : Event)
    → deletes_in (some (publish_into o stream event)) ≡ deletes_in o
unfolding publish_into
deletes_in-publish_into o stream event = ground arith

deletes_in-hset_into :
    (o : Option RedisFlusherCommands) (key : Text) (values : List Text)
    → deletes_in (some (hset_into o key values)) ≡ deletes_in o
unfolding hset_into
deletes_in-hset_into o key values = ground arith

module _ (pools : Map Text Text) (pool : Text) where
  deletes-del :
      (p : Text) (keys : List Text) (f : Pipelines)
      → deletes_at pool (del p keys f) ≡ deletes_at pool f ++ keys_of pool (call_del p keys)
  unfolding del
  deletes-del p [] f = ground (arith, append-nil (deletes_at pool f))
  deletes-del p (k ∷ ks) f = ground (
    arith,
    lookup-insert text_discrete p pool (del_into (lookup text_discrete p f) (k ∷ ks)) f,
    deletes_in-del_into (lookup text_discrete p f) k ks,
    append-nil (deletes_at pool f),
  )

  pub deletes-del_own :
      (keys : List Text) (f : Pipelines)
      → deletes_at pool (del pool keys f) ≡ deletes_at pool f ++ keys
  deletes-del_own keys f = ground (arith, deletes-del pool keys f)

  deletes-set :
      (p key value : Text) (f : Pipelines) {f' : Pipelines}
      → set p key value f ≡ ok f'
      → deletes_at pool f' ≡ deletes_at pool f
  unfolding set
  deletes-set p key value f h =
      let (c, stored, made) = both_ok (set_into (lookup text_discrete p f) key value) _ h in
      ground (
        arith,
        lookup-insert text_discrete p pool c f,
        deletes_in-set_into (lookup text_discrete p f) key value c made,
      )

  pub deletes-publish :
      (stream : Text) (event : Event) (f : Pipelines) {f' : Pipelines}
      → publish pools stream event f ≡ ok f'
      → deletes_at pool f' ≡ deletes_at pool f
  unfolding publish
  deletes-publish stream event f h = elim (Option-cases (lookup text_discrete stream pools)) [
    | inl e ↦ ground arith
    | inr (p, e) ↦ ground (
      arith,
      lookup-insert text_discrete p pool (publish_into (lookup text_discrete p f) stream event) f,
      deletes_in-publish_into (lookup text_discrete p f) stream event,
    )
  ]

  deletes-hset :
      (p key : Text) (values : List Text) (f : Pipelines)
      → deletes_at pool (hset p key values f) ≡ deletes_at pool f
  unfolding hset
  deletes-hset p key values f = ground (
    arith,
    lookup-insert text_discrete p pool (hset_into (lookup text_discrete p f) key values) f,
    deletes_in-hset_into (lookup text_discrete p f) key values,
  )

  deletes-call :
      (c : Call) (f f' : Pipelines)
      → call pools c f ≡ ok f'
      → deletes_at pool f' ≡ deletes_at pool f ++ keys_of pool c
  unfolding call
  deletes-call (call_del p keys) f f' h = ground (arith, deletes-del p keys f)
  deletes-call (call_set p key value) f f' h =
      deletes-set p key value f h ∙ sym (append-nil (deletes_at pool f))
  deletes-call (call_publish stream event) f f' h =
      deletes-publish stream event f h ∙ sym (append-nil (deletes_at pool f))
  deletes-call (call_hset p key values) f f' h =
      ground (arith, deletes-hset p key values f, append-nil (deletes_at pool f))

  -- However the calls are interleaved, if none panics, the keys that are recorded for deletion in a
  -- pool afterwards are those recorded before and then the keys of each `Del` of that pool, in
  -- order.
  pub deletes-calls :
      (cs : List Call) (f f' : Pipelines)
      → calls pools cs f ≡ ok f'
      → deletes_at pool f' ≡ deletes_at pool f ++ all_keys pool cs
  unfolding calls
  deletes-calls [] f f' h = ground (arith, append-nil (deletes_at pool f))
  deletes-calls (c ∷ cs) f f' h =
      let (g, rest, first) = both_ok (call pools c f) (calls pools cs) h in
      deletes-calls cs g f' rest
      ∙ ap (λ x. x ++ all_keys pool cs) (deletes-call c f g first)
      ∙ append_assoc (deletes_at pool f) (keys_of pool c) (all_keys pool cs)

-- A pool that the flusher has not seen yet.
abbrev pub IsNew : Text → Pipelines → Type 0
IsNew pool f = lookup text_discrete pool f ≡ none

-- `Set` on a pool whose first command was a `Del`, a `Publish` or an `HSet` panics, since that
-- command left the map `sets` nil; on a pool that has no command yet it does not panic.
pub set_after_other :
    (pools : Map Text Text) (pool key value stream : Text) (event : Event) (k : Text)
    (ks values : List Text) (f : Pipelines)
    → IsNew pool f
    → lookup text_discrete stream pools ≡ some pool
    → (set pool key value (del pool (k ∷ ks) f) ≡ panic nil_map)
      × ((publish pools stream event f >>= set pool key value) ≡ panic nil_map)
      × (set pool key value (hset pool k values f) ≡ panic nil_map)
      × ((g : Pipelines) × (set pool key value f ≡ ok g))
unfolding set del publish hset del_into publish_into hset_into set_into
set_after_other pools pool key value stream event k ks values f new at = (
  ground (arith, lookup-insert text_discrete pool pool (del_into none (k ∷ ks)) f),
  ground (arith, lookup-insert text_discrete pool pool (publish_into none stream event) f),
  ground (arith, lookup-insert text_discrete pool pool (hset_into none k values) f),
  (
    insert text_discrete pool
        (record (first_command command_set) { sets = some ((key, value) ∷ []) }) f,
    ground arith,
  ),
)
