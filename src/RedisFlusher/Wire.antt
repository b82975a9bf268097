-- ===== src/RedisFlusher/Wire.antt =====
-- `Flush` of redis_flusher.go: what reaches Redis, however the commands are batched.
use mathlib.Core.List.Perm
use mathlib.Core.List.{flat_map, flatten, Perm, perm_append_comm, map-append}
use beeorm.Prelude.{
  ◌≡◌, refl, sym, ap, ◌∙◌, List, [], ◌∷◌, ◌++◌, map, append-nil, append_assoc, length, leb,
  if◌then◌else◌, All, Text, arith, Bool-cases, inl, inr,
}
use beeorm.RedisFlusher.{
  RedisFlusherCommands, Event, Pipelines, Command, Request, cmd_xadd, single, pipeline, range,
  del_commands, hset_commands, xadd_commands, set_commands, flush_only, flush_writes, flush_events,
  flush,
}

-- A command with the pool that it goes to.
abbrev pub Sent : Type 0
Sent = Text × Command

abbrev pub tagged : Text → List Command → List Sent
tagged pool = map (λ c. (pool, c))

abbrev pub sent : Request → List Sent
sent (single pool c) = (pool, c) ∷ []
sent (pipeline pool cs) = tagged pool cs

-- The commands of the requests, in the order in which Redis gets them.
abbrev pub wire : List Request → List Sent
wire [] = []
wire (r ∷ rs) = sent r ++ wire rs

-- All commands that are recorded for a pool.
abbrev pub recorded : RedisFlusherCommands → List Command
recorded c = del_commands c ++ (hset_commands c ++ (xadd_commands c ++ set_commands c))

abbrev pub recorded_all : Pipelines → List Sent
recorded_all [] = []
recorded_all ((pool, c) ∷ f) = tagged pool (recorded c) ++ recorded_all f

abbrev pub writes : RedisFlusherCommands → List Command
writes c = del_commands c ++ (hset_commands c ++ set_commands c)

abbrev pub writes_all : Pipelines → List Sent
writes_all [] = []
writes_all ((pool, c) ∷ f) = tagged pool (writes c) ++ writes_all f

abbrev pub events_all : Pipelines → List Sent
events_all [] = []
events_all ((pool, c) ∷ f) = tagged pool (xadd_commands c) ++ events_all f

wire-append : (rs qs : List Request) → wire (rs ++ qs) ≡ wire rs ++ wire qs
wire-append [] qs = refl
wire-append (r ∷ rs) qs =
    ap (λ x. sent r ++ x) (wire-append rs qs) ∙ sym (append_assoc (sent r) (wire rs) (wire qs))

wire-singles : (pool : Text) (cs : List Command) → wire (map (single pool) cs) ≡ tagged pool cs
wire-singles pool [] = refl
wire-singles pool (c ∷ cs) = ap (λ x. (pool, c) ∷ x) (wire-singles pool cs)

wire-flush_only :
    (pool : Text) (c : RedisFlusherCommands) → wire (flush_only pool c) ≡ tagged pool (recorded c)
unfolding flush_only
wire-flush_only pool c =
    ground (arith, wire-singles pool (recorded c), append-nil (tagged pool (recorded c)))

wire-flush_writes :
    (pool : Text) (c : RedisFlusherCommands) → wire (flush_writes pool c) ≡ tagged pool (writes c)
unfolding flush_writes
wire-flush_writes pool c =
    ground (arith, wire-singles pool (writes c), append-nil (tagged pool (writes c)))

no_xadds :
    (c : RedisFlusherCommands) (m : List (Text × List Event))
    → length m ≡ 0
    → flat_map (λ e. map (cmd_xadd e.0) e.1) m ≡ []
unfolding flat_map flatten
no_xadds c [] h = refl
no_xadds c (e ∷ m) h = absurd (omega arith)

wire-flush_events :
    (pool : Text) (c : RedisFlusherCommands)
    → wire (flush_events pool c) ≡ tagged pool (xadd_commands c)
unfolding flush_events
wire-flush_events pool c = ground (
  arith,
  no_xadds c (range c.events),
  wire-singles pool (xadd_commands c),
  append-nil (tagged pool (xadd_commands c)),
)

wire-onlys : (f : Pipelines) → wire (flat_map (λ e. flush_only e.0 e.1) f) ≡ recorded_all f
unfolding flat_map flatten
wire-onlys [] = refl
wire-onlys ((pool, c) ∷ f) = rw (wire-append, wire-flush_only, wire-onlys f)

wire-writes : (f : Pipelines) → wire (flat_map (λ e. flush_writes e.0 e.1) f) ≡ writes_all f
unfolding flat_map flatten
wire-writes [] = refl
wire-writes ((pool, c) ∷ f) = rw (wire-append, wire-flush_writes, wire-writes f)

wire-events : (f : Pipelines) → wire (flat_map (λ e. flush_events e.0 e.1) f) ≡ events_all f
unfolding flat_map flatten
wire-events [] = refl
wire-events ((pool, c) ∷ f) = rw (wire-append, wire-flush_events, wire-events f)

-- With at most one pool the commands of the pool are sent as they are recorded: deletes, hash sets,
-- events, sets. With several pools the deletes and sets of every pool are sent before the events of
-- any pool.
pub wire-flush :
    (f : Pipelines)
    → wire (flush f).0 ≡ (if leb (length f) 1 then recorded_all f else writes_all f ++ events_all f)
unfolding flush
wire-flush f = elim (Bool-cases (leb (length f) 1)) [
  | inl one ↦ rw one (wire-onlys f)
  | inr many ↦ rw (many, wire-append, wire-writes, wire-events)
]

-- (a ++ b) ++ (c ++ d) has the elements of (a ++ c) ++ (b ++ d).
interchange {ℓ} :
    {A : Type ℓ} (a b c d : List A) → Perm ((a ++ b) ++ (c ++ d)) ((a ++ c) ++ (b ++ d))
interchange a b c d =
    rw (append_assoc a b (c ++ d), append_assoc a c (b ++ d), ← append_assoc b c d)
      (rw (← append_assoc c b d) (Perm.append_left a (Perm.append_right d (perm_append_comm b c))))

recorded-perm : (c : RedisFlusherCommands) → Perm (writes c ++ xadd_commands c) (recorded c)
recorded-perm c =
    rw
      (
        append_assoc (del_commands c) (hset_commands c ++ set_commands c) (xadd_commands c),
        append_assoc (hset_commands c) (set_commands c) (xadd_commands c),
      )
      (Perm.append_left (del_commands c)
        (Perm.append_left (hset_commands c) (perm_append_comm (set_commands c) (xadd_commands c))))

tagged-perm :
    (pool : Text) (c : RedisFlusherCommands)
    → Perm (tagged pool (writes c) ++ tagged pool (xadd_commands c)) (tagged pool (recorded c))
tagged-perm pool c = rw (← map-append) (Perm.map (λ x. (pool, x)) (recorded-perm c))

several-perm : (f : Pipelines) → Perm (writes_all f ++ events_all f) (recorded_all f)
several-perm [] = Perm.refl []
several-perm ((pool, c) ∷ f) =
    Perm.trans
      (interchange (tagged pool (writes c)) (writes_all f) (tagged pool (xadd_commands c))
        (events_all f))
      (Perm.append (tagged-perm pool c) (several-perm f))

-- `Flush` sends every recorded command to its pool exactly once and nothing else, whether it uses
-- pipelines or single requests, and leaves no pipelines behind.
pub flush-perm : (f : Pipelines) → Perm (wire (flush f).0) (recorded_all f) × ((flush f).1 ≡ [])
flush-perm f = (
  rw wire-flush (elim (Bool-cases (leb (length f) 1)) [
    | inl one ↦ rw one (Perm.refl (recorded_all f))
    | inr many ↦ rw many (several-perm f)
  ]),
  (unfold flush in refl),
)

abbrev pub IsEvent : Sent → Type 0
IsEvent (pool, cmd_xadd stream event) = Unit
IsEvent (pool, c) = ⊥

-- No command that is not an event follows an event.
abbrev pub EventsLast : List Sent → Type 0
EventsLast [] = Unit
EventsLast (x ∷ xs) = (IsEvent x → All IsEvent xs) × EventsLast xs
