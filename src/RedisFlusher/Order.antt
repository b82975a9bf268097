-- ===== src/RedisFlusher/Order.antt =====
-- `Flush` of redis_flusher.go: the order in which commands reach Redis.
use mathlib.Core.List.{flat_map, flatten, map-append}
use beeorm.Prelude.{
  ◌<◌, Bool-cases, inl, inr, List, [], ◌∷◌, ◌++◌, map, length, leb, All, All-append, Option, none,
  some, Text, arith,
}
use beeorm.RedisFlusher.{
  RedisFlusherCommands, Event, Pipelines, cmd_xadd, cmd_del, cmd_hset, cmd_set, range,
  hset_commands, del_commands, set_commands, xadd_commands, flush,
}
use beeorm.RedisFlusher.Wire.{
  Sent, tagged, wire, writes, writes_all, events_all, IsEvent, EventsLast, wire-flush,
}

abbrev IsWrite : Sent → Type 0
IsWrite x = ¬ (IsEvent x)

module _ (pool : Text) where
  xadds-IsEvent :
      (stream : Text) (es : List Event) → All IsEvent (tagged pool (map (cmd_xadd stream) es))
  xadds-IsEvent stream [] = tt
  xadds-IsEvent stream (e ∷ es) = (tt, xadds-IsEvent stream es)

  events-IsEvent :
      (m : List (Text × List Event))
      → All IsEvent (tagged pool (flat_map (λ e. map (cmd_xadd e.0) e.1) m))
  unfolding flat_map flatten
  events-IsEvent [] = tt
  events-IsEvent ((stream, es) ∷ m) = rw map-append (
      All-append IsEvent (tagged pool (map (cmd_xadd stream) es)) _ (xadds-IsEvent stream es)
        (events-IsEvent m))

  hsets-IsWrite :
      (m : List (Text × List Text)) → All IsWrite (tagged pool (map (λ e. cmd_hset e.0 e.1) m))
  hsets-IsWrite [] = tt
  hsets-IsWrite (e ∷ m) = (λ h. h, hsets-IsWrite m)

  sets-IsWrite : (m : List (Text × Text)) → All IsWrite (tagged pool (map (λ e. cmd_set e.0 e.1) m))
  sets-IsWrite [] = tt
  sets-IsWrite (e ∷ m) = (λ h. h, sets-IsWrite m)

  dels-IsWrite :
      (o : Option (List Text))
      → All IsWrite (tagged pool (elim o [ none ↦ [] | some keys ↦ cmd_del keys ∷ [] ]))
  dels-IsWrite none = tt
  dels-IsWrite (some keys) = (λ h. h, tt)

  writes-IsWrite : (c : RedisFlusherCommands) → All IsWrite (tagged pool (writes c))
  unfolding del_commands hset_commands set_commands
  writes-IsWrite c =
      rw (map-append, map-append)
        (All-append IsWrite (tagged pool (del_commands c)) _ (dels-IsWrite c.deletes) (
          All-append IsWrite (tagged pool (hset_commands c)) _ (hsets-IsWrite (range c.hsets))
            (sets-IsWrite (range c.sets))))

writes_all-IsWrite : (f : Pipelines) → All IsWrite (writes_all f)
writes_all-IsWrite [] = tt
writes_all-IsWrite ((pool, c) ∷ f) =
    All-append IsWrite (tagged pool (writes c)) (writes_all f) (writes-IsWrite pool c)
      (writes_all-IsWrite f)

events_all-IsEvent : (f : Pipelines) → All IsEvent (events_all f)
unfolding xadd_commands
events_all-IsEvent [] = tt
events_all-IsEvent ((pool, c) ∷ f) =
    All-append IsEvent (tagged pool (xadd_commands c)) (events_all f)
      (events-IsEvent pool (range c.events)) (events_all-IsEvent f)

EventsLast-events : (es : List Sent) → All IsEvent es → EventsLast es
EventsLast-events [] h = tt
EventsLast-events (e ∷ es) h = (λ _. h.1, EventsLast-events es h.1)

EventsLast-append : (ws es : List Sent) → All IsWrite ws → All IsEvent es → EventsLast (ws ++ es)
EventsLast-append [] es hw he = EventsLast-events es he
EventsLast-append (w ∷ ws) es hw he = (λ ev. absurd (hw.0 ev), EventsLast-append ws es hw.1 he)

-- When commands of two or more pools are flushed, Redis gets every delete, hash set and set, of
-- whichever pool, before the first event is added to a stream of any pool.
pub flush-EventsLast : (f : Pipelines) → 1 < length f → EventsLast (wire (flush f).0)
flush-EventsLast f h = rw wire-flush (elim (Bool-cases (leb (length f) 1)) [
  | inl one ↦ absurd (ground arith)
  | inr many ↦ rw many (
      EventsLast-append (writes_all f) (events_all f) (writes_all-IsWrite f) (events_all-IsEvent f))
])
