-- ===== src/RedisFlusher.antt =====
-- redis_flusher.go: the Redis commands of one flush, collected by pool and sent together.
pub mod Wire
pub mod Order
pub mod Record
pub mod Events
use mathlib.Core.List.{flat_map}
use beeorm.Prelude.{
  ℕ, Bool, true, false, ◌||◌, Option, none, some, List, [], ◌∷◌, ◌++◌, map, length, ltb, leb, ◌==◌,
  if◌then◌else◌, Map, lookup, insert, Text, text_discrete, ℕ_discrete, Result, ok, panic, nil_map,
  unregistered_stream, ◌>>=◌,
}

abbrev pub Event : Type 0
Event = List Text

abbrev pub command_delete : ℕ
command_delete = 0

abbrev pub command_xadd : ℕ
command_xadd = 1

abbrev pub command_hset : ℕ
command_hset = 2

abbrev pub command_set : ℕ
command_set = 3

-- A nil slice or map is `none`.
pub record RedisFlusherCommands : Type 0 where
  pub diffs : Map ℕ Bool
  pub use_pool : Bool
  pub deletes : Option (List Text)
  pub hsets : Option (Map Text (List Text))
  pub sets : Option (Map Text Text)
  pub events : Option (Map Text (List Event))

abbrev pub Pipelines : Type 0
Pipelines = Map Text RedisFlusherCommands

-- The zero value with the first kind of command noted.
abbrev pub first_command : ℕ → RedisFlusherCommands
first_command kind = record {
  diffs = (kind, true) ∷ [];
  use_pool = false;
  deletes = none;
  hsets = none;
  sets = none;
  events = none;
}

abbrev note : ℕ → RedisFlusherCommands → RedisFlusherCommands
note kind c = record c { diffs = insert ℕ_discrete kind true c.diffs }

-- `append(slice, values...)` on a slice that may be nil.
abbrev pub append_to {ℓ} : {A : Type ℓ} → Option (List A) → List A → List A
append_to none ys = ys
append_to (some xs) ys = xs ++ ys

unfoldable pub del_into : Option RedisFlusherCommands → List Text → RedisFlusherCommands
del_into none keys = record (first_command command_delete) { deletes = some keys }
del_into (some c) keys = record (note command_delete c) {
  deletes = some (append_to c.deletes keys);
}

unfoldable pub del : Text → List Text → Pipelines → Pipelines
del pool [] f = f
del pool (k ∷ ks) f = insert text_discrete pool (del_into (lookup text_discrete pool f) (k ∷ ks)) f

-- `commands.sets[key] = value` panics where an earlier command of the pool left `sets` nil.
unfoldable pub set_into : Option RedisFlusherCommands → Text → Text → Result RedisFlusherCommands
set_into none key value =
    ok (record (first_command command_set) { sets = some ((key, value) ∷ []) })
set_into (some c) key value = elim c.sets [
  | none ↦ panic nil_map
  | some m ↦ ok (record (note command_set c) { sets = some (insert text_discrete key value m) })
]

unfoldable pub set : Text → Text → Text → Pipelines → Result Pipelines
set pool key value f = do
  c ← set_into (lookup text_discrete pool f) key value
  ok (insert text_discrete pool c f)

unfoldable pub publish_into : Option RedisFlusherCommands → Text → Event → RedisFlusherCommands
publish_into none stream event = record (first_command command_xadd) {
  events = some ((stream, event ∷ []) ∷ []);
}
publish_into (some c) stream event = elim c.events [
  | none ↦ record (note command_xadd c) { events = some ((stream, event ∷ []) ∷ []) }
  | some m ↦ elim (lookup text_discrete stream m) [
    | none ↦ record (note command_xadd c) {
      events = some (insert text_discrete stream (event ∷ []) m);
    }
    | some old ↦ record (note command_xadd c) {
      events = some (insert text_discrete stream (old ++ event ∷ []) m);
      use_pool = true;
    }
  ]
]

-- `event` is the result of `createEventSlice`, `pools` the registry's `redisStreamPools`.
unfoldable pub publish : Map Text Text → Text → Event → Pipelines → Result Pipelines
publish pools stream event f = elim (lookup text_discrete stream pools) [
  | none ↦ panic unregistered_stream
  | some pool ↦
      ok (insert text_discrete pool (publish_into (lookup text_discrete pool f) stream event) f)
]

unfoldable pub hset_into : Option RedisFlusherCommands → Text → List Text → RedisFlusherCommands
hset_into none key values = record (first_command command_hset) {
  hsets = some ((key, values) ∷ []);
}
hset_into (some c) key values = elim c.hsets [
  | none ↦ record (note command_hset c) { hsets = some ((key, values) ∷ []) }
  | some m ↦ record (note command_hset c) {
    hsets = some (insert text_discrete key (append_to (lookup text_discrete key m) values) m);
  }
]

unfoldable pub hset : Text → Text → List Text → Pipelines → Pipelines
hset pool key values f =
    insert text_discrete pool (hset_into (lookup text_discrete pool f) key values) f

-- What goes over the wire: one command, or a pipeline of commands.
pub data Command : Type 0 where
  cmd_del : List Text → Command
  cmd_hset : Text → List Text → Command
  cmd_xadd : Text → Event → Command
  cmd_set : Text → Text → Command

pub data Request : Type 0 where
  single : Text → Command → Request
  pipeline : Text → List Command → Request

-- `range` over a map that may be nil, and its `len`.
abbrev pub range {ℓ κ} : {K : Type ℓ} {V : Type κ} → Option (List (K × V)) → List (K × V)
range none = []
range (some m) = m

module _ (c : RedisFlusherCommands) where
  pub del_commands : List Command
  del_commands = elim c.deletes [ none ↦ [] | some keys ↦ cmd_del keys ∷ [] ]

  pub hset_commands : List Command
  hset_commands = map (λ e. cmd_hset e.0 e.1) (range c.hsets)

  pub xadd_commands : List Command
  xadd_commands = flat_map (λ e. map (cmd_xadd e.0) e.1) (range c.events)

  pub set_commands : List Command
  set_commands = map (λ e. cmd_set e.0 e.1) (range c.sets)

abbrev is_nil {ℓ} : {A : Type ℓ} → List A → Bool
is_nil [] = true
is_nil (x ∷ xs) = false

-- The branch for at most one pool.
flush_only : Text → RedisFlusherCommands → List Request
unfolding del_commands hset_commands xadd_commands set_commands
flush_only pool c =
    let pooled =
      c.use_pool
      || ltb 1 (length c.diffs)
      || ltb 1 (length (range c.events))
      || ltb 1 (length (range c.hsets))
      || ltb 1 (length (range c.sets)) in
    let commands = del_commands c ++ (hset_commands c ++ (xadd_commands c ++ set_commands c)) in
    if pooled then pipeline pool commands ∷ [] else map (single pool) commands

-- The first loop for several pools: everything but the events. `has` is that a command was added.
flush_writes : Text → RedisFlusherCommands → List Request
unfolding del_commands hset_commands set_commands
flush_writes pool c =
    let pooled =
      c.use_pool
      || ltb 1 (length c.diffs)
      || ltb 1 (length (range c.hsets))
      || ltb 1 (length (range c.sets)) in
    let commands = del_commands c ++ (hset_commands c ++ set_commands c) in
    if pooled
    then (if is_nil commands then [] else pipeline pool commands ∷ [])
    else map (single pool) commands

-- The second loop for several pools.
flush_events : Text → RedisFlusherCommands → List Request
unfolding xadd_commands
flush_events pool c =
    if length (range c.events) == 0
    then []
    else if ltb 1 (length (range c.events))
    then pipeline pool (xadd_commands c) ∷ []
    else map (single pool) (xadd_commands c)

-- The requests in the order in which they are sent, and the flusher's `pipelines` afterwards.
unfoldable pub flush : Pipelines → List Request × Pipelines
unfolding flush_only flush_writes flush_events
flush f = (
  if leb (length f) 1
      then flat_map (λ e. flush_only e.0 e.1) f
      else flat_map (λ e. flush_writes e.0 e.1) f ++ flat_map (λ e. flush_events e.0 e.1) f,
  [],
)
