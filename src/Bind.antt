-- ===== src/Bind.antt =====
-- bind_builder.go: the builder and what the functions for the kinds of columns share.
pub mod Escape
pub mod Scalars
pub mod Strings
pub mod Build
pub mod Compare
pub mod Aligned
pub mod Cells
pub mod Dirty
pub mod Bound
pub mod Changes
pub mod Outcome
pub mod Same
pub mod Clean
pub mod Fresh
use beeorm.Prelude.{
  ℕ, Bool, true, false, if◌then◌else◌, Option, none, some, List, [], ◌∷◌, ◌++◌, ℤ, pos, negsuc,
  Text, codes, Map, insert, text_discrete, format_uint, Result, panic, ok, suc,
}
use beeorm.Serializer.{Reader, pure, ◌>>=◌}
use beeorm.Orm.{Platform}
use beeorm.Orm.Cells.{lift}

-- A value of `Bind` in the Go types that the builder puts there.
pub data BindValue (p : Platform) : Type 0 where
  bind_nil : BindValue p
  bind_uint64 : ℕ → BindValue p
  bind_int64 : ℤ → BindValue p
  bind_bool : Bool → BindValue p
  bind_float64 : p.binary.Float → BindValue p
  bind_string : Text → BindValue p

-- What the builder uses of Go's libraries: the texts of floats and of times in the time zone of the
-- process, and JSON.
pub record Formats (p : Platform) : Type 0 where
  pub format_float : p.binary.Float → Text
  pub format_time : ℤ → Text
  pub format_date : ℤ → Text
  -- the JSON of nil, of a value and of a list of identifiers
  pub marshal_nil : Text
  pub marshal_ids : List ℕ → Text
  -- cmp.Equal of what the two texts hold
  pub equal_json : Text → Text → Bool

-- What the builder knows of the entity and its table: `columnNames` gives a name to each column
-- index, and `is_required` is the tag `required` of the column.
pub record Context : Type 0 where
  pub id : ℕ
  pub in_db : Bool
  pub has_current : Bool
  pub build_sql : Bool
  pub column_names : ℕ → Text
  pub is_required : Text → Bool

-- The maps of the builder. A map that is nil is never written.
pub record BindBuilder (p : Platform) : Type 0 where
  pub bind : Map Text (BindValue p)
  pub current : Map Text (BindValue p)
  pub sql_bind : Map Text Text

abbrev pub null_sql : Text
null_sql = codes "NULL"

abbrev pub quote : Text → Text
quote t = b'\'' ∷ (t ++ (b'\'' ∷ []))

-- strconv.FormatInt
unfoldable pub format_int : ℤ → Text
unfolding format_uint
format_int (pos n) = format_uint n
format_int (negsuc n) = b'-' ∷ format_uint (suc n)

unfoldable pub format_bool : Bool → Text
format_bool true = codes "1"
format_bool false = codes "0"

-- Whether a field still has its old value, and the current values after it.
pub record Compared (p : Platform) : Type 0 where
  pub same : Bool
  pub current : Map Text (BindValue p)

module _ (p : Platform) (c : Context) where
  unfoldable pub note_current :
      Text
      → Result (Option (BindValue p))
      → Map Text (BindValue p)
      → Result (Map Text (BindValue p))
  unfolding insert
  note_current name shown current =
      if c.has_current
      then elim shown [
        | panic e ↦ panic e
        | ok none ↦ ok current
        | ok (some v) ↦ ok (insert text_discrete name v current)
      ]
      else ok current

  unfoldable pub compared :
      Bool → Text → Result (Option (BindValue p)) → Map Text (BindValue p) → Result (Compared p)
  unfolding note_current
  compared same name shown current = elim (note_current name shown current) [
    | panic e ↦ panic e
    | ok noted ↦ ok (record { same = same; current = noted })
  ]

  -- The old value is read and noted as the current one, unless `hasCurrent` is false.
  unfoldable pub compare :
      {A : Type 0}
      → Reader A
      → (A → Bool)
      → (A → Result (Option (BindValue p)))
      → Text
      → Map Text (BindValue p)
      → Reader (Compared p)
  unfolding compared
  compare read same shown name current = do
    old ← read
    lift (compared (same old) name (shown old) current)

  unfoldable pub set_bind : Text → BindValue p → Text → BindBuilder p → BindBuilder p
  unfolding insert
  set_bind name value sql b = record b {
    bind = insert text_discrete name value b.bind;
    sql_bind = if c.build_sql then insert text_discrete name sql b.sql_bind else b.sql_bind;
  }

  -- A value that is nil: "" where the column is required.
  unfoldable pub set_empty : Text → Text → BindBuilder p → BindBuilder p
  unfolding set_bind
  set_empty name sql b =
      if c.is_required name
      then set_bind name (bind_string []) sql b
      else set_bind name bind_nil null_sql b

  abbrev pub empty_current : Text → BindValue p
  empty_current name = if c.is_required name then bind_string [] else bind_nil

  unfoldable pub finish :
      (BindBuilder p → Result (BindBuilder p)) → BindBuilder p → Compared p → Result (BindBuilder p)
  finish add b k =
      let next : BindBuilder p = record b { current = k.current } in
      if k.same then ok next else add next

  -- An entity that is not in MySQL yet has nothing to read, and all its fields are bound.
  unfoldable pub build_column :
      (Map Text (BindValue p) → Reader (Compared p))
      → (BindBuilder p → Result (BindBuilder p))
      → BindBuilder p
      → Reader (BindBuilder p)
  unfolding finish
  build_column old add b =
      if c.in_db then (old b.current >>= λ k. lift (finish add b k)) else lift (add b)
