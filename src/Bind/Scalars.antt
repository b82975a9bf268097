-- ===== src/Bind/Scalars.antt =====
-- bind_builder.go: the columns that hold numbers, flags and times, each as the body of the loop of its function.
use beeorm.Prelude.{
  ℕ, ◌==◌, Bool, true, false, ◌&&◌, ◌||◌, not, if◌then◌else◌, Option, none, some, ℤ, pos, negsuc,
  eqb_ℤ, Text, format_uint, Result, ok,
}
use beeorm.Serializer.{
  Reader, pure, ◌>>=◌, deserialize_uinteger, deserialize_integer, deserialize_bool,
  deserialize_float,
}
use beeorm.Orm.{Platform}
use beeorm.Orm.Cells.{zero_date_seconds, zero_time, loaded_seconds, deserialize_option}
use beeorm.Bind.{
  BindValue, bind_nil, bind_uint64, bind_int64, bind_bool, bind_float64, bind_string, Formats,
  Context, BindBuilder, null_sql, quote, format_int, format_bool, compare, set_bind, build_column,
}

abbrev pub eqb_bool : Bool → Bool → Bool
eqb_bool true b = b
eqb_bool false b = not b

-- The identifier of a reference, 0 for nil.
abbrev pub id_of : Option ℕ → ℕ
id_of none = 0
id_of (some id) = id

-- The tests of times for zero: also the zero date of MySQL.
unfoldable pub is_zero_time : ℤ → Bool
is_zero_time t = eqb_ℤ t zero_time || eqb_ℤ t (negsuc 30_610_223_999)

unfoldable pub old_seconds : ℤ → ℤ
unfolding loaded_seconds
old_seconds raw = if eqb_ℤ raw (pos zero_date_seconds) then pos 0 else loaded_seconds raw

unfoldable pub same_time : ℤ → ℤ → Bool → Bool
same_time old t is_zero = (eqb_ℤ old (pos 0) && is_zero) || eqb_ℤ old t

-- An old and a new value that may be nil.
unfoldable pub same_option : {A B : Type 0} → (A → B → Bool) → Option A → Option B → Bool
same_option same none none = true
same_option same none (some new) = false
same_option same (some old) none = false
same_option same (some old) (some new) = same old new

module _ (p : Platform) (f : Formats p) (c : Context) (name : Text) where
  abbrev pub option_value : {A : Type 0} → (A → BindValue p) → Option A → BindValue p
  option_value value none = bind_nil
  option_value value (some v) = value v

  abbrev pub option_sql : {A : Type 0} → (A → Text) → Option A → Text
  option_sql sql none = null_sql
  option_sql sql (some v) = sql v

  abbrev pub set_option :
      {A : Type 0}
      → (A → BindValue p)
      → (A → Text)
      → Option A
      → BindBuilder p
      → Result (BindBuilder p)
  set_option value sql v b = ok (set_bind p c name (option_value value v) (option_sql sql v) b)

  -- 0 is no reference.
  abbrev pub reference : ℕ → Option ℕ
  reference id = if id == 0 then none else some id

  unfoldable pub build_ref : Option ℕ → BindBuilder p → Reader (BindBuilder p)
  unfolding set_bind
  build_ref v =
      build_column p c
        (compare p c (deserialize_uinteger p.binary) (λ old. old == id_of v)
          (λ old. ok (some (option_value bind_uint64 (reference old)))) name)
        (set_option bind_uint64 format_uint (reference (id_of v)))

  -- The identifier of the entity is read also when it is new, and never compared.
  unfoldable pub skip_id : BindBuilder p → Reader (BindBuilder p)
  skip_id b = do old ← deserialize_uinteger p.binary; pure b

  unfoldable pub build_uinteger : ℕ → BindBuilder p → Reader (BindBuilder p)
  unfolding set_bind
  build_uinteger v =
      build_column p c
        (compare p c (deserialize_uinteger p.binary) (λ old. old == v)
          (λ old. ok (some (bind_uint64 old))) name)
        (λ b. ok (set_bind p c name (bind_uint64 v) (format_uint v) b))

  unfoldable pub build_integer : ℤ → BindBuilder p → Reader (BindBuilder p)
  unfolding set_bind format_int
  build_integer v =
      build_column p c
        (compare p c (deserialize_integer p.binary) (λ old. eqb_ℤ old v)
          (λ old. ok (some (bind_int64 old))) name)
        (λ b. ok (set_bind p c name (bind_int64 v) (format_int v) b))

  unfoldable pub build_boolean : Bool → BindBuilder p → Reader (BindBuilder p)
  unfolding set_bind format_bool
  build_boolean v =
      build_column p c
        (compare p c deserialize_bool (λ old. eqb_bool old v) (λ old. ok (some (bind_bool old)))
          name)
        (λ b. ok (set_bind p c name (bind_bool v) (format_bool v) b))

  unfoldable pub build_float : ℕ → p.binary.Float → BindBuilder p → Reader (BindBuilder p)
  unfolding set_bind
  build_float precision v =
      build_column p c
        (compare p c (deserialize_float p.binary) (λ old. p.is_close precision v old)
          (λ old. ok (some (bind_float64 old))) name)
        (λ b. ok (set_bind p c name (bind_float64 v) (f.format_float v) b))

  unfoldable pub build_time : ℤ → BindBuilder p → Reader (BindBuilder p)
  unfolding set_bind is_zero_time old_seconds same_time
  build_time t =
      build_column p c
        (compare p c (deserialize_integer p.binary)
          (λ old. same_time (old_seconds old) t (is_zero_time t))
          (λ old. ok (some (bind_string (f.format_time (old_seconds old))))) name)
        (λ b. ok (set_bind p c name (bind_string (f.format_time t)) (quote (f.format_time t)) b))

  -- Midnight of the new value is compared and bound, but the value itself is tested for zero.
  unfoldable pub build_date : ℤ → BindBuilder p → Reader (BindBuilder p)
  unfolding set_bind is_zero_time old_seconds same_time
  build_date v =
      let t = p.midnight v in
      build_column p c
        (compare p c (deserialize_integer p.binary)
          (λ old. same_time (old_seconds old) t (is_zero_time v))
          (λ old. ok (some (bind_string (f.format_date (old_seconds old))))) name)
        (λ b. ok (set_bind p c name (bind_string (f.format_date t)) (quote (f.format_date t)) b))

  abbrev pub fake_id : Bool → ℕ
  fake_id deleted = if deleted then c.id else 0

  -- The new value that is noted as the current one first is overwritten by the old one.
  unfoldable pub build_fake_delete : Bool → BindBuilder p → Reader (BindBuilder p)
  unfolding set_bind
  build_fake_delete v =
      build_column p c
        (compare p c deserialize_bool (λ old. eqb_bool old v)
          (λ old. ok (some (bind_uint64 (fake_id old)))) name)
        (λ b. ok (set_bind p c name (bind_uint64 (fake_id v)) (format_uint (fake_id v)) b))

  unfoldable pub build_uinteger_nullable : Option ℕ → BindBuilder p → Reader (BindBuilder p)
  unfolding set_bind same_option
  build_uinteger_nullable v =
      build_column p c
        (compare p c (deserialize_option (deserialize_uinteger p.binary))
          (λ old. same_option (λ x y. x == y) old v)
          (λ old. ok (some (option_value bind_uint64 old))) name)
        (set_option bind_uint64 format_uint v)

  unfoldable pub build_integer_nullable : Option ℤ → BindBuilder p → Reader (BindBuilder p)
  unfolding set_bind same_option format_int
  build_integer_nullable v =
      build_column p c
        (compare p c (deserialize_option (deserialize_integer p.binary))
          (λ old. same_option eqb_ℤ old v) (λ old. ok (some (option_value bind_int64 old))) name)
        (set_option bind_int64 format_int v)

  unfoldable pub build_boolean_nullable : Option Bool → BindBuilder p → Reader (BindBuilder p)
  unfolding set_bind same_option format_bool
  build_boolean_nullable v =
      build_column p c
        (compare p c (deserialize_option deserialize_bool) (λ old. same_option eqb_bool old v)
          (λ old. ok (some (option_value bind_bool old))) name)
        (set_option bind_bool format_bool v)

  unfoldable pub build_float_nullable :
      ℕ → Option p.binary.Float → BindBuilder p → Reader (BindBuilder p)
  unfolding set_bind same_option
  build_float_nullable precision v =
      build_column p c
        (compare p c (deserialize_option (deserialize_float p.binary))
          (λ old. same_option (λ x y. p.is_close precision y x) old v)
          (λ old. ok (some (option_value bind_float64 old))) name)
        (set_option bind_float64 f.format_float v)

  -- The old seconds, from those since the year 0.
  abbrev pub read_seconds : Reader ℤ
  read_seconds = deserialize_integer p.binary >>= λ raw. pure (loaded_seconds raw)

  unfoldable pub build_time_nullable : Option ℤ → BindBuilder p → Reader (BindBuilder p)
  unfolding set_bind same_option loaded_seconds
  build_time_nullable v =
      build_column p c
        (compare p c (deserialize_option read_seconds) (λ old. same_option eqb_ℤ old v)
          (λ old. ok (some (option_value (λ t. bind_string (f.format_time t)) old))) name)
        (set_option (λ t. bind_string (f.format_time t)) (λ t. quote (f.format_time t)) v)

  abbrev pub midnight_option : Option ℤ → Option ℤ
  midnight_option none = none
  midnight_option (some t) = some (p.midnight t)

  unfoldable pub build_date_nullable : Option ℤ → BindBuilder p → Reader (BindBuilder p)
  unfolding set_bind same_option loaded_seconds
  build_date_nullable v =
      build_column p c
        (compare p c (deserialize_option read_seconds)
          (λ old. same_option eqb_ℤ old (midnight_option v))
          (λ old. ok (some (option_value (λ t. bind_string (f.format_date t)) old))) name)
        (set_option (λ t. bind_string (f.format_date t)) (λ t. quote (f.format_date t))
          (midnight_option v))
