-- ===== src/Bind/Bound.antt =====
-- A new value that is bound.
use beeorm.Prelude.{
  lookup, lookup-insert, ite, if_pos, ◌⊎◌, ◌≡◌, refl, ◌∙◌, Bool, true, false, Bool-cases, inl, inr,
  if◌then◌else◌, Option, none, some, [], ◌∷◌, Text, Map, insert, text_discrete, Result, ok, arith,
}
use beeorm.Enum.{Enum, has}
use beeorm.Orm.{
  Platform, Kind, ref, uinteger, integer, boolean, float, time, date, fake_delete, string,
  uinteger_nullable, integer_nullable, string_enum, bytes, string_set, boolean_nullable,
  float_nullable, time_nullable, date_nullable, json, refs_many, Value,
}
use beeorm.Bind.{BindValue, Formats, Context, BindBuilder, set_bind, set_empty}
use beeorm.Bind.Strings.{is_empty, new_ids}
use beeorm.Bind.Compare.{add}

is_empty-insert :
    {A : Type 0} (k : Text) (v : A) (m : Map Text A) → is_empty (insert text_discrete k v m) ≡ false
unfolding is_empty insert
is_empty-insert k v [] = refl
is_empty-insert k v ((j, w) ∷ m) = ground arith

ite-some :
    {A P : Type 0} (d : Dec P) (v : A) {o : Option A}
    → ((w : A) × (o ≡ some w))
    → (w : A) × (ite d (some v) o ≡ some w)
ite-some (yes e) v h = (v, refl)
ite-some (no n) v h = h

module _ (p : Platform) where
  -- The bind has a value under the name.
  abbrev pub HasName : Text → BindBuilder p → Type 0
  HasName name b = (v : BindValue p) × (lookup text_discrete name b.bind ≡ some v)

  -- The second builder binds the name, and all names of the first one.
  pub record Binds (name : Text) (b b' : BindBuilder p) : Type 0 where
    pub binds : HasName name b'
    pub keeps : (j : Text) → HasName j b → HasName j b'

module _ (p : Platform) (f : Formats p) (c : Context) where
  -- A new value of an enum is one of its names, or empty where the column is not
  -- required or the entity is new.
  unfoldable pub IsValid : Text → (k : Kind) → Value p k → Type 0
  unfolding has
  IsValid name ref v = Unit
  IsValid name (uinteger size) v = Unit
  IsValid name (integer size) v = Unit
  IsValid name boolean v = Unit
  IsValid name (float precision is_single) v = Unit
  IsValid name time v = Unit
  IsValid name date v = Unit
  IsValid name fake_delete v = Unit
  IsValid name string v = Unit
  IsValid name (uinteger_nullable size) v = Unit
  IsValid name (integer_nullable size) v = Unit
  IsValid name (string_enum e) [] = (c.is_required name ≡ false) ⊎ (c.in_db ≡ false)
  IsValid name (string_enum e) (x ∷ xs) = has e (x ∷ xs) ≡ true
  IsValid name bytes v = Unit
  IsValid name (string_set e) v = Unit
  IsValid name boolean_nullable v = Unit
  IsValid name (float_nullable precision is_single) v = Unit
  IsValid name time_nullable v = Unit
  IsValid name date_nullable v = Unit
  IsValid name json v = Unit
  IsValid name refs_many v = Unit

  -- The new value is bound.
  abbrev pub Bound : Text → BindBuilder p → Result (BindBuilder p) → Type 0
  Bound name b result =
      (b' : BindBuilder p) × (result ≡ ok b') × (is_empty b'.bind ≡ false) × Binds p name b b'

  insert-HasName :
      (name j : Text) (v : BindValue p) (m : Map Text (BindValue p))
      → ((w : BindValue p) × (lookup text_discrete j m ≡ some w))
      → (w : BindValue p) × (lookup text_discrete j (insert text_discrete name v m) ≡ some w)
  insert-HasName name j v m h =
      rw (lookup-insert text_discrete name j v m) (ite-some (text_discrete name j) v h)

  insert-Binds :
      (name : Text) (v : BindValue p) (sql : Text) (b : BindBuilder p)
      → Binds p name b (set_bind p c name v sql b)
  unfolding set_bind
  insert-Binds name v sql b = record {
    binds = (
      v,
      lookup-insert text_discrete name name v b.bind ∙ if_pos (text_discrete name name) refl _ _,
    );
    keeps = λ j h. insert-HasName name j v b.bind h;
  }

  set_bind-Bound :
      (name : Text) (v : BindValue p) (sql : Text) (b : BindBuilder p)
      → Bound name b (ok (set_bind p c name v sql b))
  unfolding set_bind
  set_bind-Bound name v sql b =
      (set_bind p c name v sql b, refl, is_empty-insert name v b.bind, insert-Binds name v sql b)

  set_empty-Bound :
      (name sql : Text) (b : BindBuilder p) → Bound name b (ok (set_empty p c name sql b))
  unfolding set_empty
  set_empty-Bound name sql b = elim (Bool-cases (c.is_required name)) [
    | inl required ↦ rw required (set_bind-Bound name _ _ b)
    | inr optional ↦ rw optional (set_bind-Bound name _ _ b)
  ]

  either-Bound :
      {name : Text} {b : BindBuilder p} (t : Bool) (x y : BindBuilder p)
      → Bound name b (ok x)
      → Bound name b (ok y)
      → Bound name b (ok (if t then x else y))
  either-Bound true x y h h' = h
  either-Bound false x y h h' = h'

  enum-Bound :
      (name : Text) (e : Enum) (v : Text) (b : BindBuilder p)
      → IsValid name (string_enum e) v
      → Bound name b (add p f c name (string_enum e) v b)
  unfolding add IsValid is_empty
  enum-Bound name e [] b (inl optional) = rw optional (set_bind-Bound name _ _ b)
  enum-Bound name e [] b (inr fresh) = elim (Bool-cases (c.is_required name)) [
    | inl required ↦ rw (required, fresh) (set_bind-Bound name _ _ b)
    | inr optional ↦ rw optional (set_bind-Bound name _ _ b)
  ]
  enum-Bound name e (x ∷ xs) b h = rw h (set_bind-Bound name _ _ b)

  json-Bound :
      (name : Text) (v : Option p.Json) (b : BindBuilder p) → Bound name b (add p f c name json v b)
  unfolding add
  json-Bound name none b = set_empty-Bound name _ b
  json-Bound name (some j) b = set_bind-Bound name _ _ b

  pub add-Bound :
      (name : Text) (k : Kind) (v : Value p k) (b : BindBuilder p)
      → IsValid name k v
      → Bound name b (add p f c name k v b)
  unfolding add
  add-Bound name ref v b h = set_bind-Bound name _ _ b
  add-Bound name (uinteger size) v b h = set_bind-Bound name _ _ b
  add-Bound name (integer size) v b h = set_bind-Bound name _ _ b
  add-Bound name boolean v b h = set_bind-Bound name _ _ b
  add-Bound name (float precision is_single) v b h = set_bind-Bound name _ _ b
  add-Bound name time v b h = set_bind-Bound name _ _ b
  add-Bound name date v b h = set_bind-Bound name _ _ b
  add-Bound name fake_delete v b h = set_bind-Bound name _ _ b
  add-Bound name string v b h =
      either-Bound (is_empty v) _ _ (set_empty-Bound name _ b) (set_bind-Bound name _ _ b)
  add-Bound name (uinteger_nullable size) v b h = set_bind-Bound name _ _ b
  add-Bound name (integer_nullable size) v b h = set_bind-Bound name _ _ b
  add-Bound name (string_enum e) v b h = enum-Bound name e v b h
  add-Bound name bytes v b h =
      either-Bound (is_empty v) _ _ (set_bind-Bound name _ _ b) (set_bind-Bound name _ _ b)
  add-Bound name (string_set e) v b h =
      either-Bound (is_empty v) _ _ (set_empty-Bound name _ b) (set_bind-Bound name _ _ b)
  add-Bound name boolean_nullable v b h = set_bind-Bound name _ _ b
  add-Bound name (float_nullable precision is_single) v b h = set_bind-Bound name _ _ b
  add-Bound name time_nullable v b h = set_bind-Bound name _ _ b
  add-Bound name date_nullable v b h = set_bind-Bound name _ _ b
  add-Bound name json v b h = json-Bound name v b
  add-Bound name refs_many v b h =
      either-Bound (is_empty (new_ids p f c name v)) _ _ (set_empty-Bound name _ b)
        (set_bind-Bound name _ _ b)
