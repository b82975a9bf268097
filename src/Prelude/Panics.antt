-- ===== src/Prelude/Panics.antt =====
-- Go code that may panic: the value, or the panic that unwinds.
use mathlib.Core.Path.{◌≡◌, refl}

pub data Panic : Type 0 where
  -- a write into a nil map, an index outside a slice, a type assertion that fails
  nil_map index_out_of_range type_assertion : Panic
  -- `checkError` on an error of MySQL, Redis or the redsync lock
  sql_error redis_error lock_error : Panic
  -- the panics that the library raises itself
  unregistered_stream unregistered_pool unregistered_entity : Panic
  transaction_started transaction_missing : Panic
  zero_ttl track_limit lazy_references not_loaded : Panic
  index_missing page_too_large cache_missing : Panic
  -- `make` with a negative length
  slice_too_large wrong_hash : Panic
  unknown_enum_value empty_enum_value : Panic
  -- `DuplicatedKeyError` and `ForeignKeyError`, which `convertToError` makes of errors of MySQL
  duplicated_key foreign_key : Panic
  -- a recursion that goes on until the stack of the goroutine is full
  stack_overflow : Panic

-- What a call leaves: the panic that unwinds, or its results.
pub data Result {ℓ} (A : Type ℓ) : Type ℓ where
  panic : Panic → Result A
  ok : A → Result A

module _ {ℓ} {A B : Type ℓ} where
  infixl 10 ◌>>=◌
  abbrev pub ◌>>=◌ : Result A → (A → Result B) → Result B
  panic p >>= next = panic p
  ok results >>= next = next results

  -- A sequence that does not panic: neither its first call nor the rest panics.
  pub both_ok :
      {last : B} (first : Result A) (next : A → Result B)
      → (first >>= next) ≡ ok last
      → (middle : A) × (next middle ≡ ok last) × (first ≡ ok middle)
  both_ok (panic p) next h = cc
  both_ok (ok middle) next h = (middle, h, refl)

module _ {ℓ} {A : Type ℓ} where
  pub ok_inj : {a b : A} → ok a ≡ ok b → a ≡ b
  ok_inj h = cc
