-- ===== src/Serializer.antt =====
-- serializer.go: the binary form of an entity is written to and read from a buffer of bytes.
pub mod Bytes
use beeorm.Prelude.{
  ℕ, zero, suc, ◌+◌, ◌-◌, ◌^◌, ◌<◌, ◌≤◌, ◌≡◌, ◌==◌, ltb, if◌then◌else◌, Bool, true, false, List, [],
  ◌∷◌, ◌++◌, length, take, drop, replicate, ℤ, IsInt64, to_int64, Text, Result, ok, panic,
  slice_too_large,
}

-- A reader of bytes, from its first state to its last, over the given bytes.
abbrev pub Yields : {S : Type 0} → (S → ℕ × S) → S → List ℕ → S → Type 0
Yields next s [] s' = s ≡ s'
Yields {S} next s (b ∷ bs) s' = (middle : S) × (next s ≡ (b, middle)) × Yields next middle bs s'

-- What serializer.go uses of encoding/binary and math: the variable-length forms of `uint64` and
-- `int64`, which are read through the `ReadByte` of a reader, and the bits of a float.
pub record Binary : Type 1 where
  pub put_uvarint : ℕ → List ℕ
  pub read_uvarint : {S : Type 0} → (S → ℕ × S) → S → ℕ × S
  pub uvarint_law :
      {S : Type 0} (next : S → ℕ × S) (s s' : S) (v : ℕ)
      → v < 2 ^ 64
      → Yields next s (put_uvarint v) s'
      → read_uvarint next s ≡ (v, s')
  pub put_varint : ℤ → List ℕ
  pub read_varint : {S : Type 0} → (S → ℕ × S) → S → ℤ × S
  pub varint_law :
      {S : Type 0} (next : S → ℕ × S) (s s' : S) (v : ℤ)
      → IsInt64 v
      → Yields next s (put_varint v) s'
      → read_varint next s ≡ (v, s')
  pub Float : Type 0
  pub bits : Float → ℕ
  pub from_bits : ℕ → Float
  pub bits-lt : (f : Float) → bits f < 2 ^ 64
  pub from_bits-bits : (f : Float) → from_bits (bits f) ≡ f

-- `scratch` is the first byte of the scratch array, which `ReadByte` returns again once the buffer
-- is empty.
pub record Serializer : Type 0 where
  pub scratch : ℕ
  pub buffer : List ℕ

unfoldable pub new_serializer : List ℕ → Serializer
new_serializer buf = record { scratch = 0; buffer = buf }

-- `Read`: the bytes, and the serializer afterwards.
unfoldable pub read_all : Serializer → List ℕ × Serializer
read_all s = (s.buffer, record s { buffer = [] })

unfoldable pub reset : List ℕ → Serializer → Serializer
reset p s = record s { buffer = p }

abbrev pub Writer : Type 0
Writer = Serializer → Serializer

abbrev pub Reader : Type 0 → Type 0
Reader A = Serializer → Result (A × Serializer)

-- A value without its state, and one read after another.
abbrev pub pure : {A : Type 0} → A → Reader A
pure a s = ok (a, s)

infixl 5 ◌>>=◌
abbrev pub ◌>>=◌ : {A B : Type 0} → Reader A → (A → Reader B) → Reader B
◌>>=◌ m f s = elim (m s) [ panic p ↦ panic p | ok (a, s') ↦ f a s' ]

abbrev head_or : ℕ → List ℕ → ℕ
head_or d [] = d
head_or d (x ∷ xs) = x

-- The bytes are put into the scratch array, then written to the buffer.
unfoldable pub write_scratch : List ℕ → Writer
write_scratch bytes s = record { scratch = head_or s.scratch bytes; buffer = s.buffer ++ bytes }

-- `buffer.Write`
unfoldable pub write : List ℕ → Writer
write bytes s = record s { buffer = s.buffer ++ bytes }

unfoldable pub read_byte : Serializer → ℕ × Serializer
read_byte s = elim s.buffer [
  | [] ↦ (s.scratch, s)
  | x ∷ xs ↦ (x, record { scratch = x; buffer = xs })
]

module _ (b : Binary) where
  unfoldable pub serialize_uinteger : ℕ → Writer
  unfolding write_scratch
  serialize_uinteger v = write_scratch (b.put_uvarint v)

  unfoldable pub serialize_integer : ℤ → Writer
  unfolding write_scratch
  serialize_integer v = write_scratch (b.put_varint v)

  unfoldable pub serialize_float : b.Float → Writer
  unfolding serialize_uinteger
  serialize_float v = serialize_uinteger (b.bits v)

  -- Strings and byte slices: the length, then the bytes if there are any.
  unfoldable pub serialize_string : Text → Writer
  unfolding serialize_uinteger write
  serialize_string v s =
      let counted = serialize_uinteger (length v) s in
      if length v == 0 then counted else write v counted

  unfoldable pub serialize_bytes : List ℕ → Writer
  unfolding serialize_uinteger write
  serialize_bytes val s =
      let counted = serialize_uinteger (length val) s in
      if length val == 0 then counted else write val counted

  unfoldable pub deserialize_uinteger : Reader ℕ
  deserialize_uinteger s = ok (b.read_uvarint read_byte s)

  unfoldable pub deserialize_integer : Reader ℤ
  deserialize_integer s = ok (b.read_varint read_byte s)

  unfoldable pub deserialize_float : Reader b.Float
  unfolding deserialize_uinteger
  deserialize_float = do v ← deserialize_uinteger; pure (b.from_bits v)

unfoldable pub serialize_bool : Bool → Writer
unfolding write_scratch
serialize_bool true = write_scratch (1 ∷ [])
serialize_bool false = write_scratch (0 ∷ [])

unfoldable pub deserialize_bool : Reader Bool
deserialize_bool s = let (v, rest) = read_byte s in ok (v == 1, rest)

-- `make` panics on a negative length, and the bytes that are not there stay 0.
unfoldable pub deserialize_fixed : ℕ → Reader (List ℕ)
deserialize_fixed ln s =
    if ltb ln (2 ^ 63)
    then ok (
      take ln s.buffer ++ replicate (ln - length s.buffer) 0,
      record s { buffer = drop ln s.buffer },
    )
    else panic slice_too_large

module _ (b : Binary) where
  unfoldable pub deserialize_string : Reader Text
  unfolding deserialize_uinteger deserialize_fixed
  deserialize_string = do
    l ← deserialize_uinteger b
    if l == 0 then pure [] else deserialize_fixed l

  -- A nil slice is [].
  unfoldable pub deserialize_bytes : Reader (List ℕ)
  unfolding deserialize_uinteger deserialize_fixed
  deserialize_bytes = do l ← deserialize_uinteger b; if l == 0 then pure [] else deserialize_fixed l
