-- ===== src/Serializer/Bytes.antt =====
-- What a writer of serializer.go appends, and what a reader takes away.
use beeorm.Prelude.{
  ℕ, suc, ◌+◌, ◌-◌, ◌^◌, ◌<◌, ◌≡◌, ◌==◌, lt→ltb, if◌then◌else◌, refl, sym, ap, ◌∙◌, Bool, true,
  false, List, [], ◌∷◌, ◌++◌, append_assoc, append-nil, length, length-append, take, drop, ℤ,
  IsInt64, Text, ok, arith,
}
use beeorm.Serializer.{
  Binary, Yields, Serializer, Writer, Reader, pure, ◌>>=◌, write_scratch, write, read_byte,
  serialize_uinteger, serialize_integer, serialize_float, serialize_string, serialize_bytes,
  serialize_bool, deserialize_uinteger, deserialize_integer, deserialize_float, deserialize_string,
  deserialize_bytes, deserialize_bool, deserialize_fixed,
}

-- The writer appends the bytes to the buffer.
pub record Writes (w : Writer) (bytes : List ℕ) : Type 0 where
  pub appends : (s : Serializer) → (w s).buffer ≡ s.buffer ++ bytes

-- From a buffer that begins with the bytes the reader takes them and returns the value.
pub record Reads {A : Type 0} (r : Reader A) (bytes : List ℕ) (v : A) : Type 0 where
  pub takes :
      (s : Serializer) (rest : List ℕ)
      → s.buffer ≡ bytes ++ rest
      → (s' : Serializer) × (r s ≡ ok (v, s')) × (s'.buffer ≡ rest)

-- The reader gives the value back from what the writer wrote.
pub record Codec {A : Type 0} (w : Writer) (r : Reader A) (v : A) : Type 0 where
  pub bytes : List ℕ
  pub writes : Writes w bytes
  pub reads : Reads r bytes v

-- Two writers in sequence, and two readers.
infixl 20 ◌>>>◌
abbrev pub ◌>>>◌ : Writer → Writer → Writer
◌>>>◌ w w' s = w' (w s)

pub Writes-then :
    {w w' : Writer} {bytes bytes' : List ℕ}
    → Writes w bytes
    → Writes w' bytes'
    → Writes (w >>> w') (bytes ++ bytes')
Writes-then {w} {bytes = bytes} {bytes' = bytes'} h h' = record {
  appends = λ s.
      h'.appends (w s) ∙ ap (λ x. x ++ bytes') (h.appends s) ∙ append_assoc s.buffer bytes bytes';
}

pub Reads-pure : {A : Type 0} (v : A) → Reads (pure v) [] v
Reads-pure v = record { takes = λ s rest h. (s, refl, h) }

pub Reads-bind :
    {A B : Type 0} {r : Reader A} (f : A → Reader B) {bytes bytes' : List ℕ} {v : A} {w : B}
    → Reads r bytes v
    → Reads (f v) bytes' w
    → Reads (r >>= f) (bytes ++ bytes') w
Reads-bind {r = r} f {bytes = bytes} {bytes' = bytes'} h h' = record {
  takes = λ s rest e.
      let (s1, got, left) = h.takes s (bytes' ++ rest) (e ∙ append_assoc bytes bytes' rest) in
      let (s2, got', left') = h'.takes s1 rest left in (s2, rw (◌>>=◌, got) got', left');
}

pub Codec-then :
    {A B C : Type 0} {w w' : Writer} {r : Reader A} {r' : Reader B} {v : A} {v' : B} (f : A → B → C)
    → Codec w r v
    → Codec w' r' v'
    → Codec (w >>> w') (r >>= λ a. r' >>= λ b. pure (f a b)) (f v v')
Codec-then {v = v} {v' = v'} f c c' = record {
  bytes = c.bytes ++ (c'.bytes ++ []);
  writes = rw append-nil (Writes-then c.writes c'.writes);
  reads = Reads-bind _ c.reads (Reads-bind _ c'.reads (Reads-pure (f v v')));
}

Yields-read_byte :
    (bytes : List ℕ) (s : Serializer) (rest : List ℕ)
    → s.buffer ≡ bytes ++ rest
    → (s' : Serializer) × Yields read_byte s bytes s' × (s'.buffer ≡ rest)
unfolding read_byte
Yields-read_byte [] s rest h = (s, refl, h)
Yields-read_byte (b ∷ bytes) s rest h =
    let next : Serializer = record { scratch = b; buffer = bytes ++ rest } in
    let (s', more, left) = Yields-read_byte bytes next rest refl in
    (s', (next, rw h refl, more), left)

pub Writes-write_scratch : (bytes : List ℕ) → Writes (write_scratch bytes) bytes
unfolding write_scratch
Writes-write_scratch bytes = record { appends = λ s. refl }

module _ (b : Binary) where
  pub uinteger-Codec :
      (v : ℕ) → v < 2 ^ 64 → Codec (serialize_uinteger b v) (deserialize_uinteger b) v
  unfolding serialize_uinteger deserialize_uinteger
  uinteger-Codec v h = record {
    bytes = b.put_uvarint v;
    writes = Writes-write_scratch (b.put_uvarint v);
    reads = record {
      takes = λ s rest e.
          let (s', yields, left) = Yields-read_byte (b.put_uvarint v) s rest e in
          (s', ap ok (b.uvarint_law read_byte s s' v h yields), left);
    };
  }

  pub integer-Codec : (v : ℤ) → IsInt64 v → Codec (serialize_integer b v) (deserialize_integer b) v
  unfolding serialize_integer deserialize_integer
  integer-Codec v h = record {
    bytes = b.put_varint v;
    writes = Writes-write_scratch (b.put_varint v);
    reads = record {
      takes = λ s rest e.
          let (s', yields, left) = Yields-read_byte (b.put_varint v) s rest e in
          (s', ap ok (b.varint_law read_byte s s' v h yields), left);
    };
  }

  pub float-Codec : (v : b.Float) → Codec (serialize_float b v) (deserialize_float b) v
  unfolding serialize_float deserialize_float
  float-Codec v =
      let c = uinteger-Codec (b.bits v) (b.bits-lt v) in
      record {
        bytes = c.bytes ++ [];
        writes = rw append-nil c.writes;
        reads =
            Reads-bind (λ n. pure (b.from_bits n)) c.reads (rw (b.from_bits-bits v) (Reads-pure v));
      }

pub bool-Codec : (v : Bool) → Codec (serialize_bool v) deserialize_bool v
unfolding serialize_bool deserialize_bool read_byte
bool-Codec true = record {
  bytes = 1 ∷ [];
  writes = Writes-write_scratch (1 ∷ []);
  reads = record { takes = λ s rest e. (record { scratch = 1; buffer = rest }, rw e refl, refl) };
}
bool-Codec false = record {
  bytes = 0 ∷ [];
  writes = Writes-write_scratch (0 ∷ []);
  reads = record { takes = λ s rest e. (record { scratch = 0; buffer = rest }, rw e refl, refl) };
}

take-length : (xs ys : List ℕ) → take (length xs) (xs ++ ys) ≡ xs
take-length [] ys = refl
take-length (x ∷ xs) ys = ap (λ t. x ∷ t) (take-length xs ys)

drop-length : (xs ys : List ℕ) → drop (length xs) (xs ++ ys) ≡ ys
drop-length [] ys = refl
drop-length (x ∷ xs) ys = drop-length xs ys

pub fixed-Reads :
    (bytes : List ℕ) → length bytes < 2 ^ 63 → Reads (deserialize_fixed (length bytes)) bytes bytes
unfolding deserialize_fixed
fixed-Reads bytes h = record {
  takes = λ s rest e.
      let len : length s.buffer ≡ length bytes + length rest =
        ap length e ∙ length-append bytes rest in
      let none_missing : length bytes - length s.buffer ≡ 0 = omega arith in
      (
        record s { buffer = rest },
        rw (lt→ltb (length bytes) (2 ^ 63) h, none_missing, e, take-length, drop-length, append-nil)
            refl,
        refl,
      );
}

suc-ne-zero : (n : ℕ) → (suc n == 0) ≡ false
suc-ne-zero n = ground arith

Writes-same :
    {w w' : Writer} {bytes : List ℕ}
    → ((s : Serializer) → w s ≡ w' s)
    → Writes w bytes
    → Writes w' bytes
Writes-same h k = record { appends = λ s. sym (ap (λ x. x.buffer) (h s)) ∙ k.appends s }

Writes-write : (bytes : List ℕ) → Writes (write bytes) bytes
unfolding write
Writes-write bytes = record { appends = λ s. refl }

module _ (b : Binary) where
  -- What both `SerializeString` and `SerializeBytes` write, and both readers read.
  counted : Text → Writer
  counted v s =
      let first = serialize_uinteger b (length v) s in
      if length v == 0 then first else write v first

  counted_reader : Reader Text
  counted_reader = do l ← deserialize_uinteger b; if l == 0 then pure [] else deserialize_fixed l

  counted-Codec : (v : Text) → length v < 2 ^ 63 → Codec (counted v) counted_reader v
  unfolding counted counted_reader
  counted-Codec [] h =
      let c = uinteger-Codec b 0 (omega arith) in
      record {
        bytes = c.bytes ++ [];
        writes = rw append-nil c.writes;
        reads = Reads-bind _ c.reads (Reads-pure []);
      }
  counted-Codec (x ∷ v) h =
      let c = uinteger-Codec b (length (x ∷ v)) (omega arith) in
      record {
        bytes = c.bytes ++ (x ∷ v);
        writes =
            Writes-same (λ s. rw (suc-ne-zero (length v)) refl)
              (Writes-then c.writes (Writes-write (x ∷ v)));
        reads = Reads-bind _ c.reads (rw (suc-ne-zero (length v)) (fixed-Reads (x ∷ v) h));
      }

  pub string-Codec :
      (v : Text) → length v < 2 ^ 63 → Codec (serialize_string b v) (deserialize_string b) v
  unfolding counted counted_reader serialize_string deserialize_string
  string-Codec v h = counted-Codec v h

  pub bytes-Codec :
      (v : List ℕ) → length v < 2 ^ 63 → Codec (serialize_bytes b v) (deserialize_bytes b) v
  unfolding counted counted_reader serialize_bytes deserialize_bytes
  bytes-Codec v h = counted-Codec v h
