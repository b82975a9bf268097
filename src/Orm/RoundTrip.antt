-- ===== src/Orm/RoundTrip.antt =====
-- An entity of orm.go is read back from its binary form.
use beeorm.Prelude.{
  ℕ, ◌<◌, ◌^◌, ◌≡◌, ◌≢◌, ◌==◌, ◌||◌, refl, sym, ap, ◌∙◌, Bool, true, false, List, [], ◌∷◌, ◌++◌,
  append-nil, map, All, ok, panic, wrong_hash, arith,
}
use beeorm.Serializer.{Serializer, Writer, Reader, ◌>>=◌, read_all, reset, serialize_uinteger}
use beeorm.Serializer.Bytes.{Codec, Writes-then, Reads-pure, uinteger-Codec}
use beeorm.Orm.{Platform, Column}
use beeorm.Orm.Order.{serialize_order, deserialize_order-eq}
use beeorm.Orm.Cells.{serialize_cell}
use beeorm.Orm.Cells.Kept.{kept, Fits}
use beeorm.Orm.Cells.Combine.{Codec-map, Codec-bind}
use beeorm.Orm.Cells.RoundTrip.{cell-Codec}
use beeorm.Orm.Entity.{
  Schema, Elem, Assigned, serialize_columns, serialize_fields, serialize, deserialize_columns,
  deserialize_fields, deserialize, checked,
}

module _ (p : Platform) (elem : Elem p) where
  -- The value of a column of the entity is one of its kind.
  abbrev pub FitsColumn : Column → Type 0
  FitsColumn c = Fits p c.kind (elem c.path c.kind)

  -- What is kept of the columns.
  abbrev pub kept_columns : List Column → List (Assigned p)
  kept_columns cs = map (λ c. record { column = c; value = kept p c.kind (elem c.path c.kind) }) cs

  columns-Codec :
      (cs : List Column)
      → All FitsColumn cs
      → Codec (serialize_columns p elem cs) (deserialize_columns p cs) (kept_columns cs)
  unfolding serialize_columns deserialize_columns
  columns-Codec [] fits = record {
    bytes = [];
    writes = record { appends = λ s. sym (append-nil s.buffer) };
    reads = Reads-pure [];
  }
  columns-Codec (c ∷ cs) fits =
      Codec-bind {w = serialize_cell p c.kind (elem c.path c.kind)}
        {w' = serialize_columns p elem cs} _ _ (cell-Codec p c.kind (elem c.path c.kind) fits.0)
        (Codec-map {w = serialize_columns p elem cs} _ _ refl (columns-Codec cs fits.1))

hash_test : (disabled : Bool) (hash : ℕ) → (disabled || (hash == hash)) ≡ true
hash_test disabled hash = ground arith

-- The reader of `deserialize` after a writer of the columns of a table.
pub hashed-Codec :
    (p : Platform) (schema : Schema) (disabled : Bool) (w : Writer) (v : List (Assigned p))
    → schema.structure_hash < 2 ^ 64
    → Codec w (deserialize_columns p (serialize_order [] schema.fields)) v
    → Codec
        (λ s. w (serialize_uinteger p.binary schema.structure_hash s))
        (checked p disabled schema)
        v
unfolding checked deserialize_fields
hashed-Codec p schema disabled w v hash c =
    Codec-bind {w' = w} _ _ (uinteger-Codec p.binary schema.structure_hash hash)
      (rw (hash_test disabled schema.structure_hash, deserialize_order-eq [] schema.fields) c)

pub read_back :
    {A : Type 0} {w : Writer} {r : Reader A} {v : A}
    → Codec w r v
    → (s s2 : Serializer) → s.buffer ≡ []
    → (s' : Serializer) × (r (reset (w s).buffer s2) ≡ ok (v, s')) × (s'.buffer ≡ [])
unfolding reset
read_back {w = w} c s s2 empty =
    c.reads.takes (reset (w s).buffer s2) []
      (c.writes.appends s ∙ ap (λ b. b ++ c.bytes) empty ∙ sym (append-nil c.bytes))

wrong_test : (n m : ℕ) → m ≢ n → (false || (n == m)) ≡ false
wrong_test n m h = ground arith

wrong_hash_panics :
    (p : Platform) (schema other : Schema) (elem : Elem p)
    → schema.structure_hash < 2 ^ 64
    → All (FitsColumn p elem) (serialize_order [] schema.fields)
    → (s s2 : Serializer) → s.buffer ≡ []
    → other.structure_hash ≢ schema.structure_hash
    → deserialize p false other (serialize_fields p schema elem s).buffer s2 ≡ panic wrong_hash
unfolding deserialize checked serialize_fields reset
wrong_hash_panics p schema other elem hash fits s s2 empty differs =
    let first = uinteger-Codec p.binary schema.structure_hash hash in
    let rest = columns-Codec p elem (serialize_order [] schema.fields) fits in
    let both = Writes-then first.writes rest.writes in
    let (s', read, left) =
      first.reads.takes (reset (serialize_fields p schema elem s).buffer s2) rest.bytes
        (both.appends s ∙ ap (λ b. b ++ (first.bytes ++ rest.bytes)) empty) in
    rw (◌>>=◌, read, wrong_test schema.structure_hash other.structure_hash differs) refl

-- An entity whose fields hold values of their kinds is written by `serialize` to an empty buffer, and
-- `deserialize` with the same table schema sets every field to what is kept of it, in the order
-- of the columns, and reads to the end: a float is kept rounded to its precision, and to a float32 where
-- the field is one. With another structure hash `deserialize` panics, unless
-- the check is disabled.
pub deserialize-serialize :
    (p : Platform) (schema other : Schema) (elem : Elem p) (disabled : Bool) (s s2 : Serializer)
    → schema.structure_hash < 2 ^ 64
    → All (FitsColumn p elem) (serialize_order [] schema.fields)
    → s.buffer ≡ []
    → let (binary, s1) = serialize p schema elem s in
      (s1.buffer ≡ [])
      × ((s' : Serializer) × (deserialize p disabled schema binary s2
            ≡ ok (kept_columns p elem (serialize_order [] schema.fields), s'))
          × (s'.buffer ≡ []))
      × (other.structure_hash ≢ schema.structure_hash
          → deserialize p false other binary s2 ≡ panic wrong_hash)
unfolding serialize serialize_fields deserialize read_all
deserialize-serialize p schema other elem disabled s s2 hash fits empty =
    let c =
      hashed-Codec p schema disabled (serialize_columns p elem (serialize_order [] schema.fields)) _
        hash (columns-Codec p elem (serialize_order [] schema.fields) fits) in
    (
      refl,
      read_back c s s2 empty,
      λ differs. wrong_hash_panics p schema other elem hash fits s s2 empty differs,
    )
