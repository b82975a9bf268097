-- ===== src/Orm/Entity.antt =====
-- orm.go: an entity as a whole, `serialize` and `deserialize`.
use beeorm.Prelude.{ℕ, ◌==◌, ◌||◌, if◌then◌else◌, Bool, List, [], ◌∷◌, panic, wrong_hash}
use beeorm.Serializer.{
  Serializer, Writer, Reader, pure, ◌>>=◌, read_all, reset, serialize_uinteger,
  deserialize_uinteger,
}
use beeorm.Orm.{Platform, Kind, Value, Column, TableFields}
use beeorm.Orm.Order.{serialize_order, deserialize_order}
use beeorm.Orm.Cells.{serialize_cell, deserialize_cell}

-- The parts of `tableSchema` that the binary form depends on.
pub record Schema : Type 0 where
  pub structure_hash : ℕ
  pub fields : TableFields

-- `elem`: the value of the field at a path, as the accessor of the kind returns it.
abbrev pub Elem : Platform → Type 0
Elem p = List ℕ → (k : Kind) → Value p k

-- A field that was set.
pub record Assigned (p : Platform) : Type 0 where
  pub column : Column
  pub value : Value p column.kind

module _ (p : Platform) where
  unfoldable pub serialize_columns : Elem p → List Column → Writer
  serialize_columns elem [] s = s
  serialize_columns elem (c ∷ cs) s =
      serialize_columns elem cs (serialize_cell p c.kind (elem c.path c.kind) s)

  -- `serializeFields` from the root.
  unfoldable pub serialize_fields : Schema → Elem p → Writer
  unfolding serialize_columns
  serialize_fields schema elem s =
      serialize_columns elem (serialize_order [] schema.fields)
        (serialize_uinteger p.binary schema.structure_hash s)

  -- The binary form and the serializer afterwards.
  unfoldable pub serialize : Schema → Elem p → Serializer → List ℕ × Serializer
  unfolding serialize_fields
  serialize schema elem s = read_all (serialize_fields schema elem s)

  unfoldable pub deserialize_columns : List Column → Reader (List (Assigned p))
  deserialize_columns [] = pure []
  deserialize_columns (c ∷ cs) = do
    v ← deserialize_cell p c.kind
    rest ← deserialize_columns cs
    pure (record { column = c; value = v } ∷ rest)

  unfoldable pub deserialize_fields : Schema → Reader (List (Assigned p))
  unfolding deserialize_columns
  deserialize_fields schema = deserialize_columns (deserialize_order [] schema.fields)

  -- The hash is checked first; `disabled` is `disableCacheHashCheck`.
  unfoldable pub checked : Bool → Schema → Reader (List (Assigned p))
  unfolding deserialize_fields
  checked disabled schema = do
    hash ← deserialize_uinteger p.binary
    if disabled || (hash == schema.structure_hash)
        then deserialize_fields schema
        else (λ s. panic wrong_hash)

  unfoldable pub deserialize : Bool → Schema → List ℕ → Reader (List (Assigned p))
  unfolding checked
  deserialize disabled schema binary s = checked disabled schema (reset binary s)
