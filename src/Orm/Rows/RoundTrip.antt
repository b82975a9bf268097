-- ===== src/Orm/Rows/RoundTrip.antt =====
-- A row that orm.go has read gives an entity that is read back from its binary form.
use beeorm.Prelude.{ℕ, ◌+◌, List, [], ◌∷◌, ℤ}
use beeorm.Serializer.{Serializer}
use beeorm.Enum.{Enum}
use beeorm.Orm.{Platform, Column}
use beeorm.Orm.Entity.{Assigned}
use beeorm.Orm.Rows.{Row}
use beeorm.Orm.Rows.Loaded.{loaded, IsPointer}

module _ (p : Platform) (offset : ℤ) where
  -- The fields that the columns from an index on are loaded into, and the values that they need.
  abbrev pub loaded_columns : Row p offset → ℕ → List Column → List (Assigned p)
  loaded_columns row i [] = []
  loaded_columns row i (c ∷ cs) =
      record { column = c; value = loaded p offset c.kind (row i c.kind) }
      ∷ loaded_columns row (i + 1) cs

  abbrev pub ArePointers : Row p offset → ℕ → List Column → Type 0
  ArePointers row i [] = Unit
  ArePointers row i (c ∷ cs) = IsPointer p offset c.kind (row i c.kind) × ArePointers row (i + 1) cs
