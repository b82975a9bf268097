-- ===== src/Orm.antt =====
-- orm.go and table_schema.go: the columns of an entity by kind, and the order in which they are
-- written, read and compared. The children are the order of the columns (Order), one column (Cells), an entity
-- (RoundTrip) and a row of MySQL (Rows).
pub mod Order
pub mod Cells
pub mod Entity
pub mod RoundTrip
pub mod Rows
use beeorm.Prelude.{ℕ, ℤ, Bool, Option, List, [], Text, ◌≢◌}
use beeorm.Serializer.{Binary}
use beeorm.Enum.{Enum}

-- What the code uses of Go's libraries besides encoding/binary: rounding and comparing floats,
-- midnight of a day, JSON. Times are Unix seconds.
pub record Platform : Type 1 where
  pub binary : Binary
  -- math.Round(f*p)/p with p = math.Pow10(precision)
  pub round_to : ℕ → binary.Float → binary.Float
  -- float64(float32(f))
  pub single : binary.Float → binary.Float
  -- math.Abs(a-b) < 1/math.Pow10(precision)
  pub is_close : ℕ → binary.Float → binary.Float → Bool
  -- time.Date(t.Year(), t.Month(), t.Day(), 0, 0, 0, 0, t.Location()).Unix()
  pub midnight : ℤ → ℤ
  pub Json : Type 0
  pub marshal : Json → Text
  pub unmarshal : Text → Json
  pub marshal-ne-nil : (j : Json) → marshal j ≢ []
  -- the identifiers of a JSON array
  pub unmarshal_ids : Text → List ℕ

pub data Size : Type 0 where
  word bits8 bits16 bits32 bits64 : Size

-- The kinds of columns in `tableFields`, with the precision, size or enum of the column.
pub data Kind : Type 0 where
  ref boolean time date fake_delete string bytes boolean_nullable : Kind
  time_nullable date_nullable json refs_many : Kind
  -- the size of the field's type
  uinteger integer : Size → Kind
  -- the precision, and whether the field is a float32
  float : ℕ → Bool → Kind
  float_nullable : ℕ → Bool → Kind
  uinteger_nullable integer_nullable : Size → Kind
  string_enum string_set : Enum → Kind

-- The value of a field: a reference is the identifier of the entity, a nil slice is [].
abbrev pub Value : Platform → Kind → Type 0
Value p ref = Option ℕ
Value p (uinteger size) = ℕ
Value p (integer size) = ℤ
Value p boolean = Bool
Value p (float precision is_single) = p.binary.Float
Value p time = ℤ
Value p date = ℤ
Value p fake_delete = Bool
Value p string = Text
Value p (uinteger_nullable size) = Option ℕ
Value p (integer_nullable size) = Option ℤ
Value p (string_enum e) = Text
Value p bytes = Text
Value p (string_set e) = List Text
Value p boolean_nullable = Option Bool
Value p (float_nullable precision is_single) = Option p.binary.Float
Value p time_nullable = Option ℤ
Value p date_nullable = Option ℤ
Value p json = Option p.Json
Value p refs_many = List ℕ

-- A column: the numbers of the fields that lead to it through the structs, and its kind.
pub record Column : Type 0 where
  pub path : List ℕ
  pub kind : Kind

-- `tableFields` without the nested structs: the field numbers by kind, numbers with the size of the
-- field's type. 0 is no fake delete.
pub record OwnFields : Type 0 where
  pub refs : List ℕ
  pub uintegers : List (ℕ × Size)
  pub integers : List (ℕ × Size)
  pub booleans : List ℕ
  pub floats : List (ℕ × (ℕ × Bool))
  pub times : List ℕ
  pub dates : List ℕ
  pub fake_delete : ℕ
  pub strings : List ℕ
  pub uintegers_nullable : List (ℕ × Size)
  pub integers_nullable : List (ℕ × Size)
  pub strings_enums : List (ℕ × Enum)
  pub bytes : List ℕ
  pub slice_strings_sets : List (ℕ × Enum)
  pub booleans_nullable : List ℕ
  pub floats_nullable : List (ℕ × (ℕ × Bool))
  pub times_nullable : List ℕ
  pub dates_nullable : List ℕ
  pub jsons : List ℕ
  pub refs_many : List ℕ

-- `tableFields` with `structs` and `structsFields`.
mutual
  pub data TableFields : Type 0 where
    table_fields : OwnFields → Structs → TableFields

  pub data Structs : Type 0 where
    no_structs : Structs
    struct_field : ℕ → TableFields → Structs → Structs
