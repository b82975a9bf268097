-- ===== src/Tests/Storing.antt =====
-- orm.go, serializer.go and the enums of table_schema.go at small inputs.
use beeorm.Prelude.{
  ◌≤◌, ◌≡◌, ◌≢◌, refl, true, false, none, some, [], ◌∷◌, pos, negsuc, codes, ok, panic, wrong_hash,
  text_discrete, lookup, insert, arith,
}
use beeorm.Serializer.{Serializer, new_serializer}
use beeorm.Enum.{Enum, has, index, field_at, mapping_from, init_enum, field_at-init_enum}
use beeorm.Orm.{
  ref, uinteger, integer, boolean, float, time, date, fake_delete, string, uinteger_nullable, bits8,
  bits64, integer_nullable, string_enum, bytes, string_set, boolean_nullable, float_nullable,
  time_nullable, date_nullable, json, refs_many, OwnFields, table_fields, no_structs, struct_field,
}
use beeorm.Orm.Order.{serialize_order}
use beeorm.Orm.Cells.{to_size, to_signed_size}
use beeorm.Orm.Cells.Kept.{Fits}
use beeorm.Orm.Entity.{Schema, Elem, serialize, deserialize}
use beeorm.Orm.RoundTrip.{kept_columns, deserialize-serialize}
use beeorm.Orm.Rows.{Row}
use beeorm.Tests.Platform.{bytes_platform}

abbrev colors : Enum
colors = record {
  fields = codes "red" ∷ codes "blue" ∷ [];
  mapping = (codes "red", 1) ∷ (codes "blue", 2) ∷ [];
  default_value = codes "red";
}

colors_made : init_enum (codes "red" ∷ codes "blue" ∷ []) none ≡ ok colors
unfolding init_enum mapping_from insert text_discrete
colors_made = refl

colors_has : has colors (codes "blue") ≡ true
unfolding has lookup text_discrete
colors_has = refl

field_at-init_enum_example :
    (1 ≤ index colors (codes "blue"))
    × (field_at colors (index colors (codes "blue")) ≡ ok (codes "blue"))
field_at-init_enum_example =
    field_at-init_enum (codes "red" ∷ codes "blue" ∷ []) none colors (codes "blue") colors_made
      colors_has

abbrev pub no_fields : OwnFields
no_fields = record {
  refs = [];
  uintegers = [];
  integers = [];
  booleans = [];
  floats = [];
  times = [];
  dates = [];
  fake_delete = 0;
  strings = [];
  uintegers_nullable = [];
  integers_nullable = [];
  strings_enums = [];
  bytes = [];
  slice_strings_sets = [];
  booleans_nullable = [];
  floats_nullable = [];
  times_nullable = [];
  dates_nullable = [];
  jsons = [];
  refs_many = [];
}

-- An identifier, a reference, a time, a name and a nullable number, and a struct with a signed number.
abbrev pub small : Schema
small = record {
  structure_hash = 77;
  fields =
      table_fields
        (record no_fields {
          uintegers = (1, bits64) ∷ [];
          refs = 2 ∷ [];
          times = 3 ∷ [];
          strings = 4 ∷ [];
          uintegers_nullable = (5, bits8) ∷ [];
        })
        (struct_field 6 (table_fields (record no_fields { integers = (0, bits8) ∷ [] }) no_structs)
          no_structs);
}

abbrev changed_hash : Schema
changed_hash = record small { structure_hash = 78 }

abbrev pub john : Elem bytes_platform
john path ref = some 9
john path (uinteger size) = 300
john path (integer size) = negsuc 4
john path boolean = true
john path (float precision is_single) = false
john path time = pos 1_700_000_000
john path date = pos 86_400
john path fake_delete = false
john path string = codes "John"
john path (uinteger_nullable size) = some 200
john path (integer_nullable size) = none
john path (string_enum e) = []
john path bytes = []
john path (string_set e) = []
john path boolean_nullable = none
john path (float_nullable precision is_single) = none
john path time_nullable = none
john path date_nullable = none
john path json = none
john path refs_many = []

deserialize-serialize_example :
    let (binary, s1) = serialize bytes_platform small john (new_serializer []) in
    (s1.buffer ≡ [])
    × ((s' : Serializer) × (deserialize bytes_platform false small binary (new_serializer [])
          ≡ ok (kept_columns bytes_platform john (serialize_order [] small.fields), s'))
        × (s'.buffer ≡ []))
    × (changed_hash.structure_hash ≢ small.structure_hash
        → deserialize bytes_platform false changed_hash binary (new_serializer [])
          ≡ panic wrong_hash)
unfolding serialize_order new_serializer Fits to_size to_signed_size
deserialize-serialize_example =
    deserialize-serialize bytes_platform small changed_hash john false (new_serializer [])
      (new_serializer []) (omega arith)
      (
        omega arith,
        (
          omega arith,
          (omega arith, (omega arith, ((omega arith, refl), ((omega arith, refl), tt)))),
        ),
      )
      refl

-- A row of the server: a time in its time zone, and NULL for the nullable number.
abbrev john_row : Row bytes_platform (pos 3_600)
john_row i ref = some (pos 9)
john_row i (uinteger size) = 300
john_row i (integer size) = negsuc 4
john_row i boolean = true
john_row i (float precision is_single) = false
john_row i time = pos 63_867_222_800
john_row i date = pos 63_867_222_800
john_row i fake_delete = 0
john_row i string = some (codes "John")
john_row i (uinteger_nullable size) = none
john_row i (integer_nullable size) = none
john_row i (string_enum e) = none
john_row i bytes = none
john_row i (string_set e) = none
john_row i boolean_nullable = none
john_row i (float_nullable precision is_single) = none
john_row i time_nullable = none
john_row i date_nullable = none
john_row i json = none
john_row i refs_many = none
