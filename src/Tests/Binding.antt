-- ===== src/Tests/Binding.antt =====
-- bind_builder.go and the dirty binds of orm.go at small inputs.
use beeorm.Prelude.{
  wrap_int64, ◌+ℤ◌, ◌-ℤ◌, ◌++◌, ℕ, ◌≡◌, refl, inr, true, false, none, some, List, [], pos, negsuc,
  codes, format_uint, eqb_text, arith, All, ok,
}
use beeorm.Serializer.{Serializer, new_serializer, reset}
use beeorm.Orm.{
  ref, uinteger, integer, boolean, float, time, date, fake_delete, string, uinteger_nullable,
  integer_nullable, string_enum, bytes, string_set, boolean_nullable, float_nullable, time_nullable,
  date_nullable, json, refs_many,
}
use beeorm.Orm.Order.{serialize_order}
use beeorm.Orm.Cells.{to_size, to_signed_size}
use beeorm.Orm.Cells.Kept.{Fits}
use beeorm.Orm.Entity.{Elem, serialize}
use beeorm.Orm.RoundTrip.{FitsColumn}
use beeorm.Bind.{Formats, Context, BindBuilder, format_int}
use beeorm.Bind.Strings.{ids_text}
use beeorm.Bind.Build.{
  TableSchema, Orm, mark_deleted, context_of, new_bind_builder, build, build_dirty_bind, is_dirty,
}
use beeorm.Bind.Compare.{compare_columns}
use beeorm.Bind.Aligned.{Gives}
use beeorm.Bind.Dirty.{build-compare_columns}
use beeorm.Bind.Bound.{IsValid}
use beeorm.Bind.Changes.{any_changed}
use beeorm.Bind.Escape.{escape_sql_string}
use beeorm.Bind.Escape.Literal.{read_literal, read_literal-escape_sql_string}
use beeorm.Bind.Fresh.{AllNamed, build_dirty_bind-AllNamed}
use beeorm.Bind.Same.{IsClean}
use beeorm.Bind.Clean.{is_dirty-serialize}
use beeorm.Tests.Platform.{bytes_platform}
use beeorm.Tests.Storing.{small, john}

abbrev short_formats : Formats bytes_platform
short_formats = record {
  format_float = λ x. codes "1.5";
  format_time = format_int;
  format_date = format_int;
  marshal_nil = codes "null";
  marshal_ids = ids_text;
  equal_json = eqb_text;
}

abbrev people : TableSchema
people = record {
  schema = small;
  has_fake_delete = false;
  has_log = true;
  cached_indexes_all = 0;
  column_names = format_uint;
  is_required = λ name. false;
}

-- John under another name.
abbrev renamed : Elem bytes_platform
renamed path string = codes "Joan"
renamed path ref = some 9
renamed path (uinteger size) = 300
renamed path (integer size) = negsuc 4
renamed path boolean = true
renamed path (float precision is_single) = false
renamed path time = pos 1_700_000_000
renamed path date = pos 86_400
renamed path fake_delete = false
renamed path (uinteger_nullable size) = some 200
renamed path (integer_nullable size) = none
renamed path (string_enum e) = []
renamed path bytes = []
renamed path (string_set e) = []
renamed path boolean_nullable = none
renamed path (float_nullable precision is_single) = none
renamed path time_nullable = none
renamed path date_nullable = none
renamed path json = none
renamed path refs_many = []

abbrev stored_john : List ℕ
stored_john = (serialize bytes_platform small john (new_serializer [])).0

abbrev saved : Orm bytes_platform
saved = record {
  elem = john;
  in_db = true;
  delete = false;
  fake_delete = false;
  binary = stored_john;
}

abbrev edited : Orm bytes_platform
edited = record saved { elem = renamed }

abbrev editing : Context
editing = context_of bytes_platform people edited

john_fits : All (FitsColumn bytes_platform john) (serialize_order [] small.fields)
unfolding serialize_order Fits to_size to_signed_size
john_fits = (
  omega arith,
  (omega arith, (omega arith, (omega arith, ((omega arith, refl), ((omega arith, refl), tt))))),
)

build-compare_columns_example :
    Gives
      (compare_columns bytes_platform short_formats editing john renamed 0
        (serialize_order [] small.fields)
        (new_bind_builder bytes_platform))
      (build bytes_platform short_formats editing small.fields renamed
        (new_bind_builder bytes_platform)
        (reset stored_john (new_serializer [])))
      []
unfolding context_of new_serializer
build-compare_columns_example =
    build-compare_columns bytes_platform short_formats editing small john renamed
      (new_bind_builder bytes_platform) (new_serializer []) (new_serializer []) refl (omega arith)
      john_fits refl

is_dirty-serialize_example : is_dirty bytes_platform short_formats people saved ≡ ok false
unfolding context_of serialize_order new_serializer IsValid IsClean
is_dirty-serialize_example =
    is_dirty-serialize bytes_platform short_formats people saved (new_serializer []) refl refl refl
      (omega arith) john_fits (tt, (tt, (inr refl, (tt, (tt, (tt, tt))))))
      (tt, (tt, (tt, (tt, (tt, (tt, tt)))))) refl refl

-- A name with a quote, in front of the rest of a statement.
read_literal-escape_sql_string_example :
    read_literal (escape_sql_string (codes "O'Hara") ++ codes ", 1)")
    ≡ some (codes "O'Hara", codes ", 1)")
read_literal-escape_sql_string_example =
    read_literal-escape_sql_string (codes "O'Hara") (codes ", 1)") refl

escaped_name : escape_sql_string (codes "O'H") ≡ codes "'O\\'H'"
unfolding escape_sql_string
escaped_name = refl

abbrev fresh : Orm bytes_platform
fresh = record { elem = renamed; in_db = false; delete = false; fake_delete = false; binary = [] }

build_dirty_bind-AllNamed_example :
    let marked = mark_deleted bytes_platform people fresh in
    (b : BindBuilder bytes_platform) × (s' : Serializer) × (build_dirty_bind bytes_platform
        short_formats people fresh
        (new_serializer [])
      ≡ ok (((b, true), marked), s'))
    × AllNamed bytes_platform short_formats
        (context_of bytes_platform people marked)
        b
        0
        (serialize_order [] small.fields)
unfolding mark_deleted context_of serialize_order IsValid
build_dirty_bind-AllNamed_example =
    build_dirty_bind-AllNamed bytes_platform short_formats people fresh (new_serializer []) refl
      (tt, (tt, (tt, (tt, (tt, (tt, tt))))))

-- The new name is a change.
renamed_changed :
    any_changed bytes_platform short_formats editing john renamed (serialize_order [] small.fields)
    ≡ true
unfolding any_changed serialize_order wrap_int64 ◌+ℤ◌ ◌-ℤ◌
renamed_changed = refl
