-- ===== src/Bind/Compare.antt =====
-- The comparison of two entities without their binary form: what bind_builder.go computes, from the values
-- themselves.
use beeorm.Prelude.{
  ℕ, ◌==◌, ◌+◌, Bool, false, ◌&&◌, if◌then◌else◌, Option, none, some, List, [], ◌∷◌, map, length, ℤ,
  pos, eqb_ℤ, Text, codes, eqb_text, join, format_uint, Result, panic, ok,
}
use beeorm.Enum.{Enum, index, has, field_at}
use beeorm.Orm.{
  Platform, Kind, ref, uinteger, integer, boolean, float, time, date, fake_delete, string,
  uinteger_nullable, integer_nullable, string_enum, bytes, string_set, boolean_nullable,
  float_nullable, time_nullable, date_nullable, json, refs_many, Value, Column,
}
use beeorm.Orm.Cells.{zero_time, zero_date_seconds, stored_seconds, stored_time, loaded_seconds}
use beeorm.Orm.Cells.Combine.{map_option}
use beeorm.Orm.Entity.{Elem}
use beeorm.Bind.{
  BindValue, bind_nil, bind_uint64, bind_int64, bind_bool, bind_float64, bind_string, Formats,
  Context, BindBuilder, null_sql, quote, format_int, format_bool, compared, finish, set_bind,
  set_empty,
}
use beeorm.Bind.Escape.{escape_sql_string}
use beeorm.Bind.Scalars.{
  eqb_bool, id_of, is_zero_time, old_seconds, same_time, same_option, reference, option_value,
  set_option, fake_id, midnight_option,
}
use beeorm.Bind.Strings.{
  is_empty, set_names, all_among, ids_text, shown_text, add_string, shown_enum, add_enum, shown_set,
  json_text, is_none, add_json, new_ids, same_ids, shown_ids,
}
use beeorm.Bind.Build.{is_id}

module _ (p : Platform) (f : Formats p) (c : Context) where
  -- The seconds of a date as they are written.
  abbrev pub stored_date : ℤ → ℤ
  stored_date t = if eqb_ℤ t zero_time then pos zero_date_seconds else stored_seconds (p.midnight t)

  -- The index of a name as it is written.
  abbrev pub stored_index : Enum → Text → ℕ
  stored_index e [] = 0
  stored_index e (x ∷ xs) = index e (x ∷ xs)

  -- Whether the new value is taken for the old one.
  unfoldable pub same : (k : Kind) → Value p k → Value p k → Bool
  unfolding same_time is_zero_time old_seconds stored_time same_option is_empty all_among
      loaded_seconds eqb_text ids_text
  same ref old new = id_of old == id_of new
  same (uinteger size) old new = old == new
  same (integer size) old new = eqb_ℤ old new
  same boolean old new = eqb_bool old new
  same (float precision is_single) old new = p.is_close precision new (p.round_to precision old)
  same time old new = same_time (old_seconds (stored_time old)) new (is_zero_time new)
  same date old new = same_time (old_seconds (stored_date old)) (p.midnight new) (is_zero_time new)
  same fake_delete old new = eqb_bool old new
  same string old new = eqb_text old new
  same (uinteger_nullable size) old new = same_option (λ x y. x == y) old new
  same (integer_nullable size) old new = same_option eqb_ℤ old new
  same (string_enum e) old new = stored_index e old == index e new
  same bytes old new = eqb_text old new
  same (string_set e) old new = (length old == length new) && all_among e new (map (index e) old)
  same boolean_nullable old new = same_option eqb_bool old new
  same (float_nullable precision is_single) old new =
      same_option (λ x y. p.is_close precision y x) (map_option (p.round_to precision) old) new
  same time_nullable old new =
      same_option eqb_ℤ (map_option (λ t. loaded_seconds (stored_seconds t)) old) new
  same date_nullable old new =
      same_option eqb_ℤ (map_option (λ t. loaded_seconds (stored_seconds (p.midnight t))) old)
        (midnight_option p f c [] new)
  same json none new = is_none p f c [] new
  same json (some j) new = f.equal_json (p.marshal j) (json_text p f c [] new)
  same refs_many old new = same_ids p f c [] (new_ids p f c [] new) (length old, old)

  -- What is noted as the current value.
  unfoldable pub shown : Text → (k : Kind) → Value p k → Value p k → Result (Option (BindValue p))
  unfolding old_seconds stored_time is_empty set_names join loaded_seconds field_at ids_text
  shown name ref old new =
      ok (some (option_value p f c name bind_uint64 (reference p f c name (id_of old))))
  shown name (uinteger size) old new = ok (some (bind_uint64 old))
  shown name (integer size) old new = ok (some (bind_int64 old))
  shown name boolean old new = ok (some (bind_bool old))
  shown name (float precision is_single) old new =
      ok (some (bind_float64 (p.round_to precision old)))
  shown name time old new = ok (some (bind_string (f.format_time (old_seconds (stored_time old)))))
  shown name date old new = ok (some (bind_string (f.format_date (old_seconds (stored_date old)))))
  shown name fake_delete old new = ok (some (bind_uint64 (fake_id p f c name old)))
  shown name string old new = shown_text p f c name old
  shown name (uinteger_nullable size) old new = ok (some (option_value p f c name bind_uint64 old))
  shown name (integer_nullable size) old new = ok (some (option_value p f c name bind_int64 old))
  shown name (string_enum e) old new = shown_enum p f c name e (stored_index e old)
  shown name bytes old new = ok (some (if is_empty old then bind_nil else bind_string new))
  shown name (string_set e) old new = shown_set p f c name e new (length old, map (index e) old)
  shown name boolean_nullable old new = ok (some (option_value p f c name bind_bool old))
  shown name (float_nullable precision is_single) old new =
      ok (some (option_value p f c name bind_float64 (map_option (p.round_to precision) old)))
  shown name time_nullable old new = ok (
      some (
        option_value p f c name (λ t. bind_string (f.format_time t))
          (map_option (λ t. loaded_seconds (stored_seconds t)) old)))
  shown name date_nullable old new = ok (
      some (
        option_value p f c name (λ t. bind_string (f.format_date t))
          (map_option (λ t. loaded_seconds (stored_seconds (p.midnight t))) old)))
  shown name json none new = shown_text p f c name []
  shown name json (some j) new = shown_text p f c name (p.marshal j)
  shown name refs_many old new = shown_ids p f c name (new_ids p f c name new) (length old, old)

  -- How a new value is bound.
  unfoldable pub add : Text → (k : Kind) → Value p k → BindBuilder p → Result (BindBuilder p)
  unfolding set_bind set_empty escape_sql_string is_empty has join format_int format_bool
  add name ref new b =
      set_option p f c name bind_uint64 format_uint (reference p f c name (id_of new)) b
  add name (uinteger size) new b = ok (set_bind p c name (bind_uint64 new) (format_uint new) b)
  add name (integer size) new b = ok (set_bind p c name (bind_int64 new) (format_int new) b)
  add name boolean new b = ok (set_bind p c name (bind_bool new) (format_bool new) b)
  add name (float precision is_single) new b =
      ok (set_bind p c name (bind_float64 new) (f.format_float new) b)
  add name time new b =
      ok (set_bind p c name (bind_string (f.format_time new)) (quote (f.format_time new)) b)
  add name date new b =
      let day = f.format_date (p.midnight new) in
      ok (set_bind p c name (bind_string day) (quote day) b)
  add name fake_delete new b =
      let id = fake_id p f c name new in ok (set_bind p c name (bind_uint64 id) (format_uint id) b)
  add name string new b = add_string p f c name new b
  add name (uinteger_nullable size) new b = set_option p f c name bind_uint64 format_uint new b
  add name (integer_nullable size) new b = set_option p f c name bind_int64 format_int new b
  add name (string_enum e) new b = add_enum p f c name e new b
  add name bytes new b = ok (
      if is_empty new
      then set_bind p c name bind_nil null_sql b
      else set_bind p c name (bind_string new) (escape_sql_string new) b)
  add name (string_set e) new b = ok (
      if is_empty new
      then set_empty p c name (codes "''") b
      else set_bind p c name (bind_string (join (codes ",") new)) (quote (join (codes ",") new)) b)
  add name boolean_nullable new b = set_option p f c name bind_bool format_bool new b
  add name (float_nullable precision is_single) new b =
      set_option p f c name bind_float64 f.format_float new b
  add name time_nullable new b =
      set_option p f c name (λ t. bind_string (f.format_time t)) (λ t. quote (f.format_time t)) new
        b
  add name date_nullable new b =
      set_option p f c name (λ t. bind_string (f.format_date t)) (λ t. quote (f.format_date t))
        (midnight_option p f c name new) b
  add name json new b = add_json p f c name new b
  add name refs_many new b =
      let v = new_ids p f c name new in
      ok (
        if is_empty v
        then set_empty p c name (codes "'[]'") b
        else set_bind p c name (bind_string v) (quote v) b)

  abbrev pub decide :
      Bool
      → Text
      → Result (Option (BindValue p))
      → (BindBuilder p → Result (BindBuilder p))
      → BindBuilder p
      → Result (BindBuilder p)
  decide is_same name current to_add b = elim (compared p c is_same name current b.current) [
    | panic e ↦ panic e
    | ok k ↦ finish p c to_add b k
  ]

  unfoldable pub is_identifier : List ℕ → Kind → Bool
  unfolding is_id
  is_identifier path (uinteger size) = is_id path
  is_identifier path ref = false
  is_identifier path (integer size) = false
  is_identifier path boolean = false
  is_identifier path (float precision is_single) = false
  is_identifier path time = false
  is_identifier path date = false
  is_identifier path fake_delete = false
  is_identifier path string = false
  is_identifier path (uinteger_nullable size) = false
  is_identifier path (integer_nullable size) = false
  is_identifier path (string_enum e) = false
  is_identifier path bytes = false
  is_identifier path (string_set e) = false
  is_identifier path boolean_nullable = false
  is_identifier path (float_nullable precision is_single) = false
  is_identifier path time_nullable = false
  is_identifier path date_nullable = false
  is_identifier path json = false
  is_identifier path refs_many = false

  -- One column: nothing for the identifier.
  unfoldable pub compare_cell :
      Text → List ℕ → (k : Kind) → Value p k → Value p k → BindBuilder p → Result (BindBuilder p)
  unfolding is_identifier same shown add compared finish
  compare_cell name path k old new b =
      if is_identifier path k
      then ok b
      else decide (same k old new) name (shown name k old new) (add name k new) b

  unfoldable pub compare_columns :
      Elem p → Elem p → ℕ → List Column → BindBuilder p → Result (BindBuilder p)
  unfolding compare_cell
  compare_columns old new i [] b = ok b
  compare_columns old new i (col ∷ cols) b =
      elim (compare_cell (c.column_names i) col.path col.kind (old col.path col.kind)
        (new col.path col.kind) b) [
          | panic e ↦ panic e
          | ok b1 ↦ compare_columns old new (i + 1) cols b1
        ]
