-- ===== src/Orm/Order.antt =====
-- The order of the columns in orm.go and bind_builder.go. Each of the functions that write, read and
-- compare an entity has its own loops over the kinds and then over the nested structs.
use beeorm.Prelude.{ℕ, List, [], ◌∷◌, ◌++◌, map, ltb, if◌then◌else◌, ◌≡◌, refl, ap, ◌∙◌}
use beeorm.Orm.{
  Kind, ref, uinteger, integer, boolean, float, time, date, fake_delete, string, uinteger_nullable,
  integer_nullable, string_enum, bytes, string_set, boolean_nullable, float_nullable, time_nullable,
  date_nullable, json, refs_many, Column, OwnFields, TableFields, table_fields, Structs, no_structs,
  struct_field,
}

-- The columns of one kind, of a struct whose fields stand at the path `at`.
abbrev pub plain : List ℕ → Kind → List ℕ → List Column
plain at k fields = map (λ i. record { path = at ++ (i ∷ []); kind = k }) fields

abbrev pub with_info : {A : Type 0} → List ℕ → (A → Kind) → List (ℕ × A) → List Column
with_info at k fields = map (λ f. record { path = at ++ (f.0 ∷ []); kind = k f.1 }) fields

abbrev pub if_any : List ℕ → ℕ → List Column
if_any at i = if ltb 0 i then plain at fake_delete (i ∷ []) else []

-- The loops of `serializeFields`, in their order.
unfoldable pub serialize_own : List ℕ → OwnFields → List Column
serialize_own at f =
    plain at ref f.refs
    ++ (with_info at uinteger f.uintegers
        ++ (with_info at integer f.integers
            ++ (plain at boolean f.booleans
                ++ (with_info at (λ i. float i.0 i.1) f.floats
                    ++ (plain at time f.times
                        ++ (plain at date f.dates
                            ++ (if_any at f.fake_delete
                                ++ (plain at string f.strings
                                    ++ (with_info at uinteger_nullable f.uintegers_nullable
                                        ++ (with_info at integer_nullable f.integers_nullable
                                            ++ (with_info at string_enum f.strings_enums
                                                ++ (plain at bytes f.bytes
                                                    ++ (with_info at string_set f.slice_strings_sets
                                                        ++ (plain at boolean_nullable
                                                            f.booleans_nullable
                                                            ++ (with_info at
                                                            (λ i. float_nullable i.0 i.1)
                                                            f.floats_nullable
                                                            ++ (plain at time_nullable
                                                            f.times_nullable
                                                            ++ (plain at date_nullable
                                                            f.dates_nullable
                                                            ++ (plain at json f.jsons
                                                            ++ plain at refs_many
                                                            f.refs_many))))))))))))))))))

unfoldable mutual
  unfolding serialize_own

  pub serialize_order : List ℕ → TableFields → List Column
  serialize_order at (table_fields own structs) =
      serialize_own at own ++ serialize_structs at structs

  pub serialize_structs : List ℕ → Structs → List Column
  serialize_structs at no_structs = []
  serialize_structs at (struct_field i fields structs) =
      serialize_order (at ++ (i ∷ [])) fields ++ serialize_structs at structs

-- The loops of `deserializeFields`, in their order.
unfoldable pub deserialize_own : List ℕ → OwnFields → List Column
deserialize_own at f =
    plain at ref f.refs
    ++ (with_info at uinteger f.uintegers
        ++ (with_info at integer f.integers
            ++ (plain at boolean f.booleans
                ++ (with_info at (λ i. float i.0 i.1) f.floats
                    ++ (plain at time f.times
                        ++ (plain at date f.dates
                            ++ (if_any at f.fake_delete
                                ++ (plain at string f.strings
                                    ++ (with_info at uinteger_nullable f.uintegers_nullable
                                        ++ (with_info at integer_nullable f.integers_nullable
                                            ++ (with_info at string_enum f.strings_enums
                                                ++ (plain at bytes f.bytes
                                                    ++ (with_info at string_set f.slice_strings_sets
                                                        ++ (plain at boolean_nullable
                                                            f.booleans_nullable
                                                            ++ (with_info at
                                                            (λ i. float_nullable i.0 i.1)
                                                            f.floats_nullable
                                                            ++ (plain at time_nullable
                                                            f.times_nullable
                                                            ++ (plain at date_nullable
                                                            f.dates_nullable
                                                            ++ (plain at json f.jsons
                                                            ++ plain at refs_many
                                                            f.refs_many))))))))))))))))))

unfoldable mutual
  unfolding deserialize_own

  pub deserialize_order : List ℕ → TableFields → List Column
  deserialize_order at (table_fields own structs) =
      deserialize_own at own ++ deserialize_structs at structs

  pub deserialize_structs : List ℕ → Structs → List Column
  deserialize_structs at no_structs = []
  deserialize_structs at (struct_field i fields structs) =
      deserialize_order (at ++ (i ∷ [])) fields ++ deserialize_structs at structs

-- The loops of `deserializeStructFromDB`, in their order.
unfoldable pub from_db_own : List ℕ → OwnFields → List Column
from_db_own at f =
    plain at ref f.refs
    ++ (with_info at uinteger f.uintegers
        ++ (with_info at integer f.integers
            ++ (plain at boolean f.booleans
                ++ (with_info at (λ i. float i.0 i.1) f.floats
                    ++ (plain at time f.times
                        ++ (plain at date f.dates
                            ++ (if_any at f.fake_delete
                                ++ (plain at string f.strings
                                    ++ (with_info at uinteger_nullable f.uintegers_nullable
                                        ++ (with_info at integer_nullable f.integers_nullable
                                            ++ (with_info at string_enum f.strings_enums
                                                ++ (plain at bytes f.bytes
                                                    ++ (with_info at string_set f.slice_strings_sets
                                                        ++ (plain at boolean_nullable
                                                            f.booleans_nullable
                                                            ++ (with_info at
                                                            (λ i. float_nullable i.0 i.1)
                                                            f.floats_nullable
                                                            ++ (plain at time_nullable
                                                            f.times_nullable
                                                            ++ (plain at date_nullable
                                                            f.dates_nullable
                                                            ++ (plain at json f.jsons
                                                            ++ plain at refs_many
                                                            f.refs_many))))))))))))))))))

unfoldable mutual
  unfolding from_db_own

  pub from_db_order : List ℕ → TableFields → List Column
  from_db_order at (table_fields own structs) = from_db_own at own ++ from_db_structs at structs

  pub from_db_structs : List ℕ → Structs → List Column
  from_db_structs at no_structs = []
  from_db_structs at (struct_field i fields structs) =
      from_db_order (at ++ (i ∷ [])) fields ++ from_db_structs at structs

-- The loops of `bindBuilder.build`, in their order.
unfoldable pub build_own : List ℕ → OwnFields → List Column
build_own at f =
    plain at ref f.refs
    ++ (with_info at uinteger f.uintegers
        ++ (with_info at integer f.integers
            ++ (plain at boolean f.booleans
                ++ (with_info at (λ i. float i.0 i.1) f.floats
                    ++ (plain at time f.times
                        ++ (plain at date f.dates
                            ++ (if_any at f.fake_delete
                                ++ (plain at string f.strings
                                    ++ (with_info at uinteger_nullable f.uintegers_nullable
                                        ++ (with_info at integer_nullable f.integers_nullable
                                            ++ (with_info at string_enum f.strings_enums
                                                ++ (plain at bytes f.bytes
                                                    ++ (with_info at string_set f.slice_strings_sets
                                                        ++ (plain at boolean_nullable
                                                            f.booleans_nullable
                                                            ++ (with_info at
                                                            (λ i. float_nullable i.0 i.1)
                                                            f.floats_nullable
                                                            ++ (plain at time_nullable
                                                            f.times_nullable
                                                            ++ (plain at date_nullable
                                                            f.dates_nullable
                                                            ++ (plain at json f.jsons
                                                            ++ plain at refs_many
                                                            f.refs_many))))))))))))))))))

unfoldable mutual
  unfolding build_own

  pub build_order : List ℕ → TableFields → List Column
  build_order at (table_fields own structs) = build_own at own ++ build_structs at structs

  pub build_structs : List ℕ → Structs → List Column
  build_structs at no_structs = []
  build_structs at (struct_field i fields structs) =
      build_order (at ++ (i ∷ [])) fields ++ build_structs at structs

-- `deserialize` goes through the columns in the order in which they are written.
mutual
  unfolding serialize_order serialize_structs deserialize_order deserialize_structs

  pub deserialize_order-eq :
      (at : List ℕ) (f : TableFields) → deserialize_order at f ≡ serialize_order at f
  deserialize_order-eq at (table_fields own structs) =
      ap (λ l. serialize_own at own ++ l) (deserialize_structs-eq at structs)

  deserialize_structs-eq :
      (at : List ℕ) (s : Structs) → deserialize_structs at s ≡ serialize_structs at s
  deserialize_structs-eq at no_structs = refl
  deserialize_structs-eq at (struct_field i fields structs) =
      ap (λ l. l ++ deserialize_structs at structs) (deserialize_order-eq (at ++ (i ∷ [])) fields)
      ∙ ap (λ l. serialize_order (at ++ (i ∷ [])) fields ++ l) (deserialize_structs-eq at structs)

-- `from_db` goes through the columns in the order in which they are written.
mutual
  unfolding serialize_order serialize_structs from_db_order from_db_structs

  pub from_db_order-eq : (at : List ℕ) (f : TableFields) → from_db_order at f ≡ serialize_order at f
  from_db_order-eq at (table_fields own structs) =
      ap (λ l. serialize_own at own ++ l) (from_db_structs-eq at structs)

  from_db_structs-eq : (at : List ℕ) (s : Structs) → from_db_structs at s ≡ serialize_structs at s
  from_db_structs-eq at no_structs = refl
  from_db_structs-eq at (struct_field i fields structs) =
      ap (λ l. l ++ from_db_structs at structs) (from_db_order-eq (at ++ (i ∷ [])) fields)
      ∙ ap (λ l. serialize_order (at ++ (i ∷ [])) fields ++ l) (from_db_structs-eq at structs)

-- `build` goes through the columns in the order in which they are written.
mutual
  unfolding serialize_order serialize_structs build_order build_structs

  pub build_order-eq : (at : List ℕ) (f : TableFields) → build_order at f ≡ serialize_order at f
  build_order-eq at (table_fields own structs) =
      ap (λ l. serialize_own at own ++ l) (build_structs-eq at structs)

  build_structs-eq : (at : List ℕ) (s : Structs) → build_structs at s ≡ serialize_structs at s
  build_structs-eq at no_structs = refl
  build_structs-eq at (struct_field i fields structs) =
      ap (λ l. l ++ build_structs at structs) (build_order-eq (at ++ (i ∷ [])) fields)
      ∙ ap (λ l. serialize_order (at ++ (i ∷ [])) fields ++ l) (build_structs-eq at structs)
