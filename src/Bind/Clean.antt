-- ===== src/Bind/Clean.antt =====
-- An entity that was not changed since it was written.
use beeorm.Prelude.{
  ◌^◌, ◌<◌, ◌≡◌, refl, sym, ap, subst, ◌∙◌, Bool, true, false, ◌||◌, not, if◌then◌else◌, [], All,
  Map, Text, Result, panic, ok, arith,
}
use beeorm.Serializer.{Serializer, new_serializer}
use beeorm.Orm.{Platform}
use beeorm.Orm.Order.{serialize_order}
use beeorm.Orm.Entity.{serialize}
use beeorm.Orm.RoundTrip.{FitsColumn}
use beeorm.Bind.{Formats, BindBuilder, BindValue}
use beeorm.Bind.Build.{
  TableSchema, Orm, mark_deleted, context_of, build_dirty_bind, get_dirty_bind, is_dirty,
}
use beeorm.Bind.Changes.{AreValid, any_changed}
use beeorm.Bind.Outcome.{build_dirty_bind-any_changed}
use beeorm.Bind.Same.{IsClean, any_changed-clean}

not_marked :
    (p : Platform) (t : TableSchema) (o : Orm p) → o.fake_delete ≡ false → mark_deleted p t o ≡ o
unfolding mark_deleted
not_marked p t o h = rw h refl

-- `IsDirty` from what `buildDirtyBind` gives.
abbrev bind_of :
    {p : Platform}
    → Result (((BindBuilder p × Bool) × Orm p) × Serializer)
    → Result ((Map Text (BindValue p) × Bool) × Orm p)
bind_of r = elim r [ panic e ↦ panic e | ok x ↦ ok ((x.0.0.0.bind, x.0.0.1), x.0.1) ]

abbrev answer_of :
    {p : Platform} → Bool → Result (((BindBuilder p × Bool) × Orm p) × Serializer) → Result Bool
answer_of in_db r =
    if not in_db then ok true else elim (bind_of r) [ panic e ↦ panic e | ok x ↦ ok x.0.1 ]

or_false : (a b : Bool) → a ≡ false → b ≡ false → (a || b) ≡ false
or_false a b h h' = ground arith

-- An entity of the database that is not marked, whose binary form `serialize` made of its own values, is
-- not dirty, if its values are compared as unchanged (`IsClean`) and the values of its enums are allowed.
pub is_dirty-serialize :
    (p : Platform) (f : Formats p) (t : TableSchema) (o : Orm p) (s : Serializer)
    → o.in_db ≡ true
    → o.delete ≡ false
    → o.fake_delete ≡ false
    → t.schema.structure_hash < 2 ^ 64
    → All (FitsColumn p o.elem) (serialize_order [] t.schema.fields)
    → All
        (λ col. IsClean p f (context_of p t o) col.kind (o.elem col.path col.kind))
        (serialize_order [] t.schema.fields)
    → AreValid p f (context_of p t o) o.elem 0 (serialize_order [] t.schema.fields)
    → s.buffer ≡ []
    → o.binary ≡ (serialize p t.schema o.elem s).0
    → is_dirty p f t o ≡ ok false
unfolding is_dirty get_dirty_bind
is_dirty-serialize p f t o s there kept plain hash fits clean valid empty from =
    let cols = serialize_order [] t.schema.fields in
    let as_is : mark_deleted p t o ≡ o = not_marked p t o plain in
    let (b, s', answer, bound, left) =
      build_dirty_bind-any_changed p f t o o.elem s (new_serializer []) there hash fits
        (subst (λ m. AreValid p f (context_of p t m) m.elem 0 cols) (sym as_is) valid) empty from in
    let none_changed : any_changed p f (context_of p t (mark_deleted p t o)) o.elem
          (mark_deleted p t o).elem cols
        ≡ false =
      subst (λ m. any_changed p f (context_of p t m) o.elem m.elem cols ≡ false) (sym as_is)
        (any_changed-clean p f (context_of p t o) o.elem cols fits clean) in
    let spared : (mark_deleted p t o).delete ≡ false = ap (λ m. m.delete) as_is ∙ kept in
    let clean_marks : ((mark_deleted p t o).delete
          || any_changed p f (context_of p t (mark_deleted p t o)) o.elem (mark_deleted p t o).elem
              cols)
        ≡ false =
      or_false _ _ spared none_changed in
    ap (λ i. answer_of i (build_dirty_bind p f t o (new_serializer []))) there
    ∙ ap (answer_of true) answer
    ∙ ap ok clean_marks
