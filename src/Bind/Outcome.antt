-- ===== src/Bind/Outcome.antt =====
-- What `buildDirtyBind` answers.
use beeorm.Prelude.{
  ◌^◌, ◌<◌, ◌≡◌, refl, ap, subst, ◌∙◌, Bool, true, ◌||◌, ◌&&◌, not, [], All, ok, arith, Bool-cases,
  inl, inr,
}
use beeorm.Serializer.{Serializer, pure, ◌>>=◌, reset}
use beeorm.Orm.{Platform}
use beeorm.Orm.Order.{serialize_order}
use beeorm.Orm.Entity.{Elem, serialize}
use beeorm.Orm.RoundTrip.{FitsColumn}
use beeorm.Bind.{Formats, BindBuilder}
use beeorm.Bind.Strings.{is_empty}
use beeorm.Bind.Build.{
  TableSchema, Orm, mark_deleted, context_of, new_bind_builder, build, build_dirty_bind,
}
use beeorm.Bind.Aligned.{Gives, bind_ok}
use beeorm.Bind.Dirty.{build-compare_columns}
use beeorm.Bind.Changes.{AreValid, any_changed, compare_columns-Lands}

not-not : (t : Bool) → not (not t && true) ≡ t
not-not t = ground arith

and_true : (t : Bool) → (t && true) ≡ t
and_true t = ground arith

pub mark_in_db : (p : Platform) (t : TableSchema) (o : Orm p) → (mark_deleted p t o).in_db ≡ o.in_db
unfolding mark_deleted
mark_in_db p t o = elim (Bool-cases o.fake_delete) [
  | inl fake ↦ elim (Bool-cases t.has_fake_delete) [
    | inl has ↦ rw (fake, has) refl
    | inr has_not ↦ rw (fake, has_not) refl
  ]
  | inr real ↦ rw real refl
]

mark_binary : (p : Platform) (t : TableSchema) (o : Orm p) → (mark_deleted p t o).binary ≡ o.binary
unfolding mark_deleted
mark_binary p t o = elim (Bool-cases o.fake_delete) [
  | inl fake ↦ elim (Bool-cases t.has_fake_delete) [
    | inl has ↦ rw (fake, has) refl
    | inr has_not ↦ rw (fake, has_not) refl
  ]
  | inr real ↦ rw real refl
]

verdict :
    (in_db delete empty changed : Bool)
    → in_db ≡ true
    → empty ≡ (not changed && true)
    → (not in_db || (delete || not empty)) ≡ (delete || changed)
verdict in_db delete empty changed h h' = ground arith

-- `buildDirtyBind` of an entity of the database, whose binary form `serialize` made of old values, returns
-- when the new values of its enums are allowed: the entity is dirty exactly if it is to be deleted or
-- the comparison of its values by `any_changed` finds a change, the bind is empty exactly if it finds
-- none, and the binary form is read to the end. An entity marked for a fake delete counts with its mark.
pub build_dirty_bind-any_changed :
    (p : Platform) (f : Formats p) (t : TableSchema) (o : Orm p) (old : Elem p) (s s2 : Serializer)
    → o.in_db ≡ true
    → t.schema.structure_hash < 2 ^ 64
    → All (FitsColumn p old) (serialize_order [] t.schema.fields)
    → AreValid p f
        (context_of p t (mark_deleted p t o))
        (mark_deleted p t o).elem
        0
        (serialize_order [] t.schema.fields)
    → s.buffer ≡ []
    → o.binary ≡ (serialize p t.schema old s).0
    → let marked = mark_deleted p t o in
      let changed =
        any_changed p f
          (context_of p t marked)
          old
          marked.elem
          (serialize_order [] t.schema.fields) in
      (b : BindBuilder p) × (s' : Serializer) × (build_dirty_bind p f t o s2
        ≡ ok (((b, marked.delete || changed), marked), s'))
      × (is_empty b.bind ≡ not changed)
      × (s'.buffer ≡ [])
unfolding build_dirty_bind
build_dirty_bind-any_changed p f t o old s s2 there hash fits valid empty from =
    let marked = mark_deleted p t o in
    let c = context_of p t marked in
    let cols = serialize_order [] t.schema.fields in
    let stored = (serialize p t.schema old s).0 in
    let present : c.in_db ≡ true = mark_in_db p t o ∙ there in
    let (b, result, is) =
      compare_columns-Lands p f c old marked.elem 0 cols (new_bind_builder p) fits valid in
    let run = build p f c t.schema.fields marked.elem (new_bind_builder p) in
    let (s', got, left) : Gives (ok b) (run (reset stored s2)) [] =
      subst (λ r. Gives r (run (reset stored s2)) []) result
        (build-compare_columns p f c t.schema old marked.elem (new_bind_builder p) s s2 present hash
          fits empty) in
    let answer = λ (x : BindBuilder p).
      pure ((x, not marked.in_db || (marked.delete || not (is_empty x.bind))), marked) in
    (
      b,
      s',
      ap (λ x. (run >>= answer) (reset x s2)) (mark_binary p t o ∙ from)
          ∙ bind_ok run answer (reset stored s2) s' b got
          ∙ ap (λ d. ok (((b, d), marked), s'))
              (verdict marked.in_db marked.delete (is_empty b.bind)
                (any_changed p f c old marked.elem cols) present is),
      is ∙ and_true (not (any_changed p f c old marked.elem cols)),
      left,
    )
