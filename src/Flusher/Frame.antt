-- ===== src/Flusher/Frame.antt =====
-- flusher.go: what no part of a flush changes: which entities are tracked, their types and their
-- references; and an id that is given stays given.
pub mod Caches
pub mod Statements
pub mod Collecting
pub mod Whole
use beeorm.Prelude.{
  ◌≡◌, ◌≢◌, refl, sym, ap, ◌∙◌, subst, ℕ, Bool, true, false, Option, none, some, List, [], ◌∷◌,
  ◌++◌, Map, Text, Result, ok, panic, Bool-cases, inl, inr, arith, if◌then◌else◌, ◌==◌, ==_iff,
}
use beeorm.Flusher.World.{Ref, Model, World, Entity, set_entity}
use beeorm.Flusher.Collect.{references_of}

pub record Keeps {m : Model} (w w' : World m) : Type 0 where
  pub tracked : w'.tracked_entities ≡ w.tracked_entities
  pub tables : (r : Ref) → (w'.store r).table ≡ (w.store r).table
  pub references : (r : Ref) → references_of m (w'.store r) ≡ references_of m (w.store r)
  pub ids : (r : Ref) → (w.store r).id ≢ 0 → (w'.store r).id ≢ 0

module _ {m : Model} where
  pub Keeps-refl : (w : World m) → Keeps w w
  Keeps-refl w = record {
    tracked = refl;
    tables = λ r. refl;
    references = λ r. refl;
    ids = λ r h. h;
  }

  -- The entities and the list of those tracked are as before.
  pub record SameStore (w w' : World m) : Type 0 where
    pub store : w'.store ≡ w.store
    pub tracked : w'.tracked_entities ≡ w.tracked_entities

  -- So are the queries collected and the statements sent.
  pub record SameData (w w' : World m) : Type 0 where
    pub store : w'.store ≡ w.store
    pub tracked : w'.tracked_entities ≡ w.tracked_entities
    pub history : w'.history ≡ w.history
    pub update_sqls : w'.update_sqls ≡ w.update_sqls

  -- So is what was published.
  pub record Same (w w' : World m) : Type 0 where
    pub store : w'.store ≡ w.store
    pub tracked : w'.tracked_entities ≡ w.tracked_entities
    pub history : w'.history ≡ w.history
    pub update_sqls : w'.update_sqls ≡ w.update_sqls
    pub published : w'.engine.published ≡ w.engine.published

  -- A property that neither a change of what is collected for the caches nor a change of an entity
  -- outside of its type, its references and its id can break.
  pub record IsFramed (P : World m → Type 0) : Type 0 where
    pub same : (w w' : World m) → Same w w' → P w → P w'
    pub written :
        (r : Ref) (e : Entity m.Content m.Value) (w : World m)
        → e.table ≡ (w.store r).table
        → references_of m e ≡ references_of m (w.store r)
        → e.id ≡ (w.store r).id
        → P w
        → P (set_entity r e w)

module _ {m : Model} where
  -- What holds of the entity that is written, and of the others as they were.
  pub set_entity-each :
      (P : Ref → Entity m.Content m.Value → Type 0) (r : Ref) (e : Entity m.Content m.Value)
      (w : World m)
      → P r e
      → ((s : Ref) → P s (w.store s))
      → (s : Ref) → P s ((set_entity r e w).store s)
  unfolding set_entity
  set_entity-each P r e w new old s = elim (Bool-cases (s == r)) [
    | inl same ↦ rw same (subst (λ t. P t e) (sym ((==_iff s r).0 same)) new)
    | inr other ↦ rw other (old s)
  ]

  pub set_entity_self :
      (r : Ref) (e : Entity m.Content m.Value) (w : World m) → (set_entity r e w).store r ≡ e
  unfolding set_entity
  set_entity_self r e w = rw ((==_iff r r).1 refl) refl

module _ {m : Model} {w0 : World m} where
  pub SameStore-Keeps : (w w' : World m) → SameStore w w' → Keeps w0 w → Keeps w0 w'
  SameStore-Keeps w w' h k = record {
    tracked = h.tracked ∙ k.tracked;
    tables = λ r. ap (λ s. (s r).table) h.store ∙ k.tables r;
    references = λ r. ap (λ s. references_of m (s r)) h.store ∙ k.references r;
    ids = λ r given. subst (λ s. (s r).id ≢ 0) (sym h.store) (k.ids r given);
  }

  pub set_entity-Keeps :
      (r : Ref) (e : Entity m.Content m.Value) (w : World m)
      → e.table ≡ (w.store r).table
      → references_of m e ≡ references_of m (w.store r)
      → ((w.store r).id ≢ 0 → e.id ≢ 0)
      → Keeps w0 w
      → Keeps w0 (set_entity r e w)
  unfolding set_entity
  set_entity-Keeps r e w same_table same_references still k = record {
    tracked = k.tracked;
    tables =
        set_entity-each (λ s new. new.table ≡ (w0.store s).table) r e w (same_table ∙ k.tables r)
          k.tables;
    references =
        set_entity-each (λ s new. references_of m new ≡ references_of m (w0.store s)) r e w
          (same_references ∙ k.references r) k.references;
    ids =
        set_entity-each (λ s new. (w0.store s).id ≢ 0 → new.id ≢ 0) r e w
          (λ given. still (k.ids r given)) k.ids;
  }

  pub Keeps-IsFramed : IsFramed (Keeps w0)
  Keeps-IsFramed = record {
    same = λ w w' h. SameStore-Keeps w w' (record { store = h.store; tracked = h.tracked });
    written =
        λ r e w t refs i. set_entity-Keeps r e w t refs (λ given. subst (λ n. n ≢ 0) (sym i) given);
  }

  pub SameData-Keeps : (w w' : World m) → SameData w w' → Keeps w0 w → Keeps w0 w'
  SameData-Keeps w w' h = SameStore-Keeps w w' (record { store = h.store; tracked = h.tracked })
