-- ===== src/Flusher/Loops.antt =====
-- flusher.go: what a sequence of calls or a loop keeps when each call keeps it, a panic included.
use beeorm.Prelude.{
  ◌≡◌, refl, Bool, true, false, Option, none, some, List, [], ◌∷◌, Result, ok, panic, Panic,
  if◌then◌else◌,
}
use beeorm.Flusher.World.{Model, World, Action, and_then, for_each}

module _ {m : Model} (P : World m → Type 0) where
  pub and_then-keeps :
      {A B : Type 0} (first : Result A × World m) (next : A → Action m B)
      → P first.1
      → ((a : A) (w : World m) → P w → P (next a w).1)
      → P (and_then first next).1
  unfolding and_then
  and_then-keeps (panic p, w) next h k = h
  and_then-keeps (ok a, w) next h k = k a w h

  pub if-keeps :
      {A : Type 0} (b : Bool) (first second : Result A × World m)
      → P first.1
      → P second.1
      → P (if b then first else second).1
  if-keeps true first second h k = h
  if-keeps false first second h k = k

  pub for_each-keeps :
      {A : Type 0} (body : A → Action m Unit)
      → ((x : A) (w : World m) → P w → P (body x w).1)
      → (xs : List A) (w : World m) → P w
      → P (for_each xs body w).1
  unfolding for_each
  for_each-keeps body k [] w h = h
  for_each-keeps body k (x ∷ xs) w h =
      and_then-keeps (body x w) (λ _. for_each xs body) (k x w h)
        (λ _ after kept. for_each-keeps body k xs after kept)

pub if-each {ℓ} :
    {X : Type ℓ} (P : X → Type 0) (b : Bool) (first second : X)
    → P first
    → P second
    → P (if b then first else second)
if-each P true first second h k = h
if-each P false first second h k = k

pub elim-keeps {ℓ} :
    {A : Type 0} {X : Type ℓ} (P : X → Type 0) (o : Option A) (default : X) (f : A → X)
    → P default
    → ((a : A) → P (f a))
    → P (elim o [ none ↦ default | some a ↦ f a ])
elim-keeps P none default f h k = h
elim-keeps P (some a) default f h k = k a

module _ {m : Model} (P : World m → Type 0) {A B : Type 0} where
  -- What holds where a sequence panics, its first call or the rest.
  pub and_then-panic :
      (first : Result A × World m) (next : A → Action m B) (p : Panic)
      → P first.1
      → ((a : A) (w : World m) → P w → (next a w).0 ≡ panic p → P (next a w).1)
      → (and_then first next).0 ≡ panic p
      → P (and_then first next).1
  unfolding and_then
  and_then-panic (panic q, w) next p h k e = h
  and_then-panic (ok a, w) next p h k e = k a w h e

module _ {m : Model} {A B : Type 0} where
  pub and_then-ok :
      (first : Result A × World m) (next : A → Action m B) (a : A)
      → first.0 ≡ ok a
      → and_then first next ≡ next a first.1
  unfolding and_then
  and_then-ok (r, w) next a h = rw h refl

module _ {m : Model} (P Q : World m → Type 0) {A B : Type 0} where
  -- The first call leaves `P`, and the rest makes `Q` of it.
  pub and_then-leads :
      (first : Result A × World m) (next : A → Action m B)
      → P first.1
      → ((w : World m) → P w → Q w)
      → ((a : A) (w : World m) → P w → Q (next a w).1)
      → Q (and_then first next).1
  unfolding and_then
  and_then-leads (panic q, w) next h weaken k = weaken w h
  and_then-leads (ok a, w) next h weaken k = k a w h

panicked : {B : Type 0} {b : B} (p : Panic) → panic p ≡ ok b → ⊥
panicked p h = cc

module _ {m : Model} {A B : Type 0} where
  -- A sequence that returns: its first call returned, and so did the rest.
  pub and_then-returned :
      {b : B} (first : Result A × World m) (next : A → Action m B)
      → (and_then first next).0 ≡ ok b
      → (a : A) × (first.0 ≡ ok a) × ((next a first.1).0 ≡ ok b)
  unfolding and_then
  and_then-returned (panic p, w) next h = absurd (panicked p h)
  and_then-returned (ok a, w) next h = (a, refl, h)

  -- Two sequences go on in the same way.
  pub and_then-same :
      (first : Result A × World m) (next next' : A → Action m B)
      → ((a : A) → first.0 ≡ ok a → next a first.1 ≡ next' a first.1)
      → and_then first next ≡ and_then first next'
  unfolding and_then
  and_then-same (panic p, w) next next' h = refl
  and_then-same (ok a, w) next next' h = h a refl
