-- ===== src/Orm/Cells/Combine.antt =====
-- Readers and writers of optional values and of lists.
use beeorm.Prelude.{
  ℕ, ◌≤◌, ◌≡◌, ◌==◌, refl, sym, ap, subst, true, false, Option, none, some, List, [], ◌∷◌, ◌++◌,
  append-nil, length, map, All, arith,
}
use beeorm.Serializer.{Writer, Reader, pure, ◌>>=◌}
use beeorm.Serializer.Bytes.{Codec, ◌>>>◌, Writes-then, Reads-pure, Reads-bind, bool-Codec}
use beeorm.Orm.Cells.{serialize_option, deserialize_option, write_each, read_each}

pub Codec-map :
    {A B : Type 0} {w : Writer} {r : Reader A} {v : A} (f : A → B) (v' : B)
    → f v ≡ v'
    → Codec w r v
    → Codec w (r >>= λ a. pure (f a)) v'
Codec-map {v = v} f v' e c = record {
  bytes = c.bytes ++ [];
  writes = rw append-nil c.writes;
  reads = Reads-bind (λ a. pure (f a)) c.reads (rw e (Reads-pure v'));
}

-- The reader's continuation is a test that it passes.
pub Codec-bind_nil :
    {A B : Type 0} {w : Writer} {r : Reader A} {v : A} (f : A → Reader B) (v' : B)
    → f v ≡ pure v'
    → Codec w r v
    → Codec w (r >>= f) v'
Codec-bind_nil f v' e c = record {
  bytes = c.bytes ++ [];
  writes = rw append-nil c.writes;
  reads = Reads-bind f c.reads (rw e (Reads-pure v'));
}

pub Codec-bind :
    {A B : Type 0} {w w' : Writer} {r : Reader A} {v : A} (f : A → Reader B) (v' : B)
    → Codec w r v
    → Codec w' (f v) v'
    → Codec (w >>> w') (r >>= f) v'
Codec-bind f v' c c' = record {
  bytes = c.bytes ++ c'.bytes;
  writes = Writes-then c.writes c'.writes;
  reads = Reads-bind f c.reads c'.reads;
}

abbrev pub map_option : {A B : Type 0} → (A → B) → Option A → Option B
map_option f none = none
map_option f (some a) = some (f a)

unfoldable pub AllOption : {A : Type 0} → (A → Type 0) → Option A → Type 0
AllOption P none = Unit
AllOption P (some a) = P a

pub option-Codec :
    {A B : Type 0} (P : A → Type 0) (w : A → Writer) (r : Reader B) (k : A → B)
    → ((a : A) → P a → Codec (w a) r (k a))
    → (o : Option A) → AllOption P o
    → Codec (serialize_option w o) (deserialize_option r) (map_option k o)
unfolding AllOption
option-Codec P w r k h none fits = Codec-bind_nil _ none refl (bool-Codec false)
option-Codec P w r k h (some a) fits =
    Codec-bind _ (some (k a)) (bool-Codec true) (Codec-map some (some (k a)) refl (h a fits))

pub each-Codec :
    {A B : Type 0} (P : A → Type 0) (w : A → Writer) (r : Reader B) (k : A → B)
    → ((a : A) → P a → Codec (w a) r (k a))
    → (xs : List A) → All P xs
    → Codec (write_each w xs) (read_each r (length xs)) (map k xs)
unfolding write_each read_each
each-Codec P w r k h [] fits = record {
  bytes = [];
  writes = record { appends = λ s. sym (append-nil s.buffer) };
  reads = Reads-pure [];
}
each-Codec P w r k h (x ∷ xs) fits =
    Codec-bind _ (map k (x ∷ xs)) (h x fits.0)
      (Codec-map (λ ys. k x ∷ ys) (map k (x ∷ xs)) refl (each-Codec P w r k h xs fits.1))

pub pos-ne-zero : (n : ℕ) → 1 ≤ n → (n == 0) ≡ false
pos-ne-zero n h = ground arith

pub map-same : {A : Type 0} (xs : List A) → map (λ x. x) xs ≡ xs
map-same [] = refl
map-same (x ∷ xs) = ap (λ ys. x ∷ ys) (map-same xs)

pub Codec-eq :
    {A : Type 0} {w : Writer} {r : Reader A} {v v' : A} → v ≡ v' → Codec w r v → Codec w r v'
Codec-eq {w = w} {r = r} e c = subst (Codec w r) e c

pub map_option-same : {A : Type 0} (o : Option A) → map_option (λ x. x) o ≡ o
map_option-same none = refl
map_option-same (some a) = refl

pub AllOption-any : {A : Type 0} (o : Option A) → AllOption (λ x. Unit) o
unfolding AllOption
AllOption-any none = tt
AllOption-any (some a) = tt
