-- ===== src/Bind/Aligned.antt =====
-- Reading the binary form of the old entity while comparing.
use beeorm.Prelude.{
  subst, ℕ, ◌≡◌, refl, sym, ap, ◌∙◌, Bool, true, Option, List, [], ◌++◌, append-nil, append_assoc,
  Text, Result, panic, ok,
}
use beeorm.Serializer.{Serializer, Writer, Reader, pure, ◌>>=◌}
use beeorm.Serializer.Bytes.{Writes, Codec, ◌>>>◌, Writes-then}
use beeorm.Orm.{Platform}
use beeorm.Orm.Cells.{lift}
use beeorm.Bind.{Formats, BindValue, Context, BindBuilder, compared, compare, finish, build_column}
use beeorm.Bind.Compare.{decide}

-- A reader gives a result: it panics as the result does, or leaves the rest of the buffer.
abbrev pub Gives : {A : Type 0} → Result A → Result (A × Serializer) → List ℕ → Type 0
Gives (panic e) out rest = out ≡ panic e
Gives (ok v) out rest = (s' : Serializer) × (out ≡ ok (v, s')) × (s'.buffer ≡ rest)

-- From the bytes the reader gives the result.
pub record Takes {A : Type 0} (bytes : List ℕ) (r : Reader A) (result : Result A) : Type 0 where
  pub gives : (s : Serializer) (rest : List ℕ) → s.buffer ≡ bytes ++ rest → Gives result (r s) rest

-- From what the writer wrote, and from any start, the reader gives the result.
pub record Aligned {A B : Type 0} (w : Writer) (r : A → Reader B) (result : A → Result B)
    : Type 0 where
  pub bytes : List ℕ
  pub writes : Writes w bytes
  pub takes : (a : A) → Takes bytes (r a) (result a)

lift-Gives :
    {A : Type 0} (result : Result A) (s' : Serializer) (rest : List ℕ)
    (out : Result (A × Serializer))
    → out ≡ lift result s'
    → s'.buffer ≡ rest
    → Gives result out rest
lift-Gives (panic e) s' rest out is left = is
lift-Gives (ok v) s' rest out is left = (s', is, left)

pub bind_ok :
    {A B : Type 0} (r : Reader A) (f : A → Reader B) (s s' : Serializer) (v : A)
    → r s ≡ ok (v, s')
    → (r >>= f) s ≡ f v s'
bind_ok r f s s' v e = ap (λ o. elim o [ panic p ↦ panic p | ok x ↦ f x.0 x.1 ]) e

pub Aligned-bind :
    {A B C : Type 0} {w : Writer} {r : Reader A} {v : A} (k : B → A → Result C)
    → Codec w r v
    → Aligned w (λ b. r >>= λ a. lift (k b a)) (λ b. k b v)
Aligned-bind {r = r} {v = v} k c = record {
  bytes = c.bytes;
  writes = c.writes;
  takes = λ b. record {
    gives = λ s rest e.
        let (s', got, left) = c.reads.takes s rest e in
        lift-Gives (k b v) s' rest _ (bind_ok r (λ a. lift (k b a)) s s' v got) left;
  };
}

pub Aligned-nil : {A : Type 0} → Aligned {A = A} (λ s. s) (λ a. pure a) (λ a. ok a)
Aligned-nil = record {
  bytes = [];
  writes = record { appends = λ s. sym (append-nil s.buffer) };
  takes = λ a. record { gives = λ s rest e. (s, refl, e) };
}

abbrev pub then_result : {A B : Type 0} → Result A → (A → Result B) → Result B
then_result result k = elim result [ panic e ↦ panic e | ok a ↦ k a ]

Gives-then :
    {A B : Type 0} {bytes : List ℕ} (r : Reader A) (next : A → Reader B) (result : Result A)
    (k : A → Result B)
    → ((a : A) → Takes bytes (next a) (k a))
    → (s : Serializer) (rest : List ℕ) → Gives result (r s) (bytes ++ rest)
    → Gives (then_result result k) ((r >>= next) s) rest
Gives-then r next (panic e) k h s rest g =
    ap (λ o. elim o [ panic p ↦ panic p | ok x ↦ next x.0 x.1 ]) g
Gives-then r next (ok a) k h s rest (s1, got, left) =
    subst (λ out. Gives (k a) out rest) (sym (bind_ok r next s s1 a got)) ((h a).gives s1 rest left)

pub Aligned-then :
    {A B C : Type 0} {w w' : Writer} (r : A → Reader B) (next : B → Reader C) (k : A → Result B)
    (k' : B → Result C)
    → Aligned w r k
    → Aligned w' next k'
    → Aligned (w >>> w') (λ a. r a >>= next) (λ a. then_result (k a) k')
Aligned-then r next k k' h h' = record {
  bytes = h.bytes ++ h'.bytes;
  writes = Writes-then h.writes h'.writes;
  takes = λ a. record {
    gives = λ s rest e.
        Gives-then (r a) next (k a) k' h'.takes s rest
          ((h.takes a).gives s (h'.bytes ++ rest) (e ∙ append_assoc h.bytes h'.bytes rest));
  };
}

Takes-lift : {A : Type 0} (result : Result A) → Takes [] (lift result) result
Takes-lift result = record { gives = λ s rest e. lift-Gives result s rest _ refl e }

-- One column of an entity that is in the database.
pub column-Aligned :
    (p : Platform) (f : Formats p) (c : Context) {A : Type 0} {w : Writer} {read : Reader A}
    {old : A} (same : A → Bool) (shown : A → Result (Option (BindValue p))) (name : Text)
    (add : BindBuilder p → Result (BindBuilder p))
    → c.in_db ≡ true
    → Codec w read old
    → Aligned w
        (build_column p c (compare p c read same shown name) add)
        (decide p f c (same old) name (shown old) add)
unfolding build_column compare
column-Aligned p f c {read = read} {old = old} same shown name add there codec =
    let noted =
      Aligned-bind (λ (b : BindBuilder p) a. compared p c (same a) name (shown a) b.current)
        codec in
    record {
      bytes = noted.bytes;
      writes = noted.writes;
      takes = λ b. record {
        gives = λ s rest e. rw there (
            Gives-then (compare p c read same shown name b.current) (λ k. lift (finish p c add b k))
              (compared p c (same old) name (shown old) b.current) (finish p c add b)
              (λ k. Takes-lift (finish p c add b k)) s rest ((noted.takes b).gives s rest e));
      };
    }
