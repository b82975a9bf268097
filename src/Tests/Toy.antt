-- ===== src/Tests/Toy.antt =====
-- Concrete caches, which show that the interfaces can be met.
use beeorm.Prelude.{
  ℕ, zero, ◌≡◌, ◌≢◌, ◌⊎◌, inl, inr, refl, none, some, List, [], ◌∷◌, All, Text, text_discrete, Map,
  lookup, insert, delete, lookup-insert, lookup-delete, length, arith,
}
use beeorm.Cache.{LocalCache, Redis}
use beeorm.LocalCache.{Lru}
use beeorm.LoadById.{Cached, Backend}

-- A cache that never evicts, as an association list.
module _ {V : Type 0} where
  pub lookup-insert_sound :
      (s : Map Text V) (k j : Text) (w : V) {v : V}
      → lookup text_discrete j (insert text_discrete k w s) ≡ some v
      → ((j ≡ k) × (v ≡ w)) ⊎ (lookup text_discrete j s ≡ some v)
  lookup-insert_sound s k j w h = elim (text_discrete k j) [
    | yes e ↦ inl (ground arith, ground (arith, lookup-insert text_discrete k j w s))
    | no ne ↦ inr (ground (arith, lookup-insert text_discrete k j w s))
  ]

  pub lookup-delete_sound :
      (s : Map Text V) (k j : Text) {v : V}
      → lookup text_discrete j (delete text_discrete k s) ≡ some v
      → (j ≢ k) × (lookup text_discrete j s ≡ some v)
  lookup-delete_sound s k j h = elim (text_discrete k j) [
    | yes e ↦ absurd (ground (arith, lookup-delete {V = V} text_discrete k j s))
    | no ne ↦ (λ e. ne (ground arith), ground (arith, lookup-delete {V = V} text_discrete k j s))
  ]

  abbrev pub delete_all : Map Text V → List Text → Map Text V
  delete_all s [] = s
  delete_all s (k ∷ ks) = delete_all (delete text_discrete k s) ks

  pub delete_all_sound :
      (s : Map Text V) (ks : List Text) (j : Text) {v : V}
      → lookup text_discrete j (delete_all s ks) ≡ some v
      → All (λ k. j ≢ k) ks × (lookup text_discrete j s ≡ some v)
  delete_all_sound s [] j h = (tt, h)
  delete_all_sound s (k ∷ ks) j h =
      let (rest, before) = delete_all_sound (delete text_discrete k s) ks j h in
      let (ne, first) = lookup-delete_sound s k j before in ((ne, rest), first)

abbrev pub toy_local : LocalCache Cached
toy_local = record {
  State = Map Text Cached;
  find = λ s k. lookup text_discrete k s;
  touch = λ s k. s;
  store = λ s k v. insert text_discrete k v s;
  remove = λ s k. delete text_discrete k s;
  touch_sound = λ s k j h. h;
  store_sound = λ s k j w h. lookup-insert_sound s k j w h;
  remove_sound = λ s k j h. lookup-delete_sound s k j h;
}

abbrev pub toy_redis : Redis
toy_redis = record {
  State = Map Text Text;
  find = λ s k. lookup text_discrete k s;
  store = λ s k v ttl. insert text_discrete k v s;
  del = λ s ks. delete_all s ks;
  store_sound = λ s k j w ttl h. lookup-insert_sound s k j w h;
  del_sound = λ s ks j h. delete_all_sound s ks j h;
}

-- An entity with one column that is a byte.
abbrev pub decode_first : Text → ℕ
decode_first [] = zero
decode_first (x ∷ xs) = x

pub byte-ne-nil : (r : ℕ) → ◌≢◌ {A = Text} (r ∷ []) []
byte-ne-nil r h = cc

abbrev pub toy_backend : Backend
toy_backend = record {
  Row = ℕ;
  encode = λ r. r ∷ [];
  decode = decode_first;
  decode-encode = λ r. refl;
  encode-ne-nil = byte-ne-nil;
  local = toy_local;
  redis = toy_redis;
}

module _ {V : Type 0} where
  pub find-add_ne :
      (s : Map Text V) (k j : Text) (w : V) {v : V}
      → j ≢ k
      → lookup text_discrete j (insert text_discrete k w s) ≡ some v
      → lookup text_discrete j s ≡ some v
  find-add_ne s k j w ne h = elim (lookup-insert_sound s k j w h) [
    | inl (e, p) ↦ absurd (ne e)
    | inr old ↦ old
  ]

  pub find-add_self :
      (s : Map Text V) (k : Text) (v : V)
      → lookup text_discrete k (insert text_discrete k v s) ≡ some v
  find-add_self s k v = ground (arith, lookup-insert text_discrete k k v s)

  pub find-remove_self :
      (s : Map Text V) (k : Text) → lookup text_discrete k (delete text_discrete k s) ≡ none
  find-remove_self s k = ground (arith, lookup-delete {V = V} text_discrete k k s)

  pub find-remove_ne :
      (s : Map Text V) (k j : Text)
      → j ≢ k
      → lookup text_discrete j (delete text_discrete k s) ≡ lookup text_discrete j s
  find-remove_ne s k j ne = ground (arith, lookup-delete {V = V} text_discrete k j s)

  pub find-nil : (k : Text) → lookup {V = V} text_discrete k [] ≡ none
  unfolding lookup
  find-nil k = refl

abbrev pub toy_lru : (V : Type 0) → Lru V
toy_lru V = record {
  State = Map Text V;
  fresh = λ limit. [];
  find = λ s k. lookup text_discrete k s;
  touch = λ s k. s;
  add = λ s k v. insert text_discrete k v s;
  remove = λ s k. delete text_discrete k s;
  clear = λ s. [];
  len = length;
  find-fresh = λ limit k. find-nil k;
  find-touch = λ s k j. refl;
  find-add_self = find-add_self;
  find-add_ne = find-add_ne;
  find-remove_self = find-remove_self;
  find-remove_ne = find-remove_ne;
  find-clear = λ s k. find-nil k;
}
