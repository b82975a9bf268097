-- ===== src/LocalCache/Reads.antt =====
-- local_cache.go: what `Get`, `MGet`, `Set` and `Remove` do to what the cache holds.
use beeorm.Prelude.{
  ◌≡◌, ◌≢◌, refl, sym, ap, ◌∙◌, ite, if_pos, if_neg, Option, none, some, List, [], ◌∷◌, map, Text,
  text_discrete, ℕ_discrete, ok, arith,
}
use mathlib.Core.Path.{fun_ext}
use beeorm.LocalCache.{Lru, shard, Shards, get, put, remove_one, mget, remove}
use beeorm.LocalCache.Shards

module _ {V : Type 0} (lru : Lru V) where
  pub view-touch :
      (c : Shards lru) (k j : Text)
      → Shards.IsSharded lru c
      → Shards.view lru (Shards.change lru (λ l. lru.touch l k) c k) j ≡ Shards.view lru c j
  view-touch c k j h = elim (ℕ_discrete (shard k) (shard j)) [
    | yes same ↦
        let (l, before, now) = Shards.view-change_same lru (λ l. lru.touch l k) c k j same h in
        now ∙ lru.find-touch l k j ∙ sym before
    | no other ↦ Shards.view-change_other lru (λ l. lru.touch l k) c k j other
  ]

  mget-cons :
      (c n c' : Shards lru) (k : Text) (ks : List Text) (v : Option V) (vs : List (Option V))
      → get lru c k ≡ ok (v, n)
      → mget lru n ks ≡ ok (vs, c')
      → mget lru c (k ∷ ks) ≡ ok (v ∷ vs, c')
  unfolding mget
  mget-cons c n c' k ks v vs h r = ground arith

  -- On the 100 lists of a cache `MGet` does not panic, returns what the cache holds for each key, in
  -- order, and changes nothing that the cache holds.
  pub mget-eq-views :
      (ks : List Text) (c : Shards lru)
      → Shards.IsSharded lru c
      → (c' : Shards lru) × (mget lru c ks ≡ ok (map (Shards.view lru c) ks, c'))
        × Shards.IsSharded lru c'
        × ((j : Text) → Shards.view lru c' j ≡ Shards.view lru c j)
  mget-eq-views [] c h = (c, unfold mget in refl, h, λ j. refl)
  mget-eq-views (k ∷ ks) c h =
      let next = Shards.change lru (λ l. lru.touch l k) c k in
      let same = λ (j : Text). view-touch c k j h in
      let (c', rest, sharded, kept) =
        mget-eq-views ks next (Shards.IsSharded-change lru (λ l. lru.touch l k) c k h) in
      (
        c',
        mget-cons c next c' k ks (Shards.view lru c k) (map (Shards.view lru c) ks)
            (Shards.get-eq lru c k h) (rest ∙ ap (λ f. ok (map f ks, c')) (fun_ext same)),
        sharded,
        λ j. kept j ∙ same j,
      )

  -- On the 100 lists of a cache `Set` does not panic and keeps the 100 lists. The cache then holds
  -- the value for the key; another key holds what it held, or was evicted; and a key of another list
  -- holds what it held.
  pub put_lem :
      (c : Shards lru) (k : Text) (v : V)
      → Shards.IsSharded lru c
      → (c' : Shards lru) × (put lru c k v ≡ ok c')
        × Shards.IsSharded lru c'
        × (Shards.view lru c' k ≡ some v)
        × ((j : Text) (w : V)
            → j ≢ k
            → Shards.view lru c' j ≡ some w
            → Shards.view lru c j ≡ some w)
        × ((j : Text) → shard k ≢ shard j → Shards.view lru c' j ≡ Shards.view lru c j)
  put_lem c k v h =
      let f = λ (l : lru.State). lru.add l k v in
      let (l, before, now) = Shards.view-change_same lru f c k k refl h in
      (
        Shards.change lru f c k,
        Shards.put-eq lru c k v h,
        Shards.IsSharded-change lru f c k h,
        now ∙ lru.find-add_self l k v,
        λ j w ne held. put-old c k v h j w ne held,
        λ j other. Shards.view-change_other lru f c k j other,
      )
    where
      put-old :
          (c : Shards lru) (k : Text) (v : V)
          → Shards.IsSharded lru c
          → (j : Text) (w : V) → j ≢ k
          → Shards.view lru (Shards.change lru (λ l. lru.add l k v) c k) j ≡ some w
          → Shards.view lru c j ≡ some w
      put-old c k v h j w ne held = elim (ℕ_discrete (shard k) (shard j)) [
        | no other ↦ sym (Shards.view-change_other lru (λ l. lru.add l k v) c k j other) ∙ held
        | yes same ↦
            let (l, before, now) = Shards.view-change_same lru (λ l. lru.add l k v) c k j same h in
            before ∙ lru.find-add_ne l k j v ne (sym now ∙ held)
      ]

  -- What is left for key `j` once the keys of a list are removed.
  abbrev pub without : Text → List Text → Option V → Option V
  without j [] o = o
  without j (k ∷ ks) o = without j ks (ite (text_discrete k j) none o)

  remove_one-view :
      (c : Shards lru) (k j : Text)
      → Shards.IsSharded lru c
      → Shards.view lru (Shards.change lru (λ l. lru.remove l k) c k) j
        ≡ ite (text_discrete k j) none (Shards.view lru c j)
  remove_one-view c k j h = elim (ℕ_discrete (shard k) (shard j)) [
    | no other ↦
        let kept = Shards.view-change_other lru (λ l. lru.remove l k) c k j other in
        elim (text_discrete k j) [
          | yes e ↦ absurd (other (ap shard e))
          | no ne ↦ rw (if_neg _ ne) kept
        ]
    | yes same ↦
        let (l, before, now) = Shards.view-change_same lru (λ l. lru.remove l k) c k j same h in
        elim (text_discrete k j) [
          | yes e ↦
              rw (if_pos _ e)
                (now ∙ ap (lru.find (lru.remove l k)) (sym e) ∙ lru.find-remove_self l k)
          | no ne ↦ rw (if_neg _ ne) (now ∙ lru.find-remove_ne l k j (λ e. ne (sym e)) ∙ sym before)
        ]
  ]

  remove-cons :
      (c n c' : Shards lru) (k : Text) (ks : List Text)
      → remove_one lru c k ≡ ok n
      → remove lru n ks ≡ ok c'
      → remove lru c (k ∷ ks) ≡ ok c'
  unfolding remove
  remove-cons c n c' k ks h r = ground arith

  -- On the 100 lists of a cache `Remove` does not panic and keeps the 100 lists; the cache then holds
  -- nothing for the given keys, and for every other key what it held.
  pub remove_lem :
      (ks : List Text) (c : Shards lru)
      → Shards.IsSharded lru c
      → (c' : Shards lru) × (remove lru c ks ≡ ok c')
        × Shards.IsSharded lru c'
        × ((j : Text) → Shards.view lru c' j ≡ without j ks (Shards.view lru c j))
  remove_lem [] c h = (c, unfold remove in refl, h, λ j. refl)
  remove_lem (k ∷ ks) c h =
      let next = Shards.change lru (λ l. lru.remove l k) c k in
      let (c', rest, sharded, kept) =
        remove_lem ks next (Shards.IsSharded-change lru (λ l. lru.remove l k) c k h) in
      (
        c',
        remove-cons c next c' k ks (Shards.remove_one-eq lru c k h) rest,
        sharded,
        λ j. kept j ∙ ap (without j ks) (remove_one-view c k j h),
      )
