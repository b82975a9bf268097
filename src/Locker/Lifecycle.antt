-- ===== src/Locker/Lifecycle.antt =====
-- `Refresh` and `Release` of locker.go over the life of a lock.
use beeorm.Prelude.{◌≤◌, ◌≡◌, refl, ◌⊎◌, inl, inr, ◌∙◌, ap, true, false, List, [], ◌∷◌, ok, arith}
use beeorm.Locker.{Lock, UnlockAnswer, ExtendAnswer, release, refresh, extend_failed, extend_taken}

pub data Use : Type 0 where
  use_release : UnlockAnswer → Use
  use_refresh : ExtendAnswer → Use

unfoldable pub used : Use → Lock → Lock
used (use_release a) l = (release a l).0
used (use_refresh a) l = (refresh a l).0

unfoldable pub used_all : List Use → Lock → Lock
used_all [] l = l
used_all (u ∷ us) l = used_all us (used u l)

-- The lock was released at most once, and never while it is held.
pub record IsSound (l : Lock) : Type 0 where
  pub once : l.unlocks ≤ 1
  pub held : l.has ≡ true → l.unlocks ≡ 0

used-IsSound : (u : Use) (l : Lock) → IsSound l → IsSound (used u l)
unfolding used release refresh
used-IsSound (use_release a) l h = ground arith
used-IsSound (use_refresh a) l h = ground arith

-- Whatever redsync answers, a lock that is refreshed and released any number of times is unlocked at
-- most once, and not at all while it is held.
pub used_all-IsSound : (us : List Use) (l : Lock) → IsSound l → IsSound (used_all us l)
unfolding used_all
used_all-IsSound [] l h = h
used_all-IsSound (u ∷ us) l h = used_all-IsSound us (used u l) (used-IsSound u l h)

used-lost : (u : Use) (l : Lock) → l.has ≡ false → used u l ≡ l
unfolding used release refresh
used-lost (use_release a) l h = ground arith
used-lost (use_refresh a) l h = ground arith

used_all-lost : (us : List Use) (l : Lock) → l.has ≡ false → used_all us l ≡ l
unfolding used_all
used_all-lost [] l h = refl
used_all-lost (u ∷ us) l h = ap (used_all us) (used-lost u l h) ∙ used_all-lost us l h

refresh-lost : (a : ExtendAnswer) (l : Lock) → l.has ≡ false → (refresh a l).1 ≡ ok false
unfolding refresh
refresh-lost a l h = ground arith

abbrev pub Loses : Lock → Lock → Type 0
Loses l l' =
    ((a : UnlockAnswer) × (l' ≡ (release a l).0))
    ⊎ ((l' ≡ (refresh extend_failed l).0) ⊎ (l' ≡ (refresh extend_taken l).0))

Loses-lost : (l l' : Lock) → Loses l l' → l'.has ≡ false
unfolding release refresh
Loses-lost l l' (inl (a, e)) = ground arith
Loses-lost l l' (inr (inl e)) = ground arith
Loses-lost l l' (inr (inr e)) = ground arith

-- Once a lock is released, or an extension of it has failed because it expired or was taken over,
-- redsync is called for it no more: further uses change nothing and `Refresh` returns false.
pub used_all_after_loss :
    (us : List Use) (l l' : Lock)
    → Loses l l'
    → (used_all us l' ≡ l') × ((a : ExtendAnswer) → (refresh a l').1 ≡ ok false)
used_all_after_loss us l l' lost =
    (used_all-lost us l' (Loses-lost l l' lost), λ a. refresh-lost a l' (Loses-lost l l' lost))
