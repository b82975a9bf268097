-- ===== src/Uuid/Generate.antt =====
-- uuid.go: the identifiers of one process increase, and those of two processes never meet.
use beeorm.Prelude.{
  ℕ, zero, suc, ◌+◌, ◌*◌, ◌%◌, ◌^◌, ◌≤◌, ◌<◌, ◌≡◌, ◌≢◌, ◌⊎◌, inl, inr, List, [], ◌∷◌, All, arith,
}
use beeorm.Uuid.{UuidState, uuid, uuids}
use beeorm.Uuid.Layout.{HasRoom}

-- The value of an identifier whose counter is `c`, when nothing wraps.
abbrev id_of : UuidState → ℕ → ℕ
id_of s c = s.uuid_server_id % 256 * 2 ^ 56 + s.code_start_time * 2 ^ 24 + c

uuid-eq-id_of : (s : UuidState) → HasRoom 1 s → (uuid s).0 ≡ id_of s (s.uuid_counter + 1)
unfolding uuid
uuid-eq-id_of s room = omega arith

after-HasRoom : (n : ℕ) (s : UuidState) → HasRoom (suc n) s → HasRoom n (uuid s).1
unfolding uuid
after-HasRoom n s room = omega arith

-- Every identifier of the list lies in the counter range that starts after `s`.
abbrev InRange : UuidState → ℕ → ℕ → Type 0
InRange s n id = (id_of s s.uuid_counter < id) × (id ≤ id_of s (s.uuid_counter + n))

All-InRange-after :
    (n : ℕ) (s : UuidState) (ids : List ℕ)
    → HasRoom (suc n) s
    → All (InRange (uuid s).1 n) ids
    → All (InRange s (suc n)) ids
unfolding uuid
All-InRange-after n s [] room h = tt
All-InRange-after n s (id ∷ ids) room h = (omega arith, All-InRange-after n s ids room h.1)

uuids-InRange : (n : ℕ) (s : UuidState) → HasRoom n s → All (InRange s n) (uuids n s)
unfolding uuids
uuids-InRange zero s room = tt
uuids-InRange (suc n) s room = (
  omega (arith, uuid-eq-id_of s (omega arith)),
  All-InRange-after n s (uuids n (uuid s).1) room
      (uuids-InRange n (uuid s).1 (after-HasRoom n s room)),
)

-- Each number is below all that follow it.
abbrev pub Increasing : List ℕ → Type 0
Increasing [] = Unit
Increasing (x ∷ xs) = All (λ y. x < y) xs × Increasing xs

All-above :
    (n : ℕ) (s : UuidState) (x : ℕ) (ids : List ℕ)
    → x ≤ id_of s s.uuid_counter
    → All (InRange s n) ids
    → All (λ y. x < y) ids
All-above n s x [] le h = tt
All-above n s x (id ∷ ids) le h = (omega arith, All-above n s x ids le h.1)

first-le : (s : UuidState) → HasRoom 1 s → (uuid s).0 ≤ id_of (uuid s).1 (uuid s).1.uuid_counter
unfolding uuid
first-le s room = omega arith

-- While the clock fits 32 bits and the counter fits 24 bits for `n` more calls, `n` calls in a row
-- return strictly increasing identifiers.
pub uuids-Increasing : (n : ℕ) (s : UuidState) → HasRoom n s → Increasing (uuids n s)
unfolding uuids
uuids-Increasing zero s room = tt
uuids-Increasing (suc n) s room =
    let next = after-HasRoom n s room in
    (
      All-above n (uuid s).1 (uuid s).0 (uuids n (uuid s).1) (first-le s (omega arith))
          (uuids-InRange n (uuid s).1 next),
      uuids-Increasing n (uuid s).1 next,
    )

-- Two processes whose server numbers differ in the low byte, or that started at different seconds.
abbrev pub Distinct : UuidState → UuidState → Type 0
Distinct a b =
    (a.uuid_server_id % 256 ≢ b.uuid_server_id % 256) ⊎ (a.code_start_time ≢ b.code_start_time)

module _ (n m : ℕ) (a b : UuidState) (ra : HasRoom n a) (rb : HasRoom m b) (d : Distinct a b) where
  apart_one : (i j : ℕ) → InRange a n i → InRange b m j → i ≢ j
  apart_one i j hi hj = elim d [ inl server ↦ omega arith | inr time ↦ omega arith ]

  apart_from_list :
      (i : ℕ) (js : List ℕ) → InRange a n i → All (InRange b m) js → All (λ j. i ≢ j) js
  apart_from_list i [] hi hj = tt
  apart_from_list i (j ∷ js) hi hj = (apart_one i j hi hj.0, apart_from_list i js hi hj.1)

  apart_lists :
      (is js : List ℕ)
      → All (InRange a n) is
      → All (InRange b m) js
      → All (λ i. All (λ j. i ≢ j) js) is
  apart_lists [] js hi hj = tt
  apart_lists (i ∷ is) js hi hj = (apart_from_list i js hi.0 hj, apart_lists is js hi.1 hj)

-- While both clocks fit 32 bits and both counters 24 bits for the calls made, two processes whose
-- server numbers differ in the low byte, or that started at different seconds, never return the
-- same identifier.
pub uuids_disjoint :
    (n m : ℕ) (a b : UuidState)
    → HasRoom n a
    → HasRoom m b
    → Distinct a b
    → All (λ i. All (λ j. i ≢ j) (uuids m b)) (uuids n a)
uuids_disjoint n m a b ra rb d =
    apart_lists n m a b ra rb d (uuids n a) (uuids m b) (uuids-InRange n a ra)
      (uuids-InRange m b rb)
