-- ===== src/Flusher/Tracked.antt =====
-- flusher.go: the list of the tracked entities and its counter.
use beeorm.Prelude.{
  ◌≡◌, refl, Bool, true, false, List, [], ◌∷◌, ◌++◌, length, length-append, Bool-cases, inl, inr,
  arith, if◌then◌else◌, ◌==◌,
}
use beeorm.Flusher.World.{Ref, Model, World, for_each, set_entity}
use beeorm.Flusher.Loops.{and_then-keeps, for_each-keeps}
use beeorm.Flusher.Track.{
  is_tracked, track_one, track, mark_to_delete, force_mark_to_delete, unmark, delete_entities,
  force_delete, cancel_delete, clear,
}

unfoldable pub no_duplicates : List Ref → Bool
unfolding is_tracked
no_duplicates [] = true
no_duplicates (r ∷ rest) = if is_tracked r rest then false else no_duplicates rest

-- No entity is tracked twice, and the counter is the number of those tracked.
pub record WellTracked {m : Model} (w : World m) : Type 0 where
  pub distinct : no_duplicates w.tracked_entities ≡ true
  pub counted : w.tracked_entities_counter ≡ length w.tracked_entities

-- What the user of a flusher calls between two flushes.
pub data Call : Type 0 where
  call_track call_delete call_force_delete call_cancel_delete : List Ref → Call
  call_clear : Call

-- The flusher after a call; a panic that the caller recovers leaves it as the call left it.
unfoldable pub after_call : {m : Model} → Call → World m → World m
unfolding track delete_entities force_delete cancel_delete clear
after_call (call_track entities) w = (track entities w).1
after_call (call_delete entities) w = (delete_entities entities w).1
after_call (call_force_delete entities) w = (force_delete entities w).1
after_call (call_cancel_delete entities) w = (cancel_delete entities w).1
after_call call_clear w = clear w

same_ref : (a b : Ref) → (a == b) ≡ true → (b == a) ≡ true
same_ref a b h = ground arith

is_tracked-snoc :
    (r a : Ref) (xs : List Ref)
    → is_tracked r (xs ++ a ∷ []) ≡ (if is_tracked r xs then true else a == r)
unfolding is_tracked
is_tracked-snoc r a [] = ground arith
is_tracked-snoc r a (x ∷ xs) = ground (arith, is_tracked-snoc r a xs)

no_duplicates-snoc :
    (r : Ref) (xs : List Ref)
    → no_duplicates xs ≡ true
    → is_tracked r xs ≡ false
    → no_duplicates (xs ++ r ∷ []) ≡ true
unfolding no_duplicates is_tracked
no_duplicates-snoc r [] h k = refl
no_duplicates-snoc r (x ∷ xs) h k = grind (arith, no_duplicates-snoc r xs, is_tracked-snoc x r xs)

module _ {m : Model} where
  track_one-WellTracked : (r : Ref) (w : World m) → WellTracked w → WellTracked (track_one r w).1
  unfolding track_one
  track_one-WellTracked r w h = elim (Bool-cases (is_tracked r w.tracked_entities)) [
    | inl old ↦ rw old h
    | inr fresh ↦ rw fresh (record {
      distinct = no_duplicates-snoc r w.tracked_entities h.distinct fresh;
      counted = omega (arith, h.counted, length-append w.tracked_entities (r ∷ []));
    })
  ]

  track-WellTracked :
      (entities : List Ref) (w : World m) → WellTracked w → WellTracked (track entities w).1
  unfolding track
  track-WellTracked entities w h =
      for_each-keeps WellTracked track_one track_one-WellTracked entities w h

  mark-WellTracked : (r : Ref) (w : World m) → WellTracked w → WellTracked (mark_to_delete r w).1
  unfolding mark_to_delete set_entity
  mark-WellTracked r w h = record { distinct = h.distinct; counted = h.counted }

  force-WellTracked :
      (r : Ref) (w : World m) → WellTracked w → WellTracked (force_mark_to_delete r w).1
  unfolding force_mark_to_delete set_entity
  force-WellTracked r w h = record { distinct = h.distinct; counted = h.counted }

  unmark-WellTracked : (r : Ref) (w : World m) → WellTracked w → WellTracked (unmark r w).1
  unfolding unmark set_entity
  unmark-WellTracked r w h = record { distinct = h.distinct; counted = h.counted }

-- Track, Delete, ForceDelete, CancelDelete and Clear keep the list of tracked entities without
-- duplicates and its counter equal to the length, also when `Track` panics at its limit.
pub after_call-WellTracked :
    (m : Model) (c : Call) (w : World m) → WellTracked w → WellTracked (after_call c w)
unfolding after_call delete_entities force_delete cancel_delete clear no_duplicates
after_call-WellTracked m (call_track entities) w h = track-WellTracked entities w h
after_call-WellTracked m (call_delete entities) w h =
    and_then-keeps WellTracked (for_each entities mark_to_delete w) (λ _. track entities)
      (for_each-keeps WellTracked mark_to_delete mark-WellTracked entities w h)
      (λ _. track-WellTracked entities)
after_call-WellTracked m (call_force_delete entities) w h =
    and_then-keeps WellTracked (for_each entities force_mark_to_delete w) (λ _. track entities)
      (for_each-keeps WellTracked force_mark_to_delete force-WellTracked entities w h)
      (λ _. track-WellTracked entities)
after_call-WellTracked m (call_cancel_delete entities) w h =
    for_each-keeps WellTracked unmark unmark-WellTracked entities w h
after_call-WellTracked m call_clear w h = record { distinct = refl; counted = refl }
