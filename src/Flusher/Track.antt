-- ===== src/Flusher/Track.antt =====
-- flusher.go: which entities a flusher tracks.
use beeorm.Prelude.{
  suc, Bool, true, false, List, [], ◌∷◌, ◌++◌, ok, panic, track_limit, if◌then◌else◌, ◌==◌,
}
use beeorm.Flusher.World.{Ref, Model, World, Action, for_each, set_entity, ◌>>=◌}

-- `old == entity` for one of the tracked entities.
unfoldable pub is_tracked : Ref → List Ref → Bool
is_tracked r [] = false
is_tracked r (old ∷ rest) = if old == r then true else is_tracked r rest

module _ {m : Model} where
  -- The limit is compared with `==`, after the entity is added.
  unfoldable pub track_one : Ref → Action m Unit
  unfolding is_tracked
  track_one r w =
      if is_tracked r w.tracked_entities
      then (ok tt, w)
      else let counter = suc w.tracked_entities_counter in
        (
          (if counter == 10001 then panic track_limit else ok tt),
          record w {
            tracked_entities = w.tracked_entities ++ r ∷ [];
            tracked_entities_counter = counter;
          },
        )

  unfoldable pub track : List Ref → Action m Unit
  unfolding track_one for_each
  track entities = for_each entities track_one

  unfoldable pub mark_to_delete : Ref → Action m Unit
  unfolding set_entity
  mark_to_delete r w = (ok tt, set_entity r (record (w.store r) { fake_delete = true }) w)

  unfoldable pub force_mark_to_delete : Ref → Action m Unit
  unfolding set_entity
  force_mark_to_delete r w = (ok tt, set_entity r (record (w.store r) { delete = true }) w)

  unfoldable pub unmark : Ref → Action m Unit
  unfolding set_entity
  unmark r w = (ok tt, set_entity r (record (w.store r) { fake_delete = false; delete = false }) w)

  unfoldable pub delete_entities : List Ref → Action m Unit
  unfolding mark_to_delete for_each track
  delete_entities entities = for_each entities mark_to_delete >>= λ _. track entities

  unfoldable pub force_delete : List Ref → Action m Unit
  unfolding force_mark_to_delete for_each track
  force_delete entities = for_each entities force_mark_to_delete >>= λ _. track entities

  unfoldable pub cancel_delete : List Ref → Action m Unit
  unfolding unmark for_each
  cancel_delete entities = for_each entities unmark

  unfoldable pub clear : World m → World m
  clear w = record w {
    tracked_entities = [];
    tracked_entities_counter = 0;
    update_sqls = [];
    delete_binds = [];
    local_cache_deletes = [];
    local_cache_sets = [];
  }
