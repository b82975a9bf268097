-- ===== src/Tests/Locking.antt =====
-- locker.go at small inputs.
use beeorm.Prelude.{
  ℕ, ◌+◌, ◌-◌, ◌*◌, ◌≤◌, ◌≡◌, refl, inl, inr, true, false, some, List, [], ◌∷◌, ok, arith,
}
use beeorm.Locker.{
  Lock, obtain, refresh, retry_plan, min_delay, locked, unlock_taken, extended, extend_failed,
  unlocked, ExtendAnswer, millisecond,
}
use beeorm.Locker.Retries.{retry_plan_bounds}
use beeorm.Locker.Lifecycle.{
  Use, use_release, use_refresh, used_all, IsSound, used_all-IsSound, used_all_after_loss,
}

abbrev fresh : Lock
fresh = record { has = true; extends = 0; unlocks = 0 }

fresh_obtained : obtain (λ plan. locked) 90 0 ≡ ok (some fresh)
unfolding obtain
fresh_obtained = refl

-- 120 ms are too short for 10 tries of 50 ms.
retry_plan-120ms :
    ((retry_plan (120 * millisecond)).tries ≡ 3)
    × ((retry_plan (120 * millisecond)).delay ≡ some min_delay)
unfolding retry_plan
retry_plan-120ms = (refl, refl)

retry_plan_bounds_example :
    (delay : ℕ) × ((retry_plan (120 * millisecond)).delay ≡ some delay)
    × (1 ≤ (retry_plan (120 * millisecond)).tries)
    × ((retry_plan (120 * millisecond)).tries ≤ 10)
    × (min_delay ≤ delay)
    × (((retry_plan (120 * millisecond)).tries - 1) * delay ≤ 120 * millisecond)
    × (120 * millisecond ≤ (retry_plan (120 * millisecond)).tries * delay + 9)
retry_plan_bounds_example = retry_plan_bounds (120 * millisecond) (omega arith)

abbrev life : List Use
life = use_refresh (extended true) ∷ use_release unlock_taken ∷ use_release unlocked ∷ []

fresh-IsSound : IsSound fresh
fresh-IsSound = record { once = omega arith; held = λ h. refl }

used_all-IsSound_example : IsSound (used_all life fresh)
used_all-IsSound_example = used_all-IsSound life fresh fresh-IsSound

used_all_after_loss_example :
    (used_all life (refresh extend_failed fresh).0 ≡ (refresh extend_failed fresh).0)
    × ((a : ExtendAnswer) → (refresh a (refresh extend_failed fresh).0).1 ≡ ok false)
used_all_after_loss_example =
    used_all_after_loss life fresh (refresh extend_failed fresh).0 (inr (inl refl))
