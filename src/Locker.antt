-- ===== src/Locker.antt =====
-- locker.go: a Redis lock with retries, its refresh and its release.
pub mod Retries
pub mod Lifecycle
use beeorm.Prelude.{
  ℕ, ◌+◌, ◌*◌, ◌/◌, Bool, true, false, Option, none, some, List, [], ◌∷◌, ltb, ◌==◌, if◌then◌else◌,
  Result, ok, panic, zero_ttl, lock_error,
}

-- Durations are nanoseconds.
abbrev pub millisecond : ℕ
millisecond = 1_000_000

abbrev pub min_delay : ℕ
min_delay = 50 * millisecond

-- The options that `Obtain` passes to redsync; the delay is left at its default for one try.
pub record Retry : Type 0 where
  pub tries : ℕ
  pub delay : Option ℕ

unfoldable pub retry_plan : ℕ → Retry
retry_plan wait_timeout =
    if wait_timeout == 0
    then record { tries = 1; delay = none }
    else if ltb (wait_timeout / 10) min_delay
    then record { tries = wait_timeout / min_delay + 1; delay = some min_delay }
    else record { tries = 10; delay = some (wait_timeout / 10) }

-- What redsync answers to `LockContext`.
pub data LockAnswer : Type 0 where
  locked err_failed err_taken other_error : LockAnswer

-- What redsync answers to `ExtendContext`, and to `UnlockContext`.
pub data ExtendAnswer : Type 0 where
  extended : Bool → ExtendAnswer
  extend_failed extend_taken extend_error : ExtendAnswer

pub data UnlockAnswer : Type 0 where
  unlocked unlock_taken unlock_error : UnlockAnswer

-- `Lock`, with the calls of redsync that were made for it.
pub record Lock : Type 0 where
  pub has : Bool
  pub extends : ℕ
  pub unlocks : ℕ

abbrev new_lock : Lock
new_lock = record { has = true; extends = 0; unlocks = 0 }

answered : LockAnswer → Result (Option Lock)
answered locked = ok (some new_lock)
answered err_failed = ok none
answered err_taken = ok none
answered other_error = panic lock_error

-- `redsync` answers a call of `LockContext` with the given tries and delay.
unfoldable pub obtain : (Retry → LockAnswer) → ℕ → ℕ → Result (Option Lock)
unfolding answered retry_plan
obtain redsync ttl wait_timeout =
    if ttl == 0 then panic zero_ttl else answered (redsync (retry_plan wait_timeout))

-- A method of `Lock`: the lock afterwards and the result, or a panic that leaves the lock.
abbrev pub Returned : Type 0 → Type 0
Returned A = Lock × Result A

abbrev released : Lock → Lock
released l = record l { has = false; unlocks = l.unlocks + 1 }

unlock_result : UnlockAnswer → Result (Unit {0})
unlock_result unlocked = ok tt
unlock_result unlock_taken = ok tt
unlock_result unlock_error = panic lock_error

unfoldable pub release : UnlockAnswer → Lock → Returned (Unit {0})
unfolding unlock_result
release answer l = if l.has then (released l, unlock_result answer) else (l, ok tt)

abbrev asked : Lock → Lock
asked l = record l { extends = l.extends + 1 }

refreshed : ExtendAnswer → Lock → Returned Bool
refreshed (extended result) l = (asked l, ok result)
refreshed extend_failed l = (record (asked l) { has = false }, ok false)
refreshed extend_taken l = (record (asked l) { has = false }, ok false)
refreshed extend_error l = (asked l, panic lock_error)

unfoldable pub refresh : ExtendAnswer → Lock → Returned Bool
unfolding refreshed
refresh answer l = if l.has then refreshed answer l else (l, ok false)
