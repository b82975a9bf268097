-- ===== src/Orm/Cells/Times.antt =====
-- Times in the binary form of an entity.
use beeorm.Prelude.{
  ◌-◌, ◌<◌, ◌^◌, ◌≡◌, if◌then◌else◌, ℤ, pos, negsuc, pos_part, ◌+ℤ◌, ◌-ℤ◌, ltb_ℤ, IsInt64,
  wrap_int64, arith,
}
use beeorm.Orm.Cells.{
  time_stamp_seconds, zero_time, stored_seconds, stored_time, loaded_seconds, loaded_time,
}

-- Times up to the start of 1970 are lost.
abbrev pub kept_time : ℤ → ℤ
kept_time t = if ltb_ℤ (pos 0) t then t else zero_time

-- A time that `int64` holds also as the seconds since the year 0.
abbrev pub IsTime : ℤ → Type 0
IsTime t = pos_part t < 2 ^ 63 - time_stamp_seconds

pub stored_seconds-IsInt64 : (t : ℤ) → IsTime t → IsInt64 (stored_seconds t)
unfolding stored_seconds wrap_int64 ◌+ℤ◌
stored_seconds-IsInt64 (pos n) h = ground arith
stored_seconds-IsInt64 (negsuc n) h = ground arith

pub loaded-stored_seconds : (t : ℤ) → IsTime t → loaded_seconds (stored_seconds t) ≡ kept_time t
unfolding stored_seconds loaded_seconds wrap_int64 ◌+ℤ◌ ◌-ℤ◌
loaded-stored_seconds (pos n) h = ground arith
loaded-stored_seconds (negsuc n) h = ground arith

pub loaded_time-stored_seconds : (t : ℤ) → IsTime t → loaded_time (stored_seconds t) ≡ kept_time t
unfolding loaded_time stored_seconds loaded_seconds wrap_int64 ◌+ℤ◌ ◌-ℤ◌
loaded_time-stored_seconds (pos n) h = ground arith
loaded_time-stored_seconds (negsuc n) h = ground arith

pub stored_time-IsInt64 : (t : ℤ) → IsTime t → IsInt64 (stored_time t)
unfolding stored_time
stored_time-IsInt64 t h = ground (arith, stored_seconds-IsInt64 t h)

pub loaded-stored_time : (t : ℤ) → IsTime t → loaded_time (stored_time t) ≡ kept_time t
unfolding loaded_time stored_time stored_seconds loaded_seconds wrap_int64 ◌+ℤ◌ ◌-ℤ◌
loaded-stored_time (pos n) h = ground arith
loaded-stored_time (negsuc n) h = ground arith
