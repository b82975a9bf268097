-- ===== src/Uuid/Layout.antt =====
-- uuid.go: the three fields of an identifier.
use beeorm.Prelude.{ℕ, ◌+◌, ◌/◌, ◌%◌, ◌^◌, ◌<◌, ◌≡◌, arith}
use beeorm.Uuid.{UuidState, uuid}

-- The clock fits its 32 bits, and the counter its 24 bits for `n` further calls.
pub record HasRoom (n : ℕ) (s : UuidState) : Type 0 where
  pub time_fits : s.code_start_time < 2 ^ 32
  pub counter_fits : s.uuid_counter + n < 2 ^ 24

-- While the clock fits 32 bits and the counter 24 bits, the top byte of an identifier is the low
-- byte of the server number, the next 32 bits are the start time, and the low 24 bits are the
-- counter after the call.
pub uuid_layout :
    (s : UuidState)
    → HasRoom 1 s
    → ((uuid s).0 / 2 ^ 56 ≡ s.uuid_server_id % 256)
      × ((uuid s).0 / 2 ^ 24 % 2 ^ 32 ≡ s.code_start_time)
      × ((uuid s).0 % 2 ^ 24 ≡ s.uuid_counter + 1)
unfolding uuid
uuid_layout s room = omega arith
