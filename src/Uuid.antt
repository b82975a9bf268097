-- ===== src/Uuid.antt =====
-- uuid.go: 64-bit identifiers made of a server number, the start time of the process and a counter.
pub mod Layout
pub mod Generate
use beeorm.Prelude.{ℕ, zero, suc, ◌+◌, ◌*◌, ◌%◌, ◌^◌, List, [], ◌∷◌}

-- The package variables. `code_start_time` is the Unix time at which the process started.
pub record UuidState : Type 0 where
  pub code_start_time : ℕ
  pub uuid_server_id : ℕ
  pub uuid_counter : ℕ

-- The arithmetic is that of `uint64`: every shift and every sum wraps at 2 ^ 64.
unfoldable pub uuid : UuidState → ℕ × UuidState
uuid s =
    let counter = (s.uuid_counter + 1) % 2 ^ 64 in
    let server = s.uuid_server_id % 256 * 2 ^ 56 % 2 ^ 64 in
    let time = s.code_start_time * 2 ^ 24 % 2 ^ 64 in
    (((server + time) % 2 ^ 64 + counter) % 2 ^ 64, record s { uuid_counter = counter })

-- The argument is a `uint16`.
unfoldable pub set_uuid_server_id : ℕ → UuidState → UuidState
set_uuid_server_id id s = record s { uuid_server_id = id }

-- What `n` calls of `uuid` in a row return.
unfoldable pub uuids : ℕ → UuidState → List ℕ
uuids zero s = []
uuids (suc n) s = let (id, s') = uuid s in id ∷ uuids n s'
