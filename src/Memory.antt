-- ===== src/Memory.antt =====
-- Capacities and hash slots, elox/include/elox/memory.h and elox/include/elox/table.h.
pub mod Slots
use slox.Prelude.{ℕ, zero, suc, ◌+◌, ◌*◌, ◌/◌, ◌%◌, ◌^◌, ltb, ◌==◌, if◌then◌else◌}

-- `GROW_CAPACITY`
unfoldable pub grow_capacity : ℕ → ℕ
grow_capacity capacity = if ltb capacity 8 then 8 else capacity * 2

-- `ELOX_CTZ` on a 32-bit number
unfoldable pub ctz : ℕ → ℕ → ℕ
ctz zero x = 0
ctz (suc bits) x = let rest = ctz bits (x / 2) in if x % 2 == 0 then suc rest else 0

-- `indexFor`: Fibonacci hashing
unfoldable pub index_for : ℕ → ℕ → ℕ
index_for hash shift = hash * 2654435769 % 2 ^ 32 / 2 ^ shift
