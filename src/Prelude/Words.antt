-- ===== src/Prelude/Words.antt =====
-- Machine integers: a value is a native number, and what the operations do at the ends is written out.
use Prim.Native.Nat.{ℕ, ◌+◌, ◌-◌, ◌*◌, ◌%◌, ◌^◌, min}

abbrev pub u32_max : ℕ
u32_max = 2 ^ 32 - 1

abbrev pub u64_max : ℕ
u64_max = 2 ^ 64 - 1

-- `AtomicU32::fetch_add(1)` and `fetch_sub(1)` wrap around.
abbrev pub wrap_inc : ℕ → ℕ
wrap_inc n = (n + 1) % 2 ^ 32

abbrev pub wrap_dec : ℕ → ℕ
wrap_dec n = (n + 2 ^ 32 - 1) % 2 ^ 32

-- `u64::saturating_add` and `u64::saturating_mul`.
abbrev pub saturating_add : ℕ → ℕ → ℕ
saturating_add a b = min (a + b) u64_max

abbrev pub saturating_mul : ℕ → ℕ → ℕ
saturating_mul a b = min (a * b) u64_max
