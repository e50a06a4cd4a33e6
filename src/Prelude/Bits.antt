-- ===== src/Prelude/Bits.antt =====
-- Shifts and masks of non-negative Python integers as arithmetic, and single bits of any integer.
use os_project_signal.Prelude.Tests.{◌==◌, if◌then◌else◌}
use os_project_signal.Prelude.Int.{ℤ, pos, negsuc}
use Prim.Native.Nat.{ℕ, ◌*◌, ◌/◌, ◌%◌, ◌^◌}
use mathlib.Core.Bool.{Bool, not}

-- x >> k
abbrev pub shr : ℕ → ℕ → ℕ
shr x k = x / 2 ^ k

-- x << k
abbrev pub shl : ℕ → ℕ → ℕ
shl x k = x * 2 ^ k

-- x & ((1 << k) - 1)
abbrev pub low_bits : ℕ → ℕ → ℕ
low_bits x k = x % 2 ^ k

-- x & (1 << k)
abbrev pub and_bit : ℕ → ℕ → ℕ
and_bit x k = x / 2 ^ k % 2 * 2 ^ k

-- bool(x & (1 << k)) of a natural number
abbrev pub nat_bit : ℕ → ℕ → Bool
nat_bit x k = (x / 2 ^ k % 2) == 1

-- bool(x & (1 << k)); a negative integer reads as an infinite two's complement: -(n + 1) is ~n.
unfoldable pub test_bit : ℤ → ℕ → Bool
test_bit (pos n) k = nat_bit n k
test_bit (negsuc n) k = not (nat_bit n k)

-- x & (1 << k), of any integer
abbrev pub masked_bit : ℤ → ℕ → ℕ
masked_bit x k = if test_bit x k then 2 ^ k else 0
