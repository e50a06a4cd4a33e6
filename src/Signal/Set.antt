-- ===== src/Signal/Set.antt =====
-- `sigset_t` of os/signal/signal.h: a uint64, read and written bit by bit.
pub mod Members
use os_project_signal.Prelude.{
  ℕ, zero, suc, ◌+◌, ◌*◌, ◌/◌, ◌%◌, ◌^◌, Bool, true, false, not, ◌&&◌, ◌||◌, ◌==◌, if◌then◌else◌,
}
use os_project_signal.Prelude.Bits.{nat_bit}

-- The `width` low bits of two numbers, combined pair by pair.
unfoldable pub combine : (Bool → Bool → Bool) → ℕ → ℕ → ℕ → ℕ
combine f zero a b = 0
combine f (suc width) a b =
    (if f (a % 2 == 1) (b % 2 == 1) then 1 else 0) + 2 * combine f width (a / 2) (b / 2)

-- a | b and a & ~b, of uint64
unfoldable pub union : ℕ → ℕ → ℕ
unfolding combine
union a b = combine (λ x y. x || y) 64 a b

unfoldable pub difference : ℕ → ℕ → ℕ
unfolding combine
difference a b = combine (λ x y. x && not y) 64 a b

-- `sigmask(signo)`, of a signal number
abbrev pub sigmask : ℕ → ℕ
sigmask signo = 2 ^ signo

abbrev pub sigemptyset : ℕ
sigemptyset = 0

unfoldable pub sigaddset : ℕ → ℕ → ℕ
unfolding union
sigaddset set signo = union set (sigmask signo)

unfoldable pub sigdelset : ℕ → ℕ → ℕ
unfolding difference
sigdelset set signo = difference set (sigmask signo)

-- `sigismember`, as a truth value
abbrev pub sigismember : ℕ → ℕ → Bool
sigismember set signo = nat_bit set signo
