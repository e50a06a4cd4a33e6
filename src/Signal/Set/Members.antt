-- ===== src/Signal/Set/Members.antt =====
-- The members of the sets that the operations give.
use native.Mathlib.Nat.{div-div-eq-div-mul, pow-suc, mul_comm}
use os_project_signal.Prelude.{
  ℕ, zero, suc, ◌+◌, ◌*◌, ◌/◌, ◌%◌, ◌^◌, ◌<◌, ◌≡◌, refl, Bool, true, false, not, ◌&&◌, ◌||◌, ◌==◌,
  if◌then◌else◌, arith, sym, ◌∙◌,
}
use os_project_signal.Prelude.Bits.{nat_bit}
use os_project_signal.Signal.Set.{
  combine, union, difference, sigaddset, sigdelset, sigismember, sigmask,
}

-- A bit of half a number.
nat_bit-half : (x k : ℕ) → nat_bit (x / 2) k ≡ nat_bit x (suc k)
nat_bit-half x k = rw (div-div-eq-div-mul x 2 (2 ^ k), pow-suc 2 k, mul_comm 2 (2 ^ k))

abbrev digit_of : Bool → ℕ
digit_of b = if b then 1 else 0

half-lem : (c : Bool) (h : ℕ) → (digit_of c + 2 * h) / 2 ≡ h
half-lem true h = omega arith
half-lem false h = omega arith

lowest-lem : (c : Bool) (h : ℕ) → nat_bit (digit_of c + 2 * h) 0 ≡ c
lowest-lem true h = ground arith
lowest-lem false h = ground arith

div-one : (x : ℕ) → x / 1 ≡ x
div-one x = omega arith

pub nat_bit-combine :
    (f : Bool → Bool → Bool) (width a b k : ℕ)
    → k < width
    → nat_bit (combine f width a b) k ≡ f (nat_bit a k) (nat_bit b k)
unfolding combine
nat_bit-combine f zero a b k h = absurd (omega arith)
nat_bit-combine f (suc width) a b zero h =
    lowest-lem (f (a % 2 == 1) (b % 2 == 1)) (combine f width (a / 2) (b / 2))
    ∙ rw (div-one a, div-one b) refl
nat_bit-combine f (suc width) a b (suc k) h =
    let c = f (a % 2 == 1) (b % 2 == 1) in
    let rest = combine f width (a / 2) (b / 2) in
    sym (nat_bit-half (digit_of c + 2 * rest) k)
    ∙ rw (half-lem c rest) (
        rw (
          nat_bit-combine f width (a / 2) (b / 2) k (omega arith),
          nat_bit-half a k,
          nat_bit-half b k,
        ))

zero-bit : (k : ℕ) → nat_bit 0 k ≡ false
zero-bit zero = refl
zero-bit (suc k) = sym (nat_bit-half 0 k) ∙ zero-bit k

double-half : (x : ℕ) → x * 2 / 2 ≡ x
double-half x = omega arith

nat_bit-power : (n k : ℕ) → nat_bit (2 ^ n) k ≡ (k == n)
nat_bit-power zero zero = refl
nat_bit-power zero (suc k) = sym (nat_bit-half 1 k) ∙ zero-bit k ∙ (ground arith)
nat_bit-power (suc n) zero = rw (pow-suc 2 n) (ground arith)
nat_bit-power (suc n) (suc k) =
    sym (nat_bit-half (2 ^ suc n) k)
    ∙ rw (pow-suc 2 n) (rw (double-half (2 ^ n)) (nat_bit-power n k ∙ (ground arith)))

-- The members of a | b and of a & ~b are those of the two sets, and of the one without the other.
pub sigismember-union :
    (a b k : ℕ) → k < 64 → sigismember (union a b) k ≡ (sigismember a k || sigismember b k)
unfolding union
sigismember-union a b k h = nat_bit-combine (λ x y. x || y) 64 a b k h

pub sigismember-difference :
    (a b k : ℕ)
    → k < 64
    → sigismember (difference a b) k ≡ (sigismember a k && not (sigismember b k))
unfolding difference
sigismember-difference a b k h = nat_bit-combine (λ x y. x && not y) 64 a b k h

-- A signal that is added is a member, one that is deleted is none, and no other one changes.
pub sigismember-changed :
    (set signo k : ℕ)
    → k < 64
    → (sigismember (sigaddset set signo) k ≡ (sigismember set k || (k == signo)))
      × (sigismember (sigdelset set signo) k ≡ (sigismember set k && not (k == signo)))
unfolding sigaddset sigdelset
sigismember-changed set signo k h = (
  sigismember-union set (sigmask signo) k h ∙ rw (nat_bit-power signo k),
  sigismember-difference set (sigmask signo) k h ∙ rw (nat_bit-power signo k),
)
