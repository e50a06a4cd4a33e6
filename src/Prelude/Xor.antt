-- ===== src/Prelude/Xor.antt =====
-- The exclusive or of two numbers: its lowest digit, and that it undoes itself.
use Prim.Native.Nat.{
  ℕ, zero, suc, ◌+◌, ◌*◌, ◌/◌, ◌%◌, ◌≤◌, ◌<◌, digits, differ, bit_xor, bit_xor-bitwise,
}
use mathlib.Core.Path.{◌≡◌, refl}
use native.Mathlib.Omega.{arith}

-- The recursion that `bit_xor` stands for, on `n` digits of the first number.
abbrev xor_on : ℕ → ℕ → ℕ → ℕ
xor_on n a b = digits (λ y. y) differ n a b

-- Digits beyond those of the first number do not matter.
xor_on-enough : (a b n m : ℕ) → a ≤ n → a ≤ m → xor_on n a b ≡ xor_on m a b
xor_on-enough zero b zero zero h k = refl
xor_on-enough zero b zero (suc m) h k = refl
xor_on-enough zero b (suc n) zero h k = refl
xor_on-enough zero b (suc n) (suc m) h k = refl
xor_on-enough (suc a) b zero m h k = absurd (omega arith)
xor_on-enough (suc a) b (suc n) zero h k = absurd (omega arith)
xor_on-enough (suc a) b (suc n) (suc m) h k =
    rw (xor_on-enough (suc a / 2) (b / 2) n m (omega arith) (omega arith))

pub bit_xor_step : (a b : ℕ) → bit_xor a b ≡ bit_xor (a / 2) (b / 2) * 2 + differ (a % 2) (b % 2)
bit_xor_step zero b = simp bit_xor-bitwise (omega arith)
bit_xor_step (suc a) b =
    simp bit_xor-bitwise
      (rw (xor_on-enough (suc a / 2) (b / 2) a (suc a / 2) (omega arith) (omega arith)))

-- Two digits
differ_twice : (x y : ℕ) → x < 2 → y < 2 → (differ (differ x y) x ≡ y) × (differ x y < 2)
differ_twice zero zero h k = (refl, omega arith)
differ_twice zero (suc zero) h k = (refl, omega arith)
differ_twice zero (suc (suc y)) h k = absurd (omega arith)
differ_twice (suc zero) zero h k = (refl, omega arith)
differ_twice (suc zero) (suc zero) h k = (refl, omega arith)
differ_twice (suc zero) (suc (suc y)) h k = absurd (omega arith)
differ_twice (suc (suc x)) y h k = absurd (omega arith)

undo_within : (n s p : ℕ) → s ≤ n → p ≤ n → bit_xor (bit_xor s p) s ≡ p
undo_within zero zero zero h k = refl
undo_within zero zero (suc p) h k = absurd (omega arith)
undo_within zero (suc s) p h k = absurd (omega arith)
undo_within (suc n) s p h k =
    let x = bit_xor s p in
    let (undo, small) = differ_twice (s % 2) (p % 2) (omega arith) (omega arith) in
    let low = bit_xor_step s p in
    let half : x / 2 ≡ bit_xor (s / 2) (p / 2) = omega (arith, low, small) in
    let odd : x % 2 ≡ differ (s % 2) (p % 2) = omega (arith, low, small) in
    let step = bit_xor_step x s in
    let inner = undo_within n (s / 2) (p / 2) (omega arith) (omega arith) in
    rw (step, half, odd, undo, inner) (omega arith)

pub bit_xor_undo : (s p : ℕ) → bit_xor (bit_xor s p) s ≡ p
bit_xor_undo s p = undo_within (s + p) s p (omega arith) (omega arith)
