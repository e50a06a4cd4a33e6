-- ===== src/Gef/Arch/Comparison.antt =====
-- What the flags of a processor say of two 32-bit words after their comparison by subtraction. It is
-- the description that the branch tests of scripts/gef.py are held against.
use os_project_signal.Prelude.{
  ℕ, ◌+◌, ◌-◌, ◌%◌, ◌^◌, ◌<◌, ◌≡◌, Bool, true, false, not, ◌&&◌, ltb, leb, ◌==◌, arith,
  if◌then◌else◌,
}
use os_project_signal.Prelude.Int.{ℤ, pos, negsuc, ltb_ℤ}

-- The int32_t that a 32-bit pattern stands for.
abbrev pub signed : ℕ → ℤ
signed w = if ltb w (2 ^ 31) then pos w else negsuc (2 ^ 32 - w - 1)

unfoldable pub signed_lt : ℕ → ℕ → Bool
signed_lt a b = ltb_ℤ (signed a) (signed b)

abbrev top_bit : ℕ → Bool
top_bit w = leb (2 ^ 31) w

abbrev pub differ : Bool → Bool → Bool
differ true c = not c
differ false c = c

abbrev difference : ℕ → ℕ → ℕ
difference a b = (a + 2 ^ 32 - b) % 2 ^ 32

-- The sign of a - b, as a word.
unfoldable pub sign_flag : ℕ → ℕ → Bool
sign_flag a b = top_bit (difference a b)

-- a - b overflows: the operands' signs differ, and the result has not the sign of `a`.
unfoldable pub overflow_flag : ℕ → ℕ → Bool
overflow_flag a b = differ (top_bit a) (top_bit b) && differ (top_bit (difference a b)) (top_bit a)

-- The four flags, however the processor places them.
pub record Compared (a b : ℕ) (below zero sign overflow : Bool) : Type 0 where
  pub left_fits : a < 2 ^ 32
  pub right_fits : b < 2 ^ 32
  pub below_lem : below ≡ ltb a b
  pub zero_lem : zero ≡ (a == b)
  pub sign_lem : sign ≡ sign_flag a b
  pub overflow_lem : overflow ≡ overflow_flag a b

module _ (a b : ℕ) (ha : a < 2 ^ 32) (hb : b < 2 ^ 32) where
  pub signed_lt-of_flags : differ (sign_flag a b) (overflow_flag a b) ≡ signed_lt a b
  unfolding sign_flag overflow_flag signed_lt
  signed_lt-of_flags = ground arith

  pub signed_lt_flip : signed_lt b a ≡ (not (a == b) && not (signed_lt a b))
  unfolding signed_lt
  signed_lt_flip = ground arith
