-- ===== src/Gef/Arch/Target/Unsigned.antt =====
-- What `to_unsigned_long` makes of the values of registers.
use native.Mathlib.Nat.{mul_comm, mod-eq_of_lt}
use os_project_signal.Prelude.{
  ℕ, ◌-◌, ◌*◌, ◌^◌, ◌<◌, ◌≡◌, Bool, true, false, arith, ltb, if◌then◌else◌,
}
use os_project_signal.Prelude.Int.{ℤ, pos, negsuc}
use os_project_signal.Prelude.Result.{ok, err, struct_error}
use os_project_signal.Gef.Pack.{pattern_of}
use os_project_signal.Gef.Pack.RoundTrip.{pow_half}
use os_project_signal.Gef.Arch.Target.{to_unsigned_long}

-- A number that passed a bound test.
within :
    (m bound r n : ℕ)
    → (if ltb m bound then ok r else err struct_error) ≡ ok n
    → (m < bound) × (r ≡ n)
within m bound r n e = ground arith

-- An integer that fits the pointers of the target, signed or unsigned, becomes the pattern that `pack`
-- writes for it.
pub to_unsigned_long-pattern_of :
    (ptrsize n : ℕ) (s : Bool) (x : ℤ)
    → 0 < ptrsize
    → pattern_of ptrsize s x ≡ ok n
    → to_unsigned_long ptrsize x ≡ pos n
unfolding pattern_of to_unsigned_long
to_unsigned_long-pattern_of p n false (pos m) h e =
    let (small, same) = within m (2 ^ (8 * p)) m n e in rw (mul_comm p 8, mod-eq_of_lt small, same)
to_unsigned_long-pattern_of p n false (negsuc m) h e = cc
to_unsigned_long-pattern_of p n true (pos m) h e =
    let (small, same) = within m (2 ^ (8 * p - 1)) m n e in
    let fits : m < 2 ^ (8 * p) = omega (arith, pow_half p h) in
    rw (mul_comm p 8, mod-eq_of_lt fits, same)
to_unsigned_long-pattern_of p n true (negsuc m) h e =
    let (small, same) = within m (2 ^ (8 * p - 1)) (2 ^ (8 * p) - 1 - m) n e in
    let fits : m < 2 ^ (8 * p) = omega (arith, pow_half p h) in
    rw (mul_comm p 8, mod-eq_of_lt fits, same)
