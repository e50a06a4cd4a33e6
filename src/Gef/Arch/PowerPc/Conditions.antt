-- ===== src/Gef/Arch/PowerPc/Conditions.antt =====
-- The branches of PowerPC after a comparison of two 32-bit words.
use os_project_signal.Prelude.{ℕ, ◌<◌, ◌^◌, ◌≡◌, String, Bool, not, ◌==◌, arith}
use os_project_signal.Prelude.Int.{ℤ}
use os_project_signal.Prelude.Bits.{test_bit}
use os_project_signal.Prelude.Result.{Result, ok}
use os_project_signal.Gef.Arch.Instruction.{Instruction}
use os_project_signal.Gef.Arch.Target.{Target, register}
use os_project_signal.Gef.Arch.Comparison.{signed_lt, signed_lt_flip}
use os_project_signal.Gef.Arch.PowerPc.{is_branch_taken}

-- The field cr7 after `cmpw cr7, a, b`.
pub record AfterCmp (val : ℤ) (a b : ℕ) : Type 0 where
  pub left_fits : a < 2 ^ 32
  pub right_fits : b < 2 ^ 32
  pub less_lem : test_bit val 31 ≡ signed_lt a b
  pub greater_lem : test_bit val 30 ≡ signed_lt b a
  pub equal_lem : test_bit val 29 ≡ (a == b)

module _ (t : Target) (insn : Instruction) (val : ℤ) (a b : ℕ) (read : register t "$cr" ≡ ok val)
    (h : AfterCmp val a b) where
  abbrev pub run : String → Result (Bool × String)
  run m = is_branch_taken t (record insn { mnemonic = m })

  -- After a comparison of two words in the condition field 7 each of the six branches is taken exactly
  -- when its relation holds of the words as signed integers.
  pub cr_branches :
      (run "beq" ≡ ok (a == b, "E"))
      × (run "bne" ≡ ok (not (a == b), "!E"))
      × (run "blt" ≡ ok (signed_lt a b, "L"))
      × (run "bgt" ≡ ok (signed_lt b a, "G"))
      × (run "ble" ≡ ok (not (signed_lt b a), "E || L"))
      × (run "bge" ≡ ok (not (signed_lt a b), "E || G"))
  unfolding is_branch_taken
  cr_branches =
      let flip = signed_lt_flip a b h.left_fits h.right_fits in
      (
        rw read (ground arith),
        rw read (ground arith),
        rw read (ground arith),
        rw read (ground arith),
        rw read (ground arith),
        rw read (ground arith),
      )
