-- ===== src/Gef/Arch/Arm/Conditions.antt =====
-- The conditions of ARM after `cmp a, b` on 32-bit words, and the state of the processor.
use os_project_signal.Prelude.{ℕ, ◌≡◌, String, Bool, not, ltb, leb, ◌==◌, arith}
use os_project_signal.Prelude.Int.{ℤ}
use os_project_signal.Prelude.Bits.{test_bit}
use os_project_signal.Prelude.Result.{Result, ok}
use os_project_signal.Gef.Arch.Instruction.{Instruction}
use os_project_signal.Gef.Arch.Target.{Target, register}
use os_project_signal.Gef.Arch.Comparison.{Compared, signed_lt, signed_lt-of_flags, signed_lt_flip}
use os_project_signal.Gef.Arch.Arm.{flags_table, is_branch_taken}

-- N, Z, C and V; the carry flag is set where there is no borrow.
abbrev pub AfterCmp : ℤ → ℕ → ℕ → Type 0
AfterCmp val a b =
    Compared a b (not (test_bit val 29)) (test_bit val 30) (test_bit val 31) (test_bit val 28)

module _ (t : Target) (insn : Instruction) (val : ℤ) (a b : ℕ) (read : register t "$cpsr" ≡ ok val)
    (h : AfterCmp val a b) where
  abbrev pub run : String → Result (Bool × String)
  run m = is_branch_taken t flags_table (record insn { mnemonic = m })

  -- After `cmp a, b` each of the ten conditions that compare is taken exactly when its relation holds
  -- of the two words, as unsigned or as signed integers.
  pub compare_conditions :
      (run "beq" ≡ ok (a == b, "Z"))
      × (run "bne" ≡ ok (not (a == b), "!Z"))
      × (run "blt" ≡ ok (signed_lt a b, "N!=V"))
      × (run "ble" ≡ ok (not (signed_lt b a), "Z || N!=V"))
      × (run "bgt" ≡ ok (signed_lt b a, "!Z && N==V"))
      × (run "bge" ≡ ok (not (signed_lt a b), "N==V"))
      × (run "bhi" ≡ ok (ltb b a, "C && !Z"))
      × (run "bls" ≡ ok (leb a b, "!C || Z"))
      × (run "bcs" ≡ ok (leb b a, "C"))
      × (run "bcc" ≡ ok (ltb a b, "!C"))
  unfolding is_branch_taken
  compare_conditions =
      let lt = signed_lt-of_flags a b h.left_fits h.right_fits in
      let flip = signed_lt_flip a b h.left_fits h.right_fits in
      (
        rw read (ground arith),
        rw read (ground arith),
        rw read (ground arith),
        rw read (ground arith),
        rw read (ground arith),
        rw read (ground arith),
        rw read (ground arith),
        rw read (ground arith),
        rw read (ground arith),
        rw read (ground arith),
      )
