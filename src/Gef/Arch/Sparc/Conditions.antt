-- ===== src/Gef/Arch/Sparc/Conditions.antt =====
-- The branches of SPARC after `cmp a, b` on 32-bit words.
use os_project_signal.Prelude.{ℕ, ◌≡◌, String, Bool, not, ◌&&◌, true, false, ltb, leb, ◌==◌, arith}
use os_project_signal.Prelude.Int.{ℤ}
use os_project_signal.Prelude.Bits.{test_bit}
use os_project_signal.Prelude.Result.{Result, ok, err}
use os_project_signal.Gef.Arch.Instruction.{Instruction}
use os_project_signal.Gef.Arch.Target.{Target, register}
use os_project_signal.Gef.Arch.Comparison.{
  Compared, signed_lt, signed_lt-of_flags, sign_flag, overflow_flag,
}
use os_project_signal.Gef.Arch.Attributes.{FlagsTable}
use os_project_signal.Prelude.Text.{str_eq, one_of-all_texts}
use os_project_signal.Gef.Arch.Sparc.{
  flags_table, is_branch_taken, is_conditional_branch, branch_mnemos,
}

abbrev pub AfterCmp : ℤ → ℕ → ℕ → Type 0
AfterCmp val a b =
    Compared a b (test_bit val 20) (test_bit val 22) (test_bit val 23) (test_bit val 21)

module _ (t : Target) (insn : Instruction) (val : ℤ) (a b : ℕ) (read : register t "$psr" ≡ ok val)
    (h : AfterCmp val a b) where
  abbrev pub run : String → Result (Bool × String)
  run m = is_branch_taken t "$psr" flags_table (record insn { mnemonic = m })

  -- After `cmp a, b` the branches for unsigned operands and for equality are taken exactly when their
  -- relation holds of the two words.
  pub unsigned_branches :
      (run "be" ≡ ok (a == b, "Z"))
      × (run "bne" ≡ ok (not (a == b), "!Z"))
      × (run "bgu" ≡ ok (ltb b a, "!C && !Z"))
      × (run "bgeu" ≡ ok (leb b a, "!C"))
      × (run "blu" ≡ ok (ltb a b, "C"))
      × (run "bleu" ≡ ok (leb a b, "C || Z"))
  unfolding is_branch_taken
  unsigned_branches = (
    rw read (ground arith),
    rw read (ground arith),
    rw read (ground arith),
    rw read (ground arith),
    rw read (ground arith),
    rw read (ground arith),
  )

  -- The branches for signed operands do not compare. "bl" is taken only after a subtraction that
  -- overflowed to a negative word, where the first word is not below the second one, and "bge" is its
  -- opposite: it is taken whenever nothing overflowed, also where the first word is below.
  pub signed_branches :
      (run "bl" ≡ ok (sign_flag a b && overflow_flag a b, "N && O"))
      × (run "bge" ≡ ok (not (sign_flag a b && overflow_flag a b), "!N || !O"))
      × (sign_flag a b && overflow_flag a b && signed_lt a b ≡ false)
  unfolding is_branch_taken
  signed_branches =
      let lt = signed_lt-of_flags a b h.left_fits h.right_fits in
      (rw read (ground arith), rw read (ground arith), ground arith)

abbrev pub explained : Result (Bool × String) → Bool
explained (ok (taken, reason)) = not (str_eq reason "")
explained (err e) = false

-- Every mnemonic of the list of conditional branches has its own test: on both classes, whichever
-- flag register is read with its table, the answer comes with a reason.
pub branch-explained :
    (t : Target) (reg : String) (table : FlagsTable) (insn : Instruction) (val : ℤ)
    → register t reg ≡ ok val
    → is_conditional_branch insn ≡ true
    → explained (is_branch_taken t reg table insn) ≡ true
unfolding is_conditional_branch is_branch_taken
branch-explained t reg table insn val read branch =
    one_of-all_texts (λ m. explained (is_branch_taken t reg table (record insn { mnemonic = m })))
      insn.mnemonic branch_mnemos branch (rw read)
