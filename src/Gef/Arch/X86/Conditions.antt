-- ===== src/Gef/Arch/X86/Conditions.antt =====
-- The conditional jumps of x86 after `cmp a, b` on 32-bit words.
use os_project_signal.Prelude.{
  ℕ, ◌≡◌, String, Bool, not, ◌&&◌, ◌||◌, ltb, leb, ◌==◌, arith, if◌then◌else◌, true, false,
}
use os_project_signal.Prelude.Int.{ℤ}
use os_project_signal.Prelude.Text.{str_eq, one_of-all_texts}
use os_project_signal.Prelude.Bits.{test_bit}
use os_project_signal.Prelude.Result.{Result, ok, err}
use os_project_signal.Gef.Arch.Instruction.{Instruction}
use os_project_signal.Gef.Arch.Target.{Target, register}
use os_project_signal.Gef.Arch.Comparison.{
  Compared, signed_lt, sign_flag, overflow_flag, signed_lt-of_flags, signed_lt_flip,
}
use os_project_signal.Gef.Arch.X86.{is_branch_taken, branch_mnemos, is_conditional_branch}

abbrev pub AfterCmp : ℤ → ℕ → ℕ → Type 0
AfterCmp val a b = Compared a b (test_bit val 0) (test_bit val 6) (test_bit val 7) (test_bit val 11)

module _ (t : Target) (is_x86_64 : Bool) (insn : Instruction) (val : ℤ) (a b : ℕ)
    (read : register t "$eflags" ≡ ok val) (h : AfterCmp val a b) where
  abbrev pub run : String → Result (Bool × String)
  run m = is_branch_taken t is_x86_64 (record insn { mnemonic = m })

  -- After `cmp a, b` the jumps for unsigned operands and for equality are taken exactly when their
  -- relation holds of the two words.
  pub unsigned_jumps :
      (run "ja" ≡ ok (ltb b a, "!C && !Z"))
      × (run "jae" ≡ ok (leb b a, "!C"))
      × (run "jb" ≡ ok (ltb a b, "C"))
      × (run "jbe" ≡ ok (leb a b, "C || Z"))
      × (run "je" ≡ ok (a == b, "Z"))
      × (run "jne" ≡ ok (not (a == b), "!Z"))
  unfolding is_branch_taken
  unsigned_jumps = (
    rw read (ground (arith, h.below_lem)),
    rw read (ground arith),
    rw read (ground arith),
    rw read (ground arith),
    rw read (ground arith),
    rw read (ground arith),
  )

  -- The jumps for signed operands but "jl" are taken exactly when their relation holds of the two words
  -- as signed integers.
  pub signed_jumps :
      (run "jg" ≡ ok (signed_lt b a, "!Z && S==O"))
      × (run "jge" ≡ ok (not (signed_lt a b), "S==O"))
      × (run "jle" ≡ ok (not (signed_lt b a), "Z || S!=O"))
  unfolding is_branch_taken
  signed_jumps =
      let lt = signed_lt-of_flags a b h.left_fits h.right_fits in
      let flip = signed_lt_flip a b h.left_fits h.right_fits in
      (rw read (ground arith), rw read (ground arith), rw read (ground arith))

  -- "jl" is taken when the first word is below the second one as signed integers, and also when the
  -- sign and the overflow flag are both set, where it is not below: the code compares the two masked
  -- values, which then differ.
  pub jl_lem : run "jl" ≡ ok (signed_lt a b || (sign_flag a b && overflow_flag a b), "S!=O")
  unfolding is_branch_taken
  jl_lem = let lt = signed_lt-of_flags a b h.left_fits h.right_fits in rw read (ground arith)

-- A branch test that comes with a reason.
abbrev pub explained : Result (Bool × String) → Bool
explained (ok (taken, reason)) = not (str_eq reason "")
explained (err e) = false

-- Every mnemonic that is taken for a conditional branch has its own test: wherever the two registers
-- can be read, the answer comes with a reason, which the fall-through at the end has not.
pub is_branch_taken-explained :
    (t : Target) (is_x86_64 : Bool) (insn : Instruction) (val cx : ℤ)
    → register t "$eflags" ≡ ok val
    → (if is_x86_64 then register t "$rcx" else register t "$ecx") ≡ ok cx
    → is_conditional_branch insn ≡ true
    → explained (is_branch_taken t is_x86_64 insn) ≡ true
unfolding is_conditional_branch is_branch_taken
is_branch_taken-explained t is_x86_64 insn val cx read_flags read_cx branch =
    one_of-all_texts (λ m. explained (is_branch_taken t is_x86_64 (record insn { mnemonic = m })))
      insn.mnemonic branch_mnemos branch (rw (read_flags, read_cx))
