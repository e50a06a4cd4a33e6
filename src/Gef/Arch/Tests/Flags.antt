-- ===== src/Gef/Arch/Tests/Flags.antt =====
-- x86 and ARM after the comparison of 3 with 5, as inputs of the theorems.
use os_project_signal.Prelude.{
  ◌≡◌, refl, String, Bool, not, ◌&&◌, ◌||◌, true, ltb, leb, ◌==◌, arith,
}
use os_project_signal.Prelude.Int.{ℤ, pos}
use os_project_signal.Prelude.Bits.{test_bit}
use os_project_signal.Prelude.Result.{Result, ok}
use os_project_signal.Gef.Arch.Comparison.{signed_lt, sign_flag, overflow_flag}
use os_project_signal.Gef.Arch.X86
use os_project_signal.Gef.Arch.X86.Conditions as X86Conditions
use os_project_signal.Gef.Arch.Arm
use os_project_signal.Gef.Arch.Arm.Conditions as ArmConditions
use os_project_signal.Gef.Arch.Tests.{reading, register_lem, branch}

-- The carry and the sign flag are set.
abbrev eflags : ℤ
eflags = pos 0x81

x86_compared : X86Conditions.AfterCmp eflags 3 5
unfolding test_bit sign_flag overflow_flag
x86_compared = record {
  left_fits = omega arith;
  right_fits = omega arith;
  below_lem = refl;
  zero_lem = refl;
  sign_lem = refl;
  overflow_lem = refl;
}

abbrev x86 : String → Result (Bool × String)
x86 m = X86.is_branch_taken (reading eflags) true (record branch { mnemonic = m })

signed_jumps_example :
    (x86 "jg" ≡ ok (signed_lt 5 3, "!Z && S==O"))
    × (x86 "jge" ≡ ok (not (signed_lt 3 5), "S==O"))
    × (x86 "jle" ≡ ok (not (signed_lt 5 3), "Z || S!=O"))
signed_jumps_example =
    X86Conditions.signed_jumps (reading eflags) true branch eflags 3 5
      (register_lem eflags "$eflags") x86_compared

jl_example : x86 "jl" ≡ ok (signed_lt 3 5 || (sign_flag 3 5 && overflow_flag 3 5), "S!=O")
jl_example =
    X86Conditions.jl_lem (reading eflags) true branch eflags 3 5 (register_lem eflags "$eflags")
      x86_compared

is_ja : X86.is_conditional_branch branch ≡ true
unfolding X86.is_conditional_branch
is_ja = refl

-- N is set, and C is clear.
abbrev cpsr : ℤ
cpsr = pos 0x80000000

arm_compared : ArmConditions.AfterCmp cpsr 3 5
unfolding test_bit sign_flag overflow_flag
arm_compared = record {
  left_fits = omega arith;
  right_fits = omega arith;
  below_lem = refl;
  zero_lem = refl;
  sign_lem = refl;
  overflow_lem = refl;
}

abbrev arm : String → Result (Bool × String)
arm m = Arm.is_branch_taken (reading cpsr) Arm.flags_table (record branch { mnemonic = m })

arm_example :
    (arm "beq" ≡ ok (3 == 5, "Z"))
    × (arm "bne" ≡ ok (not (3 == 5), "!Z"))
    × (arm "blt" ≡ ok (signed_lt 3 5, "N!=V"))
    × (arm "ble" ≡ ok (not (signed_lt 5 3), "Z || N!=V"))
    × (arm "bgt" ≡ ok (signed_lt 5 3, "!Z && N==V"))
    × (arm "bge" ≡ ok (not (signed_lt 3 5), "N==V"))
    × (arm "bhi" ≡ ok (ltb 5 3, "C && !Z"))
    × (arm "bls" ≡ ok (leb 3 5, "!C || Z"))
    × (arm "bcs" ≡ ok (leb 5 3, "C"))
    × (arm "bcc" ≡ ok (ltb 3 5, "!C"))
arm_example =
    ArmConditions.compare_conditions (reading cpsr) branch cpsr 3 5 (register_lem cpsr "$cpsr")
      arm_compared
