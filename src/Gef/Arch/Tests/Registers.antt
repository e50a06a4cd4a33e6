-- ===== src/Gef/Arch/Tests/Registers.antt =====
-- The other architectures, as inputs of the theorems.
use os_project_signal.Prelude.{
  ◌≡◌, refl, inr, String, Bool, not, true, ltb, ◌==◌, [], ◌∷◌, arith, if◌then◌else◌,
}
use os_project_signal.Prelude.Int.{ℤ, pos, ltb_ℤ}
use os_project_signal.Prelude.Text.{str_eq}
use os_project_signal.Prelude.Bits.{test_bit}
use os_project_signal.Prelude.Result.{Result, ok, map_ok}
use os_project_signal.Gef.Pack.{integer_of}
use os_project_signal.Gef.Arch.Target.{Target, register}
use os_project_signal.Gef.Arch.Comparison.{signed_lt, sign_flag, overflow_flag}
use os_project_signal.Gef.Arch.Riscv
use os_project_signal.Gef.Arch.Riscv.Conditions as RiscvConditions
use os_project_signal.Gef.Arch.Sparc
use os_project_signal.Gef.Arch.Sparc.Conditions as SparcConditions
use os_project_signal.Gef.Arch.PowerPc
use os_project_signal.Gef.Arch.PowerPc.Conditions as PowerPcConditions
use os_project_signal.Gef.Arch.Tests.{reading, branch}

-- $a0 reads as 3, and every other register as 5.
abbrev two_registers : Target
two_registers = record (reading (pos 5)) {
  evaluate = λ name. ok (if str_eq name "$a0" then pos 3 else pos 5);
}

left_lem : register two_registers "$a0" ≡ ok (pos 3)
unfolding register
left_lem = refl

right_lem : register two_registers "$a1" ≡ ok (pos 5)
unfolding register
right_lem = refl

abbrev riscv : String → Result Bool
riscv m =
    map_ok (λ r. r.0)
      (Riscv.is_branch_taken two_registers 8
        (record branch { mnemonic = m; operands = "$a0" ∷ "$a1" ∷ "16" ∷ [] }))

abbrev below : Bool
below = ltb_ℤ (integer_of 8 true 3) (integer_of 8 true 5)

riscv_example :
    (riscv "beq" ≡ ok (3 == 5))
    × (riscv "bne" ≡ ok (not (3 == 5)))
    × (riscv "blt" ≡ ok below)
    × (riscv "bltu" ≡ ok (ltb 3 5))
    × (riscv "bge" ≡ ok below)
    × (riscv "bgeu" ≡ ok (ltb 3 5))
riscv_example =
    RiscvConditions.register_branches two_registers branch 8 3 5 "$a0" "$a1" "16" (inr refl)
      (omega arith) (omega arith) left_lem right_lem

-- C and N are set.
abbrev psr : ℤ
psr = pos 0x900000

sparc_compared : SparcConditions.AfterCmp psr 3 5
unfolding test_bit sign_flag overflow_flag
sparc_compared = record {
  left_fits = omega arith;
  right_fits = omega arith;
  below_lem = refl;
  zero_lem = refl;
  sign_lem = refl;
  overflow_lem = refl;
}

abbrev sparc : String → Result (Bool × String)
sparc m =
    Sparc.is_branch_taken (reading psr) "$psr" Sparc.flags_table (record branch { mnemonic = m })

is_be : Sparc.is_conditional_branch (record branch { mnemonic = "be" }) ≡ true
unfolding Sparc.is_conditional_branch
is_be = refl

-- "less[7]" is set.
powerpc_compared : PowerPcConditions.AfterCmp (pos 0x80000000) 3 5
unfolding test_bit signed_lt
powerpc_compared = record {
  left_fits = omega arith;
  right_fits = omega arith;
  less_lem = refl;
  greater_lem = refl;
  equal_lem = refl;
}

abbrev powerpc : String → Result (Bool × String)
powerpc m = PowerPc.is_branch_taken (reading (pos 0x80000000)) (record branch { mnemonic = m })
