-- ===== src/Gef/Arch/Aarch64/Conditions.antt =====
-- The state of an ARM processor as both classes read it, and the tests of AArch64 on a register.
use os_project_signal.Prelude.{
  ◌≡◌, String, not, ◌&&◌, true, false, [], ◌∷◌, arith, some, if◌then◌else◌,
}
use os_project_signal.Prelude.Int.{ℤ, pos, eqb_ℤ}
use os_project_signal.Prelude.Bits.{test_bit}
use os_project_signal.Prelude.Text.{concat}
use os_project_signal.Prelude.Result.{ok, map_ok}
use os_project_signal.Gef.Arch.Instruction.{Instruction}
use os_project_signal.Gef.Arch.Target.{Target, register}
use os_project_signal.Gef.Arch.Arm
use os_project_signal.Gef.Arch.Aarch64.{is_thumb32, ptrsize, is_branch_taken}

-- In a live program the mode of an ARM processor always reads as "ARM", the instructions as 4 bytes
-- long and the program counter without the bit for Thumb, whatever the status register holds: the
-- masked bit is compared with 1.
pub never_thumb :
    (t : Target) (val counter : ℤ)
    → t.alive ≡ true
    → register t "$cpsr" ≡ ok val
    → register t "$pc" ≡ ok counter
    → (Arm.mode t ≡ ok "ARM") × (Arm.instruction_length t ≡ ok (some 4)) × (Arm.pc t ≡ ok counter)
unfolding Arm.mode Arm.instruction_length Arm.pc
never_thumb t val counter alive read read_pc = (
  rw (read, alive) (ground arith),
  rw (read, alive) (ground arith),
  rw (read_pc, read, alive) (ground arith),
)

-- In a live program AArch64 has pointers of 4 bytes where bit 4 of the status register is set and bit
-- 5 is clear, and of 8 bytes otherwise; the size 2 is never returned.
pub ptrsize_lem :
    (t : Target) (val : ℤ)
    → t.alive ≡ true
    → register t "$cpsr" ≡ ok val
    → (ptrsize t ≡ ok (if test_bit val 4 && not (test_bit val 5) then 4 else 8))
      × (is_thumb32 t ≡ ok false)
unfolding ptrsize is_thumb32
ptrsize_lem t val alive read = (rw (read, alive) (ground arith), rw (read, alive) (ground arith))

-- The tests of a register against zero: "cbz" and "cbnz" answer with opposite truth values, and give
-- one reason.
pub zero_tests :
    (t : Target) (insn : Instruction) (reg label : String) (val : ℤ)
    → register t (concat ("$" ∷ reg ∷ [])) ≡ ok val
    → (map_ok
          (λ r. r.0)
          (is_branch_taken t (record insn { mnemonic = "cbz"; operands = reg ∷ label ∷ [] }))
        ≡ ok (eqb_ℤ val (pos 0)))
      × (map_ok
            (λ r. r.0)
            (is_branch_taken t (record insn { mnemonic = "cbnz"; operands = reg ∷ label ∷ [] }))
          ≡ ok (not (eqb_ℤ val (pos 0))))
unfolding is_branch_taken
zero_tests t insn reg label val read = (rw read (ground arith), rw read (ground arith))
