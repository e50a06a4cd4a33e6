-- ===== src/Gef/Arch/Riscv.antt =====
-- `class RISCV` of scripts/gef.py.
pub mod Conditions
use os_project_signal.Prelude.{
  ℕ, ◌^◌, String, Bool, true, false, not, Option, none, some, List, [], ◌∷◌, length, ltb, ◌==◌,
  if◌then◌else◌,
}
use os_project_signal.Prelude.Int.{ℤ, pos, ◌-ℤ◌, eqb_ℤ, ltb_ℤ, leb_ℤ}
use os_project_signal.Prelude.Bits.{test_bit}
use os_project_signal.Prelude.Text.{
  str_eq, starts_with, ends_with, tail, init, concat, decimal_ℤ, numeral,
}
use os_project_signal.Prelude.Result.{Result, ok, err, os_error, ◌>>=◌, map_ok}
use os_project_signal.Gef.Elf.Enums.{riscv}
use os_project_signal.Gef.Permission.{Permission}
use os_project_signal.Gef.Arch.Instruction.{Instruction}
use os_project_signal.Gef.Arch.Target.{Target, register, operand, to_unsigned_long}
use os_project_signal.Gef.Arch.Attributes.{Attributes, named, abi}

abbrev pub riscv_attributes : Attributes
riscv_attributes = record {
  arch = "RISCV";
  aliases = named "RISCV" ∷ abi riscv ∷ [];
  all_registers =
      "$zero" ∷ "$ra" ∷ "$sp" ∷ "$gp" ∷ "$tp" ∷ "$t0" ∷ "$t1" ∷ "$t2" ∷ "$fp" ∷ "$s1" ∷ "$a0"
      ∷ "$a1" ∷ "$a2" ∷ "$a3" ∷ "$a4" ∷ "$a5" ∷ "$a6" ∷ "$a7" ∷ "$s2" ∷ "$s3" ∷ "$s4" ∷ "$s5"
      ∷ "$s6" ∷ "$s7" ∷ "$s8" ∷ "$s9" ∷ "$s10" ∷ "$s11" ∷ "$t3" ∷ "$t4" ∷ "$t5" ∷ "$t6" ∷ [];
  nop_insn = 0x00 ∷ 0x00 ∷ 0x00 ∷ 0x13 ∷ [];
  return_register = "$a0";
  flag_register = none;
  flags_table = [];
  function_parameters = "$a0" ∷ "$a1" ∷ "$a2" ∷ "$a3" ∷ "$a4" ∷ "$a5" ∷ "$a6" ∷ "$a7" ∷ [];
  syscall_register = "$a7";
  syscall_instructions = "ecall" ∷ [];
  special_registers = [];
}

abbrev pub instruction_length : ℕ
instruction_length = 4

unfoldable pub is_call : Instruction → Bool
is_call insn = str_eq insn.mnemonic "call"

-- `operands[2] == 0` compares a text with a number, which is false.
jalr_is_ret : List String → Result Bool
unfolding operand
jalr_is_ret operands = do
  rd ← operand operands 0
  if not (str_eq rd "zero") then ok false else do
    rs ← operand operands 1
    if not (str_eq rs "ra") then ok false else do offset ← operand operands 2; ok false

unfoldable pub is_ret : Instruction → Result Bool
unfolding jalr_is_ret operand
is_ret insn =
    let mnemo = insn.mnemonic in
    if str_eq mnemo "ret"
    then ok true
    else if str_eq mnemo "jalr"
    then jalr_is_ret insn.operands
    else if str_eq mnemo "c.jalr"
    then map_ok (λ rs. str_eq rs "ra") (operand insn.operands 0)
    else ok false

unfoldable pub mprotect_asm : ℕ → ℕ → Permission → Result String
mprotect_asm addr size perm = err os_error

-- `RISCV.ptrsize`: the attribute if it is set, else the size of "$pc" in a live program.
unfoldable pub ptrsize : Option ℕ → Bool → ℕ → ℕ
ptrsize (some n) alive sizeof_pc = n
ptrsize none alive sizeof_pc = if alive then sizeof_pc else 4

unfoldable pub is_conditional_branch : Instruction → Bool
is_conditional_branch insn = starts_with insn.mnemonic "b"

unfoldable pub long_to_twos_complement : ℕ → ℤ → Result ℤ
unfolding ◌-ℤ◌
long_to_twos_complement ptrsize v =
    if ptrsize == 4
    then ok (if test_bit v 31 then v -ℤ pos (2 ^ 32) else v)
    else if ptrsize == 8
    then ok (if test_bit v 63 then v -ℤ pos (2 ^ 64) else v)
    else err os_error

abbrev reason : ℤ → String → ℤ → String
reason rs1 op rs2 = concat (decimal_ℤ rs1 ∷ op ∷ decimal_ℤ rs2 ∷ [])

-- the comparisons, by the mnemonic's condition
unfoldable pub compare_registers : String → ℤ → ℤ → Result (Bool × String)
unfolding numeral
compare_registers condition rs1 rs2 =
    if str_eq condition "eq"
    then ok (if eqb_ℤ rs1 rs2 then (true, reason rs1 "=" rs2) else (false, reason rs1 "!=" rs2))
    else if str_eq condition "ne"
    then ok
        (if not (eqb_ℤ rs1 rs2) then (true, reason rs1 "!=" rs2) else (false, reason rs1 "=" rs2))
    else if str_eq condition "lt"
    then ok (if ltb_ℤ rs1 rs2 then (true, reason rs1 "<" rs2) else (false, reason rs1 ">=" rs2))
    else if str_eq condition "le"
    then ok (if leb_ℤ rs1 rs2 then (true, reason rs1 "<=" rs2) else (false, reason rs1 ">" rs2))
    else if str_eq condition "ge"
    then ok (if ltb_ℤ rs1 rs2 then (true, reason rs1 ">=" rs2) else (false, reason rs1 "<" rs2))
    else err os_error

-- A condition that ends in "u" is tested on the values as they were read.
unfoldable pub signed_or_unsigned : ℕ → String → ℤ → ℤ → Result (Bool × String)
unfolding long_to_twos_complement compare_registers init ends_with
signed_or_unsigned ptrsize condition rs1 rs2 =
    if not (ends_with condition "u")
    then (do
      rs2' ← long_to_twos_complement ptrsize rs2
      rs1' ← long_to_twos_complement ptrsize rs1
      compare_registers condition rs1' rs2')
    else compare_registers (init condition) rs1 rs2

unfoldable pub is_branch_taken : Target → ℕ → Instruction → Result (Bool × String)
unfolding register operand signed_or_unsigned ends_with init
is_branch_taken t ptrsize insn =
    let condition = tail insn.mnemonic in
    if ends_with condition "z"
    then (do
      r ← operand insn.operands 0
      rs1 ← register t r
      rs2 ← register t "$zero"
      signed_or_unsigned ptrsize (init condition) rs1 rs2)
    else if ltb 2 (length insn.operands)
    then (do
      r ← operand insn.operands 0
      rs1 ← register t r
      s ← operand insn.operands 1
      rs2 ← register t s
      signed_or_unsigned ptrsize condition rs1 rs2)
    else err os_error

unfoldable pub get_ra : Target → ℕ → Instruction → Result (Option ℤ)
unfolding is_ret register to_unsigned_long
get_ra t ptrsize insn = do
  at_ret ← is_ret insn
  if at_ret
      then map_ok some (register t "$ra")
      else ok (elim t.older_pc [ none ↦ none | some pc ↦ some (to_unsigned_long ptrsize pc) ])
