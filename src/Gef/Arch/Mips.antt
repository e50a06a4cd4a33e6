-- ===== src/Gef/Arch/Mips.antt =====
-- `class MIPS` and `class MIPS64` of scripts/gef.py.
use os_project_signal.Prelude.{
  ℕ, String, Bool, false, not, ◌&&◌, Option, none, some, List, [], ◌∷◌, if◌then◌else◌,
}
use os_project_signal.Prelude.Int.{ℤ, pos, eqb_ℤ, ltb_ℤ, leb_ℤ}
use os_project_signal.Prelude.Text.{str_eq, starts_with, one_of, concat, join, decimal, numeral}
use os_project_signal.Prelude.Result.{Result, ok, ◌>>=◌, map_ok}
use os_project_signal.Gef.Elf.Enums
use os_project_signal.Gef.Elf.Enums.{Class, elf_64_bits, elf_32_bits}
use os_project_signal.Gef.Permission.{Permission, value}
use os_project_signal.Gef.Arch.Instruction.{Instruction}
use os_project_signal.Gef.Arch.Target.{Target, register, operand, to_unsigned_long}
use os_project_signal.Gef.Arch.Attributes.{Attributes, named, abi}

abbrev pub mips_attributes : Attributes
mips_attributes = record {
  arch = "MIPS";
  aliases = named "MIPS" ∷ abi Enums.mips ∷ [];
  all_registers =
      "$zero" ∷ "$at" ∷ "$v0" ∷ "$v1" ∷ "$a0" ∷ "$a1" ∷ "$a2" ∷ "$a3" ∷ "$t0" ∷ "$t1" ∷ "$t2"
      ∷ "$t3" ∷ "$t4" ∷ "$t5" ∷ "$t6" ∷ "$t7" ∷ "$s0" ∷ "$s1" ∷ "$s2" ∷ "$s3" ∷ "$s4" ∷ "$s5"
      ∷ "$s6" ∷ "$s7" ∷ "$t8" ∷ "$t9" ∷ "$k0" ∷ "$k1" ∷ "$s8" ∷ "$pc" ∷ "$sp" ∷ "$hi" ∷ "$lo"
      ∷ "$fir" ∷ "$ra" ∷ "$gp" ∷ [];
  nop_insn = 0x00 ∷ 0x00 ∷ 0x00 ∷ 0x00 ∷ [];
  return_register = "$v0";
  flag_register = some "$fcsr";
  flags_table = [];
  function_parameters = "$a0" ∷ "$a1" ∷ "$a2" ∷ "$a3" ∷ [];
  syscall_register = "$v0";
  syscall_instructions = "syscall" ∷ [];
  special_registers = [];
}

abbrev pub mips64_attributes : Attributes
mips64_attributes = record mips_attributes { aliases = named "MIPS64" ∷ [] }

unfoldable pub is_call : Instruction → Bool
is_call insn = false

unfoldable pub is_ret : Instruction → Result Bool
unfolding operand
is_ret insn =
    if str_eq insn.mnemonic "jr"
    then map_ok (λ o. str_eq o "ra") (operand insn.operands 0)
    else ok false

abbrev pub branch_mnemos : List String
branch_mnemos = "beq" ∷ "bne" ∷ "beqz" ∷ "bnez" ∷ "bgtz" ∷ "bgez" ∷ "bltz" ∷ "blez" ∷ []

unfoldable pub is_conditional_branch : Instruction → Bool
is_conditional_branch insn = one_of insn.mnemonic branch_mnemos

-- gef.arch.register(ops[i])
register_of : Target → List String → ℕ → Result ℤ
unfolding operand register
register_of t ops i = do name ← operand ops i; register t name

-- register(ops[0]) test register(ops[1]), f"{ops[0]} {sign} {ops[1]}"
compare_two : Target → List String → (ℤ → ℤ → Bool) → String → Result (Bool × String)
unfolding register_of operand
compare_two t ops test sign = do
  a ← register_of t ops 0
  b ← register_of t ops 1
  x ← operand ops 0
  y ← operand ops 1
  ok (test a b, concat (x ∷ sign ∷ y ∷ []))

-- register(ops[0]) test 0, f"{ops[0]} {sign} 0"
compare_zero : Target → List String → (ℤ → ℤ → Bool) → String → Result (Bool × String)
unfolding register_of operand
compare_zero t ops test sign = do
  a ← register_of t ops 0
  x ← operand ops 0
  ok (test a (pos 0), concat (x ∷ sign ∷ "0" ∷ []))

unfoldable pub is_branch_taken : Target → Instruction → Result (Bool × String)
unfolding compare_two compare_zero
is_branch_taken t insn =
    let mnemo = insn.mnemonic in
    let ops = insn.operands in
    if str_eq mnemo "beq"
    then compare_two t ops eqb_ℤ " == "
    else if str_eq mnemo "bne"
    then compare_two t ops (λ a b. not (eqb_ℤ a b)) " != "
    else if str_eq mnemo "beqz"
    then compare_zero t ops eqb_ℤ " == "
    else if str_eq mnemo "bnez"
    then compare_zero t ops (λ a b. not (eqb_ℤ a b)) " != "
    else if str_eq mnemo "bgtz"
    then compare_zero t ops (λ a b. ltb_ℤ b a) " > "
    else if str_eq mnemo "bgez"
    then compare_zero t ops (λ a b. leb_ℤ b a) " >= "
    else if str_eq mnemo "bltz"
    then compare_zero t ops ltb_ℤ " < "
    else if str_eq mnemo "blez"
    then compare_zero t ops leb_ℤ " <= "
    else ok (false, "")

unfoldable pub get_ra : Target → ℕ → Instruction → Result (Option ℤ)
unfolding is_ret register to_unsigned_long
get_ra t ptrsize insn = do
  at_ret ← is_ret insn
  if at_ret
      then map_ok some (register t "$ra")
      else ok (elim t.older_pc [ none ↦ none | some pc ↦ some (to_unsigned_long ptrsize pc) ])

unfoldable pub mprotect_asm : ℕ → ℕ → Permission → String
unfolding numeral
mprotect_asm addr size perm = join "; " (
    "addi $sp, $sp, -16"
    ∷ "sw $v0, 0($sp)"
    ∷ "sw $a0, 4($sp)"
    ∷ "sw $a3, 8($sp)"
    ∷ "sw $a3, 12($sp)"
    ∷ concat ("li $v0, " ∷ decimal 4125 ∷ [])
    ∷ concat ("li $a0, " ∷ decimal addr ∷ [])
    ∷ concat ("li $a1, " ∷ decimal size ∷ [])
    ∷ concat ("li $a2, " ∷ decimal (value perm) ∷ [])
    ∷ "syscall"
    ∷ "lw $v0, 0($sp)"
    ∷ "lw $a1, 4($sp)"
    ∷ "lw $a3, 8($sp)"
    ∷ "lw $a3, 12($sp)"
    ∷ "addi $sp, $sp, 16"
    ∷ [])

abbrev is_64_bits : Class → Bool
is_64_bits elf_64_bits = Bool.true
is_64_bits elf_32_bits = false

-- `MIPS64.supports_gdb_arch`; `none` where no ELF file is loaded
unfoldable pub supports_gdb_arch : Option Class → String → Bool
supports_gdb_arch none gdb_arch = false
supports_gdb_arch (some e_class) gdb_arch = starts_with gdb_arch "mips" && is_64_bits e_class
