-- ===== src/Gef/Arch/PowerPc.antt =====
-- `class PowerPC` and `class PowerPC64` of scripts/gef.py.
pub mod Conditions
use os_project_signal.Prelude.{
  ℕ, String, Bool, false, not, ◌||◌, Option, none, some, List, [], ◌∷◌, if◌then◌else◌,
}
use os_project_signal.Prelude.Int.{ℤ}
use os_project_signal.Prelude.Text.{str_eq, one_of, concat, join, decimal, hex_prefixed, numeral}
use os_project_signal.Prelude.Result.{Result, ok, map_ok}
use os_project_signal.Gef.Elf.Enums
use os_project_signal.Gef.Permission.{Permission, value}
use os_project_signal.Gef.Arch.Instruction.{Instruction}
use os_project_signal.Gef.Arch.Target.{Target, register, to_unsigned_long}
use os_project_signal.Gef.Arch.Attributes.{
  Attributes, Style, FlagsTable, named, abi, flag, flags_to_human,
}

abbrev pub flags_table : FlagsTable
flags_table =
    (3, "negative[0]")
    ∷ (2, "positive[0]")
    ∷ (1, "equal[0]")
    ∷ (0, "overflow[0]")
    ∷ (31, "less[7]")
    ∷ (30, "greater[7]")
    ∷ (29, "equal[7]")
    ∷ (28, "overflow[7]")
    ∷ []

abbrev pub powerpc_attributes : Attributes
powerpc_attributes = record {
  arch = "PPC";
  aliases = named "PowerPC" ∷ abi Enums.powerpc ∷ named "PPC" ∷ [];
  all_registers =
      "$r0" ∷ "$r1" ∷ "$r2" ∷ "$r3" ∷ "$r4" ∷ "$r5" ∷ "$r6" ∷ "$r7" ∷ "$r8" ∷ "$r9" ∷ "$r10"
      ∷ "$r11" ∷ "$r12" ∷ "$r13" ∷ "$r14" ∷ "$r15" ∷ "$r16" ∷ "$r17" ∷ "$r18" ∷ "$r19" ∷ "$r20"
      ∷ "$r21" ∷ "$r22" ∷ "$r23" ∷ "$r24" ∷ "$r25" ∷ "$r26" ∷ "$r27" ∷ "$r28" ∷ "$r29" ∷ "$r30"
      ∷ "$r31" ∷ "$pc" ∷ "$msr" ∷ "$cr" ∷ "$lr" ∷ "$ctr" ∷ "$xer" ∷ "$trap" ∷ [];
  nop_insn = 0x60 ∷ 0x00 ∷ 0x00 ∷ 0x00 ∷ [];
  return_register = "$r0";
  flag_register = some "$cr";
  flags_table = flags_table;
  function_parameters = "$i0" ∷ "$i1" ∷ "$i2" ∷ "$i3" ∷ "$i4" ∷ "$i5" ∷ [];
  syscall_register = "$r0";
  syscall_instructions = "sc" ∷ [];
  special_registers = [];
}

abbrev pub powerpc64_attributes : Attributes
powerpc64_attributes = record powerpc_attributes {
  aliases = named "PowerPC64" ∷ abi Enums.powerpc64 ∷ named "PPC64" ∷ [];
}

unfoldable pub flag_register_to_human : Target → Style → Option ℤ → Result String
unfolding register flags_to_human
flag_register_to_human t style none =
    map_ok (λ val. flags_to_human style val flags_table) (register t "$cr")
flag_register_to_human t style (some val) = ok (flags_to_human style val flags_table)

unfoldable pub is_call : Instruction → Bool
is_call insn = false

unfoldable pub is_ret : Instruction → Bool
is_ret insn = str_eq insn.mnemonic "blr"

abbrev pub branch_mnemos : List String
branch_mnemos = "beq" ∷ "bne" ∷ "ble" ∷ "blt" ∷ "bgt" ∷ "bge" ∷ []

unfoldable pub is_conditional_branch : Instruction → Bool
is_conditional_branch insn = one_of insn.mnemonic branch_mnemos

unfoldable pub taken_by_flags : String → ℤ → Bool × String
taken_by_flags mnemo val =
    let e = flag flags_table "equal[7]" val in
    let l = flag flags_table "less[7]" val in
    let g = flag flags_table "greater[7]" val in
    if str_eq mnemo "beq"
    then (e, "E")
    else if str_eq mnemo "bne"
    then (not e, "!E")
    else if str_eq mnemo "ble"
    then (e || l, "E || L")
    else if str_eq mnemo "blt"
    then (l, "L")
    else if str_eq mnemo "bge"
    then (e || g, "E || G")
    else if str_eq mnemo "bgt"
    then (g, "G")
    else (false, "")

unfoldable pub is_branch_taken : Target → Instruction → Result (Bool × String)
unfolding register taken_by_flags
is_branch_taken t insn = map_ok (taken_by_flags insn.mnemonic) (register t "$cr")

unfoldable pub get_ra : Target → ℕ → Instruction → Result (Option ℤ)
unfolding is_ret register to_unsigned_long
get_ra t ptrsize insn =
    if is_ret insn
    then map_ok some (register t "$lr")
    else ok (elim t.older_pc [ none ↦ none | some pc ↦ some (to_unsigned_long ptrsize pc) ])

unfoldable pub mprotect_asm : ℕ → ℕ → Permission → String
unfolding numeral
mprotect_asm addr size perm = join ";" (
    "addi 1, 1, -16"
    ∷ "stw 0, 0(1)"
    ∷ "stw 3, 4(1)"
    ∷ "stw 4, 8(1)"
    ∷ "stw 5, 12(1)"
    ∷ concat ("li 0, " ∷ decimal 125 ∷ [])
    ∷ concat ("lis 3, " ∷ hex_prefixed addr ∷ "@h" ∷ [])
    ∷ concat ("ori 3, 3, " ∷ hex_prefixed addr ∷ "@l" ∷ [])
    ∷ concat ("lis 4, " ∷ hex_prefixed size ∷ "@h" ∷ [])
    ∷ concat ("ori 4, 4, " ∷ hex_prefixed size ∷ "@l" ∷ [])
    ∷ concat ("li 5, " ∷ decimal (value perm) ∷ [])
    ∷ "sc"
    ∷ "lwz 0, 0(1)"
    ∷ "lwz 3, 4(1)"
    ∷ "lwz 4, 8(1)"
    ∷ "lwz 5, 12(1)"
    ∷ "addi 1, 1, 16"
    ∷ [])
