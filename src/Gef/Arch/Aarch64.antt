-- ===== src/Gef/Arch/Aarch64.antt =====
-- `class AARCH64` of scripts/gef.py, which derives from `ARM`.
pub mod Conditions
use os_project_signal.Prelude.{
  ℕ, String, Bool, true, false, not, ◌||◌, Option, none, some, List, [], ◌∷◌, ◌==◌, if◌then◌else◌,
}
use os_project_signal.Prelude.Int.{ℤ, pos, eqb_ℤ}
use os_project_signal.Prelude.Bits.{test_bit, masked_bit, low_bits, shr}
use os_project_signal.Prelude.Text.{
  str_eq, starts_with, one_of, concat, join, decimal, hex_prefixed, numeral, lstrip, strip,
  parse_int,
}
use os_project_signal.Prelude.Result.{Result, ok, value_error, ◌>>=◌, map_ok, or_raise}
use os_project_signal.Gef.Elf.Enums
use os_project_signal.Gef.Permission.{Permission, value}
use os_project_signal.Gef.Arch.Instruction.{Instruction}
use os_project_signal.Gef.Arch.Target.{Target, register, operand}
use os_project_signal.Gef.Arch.Attributes.{
  Attributes, Style, FlagsTable, named, abi, flags_to_human,
}
use os_project_signal.Gef.Arch.Arm
use os_project_signal.Gef.Arch.Arm.{cpsr}

abbrev pub flags_table : FlagsTable
flags_table =
    (31, "negative")
    ∷ (30, "zero")
    ∷ (29, "carry")
    ∷ (28, "overflow")
    ∷ (7, "interrupt")
    ∷ (9, "endian")
    ∷ (6, "fast")
    ∷ (5, "t32")
    ∷ (4, "m[4]")
    ∷ []

abbrev pub aarch64_attributes : Attributes
aarch64_attributes = record {
  arch = "ARM64";
  aliases = named "ARM64" ∷ named "AARCH64" ∷ abi Enums.aarch64 ∷ [];
  all_registers =
      "$x0" ∷ "$x1" ∷ "$x2" ∷ "$x3" ∷ "$x4" ∷ "$x5" ∷ "$x6" ∷ "$x7" ∷ "$x8" ∷ "$x9" ∷ "$x10"
      ∷ "$x11" ∷ "$x12" ∷ "$x13" ∷ "$x14" ∷ "$x15" ∷ "$x16" ∷ "$x17" ∷ "$x18" ∷ "$x19" ∷ "$x20"
      ∷ "$x21" ∷ "$x22" ∷ "$x23" ∷ "$x24" ∷ "$x25" ∷ "$x26" ∷ "$x27" ∷ "$x28" ∷ "$x29" ∷ "$x30"
      ∷ "$sp" ∷ "$pc" ∷ "$cpsr" ∷ "$fpsr" ∷ "$fpcr" ∷ [];
  nop_insn = 0x1f ∷ 0x20 ∷ 0x03 ∷ 0xd5 ∷ [];
  return_register = "$x0";
  flag_register = some "$cpsr";
  flags_table = flags_table;
  function_parameters = "$x0" ∷ "$x1" ∷ "$x2" ∷ "$x3" ∷ "$x4" ∷ "$x5" ∷ "$x6" ∷ "$x7" ∷ [];
  syscall_register = "$x8";
  syscall_instructions = "svc $x0" ∷ [];
  special_registers = [];
}

unfoldable pub is_call : Instruction → Bool
is_call insn = one_of insn.mnemonic ("bl" ∷ "blr" ∷ [])

-- `if not val`: the register is read for 0 too
unfoldable pub flag_register_to_human : Target → Style → Option ℤ → Result String
unfolding register flags_to_human
flag_register_to_human t style none =
    map_ok (λ val. flags_to_human style val flags_table) (register t "$cpsr")
flag_register_to_human t style (some val) =
    if eqb_ℤ val (pos 0)
    then map_ok (λ v. flags_to_human style v flags_table) (register t "$cpsr")
    else ok (flags_to_human style val flags_table)

unfoldable pub is_aarch32 : Target → Result Bool
unfolding cpsr
is_aarch32 t = do
  v ← cpsr t
  if masked_bit v 4 == 0 then ok false else map_ok (λ w. masked_bit w 5 == 0) (cpsr t)

-- The masked values, 0 or 16 and 0 or 32, are compared with 1.
unfoldable pub is_thumb32 : Target → Result Bool
unfolding cpsr
is_thumb32 t = do
  v ← cpsr t
  if not (masked_bit v 4 == 1) then ok false else map_ok (λ w. masked_bit w 5 == 1) (cpsr t)

unfoldable pub ptrsize : Target → Result ℕ
unfolding is_aarch32 is_thumb32
ptrsize t = if not t.alive then ok 8 else do
  aarch32 ← is_aarch32 t
  if aarch32 then ok 4 else map_ok (λ thumb. if thumb then 2 else 8) (is_thumb32 t)

unfoldable pub mprotect_asm : ℕ → ℕ → Permission → String
unfolding numeral
mprotect_asm addr size perm = join "; " (
    "str x8, [sp, -16]!"
    ∷ "str x0, [sp, -16]!"
    ∷ "str x1, [sp, -16]!"
    ∷ "str x2, [sp, -16]!"
    ∷ concat ("mov x8, " ∷ decimal 226 ∷ [])
    ∷ concat ("movz x0, " ∷ hex_prefixed (low_bits addr 16) ∷ [])
    ∷ concat ("movk x0, " ∷ hex_prefixed (low_bits (shr addr 16) 16) ∷ ", lsl 16" ∷ [])
    ∷ concat ("movk x0, " ∷ hex_prefixed (low_bits (shr addr 32) 16) ∷ ", lsl 32" ∷ [])
    ∷ concat ("movk x0, " ∷ hex_prefixed (low_bits (shr addr 48) 16) ∷ ", lsl 48" ∷ [])
    ∷ concat ("movz x1, " ∷ hex_prefixed (low_bits size 16) ∷ [])
    ∷ concat ("movk x1, " ∷ hex_prefixed (low_bits (shr size 16) 16) ∷ ", lsl 16" ∷ [])
    ∷ concat ("mov x2, " ∷ decimal (value perm) ∷ [])
    ∷ "svc 0"
    ∷ "ldr x2, [sp], 16"
    ∷ "ldr x1, [sp], 16"
    ∷ "ldr x0, [sp], 16"
    ∷ "ldr x8, [sp], 16"
    ∷ [])

abbrev test_mnemos : List String
test_mnemos = "cbnz" ∷ "cbz" ∷ "tbnz" ∷ "tbz" ∷ []

unfoldable pub is_conditional_branch : Instruction → Bool
is_conditional_branch insn = starts_with insn.mnemonic "b." || one_of insn.mnemonic test_mnemos

-- int(operands[1].strip().lstrip("#"))
bit_number : List String → Result ℕ
unfolding operand lstrip strip parse_int
bit_number operands = do
  o ← operand operands 1
  or_raise (parse_int (lstrip b'#' (strip o))) value_error

-- f"{reg}&1<<{i}{test}"
abbrev bit_reason : String → ℕ → String → String
bit_reason reg i test = concat (reg ∷ "&1<<" ∷ decimal i ∷ test ∷ [])

-- The tests of a register against zero, or of one of its bits.
taken_by_register : String → List String → String → ℤ → Result (Bool × String)
unfolding bit_number numeral
taken_by_register mnemo operands reg op =
    if str_eq mnemo "cbnz"
    then ok (
        if not (eqb_ℤ op (pos 0))
        then (true, concat (reg ∷ "!=0" ∷ []))
        else (false, concat (reg ∷ "==0" ∷ [])))
    else if str_eq mnemo "cbz"
    then ok (
        if eqb_ℤ op (pos 0)
        then (true, concat (reg ∷ "==0" ∷ []))
        else (false, concat (reg ∷ "!=0" ∷ [])))
    else if str_eq mnemo "tbnz"
    then map_ok
        (λ i.
          if test_bit op i then (true, bit_reason reg i "!=0") else (false, bit_reason reg i "==0"))
        (bit_number operands)
    else map_ok
        (λ i.
          if not (test_bit op i)
          then (true, bit_reason reg i "==0")
          else (false, bit_reason reg i "!=0"))
        (bit_number operands)

-- The four mnemonics have a reason; for all others the flags decide, as in `ARM`.
unfoldable pub is_branch_taken : Target → Instruction → Result (Bool × String)
unfolding register operand taken_by_register Arm.is_branch_taken
is_branch_taken t insn =
    if one_of insn.mnemonic test_mnemos
    then (do
      o ← operand insn.operands 0
      let reg = concat ("$" ∷ o ∷ [])
      op ← register t reg
      taken_by_register insn.mnemonic insn.operands reg op)
    else Arm.is_branch_taken t flags_table insn
