-- ===== src/Gef/Arch/Arm.antt =====
-- `class ARM` of scripts/gef.py.
pub mod Conditions
use os_project_signal.Prelude.{
  ℕ, ◌-◌, ◌*◌, String, Bool, true, false, not, ◌&&◌, ◌||◌, Option, none, some, List, [], ◌∷◌,
  length, ◌==◌, if◌then◌else◌,
}
use os_project_signal.Prelude.Int.{ℤ, pos, ◌+ℤ◌, eqb_ℤ}
use os_project_signal.Prelude.Bits.{masked_bit, low_bits, shr}
use os_project_signal.Prelude.Text.{
  str_eq, ends_with, last_two, one_of, concat, join, decimal, numeral,
}
use os_project_signal.Prelude.Result.{Result, ok, index_error, runtime_error, err, ◌>>=◌, map_ok}
use os_project_signal.Gef.Elf.Enums
use os_project_signal.Gef.Permission.{Permission, value}
use os_project_signal.Gef.Arch.Instruction.{Instruction}
use os_project_signal.Gef.Arch.Target.{Target, register, operand, to_unsigned_long}
use os_project_signal.Gef.Arch.Attributes.{
  Attributes, Style, FlagsTable, named, abi, flag, flags_to_human,
}

abbrev pub flags_table : FlagsTable
flags_table =
    (31, "negative")
    ∷ (30, "zero")
    ∷ (29, "carry")
    ∷ (28, "overflow")
    ∷ (7, "interrupt")
    ∷ (6, "fast")
    ∷ (5, "thumb")
    ∷ []

abbrev pub arm_attributes : Attributes
arm_attributes = record {
  arch = "ARM";
  aliases = named "ARM" ∷ abi Enums.arm ∷ [];
  all_registers =
      "$r0" ∷ "$r1" ∷ "$r2" ∷ "$r3" ∷ "$r4" ∷ "$r5" ∷ "$r6" ∷ "$r7" ∷ "$r8" ∷ "$r9" ∷ "$r10"
      ∷ "$r11" ∷ "$r12" ∷ "$sp" ∷ "$lr" ∷ "$pc" ∷ "$cpsr" ∷ [];
  nop_insn = 0x00 ∷ 0xf0 ∷ 0x20 ∷ 0xe3 ∷ [];
  return_register = "$r0";
  flag_register = some "$cpsr";
  flags_table = flags_table;
  function_parameters = "$r0" ∷ "$r1" ∷ "$r2" ∷ "$r3" ∷ [];
  syscall_register = "$r7";
  syscall_instructions = "swi 0x0" ∷ "swi NR" ∷ [];
  special_registers = [];
}

unfoldable pub cpsr : Target → Result ℤ
unfolding register
cpsr t = if t.alive then register t "$cpsr" else err runtime_error

-- `self.cpsr & (1 << 5) == 1` compares the masked value, 0 or 32, with 1.
unfoldable pub is_thumb : Target → Result Bool
unfolding cpsr
is_thumb t = if t.alive then map_ok (λ v. masked_bit v 5 == 1) (cpsr t) else ok false

unfoldable pub pc : Target → Result ℤ
unfolding is_thumb register ◌+ℤ◌
pc t = do pc ← register t "$pc"; map_ok (λ thumb. if thumb then pc +ℤ pos 1 else pc) (is_thumb t)

unfoldable pub mode : Target → Result String
unfolding is_thumb
mode t = map_ok (λ thumb. if thumb then "THUMB" else "ARM") (is_thumb t)

unfoldable pub instruction_length : Target → Result (Option ℕ)
unfolding is_thumb
instruction_length t = map_ok (λ thumb. if thumb then none else some 4) (is_thumb t)

abbrev pub ptrsize : ℕ
ptrsize = 4

unfoldable pub is_call : Instruction → Bool
is_call insn = one_of insn.mnemonic ("bl" ∷ "blx" ∷ [])

-- operands[-1]
abbrev pub last_operand : List String → Result String
last_operand [] = err index_error
last_operand (o ∷ []) = ok o
last_operand (o ∷ p ∷ os) = last_operand (p ∷ os)

unfoldable pub is_ret : Instruction → Result Bool
unfolding operand
is_ret insn =
    if one_of insn.mnemonic ("pop" ∷ [])
    then map_ok (λ o. str_eq o " pc}") (last_operand insn.operands)
    else if one_of insn.mnemonic ("bl" ∷ "bx" ∷ [])
    then map_ok (λ o. str_eq o "lr") (last_operand insn.operands)
    else if one_of insn.mnemonic ("ldr" ∷ "add" ∷ [])
    then map_ok (λ o. str_eq o "pc") (operand insn.operands 0)
    else ok false

unfoldable pub flag_register_to_human : Target → Style → Option ℤ → Result String
unfolding register flags_to_human
flag_register_to_human t style none =
    map_ok (λ val. flags_to_human style val flags_table) (register t "$cpsr")
flag_register_to_human t style (some val) = ok (flags_to_human style val flags_table)

abbrev pub conditions : List String
conditions =
    "eq" ∷ "ne" ∷ "lt" ∷ "le" ∷ "gt" ∷ "ge" ∷ "vs" ∷ "vc" ∷ "mi" ∷ "pl" ∷ "hi" ∷ "ls" ∷ "cc" ∷ "cs"
    ∷ []

unfoldable pub is_conditional_branch : Instruction → Bool
unfolding last_two
is_conditional_branch insn = one_of (last_two insn.mnemonic) conditions

-- b == c, of truth values
abbrev same : Bool → Bool → Bool
same true c = c
same false c = not c

-- the tests of `is_branch_taken` from "vs" on
taken_by_flag : FlagsTable → String → ℤ → Bool × String
unfolding ends_with
taken_by_flag table mnemo val =
    let n = flag table "negative" val in
    let z = flag table "zero" val in
    let c = flag table "carry" val in
    let v = flag table "overflow" val in
    if ends_with mnemo "vs"
    then (v, "V")
    else if ends_with mnemo "vc"
    then (not v, "!V")
    else if ends_with mnemo "mi"
    then (n, "N")
    else if ends_with mnemo "pl"
    then (not n, "N==0")
    else if ends_with mnemo "hi"
    then (c && not z, "C && !Z")
    else if ends_with mnemo "ls"
    then (not c || z, "!C || Z")
    else if ends_with mnemo "cs"
    then (c, "C")
    else if ends_with mnemo "cc"
    then (not c, "!C")
    else (false, "")

unfoldable pub taken_by_flags : FlagsTable → String → ℤ → Bool × String
unfolding ends_with taken_by_flag
taken_by_flags table mnemo val =
    let n = flag table "negative" val in
    let z = flag table "zero" val in
    let v = flag table "overflow" val in
    if ends_with mnemo "eq"
    then (z, "Z")
    else if ends_with mnemo "ne"
    then (not z, "!Z")
    else if ends_with mnemo "lt"
    then (not (same n v), "N!=V")
    else if ends_with mnemo "le"
    then (z || not (same n v), "Z || N!=V")
    else if ends_with mnemo "gt"
    then (not z && same n v, "!Z && N==V")
    else if ends_with mnemo "ge"
    then (same n v, "N==V")
    else taken_by_flag table mnemo val

-- `is_branch_taken`, over the `flags_table` of the class that it runs in
unfoldable pub is_branch_taken : Target → FlagsTable → Instruction → Result (Bool × String)
unfolding register taken_by_flags
is_branch_taken t table insn = map_ok (taken_by_flags table insn.mnemonic) (register t "$cpsr")

abbrev unsigned_at : Target → ℕ → ℤ → Option ℤ
unsigned_at t ptrsize addr = elim (t.dereference addr) [
  | none ↦ none
  | some ra ↦ some (to_unsigned_long ptrsize ra)
]

unfoldable pub get_ra : Target → ℕ → Instruction → Result (Option ℤ)
unfolding is_ret register to_unsigned_long ◌+ℤ◌
get_ra t ptrsize insn = do
  at_ret ← is_ret insn
  if not at_ret
      then ok t.older_pc
      else if str_eq insn.mnemonic "pop"
      then (do
        sp ← register t "$sp"
        let ra_addr = sp +ℤ pos ((length insn.operands - 1) * ptrsize)
        ok (if eqb_ℤ ra_addr (pos 0) then none else unsigned_at t ptrsize ra_addr))
      else if str_eq insn.mnemonic "ldr"
      then map_ok (unsigned_at t ptrsize) (register t "$sp")
      else map_ok some (register t "$lr")

unfoldable pub mprotect_asm : ℕ → ℕ → Permission → String
unfolding numeral
mprotect_asm addr size perm = join "; " (
    "push {r0-r2, r7}"
    ∷ concat ("mov r1, " ∷ decimal (low_bits addr 16) ∷ [])
    ∷ concat ("mov r0, " ∷ decimal (low_bits (shr addr 16) 16) ∷ [])
    ∷ "lsl r0, r0, 16"
    ∷ "add r0, r0, r1"
    ∷ concat ("mov r1, " ∷ decimal (low_bits size 16) ∷ [])
    ∷ concat ("mov r2, " ∷ decimal (low_bits (value perm) 8) ∷ [])
    ∷ concat ("mov r7, " ∷ decimal 125 ∷ [])
    ∷ "svc 0"
    ∷ "pop {r0-r2, r7}"
    ∷ [])
