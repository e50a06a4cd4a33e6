-- ===== src/Gef/Arch/Sparc.antt =====
-- `class SPARC` and `class SPARC64` of scripts/gef.py.
pub mod Conditions
use os_project_signal.Prelude.{
  ℕ, String, Bool, false, not, ◌&&◌, ◌||◌, Option, none, some, List, [], ◌∷◌, if◌then◌else◌,
}
use os_project_signal.Prelude.Int.{ℤ}
use os_project_signal.Prelude.Bits.{low_bits, shr}
use os_project_signal.Prelude.Text.{str_eq, one_of, concat, join, decimal, numeral}
use os_project_signal.Prelude.Result.{Result, ok, map_ok}
use os_project_signal.Gef.Elf.Enums
use os_project_signal.Gef.Permission.{Permission}
use os_project_signal.Gef.Arch.Instruction.{Instruction}
use os_project_signal.Gef.Arch.Target.{Target, register, to_unsigned_long}
use os_project_signal.Gef.Arch.Attributes.{
  Attributes, Style, FlagsTable, named, abi, flag, flags_to_human,
}

abbrev pub flags_table : FlagsTable
flags_table =
    (23, "negative")
    ∷ (22, "zero")
    ∷ (21, "overflow")
    ∷ (20, "carry")
    ∷ (7, "supervisor")
    ∷ (5, "trap")
    ∷ []

abbrev pub sparc_attributes : Attributes
sparc_attributes = record {
  arch = "SPARC";
  aliases = named "SPARC" ∷ abi Enums.sparc ∷ [];
  all_registers =
      "$g0" ∷ "$g1" ∷ "$g2" ∷ "$g3" ∷ "$g4" ∷ "$g5" ∷ "$g6" ∷ "$g7" ∷ "$o0" ∷ "$o1" ∷ "$o2" ∷ "$o3"
      ∷ "$o4" ∷ "$o5" ∷ "$o7" ∷ "$l0" ∷ "$l1" ∷ "$l2" ∷ "$l3" ∷ "$l4" ∷ "$l5" ∷ "$l6" ∷ "$l7"
      ∷ "$i0" ∷ "$i1" ∷ "$i2" ∷ "$i3" ∷ "$i4" ∷ "$i5" ∷ "$i7" ∷ "$pc" ∷ "$npc" ∷ "$sp " ∷ "$fp "
      ∷ "$psr" ∷ [];
  nop_insn = 0x00 ∷ 0x00 ∷ 0x00 ∷ 0x00 ∷ [];
  return_register = "$i0";
  flag_register = some "$psr";
  flags_table = flags_table;
  function_parameters = "$o0 " ∷ "$o1 " ∷ "$o2 " ∷ "$o3 " ∷ "$o4 " ∷ "$o5 " ∷ "$o7 " ∷ [];
  syscall_register = "%g1";
  syscall_instructions = "t 0x10" ∷ [];
  special_registers = [];
}

abbrev pub flags_table_64 : FlagsTable
flags_table_64 = (35, "negative") ∷ (34, "zero") ∷ (33, "overflow") ∷ (32, "carry") ∷ []

abbrev pub sparc64_attributes : Attributes
sparc64_attributes = record sparc_attributes {
  aliases = named "SPARC64" ∷ abi Enums.sparc64 ∷ [];
  all_registers =
      "$g0" ∷ "$g1" ∷ "$g2" ∷ "$g3" ∷ "$g4" ∷ "$g5" ∷ "$g6" ∷ "$g7" ∷ "$o0" ∷ "$o1" ∷ "$o2" ∷ "$o3"
      ∷ "$o4" ∷ "$o5" ∷ "$o7" ∷ "$l0" ∷ "$l1" ∷ "$l2" ∷ "$l3" ∷ "$l4" ∷ "$l5" ∷ "$l6" ∷ "$l7"
      ∷ "$i0" ∷ "$i1" ∷ "$i2" ∷ "$i3" ∷ "$i4" ∷ "$i5" ∷ "$i7" ∷ "$pc" ∷ "$npc" ∷ "$sp" ∷ "$fp"
      ∷ "$state" ∷ [];
  flag_register = some "$state";
  flags_table = flags_table_64;
  syscall_instructions = "t 0x6d" ∷ [];
}

-- Over the `flag_register` and the `flags_table` of the class.
unfoldable pub flag_register_to_human :
    Target → Style → String → FlagsTable → Option ℤ → Result String
unfolding register flags_to_human
flag_register_to_human t style reg table none =
    map_ok (λ val. flags_to_human style val table) (register t reg)
flag_register_to_human t style reg table (some val) = ok (flags_to_human style val table)

unfoldable pub is_call : Instruction → Bool
is_call insn = false

unfoldable pub is_ret : Instruction → Bool
is_ret insn = str_eq insn.mnemonic "ret"

abbrev pub branch_mnemos : List String
branch_mnemos =
    "be" ∷ "bne" ∷ "bg" ∷ "bge" ∷ "bgeu" ∷ "bgu" ∷ "bl" ∷ "ble" ∷ "blu" ∷ "bleu" ∷ "bneg" ∷ "bpos"
    ∷ "bvs" ∷ "bvc" ∷ "bcs" ∷ "bcc" ∷ []

unfoldable pub is_conditional_branch : Instruction → Bool
is_conditional_branch insn = one_of insn.mnemonic branch_mnemos

-- the tests from "ble" on
taken_by_flag : FlagsTable → String → ℤ → Bool × String
taken_by_flag table mnemo val =
    let n = flag table "negative" val in
    let z = flag table "zero" val in
    let o = flag table "overflow" val in
    let c = flag table "carry" val in
    if str_eq mnemo "ble"
    then (z || (n || o), "Z || (N || O)")
    else if str_eq mnemo "bleu"
    then (c || z, "C || Z")
    else if str_eq mnemo "bneg"
    then (n, "N")
    else if str_eq mnemo "bpos"
    then (not n, "!N")
    else if str_eq mnemo "bvs"
    then (o, "O")
    else if str_eq mnemo "bvc"
    then (not o, "!O")
    else if str_eq mnemo "bcs"
    then (c, "C")
    else if str_eq mnemo "bcc"
    then (not c, "!C")
    else (false, "")

unfoldable pub taken_by_flags : FlagsTable → String → ℤ → Bool × String
unfolding taken_by_flag
taken_by_flags table mnemo val =
    let n = flag table "negative" val in
    let z = flag table "zero" val in
    let o = flag table "overflow" val in
    let c = flag table "carry" val in
    if str_eq mnemo "be"
    then (z, "Z")
    else if str_eq mnemo "bne"
    then (not z, "!Z")
    else if str_eq mnemo "bg"
    then (not z && (not n || not o), "!Z && (!N || !O)")
    else if str_eq mnemo "bge"
    then (not n || not o, "!N || !O")
    else if str_eq mnemo "bgu"
    then (not c && not z, "!C && !Z")
    else if str_eq mnemo "bgeu"
    then (not c, "!C")
    else if str_eq mnemo "bl"
    then (n && o, "N && O")
    else if str_eq mnemo "blu"
    then (c, "C")
    else taken_by_flag table mnemo val

unfoldable pub is_branch_taken : Target → String → FlagsTable → Instruction → Result (Bool × String)
unfolding register taken_by_flags
is_branch_taken t reg table insn = map_ok (taken_by_flags table insn.mnemonic) (register t reg)

unfoldable pub get_ra : Target → ℕ → Instruction → Result (Option ℤ)
unfolding is_ret register to_unsigned_long
get_ra t ptrsize insn =
    if is_ret insn
    then map_ok some (register t "$o7")
    else ok (elim t.older_pc [ none ↦ none | some pc ↦ some (to_unsigned_long ptrsize pc) ])

-- The size and the permission are not used: %o1 and %o2 are cleared. The classes differ in the
-- trap instruction.
abbrev asm_with : String → ℕ → String
asm_with trap addr = join "; " (
    "add %sp, -16, %sp"
    ∷ "st %g1, [ %sp ]"
    ∷ "st %o0, [ %sp + 4 ]"
    ∷ "st %o1, [ %sp + 8 ]"
    ∷ "st %o2, [ %sp + 12 ]"
    ∷ concat ("sethi  %hi(" ∷ decimal (low_bits (shr addr 16) 16) ∷ "), %o0" ∷ [])
    ∷ concat ("or  %o0, " ∷ decimal (low_bits addr 16) ∷ ", %o0" ∷ [])
    ∷ "clr  %o1"
    ∷ "clr  %o2"
    ∷ concat ("mov  " ∷ decimal 125 ∷ ", %g1" ∷ [])
    ∷ trap
    ∷ "ld [ %sp ], %g1"
    ∷ "ld [ %sp + 4 ], %o0"
    ∷ "ld [ %sp + 8 ], %o1"
    ∷ "ld [ %sp + 12 ], %o2"
    ∷ "add %sp, 16, %sp"
    ∷ [])

unfoldable pub mprotect_asm : ℕ → ℕ → Permission → String
unfolding numeral
mprotect_asm addr size perm = asm_with "t 0x10" addr

unfoldable pub mprotect_asm_64 : ℕ → ℕ → Permission → String
unfolding numeral
mprotect_asm_64 addr size perm = asm_with "t 0x6d" addr
