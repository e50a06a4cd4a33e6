-- ===== src/Gef/Arch/X86.antt =====
-- `class X86` and `class X86_64` of scripts/gef.py.
pub mod Conditions
use os_project_signal.Prelude.{
  ℕ, ◌+◌, ◌*◌, String, Bool, true, false, not, ◌&&◌, ◌||◌, Option, none, some, List, [], ◌∷◌, ◌++◌,
  ◌==◌, if◌then◌else◌,
}
use os_project_signal.Prelude.Int.{ℤ, pos, ◌+ℤ◌, eqb_ℤ}
use os_project_signal.Prelude.Text.{str_eq, one_of, concat, join, decimal, hex_prefixed, numeral}
use os_project_signal.Prelude.Result.{Result, ok, ◌>>=◌, map_ok}
use os_project_signal.Gef.Elf.Enums.{x86_32, x86_64}
use os_project_signal.Gef.Permission.{Permission, value}
use os_project_signal.Gef.Arch.Instruction.{Instruction}
use os_project_signal.Gef.Arch.Target.{Target, register, to_unsigned_long}
use os_project_signal.Gef.Arch.Attributes.{
  Attributes, Style, FlagsTable, named, abi, flag, masked, flags_to_human,
}

abbrev pub flags_table : FlagsTable
flags_table =
    (6, "zero")
    ∷ (0, "carry")
    ∷ (2, "parity")
    ∷ (4, "adjust")
    ∷ (7, "sign")
    ∷ (8, "trap")
    ∷ (9, "interrupt")
    ∷ (10, "direction")
    ∷ (11, "overflow")
    ∷ (16, "resume")
    ∷ (17, "virtualx86")
    ∷ (21, "identification")
    ∷ []

abbrev pub special_registers : List String
special_registers = "$cs" ∷ "$ss" ∷ "$ds" ∷ "$es" ∷ "$fs" ∷ "$gs" ∷ []

abbrev gpr_registers : List String
gpr_registers = "$eax" ∷ "$ebx" ∷ "$ecx" ∷ "$edx" ∷ "$esp" ∷ "$ebp" ∷ "$esi" ∷ "$edi" ∷ "$eip" ∷ []

abbrev pub x86_attributes : Attributes
x86_attributes = record {
  arch = "X86";
  aliases = named "X86" ∷ abi x86_32 ∷ [];
  all_registers = gpr_registers ++ ("$eflags" ∷ []) ++ special_registers;
  nop_insn = 0x90 ∷ [];
  return_register = "$eax";
  flag_register = some "$eflags";
  flags_table = flags_table;
  function_parameters = "$esp" ∷ [];
  syscall_register = "$eax";
  syscall_instructions = "sysenter" ∷ "int 0x80" ∷ [];
  special_registers = special_registers;
}

abbrev gpr_registers_64 : List String
gpr_registers_64 =
    "$rax" ∷ "$rbx" ∷ "$rcx" ∷ "$rdx" ∷ "$rsp" ∷ "$rbp" ∷ "$rsi" ∷ "$rdi" ∷ "$rip" ∷ "$r8" ∷ "$r9"
    ∷ "$r10" ∷ "$r11" ∷ "$r12" ∷ "$r13" ∷ "$r14" ∷ "$r15" ∷ []

-- `X86_64` inherits what it does not give.
abbrev pub x86_64_attributes : Attributes
x86_64_attributes = record x86_attributes {
  aliases = named "X86_64" ∷ abi x86_64 ∷ named "i386:x86-64" ∷ [];
  all_registers = gpr_registers_64 ++ ("$eflags" ∷ []) ++ special_registers;
  return_register = "$rax";
  function_parameters = "$rdi" ∷ "$rsi" ∷ "$rdx" ∷ "$rcx" ∷ "$r8" ∷ "$r9" ∷ [];
  syscall_register = "$rax";
  syscall_instructions = "syscall" ∷ [];
}

unfoldable pub flag_register_to_human : Target → Style → Option ℤ → Result String
unfolding register flags_to_human
flag_register_to_human t style none =
    map_ok (λ val. flags_to_human style val flags_table) (register t "$eflags")
flag_register_to_human t style (some val) = ok (flags_to_human style val flags_table)

unfoldable pub is_call : Instruction → Bool
is_call insn = one_of insn.mnemonic ("call" ∷ "callq" ∷ [])

unfoldable pub is_ret : Instruction → Bool
is_ret insn = str_eq insn.mnemonic "ret"

abbrev pub branch_mnemos : List String
branch_mnemos =
    "ja" ∷ "jnbe" ∷ "jae" ∷ "jnb" ∷ "jnc" ∷ "jb" ∷ "jc" ∷ "jnae" ∷ "jbe" ∷ "jna" ∷ "jcxz" ∷ "jecxz"
    ∷ "jrcxz" ∷ "je" ∷ "jz" ∷ "jg" ∷ "jnle" ∷ "jge" ∷ "jnl" ∷ "jl" ∷ "jnge" ∷ "jle" ∷ "jng" ∷ "jne"
    ∷ "jnz" ∷ "jno" ∷ "jnp" ∷ "jpo" ∷ "jns" ∷ "jo" ∷ "jp" ∷ "jpe" ∷ "js" ∷ []

unfoldable pub is_conditional_branch : Instruction → Bool
is_conditional_branch insn = one_of insn.mnemonic branch_mnemos

-- The branches of `is_branch_taken` from `jo` on.
taken_by_flag : String → ℤ → Bool × String
taken_by_flag mnemo val =
    if one_of mnemo ("jo" ∷ [])
    then (flag flags_table "overflow" val, "O")
    else if one_of mnemo ("jno" ∷ [])
    then (not (flag flags_table "overflow" val), "!O")
    else if one_of mnemo ("jpe" ∷ "jp" ∷ [])
    then (flag flags_table "parity" val, "P")
    else if one_of mnemo ("jnp" ∷ "jpo" ∷ [])
    then (not (flag flags_table "parity" val), "!P")
    else if one_of mnemo ("js" ∷ [])
    then (flag flags_table "sign" val, "S")
    else if one_of mnemo ("jns" ∷ [])
    then (not (flag flags_table "sign" val), "!S")
    else (false, "")

-- b == c, of truth values
abbrev same : Bool → Bool → Bool
same true c = c
same false c = not c

-- The `elif`s after the test of the counter register. In "jl" the two masked values are compared,
-- not their truth values: `&` binds tighter than `!=`.
taken_by_flags : String → ℤ → Bool × String
unfolding taken_by_flag
taken_by_flags mnemo val =
    let zf = flag flags_table "zero" val in
    let sf = flag flags_table "sign" val in
    let of = flag flags_table "overflow" val in
    if one_of mnemo ("je" ∷ "jz" ∷ [])
    then (zf, "Z")
    else if one_of mnemo ("jne" ∷ "jnz" ∷ [])
    then (not zf, "!Z")
    else if one_of mnemo ("jg" ∷ "jnle" ∷ [])
    then (not zf && same of sf, "!Z && S==O")
    else if one_of mnemo ("jge" ∷ "jnl" ∷ [])
    then (same sf of, "S==O")
    else if one_of mnemo ("jl" ∷ "jnge" ∷ [])
    then (not (masked flags_table "overflow" val == masked flags_table "sign" val), "S!=O")
    else if one_of mnemo ("jle" ∷ "jng" ∷ [])
    then (zf || not (same of sf), "Z || S!=O")
    else taken_by_flag mnemo val

-- `is_branch_taken`; `is_x86_64` says which class it runs in. The counter register is read only
-- for the three mnemonics that name it.
unfoldable pub is_branch_taken : Target → Bool → Instruction → Result (Bool × String)
unfolding register taken_by_flags
is_branch_taken t is_x86_64 insn = do
  let mnemo = insn.mnemonic
  val ← register t "$eflags"
  let cf = flag flags_table "carry" val
  let zf = flag flags_table "zero" val
  if one_of mnemo ("ja" ∷ "jnbe" ∷ [])
      then ok (not cf && not zf, "!C && !Z")
      else if one_of mnemo ("jae" ∷ "jnb" ∷ "jnc" ∷ [])
      then ok (not cf, "!C")
      else if one_of mnemo ("jb" ∷ "jc" ∷ "jnae" ∷ [])
      then ok (cf, "C")
      else if one_of mnemo ("jbe" ∷ "jna" ∷ [])
      then ok (cf || zf, "C || Z")
      else if one_of mnemo ("jcxz" ∷ "jecxz" ∷ "jrcxz" ∷ [])
      then map_ok (λ cx. (eqb_ℤ cx (pos 0), "!$CX"))
          (if is_x86_64 then register t "$rcx" else register t "$ecx")
      else ok (taken_by_flags mnemo val)

-- the return address of a frame that is not at its `ret`, or at it
unfoldable pub get_ra : Target → ℕ → Instruction → Result (Option ℤ)
unfolding register to_unsigned_long is_ret
get_ra t ptrsize insn =
    if is_ret insn
    then map_ok
        (λ sp. elim (t.dereference sp) [
          | none ↦ none
          | some ra ↦ some (to_unsigned_long ptrsize ra)
        ])
        (register t "$sp")
    else ok (elim t.older_pc [ none ↦ none | some pc ↦ some (to_unsigned_long ptrsize pc) ])

unfoldable pub mprotect_asm : ℕ → ℕ → Permission → String
unfolding numeral
mprotect_asm addr size perm = join "; " (
    "pushad"
    ∷ "pushfd"
    ∷ concat ("mov eax, " ∷ decimal 125 ∷ [])
    ∷ concat ("mov ebx, " ∷ decimal addr ∷ [])
    ∷ concat ("mov ecx, " ∷ decimal size ∷ [])
    ∷ concat ("mov edx, " ∷ decimal (value perm) ∷ [])
    ∷ "int 0x80"
    ∷ "popfd"
    ∷ "popad"
    ∷ [])

-- `X86.get_ith_parameter`: the parameters are on the stack, behind the return address if the
-- call has been made.
unfoldable pub get_ith_parameter : Target → ℕ → ℕ → Bool → Result (String × ℤ)
unfolding register ◌+ℤ◌ numeral
get_ith_parameter t ptrsize i in_func = do
  let j = if in_func then i + 1 else i
  sp ← register t "$sp"
  val ← t.read_integer (sp +ℤ pos (j * ptrsize))
  ok (concat ("[sp + " ∷ hex_prefixed (j * ptrsize) ∷ "]" ∷ []), val)

unfoldable pub mprotect_asm_64 : ℕ → ℕ → Permission → String
unfolding numeral
mprotect_asm_64 addr size perm = join "; " (
    "pushfq"
    ∷ "push rax"
    ∷ "push rdi"
    ∷ "push rsi"
    ∷ "push rdx"
    ∷ "push rcx"
    ∷ "push r11"
    ∷ concat ("mov rax, " ∷ decimal 10 ∷ [])
    ∷ concat ("mov rdi, " ∷ decimal addr ∷ [])
    ∷ concat ("mov rsi, " ∷ decimal size ∷ [])
    ∷ concat ("mov rdx, " ∷ decimal (value perm) ∷ [])
    ∷ "syscall"
    ∷ "pop r11"
    ∷ "pop rcx"
    ∷ "pop rdx"
    ∷ "pop rsi"
    ∷ "pop rdi"
    ∷ "pop rax"
    ∷ "popfq"
    ∷ [])

unfoldable pub canary_address : Target → Result ℤ
unfolding register ◌+ℤ◌
canary_address t = map_ok (λ base. base +ℤ pos 0x28) (register t "fs_base")
