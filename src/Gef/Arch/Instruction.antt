-- ===== src/Gef/Arch/Instruction.antt =====
-- `class Instruction` of scripts/gef.py.
use os_project_signal.Prelude.{
  ℕ, ◌+◌, ◌*◌, String, Bool, not, Option, none, some, List, [], ◌∷◌, length, take, ltb,
  if◌then◌else◌, map,
}
use os_project_signal.Prelude.Text.{
  concat, join, hex, hex_prefixed, rjust, ljust, has_substring, numeral,
}

pub record Instruction : Type 0 where
  pub address : ℕ
  pub location : String
  pub mnemonic : String
  pub operands : List String
  pub opcodes : List ℕ

unfoldable pub size : Instruction → ℕ
size insn = length insn.opcodes

unfoldable pub is_valid : Instruction → Bool
unfolding has_substring
is_valid insn = not (has_substring insn.mnemonic "(bad)")

-- `Instruction.next`, with the disassembler's `gef_get_instruction_at` as an argument.
unfoldable pub next : (ℕ → Instruction) → Instruction → Instruction
unfolding size
next get_instruction_at insn = get_instruction_at (insn.address + size insn)

-- f"{address:#10x} {location:16} {mnemonic:6} {', '.join(operands)}"
unfoldable pub to_text : Instruction → String
unfolding numeral
to_text insn = concat (
    rjust 10 " " (hex_prefixed insn.address)
    ∷ " "
    ∷ ljust 16 " " insn.location
    ∷ " "
    ∷ ljust 6 " " insn.mnemonic
    ∷ " "
    ∷ join ", " insn.operands
    ∷ [])

-- `__format__` with "o" (`none`) or "{n}o" (`some n`): the opcodes are shown, at most n of them.
unfoldable pub format_opcodes : Option ℕ → Instruction → String
unfolding numeral
format_opcodes none insn =
    let n = length insn.opcodes in
    let opcodes_text = concat (map (λ b. rjust 2 "0" (hex b)) (take n insn.opcodes)) in
    concat (
      rjust 10 " " (hex_prefixed insn.address)
      ∷ " "
      ∷ ljust (n * 2 + 3) " " opcodes_text
      ∷ " "
      ∷ ljust 16 " " insn.location
      ∷ " "
      ∷ ljust 6 " " insn.mnemonic
      ∷ " "
      ∷ join ", " insn.operands
      ∷ [])
format_opcodes (some n) insn =
    let shown = concat (map (λ b. rjust 2 "0" (hex b)) (take n insn.opcodes)) in
    let opcodes_text = if ltb n (length insn.opcodes) then concat (shown ∷ "..." ∷ []) else shown in
    concat (
      rjust 10 " " (hex_prefixed insn.address)
      ∷ " "
      ∷ ljust (n * 2 + 3) " " opcodes_text
      ∷ " "
      ∷ ljust 16 " " insn.location
      ∷ " "
      ∷ ljust 6 " " insn.mnemonic
      ∷ " "
      ∷ join ", " insn.operands
      ∷ [])
