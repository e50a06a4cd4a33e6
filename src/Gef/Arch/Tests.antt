-- ===== src/Gef/Arch/Tests.antt =====
-- A live program and an instruction, the common inputs of the theorems.
mod Flags
mod Registers
use os_project_signal.Prelude.{◌≡◌, refl, String, true, arith, some, none, [], ◌∷◌}
use os_project_signal.Prelude.Int.{ℤ, pos, negsuc}
use os_project_signal.Prelude.Result.{ok}
use os_project_signal.Gef.Arch.Instruction.{Instruction}
use os_project_signal.Gef.Arch.Target.{Target, register, to_unsigned_long}
use os_project_signal.Gef.Arch.Target.Unsigned.{to_unsigned_long-pattern_of}
use os_project_signal.Gef.Pack.{pattern_of}

-- A live program in which every register reads as `val`.
abbrev pub reading : ℤ → Target
reading val = record {
  alive = true;
  evaluate = λ name. ok val;
  read_register = λ name. ok val;
  dereference = λ addr. none;
  read_integer = λ addr. ok (pos 0);
  older_pc = some (pos 0x10010);
}

pub register_lem : (val : ℤ) (name : String) → register (reading val) name ≡ ok val
unfolding register
register_lem val name = refl

abbrev pub branch : Instruction
branch = record {
  address = 0x10000;
  location = "<main+16>";
  mnemonic = "ja";
  operands = "0x10020" ∷ [];
  opcodes = 0x77 ∷ 0x1e ∷ [];
}
