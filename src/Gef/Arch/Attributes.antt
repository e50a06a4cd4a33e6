-- ===== src/Gef/Arch/Attributes.antt =====
-- The class attributes that each architecture of scripts/gef.py declares, and the flags tables.
use os_project_signal.Prelude.{ℕ, String, Bool, false, Option, none, List, [], ◌∷◌, if◌then◌else◌}
use os_project_signal.Prelude.Int.{ℤ}
use os_project_signal.Prelude.Bits.{test_bit, masked_bit}
use os_project_signal.Prelude.Text.{str_eq, concat, join}
use os_project_signal.Gef.Elf.Enums.{Abi}

-- A key of the table of registered architectures.
pub data Alias : Type 0 where
  named : String → Alias
  abi : Abi → Alias

-- `Dict[int, str]`, in insertion order.
abbrev pub FlagsTable : Type 0
FlagsTable = List (ℕ × String)

-- An attribute that a class computes (a property) has its own function beside the class.
pub record Attributes : Type 0 where
  pub arch : String
  pub aliases : List Alias
  pub all_registers : List String
  pub nop_insn : List ℕ
  pub return_register : String
  pub flag_register : Option String
  pub flags_table : FlagsTable
  pub function_parameters : List String
  pub syscall_register : String
  pub syscall_instructions : List String
  pub special_registers : List String

-- The attributes of `GenericArchitecture`, with the defaults of `Architecture`.
abbrev pub generic : Attributes
generic = record {
  arch = "Generic";
  aliases = named "GenericArchitecture" ∷ [];
  all_registers = [];
  nop_insn = [];
  return_register = "";
  flag_register = none;
  flags_table = [];
  function_parameters = [];
  syscall_register = "";
  syscall_instructions = [];
  special_registers = [];
}

-- bool(val & (1 << flags[name])), where `flags` is the inverse of the table. Every name that the
-- classes look up is in their table.
abbrev pub flag : FlagsTable → String → ℤ → Bool
flag [] name val = false
flag ((k, n) ∷ table) name val = if str_eq n name then test_bit val k else flag table name val

-- val & (1 << flags[name])
abbrev pub masked : FlagsTable → String → ℤ → ℕ
masked [] name val = 0
masked ((k, n) ∷ table) name val = if str_eq n name then masked_bit val k else masked table name val

-- What `Color.boldify` and the case methods make of a flag's name.
pub record Style : Type 0 where
  pub shown_set : String → String
  pub shown_clear : String → String

-- The items that `flags_to_human` joins: the flag's name, and whether it is set.
unfoldable pub flag_states : ℤ → FlagsTable → List (String × Bool)
flag_states reg_value [] = []
flag_states reg_value ((bit_index, name) ∷ table) =
    (name, test_bit reg_value bit_index) ∷ flag_states reg_value table

abbrev styled : Style → List (String × Bool) → List String
styled style [] = []
styled style ((name, set) ∷ states) =
    (if set then style.shown_set name else style.shown_clear name) ∷ styled style states

unfoldable pub flags_to_human : Style → ℤ → FlagsTable → String
unfolding flag_states
flags_to_human style reg_value value_table =
    concat ("[" ∷ join " " (styled style (flag_states reg_value value_table)) ∷ "]" ∷ [])
