-- ===== src/Gef/Elf/Enums.antt =====
-- The enumerations of `class Elf`, `class Endianness`, and what a call of each does.
use os_project_signal.Prelude.{ℕ, Option, none, some, List, [], ◌∷◌, ◌==◌, if◌then◌else◌}
use os_project_signal.Prelude.Result.{Result, value_error, or_raise}

pub data Endianness : Type 0 where
  little_endian big_endian : Endianness

pub data Class : Type 0 where
  elf_32_bits elf_64_bits : Class

pub data Abi : Type 0 where
  x86_64 x86_32 arm mips powerpc powerpc64 sparc sparc64 aarch64 riscv ia64 m68k : Abi

pub data FileType : Type 0 where
  et_reloc et_exec et_dyn et_core : FileType

pub data OsAbi : Type 0 where
  systemv hpux netbsd linux solaris aix irix freebsd openbsd : OsAbi

-- `enum.Enum` called with a value: the member that has it.
abbrev pub member {ℓ} : {A : Type ℓ} → List (ℕ × A) → ℕ → Option A
member [] n = none
member ((k, a) ∷ members) n = if k == n then some a else member members n

abbrev pub endiannesses : List (ℕ × Endianness)
endiannesses = (1, little_endian) ∷ (2, big_endian) ∷ []

abbrev pub classes : List (ℕ × Class)
classes = (0x01, elf_32_bits) ∷ (0x02, elf_64_bits) ∷ []

abbrev pub abis : List (ℕ × Abi)
abis =
    (0x3e, x86_64)
    ∷ (0x03, x86_32)
    ∷ (0x28, arm)
    ∷ (0x08, mips)
    ∷ (0x14, powerpc)
    ∷ (0x15, powerpc64)
    ∷ (0x02, sparc)
    ∷ (0x2b, sparc64)
    ∷ (0xb7, aarch64)
    ∷ (0xf3, riscv)
    ∷ (0x32, ia64)
    ∷ (0x04, m68k)
    ∷ []

abbrev pub file_types : List (ℕ × FileType)
file_types = (1, et_reloc) ∷ (2, et_exec) ∷ (3, et_dyn) ∷ (4, et_core) ∷ []

abbrev pub os_abis : List (ℕ × OsAbi)
os_abis =
    (0x00, systemv)
    ∷ (0x01, hpux)
    ∷ (0x02, netbsd)
    ∷ (0x03, linux)
    ∷ (0x06, solaris)
    ∷ (0x07, aix)
    ∷ (0x08, irix)
    ∷ (0x09, freebsd)
    ∷ (0x0c, openbsd)
    ∷ []

unfoldable pub endianness_of : ℕ → Result Endianness
endianness_of n = or_raise (member endiannesses n) value_error

unfoldable pub class_of : ℕ → Result Class
class_of n = or_raise (member classes n) value_error

unfoldable pub abi_of : ℕ → Result Abi
abi_of n = or_raise (member abis n) value_error

unfoldable pub file_type_of : ℕ → Result FileType
file_type_of n = or_raise (member file_types n) value_error

unfoldable pub os_abi_of : ℕ → Result OsAbi
os_abi_of n = or_raise (member os_abis n) value_error
