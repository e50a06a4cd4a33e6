-- ===== src/Gef/Elf/HeaderRoundTrip.antt =====
-- The file header of an ELF file, read back from its bytes.
use os_project_signal.Prelude.{ℕ, ◌*◌, ◌^◌, ◌<◌, ◌≡◌, refl, List, [], ◌++◌, length, arith}
use os_project_signal.Prelude.Result.{ok}
use os_project_signal.Gef.Elf.Enums
use os_project_signal.Gef.Elf.Enums.{
  Class, elf_32_bits, elf_64_bits, Endianness, little_endian, big_endian, Abi, FileType, OsAbi,
  class_of, endianness_of, abi_of, file_type_of, os_abi_of,
}
use os_project_signal.Gef.Elf.Encode.{put, then_uint, take-block, drop-block, then_lift}
use os_project_signal.Gef.Elf.Header.{Elf, elf_magic, word_size, read_header}

-- The numbers of the ELF specification.
abbrev pub class_number : Class → ℕ
class_number elf_32_bits = 1
class_number elf_64_bits = 2

abbrev pub endianness_number : Endianness → ℕ
endianness_number little_endian = 1
endianness_number big_endian = 2

abbrev pub os_abi_number : OsAbi → ℕ
os_abi_number Enums.systemv = 0
os_abi_number Enums.hpux = 1
os_abi_number Enums.netbsd = 2
os_abi_number Enums.linux = 3
os_abi_number Enums.solaris = 6
os_abi_number Enums.aix = 7
os_abi_number Enums.irix = 8
os_abi_number Enums.freebsd = 9
os_abi_number Enums.openbsd = 12

abbrev pub file_type_number : FileType → ℕ
file_type_number Enums.et_reloc = 1
file_type_number Enums.et_exec = 2
file_type_number Enums.et_dyn = 3
file_type_number Enums.et_core = 4

abbrev pub abi_number : Abi → ℕ
abi_number Enums.x86_64 = 62
abi_number Enums.x86_32 = 3
abi_number Enums.arm = 40
abi_number Enums.mips = 8
abi_number Enums.powerpc = 20
abi_number Enums.powerpc64 = 21
abi_number Enums.sparc = 2
abi_number Enums.sparc64 = 43
abi_number Enums.aarch64 = 183
abi_number Enums.riscv = 243
abi_number Enums.ia64 = 50
abi_number Enums.m68k = 4

class_of-number : (c : Class) → class_of (class_number c) ≡ ok c
unfolding class_of
class_of-number elf_32_bits = refl
class_of-number elf_64_bits = refl

endianness_of-number : (e : Endianness) → endianness_of (endianness_number e) ≡ ok e
unfolding endianness_of
endianness_of-number little_endian = refl
endianness_of-number big_endian = refl

os_abi_of-number : (a : OsAbi) → os_abi_of (os_abi_number a) ≡ ok a
unfolding os_abi_of
os_abi_of-number Enums.systemv = refl
os_abi_of-number Enums.hpux = refl
os_abi_of-number Enums.netbsd = refl
os_abi_of-number Enums.linux = refl
os_abi_of-number Enums.solaris = refl
os_abi_of-number Enums.aix = refl
os_abi_of-number Enums.irix = refl
os_abi_of-number Enums.freebsd = refl
os_abi_of-number Enums.openbsd = refl

file_type_of-number : (a : FileType) → file_type_of (file_type_number a) ≡ ok a
unfolding file_type_of
file_type_of-number Enums.et_reloc = refl
file_type_of-number Enums.et_exec = refl
file_type_of-number Enums.et_dyn = refl
file_type_of-number Enums.et_core = refl

abi_of-number : (a : Abi) → abi_of (abi_number a) ≡ ok a
unfolding abi_of
abi_of-number Enums.x86_64 = refl
abi_of-number Enums.x86_32 = refl
abi_of-number Enums.arm = refl
abi_of-number Enums.mips = refl
abi_of-number Enums.powerpc = refl
abi_of-number Enums.powerpc64 = refl
abi_of-number Enums.sparc = refl
abi_of-number Enums.sparc64 = refl
abi_of-number Enums.aarch64 = refl
abi_of-number Enums.riscv = refl
abi_of-number Enums.ia64 = refl
abi_of-number Enums.m68k = refl

-- Every member is a number of one byte.
number-lt :
    (c : Class) (e : Endianness) (o : OsAbi) (t : FileType) (m : Abi)
    → (class_number c < 256)
      × (endianness_number e < 256)
      × (os_abi_number o < 256)
      × (file_type_number t < 256)
      × (abi_number m < 256)
number-lt c e o t m = (ground arith, ground arith, ground arith, ground arith, ground arith)

-- The header of a file, in the order of the specification, in front of `rest`.
unfoldable pub put_header : Elf → List ℕ → List ℕ
put_header h rest =
    let e = h.e_endianness in
    let w = word_size h.e_class in
    put big_endian 4 elf_magic (
      put big_endian 1 (class_number h.e_class) (
        put big_endian 1 (endianness_number e) (
          put big_endian 1 h.e_eiversion (
            put e 1 (os_abi_number h.e_osabi) (
              put e 1 h.e_abiversion (
                h.e_pad
                ++ put e 2 (file_type_number h.e_type) (
                    put e 2 (abi_number h.e_machine) (
                      put e 4 h.e_version (
                        put e w h.e_entry (
                          put e w h.e_phoff (
                            put e w h.e_shoff (
                              put e 4 h.e_flags (
                                put e 2 h.e_ehsize (
                                  put e 2 h.e_phentsize (
                                    put e 2 h.e_phnum (
                                      put e 2 h.e_shentsize (
                                        put e 2 h.e_shnum
                                          (put e 2 h.e_shstrndx rest))))))))))))))))))

-- A header whose fields fit the format.
pub record HeaderFits (h : Elf) : Type 0 where
  pub pad_lem : length h.e_pad ≡ 7
  pub eiversion_fits : h.e_eiversion < 2 ^ 8
  pub abiversion_fits : h.e_abiversion < 2 ^ 8
  pub version_fits : h.e_version < 2 ^ 32
  pub entry_fits : h.e_entry < 2 ^ (8 * word_size h.e_class)
  pub phoff_fits : h.e_phoff < 2 ^ (8 * word_size h.e_class)
  pub shoff_fits : h.e_shoff < 2 ^ (8 * word_size h.e_class)
  pub flags_fits : h.e_flags < 2 ^ 32
  pub ehsize_fits : h.e_ehsize < 2 ^ 16
  pub phentsize_fits : h.e_phentsize < 2 ^ 16
  pub phnum_fits : h.e_phnum < 2 ^ 16
  pub shentsize_fits : h.e_shentsize < 2 ^ 16
  pub shnum_fits : h.e_shnum < 2 ^ 16
  pub shstrndx_fits : h.e_shstrndx < 2 ^ 16

-- The header of a file of either class and byte order, for any of the machines, systems and file
-- types that the enumerations know, is read back field by field, and the reader stands behind it.
pub read_header-put :
    (h : Elf) (rest : List ℕ)
    → HeaderFits h
    → read_header (put_header h rest)
      ≡ ok (record h { e_magic = elf_magic; phdrs = []; shdrs = [] }, rest)
unfolding read_header put_header
read_header-put h rest f =
    let e = h.e_endianness in
    let w = word_size h.e_class in
    let (c_lt, e_lt, o_lt, t_lt, m_lt) =
      number-lt h.e_class h.e_endianness h.e_osabi h.e_type h.e_machine in
    then_uint big_endian 4 elf_magic _ (omega arith) (
      then_uint big_endian 1 (class_number h.e_class) _ c_lt (
        then_uint big_endian 1 (endianness_number e) _ e_lt (
          then_uint big_endian 1 h.e_eiversion _ f.eiversion_fits (
            then_lift _ (class_of-number h.e_class) (
              then_lift _ (endianness_of-number e) (
                then_uint e 1 (os_abi_number h.e_osabi) _ o_lt (
                  then_uint e 1 h.e_abiversion _ f.abiversion_fits (
                    then_lift _ (os_abi_of-number h.e_osabi) (
                      rw (take-block 7 h.e_pad _ f.pad_lem, drop-block 7 h.e_pad _ f.pad_lem)
                        (then_uint e 2 (file_type_number h.e_type) _ (omega (arith, t_lt)) (
                          then_uint e 2 (abi_number h.e_machine) _ (omega (arith, m_lt)) (
                            then_uint e 4 h.e_version _ f.version_fits (
                              then_lift _ (file_type_of-number h.e_type) (
                                then_lift _ (abi_of-number h.e_machine) (
                                  then_uint e w h.e_entry _ f.entry_fits (
                                    then_uint e w h.e_phoff _ f.phoff_fits (
                                      then_uint e w h.e_shoff _ f.shoff_fits (
                                        then_uint e 4 h.e_flags _ f.flags_fits (
                                          then_uint e 2 h.e_ehsize _ f.ehsize_fits (
                                            then_uint e 2 h.e_phentsize _ f.phentsize_fits (
                                              then_uint e 2 h.e_phnum _ f.phnum_fits (
                                                then_uint e 2 h.e_shentsize _ f.shentsize_fits (
                                                  then_uint e 2 h.e_shnum _ f.shnum_fits (
                                                    then_uint e 2 h.e_shstrndx _ f.shstrndx_fits
                                                      refl))))))))))))))))))))))))
