-- ===== src/Gef/Elf/Shdr.antt =====
-- `class Shdr` of scripts/gef.py: the entries of the section header table.
use os_project_signal.Prelude.{ℕ, zero, suc, ◌+◌, ◌*◌, List, [], ◌∷◌, Option, none, some}
use os_project_signal.Prelude.Result.{ok, err, struct_error}
use os_project_signal.Gef.Elf.Enums.{Class, Endianness, elf_32_bits, elf_64_bits, member}
use os_project_signal.Gef.Elf.Reader.{Reader, ◌>>=◌, ◌>>◌, pure, seek, read_uint}

-- `Shdr.Type`, without the names that share a value with one above them.
pub data ShdrType : Type 0 where
  sht_null sht_progbits sht_symtab sht_strtab sht_rela sht_hash sht_dynamic sht_note : ShdrType
  sht_nobits sht_rel sht_shlib sht_dynsym sht_num sht_init_array sht_fini_array : ShdrType
  sht_preinit_array sht_group sht_symtab_shndx sht_loos sht_gnu_attributes sht_gnu_hash : ShdrType
  sht_gnu_liblist sht_checksum sht_losunw sht_sunw_comdat sht_sunw_syminfo sht_gnu_verdef : ShdrType
  sht_gnu_verneed sht_gnu_versym sht_loproc sht_arm_exidx sht_arm_attributes : ShdrType
  sht_mips_options dt_mips_interface sht_hiproc sht_louser sht_hiuser unknown_shdr : ShdrType

abbrev pub shdr_types : List (ℕ × ShdrType)
shdr_types =
    (0, sht_null)
    ∷ (1, sht_progbits)
    ∷ (2, sht_symtab)
    ∷ (3, sht_strtab)
    ∷ (4, sht_rela)
    ∷ (5, sht_hash)
    ∷ (6, sht_dynamic)
    ∷ (7, sht_note)
    ∷ (8, sht_nobits)
    ∷ (9, sht_rel)
    ∷ (10, sht_shlib)
    ∷ (11, sht_dynsym)
    ∷ (12, sht_num)
    ∷ (14, sht_init_array)
    ∷ (15, sht_fini_array)
    ∷ (16, sht_preinit_array)
    ∷ (17, sht_group)
    ∷ (18, sht_symtab_shndx)
    ∷ (0x60000000, sht_loos)
    ∷ (0x6ffffff5, sht_gnu_attributes)
    ∷ (0x6ffffff6, sht_gnu_hash)
    ∷ (0x6ffffff7, sht_gnu_liblist)
    ∷ (0x6ffffff8, sht_checksum)
    ∷ (0x6ffffffa, sht_losunw)
    ∷ (0x6ffffffb, sht_sunw_comdat)
    ∷ (0x6ffffffc, sht_sunw_syminfo)
    ∷ (0x6ffffffd, sht_gnu_verdef)
    ∷ (0x6ffffffe, sht_gnu_verneed)
    ∷ (0x6fffffff, sht_gnu_versym)
    ∷ (0x70000000, sht_loproc)
    ∷ (0x70000001, sht_arm_exidx)
    ∷ (0x70000003, sht_arm_attributes)
    ∷ (0x7000000d, sht_mips_options)
    ∷ (0x7000002a, dt_mips_interface)
    ∷ (0x7fffffff, sht_hiproc)
    ∷ (0x80000000, sht_louser)
    ∷ (0x8fffffff, sht_hiuser)
    ∷ (0xffffffff, unknown_shdr)
    ∷ []

abbrev pub or_unknown_type : Option ShdrType → ShdrType
or_unknown_type none = unknown_shdr
or_unknown_type (some t) = t

unfoldable pub shdr_type_of : ℕ → ShdrType
shdr_type_of n = or_unknown_type (member shdr_types n)

pub data ShdrFlags : Type 0 where
  write alloc execinstr merge strings info_link link_order os_nonconforming group : ShdrFlags
  tls compressed rela_livepatch ro_after_init ordered exclude unknown_flag : ShdrFlags

abbrev pub shdr_flags : List (ℕ × ShdrFlags)
shdr_flags =
    (1, write)
    ∷ (2, alloc)
    ∷ (4, execinstr)
    ∷ (0x10, merge)
    ∷ (0x20, strings)
    ∷ (0x40, info_link)
    ∷ (0x80, link_order)
    ∷ (0x100, os_nonconforming)
    ∷ (0x200, group)
    ∷ (0x400, tls)
    ∷ (0x800, compressed)
    ∷ (0x00100000, rela_livepatch)
    ∷ (0x00200000, ro_after_init)
    ∷ (0x40000000, ordered)
    ∷ (0x80000000, exclude)
    ∷ (0xffffffff, unknown_flag)
    ∷ []

abbrev pub or_unknown_flag : Option ShdrFlags → ShdrFlags
or_unknown_flag none = unknown_flag
or_unknown_flag (some t) = t

-- `Shdr.Flags(n)`. The class has its own `_missing_`, in the place of the one of `enum.IntFlag` that
-- builds a union: a number that is no member is UNKNOWN_FLAG.
unfoldable pub shdr_flags_of : ℕ → ShdrFlags
shdr_flags_of n = or_unknown_flag (member shdr_flags n)

pub record Shdr : Type 0 where
  pub sh_name : ℕ
  pub sh_type : ShdrType
  pub sh_flags : ShdrFlags
  pub sh_addr : ℕ
  pub sh_offset : ℕ
  pub sh_size : ℕ
  pub sh_link : ℕ
  pub sh_info : ℕ
  pub sh_addralign : ℕ
  pub sh_entsize : ℕ
  -- the characters of the name
  pub name : List ℕ

-- What an entry takes from the `Elf` object, and the byte order of the current architecture.
pub record Layout : Type 0 where
  pub e_class : Class
  pub e_endianness : Endianness
  pub e_shoff : ℕ
  pub e_shentsize : ℕ
  pub e_shstrndx : ℕ
  pub arch_endianness : Endianness

abbrev fields_64 : Endianness → Reader Shdr
fields_64 endian = do
  sh_name ← read_uint endian 4
  sh_type ← read_uint endian 4
  sh_flags ← read_uint endian 8
  sh_addr ← read_uint endian 8
  sh_offset ← read_uint endian 8
  sh_size ← read_uint endian 8
  sh_link ← read_uint endian 4
  sh_info ← read_uint endian 4
  sh_addralign ← read_uint endian 8
  sh_entsize ← read_uint endian 8
  pure (record {
    sh_name = sh_name;
    sh_type = shdr_type_of sh_type;
    sh_flags = shdr_flags_of sh_flags;
    sh_addr = sh_addr;
    sh_offset = sh_offset;
    sh_size = sh_size;
    sh_link = sh_link;
    sh_info = sh_info;
    sh_addralign = sh_addralign;
    sh_entsize = sh_entsize;
    name = [];
  })

abbrev fields_32 : Endianness → Reader Shdr
fields_32 endian = do
  sh_name ← read_uint endian 4
  sh_type ← read_uint endian 4
  sh_flags ← read_uint endian 4
  sh_addr ← read_uint endian 4
  sh_offset ← read_uint endian 4
  sh_size ← read_uint endian 4
  sh_link ← read_uint endian 4
  sh_info ← read_uint endian 4
  sh_addralign ← read_uint endian 4
  sh_entsize ← read_uint endian 4
  pure (record {
    sh_name = sh_name;
    sh_type = shdr_type_of sh_type;
    sh_flags = shdr_flags_of sh_flags;
    sh_addr = sh_addr;
    sh_offset = sh_offset;
    sh_size = sh_size;
    sh_link = sh_link;
    sh_info = sh_info;
    sh_addralign = sh_addralign;
    sh_entsize = sh_entsize;
    name = [];
  })

unfoldable pub read_fields : Class → Endianness → Reader Shdr
unfolding read_uint
read_fields elf_64_bits endian = fields_64 endian
read_fields elf_32_bits endian = fields_32 endian

-- The offset of the section that holds the names. `u64` and `u32` are called without a byte order, so
-- they use the architecture's, not the file's.
unfoldable pub read_string_offset : List ℕ → Layout → Reader ℕ
unfolding seek read_uint
read_string_offset bytes elf = at_class elf.e_class
  where
    stroff : ℕ
    stroff = elf.e_shoff + elf.e_shentsize * elf.e_shstrndx

    at_class : Class → Reader ℕ
    at_class elf_64_bits = do seek bytes (stroff + 16 + 8); read_uint elf.arch_endianness 8
    at_class elf_32_bits = do seek bytes (stroff + 12 + 4); read_uint elf.arch_endianness 4

-- The loop over the characters: it ends at a zero byte, or raises at the end of the file.
unfoldable pub read_name : Reader (List ℕ)
read_name [] = err struct_error
read_name (zero ∷ rest) = ok ([], rest)
read_name (suc c ∷ rest) = elim (read_name rest) [
  | ok (name, rest') ↦ ok (suc c ∷ name, rest')
  | err e ↦ err e
]

-- `Shdr.__init__`, of the entry at offset `off`.
unfoldable pub read_shdr : List ℕ → Layout → ℕ → Reader Shdr
unfolding seek read_fields read_string_offset read_name
read_shdr bytes elf off = do
  seek bytes off
  shdr ← read_fields elf.e_class elf.e_endianness
  offset ← read_string_offset bytes elf
  seek bytes (offset + shdr.sh_name)
  name ← read_name
  pure (record shdr { name = name })
