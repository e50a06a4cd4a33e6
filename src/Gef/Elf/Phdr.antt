-- ===== src/Gef/Elf/Phdr.antt =====
-- `class Phdr` of scripts/gef.py: the entries of the program header table.
use os_project_signal.Prelude.{ℕ, List, [], ◌∷◌, Option, none, some}
use os_project_signal.Gef.Elf.Enums.{Class, Endianness, elf_32_bits, elf_64_bits, member}
use os_project_signal.Gef.Elf.Reader.{Reader, ◌>>=◌, ◌>>◌, pure, seek, read_uint}

-- `Phdr.Type`, without the names that share a value with one above them.
pub data PhdrType : Type 0 where
  pt_null pt_load pt_dynamic pt_interp pt_note pt_shlib pt_phdr pt_tls pt_loos : PhdrType
  pt_gnu_eh_frame pt_gnu_stack pt_gnu_relro pt_gnu_property pt_losunw pt_sunwstack : PhdrType
  pt_hisunw pt_loproc pt_arm_eidx pt_mips_abiflags pt_hiproc unknown_phdr : PhdrType

abbrev pub phdr_types : List (ℕ × PhdrType)
phdr_types =
    (0, pt_null)
    ∷ (1, pt_load)
    ∷ (2, pt_dynamic)
    ∷ (3, pt_interp)
    ∷ (4, pt_note)
    ∷ (5, pt_shlib)
    ∷ (6, pt_phdr)
    ∷ (7, pt_tls)
    ∷ (0x60000000, pt_loos)
    ∷ (0x6474e550, pt_gnu_eh_frame)
    ∷ (0x6474e551, pt_gnu_stack)
    ∷ (0x6474e552, pt_gnu_relro)
    ∷ (0x6474e553, pt_gnu_property)
    ∷ (0x6ffffffa, pt_losunw)
    ∷ (0x6ffffffb, pt_sunwstack)
    ∷ (0x6fffffff, pt_hisunw)
    ∷ (0x70000000, pt_loproc)
    ∷ (0x70000001, pt_arm_eidx)
    ∷ (0x70000003, pt_mips_abiflags)
    ∷ (0x7fffffff, pt_hiproc)
    ∷ (0xffffffff, unknown_phdr)
    ∷ []

-- `_missing_`: a value that no member has is UNKNOWN_PHDR.
abbrev pub or_unknown : Option PhdrType → PhdrType
or_unknown none = unknown_phdr
or_unknown (some t) = t

unfoldable pub phdr_type_of : ℕ → PhdrType
phdr_type_of n = or_unknown (member phdr_types n)

-- `p_flags` is an `IntFlag`, which any number fits.
pub record Phdr : Type 0 where
  pub offset : ℕ
  pub p_type : PhdrType
  pub p_flags : ℕ
  pub p_offset : ℕ
  pub p_vaddr : ℕ
  pub p_paddr : ℕ
  pub p_filesz : ℕ
  pub p_memsz : ℕ
  pub p_align : ℕ

read_64 : Endianness → ℕ → Reader Phdr
unfolding read_uint
read_64 endian off = do
  p_type ← read_uint endian 4
  p_flags ← read_uint endian 4
  p_offset ← read_uint endian 8
  p_vaddr ← read_uint endian 8
  p_paddr ← read_uint endian 8
  p_filesz ← read_uint endian 8
  p_memsz ← read_uint endian 8
  p_align ← read_uint endian 8
  pure (record {
    offset = off;
    p_type = phdr_type_of p_type;
    p_flags = p_flags;
    p_offset = p_offset;
    p_vaddr = p_vaddr;
    p_paddr = p_paddr;
    p_filesz = p_filesz;
    p_memsz = p_memsz;
    p_align = p_align;
  })

read_32 : Endianness → ℕ → Reader Phdr
unfolding read_uint
read_32 endian off = do
  p_type ← read_uint endian 4
  p_offset ← read_uint endian 4
  p_vaddr ← read_uint endian 4
  p_paddr ← read_uint endian 4
  p_filesz ← read_uint endian 4
  p_memsz ← read_uint endian 4
  p_flags ← read_uint endian 4
  p_align ← read_uint endian 4
  pure (record {
    offset = off;
    p_type = phdr_type_of p_type;
    p_flags = p_flags;
    p_offset = p_offset;
    p_vaddr = p_vaddr;
    p_paddr = p_paddr;
    p_filesz = p_filesz;
    p_memsz = p_memsz;
    p_align = p_align;
  })

abbrev by_class : Class → Endianness → ℕ → Reader Phdr
by_class elf_64_bits = read_64
by_class elf_32_bits = read_32

-- `Phdr.__init__`, of the entry at offset `off` of the file `bytes`.
unfoldable pub read_phdr : List ℕ → Class → Endianness → ℕ → Reader Phdr
unfolding seek read_64 read_32
read_phdr bytes e_class endian off = do seek bytes off; by_class e_class endian off
