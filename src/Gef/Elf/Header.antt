-- ===== src/Gef/Elf/Header.antt =====
-- `class Elf` of scripts/gef.py: the file header, and the two tables behind it.
use os_project_signal.Prelude.{
  ℕ, zero, suc, ◌+◌, ◌*◌, Bool, not, Option, none, some, List, [], ◌∷◌, take, ◌==◌,
}
use os_project_signal.Prelude.Result.{Result, err, runtime_error, os_error, raise_if, map_ok}
use os_project_signal.Gef.Elf.Enums.{
  Class, Endianness, Abi, FileType, OsAbi, elf_32_bits, elf_64_bits, big_endian, class_of,
  endianness_of, abi_of, file_type_of, os_abi_of,
}
use os_project_signal.Gef.Elf.Reader.{Reader, ◌>>=◌, ◌>>◌, pure, lift, read, read_uint}
use os_project_signal.Gef.Elf.Phdr.{Phdr, read_phdr}
use os_project_signal.Gef.Elf.Shdr.{Shdr, Layout, read_shdr}

pub record Elf : Type 0 where
  pub e_magic : ℕ
  pub e_class : Class
  pub e_endianness : Endianness
  pub e_eiversion : ℕ
  pub e_osabi : OsAbi
  pub e_abiversion : ℕ
  pub e_pad : List ℕ
  pub e_type : FileType
  pub e_machine : Abi
  pub e_version : ℕ
  pub e_entry : ℕ
  pub e_phoff : ℕ
  pub e_shoff : ℕ
  pub e_flags : ℕ
  pub e_ehsize : ℕ
  pub e_phentsize : ℕ
  pub e_phnum : ℕ
  pub e_shentsize : ℕ
  pub e_shnum : ℕ
  pub e_shstrndx : ℕ
  pub phdrs : List Phdr
  pub shdrs : List Shdr

abbrev pub elf_magic : ℕ
elf_magic = 0x7f454c46

-- The width of an address in the file.
abbrev pub word_size : Class → ℕ
word_size elf_64_bits = 8
word_size elf_32_bits = 4

-- The file header, to the end of its last field. The warning about an unexpected byte order is
-- output and changes nothing.
unfoldable pub read_header : Reader Elf
unfolding read_uint read class_of endianness_of os_abi_of file_type_of abi_of
read_header = do
  e_magic ← read_uint big_endian 4
  e_class' ← read_uint big_endian 1
  e_endianness' ← read_uint big_endian 1
  e_eiversion ← read_uint big_endian 1
  lift (raise_if (not (e_magic == elf_magic)) runtime_error)
  e_class ← lift (class_of e_class')
  e_endianness ← lift (endianness_of e_endianness')
  e_osabi' ← read_uint e_endianness 1
  e_abiversion ← read_uint e_endianness 1
  e_osabi ← lift (os_abi_of e_osabi')
  e_pad ← read 7
  e_type' ← read_uint e_endianness 2
  e_machine' ← read_uint e_endianness 2
  e_version ← read_uint e_endianness 4
  e_type ← lift (file_type_of e_type')
  e_machine ← lift (abi_of e_machine')
  e_entry ← read_uint e_endianness (word_size e_class)
  e_phoff ← read_uint e_endianness (word_size e_class)
  e_shoff ← read_uint e_endianness (word_size e_class)
  e_flags ← read_uint e_endianness 4
  e_ehsize ← read_uint e_endianness 2
  e_phentsize ← read_uint e_endianness 2
  e_phnum ← read_uint e_endianness 2
  e_shentsize ← read_uint e_endianness 2
  e_shnum ← read_uint e_endianness 2
  e_shstrndx ← read_uint e_endianness 2
  pure (record {
    e_magic = e_magic;
    e_class = e_class;
    e_endianness = e_endianness;
    e_eiversion = e_eiversion;
    e_osabi = e_osabi;
    e_abiversion = e_abiversion;
    e_pad = e_pad;
    e_type = e_type;
    e_machine = e_machine;
    e_version = e_version;
    e_entry = e_entry;
    e_phoff = e_phoff;
    e_shoff = e_shoff;
    e_flags = e_flags;
    e_ehsize = e_ehsize;
    e_phentsize = e_phentsize;
    e_phnum = e_phnum;
    e_shentsize = e_shentsize;
    e_shnum = e_shnum;
    e_shstrndx = e_shstrndx;
    phdrs = [];
    shdrs = [];
  })

-- for i in range(i, i + n): append(entry(start + size * i))
unfoldable pub read_table {ℓ} : {A : Type ℓ} → (ℕ → Reader A) → ℕ → ℕ → ℕ → ℕ → Reader (List A)
read_table entry start size i zero = pure []
read_table entry start size i (suc n) = do
  a ← entry (start + size * i)
  rest ← read_table entry start size (i + 1) n
  pure (a ∷ rest)

abbrev pub layout_of : Elf → Endianness → Layout
layout_of elf arch_endianness = record {
  e_class = elf.e_class;
  e_endianness = elf.e_endianness;
  e_shoff = elf.e_shoff;
  e_shentsize = elf.e_shentsize;
  e_shstrndx = elf.e_shstrndx;
  arch_endianness = arch_endianness;
}

read_elf : List ℕ → Endianness → Reader Elf
unfolding read_header read_table read_phdr read_shdr
read_elf bytes arch_endianness = do
  elf ← read_header
  phdrs ←
      read_table (read_phdr bytes elf.e_class elf.e_endianness) elf.e_phoff elf.e_phentsize 0
        elf.e_phnum
  shdrs ←
      read_table (read_shdr bytes (layout_of elf arch_endianness)) elf.e_shoff elf.e_shentsize 0
        elf.e_shnum
  pure (record elf { phdrs = phdrs; shdrs = shdrs })

-- `Elf.__init__`, of the bytes of the file, or of a path at which there is no file
-- (`FileNotFoundError` is an `OSError`).
unfoldable pub load : Option (List ℕ) → Endianness → Result Elf
unfolding read_elf
load none arch_endianness = err os_error
load (some bytes) arch_endianness = map_ok (λ r. r.0) (read_elf bytes arch_endianness bytes)

-- `Elf.is_valid`
unfoldable pub is_valid : List ℕ → Result Bool
unfolding read_uint
is_valid bytes = map_ok (λ r. r.0 == elf_magic) (read_uint big_endian 4 (take 4 bytes))
