-- ===== src/Gef/Elf/Tests.antt =====
-- A RISC-V program with one entry in each table, as an input of the theorems.
use os_project_signal.Prelude.{
  ℕ, zero, suc, ◌+◌, ◌*◌, ◌<◌, ◌≡◌, ◌≢◌, refl, List, [], ◌∷◌, drop, All, some, arith,
}
use os_project_signal.Prelude.Result.{ok}
use os_project_signal.Gef.Elf.Enums.{elf_64_bits, little_endian, systemv, et_exec, riscv}
use os_project_signal.Gef.Elf.Phdr.{Phdr, pt_load}
use os_project_signal.Gef.Elf.Shdr.{Shdr, sht_strtab, alloc, read_name}
use os_project_signal.Gef.Elf.Header.{Elf, elf_magic, layout_of, load}
use os_project_signal.Gef.Elf.Encode.{put, read_name-end}
use os_project_signal.Gef.Elf.RoundTrip.{put_phdr, PhdrFits}
use os_project_signal.Gef.Elf.HeaderRoundTrip.{put_header, HeaderFits}
use os_project_signal.Gef.Elf.SectionRoundTrip.{put_shdr, ShdrFits, Placed}
use os_project_signal.Gef.Elf.FileRoundTrip.{FileOf, table, phdr_read, shdr_read, load-FileOf}

abbrev header : Elf
header = record {
  e_magic = elf_magic;
  e_class = elf_64_bits;
  e_endianness = little_endian;
  e_eiversion = 1;
  e_osabi = systemv;
  e_abiversion = 0;
  e_pad = 0 ∷ 0 ∷ 0 ∷ 0 ∷ 0 ∷ 0 ∷ 0 ∷ [];
  e_type = et_exec;
  e_machine = riscv;
  e_version = 1;
  e_entry = 0x80200000;
  e_phoff = 64;
  e_shoff = 120;
  e_flags = 5;
  e_ehsize = 64;
  e_phentsize = 56;
  e_phnum = 1;
  e_shentsize = 64;
  e_shnum = 1;
  e_shstrndx = 0;
  phdrs = [];
  shdrs = [];
}

abbrev phdr : Phdr
phdr = record {
  offset = 64;
  p_type = pt_load;
  p_flags = 5;
  p_offset = 0;
  p_vaddr = 0x80200000;
  p_paddr = 0x80200000;
  p_filesz = 187;
  p_memsz = 187;
  p_align = 0x1000;
}

-- The section of the names, which is the only one.
abbrev shdr : Shdr
shdr = record {
  sh_name = 0;
  sh_type = sht_strtab;
  sh_flags = alloc;
  sh_addr = 0;
  sh_offset = 184;
  sh_size = 3;
  sh_link = 0;
  sh_info = 0;
  sh_addralign = 1;
  sh_entsize = 0;
  name = b'.' ∷ b's' ∷ [];
}

abbrev names_bytes : List ℕ
names_bytes = b'.' ∷ b's' ∷ 0 ∷ []

abbrev shdr_bytes : List ℕ
shdr_bytes = put_shdr elf_64_bits little_endian 3 2 shdr names_bytes

abbrev phdr_bytes : List ℕ
phdr_bytes = put_phdr elf_64_bits little_endian 1 phdr shdr_bytes

abbrev bytes : List ℕ
bytes = put_header header phdr_bytes

header_fits : HeaderFits header
header_fits = record {
  pad_lem = refl;
  eiversion_fits = omega arith;
  abiversion_fits = omega arith;
  version_fits = omega arith;
  entry_fits = omega arith;
  phoff_fits = omega arith;
  shoff_fits = omega arith;
  flags_fits = omega arith;
  ehsize_fits = omega arith;
  phentsize_fits = omega arith;
  phnum_fits = omega arith;
  shentsize_fits = omega arith;
  shnum_fits = omega arith;
  shstrndx_fits = omega arith;
}

phdr_fits : PhdrFits elf_64_bits phdr
phdr_fits = record {
  flags_fits = omega arith;
  offset_fits = omega arith;
  vaddr_fits = omega arith;
  paddr_fits = omega arith;
  filesz_fits = omega arith;
  memsz_fits = omega arith;
  align_fits = omega arith;
}

phdr_at : drop 64 bytes ≡ put_phdr elf_64_bits little_endian 1 phdr shdr_bytes
unfolding put_header put_phdr put_shdr put
phdr_at = refl

shdr_fits : ShdrFits elf_64_bits 3 2 shdr
shdr_fits = record {
  name_fits = omega arith;
  type_fits = omega arith;
  flags_fits = omega arith;
  addr_fits = omega arith;
  offset_fits = omega arith;
  size_fits = omega arith;
  link_fits = omega arith;
  info_fits = omega arith;
  addralign_fits = omega arith;
  entsize_fits = omega arith;
}

-- The bytes behind the `sh_offset` of the entry.
abbrev behind_offset : List ℕ
behind_offset = drop 152 bytes

shdr-Placed : Placed bytes (layout_of header little_endian) 3 2 120 184 shdr
unfolding put_header put_phdr put_shdr put
shdr-Placed = record {
  after_entry = names_bytes;
  after_offset = behind_offset;
  after_name = [];
  entry_at = refl;
  offset_at = refl;
  name_at = refl;
}

plain : All (λ c. c ≢ 0) shdr.name
plain = (λ e. cc, (λ e. cc, tt))

name_example : read_name names_bytes ≡ ok (b'.' ∷ b's' ∷ [], [])
name_example = read_name-end (b'.' ∷ b's' ∷ []) [] plain

phdrs_at :
    (k : ℕ)
    → k < 1
    → drop (64 + 56 * k) bytes ≡ put_phdr elf_64_bits little_endian 1 phdr shdr_bytes
phdrs_at zero h = phdr_at
phdrs_at (suc k) h = absurd (omega arith)

shdrs_at :
    (k : ℕ) → k < 1 → Placed bytes (layout_of header little_endian) 3 2 (120 + 64 * k) 184 shdr
shdrs_at zero h = shdr-Placed
shdrs_at (suc k) h = absurd (omega arith)

abbrev file : FileOf bytes little_endian header
file = record {
  after_header = phdr_bytes;
  header_at = refl;
  header_fits = header_fits;
  phdr = λ k. phdr;
  phdr_type = λ k. 1;
  after_phdr = λ k. shdr_bytes;
  phdr_type_fits = λ k h. omega arith;
  phdr_fits = λ k h. phdr_fits;
  phdr_at = phdrs_at;
  shdr = λ k. shdr;
  shdr_type = λ k. 3;
  shdr_flags = λ k. 2;
  names = 184;
  names_fits = omega arith;
  shdr_fits = λ k h. shdr_fits;
  shdr_name = λ k h. plain;
  shdr_at = shdrs_at;
}

load_example :
    load (some bytes) little_endian
    ≡ ok (record header {
      e_magic = elf_magic;
      phdrs = table (phdr_read header (λ k. phdr) (λ k. 1)) 0 1;
      shdrs = table (shdr_read (λ k. shdr) (λ k. 3) (λ k. 2)) 0 1;
    })
load_example = load-FileOf bytes little_endian header file
