-- ===== src/Gef/Elf/FileRoundTrip.antt =====
-- `Elf.__init__` on a whole file: the header and both tables.
use os_project_signal.Prelude.{
  ℕ, zero, suc, ◌+◌, ◌*◌, ◌^◌, ◌<◌, ◌≡◌, ◌≢◌, refl, List, [], ◌∷◌, drop, All, some, arith,
}
use os_project_signal.Prelude.Result.{ok}
use os_project_signal.Gef.Elf.Enums.{Endianness}
use os_project_signal.Gef.Elf.Reader.{Reader, ◌>>=◌}
use os_project_signal.Gef.Elf.Encode.{then_ok}
use os_project_signal.Gef.Elf.Phdr.{Phdr, phdr_type_of, read_phdr}
use os_project_signal.Gef.Elf.Shdr.{Shdr, read_shdr}
use os_project_signal.Gef.Elf.Header.{Elf, elf_magic, layout_of, read_header, read_table, load}
use os_project_signal.Gef.Elf.RoundTrip.{put_phdr, PhdrFits, read_phdr-put}
use os_project_signal.Gef.Elf.HeaderRoundTrip.{put_header, HeaderFits, read_header-put}
use os_project_signal.Gef.Elf.SectionRoundTrip.{ShdrFits, Placed, filled, word_bytes, read_shdr-put}

-- f i, f (i + 1), …: `n` values.
abbrev pub table {ℓ} : {A : Type ℓ} → (ℕ → A) → ℕ → ℕ → List A
table f i zero = []
table f i (suc n) = f i ∷ table f (i + 1) n

-- What a reader returned, wherever it stopped.
abbrev pub Returns {ℓ} : {A : Type ℓ} → Reader A → List ℕ → A → Type ℓ
Returns m before a = (after : List ℕ) × (m before ≡ ok (a, after))

pub read_table-table {ℓ} :
    {A : Type ℓ} (entry : ℕ → Reader A) (start size : ℕ) (f : ℕ → A) (i n : ℕ) (before : List ℕ)
    → ((k : ℕ) (before : List ℕ) → k < i + n → Returns (entry (start + size * k)) before (f k))
    → Returns (read_table entry start size i n) before (table f i n)
unfolding read_table
read_table-table entry start size f i zero before each = (before, refl)
read_table-table entry start size f i (suc n) before each =
    let (mid, first) = each i before (omega arith) in
    let (after, others) =
      read_table-table entry start size f (i + 1) n mid (λ k b h. each k b (omega arith)) in
    (after, then_ok (entry (start + size * i)) _ first (rw (others, ◌>>=◌) refl))

-- A file: its header `h`, the entries of its two tables with their type numbers and flags, in the byte
-- order that the header tells, and the offset of the names, which the constructor of a section reads in
-- the byte order of the architecture, and which is written in that one here.
pub record FileOf (bytes : List ℕ) (arch : Endianness) (h : Elf) : Type 0 where
  pub after_header : List ℕ
  pub header_at : bytes ≡ put_header h after_header
  pub header_fits : HeaderFits h
  pub phdr : ℕ → Phdr
  pub phdr_type : ℕ → ℕ
  pub after_phdr : ℕ → List ℕ
  pub phdr_type_fits : (k : ℕ) → k < h.e_phnum → phdr_type k < 2 ^ 32
  pub phdr_fits : (k : ℕ) → k < h.e_phnum → PhdrFits h.e_class (phdr k)
  pub phdr_at :
      (k : ℕ)
      → k < h.e_phnum
      → drop (h.e_phoff + h.e_phentsize * k) bytes
        ≡ put_phdr h.e_class h.e_endianness (phdr_type k) (phdr k) (after_phdr k)
  pub shdr : ℕ → Shdr
  pub shdr_type : ℕ → ℕ
  pub shdr_flags : ℕ → ℕ
  pub names : ℕ
  pub names_fits : names < 2 ^ (8 * word_bytes h.e_class)
  pub shdr_fits : (k : ℕ) → k < h.e_shnum → ShdrFits h.e_class (shdr_type k) (shdr_flags k) (shdr k)
  pub shdr_name : (k : ℕ) → k < h.e_shnum → All (λ c. c ≢ 0) (Shdr.name (shdr k))
  pub shdr_at :
      (k : ℕ)
      → k < h.e_shnum
      → Placed bytes
          (layout_of h arch)
          (shdr_type k)
          (shdr_flags k)
          (h.e_shoff + h.e_shentsize * k)
          names
          (shdr k)

-- the entries of the two tables, as they are read
abbrev pub phdr_read : (h : Elf) → (ℕ → Phdr) → (ℕ → ℕ) → ℕ → Phdr
phdr_read h phdr ty k = record (phdr k) {
  offset = h.e_phoff + h.e_phentsize * k;
  p_type = phdr_type_of (ty k);
}

abbrev pub shdr_read : (ℕ → Shdr) → (ℕ → ℕ) → (ℕ → ℕ) → ℕ → Shdr
shdr_read shdr ty fl k = record (filled (ty k) (fl k) (shdr k)) { name = Shdr.name (shdr k) }

-- A file of either class, whose offset of the section names stands in the byte order of the architecture
-- and all else in that of the file, is loaded: the header's fields, every entry of the program header
-- table and every entry of the section header table with its name, in their order. The type of an entry
-- and the flags of a section come as `phdr_type_of`, `shdr_type_of` and `shdr_flags_of` tell them: flags
-- that are not those of one member are UNKNOWN_FLAG.
pub load-FileOf :
    (bytes : List ℕ) (arch : Endianness) (h : Elf) (file : FileOf bytes arch h)
    → load (some bytes) arch
      ≡ ok (record h {
        e_magic = elf_magic;
        phdrs = table (phdr_read h file.phdr file.phdr_type) 0 h.e_phnum;
        shdrs = table (shdr_read file.shdr file.shdr_type file.shdr_flags) 0 h.e_shnum;
      })
unfolding load
load-FileOf bytes arch h file =
    let (p, phdrs_lem) =
      read_table-table (read_phdr bytes h.e_class h.e_endianness) h.e_phoff h.e_phentsize
        (phdr_read h file.phdr file.phdr_type) 0 h.e_phnum file.after_header
        (λ k before below.
          let lt : k < h.e_phnum = omega arith in
          (
            file.after_phdr k,
            read_phdr-put h.e_class h.e_endianness (file.phdr_type k) _ (file.phdr k) bytes
                (file.after_phdr k) before (file.phdr_type_fits k lt) (file.phdr_fits k lt)
                (file.phdr_at k lt),
          )) in
    let (s, shdrs_lem) =
      read_table-table (read_shdr bytes (layout_of h arch)) h.e_shoff h.e_shentsize
        (shdr_read file.shdr file.shdr_type file.shdr_flags) 0 h.e_shnum p
        (λ k before below.
          let lt : k < h.e_shnum = omega arith in
          (
            (file.shdr_at k lt).after_name,
            read_shdr-put bytes (layout_of h arch) (file.shdr_type k) (file.shdr_flags k) _
                file.names (file.shdr k) before (file.shdr_fits k lt) file.names_fits
                (file.shdr_name k lt) (file.shdr_at k lt),
          )) in
    let header : read_header bytes
        ≡ ok (record h { e_magic = elf_magic; phdrs = []; shdrs = [] }, file.after_header) =
      rw file.header_at (read_header-put h file.after_header file.header_fits) in
    rw (header, phdrs_lem, shdrs_lem, ◌>>=◌)
