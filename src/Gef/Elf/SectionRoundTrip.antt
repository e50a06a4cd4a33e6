-- ===== src/Gef/Elf/SectionRoundTrip.antt =====
-- The entries of the section header table of an ELF file, read back, with the names they refer to.
use os_project_signal.Prelude.{
  ℕ, ◌+◌, ◌*◌, ◌^◌, ◌<◌, ◌≡◌, ◌≢◌, refl, List, [], ◌∷◌, ◌++◌, drop, All,
}
use os_project_signal.Prelude.Result.{ok}
use os_project_signal.Gef.Elf.Enums.{Class, elf_32_bits, elf_64_bits, Endianness}
use os_project_signal.Gef.Elf.Reader.{◌>>=◌}
use os_project_signal.Gef.Elf.Encode.{put, then_uint, then_ok, read_uint-put, read_name-end}
use os_project_signal.Gef.Elf.Shdr.{
  Shdr, Layout, shdr_type_of, shdr_flags_of, read_fields, read_string_offset, read_shdr,
}
use os_project_signal.Gef.Elf.RoundTrip.{word_bits}

-- The entry of a section header table with the type number `ty` and the flags `fl`.
unfoldable pub put_shdr : Class → Endianness → ℕ → ℕ → Shdr → List ℕ → List ℕ
put_shdr elf_64_bits e ty fl s rest = put e 4 s.sh_name (
    put e 4 ty (
      put e 8 fl (
        put e 8 s.sh_addr (
          put e 8 s.sh_offset (
            put e 8 s.sh_size (
              put e 4 s.sh_link
                (put e 4 s.sh_info (put e 8 s.sh_addralign (put e 8 s.sh_entsize rest)))))))))
put_shdr elf_32_bits e ty fl s rest = put e 4 s.sh_name (
    put e 4 ty (
      put e 4 fl (
        put e 4 s.sh_addr (
          put e 4 s.sh_offset (
            put e 4 s.sh_size (
              put e 4 s.sh_link
                (put e 4 s.sh_info (put e 4 s.sh_addralign (put e 4 s.sh_entsize rest)))))))))

-- The fields of an entry fit those of the layout.
pub record ShdrFits (c : Class) (ty fl : ℕ) (s : Shdr) : Type 0 where
  pub name_fits : s.sh_name < 2 ^ 32
  pub type_fits : ty < 2 ^ 32
  pub flags_fits : fl < 2 ^ word_bits c
  pub addr_fits : s.sh_addr < 2 ^ word_bits c
  pub offset_fits : s.sh_offset < 2 ^ word_bits c
  pub size_fits : s.sh_size < 2 ^ word_bits c
  pub link_fits : s.sh_link < 2 ^ 32
  pub info_fits : s.sh_info < 2 ^ 32
  pub addralign_fits : s.sh_addralign < 2 ^ word_bits c
  pub entsize_fits : s.sh_entsize < 2 ^ word_bits c

-- The entry as `__init__` fills it, before the name.
abbrev pub filled : ℕ → ℕ → Shdr → Shdr
filled ty fl s = record s { sh_type = shdr_type_of ty; sh_flags = shdr_flags_of fl; name = [] }

pub read_fields-put :
    (c : Class) (e : Endianness) (ty fl : ℕ) (s : Shdr) (rest : List ℕ)
    → ShdrFits c ty fl s
    → read_fields c e (put_shdr c e ty fl s rest) ≡ ok (filled ty fl s, rest)
unfolding read_fields put_shdr
read_fields-put elf_64_bits e ty fl s rest f = then_uint e 4 s.sh_name _ f.name_fits (
    then_uint e 4 ty _ f.type_fits (
      then_uint e 8 fl _ f.flags_fits (
        then_uint e 8 s.sh_addr _ f.addr_fits (
          then_uint e 8 s.sh_offset _ f.offset_fits (
            then_uint e 8 s.sh_size _ f.size_fits (
              then_uint e 4 s.sh_link _ f.link_fits (
                then_uint e 4 s.sh_info _ f.info_fits (
                  then_uint e 8 s.sh_addralign _ f.addralign_fits
                    (then_uint e 8 s.sh_entsize _ f.entsize_fits refl)))))))))
read_fields-put elf_32_bits e ty fl s rest f = then_uint e 4 s.sh_name _ f.name_fits (
    then_uint e 4 ty _ f.type_fits (
      then_uint e 4 fl _ f.flags_fits (
        then_uint e 4 s.sh_addr _ f.addr_fits (
          then_uint e 4 s.sh_offset _ f.offset_fits (
            then_uint e 4 s.sh_size _ f.size_fits (
              then_uint e 4 s.sh_link _ f.link_fits (
                then_uint e 4 s.sh_info _ f.info_fits (
                  then_uint e 4 s.sh_addralign _ f.addralign_fits
                    (then_uint e 4 s.sh_entsize _ f.entsize_fits refl)))))))))

-- The place in the file of the `sh_offset` of the section that holds the names.
abbrev pub string_offset_at : Layout → Class → ℕ
string_offset_at elf elf_64_bits = elf.e_shoff + elf.e_shentsize * elf.e_shstrndx + 16 + 8
string_offset_at elf elf_32_bits = elf.e_shoff + elf.e_shentsize * elf.e_shstrndx + 12 + 4

abbrev pub word_bytes : Class → ℕ
word_bytes elf_64_bits = 8
word_bytes elf_32_bits = 4

-- Where the parts of one entry stand in the file.
pub record Placed (bytes : List ℕ) (elf : Layout) (ty fl off table : ℕ) (s : Shdr) : Type 0 where
  pub after_entry : List ℕ
  pub after_offset : List ℕ
  pub after_name : List ℕ
  pub entry_at : drop off bytes ≡ put_shdr elf.e_class elf.e_endianness ty fl s after_entry
  pub offset_at :
      drop (string_offset_at elf elf.e_class) bytes
      ≡ put elf.arch_endianness (word_bytes elf.e_class) table after_offset
  pub name_at : drop (table + s.sh_name) bytes ≡ s.name ++ 0 ∷ after_name

read_string_offset-put :
    (bytes : List ℕ) (elf : Layout) (c : Class) (table : ℕ) (rest before : List ℕ)
    → elf.e_class ≡ c
    → table < 2 ^ (8 * word_bytes c)
    → drop (string_offset_at elf c) bytes ≡ put elf.arch_endianness (word_bytes c) table rest
    → read_string_offset bytes elf before ≡ ok (table, rest)
unfolding read_string_offset
read_string_offset-put bytes elf elf_64_bits table rest before same fits at_offset =
    rw (same, at_offset) (read_uint-put elf.arch_endianness 8 table rest fits)
read_string_offset-put bytes elf elf_32_bits table rest before same fits at_offset =
    rw (same, at_offset) (read_uint-put elf.arch_endianness 4 table rest fits)

-- An entry of the section header table is read field by field with its name, the characters in front
-- of the first zero byte, in a file of either class, if the offset of the names' section reads as
-- `table` in the byte order of the current architecture.
pub read_shdr-put :
    (bytes : List ℕ) (elf : Layout) (ty fl off table : ℕ) (s : Shdr) (before : List ℕ)
    → ShdrFits elf.e_class ty fl s
    → table < 2 ^ (8 * word_bytes elf.e_class)
    → All (λ c. c ≢ 0) s.name
    → (placed : Placed bytes elf ty fl off table s)
    → read_shdr bytes elf off before
      ≡ ok (record (filled ty fl s) { name = s.name }, placed.after_name)
unfolding read_shdr
read_shdr-put bytes elf ty fl off table s before f fits plain placed = rw placed.entry_at (
    then_ok (read_fields elf.e_class elf.e_endianness) _
      (read_fields-put elf.e_class elf.e_endianness ty fl s placed.after_entry f)
      (then_ok (read_string_offset bytes elf) _
        (read_string_offset-put bytes elf elf.e_class table placed.after_offset placed.after_entry
          refl fits placed.offset_at)
        (rw placed.name_at (rw (read_name-end s.name placed.after_name plain, ◌>>=◌) refl))))
