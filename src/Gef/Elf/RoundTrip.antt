-- ===== src/Gef/Elf/RoundTrip.antt =====
-- The entries of the two tables of an ELF file, and its header, read back from their bytes.
use os_project_signal.Prelude.{ℕ, ◌^◌, ◌<◌, ◌≡◌, refl, List, drop}
use os_project_signal.Prelude.Result.{ok}
use os_project_signal.Gef.Elf.Enums.{Class, elf_32_bits, elf_64_bits, Endianness}
use os_project_signal.Gef.Elf.Encode.{put, then_uint}
use os_project_signal.Gef.Elf.Phdr.{Phdr, phdr_type_of, read_phdr}

-- The entry of a program header table with the type number `ty`, in the two layouts of the format.
unfoldable pub put_phdr : Class → Endianness → ℕ → Phdr → List ℕ → List ℕ
put_phdr elf_64_bits e ty p rest = put e 4 ty (
    put e 4 p.p_flags (
      put e 8 p.p_offset (
        put e 8 p.p_vaddr
          (put e 8 p.p_paddr (put e 8 p.p_filesz (put e 8 p.p_memsz (put e 8 p.p_align rest)))))))
put_phdr elf_32_bits e ty p rest = put e 4 ty (
    put e 4 p.p_offset (
      put e 4 p.p_vaddr (
        put e 4 p.p_paddr
          (put e 4 p.p_filesz (put e 4 p.p_memsz (put e 4 p.p_flags (put e 4 p.p_align rest)))))))

-- The width of an address.
abbrev pub word_bits : Class → ℕ
word_bits elf_64_bits = 64
word_bits elf_32_bits = 32

-- The fields of an entry fit those of the layout.
pub record PhdrFits (c : Class) (p : Phdr) : Type 0 where
  pub flags_fits : p.p_flags < 2 ^ 32
  pub offset_fits : p.p_offset < 2 ^ word_bits c
  pub vaddr_fits : p.p_vaddr < 2 ^ word_bits c
  pub paddr_fits : p.p_paddr < 2 ^ word_bits c
  pub filesz_fits : p.p_filesz < 2 ^ word_bits c
  pub memsz_fits : p.p_memsz < 2 ^ word_bits c
  pub align_fits : p.p_align < 2 ^ word_bits c

-- An entry that stands at `off` in a file of either class and byte order is read field by field,
-- whatever was read before; its type is the member of the enumeration with its number.
pub read_phdr-put :
    (c : Class) (e : Endianness) (ty off : ℕ) (p : Phdr) (bytes rest before : List ℕ)
    → ty < 2 ^ 32
    → PhdrFits c p
    → drop off bytes ≡ put_phdr c e ty p rest
    → read_phdr bytes c e off before
      ≡ ok (record p { offset = off; p_type = phdr_type_of ty }, rest)
unfolding read_phdr put_phdr
read_phdr-put elf_64_bits e ty off p bytes rest before h f at_off = rw at_off (
    then_uint e 4 ty _ h (
      then_uint e 4 p.p_flags _ f.flags_fits (
        then_uint e 8 p.p_offset _ f.offset_fits (
          then_uint e 8 p.p_vaddr _ f.vaddr_fits (
            then_uint e 8 p.p_paddr _ f.paddr_fits (
              then_uint e 8 p.p_filesz _ f.filesz_fits (
                then_uint e 8 p.p_memsz _ f.memsz_fits
                  (then_uint e 8 p.p_align _ f.align_fits refl))))))))
read_phdr-put elf_32_bits e ty off p bytes rest before h f at_off = rw at_off (
    then_uint e 4 ty _ h (
      then_uint e 4 p.p_offset _ f.offset_fits (
        then_uint e 4 p.p_vaddr _ f.vaddr_fits (
          then_uint e 4 p.p_paddr _ f.paddr_fits (
            then_uint e 4 p.p_filesz _ f.filesz_fits (
              then_uint e 4 p.p_memsz _ f.memsz_fits (
                then_uint e 4 p.p_flags _ f.flags_fits
                  (then_uint e 4 p.p_align _ f.align_fits refl))))))))
