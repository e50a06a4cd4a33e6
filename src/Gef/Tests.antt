-- ===== src/Gef/Tests.antt =====
-- Inputs of the theorems on packing, permissions, addresses and sections.
use os_project_signal.Prelude.{ℕ, ◌≡◌, inr, refl, true, false, none, List, [], ◌∷◌, arith}
use os_project_signal.Prelude.Int.{negsuc}
use os_project_signal.Prelude.Result.{ok}
use os_project_signal.Gef.Elf.Enums.{little_endian}
use os_project_signal.Gef.Pack.{pack, unpack}
use os_project_signal.Gef.Pack.RoundTrip.{unpack-pack}
use os_project_signal.Gef.Permission.{Permission}
use os_project_signal.Gef.Section.{Section, process_lookup_address}
use os_project_signal.Gef.Section.Lookup.{FirstOf, process_lookup_address_lem}

minus_two_bytes : pack 4 (negsuc 1) true little_endian none ≡ ok (0xfe ∷ 0xff ∷ 0xff ∷ 0xff ∷ [])
unfolding pack
minus_two_bytes = refl

unpack_example : unpack 4 (0xfe ∷ 0xff ∷ 0xff ∷ 0xff ∷ []) true little_endian none ≡ ok (negsuc 1)
unpack_example = unpack-pack 4 (negsuc 1) true little_endian none (omega arith) minus_two_bytes

abbrev read_execute : Permission
read_execute = record { execute = true; write = false; read = true }

abbrev section : ℕ → ℕ → Section
section first last = record {
  page_start = first;
  page_end = last;
  offset = 0;
  permission = read_execute;
  inode = 0;
  path = "/bin/cat";
}

abbrev sections : List Section
sections = section 0x1000 0x2000 ∷ section 0x2000 0x4000 ∷ []

lookup_example : FirstOf sections 0x3000 (process_lookup_address true true 8 sections 0x3000)
lookup_example = process_lookup_address_lem true 8 0x3000 sections (inr refl)
