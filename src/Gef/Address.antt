-- ===== src/Gef/Address.antt =====
-- The arithmetic of addresses in scripts/gef.py: alignment to the pointer size, to a size, to a page.
pub mod Bounds
use os_project_signal.Prelude.{ℕ, ◌+◌, ◌-◌, ◌*◌, ◌%◌, String, Bool, [], ◌∷◌, ◌==◌, if◌then◌else◌}
use os_project_signal.Prelude.Bits.{shr, shl, low_bits}
use os_project_signal.Prelude.Text.{concat, hex, hex_prefixed, rjust, ljust, numeral}

abbrev pub default_page_align_shift : ℕ
default_page_align_shift = 12

abbrev pub default_page_size : ℕ
default_page_size = shl 1 default_page_align_shift

-- `align_address`, on a target whose pointers have `ptrsize` bytes.
unfoldable pub align_address : ℕ → ℕ → ℕ
align_address ptrsize address = if ptrsize == 8 then low_bits address 64 else low_bits address 32

unfoldable pub align_address_to_size : ℕ → ℕ → ℕ
align_address_to_size address align = address + (align - address % align) % align

unfoldable pub align_address_to_page : ℕ → ℕ → ℕ
unfolding align_address
align_address_to_page ptrsize address =
    shl (shr (align_address ptrsize address) default_page_align_shift) default_page_align_shift

unfoldable pub format_address : ℕ → ℕ → String
unfolding align_address numeral
format_address ptrsize addr =
    let addr' = align_address ptrsize addr in
    if ptrsize == 8
    then concat ("0x" ∷ rjust 16 "0" (hex addr') ∷ [])
    else concat ("0x" ∷ rjust 8 "0" (hex addr') ∷ [])

unfoldable pub format_address_spaces : ℕ → ℕ → Bool → String
unfolding align_address numeral
format_address_spaces ptrsize addr left =
    let width = ptrsize * 2 + 2 in
    let addr' = align_address ptrsize addr in
    if left then ljust width " " (hex_prefixed addr') else rjust width " " (hex_prefixed addr')

-- `(address >> memalign) == 0xF`, where `memalign` is the number of the top bit.
unfoldable pub is_in_x86_kernel : ℕ → ℕ → Bool
unfolding align_address
is_in_x86_kernel ptrsize address = shr (align_address ptrsize address) (ptrsize * 8 - 1) == 0xf
