-- ===== src/Gef/Address/Bounds.antt =====
-- What the alignments return, and how large it is.
use native.Mathlib.Nat.{mod-lt, div-add-mod, mod_self, add-mod-mod, mul-add-mod_self_left}
use os_project_signal.Prelude.{
  ℕ, ◌+◌, ◌-◌, ◌*◌, ◌/◌, ◌%◌, ◌≤◌, ◌<◌, ◌≡◌, ◌⊎◌, inl, inr, false, arith,
}
use os_project_signal.Gef.Address.{
  align_address, align_address_to_size, align_address_to_page, is_in_x86_kernel,
}

padding-lt : (r m : ℕ) → r < m → (m - r) % m < m
padding-lt r m h = mod-lt (m - r) (omega arith)

mod-padding : (q r m : ℕ) → r < m → (m * q + r + (m - r) % m) % m ≡ 0
mod-padding q r m h = rw (add-mod-mod (m * q + r) (m - r) m) (
    let e : m * q + r + (m - r) ≡ m * q + m = omega arith in
    rw (e, mul-add-mod_self_left m q m) (mod_self m))

-- For a positive alignment `align_address_to_size` gives the least multiple that is not below the
-- address: it is a multiple, and it lies less than one alignment above the address.
pub align_address_to_size_lem :
    (address align : ℕ)
    → 0 < align
    → (align_address_to_size address align % align ≡ 0)
      × (address ≤ align_address_to_size address align)
      × (align_address_to_size address align < address + align)
unfolding align_address_to_size
align_address_to_size_lem address align h =
    let r = address % align in
    let q = address / align in
    let split : align * q + r ≡ address = div-add-mod address align in
    let small : r < align = mod-lt address h in
    let pad = padding-lt r align small in
    let multiple = mod-padding q r align small in
    (rw split at multiple, omega (arith, pad), omega (arith, pad))

-- The page of an address is a multiple of 4096 and holds the address, cut to the 64 or 32 bits of
-- the target.
pub align_address_to_page_lem :
    (ptrsize address : ℕ)
    → (align_address_to_page ptrsize address % 4096 ≡ 0)
      × (align_address_to_page ptrsize address ≤ align_address ptrsize address)
      × (align_address ptrsize address < align_address_to_page ptrsize address + 4096)
unfolding align_address_to_page
align_address_to_page_lem ptrsize address = (omega arith, omega arith, omega arith)

-- On a target with pointers of 4 or 8 bytes no address is taken for one of the kernel: the top bit
-- alone is compared with 0xf.
pub not-is_in_x86_kernel :
    (ptrsize address : ℕ) → (ptrsize ≡ 4) ⊎ (ptrsize ≡ 8) → is_in_x86_kernel ptrsize address ≡ false
unfolding is_in_x86_kernel align_address
not-is_in_x86_kernel ptrsize address (inl e) = rw e (ground arith)
not-is_in_x86_kernel ptrsize address (inr e) = rw e (ground arith)
