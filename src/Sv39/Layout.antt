-- ===== src/Sv39/Layout.antt =====
-- The fields of an address and of a page table entry, put together again.
use os_project_signal.Prelude.{
  ℕ, ◌+◌, ◌-◌, ◌*◌, ◌/◌, ◌%◌, ◌<◌, ◌^◌, ◌≡◌, Bool, true, false, arith, if◌then◌else◌,
}
use os_project_signal.Sv39.{ok, Fields, calculate_vpn_and_offset, Pte, pte_fields}
use os_project_signal.Prelude.Bits.{nat_bit}

-- An accepted 64-bit address is the sign extension of its three page numbers and its page offset, and
-- each of these fits its field.
pub calculate-recompose :
    (va : ℕ) {f : Fields}
    → va < 2 ^ 64
    → calculate_vpn_and_offset va ≡ ok f
    → (va ≡ 2 ^ 64 - 2 ^ 39 + f.vpn2 * 2 ^ 30 + f.vpn1 * 2 ^ 21 + f.vpn0 * 2 ^ 12 + f.page_offset)
      × (f.vpn2 < 512)
      × (f.vpn1 < 512)
      × (f.vpn0 < 512)
      × (f.page_offset < 4096)
unfolding calculate_vpn_and_offset
calculate-recompose va {f} h e = ground arith

abbrev pub bit : Bool → ℕ
bit b = if b then 1 else 0

-- The entry that has the fields of `p` and the software bits `rsw`, with anything above bit 53.
abbrev pub encode : Pte → ℕ → ℕ → ℕ → ℕ
encode p ppn rsw high =
    bit p.v
    + 2 * bit p.r
    + 4 * bit p.w
    + 8 * bit p.x
    + 16 * bit p.u
    + 32 * bit p.g
    + 64 * bit p.a
    + 128 * bit p.d
    + 2 ^ 8 * rsw
    + 2 ^ 10 * ppn
    + 2 ^ 54 * high

bit-lt : (b : Bool) → bit b < 2
bit-lt true = omega arith
bit-lt false = omega arith

nat_bit-of : (k n : ℕ) (b : Bool) → n / 2 ^ k % 2 ≡ bit b → nat_bit n k ≡ b
nat_bit-of k n true h = rw h
nat_bit-of k n false h = rw h

-- Eight digits below 2 and what is above them.
digits-lem :
    (v r w x u g a d top : ℕ)
    → v < 2
    → r < 2
    → w < 2
    → x < 2
    → u < 2
    → g < 2
    → a < 2
    → d < 2
    → (n : ℕ) → n ≡ v + 2 * r + 4 * w + 8 * x + 16 * u + 32 * g + 64 * a + 128 * d + 256 * top
    → (n / 1 % 2 ≡ v)
      × (n / 2 % 2 ≡ r)
      × (n / 4 % 2 ≡ w)
      × (n / 8 % 2 ≡ x)
      × (n / 16 % 2 ≡ u)
      × (n / 32 % 2 ≡ g)
      × (n / 64 % 2 ≡ a)
      × (n / 128 % 2 ≡ d)
      × (n / 256 ≡ top)
digits-lem v r w x u g a d top hv hr hw hx hu hg ha hd n e = (
  omega arith,
  omega arith,
  omega arith,
  omega arith,
  omega arith,
  omega arith,
  omega arith,
  omega arith,
  omega arith,
)

ppn-lem :
    (n ppn rsw high : ℕ)
    → ppn < 2 ^ 44
    → rsw < 4
    → n / 256 ≡ rsw + 4 * (ppn + 2 ^ 44 * high)
    → n / 2 ^ 10 % 2 ^ 44 ≡ ppn
ppn-lem n ppn rsw high h k e = omega arith

-- Decoding gives back the flags and the page number that an entry is made of, the latter as the
-- address of the page's first byte, whatever the software bits and the bits above 53.
pub pte_fields-encode :
    (p : Pte) (ppn rsw high : ℕ)
    → ppn < 2 ^ 44
    → rsw < 4
    → pte_fields (encode p ppn rsw high) ≡ record p { ppn = ppn * 2 ^ 12 }
unfolding pte_fields
pte_fields-encode p ppn rsw high h k =
    let n = encode p ppn rsw high in
    let top = rsw + 4 * (ppn + 2 ^ 44 * high) in
    let (v, r, w, x, u, g, a, d, above) =
      digits-lem (bit p.v) (bit p.r) (bit p.w) (bit p.x) (bit p.u) (bit p.g) (bit p.a) (bit p.d) top
        (bit-lt p.v) (bit-lt p.r) (bit-lt p.w) (bit-lt p.x) (bit-lt p.u) (bit-lt p.g) (bit-lt p.a)
        (bit-lt p.d) n (omega arith) in
    rw (
      nat_bit-of 0 n p.v v,
      nat_bit-of 1 n p.r r,
      nat_bit-of 2 n p.w w,
      nat_bit-of 3 n p.x x,
      nat_bit-of 4 n p.u u,
      nat_bit-of 5 n p.g g,
      nat_bit-of 6 n p.a a,
      nat_bit-of 7 n p.d d,
      ppn-lem n ppn rsw high h k above,
    )
