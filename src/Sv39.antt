-- ===== src/Sv39.antt =====
-- scripts/sv39.py: the fields of a RISC-V Sv39 virtual address and of a page table entry. Addresses
-- and entries are the non-negative integers that the user may enter.
pub mod Validity
pub mod Layout
mod Tests
use os_project_signal.Prelude.{
  ℕ, ◌^◌, String, Bool, not, ◌&&◌, ◌||◌, Option, none, some, List, [], ◌∷◌, leb, ◌==◌,
  if◌then◌else◌,
}
use os_project_signal.Prelude.Bits.{shr, shl, low_bits, nat_bit}
use os_project_signal.Prelude.Text.{
  str_eq, concat, decimal, binary, hex_upper, rjust, numeral, strip,
}

-- A `ValueError` carries its message.
pub data Checked {ℓ} (A : Type ℓ) : Type ℓ where
  ok : A → Checked A
  value_error : String → Checked A

infixl 5 ◌>>=◌ ◌>>◌
abbrev pub ◌>>=◌ {ℓ κ} : {A : Type ℓ} {B : Type κ} → Checked A → (A → Checked B) → Checked B
ok a >>= f = f a
value_error e >>= f = value_error e

abbrev pub ◌>>◌ {ℓ} : {B : Type ℓ} → Checked (Unit {0}) → Checked B → Checked B
m >> k = m >>= λ _. k

-- virtual_address & 0xffff_ff80_0000_0000: the bits from 39 to 63, in their place.
abbrev higher_bits : ℕ → ℕ
higher_bits virtual_address = shl (low_bits (shr virtual_address 39) 25) 39

abbrev higher_addr_mask : ℕ
higher_addr_mask = 0xffff_ff80_0000_0000

abbrev raise_if : Bool → String → Checked (Unit {0})
raise_if c message = if c then value_error message else ok tt

unfoldable pub validate_sv39_address : ℕ → Checked (Unit {0})
validate_sv39_address virtual_address = do
  let bit38 = nat_bit virtual_address 38
  let higher_all_zero = higher_bits virtual_address == 0
  let higher_all_one = higher_bits virtual_address == higher_addr_mask
  raise_if (not (higher_all_zero || higher_all_one))
      "Invalid Sv39 address: higher bits are not all 1"
  raise_if (not (bit38 && higher_all_one))
      "Invalid Sv39 address: higher bits do not match the 38th bit."

pub record Fields : Type 0 where
  pub vpn2 : ℕ
  pub vpn1 : ℕ
  pub vpn0 : ℕ
  pub page_offset : ℕ

unfoldable pub calculate_vpn_and_offset : ℕ → Checked Fields
unfolding validate_sv39_address
calculate_vpn_and_offset virtual_address = do
  validate_sv39_address virtual_address
  ok (record {
    vpn2 = low_bits (shr virtual_address 30) 9;
    vpn1 = low_bits (shr virtual_address 21) 9;
    vpn0 = low_bits (shr virtual_address 12) 9;
    page_offset = low_bits virtual_address 12;
  })

pub record Pte : Type 0 where
  pub ppn : ℕ
  pub v : Bool
  pub r : Bool
  pub w : Bool
  pub x : Bool
  pub u : Bool
  pub g : Bool
  pub a : Bool
  pub d : Bool

-- the assignments of `decode_sv39_pte`
unfoldable pub pte_fields : ℕ → Pte
pte_fields pte = record {
  ppn = shl (low_bits (shr pte 10) 44) 12;
  v = nat_bit pte 0;
  r = nat_bit pte 1;
  w = nat_bit pte 2;
  x = nat_bit pte 3;
  u = nat_bit pte 4;
  g = nat_bit pte 5;
  a = nat_bit pte 6;
  d = nat_bit pte 7;
}

abbrev letter : Bool → String → String
letter b l = if b then l else "-"

-- the line that `decode_sv39_pte` prints
unfoldable pub decode_sv39_pte : ℕ → String
unfolding pte_fields numeral
decode_sv39_pte pte =
    let f = pte_fields pte in
    concat (
      "Phys Addr: 0x"
      ∷ hex_upper f.ppn
      ∷ ", "
      ∷ letter f.d "D"
      ∷ letter f.a "A"
      ∷ letter f.g "G"
      ∷ letter f.u "U"
      ∷ letter f.x "X"
      ∷ letter f.w "W"
      ∷ letter f.r "R"
      ∷ letter f.v "V"
      ∷ [])

abbrev vpn_line : String → ℕ → ℕ → String
vpn_line label value width =
    concat (label ∷ decimal value ∷ " (0b" ∷ rjust width "0" (binary value) ∷ ")" ∷ [])

-- What the script prints; `number` is `int(…, 16)` of the second answer, and `none` its ValueError,
-- whose message is `bad_number`. A ValueError of the first action is not caught.
abbrev address_report : ℕ → Checked Fields → Checked (List String)
address_report virtual_address (value_error message) =
    ok (concat ("Invalid input: " ∷ message ∷ []) ∷ [])
address_report virtual_address (ok f) = ok (
    concat ("Virtual Address: 0x" ∷ hex_upper virtual_address ∷ [])
    ∷ vpn_line "VPN[2]: " f.vpn2 9
    ∷ vpn_line "VPN[1]: " f.vpn1 9
    ∷ vpn_line "VPN[0]: " f.vpn0 9
    ∷ vpn_line "Page Offset: " f.page_offset 12
    ∷ [])

explain_pte : Option ℕ → String → Checked (List String)
unfolding decode_sv39_pte
explain_pte none bad_number = value_error bad_number
explain_pte (some pte) bad_number =
    if leb (2 ^ 64) pte
    then value_error "PTE exceeds 64-bit range."
    else ok (decode_sv39_pte pte ∷ [])

check_address : Option ℕ → String → Checked (List String)
unfolding calculate_vpn_and_offset numeral
check_address none bad_number = ok (concat ("Invalid input: " ∷ bad_number ∷ []) ∷ [])
check_address (some virtual_address) bad_number = address_report virtual_address (
    if leb (2 ^ 64) virtual_address
    then value_error "Address exceeds 64-bit range."
    else calculate_vpn_and_offset virtual_address)

unfoldable pub main : String → Option ℕ → String → Checked (List String)
unfolding strip explain_pte check_address
main cmd number bad_number =
    if str_eq (strip cmd) "2"
    then explain_pte number bad_number
    else check_address number bad_number
