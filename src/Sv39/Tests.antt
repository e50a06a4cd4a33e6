-- ===== src/Sv39/Tests.antt =====
-- The last page of the address space and a leaf entry, as inputs of the theorems.
use os_project_signal.Prelude.{◌+◌, ◌-◌, ◌*◌, ◌≤◌, ◌<◌, ◌^◌, ◌≡◌, ◌↔◌, true, false, refl, arith}
use os_project_signal.Sv39.{
  ok, Fields, validate_sv39_address, calculate_vpn_and_offset, Pte, pte_fields,
}
use os_project_signal.Sv39.Validity.{validate_iff}
use os_project_signal.Sv39.Layout.{calculate-recompose, encode, pte_fields-encode}

validate_example :
    (validate_sv39_address 0xffff_ffff_ffff_f123 ≡ ok tt)
    ↔ (2 ^ 64 - 2 ^ 38 ≤ 0xffff_ffff_ffff_f123)
validate_example = validate_iff 0xffff_ffff_ffff_f123 (omega arith)

abbrev fields : Fields
fields = record { vpn2 = 511; vpn1 = 511; vpn0 = 511; page_offset = 0x123 }

fields_lem : calculate_vpn_and_offset 0xffff_ffff_ffff_f123 ≡ ok fields
unfolding calculate_vpn_and_offset
fields_lem = refl

recompose_example :
    (0xffff_ffff_ffff_f123 ≡ 2 ^ 64 - 2 ^ 39 + 511 * 2 ^ 30 + 511 * 2 ^ 21 + 511 * 2 ^ 12 + 0x123)
    × (511 < 512)
    × (511 < 512)
    × (511 < 512)
    × (0x123 < 4096)
recompose_example = calculate-recompose 0xffff_ffff_ffff_f123 (omega arith) fields_lem

abbrev leaf : Pte
leaf = record {
  ppn = 0;
  v = true;
  r = true;
  w = false;
  x = true;
  u = true;
  g = false;
  a = true;
  d = false;
}

pte_fields-encode_example :
    pte_fields (encode leaf 0x80200 1 0) ≡ record leaf { ppn = 0x80200 * 2 ^ 12 }
pte_fields-encode_example = pte_fields-encode leaf 0x80200 1 0 (omega arith) (omega arith)
