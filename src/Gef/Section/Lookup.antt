-- ===== src/Gef/Section/Lookup.antt =====
-- The look-up of an address in the memory map, and sections that overlap.
use os_project_signal.Prelude.{
  ℕ, ◌≤◌, ◌<◌, ◌≡◌, ◌⊎◌, ◌↔◌, inl, inr, refl, min, max, Bool, true, false, Bool-cases, Option, none,
  some, List, [], ◌∷◌, ◌++◌, ap, arith, ltb,
}
use os_project_signal.Gef.Address.Bounds.{not-is_in_x86_kernel}
use os_project_signal.Gef.Section.{
  Section, contains, overlaps, valid, find_section, process_lookup_address,
}

-- What a look-up of `address` in the sections `maps` may return: the first section that contains the
-- address, or none if no section does.
abbrev pub FirstOf : List Section → ℕ → Option Section → Type 0
FirstOf maps address none = valid maps address ≡ false
FirstOf maps address (some s) =
    (before : List Section) × (after : List Section) × (maps ≡ before ++ s ∷ after)
    × (valid before address ≡ false)
    × (contains s address ≡ true)

FirstOf-later :
    (s : Section) (maps : List Section) (address : ℕ) (found : Option Section)
    → contains s address ≡ false
    → FirstOf maps address found
    → FirstOf (s ∷ maps) address found
unfolding valid
FirstOf-later s maps address none outside h = rw outside h
FirstOf-later s maps address (some t) outside (before, after, split, none_before, inside) =
    (s ∷ before, after, ap (λ l. s ∷ l) split, rw outside none_before, inside)

find_section-FirstOf :
    (maps : List Section) (address : ℕ) → FirstOf maps address (find_section maps address)
unfolding find_section valid contains
find_section-FirstOf [] address = refl
find_section-FirstOf (s ∷ maps) address = elim (Bool-cases (contains s address)) [
  | inl inside ↦ rw inside ([], maps, refl, refl, inside)
  | inr outside ↦
      rw outside (FirstOf-later s maps address _ outside (find_section-FirstOf maps address))
]

-- In a live program with pointers of 4 or 8 bytes, on every architecture, the look-up of an address
-- returns the first section that contains it, and nothing exactly where no section does.
pub process_lookup_address_lem :
    (is_x86 : Bool) (ptrsize address : ℕ) (maps : List Section)
    → (ptrsize ≡ 4) ⊎ (ptrsize ≡ 8)
    → FirstOf maps address (process_lookup_address true is_x86 ptrsize maps address)
unfolding process_lookup_address
process_lookup_address_lem true ptrsize address maps h =
    rw (not-is_in_x86_kernel ptrsize address h) (find_section-FirstOf maps address)
process_lookup_address_lem false ptrsize address maps h = find_section-FirstOf maps address

-- Two intervals that meet share the larger of their first elements, or touch.
meet :
    (a b c d : ℕ)
    → a < b
    → c < d
    → max a c ≤ min b d
    → ((max a c < b) × (max a c < d)) ⊎ ((b ≡ c) ⊎ (d ≡ a))
meet a b c d h k m = elim (Bool-cases (ltb (max a c) (min b d))) [
  | inl below ↦ inl (ground arith, ground arith)
  | inr above ↦ inr (ground arith)
]

-- Of two sections with at least one byte each, `overlaps` says true exactly when they share an address
-- or when one of them ends where the other begins.
pub overlaps_iff :
    (s t : Section)
    → s.page_start < s.page_end
    → t.page_start < t.page_end
    → (overlaps s t ≡ true) ↔ (
        ((a : ℕ) × (contains s a ≡ true) × (contains t a ≡ true))
        ⊎ ((s.page_end ≡ t.page_start) ⊎ (t.page_end ≡ s.page_start)))
unfolding overlaps contains
overlaps_iff s t hs ht = (
  λ e. elim (meet s.page_start s.page_end t.page_start t.page_end hs ht (ground arith)) [
    | inl (p, q) ↦ inl (max s.page_start t.page_start, ground arith, ground arith)
    | inr touching ↦ inr touching
  ],
  λ shared. elim shared [
    | inl (a, p, q) ↦ ground arith
    | inr (inl e) ↦ ground arith
    | inr (inr e) ↦ ground arith
  ],
)
