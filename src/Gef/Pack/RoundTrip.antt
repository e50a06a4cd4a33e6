-- ===== src/Gef/Pack/RoundTrip.antt =====
-- What is packed is unpacked to the same integer.
use mathlib.Core.List.{reverse, reverse-reverse, reverse-cons}
use native.Mathlib.Nat.{pow-suc}
use os_project_signal.Prelude.{
  ℕ, zero, suc, ◌*◌, ◌/◌, ◌^◌, ◌<◌, ◌-◌, ◌≡◌, refl, ap, inl, inr, Bool, true, false, Option, List,
  [], ◌∷◌, length, length-append, arith,
}
use os_project_signal.Prelude.Int.{ℤ, pos, negsuc}
use os_project_signal.Prelude.Result.{ok, Result-cases, ok-injective}
use os_project_signal.Gef.Elf.Enums.{Endianness, little_endian, big_endian}
use os_project_signal.Gef.Pack.{
  bytes_of, value_of, ordered, endian_or, pattern_of, integer_of, pack, unpack,
}

pub length-bytes_of : (width n : ℕ) → length (bytes_of width n) ≡ width
unfolding bytes_of
length-bytes_of zero n = refl
length-bytes_of (suc width) n = ap suc (length-bytes_of width (n / 256))

pub value_of-bytes_of : (width n : ℕ) → n < 256 ^ width → value_of (bytes_of width n) ≡ n
unfolding bytes_of value_of
value_of-bytes_of zero n h = omega arith
value_of-bytes_of (suc width) n h =
    let step = pow-suc 256 width in
    omega (arith, step, value_of-bytes_of width (n / 256) (omega (arith, step)))

length-reverse {ℓ} : {A : Type ℓ} (l : List A) → length (reverse l) ≡ length l
length-reverse [] = refl
length-reverse (x ∷ l) =
    rw (reverse-cons x l) (omega (arith, length-append (reverse l) (x ∷ []), length-reverse l))

pub length-ordered : (e : Endianness) (l : List ℕ) → length (ordered e l) ≡ length l
length-ordered little_endian l = refl
length-ordered big_endian l = length-reverse l

pub ordered-ordered : (e : Endianness) (l : List ℕ) → ordered e (ordered e l) ≡ l
ordered-ordered little_endian l = refl
ordered-ordered big_endian l = reverse-reverse l

pub pow_bytes : (width : ℕ) → 2 ^ (8 * width) ≡ 256 ^ width
pow_bytes zero = refl
pow_bytes (suc width) =
    let e : 8 * suc width ≡ suc (suc (suc (suc (suc (suc (suc (suc (8 * width)))))))) =
      omega arith in
    rw (e, pow-suc 256 width) (simp pow-suc (omega (arith, pow_bytes width)))

pub pow_half : (width : ℕ) → 0 < width → 2 ^ (8 * width) ≡ 2 * 2 ^ (8 * width - 1)
pow_half width h =
    let e : 8 * width ≡ suc (8 * width - 1) = omega arith in
    rw (ap (λ (t : ℕ). 2 ^ t) e) (omega (arith, pow-suc 2 (8 * width - 1)))

pattern-lt :
    (width : ℕ) (s : Bool) (x : ℤ) {n : ℕ}
    → 0 < width
    → pattern_of width s x ≡ ok n
    → n < 2 ^ (8 * width)
unfolding pattern_of
pattern-lt width false (pos m) p h = ground arith
pattern-lt width false (negsuc m) p h = cc
pattern-lt width true (pos m) p h = ground (arith, pow_half width)
pattern-lt width true (negsuc m) p h = ground (arith, pow_half width)

integer_of-pattern :
    (width : ℕ) (s : Bool) (x : ℤ) {n : ℕ}
    → 0 < width
    → pattern_of width s x ≡ ok n
    → integer_of width s n ≡ x
unfolding pattern_of integer_of
integer_of-pattern width false (pos m) p h = ground arith
integer_of-pattern width false (negsuc m) p h = cc
integer_of-pattern width true (pos m) p h = ground (arith, pow_half width)
integer_of-pattern width true (negsuc m) p h = ground (arith, pow_half width)

unpack-ordered :
    (width n : ℕ) (s : Bool) (arch : Endianness) (e : Option Endianness)
    → n < 2 ^ (8 * width)
    → unpack width (ordered (endian_or e arch) (bytes_of width n)) s arch e
      ≡ ok (integer_of width s n)
unfolding unpack
unpack-ordered width n s arch e h =
    rw
      (
        length-ordered,
        length-bytes_of,
        ordered-ordered,
        value_of-bytes_of width n (rw (← pow_bytes width) h),
      )
      (ground arith)

-- An integer that `pack` accepts, at any width of a byte or more, signed or not and in either byte
-- order, comes back from `unpack` with the same width, sign and order.
pub unpack-pack :
    (width : ℕ) (x : ℤ) (s : Bool) (arch : Endianness) (e : Option Endianness) {bytes : List ℕ}
    → 0 < width
    → pack width x s arch e ≡ ok bytes
    → unpack width bytes s arch e ≡ ok x
unfolding pack
unpack-pack width x s arch e {bytes} p h = elim (Result-cases (pattern_of width s x)) [
  | inl (n, fits) ↦
      let same : ordered (endian_or e arch) (bytes_of width n) ≡ bytes =
        ok-injective (rw fits at h) in
      rw (← same) (
        rw (unpack-ordered width n s arch e (pattern-lt width s x p fits))
          (rw (integer_of-pattern width s x p fits)))
  | inr (x', raised) ↦ cc (h, raised)
]
