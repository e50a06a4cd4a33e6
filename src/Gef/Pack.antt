-- ===== src/Gef/Pack.antt =====
-- `p8` … `p64` and `u8` … `u64` of scripts/gef.py: `struct.pack` and `struct.unpack` of one integer.
pub mod RoundTrip
use mathlib.Core.List.{reverse}
use os_project_signal.Prelude.{
  ℕ, zero, suc, ◌+◌, ◌-◌, ◌*◌, ◌/◌, ◌%◌, ◌^◌, Bool, true, false, ◌&&◌, Option, none, some, List, [],
  ◌∷◌, length, ltb, leb, ◌==◌, if◌then◌else◌,
}
use os_project_signal.Prelude.Int.{ℤ, pos, negsuc}
use os_project_signal.Prelude.Result.{Result, ok, err, struct_error, ◌>>=◌, map_ok}
use os_project_signal.Gef.Elf.Enums.{Endianness, little_endian, big_endian}

-- The `width` low bytes of a number, the lowest first, and their value.
unfoldable pub bytes_of : ℕ → ℕ → List ℕ
bytes_of zero n = []
bytes_of (suc width) n = (n % 256) ∷ bytes_of width (n / 256)

unfoldable pub value_of : List ℕ → ℕ
value_of [] = 0
value_of (b ∷ bytes) = b + 256 * value_of bytes

abbrev pub ordered : Endianness → List ℕ → List ℕ
ordered little_endian bytes = bytes
ordered big_endian bytes = reverse bytes

-- `e or gef.arch.endianness`
abbrev pub endian_or : Option Endianness → Endianness → Endianness
endian_or none arch_endianness = arch_endianness
endian_or (some e) arch_endianness = e

-- The pattern of `width` bytes that stands for an integer; `struct.error` where it does not fit.
unfoldable pub pattern_of : ℕ → Bool → ℤ → Result ℕ
pattern_of width false (pos n) = if ltb n (2 ^ (8 * width)) then ok n else err struct_error
pattern_of width false (negsuc n) = err struct_error
pattern_of width true (pos n) = if ltb n (2 ^ (8 * width - 1)) then ok n else err struct_error
pattern_of width true (negsuc n) =
    if ltb n (2 ^ (8 * width - 1)) then ok (2 ^ (8 * width) - 1 - n) else err struct_error

-- p8, p16, p32 and p64 are the widths 1, 2, 4 and 8.
unfoldable pub pack : ℕ → ℤ → Bool → Endianness → Option Endianness → Result (List ℕ)
unfolding bytes_of pattern_of
pack width x s arch_endianness e =
    map_ok (λ n. ordered (endian_or e arch_endianness) (bytes_of width n)) (pattern_of width s x)

-- The integer that a pattern of `width` bytes stands for.
unfoldable pub integer_of : ℕ → Bool → ℕ → ℤ
integer_of width false n = pos n
integer_of width true n =
    if ltb n (2 ^ (8 * width - 1)) then pos n else negsuc (2 ^ (8 * width) - 1 - n)

-- u8, u16, u32 and u64.
unfoldable pub unpack : ℕ → List ℕ → Bool → Endianness → Option Endianness → Result ℤ
unfolding value_of integer_of
unpack width x s arch_endianness e =
    if length x == width
    then ok (integer_of width s (value_of (ordered (endian_or e arch_endianness) x)))
    else err struct_error
