-- ===== src/Gef/Heap/Manager.antt =====
-- The sizes and the alignment of `GefHeapManager` in scripts/gef.py, and what the heap classes ask of
-- GDB.
use os_project_signal.Prelude.{
  ℕ, zero, suc, ◌+◌, ◌-◌, ◌*◌, ◌/◌, ◌%◌, ◌^◌, Bool, ◌&&◌, ◌||◌, List, ltb, leb, ◌==◌, if◌then◌else◌,
}
use os_project_signal.Prelude.Result.{Result}
use os_project_signal.Gef.Elf.Enums.{Endianness}
use os_project_signal.Gef.Section.{Section}

-- The target, as far as the heap classes use it. `version` is `gef.libc.version`, which the code
-- asserts to be known.
pub record Heap : Type 0 where
  pub ptrsize : ℕ
  pub version : ℕ × ℕ
  pub is_x86_32 : Bool
  -- `gef.memory.read(addr, length)`: as many bytes, or an exception
  pub read : ℕ → ℕ → Result (List ℕ)
  -- `gef.memory.read_integer(addr)`
  pub read_integer : ℕ → Result ℕ
  -- `gef.memory.maps`
  pub maps : List Section
  -- the byte order of the machine that runs GDB, in which `ctypes` reads a structure
  pub host : Endianness

-- version >= (major, minor), of tuples
abbrev pub at_least : ℕ × ℕ → ℕ → ℕ → Bool
at_least (a, b) major minor = ltb major a || (a == major && leb minor b)

unfoldable pub min_chunk_size : Heap → ℕ
min_chunk_size h = 4 * h.ptrsize

unfoldable pub malloc_alignment : Heap → ℕ
malloc_alignment h = if at_least h.version 2 26 && h.is_x86_32 then 0x10 else 2 * h.ptrsize

-- abs(a - b)
abbrev pub distance : ℕ → ℕ → ℕ
distance a b = (a - b) + (b - a)

unfoldable pub csize2tidx : Heap → ℕ → ℕ
unfolding min_chunk_size malloc_alignment
csize2tidx h size = distance (size + malloc_alignment h) (min_chunk_size h + 1) / malloc_alignment h

unfoldable pub tidx2size : Heap → ℕ → ℕ
unfolding min_chunk_size malloc_alignment
tidx2size h idx = idx * malloc_alignment h + min_chunk_size h

-- n.bit_length(), with fuel for as many bits as `n`
bit_length : ℕ → ℕ → ℕ
bit_length zero n = 0
bit_length (suc fuel) n = let rest = bit_length fuel (n / 2) in if n == 0 then 0 else suc rest

-- An integer rounded to the 53 bits of a float, half to even: the error of a true division by a
-- power of two.
unfoldable pub round_53 : ℕ → ℕ
unfolding bit_length
round_53 n =
    if ltb n (2 ^ 53)
    then n
    else let e = bit_length n n - 53 in
      let q = n / 2 ^ e in
      let r = n % 2 ^ e in
      (if ltb (2 * r) (2 ^ e) then q else if ltb (2 ^ e) (2 * r) then q + 1 else q + q % 2) * 2 ^ e

-- `malloc_align_address`: m * ceil(address / m), where `/` is the division of floats and `m`, 8 or 16
-- on every target, is a power of two.
unfoldable pub malloc_align_address : Heap → ℕ → ℕ
unfolding malloc_alignment round_53
malloc_align_address h address = let m = malloc_alignment h in (round_53 address + m - 1) / m * m
