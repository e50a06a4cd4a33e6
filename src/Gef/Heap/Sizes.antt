-- ===== src/Gef/Heap/Sizes.antt =====
-- The sizes of chunks and the alignment of addresses in the heap.
use native.Mathlib.Nat.{mod-lt, div-add-mod, mul-mod_left}
use os_project_signal.Prelude.{
  ℕ, ◌+◌, ◌-◌, ◌*◌, ◌/◌, ◌%◌, ◌^◌, ◌≤◌, ◌<◌, ◌≡◌, ◌⊎◌, inl, inr, Option, Bool-cases, refl, ◌&&◌,
  lt→ltb, arith,
}
use os_project_signal.Gef.Heap.Manager.{
  Heap, at_least, distance, malloc_alignment, min_chunk_size, csize2tidx, tidx2size, round_53,
  malloc_align_address,
}
use os_project_signal.Gef.Heap.Arena.{heap_max_size, get_heap_for_ptr}

-- The pointers of a target have 4 or 8 bytes, and those of 32-bit x86 have 4.
pub record Sized (h : Heap) : Type 0 where
  pub size_lem : (h.ptrsize ≡ 4) ⊎ (h.ptrsize ≡ 8)

-- The three pairs of a pointer size and an alignment.
abbrev Sizes : ℕ → ℕ → Type 0
Sizes p m = ((p ≡ 4) × (m ≡ 8)) ⊎ (((p ≡ 4) × (m ≡ 16)) ⊎ ((p ≡ 8) × (m ≡ 16)))

Sized-Sizes : (h : Heap) → Sized h → Sizes h.ptrsize (malloc_alignment h)
unfolding malloc_alignment
Sized-Sizes h sized = elim (Bool-cases (at_least h.version 2 26 && h.is_x86_32)) [
  | inl wide ↦ elim sized.size_lem [
    | inl e ↦ inr (inl (e, rw wide refl))
    | inr e ↦ inr (inr (e, rw wide refl))
  ]
  | inr plain ↦ elim sized.size_lem [
    | inl e ↦ inl (e, rw (plain, e) refl)
    | inr e ↦ inr (inr (e, rw (plain, e) refl))
  ]
]

tidx-of_size : (p m idx : ℕ) → Sizes p m → distance (idx * m + 4 * p + m) (4 * p + 1) / m ≡ idx
tidx-of_size p m idx (inl (e, f)) = rw (e, f) (omega arith)
tidx-of_size p m idx (inr (inl (e, f))) = rw (e, f) (omega arith)
tidx-of_size p m idx (inr (inr (e, f))) = rw (e, f) (omega arith)

first_bin :
    (p m size : ℕ)
    → Sizes p m
    → 4 * p ≤ size
    → (size ≤ distance (size + m) (4 * p + 1) / m * m + 4 * p)
      × (distance (size + m) (4 * p + 1) / m * m + 4 * p < size + m)
first_bin p m size (inl (e, f)) large =
    let h : 16 ≤ size = omega arith in rw (e, f) (omega (arith, h), omega (arith, h))
first_bin p m size (inr (inl (e, f))) large =
    let h : 16 ≤ size = omega arith in rw (e, f) (omega (arith, h), omega (arith, h))
first_bin p m size (inr (inr (e, f))) large =
    let h : 32 ≤ size = omega arith in rw (e, f) (omega (arith, h), omega (arith, h))

least_multiple :
    (p m a : ℕ)
    → Sizes p m
    → ((a + m - 1) / m * m % m ≡ 0) × (a ≤ (a + m - 1) / m * m) × ((a + m - 1) / m * m < a + m)
least_multiple p m a (inl (e, f)) = rw f (omega arith, omega arith, omega arith)
least_multiple p m a (inr (inl (e, f))) = rw f (omega arith, omega arith, omega arith)
least_multiple p m a (inr (inr (e, f))) = rw f (omega arith, omega arith, omega arith)

-- The tcache bin of the size that belongs to an index is that index, on every target and version.
pub csize2tidx-tidx2size : (h : Heap) (idx : ℕ) → Sized h → csize2tidx h (tidx2size h idx) ≡ idx
unfolding csize2tidx tidx2size
csize2tidx-tidx2size h idx sized =
    tidx-of_size h.ptrsize (malloc_alignment h) idx (Sized-Sizes h sized)

-- The bin of a size that is not below the smallest chunk is the first one whose chunks are large
-- enough.
pub tidx2size-csize2tidx :
    (h : Heap) (size : ℕ)
    → Sized h
    → min_chunk_size h ≤ size
    → (size ≤ tidx2size h (csize2tidx h size))
      × (tidx2size h (csize2tidx h size) < size + malloc_alignment h)
unfolding csize2tidx tidx2size
tidx2size-csize2tidx h size sized large =
    first_bin h.ptrsize (malloc_alignment h) size (Sized-Sizes h sized) large

-- Below 2 ^ 53, where the division of floats is exact, `malloc_align_address` gives the least multiple
-- of the alignment that is not below the address.
pub malloc_align_address_lem :
    (h : Heap) (address : ℕ)
    → Sized h
    → address < 2 ^ 53
    → (malloc_align_address h address % malloc_alignment h ≡ 0)
      × (address ≤ malloc_align_address h address)
      × (malloc_align_address h address < address + malloc_alignment h)
unfolding malloc_align_address round_53
malloc_align_address_lem h address sized small =
    rw (lt→ltb address (2 ^ 53) small)
      (least_multiple h.ptrsize (malloc_alignment h) address (Sized-Sizes h sized))

-- The heap of a pointer begins at a multiple of the largest heap size, at the pointer or less than that
-- size below it, and every pointer of the same heap leads to the same place.
pub get_heap_for_ptr_lem :
    (h : Heap) (sizeof_long : Option ℕ) (ptr : ℕ)
    → 0 < heap_max_size h sizeof_long
    → (get_heap_for_ptr h sizeof_long ptr % heap_max_size h sizeof_long ≡ 0)
      × (get_heap_for_ptr h sizeof_long ptr ≤ ptr)
      × (ptr < get_heap_for_ptr h sizeof_long ptr + heap_max_size h sizeof_long)
unfolding get_heap_for_ptr
get_heap_for_ptr_lem h sizeof_long ptr large =
    let m = heap_max_size h sizeof_long in
    let below = mod-lt ptr large in
    let split = div-add-mod ptr m in
    (mul-mod_left (ptr / m) m, omega (arith, below, split), omega (arith, below, split))
