-- ===== src/Kernel/Pages.antt =====
-- The page allocator of os/kalloc.c. A free page is linked through its first word; `words` is what
-- stands there, by the kernel's address of the page, and the rest of a page is left out. The lock is
-- held where the list is read and changed.
pub mod Free
pub mod Initial
mod Tests
use os_project_signal.Prelude.{
  ℕ, zero, suc, ◌+◌, ◌-◌, ◌*◌, ◌/◌, ◌%◌, ◌^◌, Bool, true, false, not, ◌&&◌, ◌||◌, Option, none,
  some, ◌==◌, leb, ltb, if◌then◌else◌,
}
use os_project_signal.Signal.Memory.{pgsize}
use os_project_signal.Signal.State.{set_at}
use os_project_signal.Kernel.Kalloc.{word}

abbrev pub kernel_direct_mapping_base : ℕ
kernel_direct_mapping_base = 0xffff_ffc0_0000_0000

abbrev pub kva_to_pa : ℕ → ℕ
kva_to_pa kva = word (kva + (2 ^ 64 - kernel_direct_mapping_base))

abbrev pub pa_to_kva : ℕ → ℕ
pa_to_kva pa = word (pa + kernel_direct_mapping_base)

abbrev pub pgaligned : ℕ → Bool
pgaligned a = a % pgsize == 0

-- `kmem.freelist`, and the globals of the allocator.
pub record PageAllocator : Type 0 where
  pub freelist : ℕ
  pub freepages_count : ℕ
  pub kpage_allocator_base : ℕ
  pub kpage_allocator_size : ℕ
  pub words : ℕ → ℕ

abbrev pub in_range : ℕ → PageAllocator → Bool
in_range kvaddr s =
    leb s.kpage_allocator_base kvaddr
    && ltb kvaddr (word (s.kpage_allocator_base + s.kpage_allocator_size))

-- `none` where it panics.
unfoldable pub kfreepage : ℕ → PageAllocator → Option PageAllocator
kfreepage pa s =
    let kvaddr = pa_to_kva pa in
    if not (pgaligned pa) || not (in_range kvaddr s)
    then none
    else some (record s {
      words = set_at s.words kvaddr s.freelist;
      freelist = kvaddr;
      freepages_count = word (s.freepages_count + 1);
    })

-- The page, or 0. A page that is given out is filled with 0xaf.
unfoldable pub kallocpage : PageAllocator → PageAllocator × ℕ
kallocpage s = if s.freelist == 0 then (s, 0) else (
  record s {
    freelist = s.words s.freelist;
    freepages_count = word (s.freepages_count + (2 ^ 64 - 1));
    words = set_at s.words s.freelist 0xafaf_afaf_afaf_afaf;
  },
  kva_to_pa s.freelist,
)

-- The loop from the page `p` down to the base, of at most `fuel` turns, the last one among them.
unfoldable pub free_pages : ℕ → ℕ → PageAllocator → Option PageAllocator
unfolding kfreepage
free_pages zero p s = none
free_pages (suc fuel) p s =
    if not (leb s.kpage_allocator_base p) then some s else elim (kfreepage (kva_to_pa p) s) [
      | none ↦ none
      | some s' ↦ free_pages fuel (word (p + (2 ^ 64 - pgsize))) s'
    ]

-- One turn for each page of the range and one that ends the loop are enough: `kfreepage` panics at an
-- address out of the range.
unfoldable pub kpgmgrinit : PageAllocator → Option PageAllocator
unfolding free_pages
kpgmgrinit s =
    let kpage_allocator_end = word (s.kpage_allocator_base + s.kpage_allocator_size) in
    if not (pgaligned s.kpage_allocator_base && pgaligned kpage_allocator_end)
    then none
    else free_pages (suc (s.kpage_allocator_size / pgsize))
        (word (kpage_allocator_end + (2 ^ 64 - pgsize))) s
