-- ===== src/Kernel/Pages/Tests.antt =====
-- An allocator of two pages.
use os_project_signal.Prelude.{ℕ, ◌+◌, ◌≡◌, refl, some, List, [], ◌∷◌, arith}
use os_project_signal.Kernel.System.Counts.{count}
use os_project_signal.Kernel.Pages.{
  kernel_direct_mapping_base, kva_to_pa, PageAllocator, kallocpage, kpgmgrinit,
}
use os_project_signal.Kernel.Pages.Free.{IsPage, IsRange, IsPages, kallocpage-IsPages}
use os_project_signal.Kernel.Pages.Initial.{kpgmgrinit-IsPages}

abbrev first_page : ℕ
first_page = kernel_direct_mapping_base + 0x80200000

abbrev two_pages : ℕ → ℕ → PageAllocator
two_pages freelist count' = record {
  freelist = freelist;
  freepages_count = count';
  kpage_allocator_base = first_page;
  kpage_allocator_size = 8192;
  words = λ p. 0;
}

two_pages-IsRange : IsRange (two_pages 0 0)
two_pages-IsRange = record {
  mapped = omega arith;
  fits = omega arith;
  base_aligned = refl;
  size_aligned = refl;
}

first_free : IsPages (two_pages first_page 1) (first_page ∷ [])
first_free = record {
  linked = (refl, (λ e. omega arith), refl);
  counted = refl;
  few = omega arith;
  once = λ p. ground arith;
  pages = λ p h. at_first p (ground arith);
}
  where
    at_first : (p : ℕ) → first_page ≡ p → IsPage (two_pages first_page 1) p
    at_first p e = (omega arith, omega arith, omega arith)

kpgmgrinit-IsPages_example :
    (s' : PageAllocator) × (free : List ℕ) × (kpgmgrinit (two_pages 0 0) ≡ some s')
    × IsPages s' free
    × ((p : ℕ) → IsPage s' p → count p free ≡ 1)
kpgmgrinit-IsPages_example = kpgmgrinit-IsPages (two_pages 0 0) two_pages-IsRange refl refl

kallocpage-IsPages_example :
    (s' : PageAllocator) × (kallocpage (two_pages first_page 1) ≡ (s', kva_to_pa first_page))
    × IsPages s' []
    × IsPage (two_pages first_page 1) first_page
    × (count first_page [] ≡ 0)
kallocpage-IsPages_example = kallocpage-IsPages (two_pages first_page 1) first_page [] first_free
