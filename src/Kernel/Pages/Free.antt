-- ===== src/Kernel/Pages/Free.antt =====
-- The page allocator gives out each page once, until it is freed.
use os_project_signal.Prelude.{
  ℕ, ◌+◌, ◌-◌, ◌%◌, ◌^◌, ◌≤◌, ◌<◌, ◌≡◌, refl, ap, inl, inr, true, false, Bool-cases, some, List, [],
  ◌∷◌, length, ◌==◌, arith,
}
use os_project_signal.Signal.Memory.{pgsize}
use os_project_signal.Signal.State.{set_at}
use os_project_signal.Kernel.System.Counts.{count}
use os_project_signal.Kernel.Kalloc.{word}
use os_project_signal.Kernel.Kalloc.Headers.{IsLinked, IsLinked-set_at}
use os_project_signal.Kernel.Pages.{
  kernel_direct_mapping_base, kva_to_pa, pa_to_kva, pgaligned, PageAllocator, in_range, kfreepage,
  kallocpage,
}

-- A page of the allocator, by the kernel's address.
abbrev pub IsPage : PageAllocator → ℕ → Type 0
IsPage s p =
    (p % pgsize ≡ 0)
    × (s.kpage_allocator_base ≤ p)
    × (p < s.kpage_allocator_base + s.kpage_allocator_size)

-- The range of the allocator lies in the direct mapping.
pub record IsRange (s : PageAllocator) : Type 0 where
  pub mapped : kernel_direct_mapping_base < s.kpage_allocator_base
  pub fits : s.kpage_allocator_base + s.kpage_allocator_size < 2 ^ 64
  pub base_aligned : s.kpage_allocator_base % pgsize ≡ 0
  pub size_aligned : s.kpage_allocator_size % pgsize ≡ 0

-- The pages `free` are free, and all others are given out.
pub record IsPages (s : PageAllocator) (free : List ℕ) : Type 0 where
  pub linked : IsLinked s.words s.freelist free
  pub counted : s.freepages_count ≡ length free
  pub few : length free < 2 ^ 52
  pub once : (p : ℕ) → count p free ≤ 1
  pub pages : (p : ℕ) → 0 < count p free → IsPage s p

-- Without a free page the answer is 0.
pub kallocpage-empty : (s : PageAllocator) → IsPages s [] → kallocpage s ≡ (s, 0)
unfolding kallocpage
kallocpage-empty s v =
    let null : (s.freelist == 0) ≡ true = let l = v.linked in ground arith in rw null

-- What `kallocpage` leaves behind.
abbrev taken : PageAllocator → PageAllocator
taken s = record s {
  freelist = s.words s.freelist;
  freepages_count = word (s.freepages_count + (2 ^ 64 - 1));
  words = set_at s.words s.freelist 0xafaf_afaf_afaf_afaf;
}

count_self : (x : ℕ) (free : List ℕ) → count x (x ∷ free) ≡ 1 + count x free
count_self x free = let same : (x == x) ≡ true = ground arith in rw same

-- With a page free `kallocpage` gives out the first free page, which is a page of the allocator and no
-- free page any more, and the others are as they were.
pub kallocpage-IsPages :
    (s : PageAllocator) (x : ℕ) (free : List ℕ)
    → IsPages s (x ∷ free)
    → (s' : PageAllocator) × (kallocpage s ≡ (s', kva_to_pa x))
      × IsPages s' free
      × IsPage s x
      × (count x free ≡ 0)
unfolding kallocpage
kallocpage-IsPages s x free v =
    let (at_x, there, rest) = v.linked in
    let here = count_self x free in
    let most = v.once x in
    let absent : count x free ≡ 0 = omega arith in
    let not_null : (s.freelist == 0) ≡ false = ground arith in
    let n = v.counted in
    let few = v.few in
    (
      taken s,
      rw (not_null) (ap (λ p. (taken s, kva_to_pa p)) at_x),
      record {
        linked =
            rw at_x (IsLinked-set_at s.words (s.words x) x 0xafaf_afaf_afaf_afaf free absent rest);
        counted = omega arith;
        few = omega arith;
        once = λ p. let m = v.once p in omega arith;
        pages = λ p h. v.pages p (omega arith);
      },
      v.pages x (omega arith),
      absent,
    )

-- What `kfreepage` leaves behind for the page `p`.
abbrev given_back : PageAllocator → ℕ → PageAllocator
given_back s p = record s {
  words = set_at s.words p s.freelist;
  freelist = p;
  freepages_count = word (s.freepages_count + 1);
}

kfreepage-lem :
    (s : PageAllocator) (p : ℕ)
    → IsRange s
    → IsPage s p
    → kfreepage (kva_to_pa p) s ≡ some (given_back s p)
unfolding kfreepage
kfreepage-lem s p r (aligned, low, high) =
    let back : pa_to_kva (kva_to_pa p) ≡ p = omega (arith, r.mapped, r.fits) in
    let even : pgaligned (kva_to_pa p) ≡ true =
      let zero_rest : kva_to_pa p % pgsize ≡ 0 = omega (arith, r.mapped, r.fits) in ground arith in
    let inside : in_range p s ≡ true = let f = r.fits in ground arith in rw (back, even, inside)

-- `kfreepage` of a page of the allocator that is not free makes it the first free one.
pub kfreepage-IsPages :
    (s : PageAllocator) (p : ℕ) (free : List ℕ)
    → IsRange s
    → IsPages s free
    → IsPage s p
    → count p free ≡ 0
    → length free + 1 < 2 ^ 52
    → (s' : PageAllocator) × (kfreepage (kva_to_pa p) s ≡ some s')
      × IsPages s' (p ∷ free)
      × (s'.kpage_allocator_base ≡ s.kpage_allocator_base)
      × (s'.kpage_allocator_size ≡ s.kpage_allocator_size)
kfreepage-IsPages s p free r v page absent few =
    let n = v.counted in
    (
      given_back s p,
      kfreepage-lem s p r page,
      record {
        linked = (refl, (λ e. omega (arith, page.1, r.mapped)), linked_behind);
        counted = omega arith;
        few = omega arith;
        once = λ q. once_more q (v.once q);
        pages = λ q h. page_of q h;
      },
      refl,
      refl,
    )
  where
    linked_behind : IsLinked (set_at s.words p s.freelist) (set_at s.words p s.freelist p) free
    linked_behind =
        let here : (p == p) ≡ true = ground arith in
        rw here (IsLinked-set_at s.words s.freelist p s.freelist free absent v.linked)

    once_more : (q : ℕ) → count q free ≤ 1 → count q (p ∷ free) ≤ 1
    once_more q most = elim (Bool-cases (p == q)) [
      | inl same ↦
          let at_q : p ≡ q = ground arith in
          let absent' : count q free ≡ 0 = rw at_q at absent in rw same (omega arith)
      | inr other ↦ rw other (omega arith)
    ]

    page_of : (q : ℕ) → 0 < count q (p ∷ free) → IsPage s q
    page_of q h = elim (Bool-cases (p == q)) [
      | inl same ↦ let at_q : p ≡ q = ground arith in rw at_q at page
      | inr other ↦ let h' = rw other at h in v.pages q (omega arith)
    ]
