-- ===== src/Kernel/Pages/Initial.antt =====
-- `kpgmgrinit` frees every page.
use os_project_signal.Prelude.{
  false, none, not, ap, if◌then◌else◌, leb, ℕ, zero, suc, ◌+◌, ◌-◌, ◌*◌, ◌/◌, ◌%◌, ◌^◌, ◌≤◌, ◌<◌,
  ◌≡◌, refl, ◌∙◌, inl, inr, true, ◌&&◌, Bool-cases, Option, some, List, [], ◌∷◌, length, ◌==◌,
  arith,
}
use os_project_signal.Signal.Memory.{pgsize}
use os_project_signal.Kernel.System.Counts.{count}
use os_project_signal.Kernel.Kalloc.{word}
use os_project_signal.Kernel.Pages.{
  kva_to_pa, pgaligned, PageAllocator, kfreepage, free_pages, kpgmgrinit,
}
use os_project_signal.Kernel.Pages.Free.{IsPage, IsRange, IsPages, kfreepage-IsPages}

-- Exactly the pages from `p` on are free.
abbrev FreeFrom : PageAllocator → ℕ → List ℕ → Type 0
FreeFrom s p free =
    ((q : ℕ) → q < p → count q free ≡ 0) × ((q : ℕ) → p ≤ q → IsPage s q → count q free ≡ 1)

-- Two allocators over the same pages.
abbrev SameRange : PageAllocator → PageAllocator → Type 0
SameRange s s' =
    (s'.kpage_allocator_base ≡ s.kpage_allocator_base)
    × (s'.kpage_allocator_size ≡ s.kpage_allocator_size)

-- One more page is freed, the one in front of `p`.
one_more :
    (s : PageAllocator) (p : ℕ) (free : List ℕ)
    → IsRange s
    → p % pgsize ≡ 0
    → s.kpage_allocator_base + pgsize ≤ p
    → FreeFrom s p free
    → FreeFrom s (p - pgsize) ((p - pgsize) ∷ free)
one_more s p free r aligned low (below, above) = (
  (λ q less. let gone = below q (omega arith) in ground arith),
  (λ q from page. elim (Bool-cases (p - pgsize == q)) [
    | inl same ↦ let gone = below q (ground arith) in rw same (omega arith)
    | inr other ↦
        let here = page.0 in
        let behind : p ≤ q = ground arith in
        let there = above q behind page in rw other (omega arith)
  ]),
)

-- the page in front of `p`
abbrev before : ℕ → ℕ
before p = word (p + (2 ^ 64 - pgsize))

before_lem : (p : ℕ) → pgsize ≤ p → p < 2 ^ 64 → before p ≡ p - pgsize
before_lem p h k = omega arith

free_pages-suc :
    (n q : ℕ) (s s₁ : PageAllocator) (r : Option PageAllocator)
    → s.kpage_allocator_base ≤ q
    → kfreepage (kva_to_pa q) s ≡ some s₁
    → free_pages n (before q) s₁ ≡ r
    → free_pages (suc n) q s ≡ r
unfolding free_pages
free_pages-suc n q s s₁ r low done rest =
    let goes_on : leb s.kpage_allocator_base q ≡ true = ground arith in
    rw (free_pages, goes_on, done) rest

free_pages-ends :
    (n q : ℕ) (s : PageAllocator) → q < s.kpage_allocator_base → free_pages (suc n) q s ≡ some s
unfolding free_pages
free_pages-ends n q s below =
    let ends : leb s.kpage_allocator_base q ≡ false = ground arith in rw (free_pages, ends)

free_pages_from :
    (n p q : ℕ) (s : PageAllocator) (r : Option PageAllocator)
    → p ≡ q
    → free_pages n q s ≡ r
    → free_pages n p s ≡ r
free_pages_from n p q s r same h = ap (λ x. free_pages n x s) same ∙ h

-- The pages in front of `p` are freed, one after the other.
free_pages-IsPages :
    (n p : ℕ) (s : PageAllocator) (free : List ℕ)
    → IsRange s
    → IsPages s free
    → p ≡ s.kpage_allocator_base + pgsize * n
    → p ≤ s.kpage_allocator_base + s.kpage_allocator_size
    → length free + n < 2 ^ 52
    → FreeFrom s p free
    → (s' : PageAllocator) × (free' : List ℕ) × (free_pages (suc n) (before p) s ≡ some s')
      × IsPages s' free'
      × SameRange s s'
      × FreeFrom s s.kpage_allocator_base free'
free_pages-IsPages zero p s free r v at_p within few from =
    let at_base : p ≡ s.kpage_allocator_base = omega arith in
    let back : before p ≡ p - pgsize =
      before_lem p (omega (arith, r.mapped)) (omega (arith, r.fits)) in
    let below : p - pgsize < s.kpage_allocator_base = omega (arith, r.mapped) in
    (
      s,
      free,
      free_pages_from 1 (before p) (p - pgsize) s (some s) back
          (free_pages-ends zero (p - pgsize) s below),
      v,
      (refl, refl),
      rw at_base at from,
    )
free_pages-IsPages (suc n) p s free r v at_p within few from =
    let q = p - pgsize in
    let base = s.kpage_allocator_base in
    let split : pgsize * suc n ≡ pgsize + pgsize * n = omega arith in
    let aligned : p % pgsize ≡ 0 = omega (arith, r.base_aligned) in
    let page : IsPage s q = (omega arith, omega arith, omega arith) in
    let absent : count q free ≡ 0 = from.0 q (omega arith) in
    let (s₁, done, w, same_base, same_size) =
      kfreepage-IsPages s q free r v page absent (omega arith) in
    let r' : IsRange s₁ = record {
      mapped = rw same_base r.mapped;
      fits = omega (arith, r.fits);
      base_aligned = rw same_base r.base_aligned;
      size_aligned = rw same_size r.size_aligned;
    } in
    let from' : FreeFrom s q (q ∷ free) = one_more s p free r aligned (omega arith) from in
    let from₁ : FreeFrom s₁ q (q ∷ free) =
      (from'.0, λ x at page'. from'.1 x at (moved s s₁ x same_base same_size page')) in
    let (s', free', rest, w', (base', size'), from'') =
      free_pages-IsPages n q s₁ (q ∷ free) r' w (omega arith) (omega arith) (omega arith) from₁ in
    (
      s',
      free',
      free_pages_from (suc (suc n)) (before p) q s (some s')
          (before_lem p (omega arith) (omega (arith, r.fits)))
          (free_pages-suc (suc n) q s s₁ (some s') page.1 done rest),
      w',
      same_range s s₁ s' same_base same_size base' size',
      (
        (λ x less. from''.0 x (omega arith)),
        (λ x low page'. from''.1 x (omega arith) (back s s₁ x same_base same_size page')),
      ),
    )
  where
    moved :
        (s s₁ : PageAllocator) (x : ℕ)
        → s₁.kpage_allocator_base ≡ s.kpage_allocator_base
        → s₁.kpage_allocator_size ≡ s.kpage_allocator_size
        → IsPage s₁ x
        → IsPage s x
    moved s s₁ x b z (even, low, high) = (even, omega arith, omega arith)

    same_range :
        (s s₁ s' : PageAllocator)
        → s₁.kpage_allocator_base ≡ s.kpage_allocator_base
        → s₁.kpage_allocator_size ≡ s.kpage_allocator_size
        → s'.kpage_allocator_base ≡ s₁.kpage_allocator_base
        → s'.kpage_allocator_size ≡ s₁.kpage_allocator_size
        → SameRange s s'
    same_range s s₁ s' b z b' z' = (b' ∙ b, z' ∙ z)

    back :
        (s s₁ : PageAllocator) (x : ℕ)
        → s₁.kpage_allocator_base ≡ s.kpage_allocator_base
        → s₁.kpage_allocator_size ≡ s.kpage_allocator_size
        → IsPage s x
        → IsPage s₁ x
    back s s₁ x b z (even, low, high) = (even, omega arith, omega arith)

-- `kpgmgrinit` with the end of the range.
abbrev up_to : PageAllocator → ℕ → Option PageAllocator
up_to s top =
    if not (pgaligned s.kpage_allocator_base && pgaligned top)
    then none
    else free_pages (suc (s.kpage_allocator_size / pgsize)) (before top) s

kpgmgrinit-up_to :
    (s : PageAllocator)
    → kpgmgrinit s ≡ up_to s (word (s.kpage_allocator_base + s.kpage_allocator_size))
unfolding kpgmgrinit
kpgmgrinit-up_to s = refl

kpgmgrinit-lem :
    (s : PageAllocator) (top : ℕ) (r : Option PageAllocator)
    → word (s.kpage_allocator_base + s.kpage_allocator_size) ≡ top
    → (pgaligned s.kpage_allocator_base && pgaligned top) ≡ true
    → free_pages (suc (s.kpage_allocator_size / pgsize)) (before top) s ≡ r
    → kpgmgrinit s ≡ r
kpgmgrinit-lem s top r no_wrap aligned done =
    kpgmgrinit-up_to s ∙ ap (up_to s) no_wrap ∙ rw aligned done

-- An allocator with no page in its list, whose range of whole pages lies in the direct mapping:
-- `kpgmgrinit` does not panic, and then every page of the range is free.
pub kpgmgrinit-IsPages :
    (s : PageAllocator)
    → IsRange s
    → s.freelist ≡ 0
    → s.freepages_count ≡ 0
    → (s' : PageAllocator) × (free : List ℕ) × (kpgmgrinit s ≡ some s')
      × IsPages s' free
      × ((p : ℕ) → IsPage s' p → count p free ≡ 1)
kpgmgrinit-IsPages s r empty none_free =
    let top = s.kpage_allocator_base + s.kpage_allocator_size in
    let no_wrap : word top ≡ top = omega (arith, r.fits) in
    let aligned : (pgaligned s.kpage_allocator_base && pgaligned top) ≡ true =
      let b = r.base_aligned in let z = r.size_aligned in ground arith in
    let v : IsPages s [] = record {
      linked = empty;
      counted = none_free;
      few = omega arith;
      once = λ p. omega arith;
      pages = λ p h. absurd (omega arith);
    } in
    let whole : top ≡ s.kpage_allocator_base + pgsize * (s.kpage_allocator_size / pgsize) =
      omega (arith, r.size_aligned) in
    let few : 0 + s.kpage_allocator_size / pgsize < 2 ^ 52 = omega (arith, r.fits) in
    let (s', free, done, w, (base, size), from) =
      free_pages-IsPages (s.kpage_allocator_size / pgsize) top s [] r v whole (omega arith) few
        ((λ q less. refl), (λ q low page. absurd (outside q low page))) in
    (
      s',
      free,
      kpgmgrinit-lem s top (some s') no_wrap aligned done,
      w,
      λ p page. from.1 p (omega (arith, page.1)) (back_page s s' p base size page),
    )
  where
    outside : (q : ℕ) → s.kpage_allocator_base + s.kpage_allocator_size ≤ q → IsPage s q → ⊥
    outside q low (even, from, below) = omega arith

    back_page :
        (s s' : PageAllocator) (p : ℕ)
        → s'.kpage_allocator_base ≡ s.kpage_allocator_base
        → s'.kpage_allocator_size ≡ s.kpage_allocator_size
        → IsPage s' p
        → IsPage s p
    back_page s s' p b z (even, low, high) = (even, omega arith, omega arith)
