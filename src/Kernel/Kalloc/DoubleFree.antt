-- ===== src/Kernel/Kalloc/DoubleFree.antt =====
-- A second `kfree` of an object.
use os_project_signal.Prelude.{ℕ, ◌+◌, ◌-◌, ◌<◌, ◌≡◌, true, false, some, List, ◌∷◌, ◌==◌, arith}
use os_project_signal.Kernel.Kalloc.{word, sizeof_linklist, Allocator, kalloc, kfree}
use os_project_signal.Kernel.Kalloc.Objects.{
  IsAllocator, header-in, max-lt, counted, taken, given_back, kfree-lem,
}

-- Where some object is allocated, a second `kfree` of the object that heads the free list, the one that
-- was freed last, passes every assertion, and the next two calls of `kalloc` both give out that object.
pub kfree-twice :
    (a : Allocator) (x : ℕ) (free : List ℕ)
    → IsAllocator a (x ∷ free)
    → 0 < a.allocated_count
    → (a₁ a₂ a₃ : Allocator) × (kfree (x + sizeof_linklist) a ≡ some a₁)
      × (kalloc a₁ ≡ some (a₂, x + sizeof_linklist))
      × (kalloc a₂ ≡ some (a₃, x + sizeof_linklist))
unfolding kalloc
kfree-twice a x free v some_used =
    let own = counted x free (v.owned x) in
    let (low, high) = header-in a (x ∷ free) x v (omega arith) in
    let few = max-lt a (x ∷ free) v in
    let (at_x, there, rest) = v.linked in
    let n = v.available in
    let t = v.total in
    let a₁ = given_back a x in
    let obj : word (x + sizeof_linklist) ≡ x + sizeof_linklist =
      omega (arith, high, v.sized, v.fits) in
    let not_null : (x == 0) ≡ false = ground arith in
    let here : (x == x) ≡ true = ground arith in
    let left : (a₁.available_count == 0) ≡ false = ground arith in
    let left' : (a₁.available_count - 1 == 0) ≡ false = ground arith in
    (
      a₁,
      taken a₁,
      taken (taken a₁),
      kfree-lem a (x ∷ free) x v (omega arith) some_used,
      rw (kalloc, left, not_null, obj),
      rw (kalloc, left', here, at_x, not_null, obj),
    )
