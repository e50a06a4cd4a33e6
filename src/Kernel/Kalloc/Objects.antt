-- ===== src/Kernel/Kalloc/Objects.antt =====
-- The allocator gives out each object once, until it is freed.
use os_project_signal.Prelude.{
  ℕ, suc, ◌+◌, ◌-◌, ◌*◌, ◌%◌, ◌^◌, ◌≤◌, ◌<◌, ◌≡◌, refl, ap, ◌⊎◌, inl, inr, true, false, ◌&&◌,
  Bool-cases, none, some, List, [], ◌∷◌, length, ◌==◌, leb, ltb, arith,
}
use os_project_signal.Signal.State.{set_at}
use os_project_signal.Kernel.System.Counts.{count}
use os_project_signal.Kernel.Kalloc.{word, sizeof_linklist, Allocator, memset, kalloc, kfree}
use os_project_signal.Kernel.Kalloc.Headers.{
  headers, length-headers, count-headers_le, headers-at, headers-apart, length-le, IsLinked-same,
  IsLinked, IsLinked-set_at,
}

-- The headers of all objects of an allocator.
abbrev pub all_headers : Allocator → List ℕ
all_headers a = headers a.pool_base a.object_size_aligned a.max_count

-- The objects whose headers are `free` are free, and all others are allocated.
pub record IsAllocator (a : Allocator) (free : List ℕ) : Type 0 where
  pub linked : IsLinked a.words a.freelist free
  pub available : a.available_count ≡ length free
  pub total : a.allocated_count + a.available_count ≡ a.max_count
  pub owned : (x : ℕ) → count x free ≤ count x (all_headers a)
  pub based : 0 < a.pool_base
  pub sized : sizeof_linklist < a.object_size_aligned
  pub holds : a.object_size + sizeof_linklist ≤ a.object_size_aligned
  pub room : a.pool_base + a.object_size_aligned * a.max_count ≤ a.pool_end
  pub fits : a.pool_end < 2 ^ 64

-- A header lies in the pool with its object.
pub header-in :
    (a : Allocator) (free : List ℕ) (x : ℕ)
    → IsAllocator a free
    → 0 < count x (all_headers a)
    → (a.pool_base ≤ x) × (x + a.object_size_aligned ≤ a.pool_end)
header-in a free x v own =
    let (k, less, at_k) = headers-at a.pool_base a.object_size_aligned a.max_count x own in
    let step = a.object_size_aligned in
    let most : step * k + step ≤ step * a.max_count = next_fits step k a.max_count less in
    (omega (arith, at_k), omega (arith, at_k, v.room, most))
  where
    next_fits : (step k n : ℕ) → k < n → step * k + step ≤ step * n
    next_fits step k n less = grind arith

-- With no object free `kalloc` panics at its first test.
pub kalloc-empty : (a : Allocator) → IsAllocator a [] → kalloc a ≡ none
unfolding kalloc
kalloc-empty a v = let no_more = v.available in ground arith

pub max-lt : (a : Allocator) (free : List ℕ) → IsAllocator a free → a.max_count < 2 ^ 64
max-lt a free v =
    let most = product_le a.object_size_aligned a.max_count (omega (arith, v.sized)) in
    omega (arith, v.room, v.fits)
  where
    product_le : (step n : ℕ) → 0 < step → n ≤ step * n
    product_le step n h = grind arith

pub counted : (x : ℕ) (free : List ℕ) {n : ℕ} → count x (x ∷ free) ≤ n → 1 + count x free ≤ n
counted x free h = let same : (x == x) ≡ true = ground arith in rw same at h

uncounted :
    (x y : ℕ) (free all : List ℕ) → count y (x ∷ free) ≤ count y all → count y free ≤ count y all
uncounted x y free all h = omega arith

memset-outside :
    (words : ℕ → ℕ) (start size c y : ℕ)
    → (y < start) ⊎ (start + size ≤ y)
    → memset words start size c y ≡ words y
unfolding memset
memset-outside words start size c y (inl below) =
    let outside : (leb start y && ltb y (start + size % 2 ^ 32)) ≡ false = ground arith in
    rw outside
memset-outside words start size c y (inr above) =
    let outside : (leb start y && ltb y (start + size % 2 ^ 32)) ≡ false = ground arith in
    rw outside

-- What is written into the object with the header `x` leaves every header as it is.
pub memset-header :
    (a : Allocator) (free : List ℕ) (words : ℕ → ℕ) (x y start c : ℕ)
    → IsAllocator a free
    → 0 < count x (all_headers a)
    → 0 < count y (all_headers a)
    → start ≡ x + sizeof_linklist
    → memset words start a.object_size c y ≡ words y
memset-header a free words x y start c v own own' at_start =
    memset-outside words start a.object_size c y
      (elim (headers-apart a.pool_base a.object_size_aligned a.max_count x y own own') [
        | inl same ↦ inl (omega (arith))
        | inr (inl behind) ↦ inr (omega (arith, v.holds))
        | inr (inr before) ↦ inl (omega (arith, v.sized))
      ])

-- What `kalloc` leaves behind.
abbrev pub taken : Allocator → Allocator
taken a = record a {
  available_count = a.available_count - 1;
  allocated_count = word (a.allocated_count + 1);
  freelist = a.words a.freelist;
  words =
      memset (set_at a.words a.freelist (2 ^ 64 - 1)) (word (a.freelist + sizeof_linklist))
        a.object_size 0xfe;
}

pub object_lem :
    (a : Allocator) (x : ℕ)
    → a.freelist ≡ x
    → x + sizeof_linklist < 2 ^ 64
    → word (a.freelist + sizeof_linklist) ≡ x + sizeof_linklist
object_lem a x at_x fits = omega arith

-- With an object free `kalloc` does not panic: it gives out the first free object, one of those of the
-- allocator, which is no free object any more, and the others are as they were.
pub kalloc-IsAllocator :
    (a : Allocator) (x : ℕ) (free : List ℕ)
    → IsAllocator a (x ∷ free)
    → (a' : Allocator) × (kalloc a ≡ some (a', x + sizeof_linklist))
      × IsAllocator a' free
      × (all_headers a' ≡ all_headers a)
      × (count x (all_headers a) ≡ 1)
      × (count x free ≡ 0)
unfolding kalloc
kalloc-IsAllocator a x free v =
    let (at_x, there, rest) = v.linked in
    let most =
      count-headers_le a.pool_base a.object_size_aligned a.max_count x (omega (arith, v.sized)) in
    let own : 1 + count x free ≤ count x (all_headers a) = counted x free (v.owned x) in
    let absent : count x free ≡ 0 = omega arith in
    let (low, high) = header-in a (x ∷ free) x v (omega arith) in
    let few = max-lt a (x ∷ free) v in
    let some_left : (a.available_count == 0) ≡ false = let n = v.available in ground arith in
    let not_null : (a.freelist == 0) ≡ false = ground arith in
    (
      taken a,
      rw (kalloc, some_left, not_null)
          (ap (λ obj. some (taken a, obj))
            (object_lem a x at_x (omega (arith, high, v.sized, v.fits)))),
      record {
        linked =
            IsLinked-same (set_at a.words a.freelist (2 ^ 64 - 1)) _ _ free
              (λ y there'.
                memset-header a (x ∷ free) (set_at a.words a.freelist (2 ^ 64 - 1)) x y _ 0xfe v
                  (omega arith)
                  (let h = uncounted x y free (all_headers a) (v.owned y) in omega arith)
                  (object_lem a x at_x (omega (arith, high, v.sized, v.fits))))
              (rw at_x (IsLinked-set_at a.words (a.words x) x (2 ^ 64 - 1) free absent rest));
        available = omega (arith, v.available);
        total = omega (arith, v.available, v.total);
        owned = λ y. uncounted x y free (all_headers a) (v.owned y);
        based = v.based;
        sized = v.sized;
        holds = v.holds;
        room = v.room;
        fits = v.fits;
      },
      refl,
      omega arith,
      absent,
    )

-- What `kfree` leaves behind for the object with the header `l`.
abbrev pub given_back : Allocator → ℕ → Allocator
given_back a l = record a {
  words = set_at (memset a.words (l + sizeof_linklist) a.object_size 0xfa) l a.freelist;
  freelist = l;
  allocated_count = word (a.allocated_count + (2 ^ 64 - 1));
  available_count = word (a.available_count + 1);
}

-- The assertions of `kfree` hold for the header `x` of an object, where some object is allocated.
pub kfree-lem :
    (a : Allocator) (free : List ℕ) (x : ℕ)
    → IsAllocator a free
    → 0 < count x (all_headers a)
    → 0 < a.allocated_count
    → kfree (x + sizeof_linklist) a ≡ some (given_back a x)
unfolding kfree
kfree-lem a free x v own some_used =
    let (low, high) = header-in a free x v own in
    let few = max-lt a free v in
    let obj : word (x + sizeof_linklist + (2 ^ 64 - sizeof_linklist)) ≡ x =
      omega (arith, high, v.sized, v.fits) in
    let not_null : (x + sizeof_linklist == 0) ≡ false = ground arith in
    let in_pool : (leb a.pool_base (x + sizeof_linklist) && ltb (x + sizeof_linklist) a.pool_end)
        ≡ true =
      let s = v.sized in ground arith in
    let counts : (word (word (a.allocated_count + (2 ^ 64 - 1)) + word (a.available_count + 1))
          == a.max_count)
        ≡ true =
      let t = v.total in ground arith in
    rw (not_null, in_pool, counts, obj)

-- `kfree` of an allocated object passes every assertion and makes it the first free one.
pub kfree-IsAllocator :
    (a : Allocator) (free : List ℕ) (x : ℕ)
    → IsAllocator a free
    → 0 < count x (all_headers a)
    → count x free ≡ 0
    → (a' : Allocator) × (kfree (x + sizeof_linklist) a ≡ some a')
      × IsAllocator a' (x ∷ free)
      × (all_headers a' ≡ all_headers a)
kfree-IsAllocator a free x v own absent =
    let (low, high) = header-in a free x v own in
    let few = max-lt a free v in
    let owned' : (y : ℕ) → count y (x ∷ free) ≤ count y (all_headers a) =
      λ y. counted_in x y free (all_headers a) own absent (v.owned y) in
    let shorter = length-le (x ∷ free) (all_headers a) owned' in
    let all = length-headers a.pool_base a.object_size_aligned a.max_count in
    let more : suc (length free) ≤ a.max_count = omega (arith, shorter, all) in
    let n = v.available in
    let t = v.total in
    (
      given_back a x,
      kfree-lem a free x v own (omega arith),
      record {
        linked = (
          refl,
          (λ e. omega (arith, v.based)),
          rw_self x a.freelist _ free absent (
              IsLinked-same a.words _ a.freelist free
                (λ y there.
                  memset-header a free a.words x y _ 0xfa v own (let h = v.owned y in omega arith)
                    refl)
                v.linked),
        );
        available = omega arith;
        total = omega arith;
        owned = owned';
        based = v.based;
        sized = v.sized;
        holds = v.holds;
        room = v.room;
        fits = v.fits;
      },
      refl,
    )
  where
    counted_in :
        (x y : ℕ) (free all : List ℕ)
        → 0 < count x all
        → count x free ≡ 0
        → count y free ≤ count y all
        → count y (x ∷ free) ≤ count y all
    counted_in x y free all own absent h = elim (Bool-cases (x == y)) [
      | inl same ↦
          let at_y : x ≡ y = ground arith in
          let absent' : count y free ≡ 0 = rw at_y at absent in
          let own' : 0 < count y all = rw at_y at own in rw same (omega arith)
      | inr other ↦ rw other (omega arith)
    ]

    rw_self :
        (x p : ℕ) (words : ℕ → ℕ) (free : List ℕ)
        → count x free ≡ 0
        → IsLinked words p free
        → IsLinked (set_at words x p) (set_at words x p x) free
    rw_self x p words free absent h =
        let here : (x == x) ≡ true = ground arith in
        rw here (IsLinked-set_at words p x p free absent h)
