-- ===== src/Kernel/Kalloc/Tests.antt =====
-- An allocator of two objects of 8 bytes.
use os_project_signal.Prelude.{ℕ, ◌+◌, ◌-◌, ◌≡◌, refl, some, [], ◌∷◌, arith, ◌==◌, if◌then◌else◌}
use os_project_signal.Kernel.System.Counts.{count}
use os_project_signal.Kernel.Kalloc.{Allocator, sizeof_linklist, kalloc, kfree}
use os_project_signal.Kernel.Kalloc.Objects.{
  all_headers, IsAllocator, kalloc-IsAllocator, kfree-IsAllocator,
}
use os_project_signal.Kernel.Kalloc.DoubleFree.{kfree-twice}

-- With `freelist` and `available` objects free.
abbrev two_objects : ℕ → ℕ → Allocator
two_objects freelist available = record {
  freelist = freelist;
  pool_base = 4096;
  pool_end = 8192;
  object_size = 8;
  object_size_aligned = 16;
  allocated_count = 2 - available;
  available_count = available;
  max_count = 2;
  words = λ x. if x == 4112 then 4096 else 0;
}

both_free : IsAllocator (two_objects 4112 2) (4112 ∷ 4096 ∷ [])
both_free = record {
  linked = (refl, (λ e. omega arith), (refl, (λ e. omega arith), refl));
  available = refl;
  total = refl;
  owned = λ x. omega arith;
  based = omega arith;
  sized = omega arith;
  holds = omega arith;
  room = omega arith;
  fits = omega arith;
}

one_free : IsAllocator (two_objects 4096 1) (4096 ∷ [])
one_free = record {
  linked = (refl, (λ e. omega arith), refl);
  available = refl;
  total = refl;
  owned = λ x. omega arith;
  based = omega arith;
  sized = omega arith;
  holds = omega arith;
  room = omega arith;
  fits = omega arith;
}

kalloc-IsAllocator_example :
    (a' : Allocator) × (kalloc (two_objects 4112 2) ≡ some (a', 4112 + sizeof_linklist))
    × IsAllocator a' (4096 ∷ [])
    × (all_headers a' ≡ all_headers (two_objects 4112 2))
    × (count 4112 (all_headers (two_objects 4112 2)) ≡ 1)
    × (count 4112 (4096 ∷ []) ≡ 0)
kalloc-IsAllocator_example = kalloc-IsAllocator (two_objects 4112 2) 4112 (4096 ∷ []) both_free

kfree-IsAllocator_example :
    (a' : Allocator) × (kfree (4112 + sizeof_linklist) (two_objects 4096 1) ≡ some a')
    × IsAllocator a' (4112 ∷ 4096 ∷ [])
    × (all_headers a' ≡ all_headers (two_objects 4096 1))
kfree-IsAllocator_example =
    kfree-IsAllocator (two_objects 4096 1) (4096 ∷ []) 4112 one_free (omega arith) refl

kfree-twice_example :
    (a₁ a₂ a₃ : Allocator) × (kfree (4096 + sizeof_linklist) (two_objects 4096 1) ≡ some a₁)
    × (kalloc a₁ ≡ some (a₂, 4096 + sizeof_linklist))
    × (kalloc a₂ ≡ some (a₃, 4096 + sizeof_linklist))
kfree-twice_example = kfree-twice (two_objects 4096 1) 4096 [] one_free (omega arith)
