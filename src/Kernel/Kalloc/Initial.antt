-- ===== src/Kernel/Kalloc/Initial.antt =====
-- `allocator_init` makes an allocator with every object free, and no two objects overlap.
use os_project_signal.Prelude.{ℕ, ◌+◌, ◌≤◌, ◌<◌, ◌≡◌, ◌⊎◌}
use os_project_signal.Kernel.System.Counts.{count}
use os_project_signal.Kernel.Kalloc.{sizeof_linklist, Allocator}
use os_project_signal.Kernel.Kalloc.Objects.{all_headers}

-- Two headers with their objects do not overlap.
abbrev pub AreApart : Allocator → Type 0
AreApart a =
    (x y : ℕ)
    → 0 < count x (all_headers a)
    → 0 < count y (all_headers a)
    → (x ≡ y)
      ⊎ ((x + (sizeof_linklist + a.object_size) ≤ y) ⊎ (y + (sizeof_linklist + a.object_size) ≤ x))
