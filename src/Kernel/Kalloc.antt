-- ===== src/Kernel/Kalloc.antt =====
-- The object allocator of os/kalloc.c. A free object is linked through the word in front of it, its
-- header; `words` is what stands in memory, the word of 8 bytes at each multiple of 8, and the pages behind
-- the addresses are there. The lock is held from the start to the end of
-- each operation.
pub mod Headers
pub mod Objects
pub mod DoubleFree
pub mod Initial
mod Tests
use os_project_signal.Prelude.{
  ℕ, zero, suc, ◌+◌, ◌-◌, ◌*◌, ◌/◌, ◌%◌, ◌^◌, min, Bool, true, false, not, ◌&&◌, Option, none, some,
  ◌==◌, leb, ltb, if◌then◌else◌,
}
use os_project_signal.Signal.Memory.{pgsize}
use os_project_signal.Signal.State.{set_at}

-- uint64
abbrev pub word : ℕ → ℕ
word n = n % 2 ^ 64

-- ROUNDUP_2N and PGROUNDUP, for a power of 2
abbrev pub round_up : ℕ → ℕ → ℕ
round_up size base = word (size + (base - 1)) / base * base

abbrev pub sizeof_linklist : ℕ
sizeof_linklist = 8

-- `name` and `lock` are left out.
pub record Allocator : Type 0 where
  pub freelist : ℕ
  pub pool_base : ℕ
  pub pool_end : ℕ
  pub object_size : ℕ
  pub object_size_aligned : ℕ
  pub allocated_count : ℕ
  pub available_count : ℕ
  pub max_count : ℕ
  pub words : ℕ → ℕ

-- `memset` of os/string.c, from a multiple of 8 on: `size` is taken as an unsigned number of 32 bits, and
-- of the last word the lower bytes may be the only ones that are written.
unfoldable pub memset : (ℕ → ℕ) → ℕ → ℕ → ℕ → ℕ → ℕ
memset words start size c x =
    let n = size % 2 ^ 32 in
    let written = 2 ^ (8 * min 8 (start + n - x)) in
    if leb start x && ltb x (start + n)
    then words x / written * written + (c * 0x0101_0101_0101_0101) % written
    else words x

-- The loop over the objects, from `addr` on, for `n` of them.
unfoldable pub link_objects : ℕ → ℕ → Allocator → Option Allocator
link_objects zero addr a = some a
link_objects (suc n) addr a =
    let next = word (addr + a.object_size_aligned) in
    let rest =
      link_objects n next (record a { words = set_at a.words addr a.freelist; freelist = addr }) in
    if leb next a.pool_end then rest else none

abbrev pub aligned_size : ℕ → ℕ
aligned_size object_size = round_up (word (object_size + sizeof_linklist)) 8

abbrev pub total_size : ℕ → ℕ → ℕ
total_size object_size count = round_up (word (aligned_size object_size * count)) pgsize

-- `mapped_va` is `allocator_mapped_va`, and `words` what stands in memory before.
unfoldable pub allocator_init : ℕ → (ℕ → ℕ) → ℕ → ℕ → Option Allocator
unfolding link_objects
allocator_init mapped_va words object_size count =
    if leb count (pgsize * 8)
    then link_objects count mapped_va (record {
      freelist = 0;
      pool_base = mapped_va;
      pool_end = word (mapped_va + total_size object_size count);
      object_size = object_size;
      object_size_aligned = aligned_size object_size;
      allocated_count = 0;
      available_count = count;
      max_count = count;
      words = words;
    })
    else none

-- The object, and `none` where it panics. The header of an object that is allocated is all ones.
unfoldable pub kalloc : Allocator → Option (Allocator × ℕ)
unfolding memset
kalloc a =
    let ret = word (a.freelist + sizeof_linklist) in
    if a.available_count == 0
    then none
    else if a.freelist == 0
    then none
    else some (
      record a {
        available_count = a.available_count - 1;
        allocated_count = word (a.allocated_count + 1);
        freelist = a.words a.freelist;
        words = memset (set_at a.words a.freelist (2 ^ 64 - 1)) ret a.object_size 0xfe;
      },
      ret,
    )

-- `none` where an assertion fails.
unfoldable pub kfree : ℕ → Allocator → Option Allocator
unfolding memset
kfree obj a =
    let l = word (obj + (2 ^ 64 - sizeof_linklist)) in
    let allocated = word (a.allocated_count + (2 ^ 64 - 1)) in
    let available = word (a.available_count + 1) in
    if obj == 0
    then some a
    else if not (leb a.pool_base obj && ltb obj a.pool_end)
    then none
    else if word (allocated + available) == a.max_count
    then some (record a {
      words = set_at (memset a.words obj a.object_size 0xfa) l a.freelist;
      freelist = l;
      allocated_count = allocated;
      available_count = available;
    })
    else none
