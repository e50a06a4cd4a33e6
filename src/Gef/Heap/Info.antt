-- ===== src/Gef/Heap/Info.antt =====
-- `class GlibcHeapInfo` of scripts/gef.py.
use os_project_signal.Prelude.{
  ℕ, zero, suc, ◌+◌, ◌-◌, ◌*◌, ◌%◌, String, true, false, Option, none, some, List, [], ◌∷◌, ◌++◌,
  take, drop, ◌==◌, if◌then◌else◌,
}
use os_project_signal.Prelude.Int.{sub_ℕ, ltb_ℤ, pos}
use os_project_signal.Prelude.Result.{Result, ok, err, type_error, ◌>>=◌, map_ok}
use os_project_signal.Gef.Pack.{value_of, ordered}
use os_project_signal.Gef.Heap.Manager.{Heap, at_least, malloc_alignment}
use os_project_signal.Gef.Heap.Chunk.{word_size, word_at}
use os_project_signal.Gef.Heap.Arena.{Arena, total_size, arena_at, heap_addr}

-- -k * ptrsize & (malloc_alignment - 1), of a power of two
abbrev pub padding : ℕ → ℕ → ℕ
padding m n = (m - n % m) % m

unfoldable pub pad_size : Heap → ℕ
unfolding malloc_alignment
pad_size h =
    if at_least h.version 2 34
    then padding (malloc_alignment h) (3 * h.ptrsize)
    else if at_least h.version 2 5
    then padding (malloc_alignment h) (6 * h.ptrsize)
    else padding (malloc_alignment h) (5 * h.ptrsize)

-- `heap_info_t`: the two pointers have the size of the machine that runs GDB.
unfoldable pub heap_info : Heap → List (String × ℕ)
unfolding pad_size
heap_info h =
    ("ar_ptr", 8)
      ∷ ("prev", 8)
      ∷ ("size", word_size h)
      ∷ (if at_least h.version 2 5 then ("mprotect_size", word_size h) ∷ [] else [])
    ++ (if at_least h.version 2 34 then ("pagesize", word_size h) ∷ [] else [])
    ++ ("pad", pad_size h) ∷ []

-- `ctypes.sizeof`: the structure is padded to the alignment of its pointers.
unfoldable pub sizeof : Heap → ℕ
unfolding heap_info
sizeof h = total_size (heap_info h) + padding 8 (total_size (heap_info h))

pub record HeapInfo : Type 0 where
  pub address : ℕ
  pub ar_ptr : ℕ
  pub prev : ℕ
  pub size : ℕ

-- A pointer of the machine that runs GDB, at `offset`.
abbrev pointer_at : Heap → List ℕ → ℕ → ℕ
pointer_at h bytes offset = value_of (ordered h.host (take 8 (drop offset bytes)))

-- `GlibcHeapInfo.reset`, at an address.
unfoldable pub heap_info_at : Heap → ℕ → Result HeapInfo
unfolding sizeof word_at value_of
heap_info_at h addr = do
  bytes ← h.read addr (sizeof h)
  ok (record {
    address = addr;
    ar_ptr = pointer_at h bytes 0;
    prev = pointer_at h bytes 8;
    size = word_at h bytes 16;
  })

abbrev or_zero : Option ℕ → ℕ
or_zero none = 0
or_zero (some n) = n

-- `heap_start`. A null `ar_ptr` reads as None, which has no difference.
unfoldable pub heap_start : Heap → Option Arena → Option ℕ → HeapInfo → Result ℕ
unfolding arena_at heap_addr sizeof
heap_start h main base_address info =
    if info.ar_ptr == 0
    then err type_error
    else if ltb_ℤ (sub_ℕ info.ar_ptr info.address) (pos 0x60)
    then map_ok (λ arena. or_zero (heap_addr h main base_address arena false))
        (arena_at h info.ar_ptr)
    else ok (info.address + sizeof h)

unfoldable pub heap_end : HeapInfo → ℕ
heap_end info = info.address + info.size

-- `GlibcArena.get_heap_info_list` of a secondary arena, behind the heaps found so far, which come
-- last first; the result has the oldest heap first. `none` is a chain longer than the fuel.
unfoldable pub heap_infos : ℕ → Heap → List HeapInfo → ℕ → Option (Result (List HeapInfo))
unfolding heap_info_at
heap_infos zero h found addr = none
heap_infos (suc fuel) h found addr = elim (heap_info_at h addr) [
  | err e ↦ some (err e)
  | ok info ↦ elim (info.prev == 0) [
    | true ↦ some (ok (info ∷ found))
    | false ↦ heap_infos fuel h (info ∷ found) info.prev
  ]
]
