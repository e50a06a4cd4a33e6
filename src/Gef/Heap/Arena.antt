-- ===== src/Gef/Heap/Arena.antt =====
-- `class GlibcArena` of scripts/gef.py.
use os_project_signal.Prelude.{
  ℕ, zero, suc, ◌+◌, ◌-◌, ◌*◌, ◌/◌, String, Bool, true, false, ◌||◌, Option, none, some, List, [],
  ◌∷◌, ◌++◌, leb, ◌==◌, if◌then◌else◌,
}
use os_project_signal.Prelude.Text.{str_eq}
use os_project_signal.Prelude.Result.{
  Result, ok, err, index_error, attribute_error, ◌>>=◌, map_ok, or_raise, raise_if,
}
use os_project_signal.Gef.Heap.Manager.{Heap, at_least, malloc_align_address}
use os_project_signal.Gef.Heap.Chunk.{Chunk, chunk, word_size, word_at}

abbrev pub nfastbins : ℕ
nfastbins = 10

abbrev pub nbins : ℕ
nbins = 128

abbrev pub binmapsize : ℕ
binmapsize = nbins / 32

-- The fields of `malloc_state_t` with their sizes. Each begins at a multiple of its element's size, so
-- `ctypes` puts nothing between them.
unfoldable pub malloc_state : Heap → List (String × ℕ)
malloc_state h =
    ("mutex", 4)
      ∷ ("flags", 4)
      ∷ (if at_least h.version 2 27 then ("have_fastchunks", 4) ∷ ("UNUSED_c", 4) ∷ [] else [])
    ++ (("fastbinsY", nfastbins * word_size h)
        ∷ ("top", word_size h)
        ∷ ("last_remainder", word_size h)
        ∷ ("bins", (nbins * 2 - 2) * word_size h)
        ∷ ("binmap", binmapsize * 4)
        ∷ ("next", word_size h)
        ∷ ("next_free", word_size h)
        ∷ [])
    ++ (if at_least h.version 2 23 then ("attached_threads", word_size h) ∷ [] else [])
    ++ ("system_mem", word_size h) ∷ ("max_system_mem", word_size h) ∷ []

-- The offset of a field, and the size of all of them.
abbrev pub offset_of : String → List (String × ℕ) → Option ℕ
offset_of name [] = none
offset_of name ((n, size) ∷ fields) =
    if str_eq n name
    then some 0
    else elim (offset_of name fields) [ none ↦ none | some k ↦ some (size + k) ]

abbrev pub total_size : List (String × ℕ) → ℕ
total_size [] = 0
total_size ((n, size) ∷ fields) = size + total_size fields

-- An arena: its address, and the bytes of its structure.
pub record Arena : Type 0 where
  pub address : ℕ
  pub bytes : List ℕ

unfoldable pub sizeof : Heap → ℕ
unfolding malloc_state
sizeof h = total_size (malloc_state h)

-- `GlibcArena.reset`, at an address.
unfoldable pub arena_at : Heap → ℕ → Result Arena
unfolding sizeof
arena_at h addr = do bytes ← h.read addr (sizeof h); ok (record { address = addr; bytes = bytes })

-- The attributes `top`, `last_remainder`, `next`, … ; AttributeError where the version has none.
unfoldable pub word_field : Heap → Arena → String → Result ℕ
unfolding malloc_state word_at
word_field h a name =
    map_ok (λ k. word_at h a.bytes k) (or_raise (offset_of name (malloc_state h)) attribute_error)

-- An element of the arrays `fastbinsY` and `bins`, which have `count` words.
unfoldable pub array_word : Heap → Arena → String → ℕ → ℕ → Result ℕ
unfolding malloc_state word_at
array_word h a name count i = do
  raise_if (leb count i) index_error
  k ← or_raise (offset_of name (malloc_state h)) attribute_error
  ok (word_at h a.bytes (k + i * word_size h))
  where
    infixl 5 ◌>>◌
    ◌>>◌ : Result (Unit {0}) → Result ℕ → Result ℕ
    m >> n = m >>= λ _. n

-- `GlibcArena.fastbin`
unfoldable pub fastbin : Heap → Arena → ℕ → Result (Option Chunk)
unfolding array_word chunk
fastbin h a i = do
  addr ← array_word h a "fastbinsY" nfastbins i
  if addr == 0 then ok none else map_ok some (chunk h (addr + 2 * h.ptrsize) false true)

-- `GlibcArena.bin`: the forward and the backward pointer.
unfoldable pub bin : Heap → Arena → ℕ → Result (ℕ × ℕ)
unfolding array_word
bin h a i = do
  fd ← array_word h a "bins" (nbins * 2 - 2) (i * 2)
  bk ← array_word h a "bins" (nbins * 2 - 2) (i * 2 + 1)
  ok (fd, bk)

-- `GlibcArena.bin_at`, of a bin from 1 on.
unfoldable pub bin_at : Heap → Arena → ℕ → Result ℕ
unfolding malloc_state
bin_at h a i =
    map_ok (λ offset. a.address + offset + (i - 1) * 2 * h.ptrsize + 2 * h.ptrsize)
      (or_raise (offset_of "bins" (malloc_state h)) attribute_error)

unfoldable pub is_main_arena : Option Arena → Arena → Bool
is_main_arena none a = false
is_main_arena (some main) a = a.address == main.address

abbrev not_zero : Option ℕ → Option ℕ
not_zero none = none
not_zero (some n) = if n == 0 then none else some n

-- `GlibcArena.heap_addr`; `base_address` is the heap's, of the main arena.
unfoldable pub heap_addr : Heap → Option Arena → Option ℕ → Arena → Bool → Option ℕ
unfolding is_main_arena sizeof malloc_align_address
heap_addr h main base_address a allow_unaligned =
    if is_main_arena main a
    then not_zero base_address
    else if allow_unaligned
    then some (a.address + sizeof h)
    else some (malloc_align_address h (a.address + sizeof h))

-- `get_heap_for_ptr`; `sizeof_long` is the size of the type "long", if GDB knows it.
unfoldable pub heap_max_size : Heap → Option ℕ → ℕ
heap_max_size h none = 2 * (if h.ptrsize == 4 then 512 * 1024 else 4 * 1024 * 1024 * h.ptrsize)
heap_max_size h (some sizeof_long) =
    2 * (if h.ptrsize == 4 then 512 * 1024 else 4 * 1024 * 1024 * sizeof_long)

-- ptr & ~(heap_max_size - 1), of a power of two
unfoldable pub get_heap_for_ptr : Heap → Option ℕ → ℕ → ℕ
unfolding heap_max_size
get_heap_for_ptr h sizeof_long ptr = let m = heap_max_size h sizeof_long in ptr / m * m

-- How the walk over the arenas ended, behind the arenas that it yielded.
pub data ArenaWalk : Type 0 where
  yields : Arena → ArenaWalk → ArenaWalk
  done raised out_of_fuel : ArenaWalk

pub data ArenaStep : Type 0 where
  stop fail : ArenaStep
  go : Arena → ArenaStep

abbrev arena_step : Result Arena → ArenaStep
arena_step (ok a) = go a
arena_step (err e) = fail

-- The body of the loop of `GlibcArena.__iter__`.
unfoldable pub next_arena : Heap → ℕ → Arena → ArenaStep
unfolding word_field arena_at
next_arena h main_arena a = elim (word_field h a "next") [
  | err e ↦ fail
  | ok next ↦ if next == 0 || next == main_arena then stop else arena_step (arena_at h next)
]

unfoldable pub arenas : ℕ → Heap → ℕ → Arena → ArenaWalk
unfolding next_arena
arenas zero h main_arena a = out_of_fuel
arenas (suc fuel) h main_arena a = yields a (elim (next_arena h main_arena a) [
  | stop ↦ done
  | fail ↦ raised
  | go a' ↦ arenas fuel h main_arena a'
])

-- `GlibcArena.verify`: the arenas behind the one at `addr` lead back to it. Any exception is
-- caught; `none` is a loop that has not ended within the fuel.
verify_from : ℕ → Heap → Arena → Arena → Option Bool
verify_from zero h test a = none
verify_from (suc fuel) h test a = elim (a.address == test.address) [
  | true ↦ some true
  | false ↦ elim (a.address == 0) [
    | true ↦ some false
    | false ↦ elim (word_field h a "next" >>= arena_at h) [
      | err e ↦ some false
      | ok a' ↦ verify_from fuel h test a'
    ]
  ]
]

unfoldable pub verify : ℕ → Heap → ℕ → Option Bool
unfolding verify_from word_field arena_at
verify fuel h addr = elim (arena_at h addr) [
  | err e ↦ some false
  | ok test ↦ elim (word_field h test "next" >>= arena_at h) [
    | err e ↦ some false
    | ok cur ↦ verify_from fuel h test cur
  ]
]
