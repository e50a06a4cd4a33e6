-- ===== src/Gef/Heap/Chunk.antt =====
-- `class GlibcChunk`, `class GlibcFastChunk` and `class GlibcTcacheChunk` of scripts/gef.py.
use Prim.Native.Nat.{bit_xor}
use os_project_signal.Prelude.{
  ℕ, zero, suc, ◌+◌, ◌-◌, ◌*◌, ◌/◌, ◌%◌, Bool, true, false, not, List, take, drop, ltb, ◌==◌,
  if◌then◌else◌,
}
use os_project_signal.Prelude.Int.{ℤ, pos, sub_ℕ}
use os_project_signal.Prelude.Bits.{nat_bit, shr}
use os_project_signal.Prelude.Result.{Result, ok, err, overflow_error, ◌>>=◌, map_ok}
use os_project_signal.Gef.Pack.{value_of, ordered}
use os_project_signal.Gef.Section.{valid}
use os_project_signal.Gef.Heap.Manager.{Heap, at_least, malloc_align_address}

-- c_uint64 or c_uint32
abbrev pub word_size : Heap → ℕ
word_size h = if h.ptrsize == 8 then 8 else 4

-- The word at `offset` of a structure that was copied from `data`.
unfoldable pub word_at : Heap → List ℕ → ℕ → ℕ
unfolding value_of
word_at h bytes offset = value_of (ordered h.host (take (word_size h) (drop offset bytes)))

-- `malloc_chunk_t`: four words, and two pointers of the machine that runs GDB.
abbrev pub sizeof_chunk : Heap → ℕ
sizeof_chunk h = 4 * word_size h + 16

-- The addresses that `__init__` computes, and the structure that `reset` copies.
pub record Chunk : Type 0 where
  pub data_address : ℕ
  pub base_address : ℕ
  pub size_addr : ℕ
  pub prev_size_addr : ℕ
  pub raw_prev_size : ℕ
  pub raw_size : ℕ
  pub raw_fd : ℕ
  pub raw_bk : ℕ

-- `reset`, at the addresses `data` and `base`.
unfoldable pub read_chunk : Heap → ℕ → ℕ → Result Chunk
unfolding word_at
read_chunk h data_address base_address = do
  bytes ← h.read base_address (sizeof_chunk h)
  ok (record {
    data_address = data_address;
    base_address = base_address;
    size_addr = data_address - h.ptrsize;
    prev_size_addr = base_address;
    raw_prev_size = word_at h bytes 0;
    raw_size = word_at h bytes (word_size h);
    raw_fd = word_at h bytes (2 * word_size h);
    raw_bk = word_at h bytes (3 * word_size h);
  })

-- `GlibcChunk(addr, from_base, allow_unaligned)`. Below 2 * ptrsize the base address of a chunk that
-- is told by its data is negative, and GDB raises OverflowError when it is read.
unfoldable pub chunk : Heap → ℕ → Bool → Bool → Result Chunk
unfolding read_chunk malloc_align_address
chunk h addr from_base allow_unaligned =
    let data_address = if from_base then addr + 2 * h.ptrsize else addr in
    let aligned = if allow_unaligned then data_address else malloc_align_address h data_address in
    if from_base
    then read_chunk h aligned addr
    else if ltb addr (2 * h.ptrsize)
    then err overflow_error
    else read_chunk h aligned (addr - 2 * h.ptrsize)

-- self._chunk.size & (~0x07)
unfoldable pub size : Chunk → ℕ
size c = c.raw_size / 8 * 8

-- The value of `ChunkFlags`: PREV_INUSE = 1, IS_MMAPPED = 2, NON_MAIN_ARENA = 4.
unfoldable pub flags : Chunk → ℕ
flags c = c.raw_size % 8

unfoldable pub has_p_bit : Chunk → Bool
unfolding flags
has_p_bit c = nat_bit (flags c) 0

unfoldable pub has_m_bit : Chunk → Bool
unfolding flags
has_m_bit c = nat_bit (flags c) 1

unfoldable pub has_n_bit : Chunk → Bool
unfolding flags
has_n_bit c = nat_bit (flags c) 2

unfoldable pub get_usable_size : Heap → Chunk → ℤ
unfolding size has_m_bit
get_usable_size h c =
    let cursz = size c in
    if cursz == 0
    then pos 0
    else if has_m_bit c
    then sub_ℕ cursz (2 * h.ptrsize)
    else sub_ℕ cursz h.ptrsize

unfoldable pub get_prev_chunk_size : Heap → Chunk → Result ℕ
get_prev_chunk_size h c = h.read_integer c.prev_size_addr

unfoldable pub get_next_chunk_addr : Chunk → ℕ
unfolding size
get_next_chunk_addr c = c.data_address + size c

unfoldable pub get_next_chunk : Heap → Chunk → Bool → Result Chunk
unfolding get_next_chunk_addr chunk
get_next_chunk h c allow_unaligned = chunk h (get_next_chunk_addr c) false allow_unaligned

unfoldable pub is_used : Heap → Chunk → Result Bool
unfolding has_m_bit get_next_chunk has_p_bit
is_used h c = if has_m_bit c then ok true else map_ok has_p_bit (get_next_chunk h c false)

-- How the walk over the chunks ended, behind the chunks that it yielded.
pub data Walk : Type 0 where
  yields : Chunk → Walk → Walk
  done : Walk
  raised : Walk
  out_of_fuel : Walk

-- What the walk does behind a chunk: it ends, raises, or goes on at the next chunk.
pub data Step : Type 0 where
  stop fail : Step
  go : Chunk → Step

abbrev pub next_step : Result Chunk → Step
next_step (ok c) = go c
next_step (err e) = fail

-- The tests of `GlibcChunk.__iter__`, with the `top` of the main arena.
unfoldable pub step : Heap → ℕ → Chunk → Step
unfolding size get_next_chunk_addr valid get_next_chunk
step h top c =
    if c.base_address == top
    then stop
    else if size c == 0
    then stop
    else if not (valid h.maps (get_next_chunk_addr c))
    then stop
    else next_step (get_next_chunk h c false)

-- `GlibcChunk.__iter__`.
unfoldable pub chunks : ℕ → Heap → ℕ → Chunk → Walk
unfolding step
chunks zero h top c = out_of_fuel
chunks (suc fuel) h top c =
    yields c (elim (step h top c) [ stop ↦ done | fail ↦ raised | go c' ↦ chunks fuel h top c' ])

-- Safe linking of the fastbins and the tcache, since glibc 2.32.
unfoldable pub protect_ptr : Heap → ℕ → ℕ → ℕ
protect_ptr h position pointer =
    if not (at_least h.version 2 32) then pointer else bit_xor (shr position 12) pointer

unfoldable pub reveal_ptr : Heap → ℕ → Result ℕ
reveal_ptr h pointer =
    if not (at_least h.version 2 32)
    then ok pointer
    else map_ok (λ v. bit_xor v (shr pointer 12)) (h.read_integer pointer)

-- `GlibcFastChunk.fd`
unfoldable pub fast_fd : Heap → Chunk → Result ℕ
unfolding reveal_ptr
fast_fd h c = if not (at_least h.version 2 32) then ok c.raw_fd else reveal_ptr h c.data_address
