-- ===== src/Gef/Heap/Tests.antt =====
-- A small heap, as an input of the theorems.
use os_project_signal.Prelude.{
  ℕ, ◌+◌, ◌≤◌, ◌≡◌, refl, inr, true, false, replicate, ◌++◌, [], ◌∷◌, arith,
}
use os_project_signal.Prelude.Result.{ok}
use os_project_signal.Gef.Elf.Enums.{little_endian}
use os_project_signal.Gef.Section.{Section}
use os_project_signal.Gef.Heap.Manager.{Heap, min_chunk_size}
use os_project_signal.Gef.Heap.Chunk.{Chunk, chunks, protect_ptr}
use os_project_signal.Gef.Heap.Sizes.{Sized}
use os_project_signal.Gef.Heap.Walks.{ends_in, chunks-end}

abbrev mapped : Section
mapped = record {
  page_start = 0x1000;
  page_end = 0x1100;
  offset = 0;
  permission = record { execute = false; write = true; read = true };
  inode = 0;
  path = "[heap]";
}

-- Every chunk has the size word 0x21, and the word at any address of its page is the protected link
-- to 0x1040.
abbrev small_heap : Heap
small_heap = record {
  ptrsize = 8;
  version = (2, 35);
  is_x86_32 = false;
  read = λ addr n. ok (replicate 8 0 ++ 0x21 ∷ replicate 39 0);
  read_integer = λ addr. ok 0x1041;
  maps = mapped ∷ [];
  host = little_endian;
}

abbrev sized : Sized small_heap
sized = record { size_lem = inr refl }

abbrev chunk_at : ℕ → ℕ → Chunk
chunk_at addr fd = record {
  data_address = addr + 0x10;
  base_address = addr;
  size_addr = addr + 8;
  prev_size_addr = addr;
  raw_prev_size = 0;
  raw_size = 0x21;
  raw_fd = fd;
  raw_bk = 0;
}

walk_example : ends_in (chunks 300 small_heap 0x10e0 (chunk_at 0x1000 0)) ≡ true
walk_example =
    chunks-end 300 small_heap 0x10e0 0x1100 (chunk_at 0x1000 0) sized (omega arith, tt)
      (omega arith) (omega arith)

protected_lem : ok 0x1041 ≡ ok (protect_ptr small_heap 0x1010 0x1040)
unfolding protect_ptr
protected_lem = refl

link_lem : 0x1041 ≡ protect_ptr small_heap 0x1010 0x1040
unfolding protect_ptr
link_lem = refl

smallest_lem : min_chunk_size small_heap ≤ 40
unfolding min_chunk_size
smallest_lem = omega arith
