-- ===== src/Gef/Heap/Links.antt =====
-- Safe linking: a link of a free list that was protected and stored is revealed.
use os_project_signal.Prelude.{ℕ, ◌≡◌, Bool-cases, inl, inr, refl}
use os_project_signal.Prelude.Xor.{bit_xor_undo}
use os_project_signal.Prelude.Result.{ok}
use os_project_signal.Prelude.Bits.{shr}
use os_project_signal.Gef.Heap.Manager.{Heap, at_least}
use os_project_signal.Gef.Heap.Chunk.{Chunk, protect_ptr, fast_fd}

-- The forward pointer of a free chunk is the next chunk that the allocator linked: since 2.32 the word
-- in memory is the protected pointer, and before it is the pointer itself.
pub fast_fd-protect_ptr :
    (h : Heap) (c : Chunk) (pointer : ℕ)
    → h.read_integer c.data_address ≡ ok (protect_ptr h c.data_address pointer)
    → c.raw_fd ≡ protect_ptr h c.data_address pointer
    → fast_fd h c ≡ ok pointer
unfolding fast_fd protect_ptr
fast_fd-protect_ptr h c pointer stored copied = elim (Bool-cases (at_least h.version 2 32)) [
  | inl new ↦ rw (new, stored, new) (rw (bit_xor_undo (shr c.data_address 12) pointer))
  | inr old ↦ rw (old, copied, old) refl
]
