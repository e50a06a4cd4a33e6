-- ===== src/Gef/Heap/Walks.antt =====
-- The walk over the chunks of a heap: where it goes, and that it ends.
use os_project_signal.Prelude.{
  ℕ, zero, suc, ◌+◌, ◌-◌, ◌*◌, ◌^◌, ◌≤◌, ◌<◌, ◌≡◌, refl, ap, sym, Bool, true, false, not,
  Bool-cases, inl, inr, ◌⊎◌, List, [], ◌∷◌, arith, if◌then◌else◌, ltb, ◌==◌,
}
use os_project_signal.Prelude.Result.{Result, ok, err, Result-cases, ok-injective}
use os_project_signal.Gef.Section.{Section, contains, valid}
use os_project_signal.Gef.Heap.Manager.{Heap, malloc_align_address}
use os_project_signal.Gef.Heap.Chunk.{
  Chunk, chunk, read_chunk, sizeof_chunk, size, get_next_chunk, get_next_chunk_addr, Step, stop,
  fail, go, next_step, step, Walk, yields, done, raised, out_of_fuel, chunks,
}
use os_project_signal.Gef.Heap.Sizes.{Sized, malloc_align_address_lem}

-- Every section of a map ends at the limit or before it.
abbrev pub EndBy : ℕ → List Section → Type 0
EndBy limit [] = Unit
EndBy limit (s ∷ maps) = (Section.page_end s ≤ limit) × EndBy limit maps

valid-lt :
    (limit : ℕ) (maps : List Section) (a : ℕ) → EndBy limit maps → valid maps a ≡ true → a < limit
unfolding valid contains
valid-lt limit [] a h e = cc
valid-lt limit (s ∷ maps) a (ends, h) e = elim (Bool-cases (contains s a)) [
  | inl inside ↦ ground arith
  | inr outside ↦ valid-lt limit maps a h (rw outside at e)
]

read_chunk-data_address :
    (h : Heap) (addr base : ℕ) {c : Chunk} → read_chunk h addr base ≡ ok c → c.data_address ≡ addr
unfolding read_chunk
read_chunk-data_address h addr base e = elim (Result-cases (h.read base (sizeof_chunk h))) [
  | inl (bytes, read) ↦ ap Chunk.data_address (sym (ok-injective (rw read at e)))
  | inr (x, failed) ↦ cc (e, failed)
]

chunk-data_address :
    (h : Heap) (addr : ℕ) {c : Chunk}
    → chunk h addr false false ≡ ok c
    → c.data_address ≡ malloc_align_address h addr
unfolding chunk
chunk-data_address h addr {c} e = elim (Bool-cases (ltb addr (2 * h.ptrsize))) [
  | inl low ↦ ground arith
  | inr high ↦
      read_chunk-data_address h (malloc_align_address h addr) (addr - 2 * h.ptrsize) (rw high at e)
]

-- The three guards of a step that goes on.
guarded :
    (at_top empty mapped : Bool) (r : Result Chunk) {c' : Chunk}
    → (if at_top then stop else if empty then stop else if not mapped then stop else next_step r)
      ≡ go c'
    → (empty ≡ false) × (mapped ≡ true) × (r ≡ ok c')
guarded true empty mapped r e = cc
guarded false true mapped r e = cc
guarded false false false r e = cc
guarded false false true (err x) e = cc
guarded false false true (ok c) e = (refl, refl, cc)

-- A step leads to the chunk at the aligned address behind this one, in a mapped section.
pub step-go :
    (h : Heap) (top limit : ℕ) (c : Chunk) {c' : Chunk}
    → EndBy limit h.maps
    → step h top c ≡ go c'
    → (c'.data_address ≡ malloc_align_address h (c.data_address + size c))
      × (8 ≤ size c)
      × (c.data_address + size c < limit)
unfolding step
step-go h top limit c {c'} ends e =
    let (full, inside, next) =
      guarded (c.base_address == top) (size c == 0) (valid h.maps (get_next_chunk_addr c))
        (get_next_chunk h c false) e in
    (
      chunk-data_address h (get_next_chunk_addr c) next,
      ground arith,
      valid-lt limit h.maps (get_next_chunk_addr c) ends inside,
    )

-- So the distance to the limit shrinks.
step-shrinks :
    (h : Heap) (top limit : ℕ) (c : Chunk) {c' : Chunk}
    → Sized h
    → EndBy limit h.maps
    → limit ≤ 2 ^ 53
    → step h top c ≡ go c'
    → limit - c'.data_address < limit - c.data_address
step-shrinks h top limit c {c'} sized ends small e =
    let (at_next, large, inside) = step-go h top limit c ends e in
    let (multiple, above, near) =
      malloc_align_address_lem h (c.data_address + size c) sized (omega arith) in
    omega (arith, at_next, large, inside, above)

Step-cases : (s : Step) → (s ≡ stop) ⊎ ((s ≡ fail) ⊎ ((c : Chunk) × (s ≡ go c)))
Step-cases stop = inl refl
Step-cases fail = inr (inl refl)
Step-cases (go c) = inr (inr (c, refl))

-- Whether a walk ended, in either way, within its fuel.
abbrev pub ends_in : Walk → Bool
ends_in (yields c w) = ends_in w
ends_in done = true
ends_in raised = true
ends_in out_of_fuel = false

-- The walk over the chunks ends, whatever the memory holds: each step goes at least 8 bytes up, and
-- leads only into mapped memory. More steps than there are bytes between the first chunk and the end of
-- the highest section are never made, where these lie below 2 ^ 53.
pub chunks-end :
    (fuel : ℕ) (h : Heap) (top limit : ℕ) (c : Chunk)
    → Sized h
    → EndBy limit h.maps
    → limit ≤ 2 ^ 53
    → limit - c.data_address < fuel
    → ends_in (chunks fuel h top c) ≡ true
unfolding chunks
chunks-end zero h top limit c sized ends small enough = absurd (omega arith)
chunks-end (suc fuel) h top limit c sized ends small enough = elim (Step-cases (step h top c)) [
  | inl stopped ↦ rw stopped refl
  | inr (inl failed) ↦ rw failed refl
  | inr (inr (c', e)) ↦
      let shrinks = step-shrinks h top limit c sized ends small e in
      rw e (chunks-end fuel h top limit c' sized ends small (omega (arith, shrinks)))
]
