-- ===== src/Gef/HeapAnalysis/Overlap.antt =====
-- The check for an overlap of the heap analysis.
use os_project_signal.Prelude.{
  ℕ, ◌+◌, ◌-◌, ◌*◌, ◌≤◌, ◌<◌, ◌≡◌, refl, sym, ◌∙◌, ◌⊎◌, inl, inr, Bool, true, false, not, ◌&&◌,
  Bool-cases, List, [], ◌∷◌, All, ◌↔◌, leb, ltb, if◌then◌else◌, arith,
}
use os_project_signal.Prelude.Result.{Error, ok, Result-cases}
use os_project_signal.Gef.Heap.Manager.{Heap}
use os_project_signal.Gef.Heap.Chunk.{Chunk, chunk, size}
use os_project_signal.Gef.HeapAnalysis.{
  Item, Warning, heap_overlap, Answer, goes_on, stops, raises, find_overlap,
}

-- The new address lies in the chunk at `addr`, behind the two words from there on.
abbrev pub inside : Heap → ℕ → ℕ → Chunk → Bool
inside h new addr c =
    leb addr new && ltb new (addr + size c) && not (ltb new (addr + 2 * h.ptrsize))

-- What the check finds for one chunk.
find_overlap-step :
    (h : Heap) (new item : Item) (items : List Item) (c : Chunk)
    → chunk h item.0 false true ≡ ok c
    → find_overlap h new (item ∷ items) ≡ (
        if inside h new.0 item.0 c
        then stops (heap_overlap new (item.0, size c) (new.0 - (item.0 + 2 * h.ptrsize)))
        else find_overlap h new items)
unfolding find_overlap
find_overlap-step h new item items c read =
    rw (find_overlap, read)
      (by_tests (leb item.0 new.0 && ltb new.0 (item.0 + size c))
        (ltb new.0 (item.0 + 2 * h.ptrsize)) _ _)
  where
    by_tests :
        (a b : Bool) (x y : Answer)
        → (if a then (if b then y else x) else y) ≡ (if a && not b then x else y)
    by_tests true true x y = refl
    by_tests true false x y = refl
    by_tests false b x y = refl

-- The chunk at a tracked address can be read, and the new address lies in front of its address and the
-- two words from there on, or behind as many bytes from its address as the chunk has.
abbrev pub IsClear : Heap → ℕ → Item → Type 0
IsClear h new item =
    (c : Chunk) × (chunk h item.0 false true ≡ ok c)
    × ((new < item.0 + 2 * h.ptrsize) ⊎ (item.0 + size c ≤ new))

outside :
    (new addr header n : ℕ)
    → (leb addr new && ltb new (addr + n) && not (ltb new (addr + header))) ≡ false
    → (new < addr + header) ⊎ (addr + n ≤ new)
outside new addr header n h = ground arith

not_inside :
    (new addr header n : ℕ)
    → (new < addr + header) ⊎ (addr + n ≤ new)
    → (leb addr new && ltb new (addr + n) && not (ltb new (addr + header))) ≡ false
not_inside new addr header n (inl below) = ground arith
not_inside new addr header n (inr above) = ground arith

raises_ne : {e : Error} → raises e ≡ goes_on → ⊥
raises_ne h = cc

stops_ne : {w : Warning} → stops w ≡ goes_on → ⊥
stops_ne h = cc

find_overlap-IsClear :
    (h : Heap) (new : Item) (items : List Item)
    → find_overlap h new items ≡ goes_on
    → All (IsClear h new.0) items
unfolding find_overlap
find_overlap-IsClear h new [] nothing = tt
find_overlap-IsClear h new (item ∷ items) nothing =
    elim (Result-cases (chunk h item.0 false true)) [
      | inr (e, raised) ↦ absurd (raises_ne (rw (find_overlap, raised) at nothing))
      | inl (c, read) ↦
          let step = find_overlap-step h new item items c read in
          elim (Bool-cases (inside h new.0 item.0 c)) [
            | inl hit ↦ absurd (stops_ne (sym (rw hit at step) ∙ nothing))
            | inr miss ↦ (
              (c, read, outside new.0 item.0 (2 * h.ptrsize) (size c) miss),
              find_overlap-IsClear h new items (sym (rw miss at step) ∙ nothing),
            )
          ]
    ]

IsClear-find_overlap :
    (h : Heap) (new : Item) (items : List Item)
    → All (IsClear h new.0) items
    → find_overlap h new items ≡ goes_on
unfolding find_overlap
IsClear-find_overlap h new [] clear = refl
IsClear-find_overlap h new (item ∷ items) ((c, read, apart), clear) =
    let miss : inside h new.0 item.0 c ≡ false =
      not_inside new.0 item.0 (2 * h.ptrsize) (size c) apart in
    find_overlap-step h new item items c read ∙ rw miss (IsClear-find_overlap h new items clear)

-- The check finds nothing exactly where the chunk at every tracked address can be read and the new address
-- is clear of it: an address is reported from two words behind a tracked one on, up to the size of the
-- chunk, and neither the tracked address itself nor one in the two words from there on is.
pub find_overlap_iff :
    (h : Heap) (new : Item) (items : List Item)
    → (find_overlap h new items ≡ goes_on) ↔ All (IsClear h new.0) items
find_overlap_iff h new items = (find_overlap-IsClear h new items, IsClear-find_overlap h new items)
