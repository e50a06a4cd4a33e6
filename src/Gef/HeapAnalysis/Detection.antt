-- ===== src/Gef/HeapAnalysis/Detection.antt =====
-- What the heap analysis reports.
use os_project_signal.Prelude.{
  ℕ, ◌+◌, ◌<◌, ◌≡◌, ◌≢◌, sym, ◌∙◌, inl, inr, true, false, some, List, [], ◌∷◌, All, ◌==◌, arith,
}
use os_project_signal.Gef.Heap.Manager.{Heap}
use os_project_signal.Gef.HeapAnalysis.{
  Item, Session, Config, double_free, unknown_free, stops, is_tracked, pop_tracked, realloc_returns,
  free_called, track, Event, mallocs, reallocs, frees, freed, exits, handle_event, run,
}
use os_project_signal.Gef.HeapAnalysis.Items.{
  times_tracked, times_tracked-append, is_tracked-times, times_tracked-without, pop_tracked-at,
  pop_tracked-times, pop_tracked-none,
}
use os_project_signal.Gef.HeapAnalysis.Tracking.{
  FreedOnce, freed-malloc_returns, freed-realloc_returns, freed-free_called, handle_event-FreedOnce,
}

-- Neither does the event give out the address again nor does the program end.
abbrev pub LeavesFreed : ℕ → Event → Type 0
LeavesFreed addr (mallocs item) = item.0 ≢ addr
LeavesFreed addr (reallocs ptr new) = Unit
LeavesFreed addr (frees other) = Unit
LeavesFreed addr (freed other) = Unit
LeavesFreed addr exits = ⊥

abbrev IsFreed : ℕ → Session → Type 0
IsFreed addr s = 0 < times_tracked addr s.heap_freed_chunks

handle_event-IsFreed :
    (config : Config) (h : Heap) (addr : ℕ) (e : Event) (s : Session)
    → FreedOnce s
    → LeavesFreed addr e
    → IsFreed addr s
    → IsFreed addr (handle_event config h e s).0
unfolding handle_event
handle_event-IsFreed config h addr (mallocs item) s once leaves there =
    rw
      (
        freed-malloc_returns config h item s once,
        times_tracked-without addr item.0 s.heap_freed_chunks,
      )
      (let other : (addr == item.0) ≡ false = ground arith in rw other there)
handle_event-IsFreed config h addr (reallocs ptr new) s once leaves there =
    rw (freed-realloc_returns ptr new s) there
handle_event-IsFreed config h addr (frees other) s once leaves there =
    elim (freed-free_called config other s) [
      | inl same ↦ rw same there
      | inr (item, at_other, absent, added) ↦
          rw (added, times_tracked-append addr s.heap_freed_chunks (item ∷ [])) (omega arith)
    ]
handle_event-IsFreed config h addr (freed other) s once leaves there = there
handle_event-IsFreed config h addr exits s once leaves there = absurd leaves

run-IsFreed :
    (config : Config) (h : Heap) (addr : ℕ) (es : List Event) (s : Session)
    → FreedOnce s
    → All (LeavesFreed addr) es
    → IsFreed addr s
    → IsFreed addr (run config h es s)
unfolding run
run-IsFreed config h addr [] s once leave there = there
run-IsFreed config h addr (e ∷ es) s once (leaves, leave) there =
    run-IsFreed config h addr es (handle_event config h e s).0
      (handle_event-FreedOnce config h e s once) leave
      (handle_event-IsFreed config h addr e s once leaves there)

free_called-FreedOnce :
    (config : Config) (h : Heap) (addr : ℕ) (s : Session)
    → FreedOnce s
    → FreedOnce (free_called config addr s).0
unfolding handle_event
free_called-FreedOnce config h addr s once = handle_event-FreedOnce config h (frees addr) s once

freed-twice :
    (config : Config) (addr : ℕ) (s : Session)
    → addr ≢ 0
    → config.check_double_free ≡ true
    → IsFreed addr s
    → free_called config addr s ≡ (s, stops (double_free addr))
unfolding free_called
freed-twice config addr s real check there =
    let real' : (addr == 0) ≡ false = ground arith in
    let count = is_tracked-times addr s.heap_freed_chunks in
    let twice : is_tracked addr s.heap_freed_chunks ≡ true = ground arith in
    rw (real', twice, check)

free_called-IsFreed :
    (config : Config) (addr : ℕ) (s : Session) (popped : Item × List Item)
    → addr ≢ 0
    → times_tracked addr s.heap_freed_chunks ≡ 0
    → pop_tracked addr s.heap_allocated_chunks ≡ some popped
    → IsFreed addr (free_called config addr s).0
unfolding free_called
free_called-IsFreed config addr s popped real absent in_use =
    let real' : (addr == 0) ≡ false = ground arith in
    let count = is_tracked-times addr s.heap_freed_chunks in
    let fresh : is_tracked addr s.heap_freed_chunks ≡ false = ground arith in
    let at_addr = pop_tracked-at addr s.heap_allocated_chunks popped.0 popped.1 in_use in
    let here : (popped.0.0 == addr) ≡ true = ground arith in
    rw
      (
        free_called,
        real',
        fresh,
        in_use,
        times_tracked-append addr s.heap_freed_chunks (popped.0 ∷ []),
        here,
      )
      (omega arith)

-- A chunk that is in use, and not freed, is freed, and then the program does anything but get its
-- address again or exit: a second free of the chunk stops the program with the warning of a double free,
-- and the session stays.
pub free_called-twice :
    (config : Config) (h : Heap) (addr : ℕ) (es : List Event) (s : Session)
    (popped : Item × List Item)
    → config.check_double_free ≡ true
    → FreedOnce s
    → addr ≢ 0
    → times_tracked addr s.heap_freed_chunks ≡ 0
    → pop_tracked addr s.heap_allocated_chunks ≡ some popped
    → All (LeavesFreed addr) es
    → free_called config addr (run config h es (free_called config addr s).0)
      ≡ (run config h es (free_called config addr s).0, stops (double_free addr))
free_called-twice config h addr es s popped check once real absent in_use leave =
    freed-twice config addr (run config h es (free_called config addr s).0) real check (
      run-IsFreed config h addr es (free_called config addr s).0
        (free_called-FreedOnce config h addr s once) leave
        (free_called-IsFreed config addr s popped real absent in_use))

-- A tracked chunk that realloc moves stays tracked at its old address. Where the check for weird frees is
-- on and the new address is not NULL and stands neither in the list of the chunks in use nor in that of
-- the freed ones, a free of it stops the program with the warning of an unknown value, and the session
-- stays.
pub realloc_returns-unknown :
    (config : Config) (ptr : ℕ) (new : Item) (s : Session) (popped : Item × List Item)
    → config.check_weird_free ≡ true
    → new.0 ≢ 0
    → pop_tracked ptr s.heap_allocated_chunks ≡ some popped
    → times_tracked new.0 s.heap_allocated_chunks ≡ 0
    → times_tracked new.0 s.heap_freed_chunks ≡ 0
    → (s' : Session) × ((realloc_returns ptr new s).0 ≡ s')
      × (times_tracked ptr (Session.heap_allocated_chunks s')
          ≡ times_tracked ptr s.heap_allocated_chunks)
      × (free_called config new.0 s' ≡ (s', stops (unknown_free new.0)))
unfolding realloc_returns free_called
realloc_returns-unknown config ptr new s popped check real in_use absent fresh =
    let s' = track popped.0 (record s { heap_allocated_chunks = popped.1 }) in
    let moved : (x : ℕ)
        → times_tracked x (Session.heap_allocated_chunks s')
          ≡ times_tracked x s.heap_allocated_chunks =
      λ x.
        times_tracked-append x popped.1 (popped.0 ∷ [])
        ∙ sym (
            swapped x popped.0 popped.1
              (pop_tracked-times ptr x s.heap_allocated_chunks popped in_use)) in
    let real' : (new.0 == 0) ≡ false = ground arith in
    let count = is_tracked-times new.0 s.heap_freed_chunks in
    let fresh' : is_tracked new.0 s.heap_freed_chunks ≡ false = ground arith in
    let unknown =
      pop_tracked-none new.0 (Session.heap_allocated_chunks s') (moved new.0 ∙ absent) in
    (s', rw (realloc_returns, in_use), moved ptr, rw (free_called, real', fresh', unknown, check))
  where
    swapped :
        (x : ℕ) (item : Item) (others : List Item) {n : ℕ}
        → n ≡ times_tracked x (item ∷ others)
        → n ≡ times_tracked x others + times_tracked x (item ∷ [])
    swapped x item others e = omega arith
