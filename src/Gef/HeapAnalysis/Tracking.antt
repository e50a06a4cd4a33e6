-- ===== src/Gef/HeapAnalysis/Tracking.antt =====
-- What the heap analysis tracks: no chunk stands twice in the list of the freed chunks, whatever happens.
use os_project_signal.Prelude.{
  ℕ, ◌≤◌, ◌≡◌, refl, ◌⊎◌, inl, inr, Bool-cases, Option-cases, List, [], ◌∷◌, ◌++◌, ◌==◌, arith,
}
use os_project_signal.Prelude.Result.{Error}
use os_project_signal.Gef.Heap.Manager.{Heap}
use os_project_signal.Gef.HeapAnalysis.{
  Item, Session, Config, Warning, Answer, goes_on, stops, raises, is_tracked, pop_tracked,
  find_overlap, malloc_returns, realloc_returns, free_called, Event, mallocs, reallocs, frees,
  freed, exits, handle_event, run,
}
use os_project_signal.Gef.HeapAnalysis.Items.{
  times_tracked, times_tracked-append, is_tracked-times, without, times_tracked-without,
  sweep_freed-without, pop_tracked-at,
}

-- No address stands twice in the list of the freed chunks.
abbrev pub FreedOnce : Session → Type 0
FreedOnce s = (addr : ℕ) → times_tracked addr s.heap_freed_chunks ≤ 1

Answer-cases :
    (a : Answer)
    → (a ≡ goes_on) ⊎ (((w : Warning) × (a ≡ stops w)) ⊎ ((e : Error) × (a ≡ raises e)))
Answer-cases goes_on = inl refl
Answer-cases (stops w) = inr (inl (w, refl))
Answer-cases (raises e) = inr (inr (e, refl))

-- `malloc` takes its address from the freed chunks, whether or not it stops.
pub freed-malloc_returns :
    (config : Config) (h : Heap) (item : Item) (s : Session)
    → FreedOnce s
    → Session.heap_freed_chunks (malloc_returns config h item s).0
      ≡ without item.0 s.heap_freed_chunks
unfolding malloc_returns
freed-malloc_returns config h item s once =
    let swept = sweep_freed-without item.0 s.heap_freed_chunks (once item.0) in
    elim (Bool-cases (Config.check_heap_overlap config)) [
      | inr unchecked ↦ rw (malloc_returns, unchecked, swept)
      | inl checked ↦ elim (Answer-cases (find_overlap h item s.heap_allocated_chunks)) [
        | inl none_found ↦ rw (malloc_returns, checked, none_found, swept)
        | inr (inl (w, stopped)) ↦ rw (malloc_returns, checked, stopped, swept)
        | inr (inr (e, raised)) ↦ rw (malloc_returns, checked, raised, swept)
      ]
    ]

pub freed-realloc_returns :
    (ptr : ℕ) (new : Item) (s : Session)
    → Session.heap_freed_chunks (realloc_returns ptr new s).0 ≡ s.heap_freed_chunks
unfolding realloc_returns
freed-realloc_returns ptr new s = elim (Option-cases (pop_tracked ptr s.heap_allocated_chunks)) [
  | inl unknown ↦ rw (realloc_returns, unknown)
  | inr (popped, found) ↦ rw (realloc_returns, found)
]

-- `free` adds its address where that was in use and not freed, and else changes nothing.
pub freed-free_called :
    (config : Config) (addr : ℕ) (s : Session)
    → ((free_called config addr s).0 ≡ s)
      ⊎ ((item : Item) × (item.0 ≡ addr)
          × (times_tracked addr s.heap_freed_chunks ≡ 0)
          × (Session.heap_freed_chunks (free_called config addr s).0
              ≡ s.heap_freed_chunks ++ item ∷ []))
unfolding free_called
freed-free_called config addr s = elim (Bool-cases (addr == 0)) [
  | inl null ↦ inl (rw (free_called, null))
  | inr real ↦ elim (Bool-cases (is_tracked addr s.heap_freed_chunks)) [
    | inl twice ↦ inl (rw (free_called, real, twice))
    | inr once ↦ elim (Option-cases (pop_tracked addr s.heap_allocated_chunks)) [
      | inl unknown ↦ inl (rw (free_called, real, once, unknown))
      | inr (popped, found) ↦
          let count = is_tracked-times addr s.heap_freed_chunks in
          inr (
            popped.0,
            pop_tracked-at addr s.heap_allocated_chunks popped.0 popped.1 found,
            ground arith,
            rw (free_called, real, once, found),
          )
    ]
  ]
]

pub handle_event-FreedOnce :
    (config : Config) (h : Heap) (e : Event) (s : Session)
    → FreedOnce s
    → FreedOnce (handle_event config h e s).0
unfolding handle_event
handle_event-FreedOnce config h (mallocs item) s once = λ addr.
    rw
      (
        freed-malloc_returns config h item s once,
        times_tracked-without addr item.0 s.heap_freed_chunks,
      )
      (let most = once addr in ground arith)
handle_event-FreedOnce config h (reallocs ptr new) s once =
    λ addr. rw (freed-realloc_returns ptr new s) (once addr)
handle_event-FreedOnce config h (frees addr) s once = elim (freed-free_called config addr s) [
  | inl same ↦ λ x. rw same (once x)
  | inr (item, at_addr, absent, added) ↦ λ x.
      rw (added, times_tracked-append x s.heap_freed_chunks (item ∷ []))
        (let most = once x in
          elim (Bool-cases (item.0 == x)) [
            | inl same ↦
                let at_x : addr ≡ x = ground arith in
                let absent' : times_tracked x s.heap_freed_chunks ≡ 0 = rw at_x at absent in
                rw (same, absent') (omega arith)
            | inr other ↦ rw other (omega arith)
          ])
]
handle_event-FreedOnce config h (freed addr) s once = once
handle_event-FreedOnce config h exits s once = λ addr. omega arith

-- Whatever the program does behind a session in which no address stands twice in the list of the freed
-- chunks, none stands there twice.
pub run-FreedOnce :
    (config : Config) (h : Heap) (es : List Event) (s : Session)
    → FreedOnce s
    → FreedOnce (run config h es s)
unfolding run
run-FreedOnce config h [] s once = once
run-FreedOnce config h (e ∷ es) s once =
    run-FreedOnce config h es (handle_event config h e s).0
      (handle_event-FreedOnce config h e s once)
