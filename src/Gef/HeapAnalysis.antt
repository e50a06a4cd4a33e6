-- ===== src/Gef/HeapAnalysis.antt =====
-- The heap analysis of scripts/gef.py: the breakpoints at malloc, realloc and free, and what they track
-- in the session.
pub mod Items
pub mod Tracking
pub mod Detection
pub mod Overlap
mod Tests
use os_project_signal.Prelude.{
  ℕ, zero, suc, ◌+◌, ◌-◌, ◌*◌, Bool, true, false, not, ◌&&◌, ◌||◌, Option, none, some, List, [],
  ◌∷◌, ◌++◌, length, get_elem?, ◌==◌, leb, ltb, if◌then◌else◌,
}
use os_project_signal.Prelude.Result.{Error, Result, ok, err}
use os_project_signal.Gef.Heap.Manager.{Heap}
use os_project_signal.Gef.Heap.Chunk.{chunk, size}

-- The address of a chunk and its size.
abbrev pub Item : Type 0
Item = ℕ × ℕ

-- A watchpoint is its address; one that is taken out of the list is disabled.
pub record Session : Type 0 where
  pub heap_allocated_chunks : List Item
  pub heap_freed_chunks : List Item
  pub heap_uaf_watchpoints : List ℕ

pub record Config : Type 0 where
  pub check_free_null : Bool
  pub check_double_free : Bool
  pub check_weird_free : Bool
  pub check_uaf : Bool
  pub check_heap_overlap : Bool

-- What a warning is about, without its text.
pub data Warning : Type 0 where
  free_null : Warning
  double_free unknown_free : ℕ → Warning
  -- the new chunk, the chunk that it overlaps, and the offset of the one in the other
  heap_overlap : Item → Item → ℕ → Warning

-- The result of `stop`: False, or True behind a warning, or an exception.
pub data Answer : Type 0 where
  goes_on : Answer
  stops : Warning → Answer
  raises : Error → Answer

abbrev pub is_tracked : ℕ → List Item → Bool
is_tracked addr [] = false
is_tracked addr (item ∷ items) = (item.0 == addr) || is_tracked addr items

-- The first chunk with the address, and the others.
unfoldable pub pop_tracked : ℕ → List Item → Option (Item × List Item)
pop_tracked addr [] = none
pop_tracked addr (item ∷ items) =
    let rest = pop_tracked addr items in
    if item.0 == addr
    then some (item, items)
    else elim rest [ none ↦ none | some (found, others) ↦ some (found, item ∷ others) ]

-- list.remove
abbrev pub remove : Item → List Item → List Item
remove item [] = []
remove item (other ∷ items) =
    if other.0 == item.0 && other.1 == item.1 then items else other ∷ remove item items

-- The loop over `heap_freed_chunks`, which takes entries out of the list that it runs over: `i` is the
-- place of the next one. A list of `n` entries has at most `n` turns.
unfoldable pub sweep_freed : ℕ → ℕ → ℕ → List Item → List Item
sweep_freed zero i loc items = items
sweep_freed (suc n) i loc items = elim (get_elem? items i) [
  | none ↦ items
  | some item ↦ sweep_freed n (i + 1) loc (if item.0 == loc then remove item items else items)
]

-- The loop over `heap_uaf_watchpoints`: behind one that is taken out the next one is passed over.
unfoldable pub sweep_watchpoints : ℕ → ℕ → List ℕ → List ℕ
sweep_watchpoints loc size' [] = []
sweep_watchpoints loc size' (wp ∷ []) = if leb loc wp && ltb wp (loc + size') then [] else wp ∷ []
sweep_watchpoints loc size' (wp ∷ next ∷ wps) =
    let passed = sweep_watchpoints loc size' wps in
    let rest = sweep_watchpoints loc size' (next ∷ wps) in
    if leb loc wp && ltb wp (loc + size') then next ∷ passed else wp ∷ rest

-- The first chunk in use that the new chunk lies in, behind its header.
unfoldable pub find_overlap : Heap → Item → List Item → Answer
unfolding chunk size
find_overlap h new [] = goes_on
find_overlap h new (item ∷ items) =
    let rest = find_overlap h new items in
    elim (chunk h item.0 false true) [
      | err e ↦ raises e
      | ok current_chunk ↦
          let current_chunk_size = size current_chunk in
          if leb item.0 new.0 && ltb new.0 (item.0 + current_chunk_size)
          then (if ltb new.0 (item.0 + 2 * h.ptrsize)
              then rest
              else stops (
                  heap_overlap new (item.0, current_chunk_size) (new.0 - (item.0 + 2 * h.ptrsize))))
          else rest
    ]

abbrev pub track : Item → Session → Session
track item s = record s { heap_allocated_chunks = Session.heap_allocated_chunks s ++ item ∷ [] }

-- `TraceMallocRetBreakpoint.stop`, for the address that malloc returns.
unfoldable pub malloc_returns : Config → Heap → Item → Session → Session × Answer
unfolding sweep_freed sweep_watchpoints find_overlap
malloc_returns config h item s =
    let freed = s.heap_freed_chunks in
    let s' = record s {
      heap_freed_chunks = sweep_freed (length freed) 0 item.0 freed;
      heap_uaf_watchpoints = sweep_watchpoints item.0 item.1 s.heap_uaf_watchpoints;
    } in
    if Config.check_heap_overlap config
    then elim (find_overlap h item (Session.heap_allocated_chunks s')) [
      | goes_on ↦ (track item s', goes_on)
      | stops warning ↦ (s', stops warning)
      | raises e ↦ (s', raises e)
    ]
    else (track item s', goes_on)

-- `TraceReallocRetBreakpoint.stop`
unfoldable pub realloc_returns : ℕ → Item → Session → Session × Answer
unfolding pop_tracked
realloc_returns ptr new s = elim (pop_tracked ptr s.heap_allocated_chunks) [
  | none ↦ (track new s, goes_on)
  | some (item, others) ↦ (track item (record s { heap_allocated_chunks = others }), goes_on)
]

-- `TraceFreeBreakpoint.stop`
unfoldable pub free_called : Config → ℕ → Session → Session × Answer
unfolding pop_tracked
free_called config addr s =
    if addr == 0
    then (s, if config.check_free_null then stops free_null else goes_on)
    else if is_tracked addr s.heap_freed_chunks
    then (s, if config.check_double_free then stops (double_free addr) else goes_on)
    else elim (pop_tracked addr s.heap_allocated_chunks) [
      | none ↦ (s, if config.check_weird_free then stops (unknown_free addr) else goes_on)
      | some (item, others) ↦ (
        record s {
          heap_allocated_chunks = others;
          heap_freed_chunks = s.heap_freed_chunks ++ item ∷ [];
        },
        goes_on,
      )
    ]

-- `TraceFreeRetBreakpoint.stop`
abbrev pub free_returns : ℕ → Session → Session × Answer
free_returns addr s =
    (record s { heap_uaf_watchpoints = s.heap_uaf_watchpoints ++ addr ∷ [] }, goes_on)

-- The lists at the start, and behind `clean`.
abbrev pub clean : Session
clean = record { heap_allocated_chunks = []; heap_freed_chunks = []; heap_uaf_watchpoints = [] }

-- What the program under debug does, as the breakpoints see it.
pub data Event : Type 0 where
  mallocs : Item → Event
  reallocs : ℕ → Item → Event
  frees freed : ℕ → Event
  exits : Event

unfoldable pub handle_event : Config → Heap → Event → Session → Session × Answer
unfolding malloc_returns realloc_returns free_called
handle_event config h (mallocs item) s = malloc_returns config h item s
handle_event config h (reallocs ptr new) s = realloc_returns ptr new s
handle_event config h (frees addr) s = free_called config addr s
handle_event config h (freed addr) s = free_returns addr s
handle_event config h exits s = (clean, goes_on)

-- The session behind events, of which each may stop the program.
unfoldable pub run : Config → Heap → List Event → Session → Session
unfolding handle_event
run config h [] s = s
run config h (e ∷ es) s = run config h es (handle_event config h e s).0
