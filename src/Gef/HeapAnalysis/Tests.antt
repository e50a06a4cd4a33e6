-- ===== src/Gef/HeapAnalysis/Tests.antt =====
-- A session with one chunk in use, and a heap of which each chunk has 32 bytes.
use os_project_signal.Prelude.{
  ◌≡◌, refl, true, false, some, List, [], ◌∷◌, All, ◌↔◌, ◌++◌, replicate, arith,
}
use os_project_signal.Prelude.Result.{ok}
use os_project_signal.Gef.Elf.Enums.{little_endian}
use os_project_signal.Gef.Heap.Manager.{Heap}
use os_project_signal.Gef.HeapAnalysis.{
  Session, Config, double_free, unknown_free, goes_on, stops, find_overlap, pop_tracked,
  realloc_returns, free_called, Event, mallocs, frees, run,
}
use os_project_signal.Gef.HeapAnalysis.Items.{times_tracked}
use os_project_signal.Gef.HeapAnalysis.Detection.{free_called-twice, realloc_returns-unknown}
use os_project_signal.Gef.HeapAnalysis.Overlap.{IsClear, find_overlap_iff}

abbrev heap : Heap
heap = record {
  ptrsize = 8;
  version = (2, 35);
  is_x86_32 = false;
  read = λ addr n. ok (replicate 8 0 ++ 0x21 ∷ replicate 39 0);
  read_integer = λ addr. ok 0;
  maps = [];
  host = little_endian;
}

-- The settings at the start.
abbrev config : Config
config = record {
  check_free_null = false;
  check_double_free = true;
  check_weird_free = true;
  check_uaf = true;
  check_heap_overlap = true;
}

abbrev one_chunk : Session
one_chunk = record {
  heap_allocated_chunks = (0x1010, 24) ∷ [];
  heap_freed_chunks = [];
  heap_uaf_watchpoints = [];
}

abbrev events : List Event
events = mallocs (0x2010, 24) ∷ frees 0x2010 ∷ []

in_use : pop_tracked 0x1010 (Session.heap_allocated_chunks one_chunk) ≡ some ((0x1010, 24), [])
unfolding pop_tracked
in_use = refl

free_called-twice_example :
    free_called config 0x1010 (run config heap events (free_called config 0x1010 one_chunk).0)
    ≡ (run config heap events (free_called config 0x1010 one_chunk).0, stops (double_free 0x1010))
free_called-twice_example =
    free_called-twice config heap 0x1010 events one_chunk ((0x1010, 24), []) refl
      (λ addr. omega arith) (λ e. omega arith) refl in_use ((λ e. omega arith), (tt, tt))

realloc_returns-unknown_example :
    (s' : Session) × ((realloc_returns 0x1010 (0x3010, 64) one_chunk).0 ≡ s')
    × (times_tracked 0x1010 (Session.heap_allocated_chunks s')
        ≡ times_tracked 0x1010 (Session.heap_allocated_chunks one_chunk))
    × (free_called config 0x3010 s' ≡ (s', stops (unknown_free 0x3010)))
realloc_returns-unknown_example =
    realloc_returns-unknown config 0x1010 (0x3010, 64) one_chunk ((0x1010, 24), []) refl
      (λ e. omega arith) in_use refl refl

-- The new address 0x1018 is in the second word of the chunk's data, and nothing is reported.
find_overlap_iff_example :
    (find_overlap heap (0x1018, 24) ((0x1010, 24) ∷ []) ≡ goes_on)
    ↔ All (IsClear heap 0x1018) ((0x1010, 24) ∷ [])
find_overlap_iff_example = find_overlap_iff heap (0x1018, 24) ((0x1010, 24) ∷ [])
