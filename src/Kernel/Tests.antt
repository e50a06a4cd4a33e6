-- ===== src/Kernel/Tests.antt =====
-- What the theorems say of small systems.
mod Systems
mod Runs
use os_project_signal.Prelude.{
  ℕ, zero, suc, ◌+◌, ◌≤◌, ◌<◌, ◌≡◌, ◌≢◌, refl, sym, ap, ◌∙◌, ◌⊎◌, inl, inr, Bool, true, false,
  Option, none, some, List, [], ◌∷◌, ◌++◌, get_elem?, set, arith, ◌==◌,
}
use os_project_signal.Prelude.Int.{ℤ, pos, negsuc, eqb_ℤ}
use os_project_signal.Signal.State.{unused, Proc, of_proc, killed_by, sigkill, sigchld}
use os_project_signal.Signal.Send.{sys_sigkill, find_by_pid}
use os_project_signal.Signal.Send.Search.{Returns, sys_sigkill-Returns}
use os_project_signal.Kernel.Queue.{Queue, nproc, push_queue, pop_queue}
use os_project_signal.Kernel.Queue.Refine.{
  contents, view, push_list, pop_list, push_queue-refines, pop_queue-refines,
}
use os_project_signal.Kernel.System.{System}
use os_project_signal.Kernel.System.Consistent.{IsConsistent}
use os_project_signal.Kernel.Process.{
  find_unused, allocproc, wakeup, schedule, turn, turns, all_dead,
}
use os_project_signal.Kernel.Process.Scheduling.{Scheduled, schedule-IsConsistent}
use os_project_signal.Kernel.Process.Turns.{runnable-runs}
use os_project_signal.Kernel.Process.Wakeup.{IsAwake, wakeup-IsAwake}
use os_project_signal.Kernel.Family.{
  NewMemory, copied, fork, exit, has_children, find_zombie, sleeps, wait_round, kill,
}
use os_project_signal.Kernel.Family.Transitions.{ForkOutcome, fork-Returns}
use os_project_signal.Kernel.Family.Endings.{exit-IsConsistent}
use os_project_signal.Kernel.Family.Waiting.{WaitReturns, WaitSleeps, wait_round-Returns}
use os_project_signal.Kernel.Family.Killing.{ParentFirst, kill-panics, kill-Returns}
use os_project_signal.Kernel.Family.Stale.{kill-born_killed}
use os_project_signal.Kernel.Tests.Systems.{
  no_memory, idle, one_task, one_task-IsQueue, init_runs, child_sleeps, asleep, asleep-IsConsistent,
  exited, exited-IsConsistent, ready, ready-IsConsistent, exiting, exiting-IsConsistent,
  child_before, parent_behind, behind, behind-IsConsistent, child_ready,
}

push_queue-refines_example : view (push_queue one_task 5) ≡ push_list (contents one_task) 5
push_queue-refines_example = push_queue-refines one_task 5 one_task-IsQueue

pop_queue-refines_example :
    (contents (pop_queue one_task).0, (pop_queue one_task).1) ≡ pop_list (contents one_task)
pop_queue-refines_example = pop_queue-refines one_task one_task-IsQueue

ready_alive : all_dead (System.pool ready) ≡ false
unfolding all_dead
ready_alive = refl

schedule-IsConsistent_example :
    (s' : System) × (schedule 1 ready ≡ some s') × IsConsistent s' × Scheduled ready 1 s'
schedule-IsConsistent_example = schedule-IsConsistent ready 1 ready-IsConsistent refl ready_alive

runnable-runs_example :
    (n : ℕ) × (t s' : System) × (n < nproc)
    × (turns 1 n ready ≡ some t)
    × (schedule 1 t ≡ some s')
    × IsConsistent s'
    × (get_elem? (System.cpus s') 1 ≡ some (some 1))
runnable-runs_example = runnable-runs 1 1 child_ready ready ready-IsConsistent refl refl refl

-- init wakes its child, which sleeps on its address.
wakeup-IsAwake_example :
    (s' : System) × (wakeup (of_proc 0) asleep ≡ some s')
    × IsConsistent s'
    × (System.cpus s' ≡ System.cpus asleep)
    × ((j : ℕ) (r : Proc) → get_elem? (System.pool s') j ≡ some r → IsAwake (of_proc 0) r)
wakeup-IsAwake_example = wakeup-IsAwake (of_proc 0) asleep asleep-IsConsistent

sys_sigkill-Returns_example : Returns (sys_sigkill 0 none (pos 2) (pos 4) (pos 0)) asleep
sys_sigkill-Returns_example =
    sys_sigkill-Returns 0 (pos 2) (pos 4) (pos 0) asleep 0 asleep-IsConsistent refl

fork-Returns_example : ForkOutcome 0 (copied no_memory) asleep
fork-Returns_example = fork-Returns 0 0 (copied no_memory) asleep asleep-IsConsistent refl

exit-IsConsistent_example :
    (s' : System) × (exit 0 1 (pos 3) exiting ≡ some s')
    × IsConsistent s'
    × (System.cpus s' ≡ set (System.cpus exiting) 0 none)
exit-IsConsistent_example = exit-IsConsistent 0 1 (pos 3) exiting exiting-IsConsistent refl refl

wait_round-Returns_example :
    WaitReturns 0 (pos 2) exited (wait_round 0 0 (pos 2) (some 64) exited)
    ⊎ WaitSleeps 0 0 (pos 2) exited (wait_round 0 0 (pos 2) (some 64) exited)
wait_round-Returns_example =
    wait_round-Returns 0 0 (pos 2) (some 64) exited exited-IsConsistent refl

found_5 : find_by_pid none (pos 5) (System.pool behind) ≡ some (some 0)
unfolding find_by_pid
found_5 = refl

-- The process 5 stands before its parent, the process 3.
kill-panics_example : kill 0 (pos 5) behind ≡ none
kill-panics_example =
    kill-panics 0 (pos 5) behind 0 1 child_before parent_behind behind-IsConsistent found_5 refl
      refl (λ e. omega arith) refl (λ j r less at_j. absurd (omega arith))

found_0 : find_by_pid none (pos 0) (System.pool asleep) ≡ some (some 2)
unfolding find_by_pid
found_0 = refl

first_unused : find_unused 0 (System.pool asleep) ≡ some 2
unfolding find_unused
first_unused = refl

-- The pid 0 is that of the places that were never used.
kill-born_killed_example :
    (s' t : System) × (np : Proc) × (kill 0 (pos 0) asleep ≡ some (s', pos 0))
    × (allocproc s' ≡ some (t, some 2))
    × (get_elem? (System.pool t) 2 ≡ some np)
    × (Proc.killed np ≡ killed_by sigkill)
kill-born_killed_example =
    kill-born_killed 0 2 (pos 0) asleep idle found_0 first_unused refl refl refl
