-- ===== src/Kernel/System.antt =====
-- The process table with the queue of tasks and the processors: the globals of os/proc.c and os/sched.c.
pub mod Counts
pub mod Consistent
pub mod Keeps
use os_project_signal.Prelude.{
  ℕ, zero, suc, ◌+◌, Option, none, some, List, set, get_elem?, Bool, true, false,
}
use os_project_signal.Prelude.Int.{ℤ}
use os_project_signal.Signal.State.{
  ProcState, unused, used, sleeping, runnable, running, zombie, stopped, Proc,
}
use os_project_signal.Kernel.Queue.{Queue, push_queue}

abbrev pub eq_state : ProcState → ProcState → Bool
eq_state unused unused = true
eq_state used used = true
eq_state sleeping sleeping = true
eq_state runnable runnable = true
eq_state running running = true
eq_state zombie zombie = true
eq_state stopped stopped = true
eq_state s s' = false

-- `cpus` has `c->proc` for each processor, `next_pid` is PID of `allocpid`.
pub record System : Type 0 where
  pub pool : List Proc
  pub cpus : List (Option ℕ)
  pub task_queue : Queue
  pub next_pid : ℤ
  pub init_proc : Option ℕ

-- An operation on the system; `none` where the kernel panics or reads through NULL.
abbrev pub Op : Type 0
Op = System → Option System

-- pool[i] = p
abbrev pub put_proc : ℕ → Proc → System → System
put_proc i p s = record s { pool = set (System.pool s) i p }

-- The process with index `i`, changed by an operation that is given it.
abbrev pub with_proc : ℕ → (Proc → Op) → Op
with_proc i f s = elim (get_elem? (System.pool s) i) [ none ↦ none | some p ↦ f p s ]

abbrev pub push_task : ℕ → Op
push_task i s = elim (push_queue (System.task_queue s) i) [
  | none ↦ none
  | some q ↦ some (record s { task_queue = q })
]

-- The state is made RUNNABLE where it is not.
unfoldable pub add_task : ℕ → Op
unfolding push_queue
add_task i = with_proc i (λ p s. push_task i (put_proc i (record p { state = runnable }) s))

-- A loop over `pool`, from index `i` on, for `n` processes.
unfoldable pub each : (ℕ → Op) → ℕ → ℕ → Op
each f zero i s = some s
each f (suc n) i s = elim (f i s) [ none ↦ none | some s' ↦ each f n (i + 1) s' ]

-- curr_proc()
abbrev pub curr_proc : ℕ → System → Option ℕ
curr_proc cpu s = elim (get_elem? (System.cpus s) cpu) [ none ↦ none | some c ↦ c ]
