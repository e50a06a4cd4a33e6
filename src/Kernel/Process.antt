-- ===== src/Kernel/Process.antt =====
-- os/proc.c and os/sched.c: the life of a process. Each lock is given back by the operation that takes
-- it, and what stands between is one step here. A switch to the scheduler and what the scheduler does
-- behind it are one step too, since `p->lock` is held across both.
pub mod Transitions
pub mod Scheduling
pub mod Turns
pub mod Wakeup
use os_project_signal.Prelude.{
  ℕ, zero, suc, ◌+◌, Bool, true, false, not, ◌&&◌, ◌||◌, Option, none, some, List, [], ◌∷◌, length,
  set, get_elem?, ◌==◌, leb, if◌then◌else◌,
}
use os_project_signal.Prelude.Int.{ℤ, pos, negsuc, eqb_ℤ}
use os_project_signal.Signal.Memory.{Memory}
use os_project_signal.Signal.State.{
  ProcState, unused, used, sleeping, runnable, running, zombie, stopped, Channel, null, of_proc,
  of_word, Trapframe, Proc, killed_by, sigkill, sigchld,
}
use os_project_signal.Signal.Syscalls.{einval, siginit, siginit_fork}
use os_project_signal.Signal.Send.{find_by_pid, sys_sigkill, is_held}
use os_project_signal.Kernel.Queue.{Queue, nproc, pop_queue}
use os_project_signal.Kernel.System.{
  System, Op, eq_state, put_proc, with_proc, push_task, add_task, each, curr_proc,
}

abbrev pub eq_channel : Channel → Channel → Bool
eq_channel null null = true
eq_channel (of_proc i) (of_proc j) = i == j
eq_channel (of_word a) (of_word b) = a == b
eq_channel c c' = false

-- `q == p` of two pointers that may be NULL
abbrev pub eq_pointer : Option ℕ → Option ℕ → Bool
eq_pointer none none = true
eq_pointer (some i) (some j) = i == j
eq_pointer p q = false

-- All registers are 0.
abbrev pub zero_trapframe : Trapframe
zero_trapframe = record {
  epc = 0;
  ra = 0;
  sp = 0;
  gp = 0;
  tp = 0;
  t0 = 0;
  t1 = 0;
  t2 = 0;
  s0 = 0;
  s1 = 0;
  a0 = 0;
  a1 = 0;
  a2 = 0;
  a3 = 0;
  a4 = 0;
  a5 = 0;
  a6 = 0;
  a7 = 0;
  s2 = 0;
  s3 = 0;
  s4 = 0;
  s5 = 0;
  s6 = 0;
  s7 = 0;
  s8 = 0;
  s9 = 0;
  s10 = 0;
  s11 = 0;
  t3 = 0;
  t4 = 0;
  t5 = 0;
  t6 = 0;
}

-- p->mm = NULL: no page is there.
abbrev pub no_mm : Memory → Memory
no_mm m = record m { walkaddr = λ va. none }

-- The search of `allocproc`.
unfoldable pub find_unused : ℕ → List Proc → Option ℕ
find_unused i [] = none
find_unused i (p ∷ pool) =
    let rest = find_unused (i + 1) pool in if eq_state p.state unused then some i else rest

-- What `allocproc` makes of the process that it finds. `killed` is left as it is.
unfoldable pub init_proc_fields : ℤ → Proc → Proc
unfolding siginit
init_proc_fields pid p = siginit (record p {
  parent = none;
  exit_code = pos 0;
  sleep_chan = null;
  pid = pid;
  state = used;
  need_stop = false;
  mm = no_mm p.mm;
  trapframe = zero_trapframe;
})

-- PID++
abbrev pub next : ℤ → ℤ
next (pos n) = pos (n + 1)
next (negsuc zero) = pos 0
next (negsuc (suc n)) = negsuc n

-- The index of the new process; its lock stays held.
unfoldable pub allocproc : System → Option (System × Option ℕ)
unfolding find_unused init_proc_fields
allocproc s = elim (find_unused 0 s.pool) [
  | none ↦ some (s, none)
  | some i ↦ elim (get_elem? s.pool i) [
    | none ↦ none
    | some p ↦ some (
      record (put_proc i (init_proc_fields s.next_pid p) s) { next_pid = next s.next_pid },
      some i,
    )
  ]
]

unfoldable pub freeproc_fields : Proc → Proc
freeproc_fields p = record p {
  state = unused;
  pid = negsuc 0;
  exit_code = negsuc 0x21524110;
  sleep_chan = null;
  killed = pos 0;
  parent = none;
  mm = no_mm p.mm;
}

unfoldable pub freeproc : ℕ → Op
unfolding freeproc_fields
freeproc i = with_proc i (λ p. λ s. some (put_proc i (freeproc_fields p) s))

-- The current process in another state, and the processor without it.
unfoldable pub sched : ℕ → ℕ → (Proc → Proc) → Op
sched cpu i f =
    with_proc i (λ p s. some (record (put_proc i (f p) s) { cpus = set s.cpus cpu none }))

-- A turn of `wakeup` for one process.
unfoldable pub wake_one : Channel → ℕ → Op
unfolding add_task
wake_one chan i = with_proc i (λ p s.
    if eq_state p.state sleeping && eq_channel p.sleep_chan chan
    then add_task i (put_proc i (record p { state = runnable }) s)
    else some s)

unfoldable pub wakeup : Channel → Op
unfolding each wake_one
wakeup chan = each (wake_one chan) nproc 0

-- `sleep` up to the switch, and behind it.
unfoldable pub sleep : ℕ → ℕ → Channel → Op
unfolding sched
sleep cpu i chan = sched cpu i (λ p. record p { sleep_chan = chan; state = sleeping })

unfoldable pub sleep_return : ℕ → Op
sleep_return i = with_proc i (λ p. λ s. some (put_proc i (record p { sleep_chan = null }) s))

-- The scheduler puts a process that gives up the processor into the queue again.
unfoldable pub yield : ℕ → ℕ → Op
unfolding sched add_task
yield cpu i s = elim (sched cpu i (λ p. record p { state = runnable }) s) [
  | none ↦ none
  | some s' ↦ add_task i s'
]

-- The stop of `usertrapret`.
unfoldable pub stop : ℕ → ℕ → Op
unfolding sched
stop cpu i = sched cpu i (λ p. record p { need_stop = false; state = stopped })

unfoldable pub all_dead : List Proc → Bool
all_dead [] = true
all_dead (p ∷ pool) = eq_state p.state unused && all_dead pool

-- The first task runs if it is RUNNABLE.
unfoldable pub run_task : ℕ → ℕ → Op
run_task cpu i = with_proc i (λ p s.
    if eq_state p.state runnable
    then some
        (record (put_proc i (record p { state = running }) s) { cpus = set s.cpus cpu (some i) })
    else some s)

-- A round of `scheduler` up to the switch. Without a task it waits for an interrupt, or panics.
unfoldable pub schedule : ℕ → Op
schedule cpu s =
    let (q, task) = pop_queue s.task_queue in
    let s' = record s { task_queue = q } in
    elim task [ none ↦ if all_dead s'.pool then none else some s' | some i ↦ run_task cpu i s' ]

-- A turn of a processor: a round of `scheduler`, and the process gives up the processor again.
unfoldable pub turn : ℕ → Op
unfolding schedule yield
turn cpu s = elim (schedule cpu s) [
  | none ↦ none
  | some s' ↦ elim (curr_proc cpu s') [ none ↦ some s' | some i ↦ yield cpu i s' ]
]

unfoldable pub turns : ℕ → ℕ → Op
unfolding turn
turns cpu zero s = some s
turns cpu (suc n) s = elim (turn cpu s) [ none ↦ none | some s' ↦ turns cpu n s' ]
