-- ===== src/Kernel/Family.antt =====
-- `fork`, `exit`, `wait` and `kill` of os/proc.c. `cpu` is the processor and `i` the current process.
pub mod Transitions
pub mod Scans
pub mod Waiting
pub mod Victim
pub mod Killing
pub mod Endings
pub mod Stale
use os_project_signal.Prelude.{
  ℕ, zero, suc, ◌+◌, Bool, true, false, not, ◌&&◌, ◌||◌, Option, none, some, List, [], ◌∷◌, length,
  set, get_elem?, ◌==◌, if◌then◌else◌,
}
use os_project_signal.Prelude.Int.{ℤ, pos, negsuc, eqb_ℤ}
use os_project_signal.Gef.Pack.{bytes_of}
use os_project_signal.Signal.Memory.{Memory, copy_to_user}
use os_project_signal.Signal.State.{
  ProcState, unused, used, sleeping, runnable, running, zombie, stopped, Channel, null, of_proc,
  of_word, Trapframe, Proc, killed_by, sigkill, sigchld,
}
use os_project_signal.Signal.Frame.{int_pattern}
use os_project_signal.Signal.Syscalls.{einval, siginit_fork}
use os_project_signal.Signal.Send.{find_by_pid, sys_sigkill, returns}
use os_project_signal.Kernel.Queue.{nproc}
use os_project_signal.Kernel.System.{System, Op, eq_state, put_proc, with_proc, add_task, each}
use os_project_signal.Kernel.Process.{
  eq_channel, eq_pointer, allocproc, freeproc, sched, wakeup, sleep,
}

-- -ENOMEM and -ECHILD
abbrev pub enomem : ℤ
enomem = negsuc 0

abbrev pub echild : ℤ
echild = negsuc 2

-- What `mm_create` and `mm_copy` make: `no_root_page` is a panic of `mm_create`, which releases a lock
-- that it does not hold where no page is left for the root page table; else it is nothing, a memory that
-- was not filled, with the error of `mm_copy`, or the memory of the child.
pub data NewMemory : Type 0 where
  no_root_page : NewMemory
  not_created : NewMemory
  not_copied : ℤ → NewMemory
  copied : Memory → NewMemory

-- The child `np` of `p`, which is the process `i`.
unfoldable pub forked : ℕ → Proc → Memory → Proc → Proc
unfolding siginit_fork
forked i p m np =
    record (siginit_fork p
      (record np { mm = m; trapframe = record (Proc.trapframe p) { a0 = 0 } })) {
        parent = some i;
        state = runnable;
      }

unfoldable pub fork_into : ℕ → ℕ → NewMemory → System → Option (System × ℤ)
unfolding freeproc forked add_task
fork_into i c no_root_page s = none
fork_into i c not_created s = returns enomem (freeproc c s)
fork_into i c (not_copied ret) s = returns ret (freeproc c s)
fork_into i c (copied m) s = elim (get_elem? (System.pool s) i) [
  | none ↦ none
  | some p ↦ elim (get_elem? (System.pool s) c) [
    | none ↦ none
    | some np ↦ returns np.pid (add_task c (put_proc c (forked i p m np) s))
  ]
]

unfoldable pub fork : ℕ → NewMemory → System → Option (System × ℤ)
unfolding allocproc fork_into
fork i new s = elim (allocproc s) [
  | none ↦ none
  | some (s', none) ↦ some (s', enomem)
  | some (s', some c) ↦ fork_into i c new s'
]

-- The loop of `exit` that gives the children of `i` to the process init.
unfoldable pub adopt_one : ℕ → ℕ → Op
adopt_one i c = with_proc c (λ child s.
    if not (c == i) && eq_pointer child.parent (some i)
    then some (put_proc c (record child { parent = System.init_proc s }) s)
    else some s)

-- `wakeinit`, and `havekids` of `wait`: a process other than `i` has `i` as its parent.
unfoldable pub has_children : ℕ → ℕ → List Proc → Bool
has_children i c [] = false
has_children i c (child ∷ pool) =
    (not (c == i) && eq_pointer child.parent (some i)) || has_children i (c + 1) pool

-- The address of a process as a channel.
abbrev pub channel_of : Option ℕ → Channel
channel_of none = null
channel_of (some i) = of_proc i

unfoldable pub exit_adopt : ℕ → Op
unfolding each adopt_one has_children wakeup
exit_adopt i s = elim (each (adopt_one i) nproc 0 s) [
  | none ↦ none
  | some s' ↦
      if has_children i 0 (System.pool s)
      then wakeup (channel_of (System.init_proc s')) s'
      else some s'
]

-- The system of a call whose result is not used.
abbrev pub ignore_result : Option (System × ℤ) → Option System
ignore_result none = none
ignore_result (some (s, ret)) = some s

-- SIGCHLD for the parent, which was read at the start of `exit`.
unfoldable pub exit_notify : ℕ → Option ℕ → Bool → ℤ → Op
unfolding sys_sigkill
exit_notify cpu none wakeinit code s = some s
exit_notify cpu (some parent_proc) wakeinit code s =
    if not wakeinit && not (eq_pointer (some parent_proc) (System.init_proc s))
    then with_proc parent_proc
        (λ parent t. ignore_result (sys_sigkill cpu none parent.pid (pos sigchld) code t)) s
    else some s

unfoldable pub exit_finish : ℕ → ℕ → ℤ → Op
unfolding wakeup sched
exit_finish cpu i code s = elim (get_elem? (System.pool s) i) [
  | none ↦ none
  | some p ↦ elim (wakeup (channel_of p.parent) s) [
    | none ↦ none
    | some s' ↦ sched cpu i (λ p'. record p' { exit_code = code; state = zombie }) s'
  ]
]

unfoldable pub exit : ℕ → ℕ → ℤ → Op
unfolding exit_adopt exit_notify exit_finish
exit cpu i code s =
    if eq_pointer (some i) (System.init_proc s) then none else elim (get_elem? (System.pool s) i) [
      | none ↦ none
      | some p ↦ elim (exit_adopt i s) [
        | none ↦ none
        | some s' ↦ elim (exit_notify cpu p.parent (has_children i 0 (System.pool s)) code s') [
          | none ↦ none
          | some s'' ↦ exit_finish cpu i code s''
        ]
      ]
    ]

-- pid <= 0 || child->pid == pid
abbrev pub wants : ℤ → ℤ → Bool
wants (pos zero) child = true
wants (pos (suc n)) child = eqb_ℤ child (pos (suc n))
wants (negsuc n) child = true

-- The scan of `wait` for an exited child of `i`.
unfoldable pub find_zombie : ℕ → ℤ → ℕ → List Proc → Option ℕ
find_zombie i pid c [] = none
find_zombie i pid c (child ∷ pool) =
    let rest = find_zombie i pid (c + 1) pool in
    if not (c == i)
      && (eq_pointer child.parent (some i) && (eq_state child.state zombie && wants pid child.pid))
    then some c
    else rest

-- The copy of an exit code to `code`; its result is not used.
unfoldable pub store_code : ℕ → Option ℕ → ℤ → Op
unfolding copy_to_user bytes_of
store_code i none exit_code s = some s
store_code i (some code) exit_code s =
    with_proc i
      (λ p. λ t. some (
        put_proc i
          (record p { mm = (copy_to_user p.mm code (bytes_of 4 (int_pattern exit_code))).0 }) t))
      s

-- How a round of the loop of `wait` ends: it returns, or sleeps until a child may have exited.
pub data Waited : Type 0 where
  waited : System → ℤ → Waited
  sleeps : System → Waited

unfoldable pub reap : ℕ → Option ℕ → ℕ → System → Option Waited
unfolding store_code freeproc
reap i code c s = elim (get_elem? (System.pool s) c) [
  | none ↦ none
  | some child ↦ elim (store_code i code child.exit_code s) [
    | none ↦ none
    | some s' ↦ elim (freeproc c s') [ none ↦ none | some t ↦ some (waited t child.pid) ]
  ]
]

unfoldable pub wait_round : ℕ → ℕ → ℤ → Option ℕ → System → Option Waited
unfolding find_zombie reap has_children sleep
wait_round cpu i pid code s = elim (find_zombie i pid 0 (System.pool s)) [
  | some c ↦ reap i code c s
  | none ↦ elim (get_elem? (System.pool s) i) [
    | none ↦ none
    | some p ↦
        if not (has_children i 0 (System.pool s)) || not (eqb_ℤ p.killed (pos 0))
        then some (waited s echild)
        else elim (sleep cpu i (of_proc i) s) [ none ↦ none | some s' ↦ some (sleeps s') ]
  ]
]

-- The victim `v`, which is locked.
unfoldable pub kill_victim : ℕ → Op
unfolding add_task
kill_victim v = with_proc v (λ p s.
    let p' = record p { killed = killed_by sigkill } in
    if eq_state p.state sleeping
    then add_task v (put_proc v (record p' { state = runnable }) s)
    else some (put_proc v p' s))

-- SIGCHLD for the parent of `v`, with the lock of `v` held.
unfoldable pub kill_notify : ℕ → ℕ → Op
unfolding sys_sigkill
kill_notify cpu v = with_proc v (λ p s. elim (Proc.parent p) [
  | none ↦ some s
  | some q ↦
      with_proc q
        (λ parent t. ignore_result (sys_sigkill cpu (some v) parent.pid (pos sigchld) (negsuc 0) t))
        s
])

unfoldable pub kill : ℕ → ℤ → System → Option (System × ℤ)
unfolding find_by_pid kill_victim kill_notify
kill cpu pid s = elim (find_by_pid none pid (System.pool s)) [
  | none ↦ none
  | some none ↦ some (s, einval)
  | some (some v) ↦ elim (kill_victim v s) [
    | none ↦ none
    | some s' ↦ returns (pos 0) (kill_notify cpu v s')
  ]
]
