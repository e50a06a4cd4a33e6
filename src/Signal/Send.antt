-- ===== src/Signal/Send.antt =====
-- `sys_sigkill` of os/signal/ksignal.c, with `findByPid` of os/proc.c. The receiver's lock is held from
-- the search to the end, so a call is one step.
pub mod Pending
pub mod Waking
pub mod Search
use os_project_signal.Prelude.{
  ℕ, ◌+◌, get_elem?, Bool, true, false, not, Option, none, some, List, [], ◌∷◌, ◌++◌, ◌==◌,
  if◌then◌else◌,
}
use os_project_signal.Prelude.Int.{ℤ, pos, negsuc, eqb_ℤ}
use os_project_signal.Kernel.System.{System, Op, put_proc, with_proc, add_task, curr_proc}
use os_project_signal.Signal.Set
use os_project_signal.Signal.State.{
  Siginfo, Ksignal, ProcState, sleeping, stopped, runnable, Proc, killed_by, set_at, sigusr2,
  sigkill, sigchld, sigstop, sigcont,
}
use os_project_signal.Signal.Deliver.{clear_pending}
use os_project_signal.Signal.Syscalls.{einval, in_range, number, with_signal}

-- sigaddset(&p->signal.sigpending, signo)
unfoldable pub add_pending : ℕ → Proc → Proc
unfolding Set.sigaddset
add_pending signo p = with_signal p (record (Proc.signal p) {
  sigpending = Set.sigaddset (Ksignal.sigpending (Proc.signal p)) signo;
})

-- p->signal.siginfos[signo] = info
abbrev pub set_info : ℕ → Siginfo → Proc → Proc
set_info signo info p =
    with_signal p
      (record (Proc.signal p) { siginfos = set_at (Ksignal.siginfos (Proc.signal p)) signo info })

abbrev pub info_from : ℤ → ℕ → ℤ → Siginfo
info_from sender signo code = record {
  si_signo = pos signo;
  si_code = code;
  si_pid = sender;
  si_status = pos 0;
  addr = 0;
}

-- Wakes a process that sleeps; the Boolean says whether it was put into the queue.
unfoldable pub wake_in : ProcState → Proc → Proc × Bool
wake_in sleeping p = (record p { state = runnable }, true)
wake_in s p = (p, false)

abbrev pub wake : Proc → Proc × Bool
wake p = wake_in (Proc.state p) p

unfoldable pub resume_in : ProcState → Proc → Proc × Bool
resume_in stopped p = (record p { state = runnable }, true)
resume_in s p = (p, false)

abbrev pub resume : Proc → Proc × Bool
resume p = resume_in (Proc.state p) p

-- A pending SIGSTOP is dropped.
unfoldable pub drop_stop : Proc → Proc
unfolding Set.sigdelset
drop_stop p =
    if Set.sigismember (Ksignal.sigpending (Proc.signal p)) sigstop
    then clear_pending sigstop p
    else p

-- SIGCONT: the signal pends, and the process runs again.
unfoldable pub receive_cont : Proc → Proc × Bool
unfolding add_pending resume_in drop_stop
receive_cont informed =
    let (resumed, queued) = resume (record (add_pending sigcont informed) { need_stop = false }) in
    (drop_stop resumed, queued)

-- The changes of a receiver, by signal, in the order of the code.
unfoldable pub receive : ℤ → ℕ → ℤ → Proc → Proc × Bool
unfolding add_pending wake_in receive_cont
receive sender signo code p =
    let informed = set_info signo (info_from sender signo (pos 0)) p in
    if signo == sigkill
    then wake (record informed { killed = killed_by signo })
    else if signo == sigstop
    then wake (add_pending signo informed)
    else if signo == sigcont
    then receive_cont informed
    else if signo == sigusr2
    then (add_pending signo (set_info signo (info_from (negsuc 0) signo (pos 0)) p), false)
    else if signo == sigchld
    then wake (add_pending signo (set_info signo (info_from sender signo code) p))
    else (add_pending signo informed, false)

abbrev pub is_held : Option ℕ → ℕ → Bool
is_held none i = false
is_held (some j) i = j == i

-- curr_proc()->pid
abbrev pub with_sender {ℓ} : {A : Type ℓ} → ℕ → (ℤ → Option A) → System → Option A
with_sender curr f s = elim (get_elem? (System.pool s) curr) [
  | none ↦ none
  | some p ↦ f (Proc.pid p)
]

-- `findByPid`: the first process with the pid. Each process on the way is locked, and the process
-- `held`, whose lock the caller has, cannot be locked again: that panics, and is `none`.
unfoldable pub find_from : Option ℕ → ℤ → ℕ → List Proc → Option (Option ℕ)
find_from held pid i [] = some none
find_from held pid i (p ∷ pool) =
    let rest = find_from held pid (i + 1) pool in
    if is_held held i then none else if eqb_ℤ (Proc.pid p) pid then some (some i) else rest

unfoldable pub find_by_pid : Option ℕ → ℤ → List Proc → Option (Option ℕ)
unfolding find_from
find_by_pid held pid pool = find_from held pid 0 pool

-- The change of the receiver `p`, which is the process `i`.
abbrev pub change_receiver : ℤ → ℕ → ℤ → ℕ → Proc → Op
change_receiver sender signo code i p s =
    let (p', queued) = receive sender signo code p in
    if queued then add_task i (put_proc i p' s) else some (put_proc i p' s)

unfoldable pub send_to : ℤ → ℕ → ℤ → ℕ → Op
unfolding receive add_task
send_to sender signo code i = with_proc i (change_receiver sender signo code i)

-- The result of a system call that changes the system.
abbrev pub returns : ℤ → Option System → Option (System × ℤ)
returns ret s = elim s [ none ↦ none | some s' ↦ some (s', ret) ]

-- On processor `cpu`.
unfoldable pub sys_sigkill : ℕ → Option ℕ → ℤ → ℤ → ℤ → System → Option (System × ℤ)
unfolding find_by_pid send_to
sys_sigkill cpu held pid signo code s =
    if not (in_range signo) then some (s, einval) else elim (find_by_pid held pid (System.pool s)) [
      | none ↦ none
      | some none ↦ some (s, einval)
      | some (some i) ↦ elim (curr_proc cpu s) [
        | none ↦ none
        | some curr ↦
            with_sender curr (λ sender. returns (pos 0) (send_to sender (number signo) code i s)) s
      ]
    ]
