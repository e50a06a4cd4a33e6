-- ===== src/Signal/Deliver.antt =====
-- `do_signal` of os/signal/ksignal.c. The process is the current one, on its own processor with
-- interrupts off; the locks around the copies are taken and given back, so they are left out.
pub mod Blocked
pub mod Handler
use os_project_signal.Prelude.{
  ℕ, zero, suc, ◌+◌, ◌-◌, ◌*◌, ◌%◌, ◌^◌, Bool, true, false, not, ◌&&◌, ◌||◌, Option, none, some,
  List, [], ◌∷◌, ◌==◌, if◌then◌else◌,
}
use os_project_signal.Prelude.Int.{ℤ}
use os_project_signal.Signal.Set
use os_project_signal.Signal.Memory.{Memory, pgrounddown, copy_to_user}
use os_project_signal.Signal.State.{
  Sigaction, Siginfo, Ksignal, ProcState, stopped, runnable, Trapframe, Proc, killed_by, sigkill,
  sigchld, sigstop, sigcont, sigmin, sigmax, sig_dfl, sig_ign,
}
use os_project_signal.Signal.Frame.{
  sizeof_siginfo, sizeof_ucontext, context_words, words_to_bytes, siginfo_bytes,
}

-- sigdelset(&p->signal.sigpending, signo)
abbrev pub clear_pending : ℕ → Proc → Proc
clear_pending signo p = record p {
  signal = record (Proc.signal p) {
    sigpending = Set.sigdelset (Ksignal.sigpending (Proc.signal p)) signo;
  };
}

-- How the body of the loop ends: `continue`, or `return 0` behind a handler that was set up.
pub data Outcome : Type 0 where
  next : Proc → Outcome
  returns : Proc → Outcome

abbrev pub continued : ProcState → ProcState
continued stopped = runnable
continued s = s

-- SIGCONT: the process runs, and a pending SIGSTOP is dropped.
unfoldable pub handle_cont : Proc → Proc
unfolding Set.sigdelset
handle_cont p =
    let p' = record (clear_pending sigcont p) {
      state = continued (Proc.state p);
      need_stop = false;
    } in
    if Set.sigismember (Ksignal.sigpending (Proc.signal p')) sigstop
    then clear_pending sigstop p'
    else p'

-- PGROUNDDOWN(old_sp - sizeof(struct ucontext) - sizeof(siginfo_t)), in uint64
unfoldable pub frame_sp : ℕ → ℕ
frame_sp old_sp = pgrounddown ((old_sp + 2 ^ 64 - (sizeof_ucontext + sizeof_siginfo)) % 2 ^ 64)

-- Steps 6 and 7: the mask of the handler, and the registers it starts with.
unfoldable pub enter_handler : ℕ → Sigaction → ℕ → Proc → Proc
unfolding Set.union
enter_handler signo sa new_sp p = record p {
  signal = record (Proc.signal p) {
    sigmask =
        Set.union (Set.union (Ksignal.sigmask (Proc.signal p)) (Sigaction.sa_mask sa))
          (Set.sigmask signo);
  };
  trapframe = record (Proc.trapframe p) {
    epc = Sigaction.sa_sigaction sa;
    sp = new_sp;
    a0 = signo;
    a1 = new_sp;
    a2 = new_sp + sizeof_siginfo;
    ra = Sigaction.sa_restorer sa;
  };
}

-- Steps 3 to 5: the context, and behind its copy the information.
unfoldable pub copy_frame : ℕ → ℕ → Proc → Memory × Bool
unfolding context_words words_to_bytes siginfo_bytes copy_to_user
copy_frame signo new_sp p =
    let context =
      words_to_bytes (context_words (Ksignal.sigmask (Proc.signal p)) (Proc.trapframe p)) in
    let info = siginfo_bytes (Ksignal.siginfos (Proc.signal p) signo) in
    let (m, copied) = copy_to_user (Proc.mm p) (new_sp + sizeof_siginfo) context in
    if copied then copy_to_user m new_sp info else (m, false)

-- A failed copy leaves its bytes, and the signal is dropped.
unfoldable pub start_handler : ℕ → Sigaction → ℕ → Proc → Memory × Bool → Outcome
unfolding enter_handler
start_handler signo sa new_sp p (m, false) = next (record p { mm = m })
start_handler signo sa new_sp p (m, true) =
    returns (enter_handler signo sa new_sp (record p { mm = m }))

-- Steps 1 to 7.
unfoldable pub set_up : ℕ → Sigaction → Proc → Outcome
unfolding frame_sp copy_frame start_handler
set_up signo sa p =
    let new_sp = frame_sp (Trapframe.sp (Proc.trapframe p)) in
    start_handler signo sa new_sp p (copy_frame signo new_sp p)

-- A pending signal that is not blocked: ignored, fatal, or handled.
unfoldable pub act : ℕ → Proc → Outcome
unfolding Set.sigdelset set_up
act signo p =
    let sa = Ksignal.sa (Proc.signal p) signo in
    let p' = clear_pending signo p in
    if Sigaction.sa_sigaction sa == sig_ign
    then next p'
    else if signo == sigchld && Sigaction.sa_sigaction sa == sig_dfl
    then next p'
    else if Sigaction.sa_sigaction sa == sig_dfl
    then next (record p' { killed = killed_by signo })
    else set_up signo sa p'

-- The body of the loop.
unfoldable pub handle : ℕ → Proc → Outcome
unfolding handle_cont act Set.sigdelset
handle signo p =
    if not (Set.sigismember (Ksignal.sigpending (Proc.signal p)) signo)
    then next p
    else if signo == sigkill
    then next (record (clear_pending signo p) { killed = killed_by signo })
    else if signo == sigstop
    then next (record (clear_pending signo p) { need_stop = true })
    else if signo == sigcont
    then next (handle_cont p)
    else if Set.sigismember (Ksignal.sigmask (Proc.signal p)) signo
    then next p
    else act signo p

-- The loop, for the `n` signals from `signo` on.
unfoldable pub deliver_from : ℕ → ℕ → Proc → Proc
unfolding handle
deliver_from zero signo p = p
deliver_from (suc n) signo p = elim (handle signo p) [
  | next p' ↦ deliver_from n (signo + 1) p'
  | returns p' ↦ p'
]

unfoldable pub do_signal : Proc → Proc
unfolding deliver_from
do_signal p = deliver_from (sigmax + 1 - sigmin) sigmin p
