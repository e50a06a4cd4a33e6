-- ===== src/Signal/Tests.antt =====
-- A process with one page of stack and a handler of SIGUSR0, and what the theorems say of it.
use os_project_signal.Prelude.{
  ◌+◌, ◌%◌, ◌^◌, ◌≤◌, ◌<◌, ◌≡◌, refl, inl, true, false, none, some, All, arith, ◌==◌, if◌then◌else◌,
}
use os_project_signal.Prelude.Int.{pos}
use os_project_signal.Signal.Memory.{Memory, pgsize}
use os_project_signal.Signal.State.{null, running, Trapframe, Proc}
use os_project_signal.Signal.Frame.{sizeof_siginfo, sizeof_ucontext, context_words}
use os_project_signal.Signal.Deliver.{Outcome, next, returns, frame_sp, handle, do_signal}
use os_project_signal.Signal.Deliver.Handler.{frame_sp_lem}
use os_project_signal.Signal.Deliver.Blocked.{pends, do_signal-blocked}
use os_project_signal.Signal.Send.{receive}
use os_project_signal.Signal.Send.Pending.{pending_after, receive_lem}
use os_project_signal.Signal.Syscalls.Actions.{is_default, sys_sigaction-default}
use os_project_signal.Signal.Syscalls.{sys_sigaction, sigreturn_call, with_signal}
use os_project_signal.Signal.Return.{handle-sigreturn_call}

-- Each register holds another number.
abbrev registers : Trapframe
registers = record {
  epc = 100;
  ra = 1;
  sp = 8000;
  gp = 3;
  tp = 4;
  t0 = 5;
  t1 = 6;
  t2 = 7;
  s0 = 8;
  s1 = 9;
  a0 = 10;
  a1 = 11;
  a2 = 12;
  a3 = 13;
  a4 = 14;
  a5 = 15;
  a6 = 16;
  a7 = 17;
  s2 = 18;
  s3 = 19;
  s4 = 20;
  s5 = 21;
  s6 = 22;
  s7 = 23;
  s8 = 24;
  s9 = 25;
  s10 = 26;
  s11 = 27;
  t3 = 28;
  t4 = 29;
  t5 = 30;
  t6 = 31;
}

-- The page at 4096 is there, at the same physical address.
abbrev memory : Memory
memory = record { walkaddr = λ va. if va == 4096 then some 4096 else none; byte = λ x. 0 }

-- SIGUSR0 is pending and has a handler at 512; SIGINT is blocked and pending.
abbrev proc : Proc
proc = record {
  pid = pos 2;
  state = running;
  exit_code = pos 0;
  sleep_chan = null;
  killed = pos 0;
  parent = none;
  need_stop = false;
  mm = memory;
  trapframe = registers;
  signal = record {
    sa = λ i. record { sa_sigaction = if i == 1 then 512 else 0; sa_mask = 0; sa_restorer = 600 };
    siginfos = λ i. record {
      si_signo = pos i;
      si_code = pos 0;
      si_pid = pos 1;
      si_status = pos 0;
      addr = 0;
    };
    sigmask = 1024;
    sigpending = 1026;
  };
}

abbrev proc_of : Outcome → Proc
proc_of (next p) = p
proc_of (returns p) = p

-- The process at the start of the handler, and at its end.
unfoldable started : Proc
unfolding handle
started = proc_of (handle 1 proc)

handled : handle 1 proc ≡ returns started
unfolding handle started
handled = refl

abbrev ended : Proc
ended = record started { trapframe = record (Proc.trapframe started) { epc = 600; a0 = 7; t6 = 5 } }

there_at_start : Memory.walkaddr memory (frame_sp 8000) ≡ some 4096
unfolding frame_sp
there_at_start = refl

there_at_end : Memory.walkaddr (Proc.mm ended) (Trapframe.sp (Proc.trapframe ended)) ≡ some 4096
unfolding started
there_at_end = refl

registers_fit : All (λ w. w < 2 ^ 64) (context_words 1024 registers)
unfolding context_words
registers_fit = ground arith

handle-sigreturn_call_example :
    sigreturn_call ended
    ≡ with_signal
        (record ended { trapframe = record registers { t6 = 0; a0 = 0 } })
        (record (Proc.signal ended) { sigmask = 1024 })
handle-sigreturn_call_example =
    handle-sigreturn_call 1 proc started ended 4096 4096 (omega arith) (omega arith) there_at_start
      registers_fit handled refl there_at_end refl

frame_sp_example :
    (frame_sp 8000 % pgsize ≡ 0)
    × (frame_sp 8000 + (sizeof_ucontext + sizeof_siginfo) ≤ 8000)
    × (8000 < frame_sp 8000 + (sizeof_ucontext + sizeof_siginfo) + pgsize)
frame_sp_example = frame_sp_lem 8000 (omega arith) (omega arith)

-- SIGINT stays pending, also behind the handler of SIGUSR0.
do_signal-blocked_example : pends 10 (do_signal proc) ≡ pends 10 proc
do_signal-blocked_example =
    do_signal-blocked 10 proc (omega arith) (λ e. omega arith) (λ e. omega arith) (λ e. omega arith)
      refl

started_signals : (pends 10 (do_signal proc) ≡ true) × (pends 1 (do_signal proc) ≡ false)
unfolding do_signal
started_signals = (refl, refl)

-- SIGCONT for the process, of the process 5.
receive_lem_example : pends 8 (receive (pos 5) 8 (pos 0) proc).0 ≡ pending_after 8 8 (pends 8 proc)
receive_lem_example = receive_lem (pos 5) 8 (pos 0) proc 8 (omega arith)

sys_sigaction-default_example : is_default 4 (sys_sigaction proc (pos 4) (some 4096) none).0 ≡ true
sys_sigaction-default_example = sys_sigaction-default proc 4 (some 4096) (inl refl) refl
