-- ===== src/Signal/State.antt =====
-- The state that the signals of a process live in: os/signal/ksignal.h, os/proc.h and os/trap.h.
use os_project_signal.Prelude.{ℕ, ◌+◌, Bool, Option, ◌==◌, if◌then◌else◌}
use os_project_signal.Prelude.Int.{ℤ, negsuc}
use os_project_signal.Signal.Memory.{Memory}

abbrev pub sigusr0 : ℕ
sigusr0 = 1

abbrev pub sigusr2 : ℕ
sigusr2 = 3

abbrev pub sigkill : ℕ
sigkill = 4

abbrev pub sigchld : ℕ
sigchld = 6

abbrev pub sigstop : ℕ
sigstop = 7

abbrev pub sigcont : ℕ
sigcont = 8

abbrev pub sigint : ℕ
sigint = 10

abbrev pub sigmin : ℕ
sigmin = sigusr0

abbrev pub sigmax : ℕ
sigmax = sigint

abbrev pub sig_dfl : ℕ
sig_dfl = 0

abbrev pub sig_ign : ℕ
sig_ign = 1

pub record Sigaction : Type 0 where
  pub sa_sigaction : ℕ
  pub sa_mask : ℕ
  pub sa_restorer : ℕ

pub record Siginfo : Type 0 where
  pub si_signo : ℤ
  pub si_code : ℤ
  pub si_pid : ℤ
  pub si_status : ℤ
  pub addr : ℕ

-- The arrays have the indices up to `sigmax`.
pub record Ksignal : Type 0 where
  pub sa : ℕ → Sigaction
  pub siginfos : ℕ → Siginfo
  pub sigmask : ℕ
  pub sigpending : ℕ

-- a[i] = v
abbrev pub set_at {ℓ} : {A : Type ℓ} → (ℕ → A) → ℕ → A → ℕ → A
set_at a i v j = if j == i then v else a j

pub data ProcState : Type 0 where
  unused used sleeping runnable running zombie stopped : ProcState

-- What a process sleeps on: nothing, the address of a process, or another address.
pub data Channel : Type 0 where
  null : Channel
  of_proc of_word : ℕ → Channel

-- The registers of the user; the fields of the kernel's own are not touched by the signals.
pub record Trapframe : Type 0 where
  pub epc : ℕ
  pub ra : ℕ
  pub sp : ℕ
  pub gp : ℕ
  pub tp : ℕ
  pub t0 : ℕ
  pub t1 : ℕ
  pub t2 : ℕ
  pub s0 : ℕ
  pub s1 : ℕ
  pub a0 : ℕ
  pub a1 : ℕ
  pub a2 : ℕ
  pub a3 : ℕ
  pub a4 : ℕ
  pub a5 : ℕ
  pub a6 : ℕ
  pub a7 : ℕ
  pub s2 : ℕ
  pub s3 : ℕ
  pub s4 : ℕ
  pub s5 : ℕ
  pub s6 : ℕ
  pub s7 : ℕ
  pub s8 : ℕ
  pub s9 : ℕ
  pub s10 : ℕ
  pub s11 : ℕ
  pub t3 : ℕ
  pub t4 : ℕ
  pub t5 : ℕ
  pub t6 : ℕ

-- The fields of `struct proc` that the signals and the process table use. A pointer to a process is its
-- index in `pool`, and NULL is `none`; `need_stop` is 0 or 1.
pub record Proc : Type 0 where
  pub pid : ℤ
  pub state : ProcState
  pub exit_code : ℤ
  pub sleep_chan : Channel
  pub killed : ℤ
  pub parent : Option ℕ
  pub need_stop : Bool
  pub mm : Memory
  pub trapframe : Trapframe
  pub signal : Ksignal

-- -10 - signo
abbrev pub killed_by : ℕ → ℤ
killed_by signo = negsuc (9 + signo)
