-- ===== src/Kernel/Boot.antt =====
-- The system that the processors start with: `proc_init` of os/proc.c, `sched_init` of os/sched.c and
-- `load_init_app` of os/loader.c.
pub mod Initial
use os_project_signal.Prelude.{ℕ, Option, none, some, List, replicate, get_elem?, false}
use os_project_signal.Prelude.Int.{pos}
use os_project_signal.Signal.Memory.{Memory}
use os_project_signal.Signal.State.{unused, runnable, Channel, null, Trapframe, Ksignal, Proc}
use os_project_signal.Kernel.Queue.{nproc, init_queue}
use os_project_signal.Kernel.System.{System, put_proc, add_task}
use os_project_signal.Kernel.Process.{zero_trapframe, no_mm, allocproc}

-- memset(p, 0, sizeof(*p))
abbrev pub zero_signal : Ksignal
zero_signal = record {
  sa = λ i. record { sa_sigaction = 0; sa_mask = 0; sa_restorer = 0 };
  siginfos = λ i. record {
    si_signo = pos 0;
    si_code = pos 0;
    si_pid = pos 0;
    si_status = pos 0;
    addr = 0;
  };
  sigmask = 0;
  sigpending = 0;
}

-- A place of the process table; `m` is the physical memory, and `tf` is what the page of the trapframe
-- holds.
abbrev pub zero_proc : Memory → Trapframe → Proc
zero_proc m tf = record {
  pid = pos 0;
  state = unused;
  exit_code = pos 0;
  sleep_chan = null;
  killed = pos 0;
  parent = none;
  need_stop = false;
  mm = no_mm m;
  trapframe = tf;
  signal = zero_signal;
}

-- With `n` processors; `slots` is what the queue's array holds.
unfoldable pub proc_init : ℕ → List ℕ → Memory → Trapframe → System
unfolding init_queue
proc_init n slots m tf = record {
  pool = replicate nproc (zero_proc m tf);
  cpus = replicate n none;
  task_queue = init_queue slots;
  next_pid = pos 1;
  init_proc = none;
}

-- What `load_user_elf` makes of a process: its memory and its trapframe, or an error.
abbrev pub Loaded : Type 0
Loaded = Option (Memory × Trapframe)

-- `none` where it panics.
unfoldable pub load_init_app : Loaded → System → Option System
unfolding allocproc add_task
load_init_app loaded s = elim (allocproc s) [
  | none ↦ none
  | some (s', none) ↦ none
  | some (s', some i) ↦ elim loaded [
    | none ↦ none
    | some (m, tf) ↦ elim (get_elem? (System.pool s') i) [
      | none ↦ none
      | some p ↦
          elim (add_task i
            (put_proc i (record p { mm = m; trapframe = tf; state = runnable }) s')) [
              | none ↦ none
              | some s'' ↦ some (record s'' { init_proc = some i })
            ]
    ]
  ]
]
