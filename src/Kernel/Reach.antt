-- ===== src/Kernel/Reach.antt =====
-- The runs of the kernel. A step is what one processor does while it holds the locks of the processes,
-- so that the steps of several processors interleave: the loops of `exit` and `wakeup` are as many steps
-- as they lock processes, and what stands between two steps of an operation is any number of steps of
-- the other processors. A step that panics does not exist.
pub mod Invariant
use os_project_signal.Prelude.{ℕ, ◌<◌, ◌≡◌, Option, none, some, Bool, List, length, get_elem?}
use os_project_signal.Prelude.Int.{ℤ}
use os_project_signal.Signal.Memory.{Memory}
use os_project_signal.Signal.State.{Channel, Trapframe, Proc}
use os_project_signal.Signal.Send.{sys_sigkill}
use os_project_signal.Kernel.Queue.{nproc, queue_size}
use os_project_signal.Kernel.System.{System, put_proc}
use os_project_signal.Kernel.Process.{schedule, yield, sleep, sleep_return, stop, wake_one}
use os_project_signal.Kernel.Family.{
  NewMemory, fork, adopt_one, exit_notify, exit_finish, Waited, waited, sleeps, wait_round, kill,
}
use os_project_signal.Kernel.Boot.{proc_init, load_init_app}

-- Processor `cpu` runs the process `i`.
abbrev pub Runs : System → ℕ → ℕ → Type 0
Runs s cpu i = get_elem? (System.cpus s) cpu ≡ some (some i)

-- A step in the system `s`. `works` is what else changes a process: its registers, its memory, its
-- signals, and why it is killed; its state and its parent stay.
pub data Step (s : System) : System → Type 0 where
  schedules :
      (cpu : ℕ) {s' : System}
      → get_elem? (System.cpus s) cpu ≡ some none
      → schedule cpu s ≡ some s'
      → Step s s'
  yields : (cpu i : ℕ) {s' : System} → Runs s cpu i → yield cpu i s ≡ some s' → Step s s'
  sleeps_on :
      (cpu i : ℕ) (chan : Channel) {s' : System}
      → Runs s cpu i
      → sleep cpu i chan s ≡ some s'
      → Step s s'
  awakes : (cpu i : ℕ) {s' : System} → Runs s cpu i → sleep_return i s ≡ some s' → Step s s'
  stops : (cpu i : ℕ) {s' : System} → Runs s cpu i → stop cpu i s ≡ some s' → Step s s'
  wakes :
      (chan : Channel) (c : ℕ) {s' : System} → c < nproc → wake_one chan c s ≡ some s' → Step s s'
  sends :
      (cpu i : ℕ) (pid signo code ret : ℤ) {s' : System}
      → Runs s cpu i
      → sys_sigkill cpu none pid signo code s ≡ some (s', ret)
      → Step s s'
  forks :
      (cpu i : ℕ) (new : NewMemory) (ret : ℤ) {s' : System}
      → Runs s cpu i
      → fork i new s ≡ some (s', ret)
      → Step s s'
  adopts : (i c : ℕ) {s' : System} → c < nproc → adopt_one i c s ≡ some s' → Step s s'
  notifies :
      (cpu i q : ℕ) (wakeinit : Bool) (code : ℤ) {s' : System}
      → Runs s cpu i
      → q < nproc
      → exit_notify cpu (some q) wakeinit code s ≡ some s'
      → Step s s'
  exits :
      (cpu i : ℕ) (code : ℤ) {s' : System}
      → Runs s cpu i
      → exit_finish cpu i code s ≡ some s'
      → Step s s'
  waits :
      (cpu i : ℕ) (pid ret : ℤ) (code : Option ℕ) {s' : System}
      → Runs s cpu i
      → wait_round cpu i pid code s ≡ some (waited s' ret)
      → Step s s'
  waits_on :
      (cpu i : ℕ) (pid : ℤ) (code : Option ℕ) {s' : System}
      → Runs s cpu i
      → wait_round cpu i pid code s ≡ some (sleeps s')
      → Step s s'
  kills :
      (cpu i : ℕ) (pid ret : ℤ) {s' : System}
      → Runs s cpu i
      → kill cpu pid s ≡ some (s', ret)
      → Step s s'
  works :
      (c : ℕ) (p p' : Proc)
      → get_elem? (System.pool s) c ≡ some p
      → Proc.state p' ≡ Proc.state p
      → Proc.parent p' ≡ Proc.parent p
      → Step s (put_proc c p' s)

-- The systems that are reached from the start with `n` processors.
pub data Reach (n : ℕ) : System → Type 0 where
  boots :
      (slots : List ℕ) (m m' : Memory) (tf tf' : Trapframe) {s : System}
      → length slots ≡ queue_size
      → load_init_app (some (m', tf')) (proc_init n slots m tf) ≡ some s
      → Reach n s
  steps : {s s' : System} → Reach n s → Step s s' → Reach n s'
