-- ===== src/Kernel/Tests/Systems.antt =====
-- Systems with two processes and two processors.
use os_project_signal.Prelude.{
  ℕ, zero, suc, ◌+◌, ◌≡◌, refl, sym, ap, ◌∙◌, true, false, Option, none, some, List, [], ◌∷◌,
  length-replicate, replicate, get_elem?, arith, ◌==◌, if◌then◌else◌,
}
use os_project_signal.Prelude.Int.{ℤ, pos}
use os_project_signal.Signal.Memory.{Memory}
use os_project_signal.Signal.State.{
  ProcState, unused, sleeping, runnable, running, zombie, Channel, null, of_proc, Proc,
}
use os_project_signal.Kernel.Queue.{Queue, queue_size}
use os_project_signal.Kernel.Queue.Refine.{IsQueue, contents}
use os_project_signal.Kernel.System.{System, eq_state}
use os_project_signal.Kernel.System.Counts.{count, count_cpu}
use os_project_signal.Kernel.System.Consistent.{IsConsistent, PointsIn, in_state}
use os_project_signal.Kernel.Process.{zero_trapframe}
use os_project_signal.Kernel.Boot.{zero_proc}
use os_project_signal.Kernel.Boot.Initial.{in_state-replicate, get_elem?-replicate}

abbrev pub no_memory : Memory
no_memory = record { walkaddr = λ va. none; byte = λ x. 0 }

abbrev pub idle : Proc
idle = zero_proc no_memory zero_trapframe

abbrev pub process : ℤ → ProcState → Option ℕ → Channel → Proc
process pid st parent chan = record idle {
  pid = pid;
  state = st;
  parent = parent;
  sleep_chan = chan;
}

abbrev pub pool_of : Proc → Proc → List Proc
pool_of p q = p ∷ q ∷ replicate 510 idle

-- The process 0 is init.
abbrev pub system : Proc → Proc → List (Option ℕ) → Queue → System
system p q cpus ring = record {
  pool = pool_of p q;
  cpus = cpus;
  task_queue = ring;
  next_pid = pos 3;
  init_proc = some 0;
}

abbrev pub slots : List ℕ
slots = replicate queue_size 0

abbrev pub no_tasks : Queue
no_tasks = record { slots = slots; front = 0; tail = 0; empty = true }

-- The process 1 is the only task.
abbrev pub one_task : Queue
one_task = record { slots = 1 ∷ replicate 1023 0; front = 0; tail = 1; empty = false }

no_tasks-IsQueue : IsQueue no_tasks
no_tasks-IsQueue = record {
  storage = length-replicate {A = ℕ} queue_size 0;
  front_in = omega arith;
  tail_in = omega arith;
  empty_at = λ e. refl;
}

pub one_task-IsQueue : IsQueue one_task
one_task-IsQueue = record {
  storage = ap suc (length-replicate {A = ℕ} 1023 0);
  front_in = omega arith;
  tail_in = omega arith;
  empty_at = λ e. cc;
}

in_state-pool :
    (st : ProcState) (p q : Proc) (i : ℕ)
    → eq_state unused st ≡ false
    → in_state st (pool_of p q) i ≡ in_state st (p ∷ q ∷ []) i
in_state-pool st p q zero other = refl
in_state-pool st p q (suc zero) other = refl
in_state-pool st p q (suc (suc i)) other = in_state-replicate st 510 i idle other

parents-pool :
    (p q : Proc) (i : ℕ) (r : Proc)
    → PointsIn (Proc.parent p)
    → PointsIn (Proc.parent q)
    → get_elem? (pool_of p q) i ≡ some r
    → PointsIn (Proc.parent r)
parents-pool p q zero r hp hq at_i = let same : p ≡ r = cc in rw (sym same) hp
parents-pool p q (suc zero) r hp hq at_i = let same : q ≡ r = cc in rw (sym same) hq
parents-pool p q (suc (suc i)) r hp hq at_i =
    let same = get_elem?-replicate 510 i idle r at_i in rw same tt

system-IsConsistent :
    (p q : Proc) (cpus : List (Option ℕ)) (ring : Queue)
    → IsQueue ring
    → PointsIn (Proc.parent p)
    → PointsIn (Proc.parent q)
    → ((i : ℕ) → count i (contents ring) ≡ in_state runnable (p ∷ q ∷ []) i)
    → ((i : ℕ) → count_cpu i cpus ≡ in_state running (p ∷ q ∷ []) i)
    → IsConsistent (system p q cpus ring)
system-IsConsistent p q cpus ring v hp hq queued on_cpu = record {
  places = ap (λ n. suc (suc n)) (length-replicate 510 idle);
  ring = v;
  queued = λ i. queued i ∙ sym (in_state-pool runnable p q i refl);
  parents = λ i r at_i. parents-pool p q i r hp hq at_i;
  init_in = omega arith;
  on_cpu = λ i. on_cpu i ∙ sym (in_state-pool running p q i refl);
}

only :
    (p q : Proc) (i : ℕ) (st : ProcState)
    → eq_state (Proc.state p) st ≡ true
    → eq_state (Proc.state q) st ≡ false
    → (if 0 == i then 1 else 0) + 0 ≡ in_state st (p ∷ q ∷ []) i
only p q zero st h h' = rw h
only p q (suc zero) st h h' = rw h'
only p q (suc (suc i)) st h h' = ground arith

no_one :
    (p q : Proc) (i : ℕ) (st : ProcState)
    → eq_state (Proc.state p) st ≡ false
    → eq_state (Proc.state q) st ≡ false
    → 0 ≡ in_state st (p ∷ q ∷ []) i
no_one p q zero st h h' = rw h
no_one p q (suc zero) st h h' = rw h'
no_one p q (suc (suc i)) st h h' = refl

second :
    (p q : Proc) (i : ℕ) (st : ProcState)
    → eq_state (Proc.state p) st ≡ false
    → eq_state (Proc.state q) st ≡ true
    → (if 1 == i then 1 else 0) + 0 ≡ in_state st (p ∷ q ∷ []) i
second p q zero st h h' = rw h
second p q (suc zero) st h h' = rw h'
second p q (suc (suc i)) st h h' = ground arith

-- The process 0 runs on processor 0.
first_runs-IsConsistent :
    (p q : Proc)
    → Proc.state p ≡ running
    → eq_state (Proc.state q) runnable ≡ false
    → eq_state (Proc.state q) running ≡ false
    → PointsIn (Proc.parent p)
    → PointsIn (Proc.parent q)
    → IsConsistent (system p q (some 0 ∷ none ∷ []) no_tasks)
first_runs-IsConsistent p q run not_ready not_run hp hq =
    system-IsConsistent p q (some 0 ∷ none ∷ []) no_tasks no_tasks-IsQueue hp hq
      (λ i. no_one p q i runnable (rw run) not_ready) (λ i. only p q i running (rw run) not_run)

-- The process 1 runs on processor 0.
second_runs-IsConsistent :
    (p q : Proc)
    → Proc.state q ≡ running
    → eq_state (Proc.state p) runnable ≡ false
    → eq_state (Proc.state p) running ≡ false
    → PointsIn (Proc.parent p)
    → PointsIn (Proc.parent q)
    → IsConsistent (system p q (some 1 ∷ none ∷ []) no_tasks)
second_runs-IsConsistent p q run not_ready not_run hp hq =
    system-IsConsistent p q (some 1 ∷ none ∷ []) no_tasks no_tasks-IsQueue hp hq
      (λ i. no_one p q i runnable not_ready (rw run)) (λ i. second p q i running not_run (rw run))

abbrev pub init_runs : Proc
init_runs = process (pos 1) running none null

abbrev pub child_sleeps : Proc
child_sleeps = process (pos 2) sleeping (some 0) (of_proc 0)

abbrev pub child_ready : Proc
child_ready = process (pos 2) runnable (some 0) null

abbrev pub child_exited : Proc
child_exited = process (pos 2) zombie (some 0) null

-- init runs, and its child sleeps.
abbrev pub asleep : System
asleep = system init_runs child_sleeps (some 0 ∷ none ∷ []) no_tasks

pub asleep-IsConsistent : IsConsistent asleep
asleep-IsConsistent = first_runs-IsConsistent init_runs child_sleeps refl refl refl tt (omega arith)

-- init runs, and its child has exited.
abbrev pub exited : System
exited = system init_runs child_exited (some 0 ∷ none ∷ []) no_tasks

pub exited-IsConsistent : IsConsistent exited
exited-IsConsistent = first_runs-IsConsistent init_runs child_exited refl refl refl tt (omega arith)

-- init runs, and its child is a task.
abbrev pub ready : System
ready = system init_runs child_ready (some 0 ∷ none ∷ []) one_task

pub ready-IsConsistent : IsConsistent ready
ready-IsConsistent =
    system-IsConsistent init_runs child_ready (some 0 ∷ none ∷ []) one_task one_task-IsQueue tt
      (omega arith) (λ i. second init_runs child_ready i runnable refl refl)
      (λ i. only init_runs child_ready i running refl refl)

abbrev pub init_waits : Proc
init_waits = process (pos 1) sleeping none (of_proc 0)

abbrev pub child_runs : Proc
child_runs = process (pos 2) running (some 0) null

-- init waits for its child, which runs.
abbrev pub exiting : System
exiting = system init_waits child_runs (some 1 ∷ none ∷ []) no_tasks

pub exiting-IsConsistent : IsConsistent exiting
exiting-IsConsistent =
    second_runs-IsConsistent init_waits child_runs refl refl refl tt (omega arith)

abbrev pub child_before : Proc
child_before = process (pos 5) sleeping (some 1) null

abbrev pub parent_behind : Proc
parent_behind = process (pos 3) running none null

-- The parent, which runs, stands behind its child.
abbrev pub behind : System
behind = system child_before parent_behind (some 1 ∷ none ∷ []) no_tasks

pub behind-IsConsistent : IsConsistent behind
behind-IsConsistent =
    second_runs-IsConsistent child_before parent_behind refl refl refl (omega arith) tt
