-- ===== src/Kernel/Process/Scheduling.antt =====
-- The rounds of `scheduler`.
use os_project_signal.Prelude.{
  ℕ, zero, suc, ◌+◌, ◌≡◌, refl, sym, ap, ◌∙◌, ◌⊎◌, true, false, Bool-cases, inl, inr, none, some,
  get_elem?, set, List, [], ◌∷◌, ◌==◌, if◌then◌else◌, arith,
}
use os_project_signal.Signal.State.{
  ProcState, unused, used, sleeping, runnable, running, zombie, stopped, Proc,
}
use os_project_signal.Kernel.Queue.{Queue, pop_queue}
use os_project_signal.Kernel.Queue.Refine.{IsQueue, contents, pop_queue-refines, popped-IsQueue}
use os_project_signal.Kernel.System.{System, eq_state, put_proc, with_proc}
use os_project_signal.Kernel.System.Counts.{count, count_cpu, count_cpu-taken, by_index}
use os_project_signal.Kernel.System.Consistent.{
  IsConsistent, flag, in_state, in_state-at, in_state-le, inside-lt, changed-IsConsistent,
}
use os_project_signal.Kernel.System.Keeps.{running-of, not-running}
use os_project_signal.Kernel.Process.{run_task, schedule, all_dead}

-- The round of a processor that has no process, where the queue is empty.
idle-IsConsistent :
    (s : System) (q : Queue)
    → IsConsistent s
    → IsQueue q
    → contents q ≡ contents (System.task_queue s)
    → IsConsistent (record s { task_queue = q })
idle-IsConsistent s q v ring same = record {
  places = v.places;
  ring = ring;
  queued = λ i. rw same (v.queued i);
  parents = v.parents;
  init_in = v.init_in;
  on_cpu = v.on_cpu;
}

schedule-some :
    (cpu i : ℕ) (s : System)
    → (pop_queue (System.task_queue s)).1 ≡ some i
    → schedule cpu s
      ≡ run_task cpu i (record s { task_queue = (pop_queue (System.task_queue s)).0 })
unfolding schedule
schedule-some cpu i s first = rw (schedule, first)

schedule-none :
    (cpu : ℕ) (s : System)
    → (pop_queue (System.task_queue s)).1 ≡ none
    → all_dead (System.pool s) ≡ false
    → schedule cpu s ≡ some (record s { task_queue = (pop_queue (System.task_queue s)).0 })
unfolding schedule
schedule-none cpu s empty alive = rw (schedule, empty, alive)

first-runnable :
    (s : System) (i : ℕ) (rest : List ℕ)
    → IsConsistent s
    → contents (System.task_queue s) ≡ i ∷ rest
    → (p : Proc) × (get_elem? (System.pool s) i ≡ some p)
      × (eq_state (Proc.state p) runnable ≡ true)
      × (count i rest ≡ 0)
first-runnable s i rest v first =
    let counted : (if i == i then 1 else 0) + count i rest ≡ in_state runnable (System.pool s) i =
      rw first at (v.queued i) in
    let most = in_state-le runnable (System.pool s) i in
    let (p, at_i, ready) = running-of runnable (System.pool s) i (ground arith) in
    (p, at_i, ready, ground arith)

-- The first task is RUNNABLE, so it is never passed over, and it runs on this processor alone.
run_task-IsConsistent :
    (s : System) (cpu i : ℕ) (q : Queue)
    → IsConsistent s
    → IsQueue q
    → contents (System.task_queue s) ≡ i ∷ contents q
    → get_elem? (System.cpus s) cpu ≡ some none
    → (s' : System) × (run_task cpu i (record s { task_queue = q }) ≡ some s')
      × IsConsistent s'
      × (System.cpus s' ≡ set (System.cpus s) cpu (some i))
      × (System.task_queue s' ≡ q)
unfolding run_task
run_task-IsConsistent s cpu i q v ring first idle =
    let (p, at_i, ready, once) = first-runnable s i (contents q) v first in
    let run = record p { state = running } in
    (
      record (put_proc i run s) { task_queue = q; cpus = set (System.cpus s) cpu (some i) },
      rw (with_proc, at_i, ready),
      changed-IsConsistent s i run q (set (System.cpus s) cpu (some i)) v (inside-lt s i v at_i)
          (v.parents i p at_i) ring
          (λ j. by_index i j (λ at_j. rw at_j once) (λ other. rw first (ground arith)))
          (λ j.
            let taken = count_cpu-taken (System.cpus s) cpu i j idle in
            by_index i j
              (λ at_j.
                let free : count_cpu j (System.cpus s) ≡ 0 = rw at_j (
                  v.on_cpu i
                  ∙ in_state-at running (System.pool s) i at_i
                  ∙ ap flag (not-running (Proc.state p) ready)) in
                ground arith)
              (λ other. ground arith)),
      refl,
      refl,
    )

-- What a round makes of `s`: nothing where there is no task, or the first task is taken from the queue
-- and is the process of the processor.
abbrev pub Scheduled : System → ℕ → System → Type 0
Scheduled s cpu s' =
    ((contents (System.task_queue s) ≡ []) × (System.cpus s' ≡ System.cpus s))
    ⊎ ((i : ℕ) × (contents (System.task_queue s) ≡ i ∷ contents (System.task_queue s'))
        × (System.cpus s' ≡ set (System.cpus s) cpu (some i)))

-- A round of `scheduler` on a processor without a process, in a consistent system with a process that
-- is not UNUSED, does not panic and leaves the system consistent: it runs the first task of the queue,
-- which is then no task any more, or there is no task and no processor changes.
pub schedule-IsConsistent :
    (s : System) (cpu : ℕ)
    → IsConsistent s
    → get_elem? (System.cpus s) cpu ≡ some none
    → all_dead (System.pool s) ≡ false
    → (s' : System) × (schedule cpu s ≡ some s') × IsConsistent s' × Scheduled s cpu s'
schedule-IsConsistent s cpu v idle alive = by_tasks (contents (System.task_queue s)) refl
  where
    q : Queue
    q = (pop_queue (System.task_queue s)).0

    ring : IsQueue q
    ring = popped-IsQueue (System.task_queue s) v.ring

    by_tasks :
        (tasks : List ℕ)
        → contents (System.task_queue s) ≡ tasks
        → (s' : System) × (schedule cpu s ≡ some s') × IsConsistent s' × Scheduled s cpu s'
    by_tasks [] at_tasks =
        let popped = rw at_tasks at (pop_queue-refines (System.task_queue s) v.ring) in
        (
          record s { task_queue = q },
          schedule-none cpu s (ap (λ r. r.1) popped) alive,
          idle-IsConsistent s q v ring (ap (λ r. r.0) popped ∙ sym at_tasks),
          inl (at_tasks, refl),
        )
    by_tasks (i ∷ rest) at_tasks =
        let popped = rw at_tasks at (pop_queue-refines (System.task_queue s) v.ring) in
        let first : contents (System.task_queue s) ≡ i ∷ contents q =
          at_tasks ∙ ap (◌∷◌ i) (sym (ap (λ r. r.0) popped)) in
        let (s', done, w, cpus, queue) = run_task-IsConsistent s cpu i q v ring first idle in
        (s', schedule-some cpu i s (ap (λ r. r.1) popped) ∙ done, w, inr (i, rw queue first, cpus))

all_dead-at :
    (pool : List Proc) (i : ℕ) {p : Proc}
    → get_elem? pool i ≡ some p
    → eq_state (Proc.state p) unused ≡ false
    → all_dead pool ≡ false
unfolding all_dead
all_dead-at [] i at_i alive = absurd (cc)
all_dead-at (x ∷ pool) zero {p} at_i alive = let same : x ≡ p = cc in rw (same, alive)
all_dead-at (x ∷ pool) (suc i) at_i alive = elim (Bool-cases (eq_state (Proc.state x) unused)) [
  | inl dead ↦ rw dead (all_dead-at pool i at_i alive)
  | inr other ↦ rw other
]

ready-alive : (st : ProcState) → eq_state st runnable ≡ true → eq_state st unused ≡ false
ready-alive unused h = absurd (cc)
ready-alive used h = absurd (cc)
ready-alive sleeping h = absurd (cc)
ready-alive runnable h = refl
ready-alive running h = absurd (cc)
ready-alive zombie h = absurd (cc)
ready-alive stopped h = absurd (cc)

-- With a task there is a process that is not UNUSED.
pub tasks-alive :
    (s : System) (i : ℕ) (rest : List ℕ)
    → IsConsistent s
    → contents (System.task_queue s) ≡ i ∷ rest
    → all_dead (System.pool s) ≡ false
tasks-alive s i rest v at_tasks =
    let (p, at_i, ready, once) = first-runnable s i rest v at_tasks in
    all_dead-at (System.pool s) i at_i (ready-alive (Proc.state p) ready)

some_inj : {s s' : System} → some s ≡ some s' → s ≡ s'
some_inj h = cc

-- A round that does not panic keeps the system consistent.
pub schedule-Keeps :
    (s s' : System) (cpu : ℕ)
    → IsConsistent s
    → get_elem? (System.cpus s) cpu ≡ some none
    → schedule cpu s ≡ some s'
    → IsConsistent s'
unfolding schedule
schedule-Keeps s s' cpu v idle done = elim (Bool-cases (all_dead (System.pool s))) [
  | inr alive ↦
      let (t, does, w, what) = schedule-IsConsistent s cpu v idle alive in
      let same : t ≡ s' = some_inj (sym does ∙ done) in rw (sym same) w
  | inl dead ↦ by_tasks dead (contents (System.task_queue s)) refl
]
  where
    by_tasks :
        all_dead (System.pool s) ≡ true
        → (tasks : List ℕ) → contents (System.task_queue s) ≡ tasks
        → IsConsistent s'
    by_tasks dead [] at_tasks =
        let popped = rw at_tasks at (pop_queue-refines (System.task_queue s) v.ring) in
        let no_task : (pop_queue (System.task_queue s)).1 ≡ none = ap (λ r. r.1) popped in
        let panics : none ≡ some s' = rw (schedule, no_task, dead) at done in absurd (cc)
    by_tasks dead (i ∷ rest) at_tasks = let alive = tasks-alive s i rest v at_tasks in absurd (cc)
