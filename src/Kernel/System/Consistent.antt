-- ===== src/Kernel/System/Consistent.antt =====
-- The invariant of the process table, the queue of tasks and the processors.
use os_project_signal.Prelude.{
  ℕ, zero, suc, ◌+◌, ◌≤◌, ◌<◌, ◌≡◌, refl, sym, ap, ◌∙◌, Bool, true, false, Bool-cases, inl, inr,
  Option, none, some, set, get_elem?, List, [], ◌∷◌, length, length-set, get_elem?-lt, lt-get_elem?,
  get_elem?-set_self, get_elem?-set_ne, ◌==◌, if◌then◌else◌, arith,
}
use os_project_signal.Signal.State.{ProcState, runnable, running, Proc}
use os_project_signal.Kernel.Queue.{Queue, nproc}
use os_project_signal.Kernel.Queue.Refine.{IsQueue, contents, push_queue-fits}
use os_project_signal.Kernel.System.{System, eq_state, put_proc, push_task}
use os_project_signal.Kernel.System.Counts.{
  count, count-append, sum_below-lt, length-eq-sum_below, count_cpu,
}

abbrev pub flag : Bool → ℕ
flag true = 1
flag false = 0

-- 1 where there is a process with index `i` in the state.
abbrev pub in_state : ProcState → List Proc → ℕ → ℕ
in_state st [] i = 0
in_state st (p ∷ pool) zero = flag (eq_state (Proc.state p) st)
in_state st (p ∷ pool) (suc i) = in_state st pool i

-- A pointer to a process, or NULL.
abbrev pub PointsIn : Option ℕ → Type 0
PointsIn none = Unit
PointsIn (some i) = i < nproc

pub record IsConsistent (s : System) : Type 0 where
  pub places : length (System.pool s) ≡ nproc
  pub ring : IsQueue (System.task_queue s)
  pub queued :
      (i : ℕ) → count i (contents (System.task_queue s)) ≡ in_state runnable (System.pool s) i
  pub parents : (i : ℕ) (p : Proc) → get_elem? (System.pool s) i ≡ some p → PointsIn (Proc.parent p)
  pub init_in : PointsIn (System.init_proc s)
  pub on_cpu : (i : ℕ) → count_cpu i (System.cpus s) ≡ in_state running (System.pool s) i

in_state-set :
    (st : ProcState) (pool : List Proc) (i j : ℕ) (p : Proc)
    → i < length pool
    → in_state st (set pool i p) j
      ≡ (if j == i then flag (eq_state (Proc.state p) st) else in_state st pool j)
in_state-set st [] i j p h = elim h [ ]
in_state-set st (x ∷ pool) zero zero p h = refl
in_state-set st (x ∷ pool) zero (suc j) p h = ground arith
in_state-set st (x ∷ pool) (suc i) zero p h = ground arith
in_state-set st (x ∷ pool) (suc i) (suc j) p h =
    in_state-set st pool i j p (omega arith) ∙ (ground arith)

pub in_state-at :
    (st : ProcState) (pool : List Proc) (i : ℕ) {p : Proc}
    → get_elem? pool i ≡ some p
    → in_state st pool i ≡ flag (eq_state (Proc.state p) st)
in_state-at st [] i h = absurd (cc)
in_state-at st (x ∷ pool) zero {p} h = let same : x ≡ p = cc in rw same
in_state-at st (x ∷ pool) (suc i) h = in_state-at st pool i h

flag-le : (b : Bool) → flag b ≤ 1
flag-le true = omega arith
flag-le false = omega arith

pub in_state-le : (st : ProcState) (pool : List Proc) (i : ℕ) → in_state st pool i ≤ 1
in_state-le st [] i = omega arith
in_state-le st (x ∷ pool) zero = flag-le (eq_state (Proc.state x) st)
in_state-le st (x ∷ pool) (suc i) = in_state-le st pool i

in_state-outside :
    (st : ProcState) (pool : List Proc) (i : ℕ) → length pool ≤ i → in_state st pool i ≡ 0
in_state-outside st [] i h = refl
in_state-outside st (x ∷ pool) zero h = absurd (omega arith)
in_state-outside st (x ∷ pool) (suc i) h = in_state-outside st pool i (omega arith)

some_inj : {p r : Proc} → some p ≡ some r → p ≡ r
some_inj h = cc

-- A process and its place in the queue and at the processors are changed together.
pub changed-IsConsistent :
    (s : System) (i : ℕ) (p : Proc) (q : Queue) (cpus : List (Option ℕ))
    → IsConsistent s
    → i < nproc
    → PointsIn (Proc.parent p)
    → IsQueue q
    → ((j : ℕ)
        → count j (contents q) ≡ (
            if j == i
            then flag (eq_state (Proc.state p) runnable)
            else count j (contents (System.task_queue s))))
    → ((j : ℕ)
        → count_cpu j cpus ≡ (
            if j == i then flag (eq_state (Proc.state p) running) else count_cpu j (System.cpus s)))
    → IsConsistent (record s { pool = set (System.pool s) i p; task_queue = q; cpus = cpus })
changed-IsConsistent s i p q cpus v small points ring queue_lem cpu_lem = record {
  places = length-set (System.pool s) i p ∙ v.places;
  ring = ring;
  parents = λ j r at_j. elim (Bool-cases (j == i)) [
    | inl same ↦
        let at_same : j ≡ i = ground arith in
        let is_p : p ≡ r =
          some_inj (sym (get_elem?-set_self (System.pool s) i p inside) ∙ rw at_same at at_j) in
        rw (sym is_p) points
    | inr other ↦
        v.parents j r (sym (get_elem?-set_ne (System.pool s) p (λ e. ground arith)) ∙ at_j)
  ];
  init_in = v.init_in;
  queued =
      λ j. queue_lem j ∙ rw (v.queued j) (sym (in_state-set runnable (System.pool s) i j p inside));
  on_cpu =
      λ j. cpu_lem j ∙ rw (v.on_cpu j) (sym (in_state-set running (System.pool s) i j p inside));
}
  where
    inside : i < length (System.pool s)
    inside = rw v.places small

-- The process that stands at an index.
pub proc-at :
    (s : System) (i : ℕ)
    → IsConsistent s
    → i < nproc
    → (p : Proc) × (get_elem? (System.pool s) i ≡ some p)
proc-at s i v small = get_elem?-lt (System.pool s) i (rw v.places small)

pub inside-lt :
    (s : System) (i : ℕ) {p : Proc}
    → IsConsistent s
    → get_elem? (System.pool s) i ≡ some p
    → i < nproc
inside-lt s i v at_i = rw (sym v.places) (lt-get_elem? (System.pool s) i at_i)

-- A change that leaves alone whether the process is RUNNABLE and whether it is RUNNING.
pub quiet-IsConsistent :
    (s : System) (i : ℕ) (p₀ p : Proc)
    → IsConsistent s
    → get_elem? (System.pool s) i ≡ some p₀
    → (PointsIn (Proc.parent p₀) → PointsIn (Proc.parent p))
    → eq_state (Proc.state p) runnable ≡ eq_state (Proc.state p₀) runnable
    → eq_state (Proc.state p) running ≡ eq_state (Proc.state p₀) running
    → IsConsistent (put_proc i p s)
quiet-IsConsistent s i p₀ p v at_i points ready run =
    changed-IsConsistent s i p (System.task_queue s) (System.cpus s) v (inside-lt s i v at_i)
      (points (v.parents i p₀ at_i)) v.ring
      (λ j.
        same_at j (λ k. count k (contents (System.task_queue s)))
          (v.queued i ∙ in_state-at runnable (System.pool s) i at_i ∙ ap flag (sym ready)))
      (λ j.
        same_at j (λ k. count_cpu k (System.cpus s))
          (v.on_cpu i ∙ in_state-at running (System.pool s) i at_i ∙ ap flag (sym run)))
  where
    same_at : (j : ℕ) {n : ℕ} (f : ℕ → ℕ) → f i ≡ n → f j ≡ (if j == i then n else f j)
    same_at j f e = elim (Bool-cases (j == i)) [
      | inl same ↦ let at_same : j ≡ i = ground arith in rw (same, at_same) e
      | inr other ↦ rw other
    ]

-- Where a process is not RUNNABLE, the queue has room.
pub few-tasks :
    (s : System) (i : ℕ)
    → IsConsistent s
    → i < nproc
    → in_state runnable (System.pool s) i ≡ 0
    → length (contents (System.task_queue s)) < nproc
few-tasks s i v small not_ready =
    let tasks = contents (System.task_queue s) in
    let none_outside : (j : ℕ) → nproc ≤ j → count j tasks ≡ 0 =
      λ j outside. v.queued j ∙ in_state-outside runnable (System.pool s) j (rw v.places outside) in
    rw (length-eq-sum_below nproc tasks none_outside) (
      sum_below-lt nproc i (λ j. count j tasks)
        (λ j. rw (v.queued j) (in_state-le runnable (System.pool s) j)) small
        (v.queued i ∙ not_ready))

-- A process that is neither RUNNABLE nor RUNNING is made RUNNABLE and put into the queue.
pub push_task-IsConsistent :
    (s : System) (i : ℕ) (p₀ p : Proc)
    → IsConsistent s
    → get_elem? (System.pool s) i ≡ some p₀
    → (PointsIn (Proc.parent p₀) → PointsIn (Proc.parent p))
    → eq_state (Proc.state p₀) runnable ≡ false
    → eq_state (Proc.state p₀) running ≡ false
    → Proc.state p ≡ runnable
    → (s' : System) × (push_task i (put_proc i p s) ≡ some s')
      × IsConsistent s'
      × (System.cpus s' ≡ System.cpus s)
push_task-IsConsistent s i p₀ p v at_i points not_ready not_run ready =
    let small = inside-lt s i v at_i in
    let absent = in_state-at runnable (System.pool s) i at_i ∙ ap flag not_ready in
    let (q, pushed, ring, back) =
      push_queue-fits (System.task_queue s) i v.ring (few-tasks s i v small absent) in
    (
      record (put_proc i p s) { task_queue = q },
      rw (push_task, pushed),
      changed-IsConsistent s i p q (System.cpus s) v small (points (v.parents i p₀ at_i)) ring
          (λ j.
            rw (back, count-append j (contents (System.task_queue s)) (i ∷ []), ready)
              (counted j (count j (contents (System.task_queue s)))
                (λ at_j. rw at_j (v.queued i ∙ absent))))
          (λ j. rw ready (
            idle j (λ at_j.
              rw at_j
                (v.on_cpu i ∙ in_state-at running (System.pool s) i at_i ∙ ap flag not_run)))),
      refl,
    )
  where
    counted : (j n : ℕ) → (j ≡ i → n ≡ 0) → n + count j (i ∷ []) ≡ (if j == i then 1 else n)
    counted j n absent = elim (Bool-cases (j == i)) [
      | inl same ↦ let gone = absent (ground arith) in ground arith
      | inr other ↦ ground arith
    ]

    idle :
        (j : ℕ)
        → (j ≡ i → count_cpu j (System.cpus s) ≡ 0)
        → count_cpu j (System.cpus s) ≡ (if j == i then 0 else count_cpu j (System.cpus s))
    idle j absent = elim (Bool-cases (j == i)) [
      | inl same ↦ rw same (absent (ground arith))
      | inr other ↦ rw other
    ]
