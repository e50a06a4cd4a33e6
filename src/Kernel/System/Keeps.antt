-- ===== src/Kernel/System/Keeps.antt =====
-- Operations that succeed on a consistent system and keep it consistent, and which processes run.
use os_project_signal.Prelude.{
  ℕ, zero, suc, ◌+◌, ◌≤◌, ◌<◌, ◌≡◌, refl, sym, ◌∙◌, Bool, true, false, inl, inr, Option,
  Option-cases, none, some, ap, get_elem?, List, [], ◌∷◌, length, get_elem?-set_self, set-set,
  arith,
}
use os_project_signal.Signal.State.{
  ProcState, unused, used, sleeping, runnable, running, zombie, stopped, Proc,
}
use os_project_signal.Kernel.Queue.{nproc, push_queue}
use os_project_signal.Kernel.System.{
  System, Op, eq_state, put_proc, with_proc, push_task, add_task, each,
}
use os_project_signal.Kernel.System.Counts.{count_cpu, count_cpu-given_up}
use os_project_signal.Kernel.System.Consistent.{
  IsConsistent, PointsIn, flag, in_state, inside-lt, quiet-IsConsistent, push_task-IsConsistent,
}

abbrev pub Keeps : Op → System → Type 0
Keeps f s = (s' : System) × (f s ≡ some s') × IsConsistent s' × (System.cpus s' ≡ System.cpus s)

pub with_proc_lem :
    (i : ℕ) (f : Proc → Op) (s : System) {p : Proc}
    → get_elem? (System.pool s) i ≡ some p
    → with_proc i f s ≡ f p s
with_proc_lem i f s at_i = rw (with_proc, at_i)

-- A change of one process that is quiet.
pub put_proc-Keeps :
    (s : System) (i : ℕ) (p₀ p : Proc)
    → IsConsistent s
    → get_elem? (System.pool s) i ≡ some p₀
    → (PointsIn (Proc.parent p₀) → PointsIn (Proc.parent p))
    → eq_state (Proc.state p) runnable ≡ eq_state (Proc.state p₀) runnable
    → eq_state (Proc.state p) running ≡ eq_state (Proc.state p₀) running
    → Keeps (λ t. some (put_proc i p t)) s
put_proc-Keeps s i p₀ p v at_i points ready run =
    (put_proc i p s, refl, quiet-IsConsistent s i p₀ p v at_i points ready run, refl)

-- A process that is neither RUNNABLE nor RUNNING is changed and added to the tasks.
pub add_task-Keeps :
    (s : System) (i : ℕ) (p₀ p : Proc)
    → IsConsistent s
    → get_elem? (System.pool s) i ≡ some p₀
    → (PointsIn (Proc.parent p₀) → PointsIn (Proc.parent p))
    → eq_state (Proc.state p₀) runnable ≡ false
    → eq_state (Proc.state p₀) running ≡ false
    → Keeps (λ t. add_task i (put_proc i p t)) s
unfolding add_task
add_task-Keeps s i p₀ p v at_i points not_ready not_run =
    let inside : i < length (System.pool s) = rw v.places (inside-lt s i v at_i) in
    let there = get_elem?-set_self (System.pool s) i p inside in
    let (s', done, w, cpus) =
      push_task-IsConsistent s i p₀ (record p { state = runnable }) v at_i points not_ready not_run
        refl in
    (
      s',
      with_proc_lem i (λ p' t. push_task i (put_proc i (record p' { state = runnable }) t))
            (put_proc i p s) there
          ∙ rw (set-set (System.pool s) i p (record p { state = runnable })) done,
      w,
      cpus,
    )

pub each-Keeps :
    (f : ℕ → Op)
    → ((i : ℕ) (s : System) → i < nproc → IsConsistent s → Keeps (f i) s)
    → (n i : ℕ) (s : System) → i + n ≤ nproc
    → IsConsistent s
    → Keeps (each f n i) s
unfolding each
each-Keeps f keep zero i s within v = (s, refl, v, refl)
each-Keeps f keep (suc n) i s within v =
    let (s', done, v', cpus) = keep i s (omega arith) v in
    let (s'', rest, v'', cpus') = each-Keeps f keep n (i + 1) s' (omega arith) v' in
    (s'', rw (each, done) rest, v'', cpus' ∙ cpus)

pub count_cpu-pos :
    (cpus : List (Option ℕ)) (cpu i : ℕ) → get_elem? cpus cpu ≡ some (some i) → 0 < count_cpu i cpus
count_cpu-pos cpus cpu i busy = let given_up = count_cpu-given_up cpus cpu i i busy in ground arith

pub running-of :
    (st : ProcState) (pool : List Proc) (i : ℕ)
    → 0 < in_state st pool i
    → (p : Proc) × (get_elem? pool i ≡ some p) × (eq_state (Proc.state p) st ≡ true)
running-of st [] i h = absurd (omega arith)
running-of st (p ∷ pool) zero h = (p, refl, true_of (eq_state (Proc.state p) st) h)
  where
    true_of : (b : Bool) → 0 < flag b → b ≡ true
    true_of true h = refl
    true_of false h = absurd (omega arith)
running-of st (p ∷ pool) (suc i) h = running-of st pool i h

-- The process of a processor is RUNNING.
pub running-at :
    (s : System) (cpu i : ℕ)
    → IsConsistent s
    → get_elem? (System.cpus s) cpu ≡ some (some i)
    → (p : Proc) × (get_elem? (System.pool s) i ≡ some p) × (eq_state (Proc.state p) running ≡ true)
running-at s cpu i v busy =
    running-of running (System.pool s) i
      (rw (sym (v.on_cpu i)) (count_cpu-pos (System.cpus s) cpu i busy))

pub system_inj : {s s' : System} → some s ≡ some s' → s ≡ s'
system_inj h = cc

pub push_task-pool :
    (i : ℕ) (s s' : System) → push_task i s ≡ some s' → System.pool s' ≡ System.pool s
push_task-pool i s s' done = elim (Option-cases (push_queue (System.task_queue s) i)) [
  | inl full ↦ let no : none ≡ some s' = rw (push_task, full) at done in absurd (cc)
  | inr (q, pushed) ↦
      let yes_push : some (record s { task_queue = q }) ≡ some s' =
        rw (push_task, pushed) at done in
      sym (ap System.pool (system_inj yes_push))
]

-- No state is both.
pub not-both : (st : ProcState) → eq_state st running ≡ true → eq_state st runnable ≡ false
not-both unused h = refl
not-both used h = refl
not-both sleeping h = refl
not-both runnable h = cc
not-both running h = refl
not-both zombie h = refl
not-both stopped h = refl

pub not-running : (st : ProcState) → eq_state st runnable ≡ true → eq_state st running ≡ false
not-running unused h = refl
not-running used h = refl
not-running sleeping h = refl
not-running runnable h = refl
not-running running h = cc
not-running zombie h = refl
not-running stopped h = refl
