-- ===== src/Kernel/Family/Transitions.antt =====
-- `fork`, `exit`, `wait` and `kill` keep the process table consistent.
use os_project_signal.Prelude.{
  ℕ, suc, ◌+◌, ◌<◌, ◌≡◌, refl, sym, ap, ◌∙◌, ◌⊎◌, ◌≢◌, true, false, Bool-cases, inl, inr, Option,
  none, some, get_elem?, get_elem?-set_self, List, [], ◌∷◌, length, arith,
}
use os_project_signal.Prelude.Int.{ℤ}
use os_project_signal.Signal.Memory.{Memory}
use os_project_signal.Signal.State.{
  ProcState, unused, used, sleeping, runnable, running, zombie, stopped, Proc,
}
use os_project_signal.Signal.Send.{returns}
use os_project_signal.Signal.Send.Search.{Returns}
use os_project_signal.Kernel.System.{System, Op, eq_state, put_proc, with_proc, add_task}
use os_project_signal.Kernel.System.Consistent.{IsConsistent, inside-lt, quiet-IsConsistent}
use os_project_signal.Kernel.System.Keeps.{Keeps, put_proc-Keeps, add_task-Keeps, running-at}
use os_project_signal.Kernel.Process.{
  find_unused, init_proc_fields, next, allocproc, freeproc, freeproc_fields,
}
use os_project_signal.Kernel.Family.{
  NewMemory, no_root_page, not_created, not_copied, copied, forked, fork_into, fork, enomem,
}

find_unused_lem :
    (i : ℕ) (pool : List Proc)
    → (find_unused i pool ≡ none)
      ⊎ ((j : ℕ) × (p : Proc) × (find_unused i pool ≡ some (i + j))
          × (get_elem? pool j ≡ some p)
          × (eq_state (Proc.state p) unused ≡ true))
unfolding find_unused
find_unused_lem i [] = inl refl
find_unused_lem i (p ∷ pool) = elim (Bool-cases (eq_state p.state unused)) [
  | inl free ↦ inr (0, p, rw free (ap some (omega arith)), refl, free)
  | inr taken ↦ elim (find_unused_lem (i + 1) pool) [
    | inl absent ↦ inl (rw taken absent)
    | inr (j, q, found, at_j, free) ↦
        inr (suc j, q, rw taken (found ∙ ap some (omega arith)), at_j, free)
  ]
]

unused_lem : (st : ProcState) → eq_state st unused ≡ true → st ≡ unused
unused_lem unused h = refl
unused_lem used h = absurd (cc)
unused_lem sleeping h = absurd (cc)
unused_lem runnable h = absurd (cc)
unused_lem running h = absurd (cc)
unused_lem zombie h = absurd (cc)
unused_lem stopped h = absurd (cc)

state-freeproc_fields :
    (p : Proc)
    → (Proc.state (freeproc_fields p) ≡ unused) × (Proc.parent (freeproc_fields p) ≡ none)
unfolding freeproc_fields
state-freeproc_fields p = (refl, refl)

-- `allocproc` finds no process, or makes one USED.
pub allocproc-cases :
    (s : System)
    → IsConsistent s
    → (allocproc s ≡ some (s, none))
      ⊎ ((t : System) × (c : ℕ) × (np : Proc) × (allocproc s ≡ some (t, some c))
          × IsConsistent t
          × (System.cpus t ≡ System.cpus s)
          × (get_elem? (System.pool t) c ≡ some np)
          × (Proc.state np ≡ used)
          × (Proc.parent np ≡ none))
unfolding allocproc
allocproc-cases s v = elim (find_unused_lem 0 (System.pool s)) [
  | inl absent ↦ inl (rw (allocproc, absent))
  | inr (j, p, found, at_j, free) ↦
      let from_zero : 0 + j ≡ j = omega arith in
      let np = init_proc_fields (System.next_pid s) p in
      let at_free = unused_lem p.state free in
      let inside : j < length (System.pool s) = rw v.places (inside-lt s j v at_j) in
      let w = quiet-IsConsistent s j p np v at_j (λ h. tt) (rw at_free) (rw at_free) in
      inr (
        record (put_proc j np s) { next_pid = next (System.next_pid s) },
        j,
        np,
        rw (allocproc, found ∙ ap some from_zero, at_j),
        record {
          places = w.places;
          ring = w.ring;
          queued = w.queued;
          parents = w.parents;
          init_in = w.init_in;
          on_cpu = w.on_cpu;
        },
        refl,
        get_elem?-set_self (System.pool s) j np inside,
        refl,
        refl,
      )
]

first-free :
    (pool : List Proc) (p : Proc)
    → get_elem? pool 0 ≡ some p
    → Proc.state p ≡ unused
    → find_unused 0 pool ≡ some 0
unfolding find_unused
first-free [] p at_0 free = absurd (cc)
first-free (x ∷ pool) p at_0 free = let same : x ≡ p = cc in rw (same, free)

-- With the first place free, `allocproc` takes it.
pub allocproc-free :
    (s : System) (p : Proc)
    → IsConsistent s
    → get_elem? (System.pool s) 0 ≡ some p
    → Proc.state p ≡ unused
    → (t : System) × (np : Proc) × (allocproc s ≡ some (t, some 0))
      × IsConsistent t
      × (System.cpus t ≡ System.cpus s)
      × (get_elem? (System.pool t) 0 ≡ some np)
      × (Proc.state np ≡ used)
unfolding allocproc
allocproc-free s p v at_0 free = elim (allocproc-cases s v) [
  | inl full ↦
      let no = rw (allocproc, first-free (System.pool s) p at_0 free, at_0) at full in absurd (cc)
  | inr (t, c, np, made, w, cpus, at_c, st, par) ↦
      let found = rw (allocproc, first-free (System.pool s) p at_0 free, at_0) at made in
      let is_0 : c ≡ 0 = cc in (t, np, rw is_0 at made, w, cpus, rw is_0 at at_c, st)
]

-- A process that is neither RUNNABLE nor RUNNING is freed.
pub freeproc-Keeps :
    (c : ℕ) (s : System) (p : Proc)
    → IsConsistent s
    → get_elem? (System.pool s) c ≡ some p
    → eq_state (Proc.state p) runnable ≡ false
    → eq_state (Proc.state p) running ≡ false
    → Keeps (freeproc c) s
unfolding freeproc
freeproc-Keeps c s p v at_c not_ready not_run =
    let (s', done, w, cpus) =
      put_proc-Keeps s c p (freeproc_fields p) v at_c (λ h. tt) (sym not_ready) (sym not_run) in
    (s', rw (with_proc, at_c) done, w, cpus)

Returns-returns :
    (f : System → Option (System × ℤ)) (g : Op) (s t : System) (ret : ℤ)
    → f s ≡ returns ret (g t)
    → System.cpus t ≡ System.cpus s
    → Keeps g t
    → Returns f s
Returns-returns f g s t ret e same (s', done, w, cpus) =
    (s', ret, e ∙ rw (returns, done), w, cpus ∙ same)

state-forked : (i : ℕ) (p : Proc) (m : Memory) (np : Proc) → Proc.parent (forked i p m np) ≡ some i
unfolding forked
state-forked i p m np = refl

-- fork returns, where `mm_create` does not panic or there is no place for the child, or it panics with
-- `mm_create`.
abbrev pub ForkOutcome : ℕ → NewMemory → System → Type 0
ForkOutcome i new s =
    (Returns (fork i new) s × ((new ≢ no_root_page) ⊎ (allocproc s ≡ some (s, none))))
    ⊎ ((fork i new s ≡ none) × (new ≡ no_root_page))

-- In a consistent system fork returns in a consistent system, with the processors as they were, where
-- `mm_create` does not panic or the process table is full. Else it panics with `mm_create`, where no page
-- is left for the root page table of the child.
pub fork-Returns :
    (cpu i : ℕ) (new : NewMemory) (s : System)
    → IsConsistent s
    → get_elem? (System.cpus s) cpu ≡ some (some i)
    → ForkOutcome i new s
unfolding fork fork_into
fork-Returns cpu i new s v busy = elim (allocproc-cases s v) [
  | inl full ↦ inl ((s, enomem, rw (fork, full), v, refl), inr full)
  | inr (t, c, np, made, w, cpus, at_c, st, par) ↦ by_memory new t c np made w cpus at_c st
]
  where
    by_memory :
        (new : NewMemory) (t : System) (c : ℕ) (np : Proc)
        → allocproc s ≡ some (t, some c)
        → IsConsistent t
        → System.cpus t ≡ System.cpus s
        → get_elem? (System.pool t) c ≡ some np
        → Proc.state np ≡ used
        → ForkOutcome i new s
    by_memory no_root_page t c np made w cpus at_c st = inr (rw (fork, made), refl)
    by_memory not_created t c np made w cpus at_c st = inl (
      Returns-returns (fork i not_created) (freeproc c) s t enomem (rw (fork, made)) cpus
          (freeproc-Keeps c t np w at_c (rw st) (rw st)),
      inl (λ e. cc),
    )
    by_memory (not_copied ret) t c np made w cpus at_c st = inl (
      Returns-returns (fork i (not_copied ret)) (freeproc c) s t ret (rw (fork, made)) cpus
          (freeproc-Keeps c t np w at_c (rw st) (rw st)),
      inl (λ e. cc),
    )
    by_memory (copied m) t c np made w cpus at_c st =
        let (p, at_i, run) = running-at t cpu i w (rw cpus busy) in
        inl (
          Returns-returns (fork i (copied m)) (λ t'. add_task c (put_proc c (forked i p m np) t')) s
              t np.pid (rw (fork, made, fork_into, at_i, at_c)) cpus
              (add_task-Keeps t c np (forked i p m np) w at_c (λ h. inside-lt t i w at_i) (rw st)
                (rw st)),
          inl (λ e. cc),
        )
