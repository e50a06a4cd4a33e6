-- ===== src/Kernel/Family/Victim.antt =====
-- The victim of `kill`: it is changed alone, and keeps its parent and its pid.
use os_project_signal.Prelude.{
  ℕ, ◌<◌, ◌≡◌, ◌≢◌, refl, sym, ap, ◌∙◌, Bool-cases, inl, inr, some, get_elem?, get_elem?-set_self,
  get_elem?-set_ne, length-set, set-set, set, length,
}
use os_project_signal.Signal.State.{sleeping, runnable, Proc, killed_by, sigkill}
use os_project_signal.Kernel.System.{System, eq_state, put_proc, with_proc, push_task, add_task}
use os_project_signal.Kernel.System.Consistent.{IsConsistent}
use os_project_signal.Kernel.System.Keeps.{
  Keeps, put_proc-Keeps, add_task-Keeps, push_task-pool, system_inj,
}
use os_project_signal.Kernel.Process.Transitions.{sleeping_lem}
use os_project_signal.Kernel.Family.{kill_victim}

abbrev pub victim : Proc → Proc
victim p = record p { killed = killed_by sigkill }

pub kill_victim-Keeps :
    (v : ℕ) (s : System) (p : Proc)
    → IsConsistent s
    → get_elem? (System.pool s) v ≡ some p
    → Keeps (kill_victim v) s
unfolding kill_victim
kill_victim-Keeps v s p w at_v = elim (Bool-cases (eq_state p.state sleeping)) [
  | inl asleep ↦
      let at_sleeping = sleeping_lem p.state asleep in
      let (s', done, w', cpus) =
        add_task-Keeps s v p (record (victim p) { state = runnable }) w at_v (λ h. h)
          (rw at_sleeping) (rw at_sleeping) in
      (s', rw (with_proc, at_v, asleep) done, w', cpus)
  | inr awake ↦
      let (s', done, w', cpus) = put_proc-Keeps s v p (victim p) w at_v (λ h. h) refl refl in
      (s', rw (with_proc, at_v, awake) done, w', cpus)
]

-- Only the victim is changed, and it keeps its parent and its pid.
abbrev pub VictimOnly : ℕ → Proc → System → System → Type 0
VictimOnly v p s s' =
    (p' : Proc) × (System.pool s' ≡ set (System.pool s) v p')
    × (Proc.parent p' ≡ Proc.parent p)
    × (Proc.pid p' ≡ Proc.pid p)

pub kill_victim-VictimOnly :
    (v : ℕ) (s s' : System) (p : Proc)
    → get_elem? (System.pool s) v ≡ some p
    → v < length (System.pool s)
    → kill_victim v s ≡ some s'
    → VictimOnly v p s s'
unfolding kill_victim
kill_victim-VictimOnly v s s' p at_v inside done = elim (Bool-cases (eq_state p.state sleeping)) [
  | inl asleep ↦
      let p' = record (victim p) { state = runnable } in
      let woken : add_task v (put_proc v p' s) ≡ some s' =
        rw (kill_victim, with_proc, at_v, asleep) at done in
      let put_twice : push_task v (put_proc v p' s) ≡ some s' =
        rw
          (
            add_task,
            with_proc,
            get_elem?-set_self (System.pool s) v p' inside,
            set-set (System.pool s) v p' p',
          )
          at woken in
      (p', push_task-pool v (put_proc v p' s) s' put_twice, refl, refl)
  | inr awake ↦
      let changed : some (put_proc v (victim p) s) ≡ some s' =
        rw (kill_victim, with_proc, at_v, awake) at done in
      (victim p, sym (ap System.pool (system_inj changed)), refl, refl)
]

-- The process table behind the change of the victim `v`.
module _ (s s' : System) (v : ℕ) (p p' : Proc) (at_v : get_elem? (System.pool s) v ≡ some p)
    (pool_lem : System.pool s' ≡ set (System.pool s) v p')
    (inside : v < length (System.pool s)) where
  pub victim-at : get_elem? (System.pool s') v ≡ some p'
  victim-at = rw pool_lem (get_elem?-set_self (System.pool s) v p' inside)

  pub other-at :
      (j : ℕ) {r : Proc}
      → v ≢ j
      → get_elem? (System.pool s) j ≡ some r
      → get_elem? (System.pool s') j ≡ some r
  other-at j other at_j = rw pool_lem (get_elem?-set_ne (System.pool s) p' other ∙ at_j)

  pub other-was :
      (j : ℕ) {r : Proc}
      → v ≢ j
      → get_elem? (System.pool s') j ≡ some r
      → get_elem? (System.pool s) j ≡ some r
  other-was j other at_j = sym (get_elem?-set_ne (System.pool s) p' other) ∙ rw (sym pool_lem) at_j

  pub inside' : v < length (System.pool s')
  inside' = rw (pool_lem, length-set (System.pool s) v p') inside
