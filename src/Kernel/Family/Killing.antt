-- ===== src/Kernel/Family/Killing.antt =====
-- `kill`: it holds the victim's lock while it sends SIGCHLD, and the search for the parent locks every
-- process on its way.
use os_project_signal.Prelude.{
  ℕ, ◌<◌, ◌≡◌, ◌≢◌, refl, ◌∙◌, ◌⊎◌, true, false, inl, inr, Option, none, some, get_elem?,
  lt-get_elem?, length, arith,
}
use os_project_signal.Prelude.Int.{ℤ, pos, negsuc, eqb_ℤ}
use os_project_signal.Signal.State.{Proc, sigchld}
use os_project_signal.Signal.Syscalls.{einval}
use os_project_signal.Signal.Send.{sys_sigkill, returns, find_by_pid}
use os_project_signal.Signal.Send.Search.{
  Returns, find_by_pid-Finds, find_by_pid-first, find_by_pid-held, sys_sigkill-found,
  sys_sigkill-held_or_Returns,
}
use os_project_signal.Kernel.System.{System, with_proc}
use os_project_signal.Kernel.System.Consistent.{IsConsistent, inside-lt, proc-at}
use os_project_signal.Kernel.Family.{ignore_result, kill, kill_victim, kill_notify}
use os_project_signal.Kernel.Family.Victim.{
  kill_victim-Keeps, kill_victim-VictimOnly, victim-at, other-at, other-was, inside',
}

sys_sigkill-held :
    (cpu v : ℕ) (pid code : ℤ) (s : System)
    → find_by_pid (some v) pid (System.pool s) ≡ none
    → sys_sigkill cpu (some v) pid (pos sigchld) code s ≡ none
unfolding sys_sigkill
sys_sigkill-held cpu v pid code s panics = rw panics

-- `kill` panics where the victim has a parent and no process before the victim has the parent's pid:
-- the search for the parent then locks the victim, whose lock is held. A parent that stands behind the
-- victim in the process table is such a case, where pids differ.
pub kill-panics :
    (cpu : ℕ) (pid : ℤ) (s : System) (v q : ℕ) (p parent : Proc)
    → IsConsistent s
    → find_by_pid none pid (System.pool s) ≡ some (some v)
    → get_elem? (System.pool s) v ≡ some p
    → Proc.parent p ≡ some q
    → v ≢ q
    → get_elem? (System.pool s) q ≡ some parent
    → ((j : ℕ) (r : Proc)
        → j < v
        → get_elem? (System.pool s) j ≡ some r
        → eqb_ℤ (Proc.pid r) (Proc.pid parent) ≡ false)
    → kill cpu pid s ≡ none
unfolding kill kill_notify
kill-panics cpu pid s v q p parent w found at_v has_parent other at_q before =
    let inside : v < length (System.pool s) = lt-get_elem? (System.pool s) v at_v in
    let (s', done, w', cpus) = kill_victim-Keeps v s p w at_v in
    let (p', pool_lem, same_parent, same_pid) = kill_victim-VictimOnly v s s' p at_v inside done in
    let at_v' = victim-at s s' v p p' at_v pool_lem inside in
    let at_q' = other-at s s' v p p' at_v pool_lem inside q other at_q in
    let panics = sys_sigkill-held cpu v (Proc.pid parent) (negsuc 0) s' (
      find_by_pid-held v (Proc.pid parent) (System.pool s')
        (λ j r less at_j.
          before j r less (other-was s s' v p p' at_v pool_lem inside j (λ e. omega arith) at_j))
        (inside' s s' v p p' at_v pool_lem inside)) in
    rw (kill, found, done) (rw (with_proc, at_v', same_parent, has_parent, at_q', panics))

-- The victim has no parent, or a process before it in the table has the parent's pid.
abbrev pub ParentFirst : System → ℕ → Proc → Type 0
ParentFirst s v p =
    (Proc.parent p ≡ none)
    ⊎ ((q j : ℕ) × (parent r : Proc) × (Proc.parent p ≡ some q)
        × (v ≢ q)
        × (get_elem? (System.pool s) q ≡ some parent)
        × (j < v)
        × (get_elem? (System.pool s) j ≡ some r)
        × (eqb_ℤ (Proc.pid r) (Proc.pid parent) ≡ true))

-- Otherwise `kill` returns.
pub kill-Returns :
    (cpu i : ℕ) (pid : ℤ) (s : System) (v : ℕ) (p : Proc)
    → IsConsistent s
    → get_elem? (System.cpus s) cpu ≡ some (some i)
    → find_by_pid none pid (System.pool s) ≡ some (some v)
    → get_elem? (System.pool s) v ≡ some p
    → ParentFirst s v p
    → Returns (kill cpu pid) s
unfolding kill kill_notify
kill-Returns cpu i pid s v p w busy found at_v first =
    let inside : v < length (System.pool s) = lt-get_elem? (System.pool s) v at_v in
    let (s', done, w', cpus) = kill_victim-Keeps v s p w at_v in
    let (p', pool_lem, same_parent, same_pid) = kill_victim-VictimOnly v s s' p at_v inside done in
    let at_v' = victim-at s s' v p p' at_v pool_lem inside in
    elim first [
      | inl orphan ↦
          let no_parent : Proc.parent p' ≡ none = same_parent ∙ orphan in
          (s', pos 0, rw (kill, found, done) (rw (with_proc, at_v', no_parent, returns)), w', cpus)
      | inr (q, j, parent, r, has_parent, other, at_q, less, at_j, same) ↦
          let parent_lem : Proc.parent p' ≡ some q = same_parent ∙ has_parent in
          let at_q' = other-at s s' v p p' at_v pool_lem inside q other at_q in
          let at_j' = other-at s s' v p p' at_v pool_lem inside j (λ e. omega arith) at_j in
          let (k, r', found', at_k) =
            find_by_pid-first v (Proc.pid parent) (System.pool s') j r less at_j' same in
          let (t, ret, sent, u, cpus') =
            sys_sigkill-found cpu (some v) (Proc.pid parent) (pos sigchld) (negsuc 0) s' i k r' w'
              (rw cpus busy) refl found' at_k in
          (
            t,
            pos 0,
            rw (kill, found, done)
                (rw (with_proc, at_v', parent_lem, at_q', sent, ignore_result, returns)),
            u,
            cpus' ∙ cpus,
          )
    ]

-- `kill` panics, or returns in a consistent system.
pub kill-panics_or_Returns :
    (cpu i : ℕ) (pid : ℤ) (s : System)
    → IsConsistent s
    → get_elem? (System.cpus s) cpu ≡ some (some i)
    → (kill cpu pid s ≡ none) ⊎ Returns (kill cpu pid) s
unfolding kill kill_notify
kill-panics_or_Returns cpu i pid s w busy = elim (find_by_pid-Finds pid (System.pool s)) [
  | inl absent ↦ inr (s, einval, rw (kill, absent), w, refl)
  | inr (v, p, found, at_v, same) ↦
      let (s', done, w', cpus) = kill_victim-Keeps v s p w at_v in
      let small = inside-lt s v w at_v in
      let (p', at_v') = proc-at s' v w' small in
      by_parent v s' p' found done w' cpus at_v' (Proc.parent p') refl
]
  where
    by_parent :
        (v : ℕ) (s' : System) (p' : Proc)
        → find_by_pid none pid (System.pool s) ≡ some (some v)
        → kill_victim v s ≡ some s'
        → IsConsistent s'
        → System.cpus s' ≡ System.cpus s
        → get_elem? (System.pool s') v ≡ some p'
        → (q : Option ℕ) → Proc.parent p' ≡ q
        → (kill cpu pid s ≡ none) ⊎ Returns (kill cpu pid) s
    by_parent v s' p' found done w' cpus at_v' none orphan =
        inr (s', pos 0, rw (kill, found, done) (rw (with_proc, at_v', orphan, returns)), w', cpus)
    by_parent v s' p' found done w' cpus at_v' (some q) has_parent =
        let points = rw has_parent at (w'.parents v p' at_v') in
        let (parent, at_q) = proc-at s' q w' points in
        elim (sys_sigkill-held_or_Returns cpu (some v) (Proc.pid parent) (pos sigchld) (negsuc 0) s'
          i w' (rw cpus busy)) [
            | inl panics ↦
                inl (rw (kill, found, done) (rw (with_proc, at_v', has_parent, at_q, panics)))
            | inr (t, ret, sent, u, cpus') ↦ inr (
              t,
              pos 0,
              rw (kill, found, done)
                  (rw (with_proc, at_v', has_parent, at_q, sent, ignore_result, returns)),
              u,
              cpus' ∙ cpus,
            )
          ]
