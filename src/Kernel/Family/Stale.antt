-- ===== src/Kernel/Family/Stale.antt =====
-- `kill` of a place of the process table that is UNUSED, and the process that `allocproc` makes there.
use os_project_signal.Prelude.{
  ℕ, zero, suc, ◌+◌, ◌<◌, ◌≡◌, refl, sym, ap, ◌∙◌, false, none, some, List, [], ◌∷◌, length,
  get_elem?, get_elem?-set_self, lt-get_elem?, set, if◌then◌else◌,
}
use os_project_signal.Prelude.Int.{ℤ, pos}
use os_project_signal.Signal.State.{unused, sleeping, Proc, killed_by, sigkill}
use os_project_signal.Signal.Send.{find_by_pid, returns}
use os_project_signal.Kernel.System.{System, eq_state, put_proc, with_proc}
use os_project_signal.Kernel.Process.{find_unused, init_proc_fields, allocproc, next}
use os_project_signal.Kernel.Family.{kill, kill_victim, kill_notify}
use os_project_signal.Kernel.Family.Victim.{victim}

-- The search does not see a change that keeps the states.
find_unused-set :
    (i : ℕ) (pool : List Proc) (j : ℕ) {p : Proc} (p' : Proc)
    → get_elem? pool j ≡ some p
    → Proc.state p' ≡ Proc.state p
    → find_unused i (set pool j p') ≡ find_unused i pool
unfolding find_unused
find_unused-set i [] j p' at_j same = absurd (cc)
find_unused-set i (x ∷ pool) zero {p} p' at_j same =
    let is_p : x ≡ p = cc in
    let st : Proc.state p' ≡ Proc.state x = same ∙ ap Proc.state (sym is_p) in rw st
find_unused-set i (x ∷ pool) (suc j) p' at_j same =
    ap (λ r. if eq_state (Proc.state x) unused then some i else r)
      (find_unused-set (i + 1) pool j p' at_j same)

kill_notify-orphan :
    (cpu v : ℕ) (s : System) (p : Proc)
    → get_elem? (System.pool s) v ≡ some p
    → Proc.parent p ≡ none
    → kill_notify cpu v s ≡ some s
unfolding kill_notify
kill_notify-orphan cpu v s p at_v orphan = rw (with_proc, at_v) (rw orphan)

-- A call of `kill` may find a place that is UNUSED, since such a place keeps a pid, -1 or 0: where it is
-- the place that `allocproc` takes next and it has no parent, `kill` returns 0, and the next process
-- that is made is there and is killed from the start.
pub kill-born_killed :
    (cpu v : ℕ) (pid : ℤ) (s : System) (p : Proc)
    → find_by_pid none pid (System.pool s) ≡ some (some v)
    → find_unused 0 (System.pool s) ≡ some v
    → get_elem? (System.pool s) v ≡ some p
    → Proc.state p ≡ unused
    → Proc.parent p ≡ none
    → (s' t : System) × (np : Proc) × (kill cpu pid s ≡ some (s', pos 0))
      × (allocproc s' ≡ some (t, some v))
      × (get_elem? (System.pool t) v ≡ some np)
      × (Proc.killed np ≡ killed_by sigkill)
unfolding kill kill_victim kill_notify allocproc init_proc_fields
kill-born_killed cpu v pid s p found first at_v free orphan =
    let s' = put_proc v (victim p) s in
    let inside : v < length (System.pool s) = lt-get_elem? (System.pool s) v at_v in
    let at_v' : get_elem? (System.pool s') v ≡ some (victim p) =
      get_elem?-set_self (System.pool s) v (victim p) inside in
    let awake : eq_state (Proc.state p) sleeping ≡ false = rw free in
    let no_parent : Proc.parent (victim p) ≡ none = orphan in
    let victim_done : kill_victim v s ≡ some s' = rw (kill_victim, with_proc, at_v, awake) in
    let notified : kill_notify cpu v s' ≡ some s' =
      kill_notify-orphan cpu v s' (victim p) at_v' no_parent in
    let np = init_proc_fields (System.next_pid s) (victim p) in
    let again : find_unused 0 (System.pool s') ≡ some v =
      find_unused-set 0 (System.pool s) v (victim p) at_v refl ∙ first in
    (
      s',
      record (put_proc v np s') { next_pid = next (System.next_pid s) },
      np,
      rw (kill, found, victim_done, notified, returns),
      rw (allocproc, again, at_v'),
      get_elem?-set_self (System.pool s') v np (lt-get_elem? (System.pool s') v at_v'),
      refl,
    )
