-- ===== src/Kernel/Process/Turns.antt =====
-- The tasks take turns: each RUNNABLE process is run.
use os_project_signal.Prelude.{
  ℕ, ◌<◌, ◌≡◌, refl, sym, ap, ◌∙◌, inl, inr, Bool-cases, Option-cases, none, some, List, [], ◌∷◌,
  ◌++◌, length, get_elem?, get_elem?-set_self, lt-get_elem?, set-set, arith, ◌==◌,
}
use os_project_signal.Signal.State.{runnable, Proc}
use os_project_signal.Kernel.Queue.{Queue, nproc, push_queue}
use os_project_signal.Kernel.Queue.Refine.{
  IsQueue, contents, push_queue-refines, length-contents, size-le,
}
use os_project_signal.Kernel.System.{System, with_proc, push_task, add_task, curr_proc}
use os_project_signal.Kernel.System.Counts.{count}
use os_project_signal.Kernel.System.Consistent.{IsConsistent, in_state-at, inside-lt}
use os_project_signal.Kernel.System.Keeps.{running-at, system_inj}
use os_project_signal.Kernel.Process.{sched, schedule, yield, turn, turns}
use os_project_signal.Kernel.Process.Transitions.{switched, yield-IsConsistent}
use os_project_signal.Kernel.Process.Scheduling.{tasks-alive, schedule-IsConsistent}

list_inj : {l r : List ℕ} → some l ≡ some r → l ≡ r
list_inj h = cc

-- A push that does not panic puts the task at the end.
push_queue-last :
    (q q' : Queue) (x : ℕ)
    → IsQueue q
    → push_queue q x ≡ some q'
    → contents q' ≡ contents q ++ x ∷ []
push_queue-last q q' x v pushed =
    let refines = rw pushed at (push_queue-refines q x v) in
    elim (Bool-cases (length (contents q) == nproc)) [
      | inl full ↦ absurd (cc)
      | inr room ↦ list_inj (rw room at refines)
    ]

push_task-last :
    (s s' : System) (x : ℕ)
    → IsQueue (System.task_queue s)
    → push_task x s ≡ some s'
    → contents (System.task_queue s') ≡ contents (System.task_queue s) ++ x ∷ []
push_task-last s s' x v done = elim (Option-cases (push_queue (System.task_queue s) x)) [
  | inl full ↦ let no : none ≡ some s' = rw (push_task, full) at done in absurd (cc)
  | inr (q, pushed) ↦
      let yes : some (record s { task_queue = q }) ≡ some s' = rw (push_task, pushed) at done in
      rw (sym (system_inj yes)) (push_queue-last (System.task_queue s) q x v pushed)
]

-- A process that yields goes to the end of the queue.
yield-last :
    (s s' : System) (cpu i : ℕ)
    → IsConsistent s
    → get_elem? (System.cpus s) cpu ≡ some (some i)
    → yield cpu i s ≡ some s'
    → contents (System.task_queue s') ≡ contents (System.task_queue s) ++ i ∷ []
unfolding yield sched add_task
yield-last s s' cpu i v busy done =
    let (p, at_i, run) = running-at s cpu i v busy in
    let ready = record p { state = runnable } in
    let inside : i < length (System.pool s) = rw v.places (inside-lt s i v at_i) in
    let pushes : push_task i (switched s cpu i ready) ≡ some s' =
      rw
        (
          yield,
          sched,
          with_proc,
          at_i,
          add_task,
          get_elem?-set_self (System.pool s) i ready inside,
          set-set (System.pool s) i ready ready,
        )
        at done in
    push_task-last (switched s cpu i ready) s' i v.ring pushes

-- A turn moves the first task to the end.
turn-rotates :
    (s : System) (cpu x : ℕ) (rest : List ℕ)
    → IsConsistent s
    → get_elem? (System.cpus s) cpu ≡ some none
    → contents (System.task_queue s) ≡ x ∷ rest
    → (s' : System) × (turn cpu s ≡ some s')
      × IsConsistent s'
      × (get_elem? (System.cpus s') cpu ≡ some none)
      × (contents (System.task_queue s') ≡ rest ++ x ∷ [])
unfolding turn
turn-rotates s cpu x rest v idle tasks =
    let inside = lt-get_elem? (System.cpus s) cpu idle in
    let (t, done, w, what) = schedule-IsConsistent s cpu v idle (tasks-alive s x rest v tasks) in
    elim what [
      | inl (empty, same) ↦ absurd (cc)
      | inr (i, first, cpus) ↦
          let is_x : i ∷ contents (System.task_queue t) ≡ x ∷ rest = sym first ∙ tasks in
          let at_i : i ≡ x = cc in
          let left : contents (System.task_queue t) ≡ rest = cc in
          let busy : get_elem? (System.cpus t) cpu ≡ some (some i) =
            rw cpus (get_elem?-set_self (System.cpus s) cpu (some i) inside) in
          let (s', gone, w', cpus') = yield-IsConsistent t cpu i w busy in
          (
            s',
            rw (turn, done, curr_proc, busy, gone),
            w',
            rw cpus' (
                get_elem?-set_self (System.cpus t) cpu none
                  (lt-get_elem? (System.cpus t) cpu busy)),
            yield-last t s' cpu i w busy gone ∙ rw (left, at_i),
          )
    ]

append_assoc : (l r t : List ℕ) → (l ++ r) ++ t ≡ l ++ (r ++ t)
append_assoc [] r t = refl
append_assoc (x ∷ l) r t = ap (◌∷◌ x) (append_assoc l r t)

-- A task is run: in a consistent system where `tasks` stand before the process `i` in the queue, a
-- processor without a process runs as many turns as there are tasks before it, none of which panics,
-- and the next round of `scheduler` makes `i` the process of that processor.
turns-run :
    (cpu i : ℕ) (tasks after : List ℕ) (s : System)
    → IsConsistent s
    → get_elem? (System.cpus s) cpu ≡ some none
    → contents (System.task_queue s) ≡ tasks ++ i ∷ after
    → (t s' : System) × (turns cpu (length tasks) s ≡ some t)
      × (schedule cpu t ≡ some s')
      × IsConsistent s'
      × (get_elem? (System.cpus s') cpu ≡ some (some i))
unfolding turns
turns-run cpu i [] after s v idle at_tasks =
    let (s', done, w, what) =
      schedule-IsConsistent s cpu v idle (tasks-alive s i after v at_tasks) in
    elim what [
      | inl (empty, same) ↦ absurd (cc)
      | inr (j, first, cpus) ↦
          let is_first : j ∷ contents (System.task_queue s') ≡ i ∷ after = sym first ∙ at_tasks in
          let at_i : j ≡ i = cc in
          (
            s,
            s',
            refl,
            done,
            w,
            rw (cpus, at_i)
                (get_elem?-set_self (System.cpus s) cpu (some i)
                  (lt-get_elem? (System.cpus s) cpu idle)),
          )
    ]
turns-run cpu i (x ∷ tasks) after s v idle at_tasks =
    let (s₁, turned, w, idle', rotated) =
      turn-rotates s cpu x (tasks ++ i ∷ after) v idle at_tasks in
    let last : List ℕ = x ∷ [] in
    let order : contents (System.task_queue s₁) ≡ tasks ++ i ∷ (after ++ last) =
      rotated ∙ append_assoc tasks (i ∷ after) last in
    let (t, s', runs, done, w', busy) = turns-run cpu i tasks (after ++ last) s₁ w idle' order in
    (t, s', rw (turns, turned) runs, done, w', busy)

-- A list splits at an index that is counted.
split-at :
    (i : ℕ) (l : List ℕ)
    → 0 < count i l
    → (before after : List ℕ) × (l ≡ before ++ i ∷ after) × (length before < length l)
split-at i [] h = absurd (omega arith)
split-at i (x ∷ l) h = elim (Bool-cases (x == i)) [
  | inl same ↦ let at_i : x ≡ i = ground arith in ([], l, rw at_i, omega arith)
  | inr other ↦
      let (before, after, e, less) = split-at i l (ground arith) in
      (x ∷ before, after, ap (◌∷◌ x) e, omega arith)
]

-- Every RUNNABLE process runs: in a consistent system a processor without a process runs fewer than 512
-- turns, none of which panics, and the next round of `scheduler` makes the process the one of that
-- processor.
pub runnable-runs :
    (cpu i : ℕ) (p : Proc) (s : System)
    → IsConsistent s
    → get_elem? (System.cpus s) cpu ≡ some none
    → get_elem? (System.pool s) i ≡ some p
    → Proc.state p ≡ runnable
    → (n : ℕ) × (t s' : System) × (n < nproc)
      × (turns cpu n s ≡ some t)
      × (schedule cpu t ≡ some s')
      × IsConsistent s'
      × (get_elem? (System.cpus s') cpu ≡ some (some i))
runnable-runs cpu i p s v idle at_i ready =
    let counted : count i (contents (System.task_queue s)) ≡ 1 =
      v.queued i ∙ in_state-at runnable (System.pool s) i at_i ∙ rw ready in
    let (before, after, e, less) = split-at i (contents (System.task_queue s)) (omega arith) in
    let few = length-contents (System.task_queue s) in
    let most = size-le (System.task_queue s) v.ring in
    let (t, s', runs, done, w, busy) = turns-run cpu i before after s v idle e in
    (length before, t, s', omega arith, runs, done, w, busy)
