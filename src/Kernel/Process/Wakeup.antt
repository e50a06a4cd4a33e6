-- ===== src/Kernel/Process/Wakeup.antt =====
-- `wakeup` leaves no process asleep on its channel.
use os_project_signal.Prelude.{
  ℕ, zero, suc, ◌+◌, ◌≤◌, ◌<◌, ◌≡◌, ◌≢◌, refl, sym, ◌∙◌, ◌⊎◌, inl, inr, true, false, ◌&&◌,
  Bool-cases, some, length, get_elem?, get_elem?-set_self, get_elem?-set_ne, set, set-set, arith,
  ◌==◌,
}
use os_project_signal.Signal.State.{sleeping, runnable, Channel, Proc}
use os_project_signal.Kernel.Queue.{nproc}
use os_project_signal.Kernel.System.{
  System, eq_state, put_proc, with_proc, push_task, add_task, each,
}
use os_project_signal.Kernel.System.Consistent.{IsConsistent, proc-at, inside-lt}
use os_project_signal.Kernel.System.Keeps.{push_task-pool}
use os_project_signal.Kernel.Process.{eq_channel, wake_one, wakeup}
use os_project_signal.Kernel.Process.Transitions.{wake_one-Keeps}

-- The process does not sleep on the channel.
abbrev pub IsAwake : Channel → Proc → Type 0
IsAwake chan p = (eq_state (Proc.state p) sleeping && eq_channel (Proc.sleep_chan p) chan) ≡ false

proc_inj : {p r : Proc} → some p ≡ some r → p ≡ r
proc_inj h = cc

wake_one-wakes :
    (chan : Channel) (i : ℕ) (s s' : System) (p : Proc)
    → i < length (System.pool s)
    → get_elem? (System.pool s) i ≡ some p
    → (eq_state p.state sleeping && eq_channel p.sleep_chan chan) ≡ true
    → wake_one chan i s ≡ some s'
    → System.pool s' ≡ set (System.pool s) i (record p { state = runnable })
unfolding wake_one add_task
wake_one-wakes chan i s s' p inside at_i wakes done =
    let p' = record p { state = runnable } in
    let pushes : push_task i (put_proc i p' s) ≡ some s' =
      rw
        (
          wake_one,
          add_task,
          with_proc,
          at_i,
          wakes,
          get_elem?-set_self (System.pool s) i p' inside,
          set-set (System.pool s) i p' p',
        )
        at done in
    push_task-pool i (put_proc i p' s) s' pushes

-- The turn of `wakeup` for the process `i`: that process is awake behind it, and the others stay.
wake_one-IsAwake :
    (chan : Channel) (i : ℕ) (s s' : System)
    → i < nproc
    → IsConsistent s
    → wake_one chan i s ≡ some s'
    → (j : ℕ) (r : Proc) → get_elem? (System.pool s') j ≡ some r
    → (IsAwake chan r) ⊎ ((i ≢ j) × (get_elem? (System.pool s) j ≡ some r))
unfolding wake_one
wake_one-IsAwake chan i s s' small v done j r at_j =
    let (p, at_i) = proc-at s i v small in
    let inside : i < length (System.pool s) = rw v.places small in
    elim (Bool-cases (eq_state p.state sleeping && eq_channel p.sleep_chan chan)) [
      | inl wakes ↦
          let p' = record p { state = runnable } in
          let at_j' = rw (wake_one-wakes chan i s s' p inside at_i wakes done) at at_j in
          elim (Bool-cases (i == j)) [
            | inl same ↦
                let at_same : i ≡ j = ground arith in
                let is_p : p' ≡ r = proc_inj (
                  sym (get_elem?-set_self (System.pool s) i p' inside)
                  ∙ rw (sym at_same) at at_j') in
                inl (rw (sym is_p))
            | inr other ↦
                let differs : i ≢ j = λ e. ground arith in
                inr (differs, sym (get_elem?-set_ne (System.pool s) p' differs) ∙ at_j')
          ]
      | inr quiet ↦
          let stays : some s ≡ some s' = rw (wake_one, with_proc, at_i, quiet) at done in
          let at_j' : get_elem? (System.pool s) j ≡ some r = cc in
          elim (Bool-cases (i == j)) [
            | inl same ↦
                let at_same : i ≡ j = ground arith in
                let is_p : p ≡ r = proc_inj (sym at_i ∙ rw (sym at_same) at at_j') in
                inl (rw (sym is_p, quiet))
            | inr other ↦ inr ((λ e. ground arith), at_j')
          ]
    ]

each-IsAwake :
    (chan : Channel) (n i : ℕ) (s : System)
    → i + n ≤ nproc
    → IsConsistent s
    → ((j : ℕ) (r : Proc) → j < i → get_elem? (System.pool s) j ≡ some r → IsAwake chan r)
    → (s' : System) × (each (wake_one chan) n i s ≡ some s')
      × IsConsistent s'
      × (System.cpus s' ≡ System.cpus s)
      × ((j : ℕ) (r : Proc) → j < i + n → get_elem? (System.pool s') j ≡ some r → IsAwake chan r)
unfolding each
each-IsAwake chan zero i s within v before =
    (s, refl, v, refl, λ j r less at_j. before j r (omega arith) at_j)
each-IsAwake chan (suc n) i s within v before =
    let (t, done, w, cpus) = wake_one-Keeps chan i s (omega arith) v in
    let (s', rest, w', cpus', awake) =
      each-IsAwake chan n (i + 1) t (omega arith) w (λ j r less at_j.
        elim (wake_one-IsAwake chan i s t (omega arith) v done j r at_j) [
          | inl up ↦ up
          | inr (other, at_j') ↦ before j r (less_of j other less) at_j'
        ]) in
    (s', rw (each, done) rest, w', cpus' ∙ cpus, λ j r less at_j. awake j r (omega arith) at_j)
  where
    less_of : (j : ℕ) → i ≢ j → j < i + 1 → j < i
    less_of j other less = omega arith

-- In a consistent system `wakeup` does not panic and leaves the system consistent and the processors as
-- they are, and then no process of the table sleeps on the channel.
pub wakeup-IsAwake :
    (chan : Channel) (s : System)
    → IsConsistent s
    → (s' : System) × (wakeup chan s ≡ some s')
      × IsConsistent s'
      × (System.cpus s' ≡ System.cpus s)
      × ((j : ℕ) (r : Proc) → get_elem? (System.pool s') j ≡ some r → IsAwake chan r)
unfolding wakeup
wakeup-IsAwake chan s v =
    let (s', done, w, cpus, awake) =
      each-IsAwake chan nproc 0 s (omega arith) v (λ j r less at_j. absurd (omega arith)) in
    (s', done, w, cpus, λ j r at_j. awake j r (inside-lt s' j w at_j) at_j)
