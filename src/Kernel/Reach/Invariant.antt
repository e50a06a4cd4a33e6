-- ===== src/Kernel/Reach/Invariant.antt =====
-- What holds in every system that is reached.
use os_project_signal.Prelude.{ℕ, ◌≡◌, refl, sym, ap, ◌∙◌, inl, inr, Option, some, get_elem?}
use os_project_signal.Prelude.Int.{ℤ}
use os_project_signal.Signal.State.{null, Proc}
use os_project_signal.Signal.Send.Search.{sys_sigkill-Returns}
use os_project_signal.Kernel.System.{System, with_proc}
use os_project_signal.Kernel.System.Consistent.{IsConsistent, quiet-IsConsistent}
use os_project_signal.Kernel.System.Keeps.{Keeps, put_proc-Keeps, running-at}
use os_project_signal.Kernel.Process.{sleep_return}
use os_project_signal.Kernel.Process.Transitions.{
  wake_one-Keeps, yield-IsConsistent, sleep-IsConsistent, stop-IsConsistent,
}
use os_project_signal.Kernel.Process.Scheduling.{schedule-Keeps}
use os_project_signal.Kernel.Family.{waited, sleeps}
use os_project_signal.Kernel.Family.Transitions.{fork-Returns}
use os_project_signal.Kernel.Family.Endings.{
  adopt_one-Keeps, exit_notify-Keeps, exit_finish-IsConsistent,
}
use os_project_signal.Kernel.Family.Waiting.{wait_round-Returns}
use os_project_signal.Kernel.Family.Killing.{kill-panics_or_Returns}
use os_project_signal.Kernel.Boot.{zero_proc, proc_init}
use os_project_signal.Kernel.Boot.Initial.{proc_init-IsConsistent, load_init_app-IsConsistent}
use os_project_signal.Kernel.Reach.{
  Step, schedules, yields, sleeps_on, awakes, stops, wakes, sends, forks, adopts, notifies, exits,
  waits, waits_on, kills, works, Reach, boots, steps,
}

-- An operation that has a consistent outcome has no other one.
by_outcome :
    {s' t : System} (r : Option System)
    → r ≡ some t
    → IsConsistent t
    → r ≡ some s'
    → IsConsistent s'
by_outcome {s'} {t} r done w h = let same : t ≡ s' = some_inj (sym done ∙ h) in rw (sym same) w
  where
    some_inj : {a b : System} → some a ≡ some b → a ≡ b
    some_inj e = cc

by_return :
    {t s' : System} {ret ret' : ℤ} (r : Option (System × ℤ))
    → r ≡ some (t, ret)
    → IsConsistent t
    → r ≡ some (s', ret')
    → IsConsistent s'
by_return {t} {s'} r done w h =
    let same : t ≡ s' = ap (λ x. x.0) (some_inj (sym done ∙ h)) in rw (sym same) w
  where
    some_inj : {a b : System × ℤ} → some a ≡ some b → a ≡ b
    some_inj e = cc

sleep_return-Keeps :
    (s : System) (i : ℕ) (p : Proc)
    → IsConsistent s
    → get_elem? (System.pool s) i ≡ some p
    → Keeps (sleep_return i) s
unfolding sleep_return
sleep_return-Keeps s i p v at_i =
    let (s', done, w, cpus) =
      put_proc-Keeps s i p (record p { sleep_chan = null }) v at_i (λ h. h) refl refl in
    (s', rw (with_proc, at_i) done, w, cpus)

-- A round of `wait` that returned, and one that did not.
waited_inj : {t s' : System} {ret ret' : ℤ} → some (waited t ret) ≡ some (waited s' ret') → t ≡ s'
waited_inj h = cc

sleeps_inj : {t s' : System} → some (sleeps t) ≡ some (sleeps s') → t ≡ s'
sleeps_inj h = cc

-- A step leaves a consistent system consistent.
pub Step-IsConsistent : {s s' : System} → IsConsistent s → Step s s' → IsConsistent s'
Step-IsConsistent {s} {s'} v (schedules cpu idle h) = schedule-Keeps s s' cpu v idle h
Step-IsConsistent {s} v (yields cpu i busy h) =
    let (t, done, w, cpus) = yield-IsConsistent s cpu i v busy in by_outcome _ done w h
Step-IsConsistent {s} v (sleeps_on cpu i chan busy h) =
    let (t, done, w, cpus) = sleep-IsConsistent s cpu i chan v busy in by_outcome _ done w h
Step-IsConsistent {s} v (awakes cpu i busy h) =
    let (p, at_i, run) = running-at s cpu i v busy in
    let (t, done, w, cpus) = sleep_return-Keeps s i p v at_i in by_outcome _ done w h
Step-IsConsistent {s} v (stops cpu i busy h) =
    let (t, done, w, cpus) = stop-IsConsistent s cpu i v busy in by_outcome _ done w h
Step-IsConsistent {s} v (wakes chan c small h) =
    let (t, done, w, cpus) = wake_one-Keeps chan c s small v in by_outcome _ done w h
Step-IsConsistent {s} v (sends cpu i pid signo code ret busy h) =
    let (t, ret', done, w, cpus) = sys_sigkill-Returns cpu pid signo code s i v busy in
    by_return _ done w h
Step-IsConsistent {s} v (forks cpu i new ret busy h) = elim (fork-Returns cpu i new s v busy) [
  | inl ((t, ret', done, w, cpus), why) ↦ by_return _ done w h
  | inr (panics, why) ↦ absurd (cc)
]
Step-IsConsistent {s} v (adopts i c small h) =
    let (t, done, w, cpus) = adopt_one-Keeps i c s small v in by_outcome _ done w h
Step-IsConsistent {s} v (notifies cpu i q wakeinit code busy small h) =
    let (t, done, w, cpus) = exit_notify-Keeps cpu i (some q) wakeinit code s v small busy in
    by_outcome _ done w h
Step-IsConsistent {s} v (exits cpu i code busy h) =
    let (t, done, w, cpus) = exit_finish-IsConsistent cpu i code s v busy in by_outcome _ done w h
Step-IsConsistent {s} {s'} v (waits cpu i pid ret code busy h) =
    elim (wait_round-Returns cpu i pid code s v busy) [
      | inl (t, ret', done, w, cpus, why) ↦
          let same : t ≡ s' = waited_inj (sym done ∙ h) in rw (sym same) w
      | inr (t, done, w, cpus, kids, absent, alive) ↦ absurd (cc)
    ]
Step-IsConsistent {s} {s'} v (waits_on cpu i pid code busy h) =
    elim (wait_round-Returns cpu i pid code s v busy) [
      | inl (t, ret', done, w, cpus, why) ↦ absurd (cc)
      | inr (t, done, w, cpus, kids, absent, alive) ↦
          let same : t ≡ s' = sleeps_inj (sym done ∙ h) in rw (sym same) w
    ]
Step-IsConsistent {s} v (kills cpu i pid ret busy h) =
    elim (kill-panics_or_Returns cpu i pid s v busy) [
      | inl panics ↦ absurd (cc)
      | inr (t, ret', done, w, cpus) ↦ by_return _ done w h
    ]
Step-IsConsistent {s} v (works c p p' at_c state parent) =
    quiet-IsConsistent s c p p' v at_c (λ h. rw parent h) (rw state) (rw state)

-- Every system that is reached is consistent: the process table has its 512 places, the ring of tasks is
-- in order, each RUNNABLE process stands in the queue once and no other process stands there, parents
-- and init are places of the table, and each RUNNING process is the process of one processor and no
-- other process is that of any.
pub Reach-IsConsistent : {n : ℕ} {s : System} → Reach n s → IsConsistent s
unfolding proc_init
Reach-IsConsistent {n} {s} (boots slots m m' tf tf' storage h) =
    let (t, done, w, first) =
      load_init_app-IsConsistent (proc_init n slots m tf) m' tf' (zero_proc m tf)
        (proc_init-IsConsistent n slots m tf storage) refl refl in
    by_outcome _ done w h
Reach-IsConsistent (steps r step) = Step-IsConsistent (Reach-IsConsistent r) step
