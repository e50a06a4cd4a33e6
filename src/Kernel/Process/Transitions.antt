-- ===== src/Kernel/Process/Transitions.antt =====
-- The operations of os/proc.c and os/sched.c keep the process table consistent.
use os_project_signal.Prelude.{
  ℕ, ◌<◌, ◌≡◌, refl, sym, ap, ◌∙◌, Bool, true, false, ◌&&◌, Bool-cases, inl, inr, none, some,
  get_elem?, set, get_elem?-set_self, set-set, length, arith,
}
use os_project_signal.Signal.State.{
  ProcState, unused, used, sleeping, runnable, running, zombie, stopped, Channel, Proc,
}
use os_project_signal.Kernel.Queue.{nproc}
use os_project_signal.Kernel.System.{System, eq_state, put_proc, with_proc}
use os_project_signal.Kernel.System.Counts.{count_cpu, count_cpu-given_up, by_index}
use os_project_signal.Kernel.System.Consistent.{
  IsConsistent, PointsIn, flag, in_state-at, proc-at, inside-lt, changed-IsConsistent,
}
use os_project_signal.Kernel.System.Keeps.{Keeps, add_task-Keeps, each-Keeps, running-at, not-both}
use os_project_signal.Kernel.Process.{eq_channel, sched, wake_one, wakeup, sleep, yield, stop}

-- Only one state is SLEEPING.
pub sleeping_lem : (st : ProcState) → eq_state st sleeping ≡ true → st ≡ sleeping
sleeping_lem unused h = absurd (cc)
sleeping_lem used h = absurd (cc)
sleeping_lem sleeping h = refl
sleeping_lem runnable h = absurd (cc)
sleeping_lem running h = absurd (cc)
sleeping_lem zombie h = absurd (cc)
sleeping_lem stopped h = absurd (cc)

runnable_lem : (st : ProcState) → eq_state st runnable ≡ true → st ≡ runnable
runnable_lem unused h = absurd (cc)
runnable_lem used h = absurd (cc)
runnable_lem sleeping h = absurd (cc)
runnable_lem runnable h = refl
runnable_lem running h = absurd (cc)
runnable_lem zombie h = absurd (cc)
runnable_lem stopped h = absurd (cc)

both : (a b : Bool) → (a && b) ≡ true → a ≡ true
both true b h = refl
both false b h = absurd (cc)

pub wake_one-Keeps :
    (chan : Channel) (i : ℕ) (s : System) → i < nproc → IsConsistent s → Keeps (wake_one chan i) s
unfolding wake_one
wake_one-Keeps chan i s small v =
    let (p, at_i) = proc-at s i v small in
    elim (Bool-cases (eq_state p.state sleeping && eq_channel p.sleep_chan chan)) [
      | inr other ↦ (s, rw (with_proc, at_i, other), v, refl)
      | inl wakes ↦
          let asleep = sleeping_lem p.state (both (eq_state p.state sleeping) _ wakes) in
          let (s', done, w, cpus) =
            add_task-Keeps s i p (record p { state = runnable }) v at_i (λ h. h)
              (ap (λ st. eq_state st runnable) asleep) (ap (λ st. eq_state st running) asleep) in
          (s', rw (with_proc, at_i, wakes) done, w, cpus)
    ]

-- `wakeup` succeeds: no process that it wakes is in the queue before, so the queue has room.
pub wakeup-Keeps : (chan : Channel) (s : System) → IsConsistent s → Keeps (wakeup chan) s
unfolding wakeup
wakeup-Keeps chan s v = each-Keeps (wake_one chan) (wake_one-Keeps chan) nproc 0 s (omega arith) v

-- The process `i` as `p`, and its processor without it.
abbrev pub switched : System → ℕ → ℕ → Proc → System
switched s cpu i p = record (put_proc i p s) { cpus = set (System.cpus s) cpu none }

sched_lem :
    (s : System) (cpu i : ℕ) (f : Proc → Proc) {p : Proc}
    → get_elem? (System.pool s) i ≡ some p
    → sched cpu i f s ≡ some (switched s cpu i (f p))
unfolding sched
sched_lem s cpu i f at_i = rw (with_proc, at_i)

switched-IsConsistent :
    (s : System) (cpu i : ℕ) (p₀ p : Proc)
    → IsConsistent s
    → get_elem? (System.cpus s) cpu ≡ some (some i)
    → get_elem? (System.pool s) i ≡ some p₀
    → (PointsIn (Proc.parent p₀) → PointsIn (Proc.parent p))
    → eq_state (Proc.state p₀) running ≡ true
    → eq_state (Proc.state p) runnable ≡ false
    → eq_state (Proc.state p) running ≡ false
    → IsConsistent (switched s cpu i p)
switched-IsConsistent s cpu i p₀ p v busy at_i points run not_ready not_run =
    changed-IsConsistent s i p (System.task_queue s) (set (System.cpus s) cpu none) v
      (inside-lt s i v at_i) (points (v.parents i p₀ at_i)) v.ring
      (λ j.
        by_index i j
          (λ at_j. rw at_j (
            v.queued i
            ∙ in_state-at runnable (System.pool s) i at_i
            ∙ ap flag (not-both (Proc.state p₀) run ∙ sym not_ready)))
          (λ other. refl))
      (λ j.
        let given_up = count_cpu-given_up (System.cpus s) cpu i j busy in
        by_index i j
          (λ at_j.
            let held : count_cpu j (System.cpus s) ≡ 1 =
              v.on_cpu j ∙ rw at_j (in_state-at running (System.pool s) i at_i ∙ ap flag run) in
            rw not_run (ground arith))
          (λ other. ground arith))

-- A process gives up its processor, and goes into a state that is neither RUNNABLE nor RUNNING.
pub sched-IsConsistent :
    (s : System) (cpu i : ℕ) (f : Proc → Proc)
    → IsConsistent s
    → get_elem? (System.cpus s) cpu ≡ some (some i)
    → ((p : Proc) → Proc.parent (f p) ≡ Proc.parent p)
    → ((p : Proc) → eq_state (Proc.state (f p)) runnable ≡ false)
    → ((p : Proc) → eq_state (Proc.state (f p)) running ≡ false)
    → (s' : System) × (sched cpu i f s ≡ some s')
      × IsConsistent s'
      × (System.cpus s' ≡ set (System.cpus s) cpu none)
sched-IsConsistent s cpu i f v busy parent not_ready not_run =
    let (p, at_i, run) = running-at s cpu i v busy in
    (
      switched s cpu i (f p),
      sched_lem s cpu i f at_i,
      switched-IsConsistent s cpu i p (f p) v busy at_i (λ h. rw (parent p) h) run (not_ready p)
          (not_run p),
      refl,
    )

-- A process that gives up its processor and stays RUNNABLE goes to the end of the queue.
pub yield-IsConsistent :
    (s : System) (cpu i : ℕ)
    → IsConsistent s
    → get_elem? (System.cpus s) cpu ≡ some (some i)
    → (s' : System) × (yield cpu i s ≡ some s')
      × IsConsistent s'
      × (System.cpus s' ≡ set (System.cpus s) cpu none)
unfolding yield
yield-IsConsistent s cpu i v busy =
    let (p, at_i, run) = running-at s cpu i v busy in
    let ready = record p { state = runnable } in
    let off = record p { state = used } in
    let t = switched s cpu i off in
    let w = switched-IsConsistent s cpu i p off v busy at_i (λ h. h) run refl refl in
    let inside : i < length (System.pool s) = rw v.places (inside-lt s i v at_i) in
    let (s', done, w', cpus) =
      add_task-Keeps t i off ready w (get_elem?-set_self (System.pool s) i off inside) (λ h. h) refl
        refl in
    (
      s',
      rw (yield, sched_lem s cpu i (λ q. record q { state = runnable }) at_i)
          (rw (set-set (System.pool s) i off ready) at done),
      w',
      cpus,
    )

pub sleep-IsConsistent :
    (s : System) (cpu i : ℕ) (chan : Channel)
    → IsConsistent s
    → get_elem? (System.cpus s) cpu ≡ some (some i)
    → (s' : System) × (sleep cpu i chan s ≡ some s')
      × IsConsistent s'
      × (System.cpus s' ≡ set (System.cpus s) cpu none)
unfolding sleep
sleep-IsConsistent s cpu i chan v busy =
    sched-IsConsistent s cpu i (λ p. record p { sleep_chan = chan; state = sleeping }) v busy
      (λ p. refl) (λ p. refl) (λ p. refl)

pub stop-IsConsistent :
    (s : System) (cpu i : ℕ)
    → IsConsistent s
    → get_elem? (System.cpus s) cpu ≡ some (some i)
    → (s' : System) × (stop cpu i s ≡ some s')
      × IsConsistent s'
      × (System.cpus s' ≡ set (System.cpus s) cpu none)
unfolding stop
stop-IsConsistent s cpu i v busy =
    sched-IsConsistent s cpu i (λ p. record p { need_stop = false; state = stopped }) v busy
      (λ p. refl) (λ p. refl) (λ p. refl)
