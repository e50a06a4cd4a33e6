-- ===== src/Kernel/Family/Endings.antt =====
-- `exit`, `wait` and `kill` keep the process table consistent, and where `kill` panics.
use os_project_signal.Prelude.{
  ℕ, ◌<◌, ◌≡◌, refl, ◌∙◌, Bool, false, not, ◌&&◌, Bool-cases, inl, inr, Option, none, some,
  get_elem?, set, ◌==◌, arith,
}
use os_project_signal.Prelude.Int.{ℤ, pos}
use os_project_signal.Signal.State.{zombie, sigchld}
use os_project_signal.Signal.Send.{sys_sigkill}
use os_project_signal.Signal.Send.Search.{Returns, sys_sigkill-Returns}
use os_project_signal.Kernel.Queue.{nproc}
use os_project_signal.Kernel.System.{System, with_proc}
use os_project_signal.Kernel.System.Consistent.{IsConsistent, PointsIn, proc-at}
use os_project_signal.Kernel.System.Keeps.{Keeps, put_proc-Keeps, each-Keeps, running-at}
use os_project_signal.Kernel.Process.{eq_pointer}
use os_project_signal.Kernel.Process.Transitions.{wakeup-Keeps, sched-IsConsistent}
use os_project_signal.Kernel.Family.{
  adopt_one, has_children, channel_of, exit_adopt, exit_notify, exit_finish, exit, ignore_result,
}

pub adopt_one-Keeps : (i c : ℕ) (s : System) → c < nproc → IsConsistent s → Keeps (adopt_one i c) s
unfolding adopt_one
adopt_one-Keeps i c s small v =
    let (p, at_c) = proc-at s c v small in
    elim (Bool-cases (not (c == i) && eq_pointer p.parent (some i))) [
      | inr other ↦ (s, rw (with_proc, at_c, other), v, refl)
      | inl child ↦
          let (s', done, w, cpus) =
            put_proc-Keeps s c p (record p { parent = System.init_proc s }) v at_c (λ h. v.init_in)
              refl refl in
          (s', rw (with_proc, at_c, child) done, w, cpus)
    ]

exit_adopt-Keeps : (i : ℕ) (s : System) → IsConsistent s → Keeps (exit_adopt i) s
unfolding exit_adopt
exit_adopt-Keeps i s v =
    let (s', done, w, cpus) =
      each-Keeps (adopt_one i) (adopt_one-Keeps i) nproc 0 s (omega arith) v in
    elim (Bool-cases (has_children i 0 (System.pool s))) [
      | inr childless ↦ (s', rw (exit_adopt, done, childless), w, cpus)
      | inl parent ↦
          let (s'', woken, w', cpus') = wakeup-Keeps (channel_of (System.init_proc s')) s' w in
          (s'', rw (exit_adopt, done, parent) woken, w', cpus' ∙ cpus)
    ]

-- A call whose result is not used.
Keeps-ignore_result :
    (f : System → Option (System × ℤ)) (s : System)
    → Returns f s
    → Keeps (λ t. ignore_result (f t)) s
Keeps-ignore_result f s (s', ret, done, w, cpus) = (s', rw (done, ignore_result), w, cpus)

pub exit_notify-Keeps :
    (cpu i : ℕ) (parent_proc : Option ℕ) (wakeinit : Bool) (code : ℤ) (s : System)
    → IsConsistent s
    → PointsIn parent_proc
    → get_elem? (System.cpus s) cpu ≡ some (some i)
    → Keeps (exit_notify cpu parent_proc wakeinit code) s
unfolding exit_notify
exit_notify-Keeps cpu i none wakeinit code s v points busy = (s, refl, v, refl)
exit_notify-Keeps cpu i (some q) wakeinit code s v points busy =
    elim (Bool-cases (not wakeinit && not (eq_pointer (some q) (System.init_proc s)))) [
      | inr quiet ↦ (s, rw quiet, v, refl)
      | inl notify ↦
          let (p, at_q) = proc-at s q v points in
          let (s', done, w, cpus) =
            Keeps-ignore_result (sys_sigkill cpu none p.pid (pos sigchld) code) s
              (sys_sigkill-Returns cpu p.pid (pos sigchld) code s i v busy) in
          (s', rw (notify, with_proc, at_q) done, w, cpus)
    ]

pub exit_finish-IsConsistent :
    (cpu i : ℕ) (code : ℤ) (s : System)
    → IsConsistent s
    → get_elem? (System.cpus s) cpu ≡ some (some i)
    → (s' : System) × (exit_finish cpu i code s ≡ some s')
      × IsConsistent s'
      × (System.cpus s' ≡ set (System.cpus s) cpu none)
unfolding exit_finish
exit_finish-IsConsistent cpu i code s v busy =
    let (p, at_i, run) = running-at s cpu i v busy in
    let (t, woken, w, cpus) = wakeup-Keeps (channel_of p.parent) s v in
    let (s', done, w', cpus') =
      sched-IsConsistent t cpu i (λ q. record q { exit_code = code; state = zombie }) w
        (rw cpus busy) (λ q. refl) (λ q. refl) (λ q. refl) in
    (s', rw (exit_finish, at_i, woken) done, w', rw cpus at cpus')

-- A process other than init that exits leaves its processor, and no other one changes.
pub exit-IsConsistent :
    (cpu i : ℕ) (code : ℤ) (s : System)
    → IsConsistent s
    → get_elem? (System.cpus s) cpu ≡ some (some i)
    → eq_pointer (some i) (System.init_proc s) ≡ false
    → (s' : System) × (exit cpu i code s ≡ some s')
      × IsConsistent s'
      × (System.cpus s' ≡ set (System.cpus s) cpu none)
unfolding exit
exit-IsConsistent cpu i code s v busy not_init =
    let (p, at_i, run) = running-at s cpu i v busy in
    let (t, adopted, w, cpus) = exit_adopt-Keeps i s v in
    let (u, notified, w', cpus') =
      exit_notify-Keeps cpu i p.parent (has_children i 0 (System.pool s)) code t w
        (v.parents i p at_i) (rw cpus busy) in
    let (s', done, w'', cpus'') =
      exit_finish-IsConsistent cpu i code u w' (rw (cpus', cpus) busy) in
    (s', rw (not_init, at_i, adopted, notified) done, w'', rw (cpus', cpus) at cpus'')
