-- ===== src/Signal/Send/Waking.antt =====
-- Which receivers of a signal are made RUNNABLE, and what a signal does to the process table.
use os_project_signal.Prelude.{
  ℕ, ◌<◌, ◌≡◌, refl, ap, ◌∙◌, ◌⊎◌, Bool, true, false, inl, inr, Option, ◌==◌, if◌then◌else◌,
}
use os_project_signal.Prelude.Int.{ℤ, pos, negsuc}
use os_project_signal.Signal.Set
use os_project_signal.Signal.State.{
  ProcState, unused, used, sleeping, runnable, running, zombie, stopped, Ksignal, Proc, killed_by,
  sigkill, sigstop, sigcont, sigusr2, sigchld,
}
use os_project_signal.Signal.Send.{
  add_pending, set_info, info_from, wake_in, resume_in, resume, drop_stop, receive_cont, receive,
  send_to, change_receiver,
}
use os_project_signal.Kernel.Queue.{nproc}
use os_project_signal.Kernel.System.{System, eq_state}
use os_project_signal.Kernel.System.Consistent.{IsConsistent, proc-at}
use os_project_signal.Kernel.System.Keeps.{Keeps, with_proc_lem, put_proc-Keeps, add_task-Keeps}

-- A receiver in state `st` with the parent `par` keeps the parent, and either stays in its state, or
-- slept or was stopped and goes into the queue.
abbrev pub Wakes : ProcState → Option ℕ → Proc × Bool → Type 0
Wakes st par r =
    (Proc.parent r.0 ≡ par)
    × (((r.1 ≡ false) × (Proc.state r.0 ≡ st))
        ⊎ ((r.1 ≡ true) × (eq_state st runnable ≡ false) × (eq_state st running ≡ false)))

Wakes-if :
    (st : ProcState) (par : Option ℕ) (c : Bool) (a b : Proc × Bool)
    → Wakes st par a
    → Wakes st par b
    → Wakes st par (if c then a else b)
Wakes-if st par true a b h other = h
Wakes-if st par false a b h other = other

-- What a process is known by here.
abbrev Is : ProcState → Option ℕ → Proc → Type 0
Is st par p = (Proc.state p ≡ st) × (Proc.parent p ≡ par)

Wakes-no : (st : ProcState) (par : Option ℕ) (p : Proc) → Is st par p → Wakes st par (p, false)
Wakes-no st par p (same, parent) = (parent, inl (refl, same))

wake_in-Wakes :
    (st : ProcState) (par : Option ℕ) (p : Proc) → Is st par p → Wakes st par (wake_in st p)
unfolding wake_in
wake_in-Wakes unused par p h = Wakes-no unused par p h
wake_in-Wakes used par p h = Wakes-no used par p h
wake_in-Wakes sleeping par p h = (h.1, inr (refl, refl, refl))
wake_in-Wakes runnable par p h = Wakes-no runnable par p h
wake_in-Wakes running par p h = Wakes-no running par p h
wake_in-Wakes zombie par p h = Wakes-no zombie par p h
wake_in-Wakes stopped par p h = Wakes-no stopped par p h

resume_in-Wakes :
    (st : ProcState) (par : Option ℕ) (p : Proc) → Is st par p → Wakes st par (resume_in st p)
unfolding resume_in
resume_in-Wakes unused par p h = Wakes-no unused par p h
resume_in-Wakes used par p h = Wakes-no used par p h
resume_in-Wakes sleeping par p h = Wakes-no sleeping par p h
resume_in-Wakes runnable par p h = Wakes-no runnable par p h
resume_in-Wakes running par p h = Wakes-no running par p h
resume_in-Wakes zombie par p h = Wakes-no zombie par p h
resume_in-Wakes stopped par p h = (h.1, inr (refl, refl, refl))

Is-add_pending : (signo : ℕ) (p : Proc) → Is (Proc.state p) (Proc.parent p) (add_pending signo p)
unfolding add_pending
Is-add_pending signo p = (refl, refl)

Is-if :
    (st : ProcState) (par : Option ℕ) (c : Bool) (a b : Proc)
    → Is st par a
    → Is st par b
    → Is st par (if c then a else b)
Is-if st par true a b h other = h
Is-if st par false a b h other = other

Is-drop_stop : (st : ProcState) (par : Option ℕ) (p : Proc) → Is st par p → Is st par (drop_stop p)
unfolding drop_stop
Is-drop_stop st par p h =
    Is-if st par (Set.sigismember (Ksignal.sigpending (Proc.signal p)) sigstop) _ _ h h

receive_cont-Wakes : (p : Proc) → Wakes (Proc.state p) (Proc.parent p) (receive_cont p)
unfolding receive_cont
receive_cont-Wakes p =
    let st = Proc.state p in
    let par = Proc.parent p in
    let added = record (add_pending sigcont p) { need_stop = false } in
    let (parent, woken) = resume_in-Wakes st par added (Is-add_pending sigcont p) in
    elim woken [
      | inl (quiet, same) ↦
          let kept = Is-drop_stop st par (resume added).0 (same, parent) in
          (kept.1, inl (quiet, kept.0))
      | inr (queued, ready, run) ↦
          let kept =
            Is-drop_stop (Proc.state (resume added).0) par (resume added).0 (refl, parent) in
          (kept.1, inr (queued, ready, run))
    ]

receive-Wakes :
    (sender : ℤ) (signo : ℕ) (code : ℤ) (p : Proc)
    → Wakes (Proc.state p) (Proc.parent p) (receive sender signo code p)
unfolding receive
receive-Wakes sender signo code p =
    let st = Proc.state p in
    let par = Proc.parent p in
    let informed = set_info signo (info_from sender signo (pos 0)) p in
    let from_kernel = set_info signo (info_from (negsuc 0) signo (pos 0)) p in
    let with_code = set_info signo (info_from sender signo code) p in
    let add = add_pending signo in
    Wakes-if st par (signo == sigkill) _ _
      (wake_in-Wakes st par (record informed { killed = killed_by signo }) (refl, refl))
      (Wakes-if st par (signo == sigstop) _ _
        (wake_in-Wakes st par (add informed) (Is-add_pending signo informed))
        (Wakes-if st par (signo == sigcont) _ _ (receive_cont-Wakes informed) (
          Wakes-if st par (signo == sigusr2) _ _
            (Wakes-no st par (add from_kernel) (Is-add_pending signo from_kernel))
            (Wakes-if st par (signo == sigchld) _ _
              (wake_in-Wakes st par (add with_code) (Is-add_pending signo with_code))
              (Wakes-no st par (add informed) (Is-add_pending signo informed))))))

pub send_to-Keeps :
    (sender : ℤ) (signo : ℕ) (code : ℤ) (i : ℕ) (s : System)
    → IsConsistent s
    → i < nproc
    → Keeps (send_to sender signo code i) s
unfolding send_to
send_to-Keeps sender signo code i s v small =
    let (p, at_i) = proc-at s i v small in
    let received = receive sender signo code p in
    let (parent, woken) = receive-Wakes sender signo code p in
    elim woken [
      | inl (quiet, same) ↦
          let (s', done, w, cpus) =
            put_proc-Keeps s i p received.0 v at_i (λ h. rw parent h)
              (ap (λ st. eq_state st runnable) same) (ap (λ st. eq_state st running) same) in
          (
            s',
            with_proc_lem i (change_receiver sender signo code i) s at_i ∙ rw quiet done,
            w,
            cpus,
          )
      | inr (queued, ready, run) ↦
          let (s', done, w, cpus) =
            add_task-Keeps s i p received.0 v at_i (λ h. rw parent h) ready run in
          (
            s',
            with_proc_lem i (change_receiver sender signo code i) s at_i ∙ rw queued done,
            w,
            cpus,
          )
    ]
