-- ===== src/Signal/Send/Pending.antt =====
-- What a signal that is sent changes at its receiver and at the others.
use os_project_signal.Prelude.{
  ℕ, ◌<◌, ◌≡◌, refl, Bool, true, false, not, ◌&&◌, ◌||◌, ◌==◌, arith, if◌then◌else◌, ◌∙◌,
  Bool-cases, inl, inr,
}
use os_project_signal.Prelude.Int.{ℤ, pos, negsuc}
use os_project_signal.Signal.Set.Members.{sigismember-changed}
use os_project_signal.Signal.State.{
  ProcState, unused, used, sleeping, runnable, running, zombie, stopped, Ksignal, Proc, sigkill,
  sigstop, sigcont, sigusr2, sigchld, killed_by,
}
use os_project_signal.Signal.Deliver.{clear_pending}
use os_project_signal.Signal.Deliver.Blocked.{pends}
use os_project_signal.Signal.Send.{
  add_pending, receive, wake_in, resume_in, resume, drop_stop, receive_cont, set_info, info_from,
}

pends-add_pending :
    (signo k : ℕ) (p : Proc) → k < 64 → pends k (add_pending signo p) ≡ (pends k p || k == signo)
unfolding add_pending
pends-add_pending signo k p fits =
    let (added, deleted) = sigismember-changed (Ksignal.sigpending (Proc.signal p)) signo k fits in
    added

pends-clear :
    (signo k : ℕ) (p : Proc)
    → k < 64
    → pends k (clear_pending signo p) ≡ (pends k p && not (k == signo))
pends-clear signo k p fits =
    let (added, deleted) = sigismember-changed (Ksignal.sigpending (Proc.signal p)) signo k fits in
    deleted

wake_in-pends : (k : ℕ) (s : ProcState) (p : Proc) → pends k (wake_in s p).0 ≡ pends k p
unfolding wake_in
wake_in-pends k unused p = refl
wake_in-pends k used p = refl
wake_in-pends k sleeping p = refl
wake_in-pends k runnable p = refl
wake_in-pends k running p = refl
wake_in-pends k zombie p = refl
wake_in-pends k stopped p = refl

resume_in-pends : (k : ℕ) (s : ProcState) (p : Proc) → pends k (resume_in s p).0 ≡ pends k p
unfolding resume_in
resume_in-pends k unused p = refl
resume_in-pends k used p = refl
resume_in-pends k sleeping p = refl
resume_in-pends k runnable p = refl
resume_in-pends k running p = refl
resume_in-pends k zombie p = refl
resume_in-pends k stopped p = refl

drop_stop-pends :
    (k : ℕ) (p : Proc) → k < 64 → pends k (drop_stop p) ≡ (pends k p && not (k == sigstop))
unfolding drop_stop
drop_stop-pends k p fits = elim (Bool-cases (pends sigstop p)) [
  | inl pending ↦ rw pending (pends-clear sigstop k p fits)
  | inr quiet ↦ rw quiet (quiet_lem k p quiet)
]
  where
    quiet_lem :
        (k : ℕ) (p : Proc) → pends sigstop p ≡ false → pends k p ≡ (pends k p && not (k == sigstop))
    quiet_lem k p quiet = elim (Bool-cases (k == sigstop)) [
      | inl same ↦ let at_stop : k ≡ sigstop = ground arith in rw (at_stop, quiet)
      | inr other ↦ rw other (ground arith)
    ]

receive_cont-pends :
    (k : ℕ) (p : Proc)
    → k < 64
    → pends k (receive_cont p).0 ≡ ((pends k p || k == sigcont) && not (k == sigstop))
unfolding receive_cont
receive_cont-pends k p fits =
    let added = record (add_pending sigcont p) { need_stop = false } in
    drop_stop-pends k (resume added).0 fits
    ∙ rw (resume_in-pends k (Proc.state added) added, pends-add_pending sigcont k p fits)

-- Whether `k` pends behind signal `signo`, by whether it did before.
unfoldable pub pending_after : ℕ → ℕ → Bool → Bool
pending_after signo k before =
    if signo == sigkill
    then before
    else if signo == sigcont
    then (before || k == sigcont) && not (k == sigstop)
    else before || k == signo

pends-if :
    (k : ℕ) (c : Bool) (a b : Proc × Bool) (x : Bool)
    → (c ≡ true → pends k a.0 ≡ x)
    → (c ≡ false → pends k b.0 ≡ x)
    → pends k (if c then a else b).0 ≡ x
pends-if k true a b x h other = h refl
pends-if k false a b x h other = other refl

after_kill : (signo k : ℕ) (b : Bool) → (signo == sigkill) ≡ true → b ≡ pending_after signo k b
unfolding pending_after
after_kill signo k b kill = rw kill

after_cont :
    (signo k : ℕ) (b : Bool)
    → (signo == sigkill) ≡ false
    → (signo == sigcont) ≡ true
    → ((b || k == sigcont) && not (k == sigstop)) ≡ pending_after signo k b
unfolding pending_after
after_cont signo k b no_kill cont = rw (no_kill, cont)

after_other :
    (signo k : ℕ) (b : Bool)
    → (signo == sigkill) ≡ false
    → (signo == sigcont) ≡ false
    → (b || k == signo) ≡ pending_after signo k b
unfolding pending_after
after_other signo k b no_kill no_cont = rw (no_kill, no_cont)

-- At the receiver, SIGKILL leaves the pending signals as they are, SIGCONT adds itself and takes SIGSTOP
-- away, and any other signal adds itself and changes no other one. `k` is a signal below 64.
pub receive_lem :
    (sender : ℤ) (signo : ℕ) (code : ℤ) (p : Proc) (k : ℕ)
    → k < 64
    → pends k (receive sender signo code p).0 ≡ pending_after signo k (pends k p)
unfolding receive
receive_lem sender signo code p k fits =
    let informed = set_info signo (info_from sender signo (pos 0)) p in
    let killed = record informed { killed = killed_by signo } in
    let from_kernel = set_info signo (info_from (negsuc 0) signo (pos 0)) p in
    let with_code = set_info signo (info_from sender signo code) p in
    pends-if k (signo == sigkill) _ _ _
      (λ kill. wake_in-pends k (Proc.state killed) killed ∙ after_kill signo k (pends k p) kill)
      (λ no_kill.
        pends-if k (signo == sigstop) _ _ _
          (λ stop.
            wake_in-pends k (Proc.state p) (add_pending signo informed)
            ∙ pends-add_pending signo k informed fits
            ∙ after_other signo k (pends k p) no_kill (ground arith))
          (λ no_stop.
            pends-if k (signo == sigcont) _ _ _
              (λ cont.
                receive_cont-pends k informed fits ∙ after_cont signo k (pends k p) no_kill cont)
              (λ no_cont.
                let added : (q : Proc)
                    → pends k q ≡ pends k p
                    → pends k (add_pending signo q) ≡ pending_after signo k (pends k p) =
                  λ q same.
                    pends-add_pending signo k q fits
                    ∙ rw same (after_other signo k (pends k p) no_kill no_cont) in
                pends-if k (signo == sigusr2) _ _ _ (λ usr2. added from_kernel refl)
                  (λ no_usr2.
                    pends-if k (signo == sigchld) _ _ _
                      (λ chld.
                        wake_in-pends k (Proc.state (add_pending signo with_code))
                          (add_pending signo with_code)
                        ∙ added with_code refl)
                      (λ no_chld. added informed refl)))))
