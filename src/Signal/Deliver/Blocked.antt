-- ===== src/Signal/Deliver/Blocked.antt =====
-- What `do_signal` does to the pending signals and to the mask.
use os_project_signal.Prelude.{
  ℕ, zero, suc, ◌+◌, ◌-◌, ◌<◌, ◌≡◌, ◌≢◌, refl, Bool, true, false, not, ◌&&◌, ◌==◌, arith,
  if◌then◌else◌, ◌∙◌, Bool-cases, inl, inr, sym,
}
use os_project_signal.Signal.Set
use os_project_signal.Signal.Set.Members.{sigismember-changed}
use os_project_signal.Signal.Memory.{Memory}
use os_project_signal.Signal.State.{
  Sigaction, Ksignal, Trapframe, Proc, sigkill, sigstop, sigcont, sigmin, sigmax, sigchld, sig_dfl,
  sig_ign, killed_by,
}
use os_project_signal.Signal.Deliver.{
  Outcome, next, returns, frame_sp, copy_frame, start_handler, clear_pending, handle_cont, set_up,
  act, handle, deliver_from, do_signal,
}

-- Whether signal `k` is pending, or blocked.
abbrev pub pends : ℕ → Proc → Bool
pends k p = Set.sigismember (Ksignal.sigpending (Proc.signal p)) k

abbrev pub blocks : ℕ → Proc → Bool
blocks k p = Set.sigismember (Ksignal.sigmask (Proc.signal p)) k

pends-clear_pending :
    (signo k : ℕ) (p : Proc) → k < 64 → k ≢ signo → pends k (clear_pending signo p) ≡ pends k p
pends-clear_pending signo k p fits other =
    let (added, deleted) = sigismember-changed (Ksignal.sigpending (Proc.signal p)) signo k fits in
    deleted ∙ (ground arith)

-- What holds of `k` is kept: it pends as before, and where the loop goes on, it is blocked as before.
unfoldable Keeps : ℕ → Proc → Outcome → Type 0
Keeps k p (next p') = (pends k p' ≡ pends k p) × (blocks k p' ≡ blocks k p)
Keeps k p (returns p') = pends k p' ≡ pends k p

start_handler-Keeps :
    (signo k : ℕ) (sa : Sigaction) (new_sp : ℕ) (p : Proc) (copied : Memory × Bool)
    → Keeps k p (start_handler signo sa new_sp p copied)
unfolding start_handler Keeps
start_handler-Keeps signo k sa new_sp p (m, false) = (refl, refl)
start_handler-Keeps signo k sa new_sp p (m, true) = refl

set_up-Keeps : (signo k : ℕ) (sa : Sigaction) (p : Proc) → Keeps k p (set_up signo sa p)
unfolding set_up
set_up-Keeps signo k sa p =
    let new_sp = frame_sp (Trapframe.sp (Proc.trapframe p)) in
    start_handler-Keeps signo k sa new_sp p (copy_frame signo new_sp p)

-- `p` and `p'` agree on `k`.
Keeps-clear :
    (k : ℕ) (p p' : Proc) (o : Outcome)
    → pends k p' ≡ pends k p
    → blocks k p' ≡ blocks k p
    → Keeps k p' o
    → Keeps k p o
unfolding Keeps
Keeps-clear k p p' (next q) pending blocked (kept, mask) = (kept ∙ pending, mask ∙ blocked)
Keeps-clear k p p' (returns q) pending blocked kept = kept ∙ pending

Keeps-if :
    (k : ℕ) (p : Proc) (c : Bool) (a b : Outcome)
    → Keeps k p a
    → Keeps k p b
    → Keeps k p (if c then a else b)
Keeps-if k p true a b kept other = kept
Keeps-if k p false a b kept other = other

Keeps-next :
    (k : ℕ) (p p' : Proc) → pends k p' ≡ pends k p → blocks k p' ≡ blocks k p → Keeps k p (next p')
unfolding Keeps
Keeps-next k p p' pending blocked = (pending, blocked)

act-Keeps : (signo k : ℕ) (p : Proc) → k < 64 → k ≢ signo → Keeps k p (act signo p)
unfolding act
act-Keeps signo k p fits other =
    let kept = pends-clear_pending signo k p fits other in
    let cleared = clear_pending signo p in
    let handler = Sigaction.sa_sigaction (Ksignal.sa (Proc.signal p) signo) in
    Keeps-if k p (handler == sig_ign) _ _ (Keeps-next k p cleared kept refl) (
      Keeps-if k p (signo == sigchld && handler == sig_dfl) _ _ (Keeps-next k p cleared kept refl) (
        Keeps-if k p (handler == sig_dfl) _ _
          (Keeps-next k p (record cleared { killed = killed_by signo }) kept refl)
          (Keeps-clear k p cleared _ kept refl
            (set_up-Keeps signo k (Ksignal.sa (Proc.signal p) signo) cleared))))

handle_cont-Keeps :
    (k : ℕ) (p : Proc) → k < 64 → k ≢ sigcont → k ≢ sigstop → Keeps k p (next (handle_cont p))
unfolding handle_cont
handle_cont-Keeps k p fits not_cont not_stop =
    let cleared = pends-clear_pending sigcont k p fits not_cont in
    elim (Bool-cases (pends sigstop (clear_pending sigcont p))) [
      | inl stop ↦ rw stop (
          Keeps-next k p _
            (pends-clear_pending sigstop k (clear_pending sigcont p) fits not_stop ∙ cleared) refl)
      | inr none ↦ rw none (Keeps-next k p _ cleared refl)
    ]

-- Another signal's turn.
handle-Keeps :
    (signo k : ℕ) (p : Proc)
    → k < 64
    → k ≢ signo
    → k ≢ sigcont
    → k ≢ sigstop
    → Keeps k p (handle signo p)
unfolding handle
handle-Keeps signo k p fits other not_cont not_stop =
    let kept = pends-clear_pending signo k p fits other in
    let cleared = clear_pending signo p in
    Keeps-if k p (not (pends signo p)) _ _ (Keeps-next k p p refl refl) (
      Keeps-if k p (signo == sigkill) _ _
        (Keeps-next k p (record cleared { killed = killed_by signo }) kept refl)
        (Keeps-if k p (signo == sigstop) _ _
          (Keeps-next k p (record cleared { need_stop = true }) kept refl)
          (Keeps-if k p (signo == sigcont) _ _ (handle_cont-Keeps k p fits not_cont not_stop) (
            Keeps-if k p (blocks signo p) _ _ (Keeps-next k p p refl refl)
              (act-Keeps signo k p fits other)))))

-- Its own turn, where it is blocked.
handle-blocked :
    (k : ℕ) (p : Proc)
    → k ≢ sigkill
    → k ≢ sigstop
    → k ≢ sigcont
    → blocks k p ≡ true
    → handle k p ≡ next p
unfolding handle
handle-blocked k p not_kill not_stop not_cont blocked =
    let no_kill : (k == sigkill) ≡ false = ground arith in
    let no_stop : (k == sigstop) ≡ false = ground arith in
    let no_cont : (k == sigcont) ≡ false = ground arith in
    elim (Bool-cases (pends k p)) [
      | inl pending ↦ rw (pending, no_kill, no_stop, no_cont, blocked)
      | inr quiet ↦ rw quiet
    ]

turn-Keeps :
    (signo k : ℕ) (p : Proc)
    → k < 64
    → k ≢ sigkill
    → k ≢ sigstop
    → k ≢ sigcont
    → blocks k p ≡ true
    → Keeps k p (handle signo p)
turn-Keeps signo k p fits not_kill not_stop not_cont blocked = elim (Bool-cases (k == signo)) [
  | inl own ↦
      let same : k ≡ signo = ground arith in
      rw (sym same, handle-blocked k p not_kill not_stop not_cont blocked)
        (Keeps-next k p p refl refl)
  | inr other ↦ handle-Keeps signo k p fits (ground arith) not_cont not_stop
]

-- One turn of the loop, whatever `rest` is.
turn-rest :
    (k : ℕ) (p : Proc) (rest : Proc → Proc) (o : Outcome)
    → blocks k p ≡ true
    → ((p' : Proc) → blocks k p' ≡ true → pends k (rest p') ≡ pends k p')
    → Keeps k p o
    → pends k (elim o [ next p' ↦ rest p' | returns p' ↦ p' ]) ≡ pends k p
unfolding Keeps
turn-rest k p rest (next p') blocked rest_lem (kept, mask) = rest_lem p' (mask ∙ blocked) ∙ kept
turn-rest k p rest (returns p') blocked rest_lem kept = kept

deliver_from-blocked :
    (n signo k : ℕ) (p : Proc)
    → k < 64
    → k ≢ sigkill
    → k ≢ sigstop
    → k ≢ sigcont
    → blocks k p ≡ true
    → pends k (deliver_from n signo p) ≡ pends k p
unfolding deliver_from
deliver_from-blocked zero signo k p fits not_kill not_stop not_cont blocked = refl
deliver_from-blocked (suc n) signo k p fits not_kill not_stop not_cont blocked =
    turn-rest k p (λ p'. deliver_from n (signo + 1) p') (handle signo p) blocked
      (λ p' mask. deliver_from-blocked n (signo + 1) k p' fits not_kill not_stop not_cont mask)
      (turn-Keeps signo k p fits not_kill not_stop not_cont blocked)

-- A signal that the mask blocks and that is not SIGKILL, SIGSTOP or SIGCONT pends behind `do_signal`
-- as it did before, whatever other signals do.
pub do_signal-blocked :
    (k : ℕ) (p : Proc)
    → k < 64
    → k ≢ sigkill
    → k ≢ sigstop
    → k ≢ sigcont
    → blocks k p ≡ true
    → pends k (do_signal p) ≡ pends k p
unfolding do_signal
do_signal-blocked k p = deliver_from-blocked (sigmax + 1 - sigmin) sigmin k p
