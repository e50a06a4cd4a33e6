-- ===== src/Signal/Syscalls/Actions.antt =====
-- Which actions `sys_sigaction` sets.
use os_project_signal.Prelude.{
  ℕ, zero, suc, ◌+◌, ◌%◌, ◌^◌, ◌≤◌, ◌≡◌, ◌⊎◌, refl, Bool, true, false, not, ◌&&◌, ◌||◌, ◌==◌, arith,
  Option, none, some, if◌then◌else◌, ◌∙◌, inl, inr, sym, List, [], ◌∷◌, ◌++◌, length, take, drop,
}
use os_project_signal.Prelude.Int.{ℤ, pos}
use os_project_signal.Gef.Pack.{value_of}
use os_project_signal.Signal.Memory.{Memory, physical, copy_from_user}
use os_project_signal.Signal.State.{Sigaction, Ksignal, Proc, sigkill, sigstop, sig_dfl, set_at}
use os_project_signal.Signal.Syscalls.{
  in_range, action_of, action_bytes, may_set, set_action, sys_sigaction,
}

one-more :
    (byte : ℕ → ℕ) (o : Option ℕ) (n : ℕ) (rest : List ℕ × Bool)
    → (elim o as (λ x. List ℕ × Bool) [ none ↦ ([], false) | some a ↦ (byte a ∷ rest.0, rest.1) ]).1
      ≡ true
    → (rest.1 ≡ true → length rest.0 ≡ n)
    → length
        (elim o as (λ x. List ℕ × Bool) [
          | none ↦ ([], false)
          | some a ↦ (byte a ∷ rest.0, rest.1)
        ]).0
      ≡ suc n
one-more byte none n rest h next = absurd (cc)
one-more byte (some a) n rest h next = rw (next h)

length-copied :
    (m : Memory) (va n : ℕ)
    → (copy_from_user m va n).1 ≡ true
    → length (copy_from_user m va n).0 ≡ n
unfolding copy_from_user
length-copied m va zero h = refl
length-copied m va (suc n) h =
    one-more (Memory.byte m) (physical m va) n (copy_from_user m ((va + 1) % 2 ^ 64) n) h
      (length-copied m ((va + 1) % 2 ^ 64) n)

take-front : (n : ℕ) (xs ys : List ℕ) → n ≤ length xs → take n (xs ++ ys) ≡ take n xs
take-front zero xs ys h = refl
take-front (suc n) [] ys h = absurd (omega arith)
take-front (suc n) (x ∷ xs) ys h = rw (take-front n xs ys (omega arith))

handler_lem : (bytes : List ℕ) → Sigaction.sa_sigaction (action_of bytes) ≡ value_of (take 8 bytes)
unfolding action_of
handler_lem bytes = refl

-- The handler that a whole copy gives does not depend on the action that was there.
handler-front :
    (m : Memory) (act : ℕ) (rest : List ℕ)
    → (copy_from_user m act 24).1 ≡ true
    → Sigaction.sa_sigaction (action_of ((copy_from_user m act 24).0 ++ rest))
      ≡ Sigaction.sa_sigaction (action_of (copy_from_user m act 24).0)
handler-front m act rest copied =
    let bytes = (copy_from_user m act 24).0 in
    let count = length-copied m act 24 copied in
    handler_lem (bytes ++ rest)
    ∙ rw (take-front 8 bytes rest (omega (arith, count))) (sym (handler_lem bytes))

-- Whether `p` handles `signo` as the default.
abbrev pub is_default : ℕ → Proc → Bool
is_default signo p = Sigaction.sa_sigaction (Ksignal.sa (Proc.signal p) signo) == sig_dfl

both : (a b : Bool) → (a && b) ≡ true → (a ≡ true) × (b ≡ true)
both true b h = (refl, h)
both false b h = absurd (cc)

-- An action that is tested is read whole, and is the default.
may_set-tested :
    (m : Memory) (act signo : ℕ)
    → (signo == sigkill || signo == sigstop) ≡ true
    → may_set m (some act) signo ≡ true
    → ((copy_from_user m act 24).1 ≡ true)
      × ((Sigaction.sa_sigaction (action_of (copy_from_user m act 24).0) == sig_dfl) ≡ true)
unfolding may_set
may_set-tested m act signo uncatchable may =
    both (copy_from_user m act 24).1
      (Sigaction.sa_sigaction (action_of (copy_from_user m act 24).0) == sig_dfl)
      (rw uncatchable at may)

set_at-same : (f : ℕ → Sigaction) (i : ℕ) (a : Sigaction) → set_at f i a i ≡ a
set_at-same f i a = let same : (i == i) ≡ true = ground arith in rw same

-- The action that `set_action` leaves.
set_action_lem :
    (act signo : ℕ) (p : Proc)
    → Ksignal.sa (Proc.signal (set_action (some act) signo p).0) signo
      ≡ action_of (
          (copy_from_user (Proc.mm p) act 24).0
          ++ drop
              (length (copy_from_user (Proc.mm p) act 24).0)
              (action_bytes (Ksignal.sa (Proc.signal p) signo)))
unfolding set_action
set_action_lem act signo p = set_at-same (Ksignal.sa (Proc.signal p)) signo _

set_action-none : (signo : ℕ) (p : Proc) → (set_action none signo p).0 ≡ p
unfolding set_action
set_action-none signo p = refl

set_action-default :
    (act : Option ℕ) (signo : ℕ) (p : Proc)
    → (signo == sigkill || signo == sigstop) ≡ true
    → may_set (Proc.mm p) act signo ≡ true
    → is_default signo p ≡ true
    → is_default signo (set_action act signo p).0 ≡ true
set_action-default none signo p uncatchable may default = rw (set_action-none signo p) default
set_action-default (some act) signo p uncatchable may default =
    let (copied, tested) = may_set-tested (Proc.mm p) act signo uncatchable may in
    rw (set_action_lem act signo p) (
      rw
        (handler-front (Proc.mm p) act
          (drop (length (copy_from_user (Proc.mm p) act 24).0)
            (action_bytes (Ksignal.sa (Proc.signal p) signo)))
          copied)
        tested)

uncatchable_lem :
    (signo : ℕ)
    → (signo ≡ sigkill) ⊎ (signo ≡ sigstop)
    → (signo == sigkill || signo == sigstop) ≡ true
uncatchable_lem signo (inl kill) = rw kill
uncatchable_lem signo (inr stop) = rw stop

default-if :
    (k : ℕ) (c : Bool) (a b : Proc × ℤ)
    → is_default k a.0 ≡ true
    → (c ≡ false → is_default k b.0 ≡ true)
    → is_default k (if c then a else b).0 ≡ true
default-if k true a b h other = h
default-if k false a b h other = other refl

holds_of_not : (b : Bool) → not b ≡ false → b ≡ true
holds_of_not true h = refl
holds_of_not false h = absurd (cc)

-- Without a place for the old action, `sys_sigaction` for SIGKILL or SIGSTOP leaves an action that is the
-- default the default, whatever action it is given and whatever can be read of it.
pub sys_sigaction-default :
    (p : Proc) (signo : ℕ) (act : Option ℕ)
    → (signo ≡ sigkill) ⊎ (signo ≡ sigstop)
    → is_default signo p ≡ true
    → is_default signo (sys_sigaction p (pos signo) act none).0 ≡ true
unfolding sys_sigaction
sys_sigaction-default p signo act which default =
    default-if signo (not (in_range (pos signo))) _ _ default (λ range.
      default-if signo (not (may_set (Proc.mm p) act signo)) _ _ default (λ may.
        set_action-default act signo p (uncatchable_lem signo which) (holds_of_not _ may) default))
