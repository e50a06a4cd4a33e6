-- ===== src/Signal/Syscalls.antt =====
-- The system calls on signals, and the signals of a new process: os/signal/ksignal.c, and the end of
-- `syscall` in os/syscall.c. A null pointer is `none`. The locks are taken and given back around each
-- copy and each change, so they are left out.
pub mod Actions
use os_project_signal.Prelude.{
  ℕ, ◌+◌, ◌-◌, ◌%◌, ◌^◌, Bool, true, false, not, ◌&&◌, ◌||◌, Option, none, some, List, [], ◌∷◌,
  ◌++◌, drop, length, get_or, leb, ◌==◌, if◌then◌else◌,
}
use os_project_signal.Prelude.Int.{ℤ, pos, negsuc, eqb_ℤ}
use os_project_signal.Signal.Set
use os_project_signal.Signal.Memory.{Memory, copy_to_user, copy_from_user}
use os_project_signal.Signal.State.{
  Sigaction, Ksignal, Trapframe, Proc, set_at, sigkill, sigstop, sigmin, sigmax, sig_dfl, sig_ign,
}
use os_project_signal.Signal.Frame.{
  sizeof_siginfo, sizeof_ucontext, words_to_bytes, bytes_to_words, restored, restored_mask,
}

-- -EINVAL
abbrev pub einval : ℤ
einval = negsuc 1

abbrev pub in_range : ℤ → Bool
in_range (pos signo) = leb sigmin signo && leb signo sigmax
in_range (negsuc signo) = false

abbrev pub number : ℤ → ℕ
number (pos signo) = signo
number (negsuc signo) = 0

abbrev pub with_signal : Proc → Ksignal → Proc
with_signal p s = record p { signal = s }

-- The action that every signal starts with.
abbrev pub default_action : Sigaction
default_action = record { sa_sigaction = sig_dfl; sa_mask = Set.sigemptyset; sa_restorer = 0 }

-- What a loop from `sigmin` to `sigmax` assigns to an array.
abbrev pub for_signals {ℓ} : {A : Type ℓ} → (ℕ → A) → (ℕ → A) → ℕ → A
for_signals old new signo = if leb sigmin signo && leb signo sigmax then new signo else old signo

unfoldable pub siginit : Proc → Proc
siginit p = with_signal p (record (Proc.signal p) {
  sa = for_signals (Ksignal.sa (Proc.signal p)) (λ i. default_action);
  sigmask = Set.sigemptyset;
  sigpending = Set.sigemptyset;
})

unfoldable pub siginit_fork : Proc → Proc → Proc
siginit_fork parent child = with_signal child (record (Proc.signal child) {
  sa = for_signals (Ksignal.sa (Proc.signal child)) (Ksignal.sa (Proc.signal parent));
  sigmask = Ksignal.sigmask (Proc.signal parent);
  sigpending = Set.sigemptyset;
})

-- sa_sigaction stays if it is SIG_IGN.
abbrev pub reset_action : Sigaction → Sigaction
reset_action a = record default_action {
  sa_sigaction = if Sigaction.sa_sigaction a == sig_ign then sig_ign else sig_dfl;
}

-- `p`, and the current process.
unfoldable pub siginit_exec : Proc → Proc → Proc
siginit_exec p curr = with_signal p (record (Proc.signal p) {
  sa = for_signals (Ksignal.sa (Proc.signal p)) (λ i. reset_action (Ksignal.sa (Proc.signal p) i));
  sigmask = Ksignal.sigmask (Proc.signal curr);
  sigpending = Ksignal.sigpending (Proc.signal curr);
})

-- `struct sigaction` in memory: three words.
unfoldable pub action_bytes : Sigaction → List ℕ
unfolding words_to_bytes
action_bytes a =
    words_to_bytes (Sigaction.sa_sigaction a ∷ Sigaction.sa_mask a ∷ Sigaction.sa_restorer a ∷ [])

unfoldable pub action_of : List ℕ → Sigaction
unfolding bytes_to_words
action_of bytes =
    let words = bytes_to_words 3 bytes in
    record {
      sa_sigaction = get_or words 0 0;
      sa_mask = get_or words 1 0;
      sa_restorer = get_or words 2 0;
    }

-- The test of SIGKILL and SIGSTOP: an action that can be read and is the default.
unfoldable pub may_set : Memory → Option ℕ → ℕ → Bool
unfolding copy_from_user action_of
may_set m none signo = true
may_set m (some act) signo =
    if signo == sigkill || signo == sigstop
    then (let (bytes, copied) = copy_from_user m act 24 in
        copied && Sigaction.sa_sigaction (action_of bytes) == sig_dfl)
    else true

-- *act is copied over the action in place: a copy that fails leaves the bytes it copied.
unfoldable pub set_action : Option ℕ → ℕ → Proc → Proc × ℤ
unfolding copy_from_user action_of action_bytes
set_action none signo p = (p, pos 0)
set_action (some act) signo p =
    let s = Proc.signal p in
    let (bytes, copied) = copy_from_user (Proc.mm p) act 24 in
    let new = action_of (bytes ++ drop (length bytes) (action_bytes (Ksignal.sa s signo))) in
    (
      with_signal p (record s { sa = set_at (Ksignal.sa s) signo new }),
      if copied then pos 0 else einval,
    )

unfoldable pub sys_sigaction : Proc → ℤ → Option ℕ → Option ℕ → Proc × ℤ
unfolding may_set set_action copy_to_user action_bytes
sys_sigaction p signo' act oldact =
    let signo = number signo' in
    if not (in_range signo')
    then (p, einval)
    else if not (may_set (Proc.mm p) act signo)
    then (p, einval)
    else elim oldact [
      | none ↦ set_action act signo p
      | some old ↦
          let (m, copied) =
            copy_to_user (Proc.mm p) old (action_bytes (Ksignal.sa (Proc.signal p) signo)) in
          if copied
          then set_action act signo (record p { mm = m })
          else (record p { mm = m }, einval)
    ]

-- Steps 3 and 4, from the words of the context.
unfoldable pub restore : List ℕ → Proc → Proc
unfolding restored
restore words p =
    with_signal (record p { trapframe = restored words })
      (record (Proc.signal p) { sigmask = restored_mask words })

unfoldable pub restore_copied : Proc → List ℕ × Bool → Proc × ℤ
unfolding bytes_to_words restore
restore_copied p (bytes, false) = (p, einval)
restore_copied p (bytes, true) = (restore (bytes_to_words 33 bytes) p, pos 0)

unfoldable pub sys_sigreturn : Proc → Proc × ℤ
unfolding copy_from_user restore_copied
sys_sigreturn p =
    let uc_addr = (Trapframe.sp (Proc.trapframe p) + sizeof_siginfo) % 2 ^ 64 in
    restore_copied p (copy_from_user (Proc.mm p) uc_addr sizeof_ucontext)

-- An int64 result as a register.
abbrev pub as_register : ℤ → ℕ
as_register (pos n) = n % 2 ^ 64
as_register (negsuc n) = 2 ^ 64 - 1 - n % 2 ^ 64

-- The end of `syscall`: trapframe->a0 = ret.
unfoldable pub set_result : Proc × ℤ → Proc
set_result (p, ret) = record p { trapframe = record (Proc.trapframe p) { a0 = as_register ret } }

-- The case SYS_sigreturn of `syscall`.
unfoldable pub sigreturn_call : Proc → Proc
unfolding sys_sigreturn set_result
sigreturn_call p = set_result (sys_sigreturn p)

-- The new mask for `how`: SIG_BLOCK, SIG_UNBLOCK, SIG_SETMASK.
unfoldable pub mask_for : ℤ → ℕ → ℕ → Option ℕ
unfolding Set.union Set.difference
mask_for how mask set =
    if eqb_ℤ how (pos 1)
    then some (Set.union mask set)
    else if eqb_ℤ how (pos 2)
    then some (Set.difference mask set)
    else if eqb_ℤ how (pos 3)
    then some set
    else none

unfoldable pub change_mask : ℤ → Option ℕ → Proc → Proc × ℤ
unfolding mask_for copy_from_user bytes_to_words
change_mask how none p = (p, pos 0)
change_mask how (some set) p =
    let (bytes, copied) = copy_from_user (Proc.mm p) set 8 in
    if not copied
    then (p, einval)
    else elim (mask_for how (Ksignal.sigmask (Proc.signal p))
        (get_or (bytes_to_words 1 bytes) 0 0)) [
          | none ↦ (p, einval)
          | some mask ↦ (with_signal p (record (Proc.signal p) { sigmask = mask }), pos 0)
        ]

unfoldable pub sys_sigprocmask : Proc → ℤ → Option ℕ → Option ℕ → Proc × ℤ
unfolding change_mask copy_to_user words_to_bytes
sys_sigprocmask p how set none = change_mask how set p
sys_sigprocmask p how set (some oldset) =
    let (m, copied) =
      copy_to_user (Proc.mm p) oldset (words_to_bytes (Ksignal.sigmask (Proc.signal p) ∷ [])) in
    if copied then change_mask how set (record p { mm = m }) else (record p { mm = m }, einval)

unfoldable pub sys_sigpending : Proc → Option ℕ → Proc × ℤ
unfolding copy_to_user words_to_bytes
sys_sigpending p none = (p, einval)
sys_sigpending p (some set) =
    let (m, copied) =
      copy_to_user (Proc.mm p) set (words_to_bytes (Ksignal.sigpending (Proc.signal p) ∷ [])) in
    (record p { mm = m }, if copied then pos 0 else einval)
