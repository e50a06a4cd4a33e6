-- ===== src/Kernel/Family/Waiting.antt =====
-- A round of `wait`: it frees an exited child, or returns, or sleeps.
use os_project_signal.Prelude.{
  ℕ, lt-get_elem?, ◌+◌, ◌<◌, ◌≡◌, ◌≢◌, refl, sym, ap, ◌∙◌, ◌⊎◌, false, Bool-cases, inl, inr, Option,
  none, some, get_elem?, get_elem?-set_self, get_elem?-set_ne, set, length, arith,
}
use os_project_signal.Prelude.Int.{ℤ, pos, eqb_ℤ}
use os_project_signal.Gef.Pack.{bytes_of}
use os_project_signal.Signal.Memory.{copy_to_user}
use os_project_signal.Signal.State.{of_proc, Proc}
use os_project_signal.Signal.Frame.{int_pattern}
use os_project_signal.Kernel.System.{System, put_proc, with_proc}
use os_project_signal.Kernel.System.Consistent.{IsConsistent, quiet-IsConsistent}
use os_project_signal.Kernel.System.Keeps.{running-at}
use os_project_signal.Kernel.Process.{freeproc, freeproc_fields}
use os_project_signal.Kernel.Process.Transitions.{sleep-IsConsistent}
use os_project_signal.Kernel.Family.Scans.{
  IsChild, IsReapable, Nowhere, Somewhere, FromOn, eqb_ℤ_lem, find_zombie_lem, has_children_lem,
}
use os_project_signal.Kernel.Family.{
  find_zombie, store_code, Waited, waited, sleeps, reap, wait_round, echild,
}

store_code-Keeps :
    (i : ℕ) (code : Option ℕ) (exit_code : ℤ) (s : System) (p : Proc)
    → IsConsistent s
    → get_elem? (System.pool s) i ≡ some p
    → (s' : System) × (store_code i code exit_code s ≡ some s')
      × IsConsistent s'
      × (System.cpus s' ≡ System.cpus s)
      × ((c : ℕ) → i ≢ c → get_elem? (System.pool s') c ≡ get_elem? (System.pool s) c)
unfolding store_code
store_code-Keeps i none exit_code s p w at_i = (s, refl, w, refl, λ c other. refl)
store_code-Keeps i (some code) exit_code s p w at_i =
    let p' = record p { mm = (copy_to_user p.mm code (bytes_of 4 (int_pattern exit_code))).0 } in
    (
      put_proc i p' s,
      rw (with_proc, at_i),
      quiet-IsConsistent s i p p' w at_i (λ h. h) refl refl,
      refl,
      λ c other. get_elem?-set_ne (System.pool s) p' other,
    )

-- The process `i` was killed, or was not.
abbrev pub WasKilled : ℕ → System → Type 0
WasKilled i s = (p : Proc) × (get_elem? (System.pool s) i ≡ some p) × (Proc.killed p ≢ pos 0)

abbrev pub NotKilled : ℕ → System → Type 0
NotKilled i s = (p : Proc) × (get_elem? (System.pool s) i ≡ some p) × (Proc.killed p ≡ pos 0)

-- What a round returns with: -ECHILD in the system as it was, where no exited child is waited for and
-- there is no child or the process was killed, or the pid of an exited child that is waited for, whose
-- place is UNUSED then.
abbrev pub Reaped : ℕ → ℤ → System → System → ℤ → Type 0
Reaped i pid s s' ret =
    ((s' ≡ s)
      × (ret ≡ echild)
      × Nowhere (IsReapable i pid) s
      × (Nowhere (IsChild i) s ⊎ WasKilled i s))
    ⊎ ((c : ℕ) × (child : Proc) × (get_elem? (System.pool s) c ≡ some child)
        × IsReapable i pid c child
        × (ret ≡ Proc.pid child)
        × (get_elem? (System.pool s') c ≡ some (freeproc_fields child)))

abbrev pub WaitReturns : ℕ → ℤ → System → Option Waited → Type 0
WaitReturns i pid s r =
    (s' : System) × (ret : ℤ) × (r ≡ some (waited s' ret))
    × IsConsistent s'
    × (System.cpus s' ≡ System.cpus s)
    × Reaped i pid s s' ret

reap-lem :
    (i c : ℕ) (pid : ℤ) (code : Option ℕ) (s : System) (p child : Proc)
    → IsConsistent s
    → get_elem? (System.pool s) i ≡ some p
    → get_elem? (System.pool s) c ≡ some child
    → IsReapable i pid c child
    → WaitReturns i pid s (reap i code c s)
unfolding reap freeproc
reap-lem i c pid code s p child v at_i at_c reapable =
    let ((other, parent), dead, wanted) = reapable in
    let (t, stored, w, cpus, same) = store_code-Keeps i code (Proc.exit_code child) s p v at_i in
    let at_c' = same c (λ e. other (sym e)) ∙ at_c in
    let inside : c < length (System.pool t) = lt-get_elem? (System.pool t) c at_c' in
    (
      put_proc c (freeproc_fields child) t,
      Proc.pid child,
      rw (reap, at_c, stored, with_proc, at_c'),
      quiet-IsConsistent t c child (freeproc_fields child) w at_c' (λ h. tt) (rw dead) (rw dead),
      cpus,
      inr (
        c,
        child,
        at_c,
        reapable,
        refl,
        get_elem?-set_self (System.pool t) c (freeproc_fields child) inside,
      ),
    )

wait_round-found :
    (cpu i c : ℕ) (pid : ℤ) (code : Option ℕ) (s : System)
    → find_zombie i pid 0 (System.pool s) ≡ some c
    → wait_round cpu i pid code s ≡ reap i code c s
unfolding wait_round
wait_round-found cpu i c pid code s found = rw (wait_round, found)

-- Nothing stands in a table that nothing stands in from the first place on.
everywhere : (P : ℕ → Proc → Type 0) (s : System) → FromOn P 0 (System.pool s) → Nowhere P s
everywhere P s nowhere c child at_c h =
    let from_zero : 0 + c ≡ c = omega arith in nowhere c child at_c (rw from_zero h)

-- A round gives up the processor, where there is a child, no exited one is waited for, and the process
-- was not killed.
abbrev pub WaitSleeps : ℕ → ℕ → ℤ → System → Option Waited → Type 0
WaitSleeps cpu i pid s r =
    (s' : System) × (r ≡ some (sleeps s'))
    × IsConsistent s'
    × (System.cpus s' ≡ set (System.cpus s) cpu none)
    × Somewhere (IsChild i) s
    × Nowhere (IsReapable i pid) s
    × NotKilled i s

not_zero : (p : Proc) → eqb_ℤ (Proc.killed p) (pos 0) ≡ false → Proc.killed p ≢ pos 0
not_zero p differs e = let no = rw e at differs in cc

-- Without an exited child to return for.
wait_round-none :
    (cpu i : ℕ) (pid : ℤ) (code : Option ℕ) (s : System)
    → IsConsistent s
    → get_elem? (System.cpus s) cpu ≡ some (some i)
    → find_zombie i pid 0 (System.pool s) ≡ none
    → Nowhere (IsReapable i pid) s
    → WaitReturns i pid s (wait_round cpu i pid code s)
      ⊎ WaitSleeps cpu i pid s (wait_round cpu i pid code s)
unfolding wait_round
wait_round-none cpu i pid code s v busy absent none_exited =
    let (p, at_i, run) = running-at s cpu i v busy in
    elim (has_children_lem i 0 (System.pool s)) [
      | inl (childless, no_child) ↦
          let alone = everywhere (IsChild i) s no_child in
          inl (
            s,
            echild,
            rw (wait_round, absent, at_i, childless),
            v,
            refl,
            inl (refl, refl, none_exited, inl alone),
          )
      | inr (kids, (c, child, at_c, own)) ↦ elim (Bool-cases (eqb_ℤ p.killed (pos 0))) [
        | inr killed ↦ inl (
          s,
          echild,
          rw (wait_round, absent, at_i, kids, killed),
          v,
          refl,
          inl (refl, refl, none_exited, inr (p, at_i, not_zero p killed)),
        )
        | inl alive ↦
            let (s', slept, w, cpus) = sleep-IsConsistent s cpu i (of_proc i) v busy in
            let from_zero : 0 + c ≡ c = omega arith in
            inr (
              s',
              rw (wait_round, absent, at_i, kids, alive, slept),
              w,
              cpus,
              (c, child, at_c, rw from_zero at own),
              none_exited,
              (p, at_i, eqb_ℤ_lem p.killed 0 alive),
            )
      ]
    ]

-- A round of `wait` by the process of processor `cpu` in a consistent system never panics, and keeps the
-- system consistent. Where an exited child is waited for, it returns the pid of such a child, whose place
-- in the process table is UNUSED then. Where none is, it returns -ECHILD and changes nothing if there is
-- no child or the process was killed, and else it gives up the processor.
pub wait_round-Returns :
    (cpu i : ℕ) (pid : ℤ) (code : Option ℕ) (s : System)
    → IsConsistent s
    → get_elem? (System.cpus s) cpu ≡ some (some i)
    → WaitReturns i pid s (wait_round cpu i pid code s)
      ⊎ WaitSleeps cpu i pid s (wait_round cpu i pid code s)
wait_round-Returns cpu i pid code s v busy =
    let (p, at_i, run) = running-at s cpu i v busy in
    elim (find_zombie_lem i pid 0 (System.pool s)) [
      | inr (c, child, found, at_c, reapable) ↦
          let from_zero : 0 + c ≡ c = omega arith in
          inl (
            rw (wait_round-found cpu i c pid code s (found ∙ ap some from_zero))
              (reap-lem i c pid code s p child v at_i at_c (rw from_zero at reapable)))
      | inl (absent, nowhere) ↦
          wait_round-none cpu i pid code s v busy absent (everywhere (IsReapable i pid) s nowhere)
    ]
