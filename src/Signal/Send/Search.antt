-- ===== src/Signal/Send/Search.antt =====
-- What `findByPid` finds, and the calls of `sys_sigkill` that rest on it.
use os_project_signal.Prelude.{
  ℕ, zero, suc, ◌+◌, ◌≤◌, ◌<◌, ◌≡◌, refl, ap, ◌∙◌, ◌⊎◌, true, false, Bool-cases, inl, inr, Option,
  none, some, get_elem?, length, List, [], ◌∷◌, ◌==◌, arith,
}
use os_project_signal.Prelude.Int.{ℤ, pos, eqb_ℤ}
use os_project_signal.Signal.State.{Proc}
use os_project_signal.Signal.Syscalls.{einval, in_range, number}
use os_project_signal.Signal.Send.{is_held, find_from, find_by_pid, sys_sigkill, with_sender}
use os_project_signal.Signal.Send.Waking.{send_to-Keeps}
use os_project_signal.Kernel.System.{System, curr_proc}
use os_project_signal.Kernel.System.Consistent.{IsConsistent, inside-lt}
use os_project_signal.Kernel.System.Keeps.{running-at}

-- The search finds an index at which the pid stands, or there is none.
abbrev pub Finds : ℤ → ℕ → List Proc → Option (Option ℕ) → Type 0
Finds pid i pool r =
    (r ≡ some none)
    ⊎ ((j : ℕ) × (p : Proc) × (r ≡ some (some (i + j)))
        × (get_elem? pool j ≡ some p)
        × (eqb_ℤ (Proc.pid p) pid ≡ true))

find_from-Finds :
    (pid : ℤ) (i : ℕ) (pool : List Proc) → Finds pid i pool (find_from none pid i pool)
unfolding find_from
find_from-Finds pid i [] = inl refl
find_from-Finds pid i (p ∷ pool) = elim (Bool-cases (eqb_ℤ (Proc.pid p) pid)) [
  | inl here ↦ inr (0, p, rw here (ap (λ n. some (some n)) (omega arith)), refl, here)
  | inr other ↦ elim (find_from-Finds pid (i + 1) pool) [
    | inl absent ↦ inl (rw other absent)
    | inr (j, q, found, at_j, same) ↦
        inr (suc j, q, rw other (found ∙ ap (λ n. some (some n)) (omega arith)), at_j, same)
  ]
]

pub find_by_pid-Finds :
    (pid : ℤ) (pool : List Proc)
    → (find_by_pid none pid pool ≡ some none)
      ⊎ ((j : ℕ) × (p : Proc) × (find_by_pid none pid pool ≡ some (some j))
          × (get_elem? pool j ≡ some p)
          × (eqb_ℤ (Proc.pid p) pid ≡ true))
unfolding find_by_pid
find_by_pid-Finds pid pool = elim (find_from-Finds pid 0 pool) [
  | inl absent ↦ inl absent
  | inr (j, p, found, at_j, same) ↦
      inr (j, p, found ∙ ap (λ n. some (some n)) (omega arith), at_j, same)
]

-- A process that is locked is reached before the pid: the search panics.
pub find_from-held :
    (v : ℕ) (pid : ℤ) (i : ℕ) (pool : List Proc)
    → ((j : ℕ) (p : Proc) → i + j < v → get_elem? pool j ≡ some p → eqb_ℤ (Proc.pid p) pid ≡ false)
    → i ≤ v
    → v < i + length pool
    → find_from (some v) pid i pool ≡ none
unfolding find_from
find_from-held v pid i [] before low high = absurd (omega arith)
find_from-held v pid i (p ∷ pool) before low high = elim (Bool-cases (v == i)) [
  | inl locked ↦ rw locked
  | inr other ↦
      let passed : i < v = ground arith in
      let differs = before 0 p (omega arith) refl in
      rw (other, differs)
        (find_from-held v pid (i + 1) pool (λ j q less at_j. before (suc j) q (omega arith) at_j)
          (omega arith) (omega arith))
]

-- The pid is reached first: the search finds it.
find_from-first :
    (v : ℕ) (pid : ℤ) (i : ℕ) (pool : List Proc) (j : ℕ) (p : Proc)
    → i + j < v
    → get_elem? pool j ≡ some p
    → eqb_ℤ (Proc.pid p) pid ≡ true
    → (k : ℕ) × (q : Proc) × (find_from (some v) pid i pool ≡ some (some (i + k)))
      × (get_elem? pool k ≡ some q)
unfolding find_from
find_from-first v pid i [] j p before at_j same = absurd (cc)
find_from-first v pid i (x ∷ pool) zero p before at_j same =
    let is_p : x ≡ p = cc in
    let free : (v == i) ≡ false = ground arith in
    (0, p, rw (free, is_p, same) (ap (λ n. some (some n)) (omega arith)), rw is_p)
find_from-first v pid i (x ∷ pool) (suc j) p before at_j same =
    let free : (v == i) ≡ false = ground arith in
    elim (Bool-cases (eqb_ℤ (Proc.pid x) pid)) [
      | inl here ↦ (0, x, rw (free, here) (ap (λ n. some (some n)) (omega arith)), refl)
      | inr other ↦
          let (k, q, found, at_k) =
            find_from-first v pid (i + 1) pool j p (omega arith) at_j same in
          (suc k, q, rw (free, other) (found ∙ ap (λ n. some (some n)) (omega arith)), at_k)
    ]

pub find_by_pid-first :
    (v : ℕ) (pid : ℤ) (pool : List Proc) (j : ℕ) (p : Proc)
    → j < v
    → get_elem? pool j ≡ some p
    → eqb_ℤ (Proc.pid p) pid ≡ true
    → (k : ℕ) × (q : Proc) × (find_by_pid (some v) pid pool ≡ some (some k))
      × (get_elem? pool k ≡ some q)
unfolding find_by_pid
find_by_pid-first v pid pool j p before at_j same =
    let (k, q, found, at_k) = find_from-first v pid 0 pool j p (omega arith) at_j same in
    (k, q, found ∙ ap (λ n. some (some n)) (omega arith), at_k)

pub find_by_pid-held :
    (v : ℕ) (pid : ℤ) (pool : List Proc)
    → ((j : ℕ) (p : Proc) → j < v → get_elem? pool j ≡ some p → eqb_ℤ (Proc.pid p) pid ≡ false)
    → v < length pool
    → find_by_pid (some v) pid pool ≡ none
unfolding find_by_pid
find_by_pid-held v pid pool before inside =
    find_from-held v pid 0 pool (λ j p less at_j. before j p (omega arith) at_j) (omega arith)
      (omega arith)

-- With a lock held the search may also panic.
find_from-held_or_Finds :
    (held : Option ℕ) (pid : ℤ) (i : ℕ) (pool : List Proc)
    → (find_from held pid i pool ≡ none) ⊎ Finds pid i pool (find_from held pid i pool)
unfolding find_from
find_from-held_or_Finds held pid i [] = inr (inl refl)
find_from-held_or_Finds held pid i (p ∷ pool) = elim (Bool-cases (is_held held i)) [
  | inl locked ↦ inl (rw locked)
  | inr free ↦ elim (Bool-cases (eqb_ℤ (Proc.pid p) pid)) [
    | inl here ↦
        inr (inr (0, p, rw (free, here) (ap (λ n. some (some n)) (omega arith)), refl, here))
    | inr other ↦ elim (find_from-held_or_Finds held pid (i + 1) pool) [
      | inl panics ↦ inl (rw (free, other) panics)
      | inr (inl absent) ↦ inr (inl (rw (free, other) absent))
      | inr (inr (j, q, found, at_j, same)) ↦ inr (
          inr (
            suc j,
            q,
            rw (free, other) (found ∙ ap (λ n. some (some n)) (omega arith)),
            at_j,
            same,
          ))
    ]
  ]
]

-- A call that returns, keeps the system consistent, and leaves the processors alone.
abbrev pub Returns : (System → Option (System × ℤ)) → System → Type 0
Returns f s =
    (s' : System) × (ret : ℤ) × (f s ≡ some (s', ret))
    × IsConsistent s'
    × (System.cpus s' ≡ System.cpus s)

-- The call where the search finds a process.
pub sys_sigkill-found :
    (cpu : ℕ) (held : Option ℕ) (pid signo code : ℤ) (s : System) (curr j : ℕ) (p : Proc)
    → IsConsistent s
    → get_elem? (System.cpus s) cpu ≡ some (some curr)
    → in_range signo ≡ true
    → find_by_pid held pid (System.pool s) ≡ some (some j)
    → get_elem? (System.pool s) j ≡ some p
    → Returns (sys_sigkill cpu held pid signo code) s
unfolding sys_sigkill
sys_sigkill-found cpu held pid signo code s curr j p v busy inside found at_j =
    let (sender, at_curr, run) = running-at s cpu curr v busy in
    let (s', done, w, cpus) =
      send_to-Keeps (Proc.pid sender) (number signo) code j s v (inside-lt s j v at_j) in
    (s', pos 0, rw (inside, found, curr_proc, busy, with_sender, at_curr, done), w, cpus)

-- A call with no lock held never panics.
pub sys_sigkill-Returns :
    (cpu : ℕ) (pid signo code : ℤ) (s : System) (curr : ℕ)
    → IsConsistent s
    → get_elem? (System.cpus s) cpu ≡ some (some curr)
    → Returns (sys_sigkill cpu none pid signo code) s
unfolding sys_sigkill
sys_sigkill-Returns cpu pid signo code s curr v busy = elim (Bool-cases (in_range signo)) [
  | inr outside ↦ (s, einval, rw outside, v, refl)
  | inl inside ↦ elim (find_by_pid-Finds pid (System.pool s)) [
    | inl absent ↦ (s, einval, rw (inside, absent), v, refl)
    | inr (j, p, found, at_j, same) ↦
        sys_sigkill-found cpu none pid signo code s curr j p v busy inside found at_j
  ]
]

-- A call with a lock held panics or returns.
pub sys_sigkill-held_or_Returns :
    (cpu : ℕ) (held : Option ℕ) (pid signo code : ℤ) (s : System) (curr : ℕ)
    → IsConsistent s
    → get_elem? (System.cpus s) cpu ≡ some (some curr)
    → (sys_sigkill cpu held pid signo code s ≡ none)
      ⊎ Returns (sys_sigkill cpu held pid signo code) s
unfolding sys_sigkill find_by_pid
sys_sigkill-held_or_Returns cpu held pid signo code s curr v busy =
    elim (Bool-cases (in_range signo)) [
      | inr outside ↦ inr (s, einval, rw outside, v, refl)
      | inl inside ↦ elim (find_from-held_or_Finds held pid 0 (System.pool s)) [
        | inl panics ↦ inl (rw (inside, panics))
        | inr (inl absent) ↦ inr (s, einval, rw (inside, absent), v, refl)
        | inr (inr (j, p, found, at_j, same)) ↦ inr (
            sys_sigkill-found cpu held pid signo code s curr j p v busy inside
              (found ∙ ap (λ n. some (some n)) (omega arith)) at_j)
      ]
    ]
