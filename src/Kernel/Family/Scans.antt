-- ===== src/Kernel/Family/Scans.antt =====
-- The scans of `wait` over the process table.
use os_project_signal.Prelude.{
  ℕ, zero, suc, ◌+◌, ◌≡◌, ◌≢◌, refl, sym, ap, ◌∙◌, ◌⊎◌, Bool, true, false, not, ◌&&◌, Bool-cases,
  inl, inr, Option, none, some, get_elem?, List, [], ◌∷◌, ◌==◌, arith,
}
use os_project_signal.Prelude.Int.{ℤ, pos, negsuc, leb_ℤ, eqb_ℤ}
use os_project_signal.Signal.State.{
  ProcState, unused, used, sleeping, runnable, running, zombie, stopped, Proc,
}
use os_project_signal.Kernel.System.{System, eq_state}
use os_project_signal.Kernel.Process.{eq_pointer}
use os_project_signal.Kernel.Family.{wants, find_zombie, has_children}

-- `c` is the place of a child of `i`.
abbrev pub IsChild : ℕ → ℕ → Proc → Type 0
IsChild i c child = (c ≢ i) × (Proc.parent child ≡ some i)

-- A pid of at most 0 waits for every child, and any other for the child with that pid.
abbrev pub WaitsFor : ℤ → ℤ → Type 0
WaitsFor pid child = (leb_ℤ pid (pos 0) ≡ true) ⊎ (child ≡ pid)

-- An exited child of `i` that is waited for.
abbrev pub IsReapable : ℕ → ℤ → ℕ → Proc → Type 0
IsReapable i pid c child =
    IsChild i c child × (Proc.state child ≡ zombie) × WaitsFor pid (Proc.pid child)

-- No place of the process table has the property.
abbrev pub Nowhere : (ℕ → Proc → Type 0) → System → Type 0
Nowhere P s = (c : ℕ) (child : Proc) → get_elem? (System.pool s) c ≡ some child → P c child → ⊥

abbrev pub Somewhere : (ℕ → Proc → Type 0) → System → Type 0
Somewhere P s = (c : ℕ) × (child : Proc) × (get_elem? (System.pool s) c ≡ some child) × P c child

zombie_lem : (st : ProcState) → eq_state st zombie ≡ true → st ≡ zombie
zombie_lem unused h = absurd (cc)
zombie_lem used h = absurd (cc)
zombie_lem sleeping h = absurd (cc)
zombie_lem runnable h = absurd (cc)
zombie_lem running h = absurd (cc)
zombie_lem zombie h = refl
zombie_lem stopped h = absurd (cc)

both : (a b : Bool) → (a && b) ≡ true → (a ≡ true) × (b ≡ true)
both true b h = (refl, h)
both false b h = absurd (cc)

eq_pointer_lem : (p : Option ℕ) (i : ℕ) → eq_pointer p (some i) ≡ true → p ≡ some i
eq_pointer_lem none i h = absurd (cc)
eq_pointer_lem (some j) i h = ap some (ground arith)

eq_pointer_self : (i : ℕ) → eq_pointer (some i) (some i) ≡ true
eq_pointer_self i = ground arith

pub eqb_ℤ_lem : (q : ℤ) (n : ℕ) → eqb_ℤ q (pos n) ≡ true → q ≡ pos n
eqb_ℤ_lem (pos m) n h = ap pos (ground arith)
eqb_ℤ_lem (negsuc m) n h = absurd (ground arith)

wants-WaitsFor : (pid child : ℤ) → wants pid child ≡ true → WaitsFor pid child
wants-WaitsFor (pos zero) child h = inl refl
wants-WaitsFor (pos (suc m)) child h = inr (eqb_ℤ_lem child (suc m) h)
wants-WaitsFor (negsuc m) child h = inl (ground arith)

WaitsFor-wants : (pid child : ℤ) → WaitsFor pid child → wants pid child ≡ true
WaitsFor-wants (pos zero) child h = refl
WaitsFor-wants (pos (suc m)) child (inl h) = absurd (ground arith)
WaitsFor-wants (pos (suc m)) child (inr same) = rw same (ground arith)
WaitsFor-wants (negsuc m) child h = refl

-- the test for a child of `i`, and the test for an exited one that is waited for
abbrev child_test : ℕ → ℕ → Proc → Bool
child_test i c child = not (c == i) && eq_pointer child.parent (some i)

abbrev zombie_test : ℕ → ℤ → ℕ → Proc → Bool
zombie_test i pid c child =
    not (c == i)
    && (eq_pointer child.parent (some i) && (eq_state child.state zombie && wants pid child.pid))

child_test-IsChild : (i c : ℕ) (child : Proc) → child_test i c child ≡ true → IsChild i c child
child_test-IsChild i c child h =
    let (other, parent) = both (not (c == i)) _ h in
    (λ e. ground arith, eq_pointer_lem child.parent i parent)

IsChild-child_test : (i c : ℕ) (child : Proc) → IsChild i c child → child_test i c child ≡ true
IsChild-child_test i c child (other, parent) =
    let differs : (c == i) ≡ false = ground arith in rw (differs, parent, eq_pointer_self i)

zombie_test-IsReapable :
    (i : ℕ) (pid : ℤ) (c : ℕ) (child : Proc)
    → zombie_test i pid c child ≡ true
    → IsReapable i pid c child
zombie_test-IsReapable i pid c child h =
    let (other, rest) = both (not (c == i)) _ h in
    let (parent, rest') = both (eq_pointer child.parent (some i)) _ rest in
    let (dead, wanted) = both (eq_state child.state zombie) _ rest' in
    (
      (λ e. ground arith, eq_pointer_lem child.parent i parent),
      zombie_lem child.state dead,
      wants-WaitsFor pid child.pid wanted,
    )

IsReapable-zombie_test :
    (i : ℕ) (pid : ℤ) (c : ℕ) (child : Proc)
    → IsReapable i pid c child
    → zombie_test i pid c child ≡ true
IsReapable-zombie_test i pid c child ((other, parent), dead, wanted) =
    let differs : (c == i) ≡ false = ground arith in
    rw (differs, parent, eq_pointer_self i, dead, WaitsFor-wants pid child.pid wanted)

-- No place of the table has the property, where the first one that is left has the number `c`.
abbrev pub FromOn : (ℕ → Proc → Type 0) → ℕ → List Proc → Type 0
FromOn P c pool = (j : ℕ) (child : Proc) → get_elem? pool j ≡ some child → P (c + j) child → ⊥

FromOn-step :
    (P : ℕ → Proc → Type 0) (c : ℕ) (first : Proc) (pool : List Proc)
    → (P c first → ⊥)
    → FromOn P (c + 1) pool
    → FromOn P c (first ∷ pool)
FromOn-step P c first pool here rest zero child at_j h =
    let same : first ≡ child = cc in
    let at_c : c + 0 ≡ c = omega arith in here (rw same (rw at_c at h))
FromOn-step P c first pool here rest (suc j) child at_j h =
    let shift : c + suc j ≡ c + 1 + j = omega arith in rest j child at_j (rw shift at h)

pub find_zombie_lem :
    (i : ℕ) (pid : ℤ) (c : ℕ) (pool : List Proc)
    → ((find_zombie i pid c pool ≡ none) × FromOn (IsReapable i pid) c pool)
      ⊎ ((j : ℕ) × (child : Proc) × (find_zombie i pid c pool ≡ some (c + j))
          × (get_elem? pool j ≡ some child)
          × IsReapable i pid (c + j) child)
unfolding find_zombie
find_zombie_lem i pid c [] = inl (refl, λ j child at_j h. absurd (cc))
find_zombie_lem i pid c (child ∷ pool) = elim (Bool-cases (zombie_test i pid c child)) [
  | inl here ↦
      let at_c : c ≡ c + 0 = omega arith in
      inr (
        0,
        child,
        rw here (ap some at_c),
        refl,
        rw (sym at_c) (zombie_test-IsReapable i pid c child here),
      )
  | inr other ↦ elim (find_zombie_lem i pid (c + 1) pool) [
    | inl (absent, nowhere) ↦ inl (
      rw other absent,
      FromOn-step (IsReapable i pid) c child pool
          (λ h. let no = IsReapable-zombie_test i pid c child h in absurd (cc)) nowhere,
    )
    | inr (j, q, found, at_j, reapable) ↦
        let shift : c + 1 + j ≡ c + suc j = omega arith in
        inr (suc j, q, rw other (found ∙ ap some shift), at_j, rw (sym shift) reapable)
  ]
]

pub has_children_lem :
    (i c : ℕ) (pool : List Proc)
    → ((has_children i c pool ≡ false) × FromOn (IsChild i) c pool)
      ⊎ ((has_children i c pool ≡ true)
          × ((j : ℕ) × (child : Proc) × (get_elem? pool j ≡ some child) × IsChild i (c + j) child))
unfolding has_children
has_children_lem i c [] = inl (refl, λ j child at_j h. absurd (cc))
has_children_lem i c (child ∷ pool) = elim (Bool-cases (child_test i c child)) [
  | inl here ↦
      let at_c : c ≡ c + 0 = omega arith in
      inr (rw here, (0, child, refl, rw (sym at_c) (child_test-IsChild i c child here)))
  | inr other ↦ elim (has_children_lem i (c + 1) pool) [
    | inl (absent, nowhere) ↦ inl (
      rw other absent,
      FromOn-step (IsChild i) c child pool
          (λ h. let no = IsChild-child_test i c child h in absurd (cc)) nowhere,
    )
    | inr (kids, (j, q, at_j, own)) ↦
        let shift : c + 1 + j ≡ c + suc j = omega arith in
        inr (rw other kids, (suc j, q, at_j, rw (sym shift) own))
  ]
]
