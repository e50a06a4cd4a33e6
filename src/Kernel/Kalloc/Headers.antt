-- ===== src/Kernel/Kalloc/Headers.antt =====
-- The addresses of the headers, and lists of them that are linked.
use os_project_signal.Prelude.{
  ℕ, zero, suc, ◌+◌, ◌*◌, ◌≤◌, ◌<◌, ◌≡◌, ◌≢◌, refl, ap, sym, ◌∙◌, ◌⊎◌, ltb, inl, inr, true, false,
  Bool-cases, List, [], ◌∷◌, length, ◌==◌, if◌then◌else◌, arith,
}
use os_project_signal.Signal.State.{set_at}
use os_project_signal.Kernel.System.Counts.{count}

-- The addresses of `n` headers, from `base` on.
abbrev pub headers : ℕ → ℕ → ℕ → List ℕ
headers base step zero = []
headers base step (suc n) = base ∷ headers (base + step) step n

pub length-headers : (base step n : ℕ) → length (headers base step n) ≡ n
length-headers base step zero = refl
length-headers base step (suc n) = omega (arith, length-headers (base + step) step n)

count-headers_below : (base step n x : ℕ) → x < base → count x (headers base step n) ≡ 0
count-headers_below base step zero x h = refl
count-headers_below base step (suc n) x h =
    let rest = count-headers_below (base + step) step n x (omega arith) in ground arith

pub count-headers_le : (base step n x : ℕ) → 0 < step → count x (headers base step n) ≤ 1
count-headers_le base step zero x h = omega arith
count-headers_le base step (suc n) x h = elim (Bool-cases (base == x)) [
  | inl same ↦ let rest = count-headers_below (base + step) step n x (ground arith) in ground arith
  | inr other ↦ let rest = count-headers_le (base + step) step n x h in ground arith
]

-- A header stands at a multiple of the size.
pub headers-at :
    (base step n x : ℕ)
    → 0 < count x (headers base step n)
    → (k : ℕ) × (k < n) × (x ≡ base + step * k)
headers-at base step zero x h = absurd (omega arith)
headers-at base step (suc n) x h = elim (Bool-cases (base == x)) [
  | inl same ↦ (0, omega arith, ground arith)
  | inr other ↦
      let (k, less, at_k) = headers-at (base + step) step n x (ground arith) in
      (suc k, omega arith, omega arith)
]

-- Two headers are the same, or at least the size away from each other.
pub headers-apart :
    (base step n x y : ℕ)
    → 0 < count x (headers base step n)
    → 0 < count y (headers base step n)
    → (x ≡ y) ⊎ ((x + step ≤ y) ⊎ (y + step ≤ x))
headers-apart base step n x y at_x at_y =
    let (k, less, x_lem) = headers-at base step n x at_x in
    let (j, less', y_lem) = headers-at base step n y at_y in
    elim (Bool-cases (k == j)) [
      | inl same ↦ let at_j : k ≡ j = ground arith in inl (x_lem ∙ rw at_j (sym y_lem))
      | inr other ↦ elim (Bool-cases (ltb k j)) [
        | inl below ↦
            let far : step * k + step ≤ step * j = next_fits k j (ground arith) in
            inr (inl (omega (arith, far, x_lem, y_lem)))
        | inr above ↦
            let far : step * j + step ≤ step * k = next_fits j k (ground arith) in
            inr (inr (omega (arith, far, x_lem, y_lem)))
      ]
    ]
  where
    next_fits : (k m : ℕ) → k < m → step * k + step ≤ step * m
    next_fits k m less = grind arith

-- The first occurrence of an entry is taken out.
abbrev remove : ℕ → List ℕ → List ℕ
remove x [] = []
remove x (y ∷ l) = if y == x then l else y ∷ remove x l

count-remove :
    (x y : ℕ) (l : List ℕ)
    → 0 < count x l
    → count y (remove x l) + (if x == y then 1 else 0) ≡ count y l
count-remove x y [] h = absurd (omega arith)
count-remove x y (z ∷ l) h = elim (Bool-cases (z == x)) [
  | inl same ↦ let at_x : z ≡ x = ground arith in rw (same, at_x) (omega arith)
  | inr other ↦ let rest = count-remove x y l (ground arith) in rw other (omega arith)
]

length-remove : (x : ℕ) (l : List ℕ) → 0 < count x l → suc (length (remove x l)) ≡ length l
length-remove x [] h = absurd (omega arith)
length-remove x (z ∷ l) h = elim (Bool-cases (z == x)) [
  | inl same ↦ rw same
  | inr other ↦ rw other (ap suc (length-remove x l (ground arith)))
]

-- A list that has no entry more often than another is not longer.
pub length-le : (l r : List ℕ) → ((x : ℕ) → count x l ≤ count x r) → length l ≤ length r
length-le [] r h = omega arith
length-le (x ∷ l) r h =
    let here : 1 + count x l ≤ count x r = rw same_self at (h x) in
    let shorter =
      length-le l (remove x r)
        (λ y. let more = count-remove x y r (omega arith) in let at_y = h y in omega arith) in
    let less = length-remove x r (omega arith) in omega arith
  where
    same_self : (x == x) ≡ true
    same_self = ground arith

-- The list `free` is linked from `p` on, and ends in NULL.
abbrev pub IsLinked : (ℕ → ℕ) → ℕ → List ℕ → Type 0
IsLinked words p [] = p ≡ 0
IsLinked words p (x ∷ free) = (p ≡ x) × (x ≢ 0) × IsLinked words (words x) free

-- What stands elsewhere does not matter for the links.
pub IsLinked-same :
    (words words' : ℕ → ℕ) (p : ℕ) (free : List ℕ)
    → ((y : ℕ) → 0 < count y free → words' y ≡ words y)
    → IsLinked words p free
    → IsLinked words' p free
IsLinked-same words words' p [] same h = h
IsLinked-same words words' p (y ∷ free) same (at_y, there, rest) =
    let here : (y == y) ≡ true = ground arith in
    let rest' : IsLinked words' (words y) free =
      IsLinked-same words words' (words y) free (λ z h. same z (omega arith)) rest in
    (at_y, there, rw (same y (rw here (omega arith))) rest')

-- A write elsewhere keeps the links.
pub IsLinked-set_at :
    (words : ℕ → ℕ) (p x v : ℕ) (free : List ℕ)
    → count x free ≡ 0
    → IsLinked words p free
    → IsLinked (set_at words x v) p free
IsLinked-set_at words p x v [] absent h = h
IsLinked-set_at words p x v (y ∷ free) absent (at_y, there, rest) =
    let other : (y == x) ≡ false = ground arith in
    let absent' : count x free ≡ 0 = ground arith in
    (at_y, there, rw other (IsLinked-set_at words (words y) x v free absent' rest))
