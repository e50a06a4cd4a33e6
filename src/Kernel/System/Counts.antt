-- ===== src/Kernel/System/Counts.antt =====
-- Counting in lists of indices: a list in which no index stands twice, and none from `n` on, has at most
-- `n` entries.
use os_project_signal.Prelude.{
  ℕ, zero, suc, ◌+◌, ◌≤◌, ◌<◌, ◌≡◌, refl, sym, false, Bool-cases, inl, inr, Option, none, some, set,
  get_elem?, List, [], ◌∷◌, ◌++◌, length, ◌==◌, ltb, if◌then◌else◌, arith,
}

-- How often an index stands in a list.
abbrev pub count : ℕ → List ℕ → ℕ
count i [] = 0
count i (x ∷ l) = (if x == i then 1 else 0) + count i l

pub count-append : (i : ℕ) (l r : List ℕ) → count i (l ++ r) ≡ count i l + count i r
count-append i [] r = omega arith
count-append i (x ∷ l) r = omega (arith, count-append i l r)

-- f 0 + … + f (n - 1)
abbrev pub sum_below : ℕ → (ℕ → ℕ) → ℕ
sum_below zero f = 0
sum_below (suc n) f = sum_below n f + f n

pub sum_below-ap : (n : ℕ) (f g : ℕ → ℕ) → ((i : ℕ) → f i ≡ g i) → sum_below n f ≡ sum_below n g
sum_below-ap zero f g h = refl
sum_below-ap (suc n) f g h = omega (arith, sum_below-ap n f g h, h n)

sum_below-zero : (n : ℕ) → sum_below n (λ i. 0) ≡ 0
sum_below-zero zero = refl
sum_below-zero (suc n) = omega (arith, sum_below-zero n)

sum_below-count :
    (n x : ℕ) (l : List ℕ)
    → sum_below n (λ i. count i (x ∷ l)) ≡ (if ltb x n then 1 else 0) + sum_below n (λ i. count i l)
sum_below-count zero x l = ground arith
sum_below-count (suc n) x l = ground (arith, sum_below-count n x l)

pub length-eq-sum_below :
    (n : ℕ) (l : List ℕ)
    → ((i : ℕ) → n ≤ i → count i l ≡ 0)
    → length l ≡ sum_below n (λ i. count i l)
length-eq-sum_below n [] h = sym (sum_below-zero n)
length-eq-sum_below n (x ∷ l) h =
    let tail_lem = length-eq-sum_below n l (λ i in_range. let h' = h i in_range in omega arith) in
    let split = sum_below-count n x l in
    let at_x : n ≤ x → count x (x ∷ l) ≡ 0 = h x in ground (arith, at_x)

pub sum_below-le : (n : ℕ) (f : ℕ → ℕ) → ((i : ℕ) → f i ≤ 1) → sum_below n f ≤ n
sum_below-le zero f most = omega arith
sum_below-le (suc n) f most = omega (arith, sum_below-le n f most, most n)

-- Where each term is at most 1 and one of them is 0, the sum is below `n`.
pub sum_below-lt : (n j : ℕ) (f : ℕ → ℕ) → ((i : ℕ) → f i ≤ 1) → j < n → f j ≡ 0 → sum_below n f < n
sum_below-lt zero j f most small gap = elim small [ ]
sum_below-lt (suc n) j f most small gap = elim (Bool-cases (j == n)) [
  | inl last ↦
      let at_last : j ≡ n = ground arith in
      let zero_last : f n ≡ 0 = rw (sym at_last) gap in omega (arith, sum_below-le n f most)
  | inr before ↦ omega (arith, sum_below-lt n j f most (ground arith) gap, most n)
]

-- How many processors run a process.
abbrev pub count_cpu : ℕ → List (Option ℕ) → ℕ
count_cpu i [] = 0
count_cpu i (none ∷ cpus) = count_cpu i cpus
count_cpu i (some x ∷ cpus) = (if x == i then 1 else 0) + count_cpu i cpus

-- A processor that takes up a process, and one that gives it up.
pub count_cpu-taken :
    (cpus : List (Option ℕ)) (cpu i j : ℕ)
    → get_elem? cpus cpu ≡ some none
    → count_cpu j (set cpus cpu (some i)) ≡ (if i == j then 1 else 0) + count_cpu j cpus
count_cpu-taken [] cpu i j idle = absurd (cc)
count_cpu-taken (none ∷ cpus) zero i j idle = refl
count_cpu-taken (some x ∷ cpus) zero i j idle = absurd (cc)
count_cpu-taken (none ∷ cpus) (suc cpu) i j idle = count_cpu-taken cpus cpu i j idle
count_cpu-taken (some x ∷ cpus) (suc cpu) i j idle =
    omega (arith, count_cpu-taken cpus cpu i j idle)

pub count_cpu-given_up :
    (cpus : List (Option ℕ)) (cpu i j : ℕ)
    → get_elem? cpus cpu ≡ some (some i)
    → (if i == j then 1 else 0) + count_cpu j (set cpus cpu none) ≡ count_cpu j cpus
count_cpu-given_up [] cpu i j busy = absurd (cc)
count_cpu-given_up (none ∷ cpus) zero i j busy = absurd (cc)
count_cpu-given_up (some x ∷ cpus) zero i j busy = let same : x ≡ i = cc in rw same
count_cpu-given_up (none ∷ cpus) (suc cpu) i j busy = count_cpu-given_up cpus cpu i j busy
count_cpu-given_up (some x ∷ cpus) (suc cpu) i j busy =
    omega (arith, count_cpu-given_up cpus cpu i j busy)

-- A value that differs at one index only.
pub by_index :
    (i j : ℕ) {a b c : ℕ}
    → (j ≡ i → a ≡ b)
    → ((j == i) ≡ false → a ≡ c)
    → a ≡ (if j == i then b else c)
by_index i j at_i other = elim (Bool-cases (j == i)) [
  | inl same ↦ rw same (at_i (ground arith))
  | inr differs ↦ rw differs (other differs)
]
