-- ===== src/Gef/HeapAnalysis/Items.antt =====
-- Lists of chunks: the loop that takes an address out, and the look-up of an address.
use os_project_signal.Prelude.{
  ℕ, zero, suc, ◌+◌, ◌≤◌, ◌≡◌, refl, sym, ap, ◌∙◌, inl, inr, true, false, not, ◌&&◌, Bool-cases,
  Option-cases, none, some, List, [], ◌∷◌, ◌++◌, length, get_elem?, ◌==◌, if◌then◌else◌, arith,
}
use os_project_signal.Gef.HeapAnalysis.{Item, is_tracked, pop_tracked, remove, sweep_freed}

-- How often an address stands in a list.
abbrev pub times_tracked : ℕ → List Item → ℕ
times_tracked addr [] = 0
times_tracked addr (item ∷ items) = (if item.0 == addr then 1 else 0) + times_tracked addr items

pub times_tracked-append :
    (addr : ℕ) (l r : List Item)
    → times_tracked addr (l ++ r) ≡ times_tracked addr l + times_tracked addr r
times_tracked-append addr [] r = omega arith
times_tracked-append addr (item ∷ l) r = omega (arith, times_tracked-append addr l r)

pub is_tracked-times :
    (addr : ℕ) (l : List Item) → is_tracked addr l ≡ not (times_tracked addr l == 0)
is_tracked-times addr [] = refl
is_tracked-times addr (item ∷ l) = let rest = is_tracked-times addr l in ground arith

-- The list without an address.
abbrev pub without : ℕ → List Item → List Item
without loc [] = []
without loc (item ∷ items) = if item.0 == loc then without loc items else item ∷ without loc items

pub times_tracked-without :
    (addr loc : ℕ) (l : List Item)
    → times_tracked addr (without loc l) ≡ (if addr == loc then 0 else times_tracked addr l)
times_tracked-without addr loc [] = ground arith
times_tracked-without addr loc (item ∷ l) =
    let rest = times_tracked-without addr loc l in
    elim (Bool-cases (item.0 == loc)) [
      | inl same ↦ rw same (ground arith)
      | inr other ↦ rw other (ground arith)
    ]

without-absent : (loc : ℕ) (l : List Item) → times_tracked loc l ≡ 0 → without loc l ≡ l
without-absent loc [] h = refl
without-absent loc (item ∷ l) h = elim (Bool-cases (item.0 == loc)) [
  | inl same ↦ absurd (ground arith)
  | inr other ↦ rw other (ap (◌∷◌ item) (without-absent loc l (ground arith)))
]

get_elem?-append :
    (l r : List Item) (item : Item) → get_elem? (l ++ item ∷ r) (length l) ≡ some item
get_elem?-append [] r item = refl
get_elem?-append (x ∷ l) r item = get_elem?-append l r item

get_elem?-end : (l : List Item) → get_elem? l (length l) ≡ none
get_elem?-end [] = refl
get_elem?-end (x ∷ l) = get_elem?-end l

append_nil : (l : List Item) → l ++ [] ≡ l
append_nil [] = refl
append_nil (x ∷ l) = ap (◌∷◌ x) (append_nil l)

append_assoc : (l r t : List Item) → (l ++ r) ++ t ≡ l ++ (r ++ t)
append_assoc [] r t = refl
append_assoc (x ∷ l) r t = ap (◌∷◌ x) (append_assoc l r t)

length-snoc : (l : List Item) (item : Item) → length (l ++ item ∷ []) ≡ length l + 1
length-snoc [] item = omega arith
length-snoc (x ∷ l) item = omega (arith, length-snoc l item)

-- An entry behind a list that does not have its address is taken out there.
remove-append :
    (item : Item) (l r : List Item)
    → times_tracked item.0 l ≡ 0
    → remove item (l ++ item ∷ r) ≡ l ++ r
remove-append item [] r absent =
    let same : (item.0 == item.0 && item.1 == item.1) ≡ true = ground arith in rw same
remove-append item (x ∷ l) r absent =
    let other : (x.0 == item.0 && x.1 == item.1) ≡ false = ground arith in
    rw other (ap (◌∷◌ x) (remove-append item l r (ground arith)))

get_elem?-absent :
    (loc i : ℕ) (l : List Item) {item : Item}
    → times_tracked loc l ≡ 0
    → get_elem? l i ≡ some item
    → (item.0 == loc) ≡ false
get_elem?-absent loc i [] absent at_i = absurd (cc)
get_elem?-absent loc zero (x ∷ l) {item} absent at_i =
    let is_x : x ≡ item = cc in rw (sym is_x) (ground arith)
get_elem?-absent loc (suc i) (x ∷ l) absent at_i = get_elem?-absent loc i l (ground arith) at_i

sweep_freed-absent :
    (n i loc : ℕ) (l : List Item) → times_tracked loc l ≡ 0 → sweep_freed n i loc l ≡ l
unfolding sweep_freed
sweep_freed-absent zero i loc l absent = refl
sweep_freed-absent (suc n) i loc l absent = elim (Option-cases (get_elem? l i)) [
  | inl behind ↦ rw (sweep_freed, behind)
  | inr (item, at_i) ↦
      rw (sweep_freed, at_i, get_elem?-absent loc i l absent at_i)
        (sweep_freed-absent n (i + 1) loc l absent)
]

-- The loop from place `length before` on, where the address stands at most once behind that place.
sweep_freed-from :
    (n loc : ℕ) (before l : List Item)
    → length l ≤ n
    → times_tracked loc before ≡ 0
    → times_tracked loc l ≤ 1
    → sweep_freed n (length before) loc (before ++ l) ≡ before ++ without loc l
unfolding sweep_freed
sweep_freed-from zero loc before [] long absent once = refl
sweep_freed-from zero loc before (item ∷ l) long absent once = absurd (omega arith)
sweep_freed-from (suc n) loc before [] long absent once =
    let ended : get_elem? (before ++ []) (length before) ≡ none =
      rw (append_nil before) (get_elem?-end before) in
    rw (sweep_freed, ended)
sweep_freed-from (suc n) loc before (item ∷ l) long absent once =
    elim (Bool-cases (item.0 == loc)) [
      | inl same ↦
          let at_loc : item.0 ≡ loc = ground arith in
          let gone : times_tracked loc l ≡ 0 = ground arith in
          let absent' : times_tracked loc (before ++ l) ≡ 0 =
            omega (arith, times_tracked-append loc before l) in
          rw
            (
              sweep_freed,
              get_elem?-append before l item,
              same,
              remove-append item before l (rw at_loc absent),
              without-absent loc l gone,
            )
            (sweep_freed-absent n (length before + 1) loc (before ++ l) absent')
      | inr other ↦
          let before' = before ++ item ∷ [] in
          let absent' : times_tracked loc before' ≡ 0 =
            times_tracked-append loc before (item ∷ []) ∙ (rw (absent, other)) in
          let rest = sweep_freed-from n loc before' l (omega arith) absent' (ground arith) in
          rw (sweep_freed, get_elem?-append before l item, other)
            (rw
              (
                length-snoc before item,
                append_assoc before (item ∷ []) l,
                append_assoc before (item ∷ []) (without loc l),
              )
              at rest)
    ]

-- Where no address stands twice, the loop takes out the one that is looked for.
pub sweep_freed-without :
    (loc : ℕ) (l : List Item)
    → times_tracked loc l ≤ 1
    → sweep_freed (length l) 0 loc l ≡ without loc l
sweep_freed-without loc l once = sweep_freed-from (length l) loc [] l (omega arith) refl once

popped_inj : {x y : Item × List Item} → some x ≡ some y → x ≡ y
popped_inj h = cc

none_is : {y : Item × List Item} → none ≡ some y → ⊥
none_is h = cc

-- The chunk that is popped has the address.
pub pop_tracked-at :
    (addr : ℕ) (l : List Item) (item : Item) (others : List Item)
    → pop_tracked addr l ≡ some (item, others)
    → item.0 ≡ addr
unfolding pop_tracked
pop_tracked-at addr [] item others h = absurd (cc)
pop_tracked-at addr (x ∷ l) item others h = elim (Bool-cases (x.0 == addr)) [
  | inl same ↦
      let at_x : x.0 ≡ addr = ground arith in
      let is_x : x ≡ item = ap (λ p. p.0) (popped_inj (rw (pop_tracked, same) at h)) in
      rw (sym is_x) at_x
  | inr other ↦ elim (Option-cases (pop_tracked addr l)) [
    | inl unknown ↦ absurd (none_is (rw (pop_tracked, other, unknown) at h))
    | inr (popped, found) ↦
        let is_popped : popped.0 ≡ item =
          ap (λ p. p.0) (popped_inj (rw (pop_tracked, other, found) at h)) in
        rw is_popped at (pop_tracked-at addr l popped.0 popped.1 found)
  ]
]

-- What stands in a list stands in the chunk that is popped or in the others.
pub pop_tracked-times :
    (addr x : ℕ) (l : List Item) (popped : Item × List Item)
    → pop_tracked addr l ≡ some popped
    → times_tracked x l ≡ times_tracked x (popped.0 ∷ popped.1)
unfolding pop_tracked
pop_tracked-times addr x [] popped h = absurd (none_is h)
pop_tracked-times addr x (y ∷ l) popped h = elim (Bool-cases (y.0 == addr)) [
  | inl same ↦
      let is_y : (y, l) ≡ popped = popped_inj (rw (pop_tracked, same) at h) in rw (sym is_y)
  | inr other ↦ elim (Option-cases (pop_tracked addr l)) [
    | inl unknown ↦ absurd (none_is (rw (pop_tracked, other, unknown) at h))
    | inr (found, at_l) ↦
        let is_found : (found.0, y ∷ found.1) ≡ popped =
          popped_inj (rw (pop_tracked, other, at_l) at h) in
        let rest = pop_tracked-times addr x l found at_l in rw (sym is_found) (omega arith)
  ]
]

pub pop_tracked-none :
    (addr : ℕ) (l : List Item) → times_tracked addr l ≡ 0 → pop_tracked addr l ≡ none
unfolding pop_tracked
pop_tracked-none addr [] absent = refl
pop_tracked-none addr (y ∷ l) absent =
    let other : (y.0 == addr) ≡ false = ground arith in
    rw (pop_tracked, other, pop_tracked-none addr l (ground arith))
