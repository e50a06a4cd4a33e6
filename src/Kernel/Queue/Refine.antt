-- ===== src/Kernel/Queue/Refine.antt =====
-- The ring of `nproc` places behaves as a queue of at most `nproc` tasks.
use os_project_signal.Prelude.{
  ℕ, zero, suc, ◌+◌, ◌-◌, ◌%◌, ◌≤◌, ◌<◌, ◌≡◌, ◌≢◌, refl, ap, ◌∙◌, Bool, true, false, not, ◌||◌,
  Bool-cases, inl, inr, Option, none, some, List, [], ◌∷◌, ◌++◌, set, length, get_or, ltb, ◌==◌,
  if◌then◌else◌, arith, get_or-set_self, get_or-set_ne, length-set,
}
use os_project_signal.Kernel.Queue.{Queue, nproc, queue_size, init_queue, push_queue, pop_queue}

pub record IsQueue (q : Queue) : Type 0 where
  pub storage : length q.slots ≡ queue_size
  pub front_in : q.front < nproc
  pub tail_in : q.tail < nproc
  pub empty_at : q.empty ≡ true → q.front ≡ q.tail

-- The `n` entries from place `h` on, round the ring.
abbrev pub entries : List ℕ → ℕ → ℕ → List ℕ
entries slots h zero = []
entries slots h (suc n) = get_or slots h 0 ∷ entries slots ((h + 1) % nproc) n

abbrev pub size : Queue → ℕ
size q =
    if q.empty then 0 else if ltb q.front q.tail then q.tail - q.front else q.tail + nproc - q.front

-- The tasks in their order, the next one first.
abbrev pub contents : Queue → List ℕ
contents q = entries q.slots q.front (size q)

length-entries : (slots : List ℕ) (h n : ℕ) → length (entries slots h n) ≡ n
length-entries slots h zero = refl
length-entries slots h (suc n) = ap suc (length-entries slots ((h + 1) % nproc) n)

pub length-contents : (q : Queue) → length (contents q) ≡ size q
length-contents q = length-entries q.slots q.front (size q)

-- A write behind the entries extends them.
entries-set :
    (slots : List ℕ) (h n i x : ℕ)
    → length slots ≡ queue_size
    → h < nproc
    → n < nproc
    → i ≡ (h + n) % nproc
    → entries (set slots i x) h (suc n) ≡ entries slots h n ++ x ∷ []
entries-set slots h zero i x storage in_ring few at =
    let same : h ≡ i = omega arith in rw (same, get_or-set_self slots i x 0 (omega arith))
entries-set slots h (suc n) i x storage in_ring few at =
    let other : i ≢ h = λ e. omega arith in
    rw (
      get_or-set_ne slots x 0 other,
      entries-set slots ((h + 1) % nproc) n i x storage (omega arith) (omega arith) (omega arith),
    )

-- Not every place is taken.
abbrev pub has_room : Queue → Bool
has_room q = q.empty || not (q.front == q.tail)

size-lt : (q : Queue) → IsQueue q → has_room q ≡ true → size q < nproc
size-lt q v room = ground arith

pub size-le : (q : Queue) → IsQueue q → size q ≤ nproc
size-le q v = ground arith

size-full : (q : Queue) → IsQueue q → has_room q ≡ false → size q ≡ nproc
size-full q v full = ground arith

tail-at : (q : Queue) → IsQueue q → has_room q ≡ true → q.tail ≡ (q.front + size q) % nproc
tail-at q v room = ground arith

-- What `push_queue` makes of a ring with room.
abbrev pub pushed : Queue → ℕ → Queue
pushed q x = record {
  slots = set q.slots q.tail x;
  front = q.front;
  tail = (q.tail + 1) % nproc;
  empty = false;
}

push_queue-room : (q : Queue) (x : ℕ) → has_room q ≡ true → push_queue q x ≡ some (pushed q x)
unfolding push_queue
push_queue-room q x room = ground arith

push_queue-full : (q : Queue) (x : ℕ) → has_room q ≡ false → push_queue q x ≡ none
unfolding push_queue
push_queue-full q x full = ground arith

pushed-IsQueue : (q : Queue) (x : ℕ) → IsQueue q → has_room q ≡ true → IsQueue (pushed q x)
pushed-IsQueue q x v room = record {
  storage = length-set q.slots q.tail x ∙ v.storage;
  front_in = v.front_in;
  tail_in = omega arith;
  empty_at = λ e. cc;
}

size-pushed : (q : Queue) (x : ℕ) → IsQueue q → has_room q ≡ true → size (pushed q x) ≡ suc (size q)
size-pushed q x v room = ground arith

contents-pushed :
    (q : Queue) (x : ℕ)
    → IsQueue q
    → has_room q ≡ true
    → contents (pushed q x) ≡ contents q ++ x ∷ []
contents-pushed q x v room =
    ap (entries (set q.slots q.tail x) q.front) (size-pushed q x v room)
    ∙ entries-set q.slots q.front (size q) q.tail x v.storage v.front_in (size-lt q v room)
        (tail-at q v room)

pub popped-IsQueue : (q : Queue) → IsQueue q → IsQueue (pop_queue q).0
unfolding pop_queue
popped-IsQueue q v = ground arith

size_of_ne_zero :
    (slots : List ℕ) (h n : ℕ)
    → n ≢ 0
    → entries slots h n ≡ get_or slots h 0 ∷ entries slots ((h + 1) % nproc) (n - 1)
size_of_ne_zero slots h zero p = absurd (p refl)
size_of_ne_zero slots h (suc n) p = ap (λ k. entries slots h (suc k)) (omega arith)

pop_queue-empty : (q : Queue) → q.empty ≡ true → pop_queue q ≡ (q, none)
unfolding pop_queue
pop_queue-empty q e = rw e

-- What `pop_queue` makes of a ring that is not empty.
abbrev popped : Queue → Queue
popped q =
    let front' = (q.front + 1) % nproc in
    record { slots = q.slots; front = front'; tail = q.tail; empty = front' == q.tail }

pop_queue-more :
    (q : Queue) → q.empty ≡ false → pop_queue q ≡ (popped q, some (get_or q.slots q.front 0))
unfolding pop_queue
pop_queue-more q e = rw e

size-popped :
    (q : Queue) → IsQueue q → q.empty ≡ false → (size (popped q) ≡ size q - 1) × (0 < size q)
size-popped q v e = ground arith

-- The queue that a ring stands for: a list of at most `nproc` tasks.
abbrev pub push_list : List ℕ → ℕ → Option (List ℕ)
push_list tasks x = if length tasks == nproc then none else some (tasks ++ x ∷ [])

abbrev pub pop_list : List ℕ → List ℕ × Option ℕ
pop_list [] = ([], none)
pop_list (x ∷ tasks) = (tasks, some x)

-- What a client sees of a ring.
abbrev pub view : Option Queue → Option (List ℕ)
view none = none
view (some q) = some (contents q)

-- In a ring that is in order, `push_queue` is the push of a queue of at most 512 tasks: it puts the task
-- behind those there are, and panics exactly where there are 512.
pub push_queue-refines :
    (q : Queue) (x : ℕ) → IsQueue q → view (push_queue q x) ≡ push_list (contents q) x
push_queue-refines q x v = elim (Bool-cases (has_room q)) [
  | inl room ↦
      let few : (length (contents q) == nproc) ≡ false =
        let below = size-lt q v room in let count = length-contents q in ground arith in
      rw (push_queue-room q x room, few) (ap some (contents-pushed q x v room))
  | inr full ↦
      let all : (length (contents q) == nproc) ≡ true =
        let most = size-full q v full in let count = length-contents q in ground arith in
      rw (push_queue-full q x full, all)
]

-- In a ring that is in order, `pop_queue` is the pop of a queue: it takes the first task, and gives NULL
-- exactly where there is none.
pub pop_queue-refines :
    (q : Queue) → IsQueue q → (contents (pop_queue q).0, (pop_queue q).1) ≡ pop_list (contents q)
pop_queue-refines q v = elim (Bool-cases q.empty) [
  | inl none_left ↦ rw (pop_queue-empty q none_left, none_left)
  | inr some_left ↦
      let (less, more) = size-popped q v some_left in
      rw (
        pop_queue-more q some_left,
        less,
        size_of_ne_zero q.slots q.front (size q) (λ z. omega arith),
      )
]

-- With fewer than `nproc` tasks a push succeeds.
pub push_queue-fits :
    (q : Queue) (x : ℕ)
    → IsQueue q
    → length (contents q) < nproc
    → (q' : Queue) × (push_queue q x ≡ some q') × IsQueue q' × (contents q' ≡ contents q ++ x ∷ [])
push_queue-fits q x v few = elim (Bool-cases (has_room q)) [
  | inl room ↦
      (pushed q x, push_queue-room q x room, pushed-IsQueue q x v room, contents-pushed q x v room)
  | inr full ↦ absurd (omega (arith, size-full q v full, length-contents q))
]

pub init_queue-IsQueue :
    (slots : List ℕ)
    → length slots ≡ queue_size
    → IsQueue (init_queue slots) × (contents (init_queue slots) ≡ [])
unfolding init_queue
init_queue-IsQueue slots storage = (
  record { storage = storage; front_in = omega arith; tail_in = omega arith; empty_at = λ e. refl },
  refl,
)
