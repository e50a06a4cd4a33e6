-- ===== src/Kernel/Queue.antt =====
-- os/queue.c: the queue of tasks, a ring of pointers. A pointer to a process is its index in `pool`.
-- The lock is held from the start to the end of each operation, so it is left out.
pub mod Refine
use os_project_signal.Prelude.{
  ℕ, zero, suc, ◌+◌, ◌-◌, ◌%◌, Bool, true, false, not, ◌&&◌, Option, none, some, List, [], ◌∷◌, set,
  get_or, replicate, ◌==◌, if◌then◌else◌,
}

abbrev pub nproc : ℕ
nproc = 512

abbrev pub queue_size : ℕ
queue_size = 1024

-- `data` is the field `slots`; `empty` is 0 or 1.
pub record Queue : Type 0 where
  pub slots : List ℕ
  pub front : ℕ
  pub tail : ℕ
  pub empty : Bool

-- `slots` is what the array holds before.
unfoldable pub init_queue : List ℕ → Queue
init_queue slots = record { slots = slots; front = 0; tail = 0; empty = true }

-- `none` where it panics.
unfoldable pub push_queue : Queue → ℕ → Option Queue
push_queue q data' =
    if not q.empty && q.front == q.tail
    then none
    else some (record {
      slots = set q.slots q.tail data';
      front = q.front;
      tail = (q.tail + 1) % nproc;
      empty = false;
    })

-- NULL is `none`.
unfoldable pub pop_queue : Queue → Queue × Option ℕ
pop_queue q =
    if q.empty
    then (q, none)
    else (let front' = (q.front + 1) % nproc in
        (record q { front = front'; empty = front' == q.tail }, some (get_or q.slots q.front 0)))
