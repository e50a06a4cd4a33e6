-- ===== src/Signal/Memory.antt =====
-- os/uaccess.c: copies between the kernel and the memory of a process.
pub mod Copies
use os_project_signal.Prelude.{
  ℕ, zero, suc, ◌+◌, ◌-◌, ◌*◌, ◌/◌, ◌%◌, ◌^◌, Bool, true, false, Option, none, some, List, [], ◌∷◌,
  ◌==◌, if◌then◌else◌,
}

-- `walkaddr` gives the physical page of a user page, `none` where it returns 0; `byte` is the
-- physical memory.
pub record Memory : Type 0 where
  pub walkaddr : ℕ → Option ℕ
  pub byte : ℕ → ℕ

abbrev pub pgsize : ℕ
pgsize = 4096

-- PGROUNDDOWN, of a uint64
abbrev pub pgrounddown : ℕ → ℕ
pgrounddown a = a / pgsize * pgsize

-- Both copies go page by page. A page is translated before any of its bytes is copied, and the bytes
-- of one page have one translation, so the copy is told byte by byte: it stops at the first byte
-- whose page is not there.
abbrev pub physical : Memory → ℕ → Option ℕ
physical m va = elim (m.walkaddr (pgrounddown va)) [
  | none ↦ none
  | some pa ↦ some (pa + va % pgsize)
]

abbrev pub store : (ℕ → ℕ) → ℕ → ℕ → ℕ → ℕ
store byte a b x = if x == a then b else byte x

-- The memory behind the copy, which an error leaves with the bytes before it, and whether the copy
-- succeeded.
unfoldable pub copy_to_user : Memory → ℕ → List ℕ → Memory × Bool
copy_to_user m dstva [] = (m, true)
copy_to_user m dstva (b ∷ src) = elim (physical m dstva) [
  | none ↦ (m, false)
  | some a ↦ copy_to_user (record m { byte = store m.byte a b }) ((dstva + 1) % 2 ^ 64) src
]

-- The bytes that were copied, and whether these are all.
unfoldable pub copy_from_user : Memory → ℕ → ℕ → List ℕ × Bool
copy_from_user m srcva zero = ([], true)
copy_from_user m srcva (suc len) = elim (physical m srcva) [
  | none ↦ ([], false)
  | some a ↦
      let (bytes, copied) = copy_from_user m ((srcva + 1) % 2 ^ 64) len in
      (m.byte a ∷ bytes, copied)
]
