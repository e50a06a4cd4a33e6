-- ===== src/Signal/Memory/Copies.antt =====
-- Copies within one page: what is written is read again, and what is apart from it is not changed.
use native.Mathlib.Nat.{add_assoc}
use os_project_signal.Prelude.{
  ℕ, zero, suc, ◌+◌, ◌*◌, ◌/◌, ◌%◌, ◌^◌, ◌≤◌, ◌<◌, ◌≡◌, ◌≢◌, ◌⊎◌, refl, true, inl, inr, some, List,
  [], ◌∷◌, length, ◌∙◌, arith,
}
use os_project_signal.Signal.Memory.{Memory, pgsize, physical, store, copy_to_user, copy_from_user}

-- The bytes of a list from an address on, over what was there.
unfoldable pub write_at : (ℕ → ℕ) → ℕ → List ℕ → ℕ → ℕ
write_at byte a [] = byte
write_at byte a (b ∷ bytes) = write_at (store byte a b) (a + 1) bytes

unfoldable pub read_at : (ℕ → ℕ) → ℕ → ℕ → List ℕ
read_at byte a zero = []
read_at byte a (suc n) = byte a ∷ read_at byte (a + 1) n

store-other : (byte : ℕ → ℕ) (a b x : ℕ) → x ≢ a → store byte a b x ≡ byte x
store-other byte a b x h = ground arith

store-same : (byte : ℕ → ℕ) (a b : ℕ) → store byte a b a ≡ b
store-same byte a b = ground arith

write_at-other :
    (byte : ℕ → ℕ) (a : ℕ) (bytes : List ℕ) (x : ℕ)
    → (x < a) ⊎ (a + length bytes ≤ x)
    → write_at byte a bytes x ≡ byte x
unfolding write_at
write_at-other byte a [] x h = refl
write_at-other byte a (b ∷ bytes) x h = elim h [
  | inl before ↦
      write_at-other (store byte a b) (a + 1) bytes x (inl (omega arith))
      ∙ store-other byte a b x (λ e. omega arith)
  | inr behind ↦
      write_at-other (store byte a b) (a + 1) bytes x (inr (omega arith))
      ∙ store-other byte a b x (λ e. omega arith)
]

pub read_at-write_at :
    (byte : ℕ → ℕ) (a : ℕ) (bytes : List ℕ)
    → read_at (write_at byte a bytes) a (length bytes) ≡ bytes
unfolding read_at write_at
read_at-write_at byte a [] = refl
read_at-write_at byte a (b ∷ bytes) =
    rw (write_at-other (store byte a b) (a + 1) bytes a (inl (omega arith)))
      (rw (read_at-write_at (store byte a b) (a + 1) bytes) (rw (store-same byte a b)))

-- A read does not see a write apart from it.
pub read_at-apart :
    (byte : ℕ → ℕ) (a n c : ℕ) (bytes : List ℕ)
    → (c + length bytes ≤ a) ⊎ (a + n ≤ c)
    → read_at (write_at byte c bytes) a n ≡ read_at byte a n
unfolding read_at
read_at-apart byte a zero c bytes h = refl
read_at-apart byte a (suc n) c bytes h = elim h [
  | inl behind ↦ rw (
    write_at-other byte c bytes a (inr behind),
    read_at-apart byte (a + 1) n c bytes (inl (omega arith)),
  )
  | inr before ↦ rw (
    write_at-other byte c bytes a (inl (omega arith)),
    read_at-apart byte (a + 1) n c bytes (inr (omega arith)),
  )
]

module _ (page offset : ℕ) (aligned : page % pgsize ≡ 0) (high : page + pgsize < 2 ^ 64)
    (fits : offset < pgsize) where
  round-lem : (page + offset) / 4096 * 4096 ≡ page
  round-lem = omega arith

  rest-lem : (page + offset) % 4096 ≡ offset
  rest-lem = omega arith

  step-lem : (page + offset + 1) % 2 ^ 64 ≡ page + (offset + 1)
  step-lem = omega arith

physical-page :
    (m : Memory) (page pa offset : ℕ)
    → page % pgsize ≡ 0
    → page + pgsize < 2 ^ 64
    → offset < pgsize
    → m.walkaddr page ≡ some pa
    → physical m (page + offset) ≡ some (pa + offset)
physical-page m page pa offset aligned high fits there = rw (
  physical,
  round-lem page offset aligned high fits,
  there,
  rest-lem page offset aligned high fits,
)

-- A copy to a range of one page that is there writes its bytes.
pub copy_to_user-page :
    (m : Memory) (page pa offset : ℕ) (bytes : List ℕ)
    → page % pgsize ≡ 0
    → page + pgsize < 2 ^ 64
    → offset + length bytes ≤ pgsize
    → m.walkaddr page ≡ some pa
    → copy_to_user m (page + offset) bytes
      ≡ (record m { byte = write_at m.byte (pa + offset) bytes }, true)
unfolding copy_to_user write_at
copy_to_user-page m page pa offset [] aligned high fits there = refl
copy_to_user-page m page pa offset (b ∷ bytes) aligned high fits there =
    let below : offset < pgsize = omega arith in
    rw (copy_to_user, physical-page m page pa offset aligned high below there)
      (rw (step-lem page offset aligned high below) (
        copy_to_user-page (record m { byte = store m.byte (pa + offset) b }) page pa (offset + 1)
          bytes aligned high (omega arith) there
        ∙ rw (add_assoc pa offset 1)))

pub copy_from_user-page :
    (m : Memory) (page pa offset n : ℕ)
    → page % pgsize ≡ 0
    → page + pgsize < 2 ^ 64
    → offset + n ≤ pgsize
    → m.walkaddr page ≡ some pa
    → copy_from_user m (page + offset) n ≡ (read_at m.byte (pa + offset) n, true)
unfolding copy_from_user read_at
copy_from_user-page m page pa offset zero aligned high fits there = refl
copy_from_user-page m page pa offset (suc n) aligned high fits there =
    let below : offset < pgsize = omega arith in
    rw (copy_from_user, physical-page m page pa offset aligned high below there)
      (rw (
        step-lem page offset aligned high below,
        copy_from_user-page m page pa (offset + 1) n aligned high (omega arith) there,
        add_assoc pa offset 1,
      ))
