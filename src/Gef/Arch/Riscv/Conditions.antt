-- ===== src/Gef/Arch/Riscv/Conditions.antt =====
-- The branches and the returns of RISC-V.
use os_project_signal.Prelude.{
  ℕ, ◌*◌, ◌^◌, ◌<◌, ◌≡◌, ◌⊎◌, inl, inr, refl, String, Bool, not, true, false, ltb, ◌==◌, [], ◌∷◌,
  some, arith, ap, if◌then◌else◌,
}
use os_project_signal.Prelude.Int.{ℤ, pos, ltb_ℤ, eqb_ℤ, ◌-ℤ◌}
use os_project_signal.Prelude.Bits.{test_bit}
use os_project_signal.Prelude.Result.{Result, ok, map_ok}
use os_project_signal.Gef.Pack.{integer_of}
use os_project_signal.Gef.Arch.Instruction.{Instruction}
use os_project_signal.Gef.Arch.Target.{Target, register, to_unsigned_long}
use os_project_signal.Gef.Arch.Riscv.{long_to_twos_complement, is_branch_taken, is_ret, get_ra}

complement_32 : (n : ℕ) → n < 2 ^ 32 → long_to_twos_complement 4 (pos n) ≡ ok (integer_of 4 true n)
unfolding long_to_twos_complement integer_of test_bit ◌-ℤ◌
complement_32 n h = ground arith

complement_64 : (n : ℕ) → n < 2 ^ 64 → long_to_twos_complement 8 (pos n) ≡ ok (integer_of 8 true n)
unfolding long_to_twos_complement integer_of test_bit ◌-ℤ◌
complement_64 n h = ground arith

-- A value of a register that is 4 or 8 bytes wide becomes the signed integer with its pattern, the one
-- that `unpack` reads.
pub long_to_twos_complement-pos :
    (ptrsize n : ℕ)
    → (ptrsize ≡ 4) ⊎ (ptrsize ≡ 8)
    → n < 2 ^ (8 * ptrsize)
    → long_to_twos_complement ptrsize (pos n) ≡ ok (integer_of ptrsize true n)
long_to_twos_complement-pos ptrsize n (inl e) h =
    let fits : n < 2 ^ 32 = rw e at h in rw e (complement_32 n fits)
long_to_twos_complement-pos ptrsize n (inr e) h =
    let fits : n < 2 ^ 64 = rw e at h in rw e (complement_64 n fits)

-- The answer of a test, without its reason.
chosen :
    (c c' : Bool) (x y : String)
    → c ≡ c'
    → ok ((if◌then◌else◌ {A = Bool × String} c (true, x) (false, y)).0) ≡ ok c'
chosen true c' x y h = ap ok h
chosen false c' x y h = ap ok h

same-integer :
    (ptrsize a b : ℕ)
    → (ptrsize ≡ 4) ⊎ (ptrsize ≡ 8)
    → a < 2 ^ (8 * ptrsize)
    → b < 2 ^ (8 * ptrsize)
    → eqb_ℤ (integer_of ptrsize true a) (integer_of ptrsize true b) ≡ (a == b)
unfolding integer_of
same-integer ptrsize a b width ha hb = ground arith

module _ (t : Target) (insn : Instruction) (ptrsize a b : ℕ) (rs1 rs2 target : String)
    (width : (ptrsize ≡ 4) ⊎ (ptrsize ≡ 8)) (left_fits : a < 2 ^ (8 * ptrsize))
    (right_fits : b < 2 ^ (8 * ptrsize)) (left : register t rs1 ≡ ok (pos a))
    (right : register t rs2 ≡ ok (pos b)) where
  abbrev pub run : String → Result Bool
  run m =
      map_ok (λ r. r.0)
        (is_branch_taken t ptrsize
          (record insn { mnemonic = m; operands = rs1 ∷ rs2 ∷ target ∷ [] }))

  abbrev pub below : Bool
  below = ltb_ℤ (integer_of ptrsize true a) (integer_of ptrsize true b)

  -- On two registers "beq", "bne", "blt" and "bltu" are taken exactly when their relation holds, of
  -- signed integers or of patterns; "bge" and "bgeu" are taken exactly when it does not hold.
  pub register_branches :
      (run "beq" ≡ ok (a == b))
      × (run "bne" ≡ ok (not (a == b)))
      × (run "blt" ≡ ok below)
      × (run "bltu" ≡ ok (ltb a b))
      × (run "bge" ≡ ok below)
      × (run "bgeu" ≡ ok (ltb a b))
  unfolding is_branch_taken
  register_branches =
      let l = long_to_twos_complement-pos ptrsize a width left_fits in
      let r = long_to_twos_complement-pos ptrsize b width right_fits in
      let equal = same-integer ptrsize a b width left_fits right_fits in
      (
        rw (left, right, r, l) (chosen _ _ _ _ equal),
        rw (left, right, r, l) (chosen _ _ _ _ (ap not equal)),
        rw (left, right, r, l) (chosen _ _ _ _ refl),
        rw (left, right) (chosen _ _ _ _ (ground arith)),
        rw (left, right, r, l) (chosen _ _ _ _ refl),
        rw (left, right) (chosen _ _ _ _ (ground arith)),
      )

-- `jalr` is never taken for a return, with any operands, so the return address at `jalr zero, ra, 0`,
-- the long form of `ret`, is the one of the frame and not the value of the register "$ra".
pub jalr_lem :
    (t : Target) (ptrsize : ℕ) (insn : Instruction) (rd rs offset : String) (pc : ℤ)
    → t.older_pc ≡ some pc
    → (is_ret (record insn { mnemonic = "jalr"; operands = rd ∷ rs ∷ offset ∷ [] }) ≡ ok false)
      × (get_ra t ptrsize (record insn { mnemonic = "jalr"; operands = "zero" ∷ "ra" ∷ "0" ∷ [] })
          ≡ ok (some (to_unsigned_long ptrsize pc)))
unfolding is_ret get_ra
jalr_lem t ptrsize insn rd rs offset pc older = (ground arith, rw older refl)
