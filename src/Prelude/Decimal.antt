-- ===== src/Prelude/Decimal.antt =====
-- Reading a decimal number back from a text.
use os_project_signal.Prelude.Text.{digit, numeral}
use os_project_signal.Prelude.Tests.{leb, ltb, if◌then◌else◌, Bool-cases}
use text.Mathlib.TextLemmas.{append_assoc, cons-append, nil-append}
use native.Mathlib.Omega.{arith}
use Prim.Native.Nat.{ℕ, zero, suc, ◌+◌, ◌*◌, ◌-◌, ◌/◌, ◌%◌, ◌<◌}
use Prim.Native.String.{String, ◌++◌}
use Prim.Native.Char.{Char, code}
use mathlib.Core.Bool.{true, ◌&&◌}
use mathlib.Core.Logic.{inl, inr}
use mathlib.Core.Path.{◌≡◌, refl, ap, ◌∙◌}

-- The number that the digits in front of a text are, behind those read so far.
unfoldable pub number_at : ℕ → String → ℕ
number_at m String.[] = m
number_at m (String.◌∷◌ c s) =
    let rest = number_at (m * 10 + (code c - 48)) s in
    if leb 48 (code c) && leb (code c) 57 then rest else m

number_at-cons :
    (c : Char) (m : ℕ) (s : String)
    → (leb 48 (code c) && leb (code c) 57) ≡ true
    → number_at m (String.◌∷◌ c "" ++ s) ≡ number_at (m * 10 + (code c - 48)) s
unfolding number_at
number_at-cons c m s h = ap (number_at m) (cons-append c "" s) ∙ rw (h, nil-append s) refl

number_at-digit :
    (n m : ℕ) (s : String) → n < 10 → number_at m (digit n ++ s) ≡ number_at (m * 10 + n) s
number_at-digit zero m s h = number_at-cons "0" m s refl
number_at-digit (suc zero) m s h = number_at-cons "1" m s refl
number_at-digit (suc (suc zero)) m s h = number_at-cons "2" m s refl
number_at-digit (suc (suc (suc zero))) m s h = number_at-cons "3" m s refl
number_at-digit (suc (suc (suc (suc zero)))) m s h = number_at-cons "4" m s refl
number_at-digit (suc (suc (suc (suc (suc zero))))) m s h = number_at-cons "5" m s refl
number_at-digit (suc (suc (suc (suc (suc (suc zero)))))) m s h = number_at-cons "6" m s refl
number_at-digit (suc (suc (suc (suc (suc (suc (suc zero))))))) m s h = number_at-cons "7" m s refl
number_at-digit (suc (suc (suc (suc (suc (suc (suc (suc zero)))))))) m s h =
    number_at-cons "8" m s refl
number_at-digit (suc (suc (suc (suc (suc (suc (suc (suc (suc zero))))))))) m s h =
    number_at-cons "9" m s refl
number_at-digit (suc (suc (suc (suc (suc (suc (suc (suc (suc (suc n)))))))))) m s h =
    absurd (omega arith)

-- A numeral with enough fuel reads back, in front of any text.
pub number_at-numeral :
    (fuel n : ℕ) (acc rest : String)
    → n < fuel
    → number_at 0 (numeral digit fuel 10 n acc ++ rest) ≡ number_at n (acc ++ rest)
unfolding numeral
number_at-numeral zero n acc rest h = absurd (omega arith)
number_at-numeral (suc fuel) n acc rest h = elim (Bool-cases (ltb n 10)) [
  | inl small ↦ rw small (
      ap (number_at 0) (append_assoc (digit n) acc rest)
      ∙ number_at-digit n 0 (acc ++ rest) (ground arith)
      ∙ ap (λ k. number_at k (acc ++ rest)) (omega arith))
  | inr large ↦
      let split : n / 10 * 10 + n % 10 ≡ n = omega arith in
      rw large (
        number_at-numeral fuel (n / 10) (digit (n % 10) ++ acc) rest (ground arith)
        ∙ ap (number_at (n / 10)) (append_assoc (digit (n % 10)) acc rest)
        ∙ number_at-digit (n % 10) (n / 10) (acc ++ rest) (omega arith)
        ∙ ap (λ k. number_at k (acc ++ rest)) split)
]
