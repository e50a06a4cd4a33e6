-- ===== src/Prelude/Text.antt =====
-- Python's `str`: the tests and slices of ASCII text that the scripts use, and number formats.
pub use text.Mathlib.Text.{◌==◌ as str_eq, starts_with}
pub use text.Mathlib.TextEquality.{eq_iff}
use os_project_signal.Prelude.Tests.{ltb, leb, ◌==◌, if◌then◌else◌, Bool-cases}
use os_project_signal.Prelude.Lists.{get_or}
use mathlib.Core.Path.{◌≡◌}
use mathlib.Core.Logic.{inl, inr}
use os_project_signal.Prelude.Int.{ℤ, pos, negsuc}
use native.Mathlib.Omega.{arith}
use Prim.Native.Nat.{ℕ, zero, suc, ◌+◌, ◌*◌, ◌-◌, ◌/◌, ◌%◌}
use Prim.Native.String.{String, ◌++◌, count}
use mathlib.Core.Bool.{Bool, true, false, ◌&&◌, ◌||◌}
use mathlib.Core.Option.{Option, none, some}
use Prim.Native.Char.{code}
use mathlib.Core.List.{List, [], ◌∷◌}

-- s.endswith(t)
unfoldable pub ends_with : String → String → Bool
ends_with String.[] t = str_eq "" t
ends_with (String.◌∷◌ c s) t = str_eq (String.◌∷◌ c s) t || ends_with s t

-- s[1:]
abbrev pub tail : String → String
tail String.[] = ""
tail (String.◌∷◌ c s) = s

-- s[:-1]
unfoldable pub init : String → String
init String.[] = ""
init (String.◌∷◌ c String.[]) = ""
init (String.◌∷◌ c (String.◌∷◌ d s)) = String.◌∷◌ c (init (String.◌∷◌ d s))

-- s[-2:]
unfoldable pub last_two : String → String
last_two String.[] = ""
last_two (String.◌∷◌ c String.[]) = String.◌∷◌ c ""
last_two (String.◌∷◌ c (String.◌∷◌ d String.[])) = String.◌∷◌ c (String.◌∷◌ d "")
last_two (String.◌∷◌ c (String.◌∷◌ d (String.◌∷◌ e s))) = last_two (String.◌∷◌ d (String.◌∷◌ e s))

-- `sub in s`
unfoldable pub has_substring : String → String → Bool
has_substring String.[] t = str_eq "" t
has_substring (String.◌∷◌ c s) t = starts_with (String.◌∷◌ c s) t || has_substring s t

-- `s in (a, b, …)`, of strings
abbrev pub one_of : String → List String → Bool
one_of s [] = false
one_of s (t ∷ ts) = str_eq s t || one_of s ts

abbrev pub all_texts : (String → Bool) → List String → Bool
all_texts p [] = true
all_texts p (t ∷ ts) = p t && all_texts p ts

-- What holds of every text of a list holds of one that is among them.
pub one_of-all_texts :
    (p : String → Bool) (s : String) (ts : List String)
    → one_of s ts ≡ true
    → all_texts p ts ≡ true
    → p s ≡ true
one_of-all_texts p s [] h all = cc
one_of-all_texts p s (t ∷ ts) h all = elim (Bool-cases (str_eq s t)) [
  | inl same ↦ rw ((eq_iff s t).0 same) (ground arith)
  | inr differs ↦ one_of-all_texts p s ts (rw differs at h) (ground arith)
]

-- The text of an f-string from its parts.
abbrev pub concat : List String → String
concat [] = ""
concat (s ∷ ss) = s ++ concat ss

-- sep.join(parts)
abbrev pub join : String → List String → String
join sep [] = ""
join sep (s ∷ []) = s
join sep (s ∷ t ∷ ts) = s ++ sep ++ join sep (t ∷ ts)

abbrev pub digit : ℕ → String
digit n =
    get_or
      ("0" ∷ "1" ∷ "2" ∷ "3" ∷ "4" ∷ "5" ∷ "6" ∷ "7" ∷ "8" ∷ "9" ∷ "a" ∷ "b" ∷ "c" ∷ "d" ∷ "e" ∷ "f"
        ∷ [])
      n ""

abbrev pub digit_upper : ℕ → String
digit_upper n =
    get_or
      ("0" ∷ "1" ∷ "2" ∷ "3" ∷ "4" ∷ "5" ∷ "6" ∷ "7" ∷ "8" ∷ "9" ∷ "A" ∷ "B" ∷ "C" ∷ "D" ∷ "E" ∷ "F"
        ∷ [])
      n ""

-- The numeral of `n` in base `b`, in front of `acc`. `n / b < n`, so fuel `n + 1` suffices.
unfoldable pub numeral : (ℕ → String) → ℕ → ℕ → ℕ → String → String
numeral dig zero b n acc = acc
numeral dig (suc fuel) b n acc =
    let rest = numeral dig fuel b (n / b) (dig (n % b) ++ acc) in
    if ltb n b then dig n ++ acc else rest

-- f"{n:d}"
abbrev pub decimal : ℕ → String
decimal n = numeral digit (suc n) 10 n ""

abbrev pub decimal_ℤ : ℤ → String
decimal_ℤ (pos n) = decimal n
decimal_ℤ (negsuc n) = "-" ++ decimal (suc n)

-- f"{n:x}", f"{n:X}" and f"{n:b}"
abbrev pub hex : ℕ → String
hex n = numeral digit (suc n) 16 n ""

abbrev pub hex_upper : ℕ → String
hex_upper n = numeral digit_upper (suc n) 16 n ""

abbrev pub binary : ℕ → String
binary n = numeral digit (suc n) 2 n ""

-- f"{n:#x}"
abbrev pub hex_prefixed : ℕ → String
hex_prefixed n = "0x" ++ hex n

abbrev pub times : ℕ → String → String
times zero s = ""
times (suc n) s = s ++ times n s

-- s.rjust(w, fill) and s.ljust(w, fill), of a fill of one character
abbrev pub rjust : ℕ → String → String → String
rjust w fill s = times (w - count s) fill ++ s

abbrev pub ljust : ℕ → String → String → String
ljust w fill s = s ++ times (w - count s) fill

-- The value of a run of decimal digits, behind the digits read so far.
unfoldable pub digits_value : ℕ → String → Option ℕ
digits_value n String.[] = some n
digits_value n (String.◌∷◌ c s) =
    if leb 48 (code c) && leb (code c) 57 then digits_value (n * 10 + (code c - 48)) s else none

-- int(s), of a text without sign, space or underscore; `none` is ValueError
unfoldable pub parse_int : String → Option ℕ
unfolding digits_value
parse_int s = if str_eq s "" then none else digits_value 0 s

-- s.strip(), for blanks, and s.lstrip(c)
unfoldable pub lstrip : ℕ → String → String
lstrip b String.[] = ""
lstrip b (String.◌∷◌ c s) = if code c == b then lstrip b s else String.◌∷◌ c s

unfoldable pub all_are : ℕ → String → Bool
all_are b String.[] = true
all_are b (String.◌∷◌ c s) = (code c == b) && all_are b s

unfoldable pub rstrip : ℕ → String → String
unfolding all_are
rstrip b String.[] = ""
rstrip b (String.◌∷◌ c s) = if all_are b (String.◌∷◌ c s) then "" else String.◌∷◌ c (rstrip b s)

unfoldable pub strip : String → String
unfolding lstrip rstrip
strip s = rstrip b' ' (lstrip b' ' s)
