-- ===== src/KernelLd/Shape.antt =====
-- What the linker script is made of.
use Prim.Native.Char.{code}
use Prim.Native.String.{◌++◌ as append}
use os_project_signal.Prelude.{
  ℕ, zero, suc, ◌+◌, String, Option, none, some, List, [], ◌∷◌, ◌++◌, ◌==◌, if◌then◌else◌,
}
use os_project_signal.Prelude.Decimal.{number_at}

-- What stands behind `p` in a text that starts with it.
unfoldable pub behind : String → String → Option String
behind String.[] s = some s
behind (String.◌∷◌ c p) String.[] = none
behind (String.◌∷◌ c p) (String.◌∷◌ d s) =
    let rest = behind p s in if code c == code d then rest else none

abbrev pub number_of : Option String → Option ℕ
number_of none = none
number_of (some rest) = some (number_at 0 rest)

-- The number of the program whose section a text of the script places.
abbrev pub section_number : String → Option ℕ
section_number text = number_of (behind "        *(.data.app" text)

abbrev cons_number : Option ℕ → List ℕ → List ℕ
cons_number none l = l
cons_number (some n) l = n ∷ l

abbrev pub section_numbers : List String → List ℕ
section_numbers [] = []
section_numbers (text ∷ texts) = cons_number (section_number text) (section_numbers texts)

-- idx, idx + 1, …: `n` numbers.
abbrev pub count_up : ℕ → ℕ → List ℕ
count_up idx zero = []
count_up idx (suc n) = idx ∷ count_up (idx + 1) n
