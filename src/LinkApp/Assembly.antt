-- ===== src/LinkApp/Assembly.antt =====
-- The assembly that scripts/pack.py writes, as statements.
use mathlib.Core.List.{append_assoc}
use os_project_signal.Prelude.{ℕ, ◌≡◌, refl, sym, ap, String, List, [], ◌∷◌, ◌++◌, map}
use os_project_signal.Prelude.Text.{concat, decimal}
use Prim.Native.String.{◌++◌ as append}

pub data Label : Type 0 where
  user_apps : Label
  str_label elf_label : String → Label

-- A word of data: an address or a number.
pub data Word : Type 0 where
  address : Label → Word
  number : ℕ → Word

-- A line with no name and no number in it, a label alone, a word of data, or a label with the text or the
-- file that stands there. A file has a directory and a name.
pub data Statement : Type 0 where
  directive : String → Statement
  place : Label → Statement
  quad : Word → Statement
  string_at : Label → String → Statement
  incbin_at : Label → String → String → Statement

-- The texts stand in front of `rest`.
abbrev pub label_text : Label → String → String
label_text user_apps rest = append "user_apps" rest
label_text (str_label app) rest = append ".str_" (append app rest)
label_text (elf_label app) rest = append ".elf_" (append app rest)

abbrev pub word_text : Word → String → String
word_text (address l) rest = label_text l rest
word_text (number n) rest = append (decimal n) rest

abbrev pub statement_text : Statement → String → String
statement_text (directive line) rest = append line (append "\n" rest)
statement_text (place l) rest = label_text l (append ":\n" rest)
statement_text (quad w) rest = append "    .quad " (word_text w (append "\n" rest))
statement_text (string_at l s) rest =
    label_text l (append ":\n    .string \"" (append s (append "\"\n" rest)))
statement_text (incbin_at l dir name) rest =
    label_text l (append ":\n    .incbin \"" (append dir (append name (append "\"\n" rest))))

abbrev pub lines_text : List Statement → String
lines_text [] = ""
lines_text (s ∷ statements) = statement_text s (lines_text statements)

-- A write: an empty line and statements.
abbrev pub block_text : List Statement → String
block_text statements = append "\n" (lines_text statements)

abbrev pub flat_map {ℓ κ} : {A : Type ℓ} {B : Type κ} → (A → List B) → List A → List B
flat_map f [] = []
flat_map f (a ∷ l) = f a ++ flat_map f l

-- What the statements of all writes define, in order.
abbrev pub collect {ℓ} : {A : Type ℓ} → (Statement → List A) → List (List Statement) → List A
collect f blocks = flat_map (flat_map f) blocks

abbrev pub words_of : Statement → List Word
words_of (quad w) = w ∷ []
words_of s = []

abbrev pub labels_of : Statement → List Label
labels_of (place l) = l ∷ []
labels_of (string_at l s) = l ∷ []
labels_of (incbin_at l dir name) = l ∷ []
labels_of s = []

abbrev pub strings_of : Statement → List (Label × String)
strings_of (string_at l s) = (l, s) ∷ []
strings_of s = []

abbrev pub files_of : Statement → List (Label × String)
files_of (incbin_at l dir name) = (l, concat (dir ∷ name ∷ [])) ∷ []
files_of s = []

-- The labels whose addresses are among words.
abbrev pub addressed : Word → List Label
addressed (address l) = l ∷ []
addressed (number n) = []

pub map_append {ℓ κ} :
    {A : Type ℓ} {B : Type κ} (f : A → B) (l r : List A) → map f (l ++ r) ≡ map f l ++ map f r
map_append f [] r = refl
map_append f (a ∷ l) r = ap (λ t. f a ∷ t) (map_append f l r)

pub map-texts {ℓ κ μ} :
    {A : Type ℓ} {B : Type κ} {C : Type μ} (f : A → C) (h : B → C) (g : A → B) (l : List A)
    → ((a : A) → f a ≡ h (g a))
    → map f l ≡ map h (map g l)
map-texts f h g [] same = refl
map-texts f h g (a ∷ l) same = cc (same a, map-texts f h g l same)

pub flat_map-append {ℓ κ} :
    {A : Type ℓ} {B : Type κ} (f : A → List B) (l r : List A)
    → flat_map f (l ++ r) ≡ flat_map f l ++ flat_map f r
flat_map-append f [] r = refl
flat_map-append f (a ∷ l) r = rw (flat_map-append f l r) (sym (append_assoc (f a) _ _))

pub flat_map-map {ℓ κ μ} :
    {A : Type ℓ} {B : Type κ} {C : Type μ} (f : B → List C) (g : A → B) (l : List A)
    → flat_map f (map g l) ≡ flat_map (λ a. f (g a)) l
flat_map-map f g [] = refl
flat_map-map f g (a ∷ l) = ap (λ r. f (g a) ++ r) (flat_map-map f g l)

pub flat_map-nothing {ℓ κ} :
    {A : Type ℓ} {B : Type κ} (l : List A) → flat_map {B = B} (λ (a : A). []) l ≡ []
flat_map-nothing [] = refl
flat_map-nothing (a ∷ l) = flat_map-nothing l

pub flat_map-single {ℓ κ} :
    {A : Type ℓ} {B : Type κ} (g : A → B) (l : List A) → flat_map (λ a. g a ∷ []) l ≡ map g l
flat_map-single g [] = refl
flat_map-single g (a ∷ l) = ap (λ r. g a ∷ r) (flat_map-single g l)
