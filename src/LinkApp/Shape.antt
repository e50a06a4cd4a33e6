-- ===== src/LinkApp/Shape.antt =====
-- What the assembly file is made of.
use mathlib.Core.List.{Perm, append_assoc}
use mathlib.Core.List.Perm
use Prim.Native.String.{◌++◌ as append}
use text.Mathlib.TextLemmas.{append_assoc as text_assoc}
use os_project_signal.Prelude.{refl, String, List, [], ◌∷◌, ◌++◌, map, Bool-cases, inl, inr}
use os_project_signal.Prelude.Text.{concat}
use os_project_signal.LinkApp.{target_dir, Directory, str_le, insert_sorted, sort}
use os_project_signal.LinkApp.Assembly.{
  user_apps, str_label, elf_label, Word, address, number, Statement, directive, place, quad,
  string_at, incbin_at,
}

insert_sorted-perm : (s : String) (ts : List String) → Perm (insert_sorted s ts) (s ∷ ts)
unfolding insert_sorted
insert_sorted-perm s [] = Perm.refl _
insert_sorted-perm s (t ∷ ts) = elim (Bool-cases (str_le s t)) [
  | inl le ↦ rw le (Perm.refl _)
  | inr gt ↦ rw gt (Perm.trans (Perm.cons t (insert_sorted-perm s ts)) (Perm.swap s t ts))
]

pub sort-perm : (ss : List String) → Perm (sort ss) ss
unfolding sort
sort-perm [] = Perm.refl _
sort-perm (s ∷ ss) = Perm.trans (insert_sorted-perm s (sort ss)) (Perm.cons s (sort-perm ss))

-- The path of a program.
abbrev pub path_of : String → String
path_of app = concat (target_dir ∷ app ∷ [])

-- the entry of a program in the table, and the null entry
abbrev pub entry_words : Directory → String → List Word
entry_words dir app =
    address (str_label app) ∷ address (elf_label app) ∷ number (dir.getsize (path_of app)) ∷ []

abbrev pub null_words : List Word
null_words = number 0 ∷ number 0 ∷ number 0 ∷ []

abbrev header_block : List Statement
header_block =
    directive "    .align 3"
    ∷ directive "    .section .rodata"
    ∷ directive "    .global user_apps"
    ∷ place user_apps
    ∷ []

abbrev entry_block : Directory → String → List Statement
entry_block dir app = map quad (entry_words dir app)

abbrev null_block : List Statement
null_block = map quad null_words

abbrev section_block : List Statement
section_block = directive "    .section .rodata.apps" ∷ []

abbrev contents_block : String → List Statement
contents_block app =
    string_at (str_label app) app
    ∷ directive ".align 3"
    ∷ incbin_at (elf_label app) target_dir app
    ∷ []

-- The statements of the file, write by write, of the programs `apps`.
program : Directory → List String → List (List Statement)
program dir apps =
    (header_block ∷ map (entry_block dir) apps)
    ++ (null_block ∷ section_block ∷ map contents_block apps)
