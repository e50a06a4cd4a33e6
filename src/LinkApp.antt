-- ===== src/LinkApp.antt =====
-- scripts/pack.py: writes os/link_app.S, the table of the user programs and their contents.
pub mod Assembly
pub mod Shape
mod Tests
use os_project_signal.Prelude.{
  ℕ, ◌+◌, String, Bool, true, false, List, [], ◌∷◌, ◌++◌, if◌then◌else◌,
}
use os_project_signal.Prelude.Text.{concat, decimal, numeral}
use Prim.Native.String.{compare}
use Prim.Native.Nat.{Ordering}

abbrev pub target_dir : String
target_dir = "./user/build/stripped/"

-- What `os.listdir` and `os.path.getsize` tell of the directory of programs.
pub record Directory : Type 0 where
  pub listdir : List String
  pub getsize : String → ℕ

-- s <= t, by code points
abbrev pub str_le : String → String → Bool
str_le s t = elim (compare s t) [ Ordering.gt ↦ false | _ ↦ true ]

-- `list.sort`, of strings: names that compare equal are the same name, so any sorting procedure has
-- this result.
unfoldable pub insert_sorted : String → List String → List String
insert_sorted s [] = s ∷ []
insert_sorted s (t ∷ ts) = if str_le s t then s ∷ t ∷ ts else t ∷ insert_sorted s ts

unfoldable pub sort : List String → List String
unfolding insert_sorted
sort [] = []
sort (s ∷ ss) = insert_sorted s (sort ss)

abbrev pub header : String
header = concat (
    "\n" ∷ "    .align 3\n" ∷ "    .section .rodata\n" ∷ "    .global user_apps\n" ∷ "user_apps:\n"
    ∷ [])

-- the write of the first loop
unfoldable pub table_entry : Directory → String → String
unfolding numeral
table_entry dir app = concat (
    "\n    .quad .str_"
    ∷ app
    ∷ "\n    .quad .elf_"
    ∷ app
    ∷ "\n    .quad "
    ∷ decimal (dir.getsize (concat (target_dir ∷ app ∷ [])))
    ∷ "\n"
    ∷ [])

abbrev pub null_entry : String
null_entry = "\n    .quad 0\n    .quad 0\n    .quad 0\n"

abbrev pub apps_section : String
apps_section = "\n    .section .rodata.apps\n"

-- the write of the second loop
unfoldable pub app_contents : String → String
app_contents app = concat (
    "\n.str_" ∷ app ∷ ":\n    .string \"" ∷ app ∷ "\"\n.align 3\n.elf_" ∷ app ∷ ":\n    .incbin \""
    ∷ target_dir ∷ app ∷ "\"\n" ∷ [])

-- for app in apps: f.write(text(app)), behind what has been written
unfoldable pub write_each : (String → String) → List String → List String → List String
write_each text [] written = written
write_each text (app ∷ apps) written = write_each text apps (written ++ text app ∷ [])

-- The texts that the script writes to os/link_app.S, in order.
unfoldable pub write_table : Directory → List String
unfolding sort write_each table_entry app_contents
write_table dir =
    let apps = sort dir.listdir in
    let table = write_each (table_entry dir) apps (header ∷ []) in
    write_each app_contents apps (table ++ null_entry ∷ apps_section ∷ [])
