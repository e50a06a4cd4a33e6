-- ===== src/Gef/Permission.antt =====
-- `class Permission` of scripts/gef.py, an `enum.Flag` of three bits, by its value.
pub mod RoundTrip
use Prim.Native.Char.{code}
use os_project_signal.Prelude.{
  ℕ, ◌+◌, String, Bool, false, ◌||◌, List, [], ◌∷◌, ◌==◌, if◌then◌else◌,
}
use os_project_signal.Prelude.Result.{Result, ok, err, index_error, ◌>>=◌}
use os_project_signal.Prelude.Text.{concat, has_substring}

-- A member or a union of members: which of EXECUTE = 1, WRITE = 2 and READ = 4 it holds.
pub record Permission : Type 0 where
  pub execute : Bool
  pub write : Bool
  pub read : Bool

abbrev pub no_permission : Permission
no_permission = record { execute = false; write = false; read = false }

-- `.value`
abbrev pub value : Permission → ℕ
value p = (if p.execute then 1 else 0) + (if p.write then 2 else 0) + (if p.read then 4 else 0)

-- perm |= …
abbrev pub add_execute : Bool → Permission → Permission
add_execute b p = record p { execute = p.execute || b }

abbrev pub add_write : Bool → Permission → Permission
add_write b p = record p { write = p.write || b }

abbrev pub add_read : Bool → Permission → Permission
add_read b p = record p { read = p.read || b }

-- `Permission.__str__`
unfoldable pub to_text : Permission → String
to_text p = concat (
    (if p.read then "r" else "-")
    ∷ (if p.write then "w" else "-")
    ∷ (if p.execute then "x" else "-")
    ∷ [])

unfoldable pub from_info_sections : List String → Permission → Permission
unfolding has_substring
from_info_sections [] perm = perm
from_info_sections (arg ∷ args) perm = from_info_sections args (
    add_execute (has_substring arg "CODE")
      (add_write (has_substring arg "DATA") (add_read (has_substring arg "READONLY") perm)))

-- perm_str[i]
unfoldable pub char_of : String → ℕ → Result ℕ
char_of String.[] i = err index_error
char_of (String.◌∷◌ c s) ℕ.zero = ok (code c)
char_of (String.◌∷◌ c s) (ℕ.suc i) = char_of s i

unfoldable pub from_process_maps : String → Result Permission
unfolding char_of
from_process_maps perm_str = do
  r ← char_of perm_str 0
  w ← char_of perm_str 1
  x ← char_of perm_str 2
  ok (add_execute (x == b'x') (add_write (w == b'w') (add_read (r == b'r') no_permission)))

unfoldable pub from_monitor_info_mem : String → Result Permission
unfolding char_of
from_monitor_info_mem perm_str = do
  r ← char_of perm_str 1
  w ← char_of perm_str 2
  ok (add_write (w == b'w') (add_read (r == b'r') no_permission))

unfoldable pub from_info_mem : String → Permission
unfolding has_substring
from_info_mem perm_str =
    add_execute (has_substring perm_str "x")
      (add_write (has_substring perm_str "w") (add_read (has_substring perm_str "r") no_permission))
