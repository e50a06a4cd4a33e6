-- ===== src/Gef/Arch/Target.antt =====
-- What GDB tells of the program under debug, and the reads of scripts/gef.py that rest on it.
pub mod Unsigned
use os_project_signal.Prelude.{
  ℕ, ◌-◌, ◌*◌, ◌%◌, ◌^◌, String, Bool, Option, List, get_elem?, if◌then◌else◌,
}
use os_project_signal.Prelude.Text.{lstrip}
use os_project_signal.Prelude.Int.{ℤ, pos, negsuc}
use os_project_signal.Prelude.Result.{Result, ok, err, gdb_error, index_error, or_raise}

-- GDB is not part of the repository: its answers are fields.
pub record Target : Type 0 where
  -- `is_alive()`
  pub alive : Bool
  -- `int(gdb.parse_and_eval(name))`
  pub evaluate : String → Result ℤ
  -- `int(gdb.selected_frame().read_register(name))`
  pub read_register : String → Result ℤ
  -- `dereference(addr)`: the pointer-sized value in memory, if it can be read
  pub dereference : ℤ → Option ℤ
  -- `gef.memory.read_integer(addr)`
  pub read_integer : ℤ → Result ℤ
  -- `frame.older().pc()`, if there is an older frame
  pub older_pc : Option ℤ

-- Only `gdb.error` is caught at the first chance.
abbrev pub second_chance : Result ℤ → Result ℤ → Result ℤ
second_chance (ok v) other = ok v
second_chance (err gdb_error) other = other
second_chance (err e) other = err e

-- `Architecture.register`. The cache in front of it returns what was read before.
unfoldable pub register : Target → String → Result ℤ
unfolding lstrip
register t name =
    if t.alive
    then second_chance (t.evaluate name) (t.read_register (lstrip b'$' name))
    else err gdb_error

-- operands[i]
unfoldable pub operand : List String → ℕ → Result String
operand operands i = or_raise (get_elem? operands i) index_error

-- `to_unsigned_long`, on a target whose pointers have `ptrsize` bytes
unfoldable pub to_unsigned_long : ℕ → ℤ → ℤ
to_unsigned_long ptrsize (pos n) = pos (n % 2 ^ (ptrsize * 8))
to_unsigned_long ptrsize (negsuc n) = pos (2 ^ (ptrsize * 8) - 1 - n % 2 ^ (ptrsize * 8))
