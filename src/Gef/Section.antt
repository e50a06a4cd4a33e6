-- ===== src/Gef/Section.antt =====
-- `class Section`, `class Address` and the look-up of an address in the memory map of
-- scripts/gef.py.
pub mod Lookup
use os_project_signal.Prelude.{
  ℕ, String, Bool, true, false, not, ◌&&◌, ◌||◌, Option, none, some, List, [], ◌∷◌, min, max, ltb,
  leb, ◌==◌, if◌then◌else◌,
}
use os_project_signal.Prelude.Int.{ℤ, sub_ℕ, eqb_ℤ}
use os_project_signal.Prelude.Text.{str_eq, has_substring, concat, decimal, hex_prefixed, numeral}
use os_project_signal.Gef.Permission.{Permission, value, to_text as perm_text}
use os_project_signal.Gef.Address.{align_address, format_address, is_in_x86_kernel}

pub record Section : Type 0 where
  pub page_start : ℕ
  pub page_end : ℕ
  pub offset : ℕ
  pub permission : Permission
  pub inode : ℕ
  pub path : String

-- `flag != 0`: an `enum.Flag` is no number, so it differs from every number.
abbrev flag_differs_from_int : Permission → ℕ → Bool
flag_differs_from_int p n = true

abbrev only_read : Permission → Permission
only_read p = record { execute = false; write = false; read = p.read }

abbrev only_write : Permission → Permission
only_write p = record { execute = false; write = p.write; read = false }

abbrev only_execute : Permission → Permission
only_execute p = record { execute = p.execute; write = false; read = false }

unfoldable pub is_readable : Section → Bool
is_readable s = flag_differs_from_int (only_read s.permission) 0

unfoldable pub is_writable : Section → Bool
is_writable s = flag_differs_from_int (only_write s.permission) 0

unfoldable pub is_executable : Section → Bool
is_executable s = flag_differs_from_int (only_execute s.permission) 0

unfoldable pub size : Section → ℤ
size s = sub_ℕ s.page_end s.page_start

-- `Section.realpath`; `remote` is the process number of a remote session.
unfoldable pub realpath : Option ℕ → Section → String
unfolding numeral
realpath none s = s.path
realpath (some remote) s = concat ("/tmp/gef/" ∷ decimal remote ∷ "/" ∷ s.path ∷ [])

unfoldable pub to_text : Section → String
unfolding perm_text numeral
to_text s = concat (
    "Section(start="
    ∷ hex_prefixed s.page_start
    ∷ ", end="
    ∷ hex_prefixed s.page_end
    ∷ ", perm="
    ∷ perm_text s.permission
    ∷ ", file="
    ∷ s.path
    ∷ ")"
    ∷ [])

-- `Section.__eq__`, with another section or with None.
unfoldable pub equals : Section → Option Section → Bool
unfolding size
equals s none = false
equals s (some other) =
    s.page_start == other.page_start
    && eqb_ℤ (size s) (size other)
    && value s.permission == value other.permission
    && str_eq s.path other.path

unfoldable pub overlaps : Section → Section → Bool
overlaps s other = leb (max s.page_start other.page_start) (min s.page_end other.page_end)

unfoldable pub contains : Section → ℕ → Bool
contains s addr = leb s.page_start addr && ltb addr s.page_end

pub record Zone : Type 0 where
  pub name : String
  pub zone_start : ℕ
  pub zone_end : ℕ
  pub filename : String

pub record Address : Type 0 where
  pub value : ℕ
  pub section : Option Section
  pub info : Option Zone

abbrev path_is : Option Section → String → Bool
path_is none path = false
path_is (some s) path = str_eq path s.path

abbrev in_executable_of : Option Section → Option String → Bool
in_executable_of none filepath = false
in_executable_of (some s) none = false
in_executable_of (some s) (some filepath) = str_eq filepath s.path && is_executable s

abbrev named_text : Option Zone → Bool
named_text none = false
named_text (some zone) = has_substring zone.name ".text"

-- `get_filepath()` is an argument.
unfoldable pub is_in_text_segment : Option String → Address → Bool
unfolding has_substring is_executable
is_in_text_segment filepath a = named_text a.info || in_executable_of a.section filepath

unfoldable pub is_in_stack_segment : Address → Bool
is_in_stack_segment a = path_is a.section "[stack]"

unfoldable pub is_in_heap_segment : Address → Bool
is_in_heap_segment a = path_is a.section "[heap]"

-- The colour theme and `Color.colorify`.
pub record Theme : Type 0 where
  pub address_code : String
  pub address_stack : String
  pub address_heap : String
  pub colorify : String → String → String

unfoldable pub address_text : Theme → ℕ → Option String → Address → String
unfolding is_in_text_segment is_in_heap_segment is_in_stack_segment format_address
address_text theme ptrsize filepath a =
    let value = format_address ptrsize a.value in
    if is_in_text_segment filepath a
    then theme.colorify value theme.address_code
    else if is_in_heap_segment a
    then theme.colorify value theme.address_heap
    else if is_in_stack_segment a
    then theme.colorify value theme.address_stack
    else value

-- `Address.dereference`; the argument is what GDB reads.
unfoldable pub dereference : (ℕ → Option ℤ) → ℕ → Address → Option ℤ
unfolding align_address
dereference memory ptrsize a = memory (align_address ptrsize a.value)

-- `Address.valid`, over `gef.memory.maps`.
unfoldable pub valid : List Section → ℕ → Bool
unfolding contains
valid [] value = false
valid (s ∷ maps) value = contains s value || valid maps value

find_section : List Section → ℕ → Option Section
find_section [] address = none
find_section (s ∷ maps) address =
    if leb s.page_start address && ltb address s.page_end then some s else find_section maps address

-- `process_lookup_address`, in a program that is alive or not, on an x86 target or another.
unfoldable pub process_lookup_address : Bool → Bool → ℕ → List Section → ℕ → Option Section
unfolding find_section is_in_x86_kernel
process_lookup_address alive is_x86 ptrsize maps address =
    if not alive
    then none
    else if is_x86 && is_in_x86_kernel ptrsize address
    then none
    else find_section maps address
