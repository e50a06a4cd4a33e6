-- ===== src/Gef/Settings.antt =====
-- The settings of scripts/gef.py: `GefSetting` and `GefSettingsManager`. A callback is told by what it
-- raises; what else it does is not seen here.
pub mod Access
mod Tests
use os_project_signal.Prelude.{
  ℕ, zero, suc, Bool, true, false, not, ◌&&◌, ◌||◌, Option, none, some, List, [], ◌∷◌, ◌++◌,
  if◌then◌else◌, String,
}
use os_project_signal.Prelude.Text.{str_eq}
use os_project_signal.Prelude.Result.{Error, value_error, key_error, Result, ok, err}

-- A function of `hooks`. `none` is an object that cannot be called.
abbrev pub ReadHook : Type 0
ReadHook = Option (Result (Unit {0}))

abbrev pub WriteHook : Type 0 → Type 0
WriteHook Value = Option (Value → Result (Unit {0}))

-- `type` converts a value, and `hooks` is a field for each way of access.
pub record GefSetting (Value : Type 0) : Type 0 where
  pub value : Value
  pub type : Value → Result Value
  pub description : String
  pub on_read : List (Result (Unit {0}))
  pub on_write : List (Value → Result (Unit {0}))

-- A loop that calls each function until one raises.
abbrev pub call_all {ℓ} : {A : Type ℓ} → (A → Result (Unit {0})) → List A → Result (Unit {0})
call_all call [] = ok tt
call_all call (f ∷ fs) = elim (call f) [ err e ↦ err e | ok done ↦ call_all call fs ]

-- The functions that can be called up to the first one that cannot, and whether that was reached.
abbrev pub callables {ℓ} : {A : Type ℓ} → List (Option A) → List A × Bool
callables [] = ([], true)
callables (none ∷ fs) = ([], false)
callables (some f ∷ fs) = (f ∷ (callables fs).0, (callables fs).1)

abbrev pub raised : Bool → Result (Unit {0})
raised true = ok tt
raised false = err value_error

-- `add_hook` for "on_read", "on_write" and any other text. The functions in front of one that cannot be
-- called are added before it raises.
unfoldable pub add_hook :
    {Value : Type 0}
    → String
    → List ReadHook
    → List (WriteHook Value)
    → GefSetting Value
    → GefSetting Value × Result (Unit {0})
add_hook access reads writes setting =
    if str_eq access "on_read"
    then (
      record setting { on_read = setting.on_read ++ (callables reads).0 },
      raised (callables reads).1,
    )
    else if str_eq access "on_write"
    then (
      record setting { on_write = setting.on_write ++ (callables writes).0 },
      raised (callables writes).1,
    )
    else (setting, err value_error)

-- A dict, in the order of its keys.
abbrev pub Settings : Type 0 → Type 0
Settings Value = List (String × GefSetting Value)

abbrev pub raw_entry : {Value : Type 0} → String → Settings Value → Option (GefSetting Value)
raw_entry name [] = none
raw_entry name (entry ∷ settings) =
    if str_eq entry.0 name then some entry.1 else raw_entry name settings

-- dict.__setitem__
abbrev pub store : {Value : Type 0} → String → GefSetting Value → Settings Value → Settings Value
store name setting [] = (name, setting) ∷ []
store name setting (entry ∷ settings) =
    if str_eq entry.0 name
    then (entry.0, setting) ∷ settings
    else entry ∷ store name setting settings

unfoldable pub get_item : {Value : Type 0} → String → Settings Value → Result Value
get_item name settings = elim (raw_entry name settings) [
  | none ↦ err key_error
  | some setting ↦ elim (call_all (λ f. f) setting.on_read) [
    | err e ↦ err e
    | ok done ↦ ok setting.value
  ]
]

-- How an assignment ends: an Exception with a text of its own, or one of the built-in classes.
pub data Stored : Type 0 where
  stored invalid_argument invalid_description : Stored
  raises : Error → Stored

abbrev pub stored_of : Result (Unit {0}) → Stored
stored_of (ok done) = stored
stored_of (err e) = raises e

-- `__setitem__` of a value that is no `GefSetting`. The hooks are given the value before it is
-- converted, and run when the setting has the new one.
unfoldable pub set_item :
    {Value : Type 0} → String → Value → Settings Value → Settings Value × Stored
set_item name value settings = elim (raw_entry name settings) [
  | none ↦ (settings, invalid_argument)
  | some setting ↦ elim (setting.type value) [
    | err e ↦ (settings, raises e)
    | ok converted ↦ (
      store name (record setting { value = converted }) settings,
      stored_of (call_all (λ f. f value) setting.on_write),
    )
  ]
]

-- `__setitem__` of a `GefSetting` for a key that is not there.
unfoldable pub add_item :
    {Value : Type 0} → String → GefSetting Value → Settings Value → Settings Value × Stored
add_item name setting settings =
    if str_eq setting.description ""
    then (settings, invalid_description)
    else (store name setting settings, stored_of (call_all (λ f. f setting.value) setting.on_write))

-- `__delitem__`
unfoldable pub del_item : {Value : Type 0} → String → Settings Value → Result (Settings Value)
del_item name [] = err key_error
del_item name (entry ∷ settings) =
    let rest = del_item name settings in
    if str_eq entry.0 name
    then ok settings
    else elim rest [ err e ↦ err e | ok others ↦ ok (entry ∷ others) ]
