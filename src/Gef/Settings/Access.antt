-- ===== src/Gef/Settings/Access.antt =====
-- What an assignment to a setting changes.
use os_project_signal.Prelude.{
  ◌≡◌, refl, ap, inl, inr, true, false, Bool-cases, some, [], ◌∷◌, String, if◌then◌else◌,
}
use os_project_signal.Prelude.Text.{str_eq, eq_iff}
use os_project_signal.Prelude.Result.{ok}
use os_project_signal.Gef.Settings.{
  GefSetting, Settings, call_all, raw_entry, store, get_item, set_item, stored_of,
}

str_eq_refl : (a : String) → str_eq a a ≡ true
str_eq_refl a = (eq_iff a a).1 refl

raw_entry-store :
    {Value : Type 0} (name : String) (setting : GefSetting Value) (settings : Settings Value)
    → raw_entry name (store name setting settings) ≡ some setting
raw_entry-store name setting [] = rw (str_eq_refl name)
raw_entry-store name setting (entry ∷ settings) = elim (Bool-cases (str_eq entry.0 name)) [
  | inl same ↦ rw (same, same)
  | inr other ↦ rw (other, other) (raw_entry-store name setting settings)
]

raw_entry-store_other :
    {Value : Type 0} (name other : String) (setting : GefSetting Value) (settings : Settings Value)
    → str_eq name other ≡ false
    → raw_entry other (store name setting settings) ≡ raw_entry other settings
raw_entry-store_other name other setting [] differs = rw differs
raw_entry-store_other name other setting (entry ∷ settings) differs =
    elim (Bool-cases (str_eq entry.0 name)) [
      | inl same ↦
          let at_name : entry.0 ≡ name = (eq_iff entry.0 name).0 same in
          let differs' : str_eq entry.0 other ≡ false = rw at_name differs in rw (same, differs')
      | inr before ↦ rw before (
          ap (λ r. if str_eq entry.0 other then some entry.1 else r)
            (raw_entry-store_other name other setting settings differs))
    ]

-- A value that the type of a setting converts is the value that is read from then on, also where a
-- hook for writing raises and with it the assignment; every other setting reads as before. The hooks
-- for reading do not raise.
pub get_item-set_item :
    {Value : Type 0} (name : String) (value converted : Value) (setting : GefSetting Value)
    (settings : Settings Value)
    → raw_entry name settings ≡ some setting
    → setting.type value ≡ ok converted
    → call_all (λ f. f) setting.on_read ≡ ok tt
    → (get_item name (set_item name value settings).0 ≡ ok converted)
      × ((set_item name value settings).1 ≡ stored_of (call_all (λ f. f value) setting.on_write))
      × ((other : String)
          → str_eq name other ≡ false
          → get_item other (set_item name value settings).0 ≡ get_item other settings)
unfolding get_item set_item
get_item-set_item name value converted setting settings there converts reads =
    let setting' = record setting { value = converted } in
    (
      rw (set_item, there, converts, get_item, raw_entry-store name setting' settings, reads),
      rw (set_item, there, converts),
      λ other differs. rw (
        set_item,
        there,
        converts,
        get_item,
        raw_entry-store_other name other setting' settings differs,
      ),
    )
