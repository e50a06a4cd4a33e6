-- ===== src/Gef/Settings/Tests.antt =====
-- A setting with a hook that refuses every value.
use os_project_signal.Prelude.{◌≡◌, refl, false, [], ◌∷◌, String}
use os_project_signal.Prelude.Text.{str_eq}
use os_project_signal.Prelude.Result.{value_error, ok, err}
use os_project_signal.Gef.Settings.{GefSetting, Settings, call_all, get_item, set_item, stored_of}
use os_project_signal.Gef.Settings.Access.{get_item-set_item}

abbrev folder : GefSetting String
folder = record {
  value = "/tmp/gef";
  type = λ v. ok v;
  description = "Directory to use for temporary/cache content";
  on_read = [];
  on_write = (λ v. err value_error) ∷ [];
}

abbrev settings : Settings String
settings = ("gef.tempdir", folder) ∷ []

get_item-set_item_example :
    (get_item "gef.tempdir" (set_item "gef.tempdir" "a b" settings).0 ≡ ok "a b")
    × ((set_item "gef.tempdir" "a b" settings).1
        ≡ stored_of (call_all (λ f. f "a b") folder.on_write))
    × ((other : String)
        → str_eq "gef.tempdir" other ≡ false
        → get_item other (set_item "gef.tempdir" "a b" settings).0 ≡ get_item other settings)
get_item-set_item_example =
    get_item-set_item "gef.tempdir" "a b" "a b" folder settings refl refl refl
