-- ===== src/LinkApp/Tests.antt =====
-- A directory with two programs, as an input of the theorems.
use os_project_signal.Prelude.{List, [], ◌∷◌}
use os_project_signal.LinkApp.{Directory}

abbrev two_programs : Directory
two_programs = record { listdir = "sigtest" ∷ "cat" ∷ []; getsize = λ name. 4096 }
