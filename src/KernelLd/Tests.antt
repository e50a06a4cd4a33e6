-- ===== src/KernelLd/Tests.antt =====
-- A directory with two programs, as an input of the theorems.
use os_project_signal.Prelude.{String, List, [], ◌∷◌}

abbrev programs : List String
programs = "cat" ∷ "sigtest" ∷ []
