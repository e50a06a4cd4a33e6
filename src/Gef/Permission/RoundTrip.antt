-- ===== src/Gef/Permission/RoundTrip.antt =====
-- The texts of permissions, read back.
use os_project_signal.Prelude.{◌≡◌, refl, Bool, true, false, arith}
use os_project_signal.Prelude.Result.{ok}
use os_project_signal.Gef.Permission.{Permission, value, to_text, from_process_maps, from_info_mem}

-- a permission from its three bits
abbrev bits : Bool → Bool → Bool → Permission
bits x w r = record { execute = x; write = w; read = r }

from_process_maps-bits : (x w r : Bool) → from_process_maps (to_text (bits x w r)) ≡ ok (bits x w r)
unfolding from_process_maps to_text
from_process_maps-bits true true true = refl
from_process_maps-bits true true false = refl
from_process_maps-bits true false true = refl
from_process_maps-bits true false false = refl
from_process_maps-bits false true true = refl
from_process_maps-bits false true false = refl
from_process_maps-bits false false true = refl
from_process_maps-bits false false false = refl

from_info_mem-bits : (x w r : Bool) → from_info_mem (to_text (bits x w r)) ≡ bits x w r
unfolding from_info_mem to_text
from_info_mem-bits true true true = refl
from_info_mem-bits true true false = refl
from_info_mem-bits true false true = refl
from_info_mem-bits true false false = refl
from_info_mem-bits false true true = refl
from_info_mem-bits false true false = refl
from_info_mem-bits false false true = refl
from_info_mem-bits false false false = refl

-- Both readers of a text of the form "rwx", the one of /proc/…/maps and the one of `info mem`, give
-- back the permission that `__str__` wrote.
pub from_text-to_text :
    (p : Permission) → (from_process_maps (to_text p) ≡ ok p) × (from_info_mem (to_text p) ≡ p)
from_text-to_text p =
    (from_process_maps-bits p.execute p.write p.read, from_info_mem-bits p.execute p.write p.read)

value-bits :
    (x w r x' w' r' : Bool)
    → value (bits x w r) ≡ value (bits x' w' r')
    → bits x w r ≡ bits x' w' r'
value-bits x w r x' w' r' h = ground arith

-- The value of a permission tells it: two permissions with one value are the same.
pub value-injective : (p q : Permission) → value p ≡ value q → p ≡ q
value-injective p q = value-bits p.execute p.write p.read q.execute q.write q.read
