-- ===== src/Gef/Elf/Reader.antt =====
-- `Elf.read`, `Elf.read_and_unpack` and `Elf.seek` of scripts/gef.py. The position of the open file
-- is told by the bytes behind it.
use os_project_signal.Prelude.{ℕ, List, length, take, drop, ◌==◌, if◌then◌else◌}
use os_project_signal.Prelude.Result.{Result, ok, err, struct_error}
use os_project_signal.Gef.Elf.Enums.{Endianness}
use os_project_signal.Gef.Pack.{value_of, ordered}

abbrev pub Reader {ℓ} : Type ℓ → Type ℓ
Reader A = List ℕ → Result (A × List ℕ)

infixl 5 ◌>>=◌ ◌>>◌
abbrev pub ◌>>=◌ {ℓ κ} : {A : Type ℓ} {B : Type κ} → Reader A → (A → Reader B) → Reader B
◌>>=◌ m f rest = elim (m rest) [ ok (a, rest') ↦ f a rest' | err e ↦ err e ]

abbrev pub ◌>>◌ {ℓ κ} : {A : Type ℓ} {B : Type κ} → Reader A → Reader B → Reader B
m >> k = m >>= λ _. k

abbrev pub pure {ℓ} : {A : Type ℓ} → A → Reader A
pure a rest = ok (a, rest)

abbrev pub lift {ℓ} : {A : Type ℓ} → Result A → Reader A
lift (ok a) rest = ok (a, rest)
lift (err e) rest = err e

-- self.fd.read(size): fewer bytes at the end of the file.
unfoldable pub read : ℕ → Reader (List ℕ)
read size rest = ok (take size rest, drop size rest)

-- self.fd.seek(off, 0), in the file `bytes`.
unfoldable pub seek : List ℕ → ℕ → Reader (Unit {0})
seek bytes off rest = ok (tt, drop off bytes)

-- One integer of the format: `width` bytes, unsigned. The formats begin with "<" or ">", so they have
-- no padding, and a tuple is read item by item; a short read raises in either case.
unfoldable pub read_uint : Endianness → ℕ → Reader ℕ
unfolding value_of
read_uint e width rest =
    let item = take width rest in
    if length item == width
    then ok (value_of (ordered e item), drop width rest)
    else err struct_error
