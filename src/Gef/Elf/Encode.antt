-- ===== src/Gef/Elf/Encode.antt =====
-- The bytes of an integer in a file, and what the reader makes of them.
use os_project_signal.Prelude.{
  ℕ, zero, suc, ◌*◌, ◌^◌, ◌<◌, ◌≡◌, refl, List, [], ◌∷◌, ◌++◌, length, take, drop, arith, All, ◌≢◌,
}
use os_project_signal.Prelude.Result.{Result, ok}
use os_project_signal.Gef.Elf.Enums.{Endianness}
use os_project_signal.Gef.Elf.Reader.{Reader, read_uint, lift, ◌>>=◌}
use os_project_signal.Gef.Elf.Shdr.{read_name}
use os_project_signal.Gef.Pack.{bytes_of, value_of, ordered}
use os_project_signal.Gef.Pack.RoundTrip.{
  length-bytes_of, value_of-bytes_of, length-ordered, ordered-ordered, pow_bytes,
}

-- The `width` bytes of `n` in the order `e`, in front of `rest`.
unfoldable pub put : Endianness → ℕ → ℕ → List ℕ → List ℕ
unfolding bytes_of
put e width n rest = ordered e (bytes_of width n) ++ rest

take-length_append : (xs ys : List ℕ) → take (length xs) (xs ++ ys) ≡ xs
take-length_append [] ys = refl
take-length_append (x ∷ xs) ys = rw (take-length_append xs ys)

drop-length_append : (xs ys : List ℕ) → drop (length xs) (xs ++ ys) ≡ ys
drop-length_append [] ys = refl
drop-length_append (x ∷ xs) ys = drop-length_append xs ys

read-block :
    (e : Endianness) (block rest : List ℕ)
    → read_uint e (length block) (block ++ rest) ≡ ok (value_of (ordered e block), rest)
unfolding read_uint
read-block e block rest =
    rw (take-length_append block rest, drop-length_append block rest) (ground arith)

pub read_uint-put :
    (e : Endianness) (width n : ℕ) (rest : List ℕ)
    → n < 2 ^ (8 * width)
    → read_uint e width (put e width n rest) ≡ ok (n, rest)
unfolding put
read_uint-put e width n rest h =
    let size : length (ordered e (bytes_of width n)) ≡ width =
      rw (length-ordered e (bytes_of width n)) (length-bytes_of width n) in
    let block = read-block e (ordered e (bytes_of width n)) rest in
    rw (size, ordered-ordered, value_of-bytes_of width n (rw (← pow_bytes width) h)) at block

-- A reader that begins with an integer, on bytes that begin with one.
pub then_uint {ℓ} :
    {A : Type ℓ} (e : Endianness) (width n : ℕ) (f : ℕ → Reader A) {rest : List ℕ}
    {r : Result (A × List ℕ)}
    → n < 2 ^ (8 * width)
    → f n rest ≡ r
    → (read_uint e width >>= f) (put e width n rest) ≡ r
then_uint e width n f {rest} h next = rw (read_uint-put e width n rest h, ◌>>=◌) next

pub take-block :
    (size : ℕ) (block rest : List ℕ) → length block ≡ size → take size (block ++ rest) ≡ block
take-block size block rest fits = rw (← fits) (take-length_append block rest)

pub drop-block :
    (size : ℕ) (block rest : List ℕ) → length block ≡ size → drop size (block ++ rest) ≡ rest
drop-block size block rest fits = rw (← fits) (drop-length_append block rest)

-- A reader whose first part returned `b`.
pub then_ok {ℓ κ} :
    {B : Type κ} {A : Type ℓ} (m : Reader B) {b : B} {before after : List ℕ} (f : B → Reader A)
    {r : Result (A × List ℕ)}
    → m before ≡ ok (b, after)
    → f b after ≡ r
    → (m >>= f) before ≡ r
then_ok m f h next = rw (h, ◌>>=◌) next

-- A step that does not read.
pub then_lift {ℓ κ} :
    {B : Type κ} {A : Type ℓ} {m : Result B} {b : B} (f : B → Reader A) {rest : List ℕ}
    {r : Result (A × List ℕ)}
    → m ≡ ok b
    → f b rest ≡ r
    → (lift m >>= f) rest ≡ r
then_lift f h next = rw h next

-- The name of a section: its characters up to the first zero byte.
pub read_name-end :
    (name rest : List ℕ) → All (λ c. c ≢ 0) name → read_name (name ++ 0 ∷ rest) ≡ ok (name, rest)
unfolding read_name
read_name-end [] rest h = refl
read_name-end (zero ∷ name) rest (nonzero, h) = absurd (nonzero refl)
read_name-end (suc c ∷ name) rest (nonzero, h) = rw (read_name-end name rest h)
