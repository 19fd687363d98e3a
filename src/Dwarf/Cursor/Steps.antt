-- ===== src/Dwarf/Cursor/Steps.antt =====
-- `from_bytes` and the fixed-width readers of the cursor: the value of little-endian bytes.
use gsdb.Common.{ℕ, zero, suc, ◌+◌, ◌*◌, ◌/◌, ◌%◌, ◌^◌, ◌<◌, ◌≡◌, refl, ap, ◌∙◌, arith}
use gsdb.Common.{List, [], ◌∷◌, ◌++◌, some, Option-cases, inl, inr, drop, length, ok, All}
use gsdb.Dwarf.Cursor.{Cursor, move, u8, little_endian, from_bytes, fixed_int}
use gsdb.Common.{drop-add, drop-append}
use native.Mathlib.Nat.{pow-suc}

-- The `size` low bytes of a number, least significant first: what `to_byte_vec` copies out.
abbrev pub le_bytes : ℕ → ℕ → List ℕ
le_bytes zero v = []
le_bytes (suc n) v = (v % 256) ∷ le_bytes n (v / 256)

pub length-le_bytes : (n v : ℕ) → length (le_bytes n v) ≡ n
length-le_bytes zero v = refl
length-le_bytes (suc n) v = ap suc (length-le_bytes n (v / 256))

little_endian-le_bytes :
    (n v : ℕ) (rest : List ℕ) → v < 256 ^ n → little_endian n (le_bytes n v ++ rest) ≡ some v
little_endian-le_bytes zero v rest h = ground arith
little_endian-le_bytes (suc n) v rest h =
    ground (arith, little_endian-le_bytes n (v / 256) rest (omega (arith, pow-suc 256 n)))

-- A reader of `n` bytes stays within `n` bytes.
pub little_endian-lt :
    (n : ℕ) (bytes : List ℕ) (v : ℕ)
    → All (λ b. b < 256) bytes
    → little_endian n bytes ≡ some v
    → v < 256 ^ n
little_endian-lt zero bytes v h e = ground arith
little_endian-lt (suc n) [] v h e = absurd (ground arith)
little_endian-lt (suc n) (b ∷ bytes) v h e = elim (Option-cases (little_endian n bytes)) [
  | inl fails ↦ absurd (ground arith)
  | inr (high, reads) ↦
      let below : high < 256 ^ n = little_endian-lt n bytes high h.1 reads in
      let value : b + 256 * high ≡ v = ground arith in
      omega (arith, pow-suc 256 n, h.0, below, value)
]

-- Where the bytes of `v` lie at the position, in the order of a little-endian machine, the reader
-- of `size` bytes returns `v` and moves past them.
pub fixed_int-le_bytes :
    (image : List ℕ) (size v : ℕ) (c : Cursor) (rest : List ℕ)
    → v < 256 ^ size
    → drop c.pos image ≡ le_bytes size v ++ rest
    → fixed_int image size c ≡ ok (v, move c size)
unfolding fixed_int
fixed_int-le_bytes image size v c rest h e =
    rw (e, from_bytes, little_endian-le_bytes size v rest h)

-- The next byte, and the bytes behind it.
pub u8-cons :
    (image : List ℕ) (c : Cursor) (b : ℕ) (rest : List ℕ)
    → drop c.pos image ≡ b ∷ rest
    → u8 image c ≡ ok (b, move c 1)
unfolding fixed_int
u8-cons image c b rest e = rw (e, from_bytes) (ground arith)

pub drop-step :
    (image : List ℕ) (p b : ℕ) (rest : List ℕ) → drop p image ≡ b ∷ rest → drop (p + 1) image ≡ rest
drop-step image p b rest e = drop-add p 1 image ∙ ap (drop 1) e

pub drop-past :
    (image : List ℕ) (p : ℕ) (front rest : List ℕ)
    → drop p image ≡ front ++ rest
    → drop (p + length front) image ≡ rest
drop-past image p front rest e =
    drop-add p (length front) image ∙ ap (drop (length front)) e ∙ drop-append front rest
