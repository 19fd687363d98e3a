-- ===== src/Dwarf/Cursor/Leb.antt =====
-- `uleb128` and `sleb128`: they read back what an encoder writes, and end within the bytes.
use gsdb.Common.{ℕ, zero, suc, ◌+◌, ◌*◌, ◌/◌, ◌%◌, ◌^◌, ◌≤◌, ◌<◌, ◌≡◌, refl, ap, ◌∙◌, arith}
use gsdb.Common.{List, [], ◌∷◌, ◌++◌, drop, length, ok, ltb}
use gsdb.Common.{if◌then◌else◌, Bool-cases, inl, inr}
use gsdb.Common.Bits.{bit_and_7f, bit_and_80, bit_or_disjoint}
use gsdb.Common.Word.{two64}
use gsdb.Dwarf.Cursor.{Cursor, move, Groups, leb_loop, uleb128}
use native.Mathlib.Numerals.{towards_suc}
use native.Mathlib.Nat.{div-add-mod, pow-suc}

-- The unsigned encoding of the DWARF standard: seven bits a byte, lowest group first, the top bit
-- set on each byte but the last; at most `k + 1` bytes.
unfoldable pub uleb_bytes : ℕ → ℕ → List ℕ
uleb_bytes zero v = v ∷ []
uleb_bytes (suc k) v =
    let rest = uleb_bytes k (v / 128) in if ltb v 128 then v ∷ [] else (v % 128 + 128) ∷ rest

pub length-uleb_bytes :
    (k v : ℕ) → (1 ≤ length (uleb_bytes k v)) × (length (uleb_bytes k v) ≤ k + 1)
unfolding uleb_bytes
length-uleb_bytes zero v = omega arith
length-uleb_bytes (suc k) v = ground (arith, length-uleb_bytes k (v / 128))

-- One round on the last byte, and on a byte with the top bit set over the group `g`.
pub last_round :
    (w res shift pos : ℕ) (rest : List ℕ)
    → w < 128
    → shift ≤ 63
    → res < 2 ^ shift
    → res + w * 2 ^ shift < two64
    → leb_loop (w ∷ rest) res shift pos
      ≡ ok (record { value = res + w * 2 ^ shift; shift = shift + 7; last = w; next = pos + 1 })
unfolding leb_loop
last_round w res shift pos rest hw hs hr fits =
    ground (arith, bit_and_7f w, bit_and_80 w, bit_or_disjoint shift res w)

pub inner_round :
    (g res shift pos : ℕ) (rest : List ℕ)
    → g < 128
    → shift ≤ 63
    → res < 2 ^ shift
    → res + g * 2 ^ shift < two64
    → leb_loop ((g + 128) ∷ rest) res shift pos
      ≡ leb_loop rest (res + g * 2 ^ shift) (shift + 7) (pos + 1)
unfolding leb_loop
inner_round g res shift pos rest hg hs hr fits =
    ground (arith, bit_and_7f (g + 128), bit_and_80 (g + 128), bit_or_disjoint shift res g)

pub pow_seven : (s : ℕ) → 2 ^ (s + 7) ≡ 128 * 2 ^ s
pow_seven s = simp towards_suc (omega arith)

-- The lowest group of a number and its other groups, all counted from bit `k` on.
pub groups_split : (v k : ℕ) → v * 2 ^ k ≡ v % 128 * 2 ^ k + v / 128 * 2 ^ (k + 7)
groups_split v k =
    let shifted = ap (λ (u : ℕ). v / 128 * u) (pow_seven k) in
    let parts = ap (λ (u : ℕ). u * 2 ^ k) (div-add-mod v 128) in omega (arith, shifted, parts)

pub low_fits : (g res shift : ℕ) → g < 128 → res < 2 ^ shift → res + g * 2 ^ shift < 2 ^ (shift + 7)
low_fits g res shift hg h = grind (arith, pow_seven shift)

-- What the loop leaves behind an encoding.
leb_loop-uleb_bytes :
    (k j w res shift pos : ℕ) (rest : List ℕ)
    → shift ≡ 7 * j
    → j + k ≤ 9
    → w < 128 ^ suc k
    → res < 2 ^ shift
    → res + w * 2 ^ shift < two64
    → (g : Groups) × (leb_loop (uleb_bytes k w ++ rest) res shift pos ≡ ok g)
      × (g.value ≡ res + w * 2 ^ shift)
      × (g.next ≡ pos + length (uleb_bytes k w))
unfolding uleb_bytes
leb_loop-uleb_bytes zero j w res shift pos rest hs hj hw hr fits =
    (_, last_round w res shift pos rest (omega arith) (omega arith) hr fits, refl, refl)
leb_loop-uleb_bytes (suc k) j w res shift pos rest hs hj hw hr fits =
    elim (Bool-cases (ltb w 128)) [
      | inl short ↦
          rw short
            (_, last_round w res shift pos rest (ground arith) (omega arith) hr fits, refl, refl)
      | inr long ↦
          let (g, run, value, next) =
            leb_loop-uleb_bytes k (j + 1) (w / 128) (res + w % 128 * 2 ^ shift) (shift + 7)
              (pos + 1) rest (omega arith) (omega arith) (omega (arith, pow-suc 128 (suc k)))
              (low_fits (w % 128) res shift (omega arith) hr)
              (omega (arith, groups_split w shift)) in
          rw long (
            g,
            inner_round (w % 128) res shift pos (uleb_bytes k (w / 128) ++ rest) (omega arith)
                  (omega arith) hr (omega (arith, groups_split w shift))
                ∙ run,
            omega (arith, value, groups_split w shift),
            omega (arith, next),
          )
    ]

-- `uleb128` reads back a 64-bit number that was written in the unsigned encoding, whatever follows
-- it, and the cursor moves past exactly the encoding.
pub uleb128-uleb_bytes :
    (image : List ℕ) (v : ℕ) (c : Cursor) (rest : List ℕ)
    → v < two64
    → drop c.pos image ≡ uleb_bytes 9 v ++ rest
    → uleb128 image c ≡ ok (v, move c (length (uleb_bytes 9 v)))
unfolding uleb128
uleb128-uleb_bytes image v c rest h e =
    let (g, run, value, next) =
      leb_loop-uleb_bytes 9 0 v 0 0 c.pos rest (omega arith) (omega arith) (omega arith)
        (omega arith) (omega arith) in
    rw (e, run) (ground (arith, value, next))
