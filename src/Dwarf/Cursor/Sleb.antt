-- ===== src/Dwarf/Cursor/Sleb.antt =====
-- `sleb128` reads back what an encoder of signed numbers writes.
use gsdb.Common.{
  ℕ, zero, suc, ◌+◌, ◌-◌, ◌*◌, ◌/◌, ◌%◌, ◌^◌, ◌≤◌, ◌<◌, ◌≡◌, refl, sym, ap, ◌∙◌, arith,
}
use gsdb.Common.{List, [], ◌∷◌, ◌++◌, drop, length, ok, ltb, ◌==◌, Bool, true, false}
use gsdb.Common.{if◌then◌else◌, Bool-cases, inl, inr, bit_or}
use gsdb.Common.Bits.{bit_and_40, bit_or_disjoint, all_below, table_eq}
use gsdb.Common.Word.{two64, two63, shl64}
use gsdb.Dwarf.Cursor.{Cursor, move, Groups, leb_loop, sign_fill, sleb128}
use gsdb.Dwarf.Cursor.Leb.{last_round, inner_round, pow_seven, groups_split, low_fits}
use mathlib.Core.Path.{subst, ap₂}
use native.Mathlib.Decide.{dec_lt}
use native.Mathlib.Nat.{pow-suc, pow-le-pow_right}

-- The signed encoding of the DWARF standard, of `m` or of `-m - 1`: the groups of a negative number
-- are the complements of those of `m`, and bit 6 of the last byte is the sign.
unfoldable pub sleb_bytes : Bool → ℕ → ℕ → List ℕ
sleb_bytes false zero m = m ∷ []
sleb_bytes true zero m = (127 - m) ∷ []
sleb_bytes false (suc k) m =
    let rest = sleb_bytes false k (m / 128) in if ltb m 64 then m ∷ [] else (m % 128 + 128) ∷ rest
sleb_bytes true (suc k) m =
    let rest = sleb_bytes true k (m / 128) in
    if ltb m 64 then (127 - m) ∷ [] else (127 - m % 128 + 128) ∷ rest

-- The 64-bit pattern of `m` or of `-m - 1`.
abbrev pub pattern_of : Bool → ℕ → ℕ
pattern_of false m = m
pattern_of true m = two64 - 1 - m

fill_table :
    all_below 10 (λ j. shl64 (two64 - 1) (7 * j) == (2 ^ (64 - 7 * j) - 1) * 2 ^ (7 * j)) ≡ true
unfolding all_below
fill_table = refl

fill_sum : all_below 10 (λ j. (2 ^ (64 - 7 * j) - 1) * 2 ^ (7 * j) + 2 ^ (7 * j) == two64) ≡ true
unfolding all_below
fill_sum = refl

-- Filling from bit 7 * j on adds 2 ^ 64 - 2 ^ (7 * j).
fill_adds :
    (j v : ℕ)
    → j < 10
    → v < 2 ^ (7 * j)
    → bit_or v (shl64 (two64 - 1) (7 * j)) + 2 ^ (7 * j) ≡ v + two64
fill_adds j v hj hv =
    rw (table_eq 10 _ _ fill_table j hj, bit_or_disjoint (7 * j) v (2 ^ (64 - 7 * j) - 1) hv)
      (omega (arith, table_eq 10 _ _ fill_sum j hj))

sign_fill_neg :
    (j s v last pos : ℕ)
    → s ≡ 7 * j
    → j < 10
    → v < 2 ^ s
    → 64 ≤ last
    → last < 128
    → sign_fill (record { value = v; shift = s; last = last; next = pos }) + 2 ^ s ≡ v + two64
unfolding sign_fill
sign_fill_neg j s v last pos hs hj hv lo hi =
    ground (arith, bit_and_40 last, fill_adds j v hj (rw hs at hv))

sign_fill_pos :
    (s v last pos : ℕ)
    → last < 64
    → sign_fill (record { value = v; shift = s; last = last; next = pos }) ≡ v
unfolding sign_fill
sign_fill_pos s v last pos h = ground (arith, bit_and_40 last)

sign_fill_wide :
    (s v last pos : ℕ)
    → 64 ≤ s
    → sign_fill (record { value = v; shift = s; last = last; next = pos }) ≡ v
unfolding sign_fill
sign_fill_wide s v last pos h = ground arith

-- What the loop must leave behind the encoding of `w`, read from bit `shift` on into `res`.
abbrev Leaves : Bool → List ℕ → ℕ → ℕ → ℕ → ℕ → List ℕ → Type 0
Leaves neg bytes w res shift pos rest =
    (g : Groups) × (leb_loop (bytes ++ rest) res shift pos ≡ ok g)
    × (if neg
        then (sign_fill g + (w + 1) * 2 ^ shift ≡ res + two64)
        else (sign_fill g ≡ res + w * 2 ^ shift))
    × (g.next ≡ pos + length bytes)

pow_56 : (s : ℕ) → s ≤ 56 → 2 ^ s ≤ 2 ^ 56
pow_56 s h = pow-le-pow_right (omega arith) h

pow_63 : (s : ℕ) → s ≤ 63 → 2 ^ s ≤ 2 ^ 63
pow_63 s h = pow-le-pow_right (omega arith) h

last_pos :
    (w res shift pos : ℕ) (rest : List ℕ)
    → shift ≤ 63
    → w < 64
    → res < 2 ^ shift
    → res + w * 2 ^ shift < two64
    → Leaves false (w ∷ []) w res shift pos rest
last_pos w res shift pos rest hs hw hr fits = (
  _,
  last_round w res shift pos rest (omega arith) hs hr fits,
  sign_fill_pos (shift + 7) _ w _ hw,
  omega arith,
)

last_neg :
    (j w res shift pos : ℕ) (rest : List ℕ)
    → shift ≡ 7 * j
    → j ≤ 8
    → w < 64
    → res < 2 ^ shift
    → Leaves true ((127 - w) ∷ []) w res shift pos rest
last_neg j w res shift pos rest hs hj hw hr =
    let within : res + (127 - w) * 2 ^ shift < 2 ^ (shift + 7) =
      low_fits (127 - w) res shift (omega arith) hr in
    let bound : 2 ^ shift ≤ 2 ^ 56 = pow_56 shift (omega arith) in
    (
      _,
      last_round (127 - w) res shift pos rest (omega arith) (omega arith) hr
          (omega (arith, pow_seven shift)),
      omega (
        arith,
        sign_fill_neg (j + 1) (shift + 7) (res + (127 - w) * 2 ^ shift) (127 - w) (pos + 1)
            (omega arith) (omega arith) within (omega arith) (omega arith),
        pow_seven shift,
        complement w (2 ^ shift) hw,
      ),
      omega arith,
    )
  where
    complement : (w p : ℕ) → w < 64 → (127 - w) * p + (w + 1) * p ≡ 128 * p
    complement w p h = ground (arith, ap (λ (t : ℕ). t * p) (sum w h))
      where
        sum : (w : ℕ) → w < 64 → 127 - w + (w + 1) ≡ 128
        sum w h = omega arith

-- The tenth byte has one bit left, and it is the sign.
last_neg_wide :
    (res pos : ℕ) (rest : List ℕ) → res < 2 ^ 63 → Leaves true (127 ∷ []) 0 res 63 pos rest
unfolding leb_loop
last_neg_wide res pos rest hr = (
  record { value = res + two63; shift = 70; last = 127; next = pos + 1 },
  ground (arith, bit_or_disjoint 63 res 1),
  omega (arith, sign_fill_wide 70 (res + two63) 127 (pos + 1)),
  omega arith,
)

last_neg_any :
    (j w res shift pos : ℕ) (rest : List ℕ)
    → shift ≡ 7 * j
    → j ≤ 9
    → w < 64
    → res < 2 ^ shift
    → w * 2 ^ shift < two63
    → Leaves true ((127 - w) ∷ []) w res shift pos rest
last_neg_any j w res shift pos rest hs hj hw hr fits = elim (dec_lt j 9) [
  | yes lt ↦ last_neg j w res shift pos rest hs (omega arith) hw hr
  | no nlt ↦
      let e : shift ≡ 63 = omega arith in
      let z : w ≡ 0 = omega (arith, rw e at fits) in
      subst (λ (s : ℕ). Leaves true ((127 - w) ∷ []) w res s pos rest) (sym e)
        (subst (λ (u : ℕ). Leaves true ((127 - u) ∷ []) u res 63 pos rest) (sym z)
          (last_neg_wide res pos rest (rw e at hr)))
]

inner-Leaves :
    (neg : Bool) (g w res shift pos : ℕ) (bytes rest : List ℕ)
    → g < 128
    → g ≡ (if neg then 127 - w % 128 else w % 128)
    → shift ≤ 56
    → res < 2 ^ shift
    → Leaves neg bytes (w / 128) (res + g * 2 ^ shift) (shift + 7) (pos + 1) rest
    → Leaves neg ((g + 128) ∷ bytes) w res shift pos rest
inner-Leaves neg g w res shift pos bytes rest hg hd hs hr (out, run, value, next) = (
  out,
  inner_round g res shift pos (bytes ++ rest) hg (omega arith) hr
        (omega (arith, low_fits g res shift hg hr, pow_56 shift hs, pow_seven shift))
      ∙ run,
  digit neg hd value,
  omega arith,
)
  where
    digit :
        (neg : Bool)
        → g ≡ (if neg then 127 - w % 128 else w % 128)
        → (if neg
            then (sign_fill out + (w / 128 + 1) * 2 ^ (shift + 7) ≡ res + g * 2 ^ shift + two64)
            else (sign_fill out ≡ res + g * 2 ^ shift + w / 128 * 2 ^ (shift + 7)))
        → (if neg
            then (sign_fill out + (w + 1) * 2 ^ shift ≡ res + two64)
            else (sign_fill out ≡ res + w * 2 ^ shift))
    digit true hd value =
        omega
          (arith, groups_split w shift, pow_seven shift, ap (λ (t : ℕ). t * 2 ^ shift) (total hd))
      where
        total : g ≡ 127 - w % 128 → g + w % 128 + 1 ≡ 128
        total hd = omega arith
    digit false hd value = omega (arith, groups_split w shift, ap (λ (t : ℕ). t * 2 ^ shift) hd)

leb_loop-sleb_bytes :
    (neg : Bool) (k j w res shift pos : ℕ) (rest : List ℕ)
    → shift ≡ 7 * j
    → j + k ≤ 9
    → w < 64 * 128 ^ k
    → res < 2 ^ shift
    → w * 2 ^ shift < two63
    → Leaves neg (sleb_bytes neg k w) w res shift pos rest
unfolding sleb_bytes
leb_loop-sleb_bytes false zero j w res shift pos rest hs hj hw hr fits =
    last_pos w res shift pos rest (omega arith) (omega arith) hr
      (omega (arith, pow_63 shift (omega arith)))
leb_loop-sleb_bytes true zero j w res shift pos rest hs hj hw hr fits =
    last_neg_any j w res shift pos rest hs (omega arith) (omega arith) hr fits
leb_loop-sleb_bytes false (suc k) j w res shift pos rest hs hj hw hr fits =
    elim (Bool-cases (ltb w 64)) [
      | inl short ↦ rw short (
          last_pos w res shift pos rest (omega arith) (ground arith) hr
            (omega (arith, pow_63 shift (omega arith))))
      | inr long ↦ rw long (
          inner-Leaves false (w % 128) w res shift pos _ rest (omega arith) refl (omega arith) hr (
            leb_loop-sleb_bytes false k (j + 1) (w / 128) (res + w % 128 * 2 ^ shift) (shift + 7)
              (pos + 1) rest (omega arith) (omega arith) (omega (arith, pow-suc 128 k))
              (low_fits (w % 128) res shift (omega arith) hr)
              (omega (arith, groups_split w shift))))
    ]
leb_loop-sleb_bytes true (suc k) j w res shift pos rest hs hj hw hr fits =
    elim (Bool-cases (ltb w 64)) [
      | inl short ↦
          rw short (last_neg_any j w res shift pos rest hs (omega arith) (ground arith) hr fits)
      | inr long ↦ rw long (
          inner-Leaves true (127 - w % 128) w res shift pos _ rest (omega arith) refl (omega arith)
            hr
            (leb_loop-sleb_bytes true k (j + 1) (w / 128) (res + (127 - w % 128) * 2 ^ shift)
              (shift + 7) (pos + 1) rest (omega arith) (omega arith) (omega (arith, pow-suc 128 k))
              (low_fits (127 - w % 128) res shift (omega arith) hr)
              (omega (arith, groups_split w shift))))
    ]

shown :
    (neg : Bool) (g : Groups) (m : ℕ)
    → (if neg then (sign_fill g + (m + 1) * 2 ^ 0 ≡ 0 + two64) else (sign_fill g ≡ 0 + m * 2 ^ 0))
    → sign_fill g ≡ pattern_of neg m
shown true g m value = omega arith
shown false g m value = omega arith

-- `sleb128` reads back the 64-bit pattern of any signed 64-bit number, `m` or `-m - 1`, that was
-- written in the signed encoding, whatever follows it, and moves past exactly the encoding.
pub sleb128-sleb_bytes :
    (image : List ℕ) (neg : Bool) (m : ℕ) (c : Cursor) (rest : List ℕ)
    → m < two63
    → drop c.pos image ≡ sleb_bytes neg 9 m ++ rest
    → sleb128 image c ≡ ok (pattern_of neg m, move c (length (sleb_bytes neg 9 m)))
unfolding sleb128
sleb128-sleb_bytes image neg m c rest h e =
    let (g, run, value, next) =
      leb_loop-sleb_bytes neg 9 0 m 0 0 c.pos rest (omega arith) (omega arith) (omega arith)
        (omega arith) (omega arith) in
    rw (e, run) (ap₂ (λ v n. ok (v, record c { pos = n })) (shown neg g m value) next)
