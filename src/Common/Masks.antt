-- ===== src/Common/Masks.antt =====
-- `&` with a mask, and `|` of a high part with a low part, at variables.
use Prim.Native.Nat.{ℕ, zero, suc, ◌+◌, ◌*◌, ◌/◌, ◌%◌, ◌^◌, ◌≤◌, ◌<◌, ◌-◌, min}
use Prim.Native.Nat.{bit_and, bit_or, digits, bit_or-bitwise, bit_and-bitwise}
use mathlib.Core.Path.{◌≡◌, refl, ap, ◌∙◌}
use native.Mathlib.Nat.{pow-suc}
use native.Mathlib.Omega.{arith}
use gsdb.Common.Bits.{bit_or_digit, double_pow}

-- The digits of an `&`.
and_fuel :
    (n m a b : ℕ)
    → a ≤ n
    → a ≤ m
    → digits (λ (y : ℕ). 0) min n a b ≡ digits (λ (y : ℕ). 0) min m a b
and_fuel n m zero b p q = go n m
  where
    go : (n m : ℕ) → digits (λ (y : ℕ). 0) min n zero b ≡ digits (λ (y : ℕ). 0) min m zero b
    go zero zero = refl
    go zero (suc m) = refl
    go (suc n) zero = refl
    go (suc n) (suc m) = refl
and_fuel zero m (suc a) b p q = absurd (omega arith)
and_fuel (suc n) zero (suc a) b p q = absurd (omega arith)
and_fuel (suc n) (suc m) (suc a) b p q =
    omega (arith, and_fuel n m (suc a / 2) (b / 2) (omega arith) (omega arith))

pub bit_and_digit : (x m : ℕ) → bit_and x m ≡ min (x % 2) (m % 2) + 2 * bit_and (x / 2) (m / 2)
bit_and_digit zero m = omega (arith, bit_and-bitwise zero (m / 2), bit_and-bitwise zero m)
bit_and_digit (suc x) m =
    let rest = and_fuel (suc x / 2) x (suc x / 2) (m / 2) (omega arith) (omega arith) in
    omega (arith, rest, bit_and-bitwise (suc x / 2) (m / 2), bit_and-bitwise (suc x) m)

-- `&` with `k` ones keeps a number that fits them, and `|` with 0 keeps every number.
bit_and_ones : (k a : ℕ) → a < 2 ^ k → bit_and a (2 ^ k - 1) ≡ a
bit_and_ones zero zero h = omega (arith, bit_and-bitwise 0 (2 ^ 0 - 1))
bit_and_ones zero (suc a) h = absurd (omega arith)
bit_and_ones (suc k) a h = omega (
  arith,
  bit_and_digit a (2 ^ suc k - 1),
  pow-suc 2 k,
  ap (λ (t : ℕ). bit_and (a / 2) t) (half k),
  bit_and_ones k (a / 2) (omega (arith, pow-suc 2 k)),
)
  where
    half : (k : ℕ) → (2 ^ suc k - 1) / 2 ≡ 2 ^ k - 1
    half k = omega (arith, pow-suc 2 k)

-- `&` stays within the width of its left operand.
pub bit_and-lt : (k a b : ℕ) → a < 2 ^ k → bit_and a b < 2 ^ k
bit_and-lt zero zero b h = omega (arith, bit_and-bitwise 0 b)
bit_and-lt zero (suc a) b h = absurd (omega arith)
bit_and-lt (suc k) a b h = omega (
  arith,
  bit_and_digit a b,
  pow-suc 2 k,
  bit_and-lt k (a / 2) (b / 2) (omega (arith, pow-suc 2 k)),
)

bit_and_zero : (k a : ℕ) → a < 2 ^ k → bit_and a 0 ≡ 0
bit_and_zero zero zero h = omega (arith, bit_and-bitwise 0 0)
bit_and_zero zero (suc a) h = absurd (omega arith)
bit_and_zero (suc k) a h =
    omega (arith, bit_and_digit a 0, bit_and_zero k (a / 2) (omega (arith, pow-suc 2 k)))

bit_or_zero : (k a : ℕ) → a < 2 ^ k → bit_or a 0 ≡ a
bit_or_zero zero zero h = omega (arith, bit_or-bitwise 0 0)
bit_or_zero zero (suc a) h = absurd (omega arith)
bit_or_zero (suc k) a h =
    omega (arith, bit_or_digit a 0, bit_or_zero k (a / 2) (omega (arith, pow-suc 2 k)))

half_pow : (q k : ℕ) → q * 2 ^ suc k / 2 ≡ q * 2 ^ k
half_pow q k = omega (arith, double_pow q k)

half_sum : (low q k : ℕ) → (low + q * 2 ^ suc k) / 2 ≡ low / 2 + q * 2 ^ k
half_sum low q k = omega (arith, double_pow q k)

half_ones : (k : ℕ) → (2 ^ suc k - 1) / 2 ≡ 2 ^ k - 1
half_ones k = omega (arith, pow-suc 2 k)

-- The bits above and below bit `j`: a mask for each, and `|` of them.
mask_high :
    (j k low q : ℕ)
    → low < 2 ^ j
    → q < 2 ^ k
    → bit_and (low + q * 2 ^ j) ((2 ^ k - 1) * 2 ^ j) ≡ q * 2 ^ j
mask_high zero k zero q hl hq = omega (
  arith,
  bit_and_ones k q hq,
  ap (λ (t : ℕ). bit_and t ((2 ^ k - 1) * 2 ^ 0)) (unit q),
  ap (λ (t : ℕ). bit_and q t) (times (2 ^ k - 1)),
)
  where
    unit : (q : ℕ) → 0 + q * 2 ^ 0 ≡ q
    unit q = omega arith

    times : (q : ℕ) → q * 2 ^ 0 ≡ q
    times q = omega arith
mask_high zero k (suc low) q hl hq = absurd (omega arith)
mask_high (suc j) k low q hl hq = omega (
  arith,
  bit_and_digit (low + q * 2 ^ suc j) ((2 ^ k - 1) * 2 ^ suc j),
  double_pow q j,
  double_pow (2 ^ k - 1) j,
  ap (λ (t : ℕ). bit_and t ((2 ^ k - 1) * 2 ^ suc j / 2)) (half_sum low q j),
  ap (λ (t : ℕ). bit_and (low / 2 + q * 2 ^ j) t) (half_pow (2 ^ k - 1) j),
  mask_high j k (low / 2) q (omega (arith, pow-suc 2 j)) hq,
)

mask_low : (j k low q : ℕ) → low < 2 ^ j → q < 2 ^ k → bit_and (low + q * 2 ^ j) (2 ^ j - 1) ≡ low
mask_low zero k zero q hl hq =
    omega (arith, bit_and_zero k q hq, ap (λ (t : ℕ). bit_and t (2 ^ 0 - 1)) (unit q))
  where
    unit : (q : ℕ) → 0 + q * 2 ^ 0 ≡ q
    unit q = omega arith
mask_low zero k (suc low) q hl hq = absurd (omega arith)
mask_low (suc j) k low q hl hq = omega (
  arith,
  bit_and_digit (low + q * 2 ^ suc j) (2 ^ suc j - 1),
  double_pow q j,
  pow-suc 2 j,
  ap (λ (t : ℕ). bit_and t ((2 ^ suc j - 1) / 2)) (half_sum low q j),
  ap (λ (t : ℕ). bit_and (low / 2 + q * 2 ^ j) t) (half_ones j),
  mask_low j k (low / 2) q (omega (arith, pow-suc 2 j)) hq,
)

or_low : (j k low q : ℕ) → low < 2 ^ j → q < 2 ^ k → bit_or (q * 2 ^ j) low ≡ q * 2 ^ j + low
or_low zero k zero q hl hq = omega (arith, bit_or_zero k q hq, ap (λ (t : ℕ). bit_or t 0) (times q))
  where
    times : (q : ℕ) → q * 2 ^ 0 ≡ q
    times q = omega arith
or_low zero k (suc low) q hl hq = absurd (omega arith)
or_low (suc j) k low q hl hq = omega (
  arith,
  bit_or_digit (q * 2 ^ suc j) low,
  double_pow q j,
  ap (λ (t : ℕ). bit_or t (low / 2)) (half_pow q j),
  or_low j k (low / 2) q (omega (arith, pow-suc 2 j)) hq,
)

-- The low byte of a 64-bit word: read, cleared, and put in place.
pub bit_and_ff : (w : ℕ) → w < 18446744073709551616 → bit_and w 0xff ≡ w % 256
bit_and_ff w h =
    ap (λ (t : ℕ). bit_and t 0xff) (split w)
    ∙ mask_low 8 56 (w % 256) (w / 256) (omega arith) (omega arith)
  where
    split : (w : ℕ) → w ≡ w % 256 + w / 256 * 2 ^ 8
    split w = omega arith

pub bit_and_high :
    (w : ℕ) → w < 18446744073709551616 → bit_and w 18446744073709551360 ≡ w / 256 * 256
bit_and_high w h =
    ap (λ (t : ℕ). bit_and t 18446744073709551360) (split w)
    ∙ mask_high 8 56 (w % 256) (w / 256) (omega arith) (omega arith)
  where
    split : (w : ℕ) → w ≡ w % 256 + w / 256 * 2 ^ 8
    split w = omega arith

pub bit_or_low :
    (q low : ℕ) → q < 72057594037927936 → low < 256 → bit_or (q * 256) low ≡ q * 256 + low
bit_or_low q low hq hl = or_low 8 56 low q hl hq

pub bit_and_fff : (a : ℕ) → a < 18446744073709551616 → bit_and a 0xfff ≡ a % 4096
bit_and_fff a h =
    ap (λ (t : ℕ). bit_and t 0xfff) (split a)
    ∙ mask_low 12 52 (a % 4096) (a / 4096) (omega arith) (omega arith)
  where
    split : (w : ℕ) → w ≡ w % 4096 + w / 4096 * 2 ^ 12
    split w = omega arith

-- An alignment mask: `address & (size - 1)`, at the sizes of a watchpoint.
pub bit_and_low : (k a : ℕ) → k ≤ 3 → a < 18446744073709551616 → bit_and a (2 ^ k - 1) ≡ a % 2 ^ k
bit_and_low zero a h fits =
    ap (λ (t : ℕ). bit_and t 0) (split a)
    ∙ mask_low 0 64 0 a (omega arith) (omega arith)
    ∙ omega arith
  where
    split : (w : ℕ) → w ≡ 0 + w * 2 ^ 0
    split w = omega arith
bit_and_low (suc zero) a h fits =
    ap (λ (t : ℕ). bit_and t 1) (split a)
    ∙ mask_low 1 63 (a % 2) (a / 2) (omega arith) (omega arith)
  where
    split : (w : ℕ) → w ≡ w % 2 + w / 2 * 2 ^ 1
    split w = omega arith
bit_and_low (suc (suc zero)) a h fits =
    ap (λ (t : ℕ). bit_and t 3) (split a)
    ∙ mask_low 2 62 (a % 4) (a / 4) (omega arith) (omega arith)
  where
    split : (w : ℕ) → w ≡ w % 4 + w / 4 * 2 ^ 2
    split w = omega arith
bit_and_low (suc (suc (suc zero))) a h fits =
    ap (λ (t : ℕ). bit_and t 7) (split a)
    ∙ mask_low 3 61 (a % 8) (a / 8) (omega arith) (omega arith)
  where
    split : (w : ℕ) → w ≡ w % 8 + w / 8 * 2 ^ 3
    split w = omega arith
bit_and_low (suc (suc (suc (suc k)))) a h fits = absurd (omega arith)
