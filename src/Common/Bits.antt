-- ===== src/Common/Bits.antt =====
-- Bit operations at variables, as arithmetic.
use Prim.Native.Nat.{ℕ, zero, suc, ◌+◌, ◌*◌, ◌/◌, ◌%◌, ◌^◌, ◌≤◌, ◌<◌, max}
use Prim.Native.Nat.{bit_and, bit_or, digits, bit_or-bitwise}
use mathlib.Core.Path.{◌≡◌, refl, ap}
use mathlib.Core.Bool.{Bool, true, ◌&&◌}
use native.Mathlib.Nat.{pow-suc}
use native.Mathlib.Omega.{arith}
use gsdb.Common.Tests.{◌==◌, ==_iff}

-- The table of `p` below `n`, and what a full table says.
unfoldable pub all_below : ℕ → (ℕ → Bool) → Bool
all_below zero p = true
all_below (suc n) p = p n && all_below n p

pub full_row : (p : ℕ → Bool) (n k : ℕ) → k < n → all_below n p ≡ true → p k ≡ true
unfolding all_below
full_row p (suc n) k below full = ground (arith, full_row p n k)
full_row p zero k below full = absurd (omega arith)

pub table_eq :
    (n : ℕ) (f g : ℕ → ℕ) → all_below n (λ x. f x == g x) ≡ true → (x : ℕ) → x < n → f x ≡ g x
table_eq n f g h x lt = (==_iff (f x) (g x)).0 (full_row (λ y. f y == g y) n x lt h)

low_seven_table : all_below 256 (λ b. bit_and b 0x7f == b % 128) ≡ true
unfolding all_below
low_seven_table = refl

pub bit_and_7f : (b : ℕ) → b < 256 → bit_and b 0x7f ≡ b % 128
bit_and_7f = table_eq 256 _ _ low_seven_table

top_bit_table : all_below 256 (λ b. bit_and b 0x80 == b / 128 * 128) ≡ true
unfolding all_below
top_bit_table = refl

pub bit_and_80 : (b : ℕ) → b < 256 → bit_and b 0x80 ≡ b / 128 * 128
bit_and_80 = table_eq 256 _ _ top_bit_table

sign_bit_table : all_below 256 (λ b. bit_and b 0x40 == b / 64 % 2 * 64) ≡ true
unfolding all_below
sign_bit_table = refl

pub bit_and_40 : (b : ℕ) → b < 256 → bit_and b 0x40 ≡ b / 64 % 2 * 64
bit_and_40 = table_eq 256 _ _ sign_bit_table

-- The digits of a `|`: more fuel than the first number changes nothing.
or_fuel :
    (n m a b : ℕ)
    → a ≤ n
    → a ≤ m
    → digits (λ (y : ℕ). y) max n a b ≡ digits (λ (y : ℕ). y) max m a b
or_fuel n m zero b p q = go n m
  where
    go : (n m : ℕ) → digits (λ (y : ℕ). y) max n zero b ≡ digits (λ (y : ℕ). y) max m zero b
    go zero zero = refl
    go zero (suc m) = refl
    go (suc n) zero = refl
    go (suc n) (suc m) = refl
or_fuel zero m (suc a) b p q = absurd (omega arith)
or_fuel (suc n) zero (suc a) b p q = absurd (omega arith)
or_fuel (suc n) (suc m) (suc a) b p q =
    omega (arith, or_fuel n m (suc a / 2) (b / 2) (omega arith) (omega arith))

pub bit_or_digit : (x m : ℕ) → bit_or x m ≡ max (x % 2) (m % 2) + 2 * bit_or (x / 2) (m / 2)
bit_or_digit zero m = omega (arith, bit_or-bitwise zero (m / 2), bit_or-bitwise zero m)
bit_or_digit (suc x) m =
    let rest = or_fuel (suc x / 2) x (suc x / 2) (m / 2) (omega arith) (omega arith) in
    omega (arith, rest, bit_or-bitwise (suc x / 2) (m / 2), bit_or-bitwise (suc x) m)

zero-bit_or : (b : ℕ) → bit_or 0 b ≡ b
zero-bit_or b = bit_or-bitwise 0 b

pub double_pow : (q k : ℕ) → q * 2 ^ suc k ≡ 2 * (q * 2 ^ k)
double_pow q k = omega (arith, ap (λ (t : ℕ). q * t) (pow-suc 2 k))

-- `|` of a value that fits the low `k` bits with one that starts at bit `k` is their sum.
pub bit_or_disjoint : (k low q : ℕ) → low < 2 ^ k → bit_or low (q * 2 ^ k) ≡ low + q * 2 ^ k
bit_or_disjoint zero zero q h = omega (arith, zero-bit_or (q * 2 ^ 0))
bit_or_disjoint zero (suc low) q h = absurd (omega arith)
bit_or_disjoint (suc k) low q h = omega (
  arith,
  bit_or_digit low (q * 2 ^ suc k),
  double_pow q k,
  pow-suc 2 k,
  ap (λ (t : ℕ). bit_or (low / 2) t) (half_pow q k),
  bit_or_disjoint k (low / 2) q (omega (arith, pow-suc 2 k)),
)
  where
    half_pow : (q k : ℕ) → q * 2 ^ suc k / 2 ≡ q * 2 ^ k
    half_pow q k = omega (arith, double_pow q k)

-- `|` stays within the width of its operands.
pub bit_or-lt : (k a b : ℕ) → a < 2 ^ k → b < 2 ^ k → bit_or a b < 2 ^ k
bit_or-lt zero zero zero ha hb = omega (arith, zero-bit_or 0)
bit_or-lt zero zero (suc b) ha hb = absurd (omega arith)
bit_or-lt zero (suc a) b ha hb = absurd (omega arith)
bit_or-lt (suc k) a b ha hb = omega (
  arith,
  bit_or_digit a b,
  pow-suc 2 k,
  bit_or-lt k (a / 2) (b / 2) (omega (arith, pow-suc 2 k)) (omega (arith, pow-suc 2 k)),
)
