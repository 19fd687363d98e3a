-- ===== src/Common/TestBits.antt =====
-- Single bits of a number: those of `&` and `|`, and numbers with the same bits.
use Prim.Native.Nat.{ℕ, zero, suc, ◌/◌, ◌%◌, ◌^◌, ◌≤◌, ◌<◌, min, max}
use Prim.Native.Nat.{bit_and, bit_or}
use mathlib.Core.Path.{◌≡◌, ap, ◌∙◌}
use native.Mathlib.Nat.{pow-suc}
use native.Mathlib.Omega.{arith}
use gsdb.Common.Bits.{bit_or_digit}
use gsdb.Common.Masks.{bit_and_digit}

abbrev pub test_bit : ℕ → ℕ → ℕ
test_bit x zero = x % 2
test_bit x (suc n) = test_bit (x / 2) n

pub test_bit-bit_and : (n x m : ℕ) → test_bit (bit_and x m) n ≡ min (test_bit x n) (test_bit m n)
test_bit-bit_and zero x m = omega (arith, bit_and_digit x m)
test_bit-bit_and (suc n) x m =
    ap (λ (t : ℕ). test_bit t n) (half x m) ∙ test_bit-bit_and n (x / 2) (m / 2)
  where
    half : (x m : ℕ) → bit_and x m / 2 ≡ bit_and (x / 2) (m / 2)
    half x m = omega (arith, bit_and_digit x m)

pub test_bit-bit_or : (n x m : ℕ) → test_bit (bit_or x m) n ≡ max (test_bit x n) (test_bit m n)
test_bit-bit_or zero x m = omega (arith, bit_or_digit x m)
test_bit-bit_or (suc n) x m =
    ap (λ (t : ℕ). test_bit t n) (half x m) ∙ test_bit-bit_or n (x / 2) (m / 2)
  where
    half : (x m : ℕ) → bit_or x m / 2 ≡ bit_or (x / 2) (m / 2)
    half x m = omega (arith, bit_or_digit x m)

pub test_bit-lt : (n x : ℕ) → test_bit x n < 2
test_bit-lt zero x = omega arith
test_bit-lt (suc n) x = test_bit-lt n (x / 2)

-- A number below `2 ^ k` has no bit from `k` on.
pub test_bit_high : (k n x : ℕ) → k ≤ n → x < 2 ^ k → test_bit x n ≡ 0
test_bit_high zero zero x h fits = omega arith
test_bit_high zero (suc n) x h fits = test_bit_high zero n (x / 2) (omega arith) (omega arith)
test_bit_high (suc k) zero x h fits = absurd (omega arith)
test_bit_high (suc k) (suc n) x h fits =
    test_bit_high k n (x / 2) (omega arith) (omega (arith, pow-suc 2 k))

-- Numbers of `k` bits with the same bits are equal.
pub test_bit_ext :
    (k x y : ℕ) → x < 2 ^ k → y < 2 ^ k → ((n : ℕ) → n < k → test_bit x n ≡ test_bit y n) → x ≡ y
test_bit_ext zero x y hx hy same = omega arith
test_bit_ext (suc k) x y hx hy same =
    let upper =
      test_bit_ext k (x / 2) (y / 2) (omega (arith, pow-suc 2 k)) (omega (arith, pow-suc 2 k))
        (λ n h. same (suc n) (omega arith)) in
    omega (arith, same 0 (omega arith), upper)
