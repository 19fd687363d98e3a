-- ===== src/Common/Word.antt =====
-- Machine words: a w-bit value is a number below 2 ^ w, signed types are the same bit patterns.
use Prim.Native.Nat.{ℕ, ◌+◌, ◌-◌, ◌*◌, ◌%◌, ◌^◌}
use mathlib.Core.Bool.{Bool}
use gsdb.Common.Tests.{ltb, leb, if◌then◌else◌}

abbrev pub two64 : ℕ
two64 = 18446744073709551616

abbrev pub two63 : ℕ
two63 = 9223372036854775808

-- `std::uint64_t` addition, subtraction, multiplication, negation and complement.
abbrev pub add64 : ℕ → ℕ → ℕ
add64 a b = (a + b) % two64

abbrev pub sub64 : ℕ → ℕ → ℕ
sub64 a b = (a + two64 - b) % two64

abbrev pub mul64 : ℕ → ℕ → ℕ
mul64 a b = a * b % two64

abbrev pub neg64 : ℕ → ℕ
neg64 a = (two64 - a) % two64

abbrev pub not64 : ℕ → ℕ
not64 a = two64 - 1 - a

abbrev pub shl64 : ℕ → ℕ → ℕ
shl64 a k = a * 2 ^ k % two64

-- The bit pattern `a` of `w` bits, widened to 64 bits with its sign.
abbrev pub sign_extend : ℕ → ℕ → ℕ
sign_extend w a = if ltb a (2 ^ (w - 1)) then a else a + two64 - 2 ^ w

-- The sign of the `std::int64_t` with bit pattern `a`.
abbrev pub is_neg : ℕ → Bool
is_neg a = leb two63 a

-- `<` and `<=` on `std::int64_t`: flipping the sign bit turns them into those of numbers.
abbrev pub bias : ℕ → ℕ
bias a = (a + two63) % two64

abbrev pub slt : ℕ → ℕ → Bool
slt a b = ltb (bias a) (bias b)

abbrev pub sle : ℕ → ℕ → Bool
sle a b = leb (bias a) (bias b)
