-- ===== src/Dwarf/Expression/Words.antt =====
-- What the operators of `dwarf_expression::eval` compute on 64-bit words.
use gsdb.Common.{ℕ, ◌-◌, ◌/◌, ◌%◌, ◌^◌, Bool, not, ◌&&◌, ◌||◌}
use gsdb.Common.{bit_and, bit_or, bit_xor}
use gsdb.Common.{ltb, ◌==◌, if◌then◌else◌, Outcome, ok, undefined}
use gsdb.Common.Word.{two64, two63, add64, sub64, mul64, neg64, not64, shl64, is_neg, slt, sle}

pub data Arith : Type 0 where
  minus modulus mul and or plus shl shr shra xor : Arith

pub data Rel : Type 0 where
  le ge eq lt gt ne : Rel

-- The operations of `binop` on 64-bit operands.
unfoldable pub apply_arith : Arith → ℕ → ℕ → Outcome ℕ
apply_arith Arith.minus lhs rhs = ok (sub64 lhs rhs)
apply_arith Arith.modulus lhs rhs = if rhs == 0 then undefined else ok (lhs % rhs)
apply_arith Arith.mul lhs rhs = ok (mul64 lhs rhs)
apply_arith Arith.and lhs rhs = ok (bit_and lhs rhs)
apply_arith Arith.or lhs rhs = ok (bit_or lhs rhs)
apply_arith Arith.plus lhs rhs = ok (add64 lhs rhs)
apply_arith Arith.shl lhs rhs = if ltb rhs 64 then ok (shl64 lhs rhs) else undefined
apply_arith Arith.shr lhs rhs = if ltb rhs 64 then ok (lhs / 2 ^ rhs) else undefined
apply_arith Arith.shra lhs rhs =
    if ltb rhs 64
    then ok (if is_neg lhs then not64 (not64 lhs / 2 ^ rhs) else lhs / 2 ^ rhs)
    else undefined
apply_arith Arith.xor lhs rhs = ok (bit_xor lhs rhs)

-- The comparisons of `relop`, on `std::int64_t`.
unfoldable pub apply_rel : Rel → ℕ → ℕ → Bool
apply_rel Rel.le lhs rhs = sle lhs rhs
apply_rel Rel.ge lhs rhs = sle rhs lhs
apply_rel Rel.eq lhs rhs = lhs == rhs
apply_rel Rel.lt lhs rhs = slt lhs rhs
apply_rel Rel.gt lhs rhs = slt rhs lhs
apply_rel Rel.ne lhs rhs = not (lhs == rhs)

abbrev magnitude : ℕ → ℕ
magnitude a = if is_neg a then neg64 a else a

-- Division of `std::int64_t`: it truncates, and has no result for 0 and for the quotient 2 ^ 63.
unfoldable pub sdiv : ℕ → ℕ → Outcome ℕ
sdiv lhs rhs =
    let q = magnitude lhs / magnitude rhs in
    if rhs == 0 || lhs == two63 && rhs == two64 - 1
    then undefined
    else (if is_neg lhs
        then ok (if is_neg rhs then q else neg64 q)
        else ok (if is_neg rhs then neg64 q else q))

-- `std::abs` and negation have no result at the least value.
unfoldable pub sneg : ℕ → Outcome ℕ
sneg a = if a == two63 then undefined else ok (neg64 a)
