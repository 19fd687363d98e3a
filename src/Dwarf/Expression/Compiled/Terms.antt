-- ===== src/Dwarf/Expression/Compiled/Terms.antt =====
-- Expressions as trees, and the code a compiler emits for them, in the opcodes of
-- `dwarf_expression::eval`.
use gsdb.Common.{ℕ, ◌+◌, ◌<◌, ◌≡◌, refl, arith}
use gsdb.Common.{Bool, List, [], ◌∷◌, ◌++◌}
use gsdb.Common.{Outcome, ok, ◌>>=◌, or_undefined, if◌then◌else◌}
use gsdb.Common.Word.{two64, two63, add64, not64}
use gsdb.Dwarf.Cursor.{little_endian}
use gsdb.Dwarf.Cursor.Steps.{le_bytes}
use gsdb.Dwarf.Cursor.Sleb.{sleb_bytes, pattern_of}
use gsdb.Dwarf.Expression.{Context, Arith, Rel, Op, op_of, apply_arith, apply_rel}

-- An expression over constants, registers with an offset of the given sign, and memory.
pub data Term : Type 0 where
  small number : ℕ → Term
  based : ℕ → Bool → ℕ → Term
  binary : Arith → Term → Term → Term
  compare : Rel → Term → Term → Term
  complement deref : Term → Term

abbrev pub arith_byte : Arith → ℕ
arith_byte Arith.and = 0x1a
arith_byte Arith.minus = 0x1c
arith_byte Arith.modulus = 0x1d
arith_byte Arith.mul = 0x1e
arith_byte Arith.or = 0x21
arith_byte Arith.plus = 0x22
arith_byte Arith.shl = 0x24
arith_byte Arith.shr = 0x25
arith_byte Arith.shra = 0x26
arith_byte Arith.xor = 0x27

abbrev pub rel_byte : Rel → ℕ
rel_byte Rel.eq = 0x29
rel_byte Rel.ge = 0x2a
rel_byte Rel.gt = 0x2b
rel_byte Rel.le = 0x2c
rel_byte Rel.lt = 0x2d
rel_byte Rel.ne = 0x2e

pub op_of-arith_byte : (op : Arith) → op_of (arith_byte op) ≡ Op.arith op
unfolding op_of
op_of-arith_byte Arith.and = refl
op_of-arith_byte Arith.minus = refl
op_of-arith_byte Arith.modulus = refl
op_of-arith_byte Arith.mul = refl
op_of-arith_byte Arith.or = refl
op_of-arith_byte Arith.plus = refl
op_of-arith_byte Arith.shl = refl
op_of-arith_byte Arith.shr = refl
op_of-arith_byte Arith.shra = refl
op_of-arith_byte Arith.xor = refl

pub op_of-rel_byte : (op : Rel) → op_of (rel_byte op) ≡ Op.rel op
unfolding op_of
op_of-rel_byte Rel.eq = refl
op_of-rel_byte Rel.ge = refl
op_of-rel_byte Rel.gt = refl
op_of-rel_byte Rel.le = refl
op_of-rel_byte Rel.lt = refl
op_of-rel_byte Rel.ne = refl

pub op_of-small : (n : ℕ) → n < 32 → op_of (0x30 + n) ≡ Op.lit n
unfolding op_of
op_of-small n h = ground arith

pub op_of-based : (n : ℕ) → n < 32 → op_of (0x70 + n) ≡ Op.breg n
unfolding op_of
op_of-based n h = ground arith

unfoldable pub code : Term → List ℕ
code (Term.small n) = (0x30 + n) ∷ []
code (Term.number n) = 0x0e ∷ le_bytes 8 n
code (Term.based r neg n) = (0x70 + r) ∷ sleb_bytes neg 9 n
code (Term.binary op a b) = code a ++ (code b ++ (arith_byte op ∷ []))
code (Term.compare op a b) = code a ++ (code b ++ (rel_byte op ∷ []))
code (Term.complement a) = code a ++ (0x20 ∷ [])
code (Term.deref a) = code a ++ (0x06 ∷ [])

-- Operands that the code can hold.
abbrev pub Fits : Term → Type 0
Fits (Term.small n) = n < 32
Fits (Term.number n) = n < two64
Fits (Term.based r neg n) = (r < 32) × (n < two63)
Fits (Term.binary op a b) = Fits a × Fits b
Fits (Term.compare op a b) = Fits a × Fits b
Fits (Term.complement a) = Fits a
Fits (Term.deref a) = Fits a

-- The value of an expression in a stopped process.
unfoldable pub value : Context → Term → Outcome ℕ
value x (Term.small n) = ok n
value x (Term.number n) = ok n
value x (Term.based r neg n) = x.read_register r >>= λ v. ok (add64 v (pattern_of neg n))
value x (Term.binary op a b) = value x a >>= λ v. value x b >>= λ w. apply_arith op v w
value x (Term.compare op a b) =
    value x a >>= λ v. value x b >>= λ w. ok (if apply_rel op v w then 1 else 0)
value x (Term.complement a) = value x a >>= λ v. ok (not64 v)
value x (Term.deref a) =
    value x a >>= λ v. x.read_memory v 8 >>= λ memory. or_undefined (little_endian 8 memory)

-- The opcodes in an expression's code.
unfoldable pub opcodes : Term → ℕ
opcodes (Term.small n) = 1
opcodes (Term.number n) = 1
opcodes (Term.based r neg n) = 1
opcodes (Term.binary op a b) = opcodes a + opcodes b + 1
opcodes (Term.compare op a b) = opcodes a + opcodes b + 1
opcodes (Term.complement a) = opcodes a + 1
opcodes (Term.deref a) = opcodes a + 1
