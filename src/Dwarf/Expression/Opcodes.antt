-- ===== src/Dwarf/Expression/Opcodes.antt =====
-- The opcodes that `dwarf_expression::eval` knows, and their encoding.
use gsdb.Dwarf.Expression.Words.{Arith, Rel}
use gsdb.Common.{ℕ, ◌-◌, Bool, ◌&&◌}
use gsdb.Common.{List, [], ◌∷◌, switch_on}
use gsdb.Common.{leb, if◌then◌else◌}

pub data Op : Type 0 where
  addr const1u const1s const2u const2s const4u const4s const8u const8s constu consts : Op
  bregx fbreg dup drop pick over swap rot deref deref_size unsupported call_frame_cfa : Op
  div abs neg plus_uconst complement skip bra regx implicit_value stack_value nop piece bit_piece :
      Op
  arith : Arith → Op
  rel : Rel → Op
  lit breg reg : ℕ → Op
  unknown : Op

abbrev op_table : List (ℕ × Op)
op_table =
    (0x03, Op.addr)
    ∷ (0x06, Op.deref)
    ∷ (0x08, Op.const1u)
    ∷ (0x09, Op.const1s)
    ∷ (0x0a, Op.const2u)
    ∷ (0x0b, Op.const2s)
    ∷ (0x0c, Op.const4u)
    ∷ (0x0d, Op.const4s)
    ∷ (0x0e, Op.const8u)
    ∷ (0x0f, Op.const8s)
    ∷ (0x10, Op.constu)
    ∷ (0x11, Op.consts)
    ∷ (0x12, Op.dup)
    ∷ (0x13, Op.drop)
    ∷ (0x14, Op.over)
    ∷ (0x15, Op.pick)
    ∷ (0x16, Op.swap)
    ∷ (0x17, Op.rot)
    ∷ (0x18, Op.unsupported)
    ∷ (0x19, Op.abs)
    ∷ (0x1a, Op.arith Arith.and)
    ∷ (0x1b, Op.div)
    ∷ (0x1c, Op.arith Arith.minus)
    ∷ (0x1d, Op.arith Arith.modulus)
    ∷ (0x1e, Op.arith Arith.mul)
    ∷ (0x1f, Op.neg)
    ∷ (0x20, Op.complement)
    ∷ (0x21, Op.arith Arith.or)
    ∷ (0x22, Op.arith Arith.plus)
    ∷ (0x23, Op.plus_uconst)
    ∷ (0x24, Op.arith Arith.shl)
    ∷ (0x25, Op.arith Arith.shr)
    ∷ (0x26, Op.arith Arith.shra)
    ∷ (0x27, Op.arith Arith.xor)
    ∷ (0x28, Op.bra)
    ∷ (0x29, Op.rel Rel.eq)
    ∷ (0x2a, Op.rel Rel.ge)
    ∷ (0x2b, Op.rel Rel.gt)
    ∷ (0x2c, Op.rel Rel.le)
    ∷ (0x2d, Op.rel Rel.lt)
    ∷ (0x2e, Op.rel Rel.ne)
    ∷ (0x2f, Op.skip)
    ∷ (0x90, Op.regx)
    ∷ (0x91, Op.fbreg)
    ∷ (0x92, Op.bregx)
    ∷ (0x93, Op.piece)
    ∷ (0x94, Op.deref_size)
    ∷ (0x95, Op.unsupported)
    ∷ (0x96, Op.nop)
    ∷ (0x97, Op.unsupported)
    ∷ (0x98, Op.unsupported)
    ∷ (0x99, Op.unsupported)
    ∷ (0x9a, Op.unsupported)
    ∷ (0x9b, Op.unsupported)
    ∷ (0x9c, Op.call_frame_cfa)
    ∷ (0x9d, Op.bit_piece)
    ∷ (0x9e, Op.implicit_value)
    ∷ (0x9f, Op.stack_value)
    ∷ []

abbrev between : ℕ → ℕ → ℕ → Bool
between low high n = leb low n && leb n high

-- The chain of tests on literals and registers, then the `switch`, where the opcodes that raise
-- "not supported" share a constructor.
unfoldable pub op_of : ℕ → Op
op_of opcode =
    if between 0x30 0x4f opcode
    then Op.lit (opcode - 0x30)
    else if between 0x70 0x8f opcode
    then Op.breg (opcode - 0x70)
    else if between 0x50 0x6f opcode
    then Op.reg (opcode - 0x50)
    else switch_on opcode Op.unknown op_table
