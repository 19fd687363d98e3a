-- ===== src/Dwarf/Expression.antt =====
-- `dwarf_expression` of src/dwarf.cpp and include/libgsdb/dwarf.hpp: the stack machine of `eval`.
-- What an expression asks of the stopped process is the record `Context`.
mod Opcodes
mod Words
pub mod Compiled
mod Operands
pub mod Examples
unfoldable pub use Opcodes.*
unfoldable pub use Words.*
use gsdb.Common.{ℕ, zero, suc, ◌+◌, ◌-◌, ◌*◌, ◌/◌, ◌%◌, ◌^◌, Bool, true, false, not, ◌&&◌, ◌||◌}
use gsdb.Common.{bit_and, bit_or, bit_xor}
use gsdb.Common.{List, [], ◌∷◌, ◌++◌, Option, none, some, length, get_elem?, switch_on}
use gsdb.Common.{ltb, leb, ◌==◌, if◌then◌else◌, Outcome, ok, err, undefined, exhausted, Error}
use gsdb.Common.{or_undefined, or_err, ◌>>=◌}
use gsdb.Common.Word.{two64, two63, add64, sub64, mul64, neg64, not64, shl64, is_neg, slt, sle}
use gsdb.Dwarf.Cursor.{Span, Cursor, cursor_of, jump, finished, little_endian}
use gsdb.Dwarf.Cursor.{u8, u16, u32, u64, s8, s16, s32, s64, uleb128, sleb128}

-- What `eval` reads of the process and its registers: a register by its DWARF number, the memory,
-- the canonical frame address, the object's load bias, the function around the program counter and
-- that function's frame base.
pub record Context : Type 0 where
  pub read_register : ℕ → Outcome ℕ
  pub read_memory : ℕ → ℕ → Outcome (List ℕ)
  pub cfa : ℕ
  pub load_bias : ℕ
  pub enclosing_function : Outcome (Option ℕ)
  pub frame_base : ℕ → Outcome ℕ

-- `simple_location`.
pub data Location : Type 0 where
  address register literal : ℕ → Location
  bytes : Span → Location
  empty : Location

pub record Piece : Type 0 where
  pub location : Location
  pub bit_size : ℕ
  pub offset : ℕ

-- `result`.
pub data Result : Type 0 where
  simple : Location → Result
  pieces : List Piece → Result

-- The variables of `eval`; the stack has its top first.
pub record State : Type 0 where
  pub stack : List ℕ
  pub most_recent_location : Option Location
  pub found : List Piece
  pub result_is_address : Bool

abbrev pub Step : Type 0
Step = Outcome (State × Cursor)

abbrev pub with_stack : State → Cursor → List ℕ → Step
with_stack s c stack = ok (record s { stack = stack }, c)

abbrev pub push : State → Cursor → ℕ → Step
push s c v = with_stack s c (v ∷ s.stack)

-- `stack.back()` with the stack below it.
abbrev pub top : List ℕ → Outcome (ℕ × List ℕ)
top [] = undefined
top (v ∷ stack) = ok (v, stack)

-- `get_current_location`, with the state behind it.
unfoldable pub get_current_location : State → Location × State
get_current_location s = elim s.stack [
  | [] ↦ (
    elim s.most_recent_location [ none ↦ Location.empty | some loc ↦ loc ],
    record s { most_recent_location = none },
  )
  | v ∷ stack ↦
      if s.result_is_address
      then (Location.address v, record s { stack = stack })
      else (Location.literal v, record s { stack = stack; result_is_address = true })
]

module _ (context : Context) (image : List ℕ) (in_frame_info : Bool) where
  abbrev push_read : State → Outcome (ℕ × Cursor) → Step
  push_read s r = r >>= λ v. push s v.1 v.0

  -- `stack.back() = f(stack.back())`.
  abbrev on_top : State → Cursor → (ℕ → Outcome ℕ) → Step
  on_top s c f = do (v, stack) ← top s.stack; w ← f v; with_stack s c (w ∷ stack)

  -- `binop` and `relop`: the right operand is on top.
  abbrev on_two : State → Cursor → (ℕ → ℕ → Outcome ℕ) → Step
  on_two s c f = do
    (rhs, stack) ← top s.stack
    (lhs, stack) ← top stack
    v ← f lhs rhs
    with_stack s c (v ∷ stack)

  abbrev set_location : State → Cursor → Location → Step
  set_location s c loc = ok (record s { most_recent_location = some loc }, c)

  abbrev add_piece : State → Cursor → ℕ → ℕ → Step
  add_piece s c bit_size offset =
      let r = get_current_location s in
      let s' = r.1 in
      let p : Piece = record { location = r.0; bit_size = bit_size; offset = offset } in
      ok (record s' { found = s'.found ++ (p ∷ []) }, c)

  abbrev based : State → Cursor → ℕ → Step
  based s c number = do
    v ← context.read_register number
    (offset, c) ← sleb128 image c
    push s c (add64 v offset)

  -- A register as a value in frame information, and else as a location.
  abbrev in_register : State → Cursor → ℕ → Step
  in_register s c number =
      if in_frame_info
      then (context.read_register number >>= λ v. push s c v)
      else set_location s c (Location.register number)

  -- The effect of one opcode, behind the opcode byte.
  unfoldable pub exec : State → Cursor → Op → Step
  unfolding get_current_location
  exec s c (Op.lit n) = push s c n
  exec s c (Op.breg n) = based s c n
  exec s c (Op.reg n) = in_register s c n
  exec s c Op.addr = u64 image c >>= λ r. push s r.1 (add64 r.0 context.load_bias)
  exec s c Op.const1u = push_read s (u8 image c)
  exec s c Op.const1s = push_read s (s8 image c)
  exec s c Op.const2u = push_read s (u16 image c)
  exec s c Op.const2s = push_read s (s16 image c)
  exec s c Op.const4u = push_read s (u32 image c)
  exec s c Op.const4s = push_read s (s32 image c)
  exec s c Op.const8u = push_read s (u64 image c)
  exec s c Op.const8s = push_read s (s64 image c)
  exec s c Op.constu = push_read s (uleb128 image c)
  exec s c Op.consts = push_read s (sleb128 image c)
  exec s c Op.bregx = uleb128 image c >>= λ r. based s r.1 r.0
  exec s c Op.fbreg = do
    (offset, c) ← sleb128 image c
    enclosing ← context.enclosing_function
    function ← or_err Error.bad_optional_access enclosing
    base ← context.frame_base function
    push s c (add64 base offset)
  exec s c Op.dup = top s.stack >>= λ t. push s c t.0
  exec s c Op.drop = top s.stack >>= λ t. with_stack s c t.1
  exec s c Op.pick = do (n, c) ← u8 image c; v ← or_undefined (get_elem? s.stack n); push s c v
  exec s c Op.over = or_undefined (get_elem? s.stack 1) >>= λ v. push s c v
  exec s c Op.swap = do
    (a, stack) ← top s.stack
    (b, stack) ← top stack
    with_stack s c (b ∷ a ∷ stack)
  exec s c Op.rot = do
    (a, stack) ← top s.stack
    (b, stack) ← top stack
    (d, stack) ← top stack
    with_stack s c (b ∷ d ∷ a ∷ stack)
  exec s c Op.deref =
      on_top s c λ a. context.read_memory a 8 >>= λ memory. or_undefined (little_endian 8 memory)
  exec s c Op.deref_size = do
    (a, stack) ← top s.stack
    (size, c) ← u8 image c
    memory ← context.read_memory a size
    v ←
        (if ltb 8 (length memory)
          then undefined
          else or_undefined (little_endian (length memory) memory))
    with_stack s c (v ∷ stack)
  exec s c Op.unsupported = err Error.unsupported_opcode
  exec s c Op.call_frame_cfa = push s c context.cfa
  exec s c (Op.arith op) = on_two s c (apply_arith op)
  exec s c (Op.rel op) = on_two s c λ lhs rhs. ok (if apply_rel op lhs rhs then 1 else 0)
  exec s c Op.div = on_two s c sdiv
  exec s c Op.abs = on_top s c λ v. if is_neg v then sneg v else ok v
  exec s c Op.neg = on_top s c sneg
  exec s c Op.plus_uconst = do (n, c) ← uleb128 image c; on_top s c (λ v. ok (add64 v n))
  exec s c Op.complement = on_top s c (λ v. ok (not64 v))
  exec s c Op.skip = s16 image c >>= λ r. ok (s, jump r.1 r.0)
  exec s c Op.bra = do
    (v, stack) ← top s.stack
    c ← (if v == 0 then ok c else (s16 image c >>= λ r. ok (jump r.1 r.0)))
    with_stack s c stack
  exec s c Op.regx = uleb128 image c >>= λ r. in_register s r.1 r.0
  exec s c Op.implicit_value = do
    (n, c) ← uleb128 image c
    set_location s c (Location.bytes (record { start = c.pos; size = n }))
  exec s c Op.stack_value = ok (record s { result_is_address = false }, c)
  exec s c Op.nop = ok (s, c)
  exec s c Op.piece = uleb128 image c >>= λ r. add_piece s r.1 (mul64 r.0 8) 0
  exec s c Op.bit_piece = do
    (bit_size, c) ← uleb128 image c
    (offset, c) ← uleb128 image c
    add_piece s c bit_size offset
  exec s c Op.unknown = ok (s, c)

  -- One round of the loop.
  unfoldable pub step : State → Cursor → Step
  step s c = u8 image c >>= λ r. exec s r.1 (op_of r.0)

  -- `while (!cur.finished())`: a branch may go back, so the rounds are an argument.
  unfoldable pub run : ℕ → State → Cursor → Outcome State
  run zero s c = if finished c then ok s else exhausted
  run (suc rounds) s c = elim (finished c) [
    | true ↦ ok s
    | false ↦ step s c >>= λ r. run rounds r.0 r.1
  ]

  unfoldable pub conclude : State → Result
  conclude s = elim s.found [
    | [] ↦ Result.simple (get_current_location s).0
    | p ∷ ps ↦ Result.pieces (p ∷ ps)
  ]

  -- `eval`.
  unfoldable pub eval : ℕ → Span → Bool → Outcome Result
  unfolding run conclude
  eval rounds expr_data push_cfa = do
    let start = if push_cfa then context.cfa ∷ [] else []
    _ ← context.enclosing_function
    s ←
        run rounds
          (record {
            stack = start;
            most_recent_location = none;
            found = [];
            result_is_address = true;
          })
          (cursor_of expr_data)
    ok (conclude s)
