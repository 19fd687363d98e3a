-- ===== src/Dwarf/Expression/Examples.antt =====
-- Expressions on concrete bytes.
use gsdb.Common.{ℕ, ◌≡◌, refl, arith, true, false, List, [], ◌∷◌, none, ok}
use gsdb.Dwarf.Cursor.{Cursor, move, fixed_int}
use gsdb.Dwarf.Cursor.Sleb.{sleb_bytes}
use gsdb.Dwarf.Expression.{
  Context, Location, Result, Arith, State, apply_arith, eval, step, exec, op_of,
}
use gsdb.Dwarf.Expression.Compiled.{Term, code, value, opcodes, eval-code}

-- A process with a register file of sevens and no memory.
abbrev stopped : Context
stopped = record {
  read_register = λ n. ok 7;
  read_memory = λ a n. ok [];
  cfa = 0x1000;
  load_bias = 0;
  enclosing_function = ok none;
  frame_base = λ f. ok 0;
}

-- DW_OP_breg6 -2, DW_OP_lit3, DW_OP_mul.
abbrev product : Term
product = Term.binary Arith.mul (Term.based 6 true 1) (Term.small 3)

abbrev product_bytes : List ℕ
product_bytes = 0x76 ∷ 0x7e ∷ 0x33 ∷ 0x1e ∷ []

eval-code_example :
    eval stopped product_bytes false 5 (record { start = 0; size = 4 }) true
    ≡ ok (Result.simple (Location.address 15))
unfolding code opcodes value apply_arith sleb_bytes
eval-code_example =
    eval-code stopped product_bytes false true product 0 2 15 [] none
      ((omega arith, omega arith), omega arith) refl refl refl

abbrev two_on_stack : State
two_on_stack = record {
  stack = 0 ∷ 5 ∷ [];
  most_recent_location = none;
  found = [];
  result_is_address = true;
}

abbrev start : Cursor
start = record { span = record { start = 0; size = 3 }; pos = 0 }

-- DW_OP_bra -3.
abbrev branch_bytes : List ℕ
branch_bytes = 0x28 ∷ 0xfd ∷ 0xff ∷ []

-- The branch is not taken, and its operand is next.
branch_not_taken :
    step stopped branch_bytes false two_on_stack start
    ≡ ok (record two_on_stack { stack = 5 ∷ [] }, move start 1)
unfolding step fixed_int exec op_of
branch_not_taken = refl

-- DW_OP_implicit_value of the bytes 0x30, 0x31, which are opcodes too.
abbrev implicit_bytes : List ℕ
implicit_bytes = 0x9e ∷ 0x02 ∷ 0x30 ∷ 0x31 ∷ []
