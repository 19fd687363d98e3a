-- ===== src/Dwarf/Expression/Operands.antt =====
-- Where `eval` continues behind `DW_OP_bra` and `DW_OP_implicit_value`.
use gsdb.Common.{ℕ, ◌+◌, ◌<◌, ◌≡◌, ◌≢◌, refl, arith}
use gsdb.Common.{Bool, List, ◌∷◌, ◌++◌, some, length, drop, ok, ne→==}
use gsdb.Common.Word.{two64, sign_extend}
use gsdb.Dwarf.Cursor.{Cursor, move, jump, signed_int}
use gsdb.Dwarf.Cursor.Steps.{le_bytes, fixed_int-le_bytes, u8-cons, drop-step, drop-past}
use gsdb.Dwarf.Cursor.Leb.{uleb_bytes, uleb128-uleb_bytes}
use gsdb.Dwarf.Expression.{Context, Location, State, op_of, exec, step}

-- `DW_OP_bra` pops the top of the stack. Where that is not 0 it continues at the 16-bit signed
-- offset from the end of the operand. Where it is 0 it does not move past the operand: the next
-- opcode is read from the operand's own first byte.
bra_operand :
    (x : Context) (image : List ℕ) (frame : Bool) (s : State) (c : Cursor) (top off : ℕ)
    (below rest : List ℕ)
    → off < 65536
    → s.stack ≡ top ∷ below
    → drop c.pos image ≡ 0x28 ∷ (le_bytes 2 off ++ rest)
    → (top ≢ 0
        → step x image frame s c
          ≡ ok (record s { stack = below }, jump (move c 3) (sign_extend 16 off)))
      × (top ≡ 0
          → (step x image frame s c ≡ ok (record s { stack = below }, move c 1))
            × (drop (c.pos + 1) image ≡ le_bytes 2 off ++ rest))
unfolding step exec op_of jump signed_int
bra_operand x image frame s c top off below rest h pops e =
    let behind = drop-step image c.pos 0x28 _ e in
    (
      λ taken.
          rw
            (
              u8-cons image c 0x28 _ e,
              pops,
              ne→== top 0 taken,
              fixed_int-le_bytes image 2 off (move c 1) rest h behind,
            )
            (ground arith),
      λ falls. (rw (u8-cons image c 0x28 _ e, pops, falls) refl, behind),
    )

-- `DW_OP_implicit_value` names the bytes behind its length as the location, and leaves the cursor
-- in front of them: they are read as the next opcodes.
implicit_value_operand :
    (x : Context) (image : List ℕ) (frame : Bool) (s : State) (c : Cursor) (block rest : List ℕ)
    → length block < two64
    → drop c.pos image ≡ 0x9e ∷ (uleb_bytes 9 (length block) ++ (block ++ rest))
    → (end : Cursor) × (step x image frame s c
        ≡ ok (
          record s {
            most_recent_location =
                some (Location.bytes (record { start = end.pos; size = length block }));
          },
          end,
        ))
      × (drop end.pos image ≡ block ++ rest)
unfolding step exec op_of
implicit_value_operand x image frame s c block rest h e =
    let behind = drop-step image c.pos 0x9e _ e in
    let end = move (move c 1) (length (uleb_bytes 9 (length block))) in
    (
      end,
      rw
          (
            u8-cons image c 0x9e _ e,
            uleb128-uleb_bytes image (length block) (move c 1) (block ++ rest) h behind,
          )
          refl,
      drop-past image (c.pos + 1) (uleb_bytes 9 (length block)) (block ++ rest) behind,
    )
