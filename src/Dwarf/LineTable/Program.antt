-- ===== src/Dwarf/LineTable/Program.antt =====
-- What the line program is to mean, instruction by instruction, and that `execute_instruction`
-- does it: the standard's state machine over instructions as data, and their encoding as bytes.
use gsdb.Common.{ℕ, suc, ◌+◌, ◌-◌, ◌/◌, ◌%◌, ◌≤◌, ◌<◌, ◌≡◌, ap, ◌∙◌, arith}
use gsdb.Common.{Bool, true, false, not, List, [], ◌∷◌, ◌++◌, Option, none, some, length, drop}
use gsdb.Common.{switch_on, ok}
use mathlib.Core.List.{append_assoc}
use gsdb.Common.{length-append, lt→ltb, le→ltb, ne→==}
use gsdb.Common.Word.{two64, two63, add64}
use gsdb.Dwarf.Cursor.{Cursor, move, cursor_to, span_end}
use gsdb.Dwarf.Cursor.Steps.{le_bytes, fixed_int-le_bytes, u8-cons, drop-step, drop-past}
use gsdb.Dwarf.Cursor.Leb.{uleb_bytes, length-uleb_bytes, uleb128-uleb_bytes}
use gsdb.Dwarf.Cursor.Sleb.{sleb_bytes, pattern_of, sleb128-sleb_bytes}
use gsdb.Dwarf.LineTable.{
  Entry, LineTable, Machine, Standard, Extended, standard_table, extended_table, shift_addr,
  start_entry, after_row, exec_standard, exec_extended, exec_special, execute_instruction,
}

-- The instructions, all but `DW_LNE_define_file` and `DW_LNS_set_isa`. A number to be added to the line is given by its
-- sign and magnitude, as `sleb_bytes` writes it.
pub data Instr : Type 0 where
  special : ℕ → Instr
  copy negate_stmt set_basic_block const_add_pc set_prologue_end set_epilogue_begin : Instr
  advance_pc set_file set_column fixed_advance_pc : ℕ → Instr
  advance_line : Bool → ℕ → Instr
  end_sequence : Instr
  set_address set_discriminator : ℕ → Instr

abbrev extended_bytes : List ℕ → List ℕ
extended_bytes body = 0 ∷ (uleb_bytes 9 (length body) ++ body)

unfoldable pub encode : LineTable → Instr → List ℕ
encode t (special adjusted) = (t.opcode_base + adjusted) ∷ []
encode t copy = 0x01 ∷ []
encode t (advance_pc n) = 0x02 ∷ uleb_bytes 9 n
encode t (advance_line neg n) = 0x03 ∷ sleb_bytes neg 9 n
encode t (set_file n) = 0x04 ∷ uleb_bytes 9 n
encode t (set_column n) = 0x05 ∷ uleb_bytes 9 n
encode t negate_stmt = 0x06 ∷ []
encode t set_basic_block = 0x07 ∷ []
encode t const_add_pc = 0x08 ∷ []
encode t (fixed_advance_pc n) = 0x09 ∷ le_bytes 2 n
encode t set_prologue_end = 0x0a ∷ []
encode t set_epilogue_begin = 0x0b ∷ []
encode t end_sequence = extended_bytes (0x01 ∷ [])
encode t (set_address a) = extended_bytes (0x02 ∷ le_bytes 8 a)
encode t (set_discriminator n) = extended_bytes (0x04 ∷ uleb_bytes 9 n)

-- Operands that their encoding holds, in a table with all standard opcodes.
abbrev pub Fits : LineTable → Instr → Type 0
Fits t (special adjusted) =
    (0 < t.opcode_base) × (0 < t.line_range) × (t.opcode_base + adjusted < 256)
Fits t (advance_pc n) = (12 < t.opcode_base) × (n < two64)
Fits t (advance_line neg n) = (12 < t.opcode_base) × (n < two63)
Fits t (set_file n) = (12 < t.opcode_base) × (n < two64)
Fits t (set_column n) = (12 < t.opcode_base) × (n < two64)
Fits t (fixed_advance_pc n) = (12 < t.opcode_base) × (n < 65536)
Fits t (set_address n) = (12 < t.opcode_base) × (n < two64)
Fits t (set_discriminator n) = (12 < t.opcode_base) × (n < two64)
Fits t const_add_pc = (12 < t.opcode_base) × (0 < t.line_range)
Fits t i = 12 < t.opcode_base

-- The row that an instruction appends to the matrix, if any, and the registers behind it.
unfoldable pub meaning : LineTable → Instr → Entry → Option Entry × Entry
meaning t (special adjusted) r =
    let row = record r {
      address = shift_addr r.address (adjusted / t.line_range);
      line = add64 r.line (add64 t.line_base (adjusted % t.line_range));
    } in
    (some row, after_row row)
meaning t copy r = (some r, after_row r)
meaning t (advance_pc n) r = (none, record r { address = shift_addr r.address n })
meaning t (advance_line neg n) r = (none, record r { line = add64 r.line (pattern_of neg n) })
meaning t (set_file n) r = (none, record r { file_index = n })
meaning t (set_column n) r = (none, record r { column = n })
meaning t negate_stmt r = (none, record r { is_stmt = not r.is_stmt })
meaning t set_basic_block r = (none, record r { basic_block_start = true })
-- The address of special opcode 255, and no row.
meaning t const_add_pc r =
    (none, record r { address = shift_addr r.address ((255 - t.opcode_base) / t.line_range) })
meaning t (fixed_advance_pc n) r = (none, record r { address = shift_addr r.address n })
meaning t set_prologue_end r = (none, record r { prologue_end = true })
meaning t set_epilogue_begin r = (none, record r { epilogue_begin = true })
meaning t end_sequence r = (some (record r { end_sequence = true }), start_entry t)
meaning t (set_address a) r = (none, record r { address = record { elf = t.elf; addr = a } })
meaning t (set_discriminator n) r = (none, record r { discriminator = n })

-- The machine behind an instruction of the given size.
abbrev pub stepped : Machine → Option Entry × Entry → ℕ → Machine × Bool
stepped m (none, r) size = (record m { registers = r; pos = m.pos + size }, false)
stepped m (some row, r) size = (record m { current = row; registers = r; pos = m.pos + size }, true)

-- Where the machine stands: the cursor behind the opcode.
abbrev behind : Machine → Cursor
behind m = move (cursor_to m.pos (span_end m.table.data_span)) 1

-- The first byte decides which group of opcodes executes.
execute-standard :
    (image : List ℕ) (m : Machine) (opcode : ℕ) (rest : List ℕ)
    → drop m.pos image ≡ opcode ∷ rest
    → 0 < opcode
    → opcode < m.table.opcode_base
    → execute_instruction image m
      ≡ exec_standard image m (behind m) (switch_on opcode Standard.other standard_table)
unfolding execute_instruction
execute-standard image m opcode rest e lo hi = rw (
  u8-cons image (cursor_to m.pos (span_end m.table.data_span)) opcode rest e,
  lt→ltb 0 opcode lo,
  lt→ltb opcode m.table.opcode_base hi,
)

execute-special :
    (image : List ℕ) (m : Machine) (opcode : ℕ) (rest : List ℕ)
    → drop m.pos image ≡ opcode ∷ rest
    → 0 < opcode
    → m.table.opcode_base ≤ opcode
    → execute_instruction image m ≡ exec_special m (behind m) opcode
unfolding execute_instruction
execute-special image m opcode rest e lo hi = rw (
  u8-cons image (cursor_to m.pos (span_end m.table.data_span)) opcode rest e,
  lt→ltb 0 opcode lo,
  le→ltb opcode m.table.opcode_base hi,
  ne→== opcode 0 (omega arith),
)

-- Behind the zero byte, the length and the extended opcode.
execute-extended :
    (image : List ℕ) (m : Machine) (size opcode : ℕ) (rest : List ℕ)
    → size < two64
    → drop m.pos image ≡ 0 ∷ (uleb_bytes 9 size ++ (opcode ∷ rest))
    → execute_instruction image m
      ≡ exec_extended image m
          (move (move (behind m) (length (uleb_bytes 9 size))) 1)
          (switch_on opcode Extended.other extended_table)
unfolding execute_instruction
execute-extended image m size opcode rest h e =
    let after : drop (m.pos + 1) image ≡ uleb_bytes 9 size ++ (opcode ∷ rest) =
      drop-step image m.pos 0 _ e in
    let last : drop (m.pos + 1 + length (uleb_bytes 9 size)) image ≡ opcode ∷ rest =
      drop-past image (m.pos + 1) (uleb_bytes 9 size) (opcode ∷ rest) after in
    rw (
      u8-cons image (cursor_to m.pos (span_end m.table.data_span)) 0 _ e,
      uleb128-uleb_bytes image size (behind m) (opcode ∷ rest) h after,
      u8-cons image (move (behind m) (length (uleb_bytes 9 size))) opcode rest last,
    )

regroup :
    (image : List ℕ) (m : Machine) (body rest : List ℕ)
    → drop m.pos image ≡ extended_bytes body ++ rest
    → drop m.pos image ≡ 0 ∷ (uleb_bytes 9 (length body) ++ (body ++ rest))
regroup image m body rest e =
    e ∙ ap (λ (l : List ℕ). 0 ∷ l) (append_assoc (uleb_bytes 9 (length body)) body rest)

-- The bytes behind the extended opcode.
operand :
    (image : List ℕ) (m : Machine) (size opcode : ℕ) (rest : List ℕ)
    → drop m.pos image ≡ 0 ∷ (uleb_bytes 9 size ++ (opcode ∷ rest))
    → drop (m.pos + 1 + length (uleb_bytes 9 size) + 1) image ≡ rest
operand image m size opcode rest e =
    drop-step image (m.pos + 1 + length (uleb_bytes 9 size)) opcode rest (
      drop-past image (m.pos + 1) (uleb_bytes 9 size) (opcode ∷ rest) (drop-step image m.pos 0 _ e))

-- `execute_instruction` does what the standard says, for every instruction but `DW_LNE_define_file`
-- and `DW_LNS_set_isa` whose operands fit their encoding, in a table that has all twelve standard
-- opcodes (a special opcode needs one only) and whose line range is not 0 where the instruction
-- divides by it: it changes the registers, emits the row or none, and moves past exactly the
-- instruction's bytes, whatever follows them.
pub execute-encode :
    (image : List ℕ) (m : Machine) (i : Instr) (rest : List ℕ)
    → Fits m.table i
    → drop m.pos image ≡ encode m.table i ++ rest
    → execute_instruction image m
      ≡ ok (stepped m (meaning m.table i m.registers) (length (encode m.table i)))
unfolding encode exec_standard meaning exec_extended exec_special
execute-encode image m (special adjusted) rest h e =
    execute-special image m (m.table.opcode_base + adjusted) rest e (omega arith) (omega arith)
    ∙ rw (ne→== m.table.line_range 0 (omega arith), back m.table.opcode_base adjusted)
  where
    back : (base n : ℕ) → base + n - base ≡ n
    back base n = omega arith
execute-encode image m copy rest h e = execute-standard image m 1 rest e (omega arith) (omega arith)
execute-encode image m (advance_pc n) rest h e =
    execute-standard image m 2 _ e (omega arith) (omega arith)
    ∙ rw (uleb128-uleb_bytes image n (behind m) rest h.1 (drop-step image m.pos 2 _ e))
        (ground arith)
execute-encode image m (advance_line neg n) rest h e =
    execute-standard image m 3 _ e (omega arith) (omega arith)
    ∙ rw (sleb128-sleb_bytes image neg n (behind m) rest h.1 (drop-step image m.pos 3 _ e))
        (ground arith)
execute-encode image m (set_file n) rest h e =
    execute-standard image m 4 _ e (omega arith) (omega arith)
    ∙ rw (uleb128-uleb_bytes image n (behind m) rest h.1 (drop-step image m.pos 4 _ e))
        (ground arith)
execute-encode image m (set_column n) rest h e =
    execute-standard image m 5 _ e (omega arith) (omega arith)
    ∙ rw (uleb128-uleb_bytes image n (behind m) rest h.1 (drop-step image m.pos 5 _ e))
        (ground arith)
execute-encode image m negate_stmt rest h e =
    execute-standard image m 6 rest e (omega arith) (omega arith)
execute-encode image m set_basic_block rest h e =
    execute-standard image m 7 rest e (omega arith) (omega arith)
execute-encode image m const_add_pc rest h e =
    execute-standard image m 8 rest e (omega arith) (omega arith)
    ∙ rw (ne→== m.table.line_range 0 (omega arith))
execute-encode image m (fixed_advance_pc n) rest h e =
    execute-standard image m 9 _ e (omega arith) (omega arith)
    ∙ rw (fixed_int-le_bytes image 2 n (behind m) rest h.1 (drop-step image m.pos 9 _ e))
        (ground arith)
execute-encode image m set_prologue_end rest h e =
    execute-standard image m 10 rest e (omega arith) (omega arith)
execute-encode image m set_epilogue_begin rest h e =
    execute-standard image m 11 rest e (omega arith) (omega arith)
execute-encode image m end_sequence rest h e =
    execute-extended image m 1 1 rest (omega arith) (regroup image m (0x01 ∷ []) rest e)
    ∙ rw (length-append (uleb_bytes 9 1) (0x01 ∷ [])) (ground arith)
execute-encode image m (set_address a) rest h e =
    execute-extended image m 9 2 (le_bytes 8 a ++ rest) (omega arith)
      (regroup image m (0x02 ∷ le_bytes 8 a) rest e)
    ∙ rw
        (
          fixed_int-le_bytes image 8 a (move (move (behind m) (length (uleb_bytes 9 9))) 1) rest h.1
              (operand image m 9 2 (le_bytes 8 a ++ rest)
                (regroup image m (0x02 ∷ le_bytes 8 a) rest e)),
          length-append (uleb_bytes 9 9) (0x02 ∷ le_bytes 8 a),
        )
        (ground arith)
execute-encode image m (set_discriminator n) rest h e =
    let size = suc (length (uleb_bytes 9 n)) in
    let bytes = regroup image m (0x04 ∷ uleb_bytes 9 n) rest e in
    execute-extended image m size 4 (uleb_bytes 9 n ++ rest) (short n) bytes
    ∙ rw
        (
          uleb128-uleb_bytes image n (move (move (behind m) (length (uleb_bytes 9 size))) 1) rest
              h.1 (operand image m size 4 (uleb_bytes 9 n ++ rest) bytes),
          length-append (uleb_bytes 9 size) (0x04 ∷ uleb_bytes 9 n),
        )
        (ground arith)
  where
    short : (n : ℕ) → suc (length (uleb_bytes 9 n)) < two64
    short n = omega (arith, length-uleb_bytes 9 n)

-- `DW_LNS_set_isa` has an operand, which `execute_instruction` leaves unread: it moves past the
-- opcode alone, so the operand's bytes are executed as the next instruction.
set_isa_leaves_operand :
    (image : List ℕ) (m : Machine) (n : ℕ) (rest : List ℕ)
    → 12 < m.table.opcode_base
    → drop m.pos image ≡ 0x0c ∷ (uleb_bytes 9 n ++ rest)
    → (execute_instruction image m ≡ ok (record m { pos = m.pos + 1 }, false))
      × (drop (m.pos + 1) image ≡ uleb_bytes 9 n ++ rest)
unfolding exec_standard
set_isa_leaves_operand image m n rest h e =
    (execute-standard image m 12 _ e (omega arith) (omega arith), drop-step image m.pos 12 _ e)
