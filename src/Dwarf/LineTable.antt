-- ===== src/Dwarf/LineTable.antt =====
-- The line table of src/dwarf.cpp and include/libgsdb/dwarf.hpp: the line program's registers, one
-- instruction, the iterator over the emitted rows and the lookups by address and by line.
-- `file_names` is the table's mutable list, so an instruction returns the table as well.
mod Table
pub mod Program
pub mod Rows
pub mod Emits
pub mod Lookup
pub mod Found
unfoldable pub use Table.*
use gsdb.Common.{ℕ, zero, suc, ◌+◌, ◌-◌, ◌*◌, ◌/◌, ◌%◌, Bool, true, false, not, ◌&&◌, ◌||◌}
use gsdb.Common.{List, [], ◌∷◌, ◌++◌, Option, none, some, length, get_elem?, switch_on}
use gsdb.Common.{ltb, leb, ◌==◌, if◌then◌else◌, Outcome, ok, err, undefined, exhausted, Error}
use gsdb.Common.{or_undefined, ◌>>=◌}
use gsdb.Common.Word.{two64, add64, sub64}
use gsdb.Dwarf.Cursor.{Span, Cursor, span_end, cursor_to, u8, u16, u64, uleb128, sleb128, string}
use gsdb.Dwarf.FilePath.{join, is_absolute, path_ends_in}

-- The members of the iterator while an instruction runs; `pos` is its byte pointer.
pub record Machine : Type 0 where
  pub table : LineTable
  pub current : Entry
  pub registers : Entry
  pub pos : ℕ

pub data Standard : Type 0 where
  copy advance_pc advance_line set_file set_column negate_stmt set_basic_block : Standard
  const_add_pc fixed_advance_pc set_prologue_end set_epilogue_begin set_isa other : Standard

pub data Extended : Type 0 where
  end_sequence set_address define_file set_discriminator other : Extended

abbrev pub standard_table : List (ℕ × Standard)
standard_table =
    (0x01, Standard.copy)
    ∷ (0x02, Standard.advance_pc)
    ∷ (0x03, Standard.advance_line)
    ∷ (0x04, Standard.set_file)
    ∷ (0x05, Standard.set_column)
    ∷ (0x06, Standard.negate_stmt)
    ∷ (0x07, Standard.set_basic_block)
    ∷ (0x08, Standard.const_add_pc)
    ∷ (0x09, Standard.fixed_advance_pc)
    ∷ (0x0a, Standard.set_prologue_end)
    ∷ (0x0b, Standard.set_epilogue_begin)
    ∷ (0x0c, Standard.set_isa)
    ∷ []

abbrev pub extended_table : List (ℕ × Extended)
extended_table =
    (0x01, Extended.end_sequence)
    ∷ (0x02, Extended.set_address)
    ∷ (0x03, Extended.define_file)
    ∷ (0x04, Extended.set_discriminator)
    ∷ []

-- What every emitted row resets.
abbrev pub after_row : Entry → Entry
after_row r = record r {
  basic_block_start = false;
  prologue_end = false;
  epilogue_begin = false;
  discriminator = 0;
}

-- An instruction's result, with whether it emitted a row.
abbrev pub Executed : Type 0
Executed = Outcome (Machine × Bool)

abbrev quiet : Machine → Entry → Cursor → Executed
quiet m r c = ok (record m { registers = r; pos = c.pos }, false)

abbrev emit : Machine → Entry → Entry → Cursor → Executed
emit m row r c = ok (record m { current = row; registers = r; pos = c.pos }, true)

-- The standard opcodes: the `switch` on an opcode in 1 … opcode_base - 1.
unfoldable pub exec_standard : List ℕ → Machine → Cursor → Standard → Executed
exec_standard image m c Standard.copy = emit m m.registers (after_row m.registers) c
exec_standard image m c Standard.advance_pc = do
  (n, c) ← uleb128 image c
  let r = m.registers
  quiet m (record r { address = shift_addr r.address n }) c
exec_standard image m c Standard.advance_line = do
  (n, c) ← sleb128 image c
  let r = m.registers
  quiet m (record r { line = add64 r.line n }) c
exec_standard image m c Standard.set_file = do
  (n, c) ← uleb128 image c
  let r = m.registers
  quiet m (record r { file_index = n }) c
exec_standard image m c Standard.set_column = do
  (n, c) ← uleb128 image c
  let r = m.registers
  quiet m (record r { column = n }) c
exec_standard image m c Standard.negate_stmt =
    let r = m.registers in quiet m (record r { is_stmt = not r.is_stmt }) c
exec_standard image m c Standard.set_basic_block =
    let r = m.registers in quiet m (record r { basic_block_start = true }) c
exec_standard image m c Standard.const_add_pc =
    let r = m.registers in
    let t = m.table in
    if t.line_range == 0
    then undefined
    else quiet m
        (record r { address = shift_addr r.address ((255 - t.opcode_base) / t.line_range) }) c
exec_standard image m c Standard.fixed_advance_pc = do
  (n, c) ← u16 image c
  let r = m.registers
  quiet m (record r { address = shift_addr r.address n }) c
exec_standard image m c Standard.set_prologue_end =
    let r = m.registers in quiet m (record r { prologue_end = true }) c
exec_standard image m c Standard.set_epilogue_begin =
    let r = m.registers in quiet m (record r { epilogue_begin = true }) c
exec_standard image m c Standard.set_isa = quiet m m.registers c
exec_standard image m c Standard.other = err Error.unexpected_standard_opcode

-- The extended opcodes, behind the length.
unfoldable pub exec_extended : List ℕ → Machine → Cursor → Extended → Executed
exec_extended image m c Extended.end_sequence =
    let r = m.registers in emit m (record r { end_sequence = true }) (start_entry m.table) c
exec_extended image m c Extended.set_address = do
  (a, c) ← u64 image c
  let r = m.registers
  let t = m.table
  quiet m (record r { address = record { elf = t.elf; addr = a } }) c
exec_extended image m c Extended.define_file = do
  let t = m.table
  (file, c) ← parse_line_table_file image t.comp_dir t.include_dirs c
  quiet (record m { table = record t { file_names = t.file_names ++ (file ∷ []) } }) m.registers c
exec_extended image m c Extended.set_discriminator = do
  (n, c) ← uleb128 image c
  let r = m.registers
  quiet m (record r { discriminator = n }) c
exec_extended image m c Extended.other = err Error.unexpected_extended_opcode

-- The special opcodes, from opcode_base on.
unfoldable pub exec_special : Machine → Cursor → ℕ → Executed
exec_special m c opcode =
    let t = m.table in
    let adjusted = opcode - t.opcode_base in
    let r = m.registers in
    let row = record r {
      address = shift_addr r.address (adjusted / t.line_range);
      line = add64 r.line (add64 t.line_base (adjusted % t.line_range));
    } in
    if t.line_range == 0 then undefined else emit m row (after_row row) c

-- `execute_instruction`.
unfoldable pub execute_instruction : List ℕ → Machine → Executed
execute_instruction image m = do
  let t = m.table
  (opcode, c) ← u8 image (cursor_to m.pos (span_end t.data_span))
  if ltb 0 opcode && ltb opcode t.opcode_base
      then exec_standard image m c (switch_on opcode Standard.other standard_table)
      else if opcode == 0
      then (uleb128 image c >>= λ l. u8 image l.1 >>= λ e.
          exec_extended image m e.1 (switch_on e.0 Extended.other extended_table))
      else exec_special m c opcode

-- `do { emitted = execute_instruction(); } while (!emitted);`
unfoldable pub run_until_row : ℕ → List ℕ → Machine → Outcome Machine
run_until_row zero image m = exhausted
run_until_row (suc rounds) image m = execute_instruction image m >>= λ s. elim s.1 [
  | true ↦ ok s.0
  | false ↦ run_until_row rounds image s.0
]

-- The iterator: `pos` is `none` at the end, where the code holds a null pointer.
pub record Iterator : Type 0 where
  pub table : LineTable
  pub current : Entry
  pub registers : Entry
  pub pos : Option ℕ

abbrev paused : Machine → Iterator
paused m = record {
  table = m.table;
  current = m.current;
  registers = m.registers;
  pos = some m.pos;
}

-- The row's file entry: file indices begin at 1.
unfoldable pub attach_file : Machine → Outcome Iterator
attach_file m = do
  let t = m.table
  let row = m.current
  file ← or_undefined (get_elem? t.file_names (sub64 row.file_index 1))
  ok (paused (record m { current = record row { file_entry = some file } }))

-- `operator++` at a byte pointer; each instruction takes a byte, so the image bounds the rounds.
unfoldable pub advance_at : List ℕ → Iterator → ℕ → Outcome Iterator
advance_at image it p =
    let t = it.table in
    if p == span_end t.data_span
    then ok (record it { pos = none })
    else (run_until_row (suc (length image - p)) image
          (record { table = t; current = it.current; registers = it.registers; pos = p })
        >>= attach_file)

-- `operator++`; on the end iterator it reads through a null pointer.
unfoldable pub increment : List ℕ → Iterator → Outcome Iterator
unfolding advance_at
increment image it = or_undefined it.pos >>= advance_at image it

-- `begin`.
unfoldable pub begin : List ℕ → LineTable → Outcome Iterator
begin image t = increment image (record {
  table = t;
  current = start_entry t;
  registers = start_entry t;
  pos = some t.data_span.start;
})

abbrev pub at_end : Iterator → Bool
at_end it = elim it.pos [ none ↦ true | some p ↦ false ]
