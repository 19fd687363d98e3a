-- ===== src/Dwarf/Examples.antt =====
-- The decoders and machines on concrete bytes.
use gsdb.Common.{ℕ, ◌≡◌, refl, arith, true, List, [], ◌∷◌}
use gsdb.Common.{some, ok, Ends}
use mathlib.Core.Path.{subst}
use gsdb.Dwarf.Cursor.{Cursor, move, uleb128, sleb128, leb_loop, fixed_int}
use gsdb.Dwarf.Cursor.Leb.{uleb_bytes, uleb128-uleb_bytes}
use gsdb.Dwarf.Cursor.Sleb.{sleb_bytes, sleb128-sleb_bytes}
use gsdb.Dwarf.LineTable.{
  File, Entry, LineTable, Machine, Iterator, start_entry, advance_at, execute_instruction, begin,
  increment, run_until_row, attach_file, exec_standard, exec_extended, exec_special, addr_le,
  addr_gt,
}
use gsdb.Dwarf.LineTable.Program.{special, advance_pc, encode, meaning, stepped, execute-encode}
use gsdb.Dwarf.LineTable.{FileAddr}
use gsdb.Dwarf.LineTable.Lookup.{scan_rows, covers, get_entry_by_address}
use gsdb.Dwarf.LineTable.Found.{Answer, get_entry_by_address-Ends}
use gsdb.Dwarf.LineTable.Rows.{advance_at-Ends, Later}
use gsdb.Dwarf.LineTable.Emits.{advance_at-encode_all, encode_all, meaning_all, emits}

-- The example of the DWARF standard: 624485 in three bytes, behind a byte that is skipped.
abbrev some_bytes : List ℕ
some_bytes = 0xff ∷ 0xe5 ∷ 0x8e ∷ 0x26 ∷ 0x07 ∷ []

abbrev at_one : Cursor
at_one = record { span = record { start = 0; size = 5 }; pos = 1 }

uleb128-uleb_bytes_example : uleb128 some_bytes at_one ≡ ok (624485, move at_one 3)
unfolding uleb_bytes
uleb128-uleb_bytes_example =
    uleb128-uleb_bytes some_bytes 624485 at_one (0x07 ∷ []) (omega arith) refl

-- -127, by its magnitude 126, in two bytes.
abbrev minus_127 : List ℕ
minus_127 = 0x81 ∷ 0x7f ∷ []

abbrev at_zero : Cursor
at_zero = record { span = record { start = 0; size = 2 }; pos = 0 }

sleb128-sleb_bytes_example : sleb128 minus_127 at_zero ≡ ok (18446744073709551489, move at_zero 2)
unfolding sleb_bytes
sleb128-sleb_bytes_example = sleb128-sleb_bytes minus_127 true 126 at_zero [] (omega arith) refl

-- A line program: advance the address by 3, then special opcode 0x4b, in a table as gcc writes it.
abbrev program : List ℕ
program = 0x02 ∷ 0x03 ∷ 0x4b ∷ 0x0c ∷ 0x01 ∷ []

abbrev main_file : File
main_file = record { path = 0x2f ∷ 0x61 ∷ []; mod_time = 0; file_len = 0 }

abbrev table : LineTable
table = record {
  data_span = record { start = 0; size = 5 };
  elf = 1;
  comp_dir = 0x2f ∷ [];
  default_is_stmt = true;
  line_base = 18446744073709551611;
  line_range = 14;
  opcode_base = 13;
  include_dirs = [];
  file_names = main_file ∷ [];
}

abbrev machine : Machine
machine = record {
  table = table;
  current = start_entry table;
  registers = start_entry table;
  pos = 0;
}

abbrev iterator : Iterator
iterator = record {
  table = table;
  current = start_entry table;
  registers = start_entry table;
  pos = some 0;
}

execute-encode_example :
    execute_instruction program machine
    ≡ ok (stepped machine (meaning table (advance_pc 3) (start_entry table)) 2)
unfolding encode uleb_bytes
execute-encode_example =
    execute-encode program machine (advance_pc 3) (0x4b ∷ 0x0c ∷ 0x01 ∷ [])
      (omega arith, omega arith) refl

abbrev at_isa : Machine
at_isa = record machine { pos = 3 }

advance_at-Ends_example : Ends (Later program 0) (advance_at program iterator 0)
advance_at-Ends_example = advance_at-Ends program iterator 0

-- The row that the special opcode emits: address 3 + 4, line 1 + 1.
abbrev emitted : Entry
emitted = record (start_entry table) { address = record { elf = 0; addr = 7 }; line = 2 }

advance_at-encode_all_example :
    advance_at program iterator 0
    ≡ ok (record iterator {
      current = record emitted { file_entry = some main_file };
      registers =
          (meaning table
            (special 62)
            (meaning_all table (advance_pc 3 ∷ []) (start_entry table))).1;
      pos = some 3;
    })
unfolding encode_all encode uleb_bytes meaning_all meaning emits
advance_at-encode_all_example =
    advance_at-encode_all program iterator 0 (advance_pc 3 ∷ []) (special 62) (0x0c ∷ 0x01 ∷ [])
      emitted main_file (λ e. absurd (omega arith)) ((refl, (omega arith, omega arith)), tt)
      (omega arith, omega arith, omega arith) refl refl refl

-- A sequence of the object 1: rows at 0x1000 and 0x1004, and its end at 0x1008.
abbrev sequence : List ℕ
sequence =
    0x00 ∷ 0x09 ∷ 0x02 ∷ 0x00 ∷ 0x10 ∷ 0 ∷ 0 ∷ 0 ∷ 0 ∷ 0 ∷ 0 ∷ 0x01 ∷ 0x4b ∷ 0x02 ∷ 0x04 ∷ 0x00
    ∷ 0x01 ∷ 0x01 ∷ []

abbrev sequence_table : LineTable
sequence_table = record table { data_span = record { start = 0; size = 18 } }

abbrev inside : FileAddr
inside = record { elf = 1; addr = 0x1005 }

-- The row at 0x1004, behind which the iterator stands on the byte 13.
abbrev second_entry : Entry
second_entry = record (start_entry table) { address = record { elf = 1; addr = 0x1004 }; line = 2 }

abbrev second_row : Iterator
second_row = record {
  table = sequence_table;
  current = record second_entry { file_entry = some main_file };
  registers = second_entry;
  pos = some 13;
}

finds_second_row : get_entry_by_address sequence sequence_table inside ≡ ok (some second_row)
unfolding get_entry_by_address scan_rows covers begin increment advance_at run_until_row attach_file
    execute_instruction exec_standard exec_extended exec_special addr_le addr_gt uleb128 leb_loop
    fixed_int
finds_second_row = refl

get_entry_by_address-Ends_example : Answer sequence sequence_table inside (some second_row)
get_entry_by_address-Ends_example =
    subst (Ends (Answer sequence sequence_table inside)) finds_second_row
      (get_entry_by_address-Ends sequence sequence_table inside)
