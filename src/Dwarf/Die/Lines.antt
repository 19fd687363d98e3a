-- ===== src/Dwarf/Die/Lines.antt =====
-- `parse_line_table` of src/dwarf.cpp: the header of a unit's line table.
use gsdb.Common.{ℕ, zero, suc, ◌+◌, ◌-◌, not, List, [], ◌∷◌}
use gsdb.Common.{Option, none, some, length, get_elem?, ◌==◌, if◌then◌else◌}
use gsdb.Common.{Outcome, ok, exhausted, Error, guard, or_undefined, ◌>>=◌, ◌>>◌}
use gsdb.Common.Word.{sub64}
use gsdb.Dwarf.Cursor.{Span, Cursor, span_end, cursor_to, from_bytes, u8, u16, u32, s8, string}
use gsdb.Dwarf.FilePath.{is_absolute, join}
use gsdb.Dwarf.LineTable.{File, LineTable, parse_line_table_file}
use gsdb.Dwarf.Die.{Info, CompileUnit, contains, attribute_of, root}
use gsdb.Dwarf.Die.Values.{as_section_offset, as_string}
use gsdb.Dwarf.Die.At

-- How many operands the standard opcodes have; there are twelve.
abbrev pub expected_opcode_lens : List ℕ
expected_opcode_lens = 0 ∷ 1 ∷ 1 ∷ 1 ∷ 1 ∷ 0 ∷ 0 ∷ 0 ∷ 1 ∷ 0 ∷ 0 ∷ 1 ∷ []

module _ (image : List ℕ) where
  -- The check of the opcode lengths from the opcode `i` on; the array ends behind the twelfth.
  unfoldable pub check_opcode_lens : ℕ → ℕ → Cursor → Outcome Cursor
  check_opcode_lens zero i c = ok c
  check_opcode_lens (suc left) i c = do
    (len, c) ← u8 image c
    expected ← or_undefined (get_elem? expected_opcode_lens i)
    guard (len == expected) Error.unexpected_opcode_length
    check_opcode_lens left (i + 1) c

  -- The include directories, up to an empty text; a round takes a byte.
  unfoldable pub parse_include_dirs : ℕ → List ℕ → Cursor → Outcome (List (List ℕ) × Cursor)
  parse_include_dirs zero compilation_dir c = exhausted
  parse_include_dirs (suc rounds) compilation_dir c = string image c >>= λ d.
      let rest = parse_include_dirs rounds compilation_dir d.1 >>= λ r.
      ok ((if is_absolute d.0 then d.0 else join compilation_dir d.0) ∷ r.0, r.1) in
      if length d.0 == 0 then ok ([], d.1) else rest

  -- The file entries, up to a null byte, at which the cursor is left.
  unfoldable pub parse_file_names :
      ℕ → List ℕ → List (List ℕ) → Cursor → Outcome (List File × Cursor)
  parse_file_names zero compilation_dir include_dirs c = exhausted
  parse_file_names (suc rounds) compilation_dir include_dirs c = from_bytes 1 image c.pos >>= λ b.
      let rest = parse_line_table_file image compilation_dir include_dirs c >>= λ f.
      parse_file_names rounds compilation_dir include_dirs f.1 >>= λ r. ok (f.0 ∷ r.0, r.1) in
      if b == 0 then ok ([], c) else rest

  -- The table at the cursor: the header and the two lists. The compilation directory is asked for
  -- behind the opcode lengths.
  unfoldable pub parse_line_header : ℕ → Outcome (List ℕ) → Cursor → Outcome LineTable
  unfolding check_opcode_lens parse_include_dirs parse_file_names
  parse_line_header elf comp_dir c = do
    (size, c) ← u32 image c
    let end = c.pos + size
    (version, c) ← u16 image c
    guard (version == 4) Error.invalid_dwarf_version
    (header_length, c) ← u32 image c
    (min_instruction_len, c) ← u8 image c
    guard (min_instruction_len == 1) Error.bad_instruction_length
    (max_ops_per_instruction, c) ← u8 image c
    guard (max_ops_per_instruction == 1) Error.bad_instruction_length
    (default_is_stmt, c) ← u8 image c
    (line_base, c) ← s8 image c
    (line_range, c) ← u8 image c
    (opcode_base, c) ← u8 image c
    c ← check_opcode_lens (opcode_base - 1) 0 c
    compilation_dir ← comp_dir
    (include_dirs, c) ← parse_include_dirs (suc (length image)) compilation_dir c
    (file_names, c) ← parse_file_names (suc (length image)) compilation_dir include_dirs c
    let start = c.pos + 1
    ok (record {
      data_span = record { start = start; size = sub64 end start };
      elf = elf;
      comp_dir = compilation_dir;
      default_is_stmt = not (default_is_stmt == 0);
      line_base = line_base;
      line_range = line_range;
      opcode_base = opcode_base;
      include_dirs = include_dirs;
      file_names = file_names;
    })

  -- `parse_line_table`: none for a unit without one. `debug_line` is the section.
  unfoldable pub parse_line_table : Info → Span → CompileUnit → Outcome (Option LineTable)
  unfolding parse_line_header
  parse_line_table info debug_line u = root image info u >>= λ r.
      contains r At.stmt_list >>= λ has_lines.
      let table = attribute_of r At.stmt_list >>= as_section_offset image >>= λ offset.
      parse_line_header info.elf (attribute_of r At.comp_dir >>= as_string image info)
        (cursor_to (debug_line.start + offset) (span_end debug_line))
      >>= λ t. ok (some t) in
      if has_lines then table else ok none
