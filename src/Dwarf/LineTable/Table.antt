-- ===== src/Dwarf/LineTable/Table.antt =====
-- The line table of src/dwarf.cpp as data: its files, and the registers of its program.
use gsdb.Common.{ℕ, ◌-◌, Bool, false}
use gsdb.Common.{List, [], ◌∷◌, Option, none, get_elem?}
use gsdb.Common.{ltb, leb, ◌==◌, if◌then◌else◌, Outcome, ok, undefined}
use gsdb.Common.{or_undefined, ◌>>=◌}
use gsdb.Common.Word.{add64}
use gsdb.Dwarf.Cursor.{Span, Cursor, uleb128, string}
use gsdb.Dwarf.FilePath.{join, is_absolute}

-- `file_addr`: the object it belongs to (0 is the null pointer) and the address.
pub record FileAddr : Type 0 where
  pub elf : ℕ
  pub addr : ℕ

abbrev pub no_addr : FileAddr
no_addr = record { elf = 0; addr = 0 }

abbrev pub shift_addr : FileAddr → ℕ → FileAddr
shift_addr a n = record a { addr = add64 a.addr n }

-- `<=` and `>` assert that both addresses belong to one object.
unfoldable pub addr_le : FileAddr → FileAddr → Outcome Bool
addr_le a b = if a.elf == b.elf then ok (leb a.addr b.addr) else undefined

unfoldable pub addr_gt : FileAddr → FileAddr → Outcome Bool
addr_gt a b = if a.elf == b.elf then ok (ltb b.addr a.addr) else undefined

pub record File : Type 0 where
  pub path : List ℕ
  pub mod_time : ℕ
  pub file_len : ℕ

-- `line_table::entry`, the registers of the line program. `file_entry` is the pointer that the
-- iterator fills in.
pub record Entry : Type 0 where
  pub address : FileAddr
  pub file_index : ℕ
  pub line : ℕ
  pub column : ℕ
  pub is_stmt : Bool
  pub basic_block_start : Bool
  pub end_sequence : Bool
  pub prologue_end : Bool
  pub epilogue_begin : Bool
  pub discriminator : ℕ
  pub file_entry : Option File

pub record LineTable : Type 0 where
  pub data_span : Span
  pub elf : ℕ
  pub comp_dir : List ℕ
  pub default_is_stmt : Bool
  pub line_base : ℕ
  pub line_range : ℕ
  pub opcode_base : ℕ
  pub include_dirs : List (List ℕ)
  pub file_names : List File

-- `entry{}` with `is_stmt` set from the table.
abbrev pub start_entry : LineTable → Entry
start_entry t = record {
  address = no_addr;
  file_index = 1;
  line = 1;
  column = 0;
  is_stmt = t.default_is_stmt;
  basic_block_start = false;
  end_sequence = false;
  prologue_end = false;
  epilogue_begin = false;
  discriminator = 0;
  file_entry = none;
}

-- `parse_line_table_file`.
unfoldable pub resolve_path : List ℕ → List (List ℕ) → List ℕ → ℕ → Outcome (List ℕ)
resolve_path comp_dir include_dirs [] dir_index = undefined
resolve_path comp_dir include_dirs (c ∷ name) dir_index =
    if is_absolute (c ∷ name)
    then ok (c ∷ name)
    else if dir_index == 0
    then ok (join comp_dir (c ∷ name))
    else (or_undefined (get_elem? include_dirs (dir_index - 1)) >>= λ dir. ok (join dir (c ∷ name)))

unfoldable pub parse_line_table_file :
    List ℕ → List ℕ → List (List ℕ) → Cursor → Outcome (File × Cursor)
unfolding resolve_path
parse_line_table_file image comp_dir include_dirs c = do
  (name, c) ← string image c
  (dir_index, c) ← uleb128 image c
  (modification_time, c) ← uleb128 image c
  (file_length, c) ← uleb128 image c
  path ← resolve_path comp_dir include_dirs name dir_index
  ok (record { path = path; mod_time = modification_time; file_len = file_length }, c)
