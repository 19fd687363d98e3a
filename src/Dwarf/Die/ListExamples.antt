-- ===== src/Dwarf/Die/ListExamples.antt =====
-- A range list, a location list and the header of a line table, in bytes.
use gsdb.Common.{ℕ, suc, ◌≡◌, refl, arith}
use gsdb.Common.{true, List, [], ◌∷◌, some, length}
use gsdb.Common.{ok}
use gsdb.Dwarf.Cursor.{cursor_to}
use gsdb.Dwarf.Cursor.{fixed_int, signed_int, string, uleb128, leb_loop}
use gsdb.Dwarf.FilePath.{join}
use gsdb.Dwarf.LineTable.{parse_line_table_file}
use gsdb.Dwarf.Die.Lines.{parse_line_header, check_opcode_lens}
use gsdb.Dwarf.Die.Ranges.{ranges_contain}
use gsdb.Dwarf.Die.Ranges.Refines.{RangeItem, ranges_contain-covers}
use gsdb.Dwarf.Die.Locations.{find_location}
use gsdb.Dwarf.Die.Locations.Chosen.{LocationItem, find_location-chosen}

-- [0x10, 0x20) and, from the base 0x1000, [0, 8).
abbrev ranges : List ℕ
ranges =
    0x10 ∷ 0 ∷ 0 ∷ 0 ∷ 0 ∷ 0 ∷ 0 ∷ 0 ∷ 0x20 ∷ 0 ∷ 0 ∷ 0 ∷ 0 ∷ 0 ∷ 0 ∷ 0 ∷ 255 ∷ 255 ∷ 255 ∷ 255
    ∷ 255 ∷ 255 ∷ 255 ∷ 255 ∷ 0 ∷ 0x10 ∷ 0 ∷ 0 ∷ 0 ∷ 0 ∷ 0 ∷ 0 ∷ 0 ∷ 0 ∷ 0 ∷ 0 ∷ 0 ∷ 0 ∷ 0 ∷ 0 ∷ 8
    ∷ 0 ∷ 0 ∷ 0 ∷ 0 ∷ 0 ∷ 0 ∷ 0 ∷ 0 ∷ 0 ∷ 0 ∷ 0 ∷ 0 ∷ 0 ∷ 0 ∷ 0 ∷ 0 ∷ 0 ∷ 0 ∷ 0 ∷ 0 ∷ 0 ∷ 0 ∷ 0 ∷ []

abbrev range_items : List RangeItem
range_items = RangeItem.range 0x10 0x20 ∷ RangeItem.select 0x1000 ∷ RangeItem.range 0 8 ∷ []

ranges_contain-covers_example :
    ranges_contain ranges
      (record {
        elf = 1;
        bytes = record { start = 0; size = 64 };
        base_address = record { elf = 1; addr = 0x400 };
      })
      (record { elf = 1; addr = 0x1003 })
    ≡ ok true
ranges_contain-covers_example =
    ranges_contain-covers ranges
      (record {
        elf = 1;
        bytes = record { start = 0; size = 64 };
        base_address = record { elf = 1; addr = 0x400 };
      })
      (record { elf = 1; addr = 0x1003 }) refl range_items []
      ((omega arith, omega arith, refl), (omega arith, ((omega arith, omega arith, refl), tt))) refl

-- An expression of one byte for [0x10, 0x20), and one of two for the base 0x1000 and [0, 8).
abbrev locations : List ℕ
locations =
    0x10 ∷ 0 ∷ 0 ∷ 0 ∷ 0 ∷ 0 ∷ 0 ∷ 0 ∷ 0x20 ∷ 0 ∷ 0 ∷ 0 ∷ 0 ∷ 0 ∷ 0 ∷ 0 ∷ 1 ∷ 0 ∷ 0x50 ∷ 255 ∷ 255
    ∷ 255 ∷ 255 ∷ 255 ∷ 255 ∷ 255 ∷ 255 ∷ 0 ∷ 0x10 ∷ 0 ∷ 0 ∷ 0 ∷ 0 ∷ 0 ∷ 0 ∷ 0 ∷ 0 ∷ 0 ∷ 0 ∷ 0 ∷ 0
    ∷ 0 ∷ 0 ∷ 8 ∷ 0 ∷ 0 ∷ 0 ∷ 0 ∷ 0 ∷ 0 ∷ 0 ∷ 2 ∷ 0 ∷ 0x91 ∷ 0x08 ∷ 0 ∷ 0 ∷ 0 ∷ 0 ∷ 0 ∷ 0 ∷ 0 ∷ 0
    ∷ 0 ∷ 0 ∷ 0 ∷ 0 ∷ 0 ∷ 0 ∷ 0 ∷ 0 ∷ []

abbrev location_items : List LocationItem
location_items =
    LocationItem.located 0x10 0x20 (0x50 ∷ [])
    ∷ LocationItem.select 0x1000
    ∷ LocationItem.located 0 8 (0x91 ∷ 0x08 ∷ [])
    ∷ []

find_location-chosen_example :
    find_location (suc (length locations)) locations 0x1003 0x400 (cursor_to 0 71)
    ≡ ok (some (record { start = 53; size = 2 }))
find_location-chosen_example =
    find_location-chosen locations 0x1003 (omega arith) location_items 0x400 (cursor_to 0 71) []
      (
        (omega arith, omega arith, omega arith, refl),
        (omega arith, ((omega arith, omega arith, omega arith, refl), tt)),
      )
      refl

-- The header of a line table, as gcc writes it, with one file, and five bytes of program.
abbrev line_bytes : List ℕ
line_bytes =
    36 ∷ 0 ∷ 0 ∷ 0 ∷ 4 ∷ 0 ∷ 25 ∷ 0 ∷ 0 ∷ 0 ∷ 1 ∷ 1 ∷ 1 ∷ 0xfb ∷ 14 ∷ 13 ∷ 0 ∷ 1 ∷ 1 ∷ 1 ∷ 1 ∷ 0 ∷ 0
    ∷ 0 ∷ 1 ∷ 0 ∷ 0 ∷ 1 ∷ 0 ∷ 0x61 ∷ 0 ∷ 0 ∷ 0 ∷ 0 ∷ 0 ∷ 0 ∷ 0 ∷ 0 ∷ 0 ∷ 0 ∷ []

header_read :
    parse_line_header line_bytes 1 (ok (0x2f ∷ [])) (cursor_to 0 40)
    ≡ ok (record {
      data_span = record { start = 35; size = 5 };
      elf = 1;
      comp_dir = 0x2f ∷ [];
      default_is_stmt = true;
      line_base = 18446744073709551611;
      line_range = 14;
      opcode_base = 13;
      include_dirs = [];
      file_names = record { path = 0x2f ∷ 0x61 ∷ []; mod_time = 0; file_len = 0 } ∷ [];
    })
unfolding parse_line_header check_opcode_lens fixed_int signed_int string parse_line_table_file
    uleb128 leb_loop join
header_read = refl
