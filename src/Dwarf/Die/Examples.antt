-- ===== src/Dwarf/Die/Examples.antt =====
-- A unit of four entries and its table of abbreviations, in bytes.
use gsdb.Common.{ℕ, ◌<◌, ◌≡◌, refl, arith}
use gsdb.Common.{true, false, List, [], ◌∷◌, ◌++◌, none, some, drop, All}
use gsdb.Common.{ok, undefined}
use gsdb.Dwarf.Cursor.{
  cursor_to, uleb128, leb_loop, fixed_int, skip_form, skip_rounds, skip_direct, skip_text, jump,
}
use gsdb.Dwarf.Form.{form_of}
use gsdb.Dwarf.LineTable.{FileAddr}
use gsdb.Dwarf.Cursor.Leb.{uleb_bytes}
use gsdb.Dwarf.Die.{Info, CompileUnit, Die, parse_die, locate, die_at, abbrev_table}
use gsdb.Dwarf.Die.Tables.{
  Abbrev, find_abbrev, parse_attr_specs, parse_abbrev, parse_abbrevs, parse_abbrev_table,
}
use gsdb.Dwarf.Die.Tables.Encoded.{
  IsDeclaration, IsSpec, table_bytes, declaration_bytes, parse_abbrev_table-table_bytes,
  parse_abbrev_table_overreads,
}
use gsdb.Dwarf.Die.Entries.{Contained, contains-attribute_of}
use gsdb.Dwarf.Die.Children.{children}
use gsdb.Dwarf.Die.Children.Forest.{Forest}
use gsdb.Dwarf.Die.Children.Walk.{children-Forest}
use gsdb.Dwarf.Die.At
use gsdb.Dwarf.Die.Tag

-- A function with a name and children, a variable with a name, an inlined function with a range.
abbrev function_abbrev : Abbrev
function_abbrev = record {
  code = 1;
  tag = Tag.subprogram;
  has_children = true;
  attr_specs = record { attr = At.name; form = 0x08 } ∷ [];
}

abbrev variable_abbrev : Abbrev
variable_abbrev = record {
  code = 2;
  tag = Tag.variable;
  has_children = false;
  attr_specs = record { attr = At.name; form = 0x08 } ∷ [];
}

abbrev inlined_abbrev : Abbrev
inlined_abbrev = record {
  code = 3;
  tag = Tag.inlined_subroutine;
  has_children = false;
  attr_specs =
      record { attr = At.low_pc; form = 0x01 } ∷ record { attr = At.high_pc; form = 0x07 } ∷ [];
}

abbrev end_abbrev : Abbrev
end_abbrev = record { code = 0; tag = 0; has_children = false; attr_specs = [] }

abbrev declarations : List Abbrev
declarations = function_abbrev ∷ variable_abbrev ∷ inlined_abbrev ∷ []

-- Their table in 28 bytes, the unit's header in 11 more, and the entries from 39 on.
abbrev table : List ℕ
table =
    1 ∷ 0x2e ∷ 1 ∷ 0x03 ∷ 0x08 ∷ 0 ∷ 0 ∷ 2 ∷ 0x34 ∷ 0 ∷ 0x03 ∷ 0x08 ∷ 0 ∷ 0 ∷ 3 ∷ 0x1d ∷ 0 ∷ 0x11
    ∷ 0x01 ∷ 0x12 ∷ 0x07 ∷ 0 ∷ 0 ∷ 0 ∷ 0 ∷ 0 ∷ 0 ∷ 0 ∷ []

abbrev entries : List ℕ
entries =
    31 ∷ 0 ∷ 0 ∷ 0 ∷ 4 ∷ 0 ∷ 0 ∷ 0 ∷ 0 ∷ 0 ∷ 8 ∷ 1 ∷ 0x66 ∷ 0 ∷ 2 ∷ 0x78 ∷ 0 ∷ 3 ∷ 0 ∷ 0x10 ∷ 0 ∷ 0
    ∷ 0 ∷ 0 ∷ 0 ∷ 0 ∷ 0x20 ∷ 0 ∷ 0 ∷ 0 ∷ 0 ∷ 0 ∷ 0 ∷ 0 ∷ 0 ∷ []

abbrev image : List ℕ
image = table ++ entries

abbrev info : Info
info = record {
  elf = 1;
  debug_info = record { start = 28; size = 35 };
  debug_abbrev = record { start = 0; size = 28 };
  debug_str = record { start = 63; size = 0 };
  debug_ranges = record { start = 63; size = 0 };
  debug_loc = record { start = 63; size = 0 };
}

abbrev unit : CompileUnit
unit = record { bytes = record { start = 28; size = 35 }; abbrev_offset = 0 }

abbrev function_die : Die
function_die = record {
  position = 39;
  unit = unit;
  abbrev_entry = some function_abbrev;
  next = 42;
  attr_locs = 40 ∷ [];
}

abbrev variable_die : Die
variable_die = record {
  position = 42;
  unit = unit;
  abbrev_entry = some variable_abbrev;
  next = 45;
  attr_locs = 43 ∷ [];
}

abbrev inlined_die : Die
inlined_die = record {
  position = 45;
  unit = unit;
  abbrev_entry = some inlined_abbrev;
  next = 62;
  attr_locs = 46 ∷ 54 ∷ [];
}

abbrev null_die : Die
null_die = record {
  position = 0;
  unit = record { bytes = record { start = 0; size = 0 }; abbrev_offset = 0 };
  abbrev_entry = none;
  next = 63;
  attr_locs = [];
}

table_read : parse_abbrev_table image info.debug_abbrev 0 ≡ ok declarations
unfolding parse_abbrev_table parse_abbrevs parse_abbrev parse_attr_specs uleb128 leb_loop jump
    fixed_int
table_read = refl

function_read : die_at image info unit 39 ≡ ok function_die
unfolding parse_die abbrev_table parse_abbrev_table parse_abbrevs parse_abbrev parse_attr_specs
    locate find_abbrev uleb128 leb_loop skip_form skip_rounds skip_direct form_of skip_text jump
    fixed_int
function_read = refl

variable_read : die_at image info unit 42 ≡ ok variable_die
unfolding parse_die abbrev_table parse_abbrev_table parse_abbrevs parse_abbrev parse_attr_specs
    locate find_abbrev uleb128 leb_loop skip_form skip_rounds skip_direct form_of skip_text jump
    fixed_int
variable_read = refl

inlined_read : die_at image info unit 45 ≡ ok inlined_die
unfolding parse_die abbrev_table parse_abbrev_table parse_abbrevs parse_abbrev parse_attr_specs
    locate find_abbrev uleb128 leb_loop skip_form skip_rounds skip_direct form_of skip_text jump
    fixed_int
inlined_read = refl

null_read : die_at image info unit 62 ≡ ok null_die
unfolding parse_die uleb128 leb_loop
null_read = refl

contains-attribute_of_example :
    Contained image unit (cursor_to 45 63) At.high_pc inlined_die inlined_abbrev
contains-attribute_of_example =
    contains-attribute_of image info unit (cursor_to 45 63) inlined_die inlined_abbrev At.high_pc
      inlined_read refl

forest : Forest image info (unit ∷ []) unit 42 (variable_die ∷ inlined_die ∷ []) 63
forest = Forest.leaf variable_die variable_abbrev variable_read refl refl (
    Forest.leaf inlined_die inlined_abbrev inlined_read refl refl
      (Forest.end null_die null_read refl refl))

children-Forest_example :
    children image info (unit ∷ []) function_die ≡ ok (variable_die ∷ inlined_die ∷ [])
children-Forest_example =
    children-Forest image info (unit ∷ []) unit function_die function_abbrev
      (variable_die ∷ inlined_die ∷ []) 63 refl refl refl forest

abbrev inside_inlined : FileAddr
inside_inlined = record { elf = 1; addr = 0x1010 }

are_declarations : All (λ a. IsDeclaration a × (0 < a.code)) declarations
are_declarations = (
  (
    record { code_range = omega arith; tag_range = omega arith; specs = (name_spec, tt) },
    omega arith,
  ),
  (
    (
      record { code_range = omega arith; tag_range = omega arith; specs = (name_spec, tt) },
      omega arith,
    ),
    (
      (
        record {
          code_range = omega arith;
          tag_range = omega arith;
          specs = (low_spec, (high_spec, tt));
        },
        omega arith,
      ),
      tt,
    ),
  ),
)
  where
    name_spec : IsSpec (record { attr = At.name; form = 0x08 })
    name_spec = (omega arith, omega arith, omega arith)

    low_spec : IsSpec (record { attr = At.low_pc; form = 0x01 })
    low_spec = (omega arith, omega arith, omega arith)

    high_spec : IsSpec (record { attr = At.high_pc; form = 0x07 })
    high_spec = (omega arith, omega arith, omega arith)

end-IsDeclaration : IsDeclaration end_abbrev
end-IsDeclaration = record { code_range = omega arith; tag_range = omega arith; specs = tt }

table_encodes : drop 0 image ≡ table_bytes declarations (declaration_bytes end_abbrev entries)
unfolding uleb_bytes
table_encodes = refl

parse_abbrev_table-table_bytes_example :
    parse_abbrev_table image (record { start = 0; size = 28 }) 0 ≡ ok declarations
parse_abbrev_table-table_bytes_example =
    parse_abbrev_table-table_bytes image (record { start = 0; size = 28 }) 0 declarations
      (omega arith) are_declarations end_abbrev entries end-IsDeclaration refl table_encodes

-- The same table with the one byte that ends it, at the end of the image.
abbrev short_table : List ℕ
short_table = table_bytes declarations (0 ∷ [])

parse_abbrev_table_overreads_example :
    parse_abbrev_table short_table (record { start = 0; size = 24 }) 0 ≡ undefined
parse_abbrev_table_overreads_example =
    parse_abbrev_table_overreads short_table (record { start = 0; size = 24 }) 0 declarations
      (omega arith) are_declarations refl
