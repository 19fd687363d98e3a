-- ===== src/Dwarf/Die/At.antt =====
-- The attributes that the debugger asks for, `DW_AT_*` of include/libgsdb/detail/dwarf.h.
use gsdb.Common.{ℕ}

abbrev pub sibling : ℕ
sibling = 0x01

abbrev pub location : ℕ
location = 0x02

abbrev pub name : ℕ
name = 0x03

abbrev pub byte_size : ℕ
byte_size = 0x0b

abbrev pub bit_offset : ℕ
bit_offset = 0x0c

abbrev pub bit_size : ℕ
bit_size = 0x0d

abbrev pub stmt_list : ℕ
stmt_list = 0x10

abbrev pub low_pc : ℕ
low_pc = 0x11

abbrev pub high_pc : ℕ
high_pc = 0x12

abbrev pub comp_dir : ℕ
comp_dir = 0x1b

abbrev pub abstract_origin : ℕ
abstract_origin = 0x31

abbrev pub decl_file : ℕ
decl_file = 0x3a

abbrev pub decl_line : ℕ
decl_line = 0x3b

abbrev pub specification : ℕ
specification = 0x47

abbrev pub ranges : ℕ
ranges = 0x55

abbrev pub call_file : ℕ
call_file = 0x58

abbrev pub call_line : ℕ
call_line = 0x59

abbrev pub data_bit_offset : ℕ
data_bit_offset = 0x6b
