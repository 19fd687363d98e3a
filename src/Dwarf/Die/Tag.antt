-- ===== src/Dwarf/Die/Tag.antt =====
-- The tags that the debugger asks for, `DW_TAG_*` of include/libgsdb/detail/dwarf.h.
use gsdb.Common.{ℕ}

abbrev pub formal_parameter : ℕ
formal_parameter = 0x05

abbrev pub inlined_subroutine : ℕ
inlined_subroutine = 0x1d

abbrev pub subprogram : ℕ
subprogram = 0x2e

abbrev pub variable : ℕ
variable = 0x34
