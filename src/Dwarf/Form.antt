-- ===== src/Dwarf/Form.antt =====
-- The attribute forms, `DW_FORM_*` of include/libgsdb/detail/dwarf.h. `other` is any number that
-- has no name there.
use gsdb.Common.{ℕ, List, [], ◌∷◌, switch_on}

pub data Form : Type 0 where
  addr block2 block4 data2 data4 data8 string block block1 data1 flag sdata strp udata : Form
  ref_addr ref1 ref2 ref4 ref8 ref_udata indirect sec_offset exprloc flag_present : Form
  ref_sig8 other : Form

pub Form-discrete : Discrete Form
Form-discrete = hlevel

abbrev pub form_table : List (ℕ × Form)
form_table =
    (0x01, Form.addr)
    ∷ (0x03, Form.block2)
    ∷ (0x04, Form.block4)
    ∷ (0x05, Form.data2)
    ∷ (0x06, Form.data4)
    ∷ (0x07, Form.data8)
    ∷ (0x08, Form.string)
    ∷ (0x09, Form.block)
    ∷ (0x0a, Form.block1)
    ∷ (0x0b, Form.data1)
    ∷ (0x0c, Form.flag)
    ∷ (0x0d, Form.sdata)
    ∷ (0x0e, Form.strp)
    ∷ (0x0f, Form.udata)
    ∷ (0x10, Form.ref_addr)
    ∷ (0x11, Form.ref1)
    ∷ (0x12, Form.ref2)
    ∷ (0x13, Form.ref4)
    ∷ (0x14, Form.ref8)
    ∷ (0x15, Form.ref_udata)
    ∷ (0x16, Form.indirect)
    ∷ (0x17, Form.sec_offset)
    ∷ (0x18, Form.exprloc)
    ∷ (0x19, Form.flag_present)
    ∷ (0x20, Form.ref_sig8)
    ∷ []

unfoldable pub form_of : ℕ → Form
form_of n = switch_on n Form.other form_table
