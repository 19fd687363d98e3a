-- ===== src/Dwarf/Die/Values.antt =====
-- The readers of class `attr` of src/dwarf.cpp, each on the forms that it accepts.
use gsdb.Common.{ℕ, ◌+◌, List, Option, find, leb, ltb, ◌&&◌}
use gsdb.Common.{Outcome, ok, err, Error, or_undefined, ◌>>=◌}
use gsdb.Dwarf.Cursor.{Span, span_end, Cursor, cursor_to, u8, u16, u32, u64, uleb128, string}
use gsdb.Dwarf.Form.{Form, form_of}
use gsdb.Dwarf.LineTable.{FileAddr}
use gsdb.Dwarf.Die.{Info, CompileUnit, Die, Attr, die_at}

abbrev reader_at : Attr → Cursor
reader_at a = cursor_to a.location (span_end a.unit.bytes)

abbrev value_of : Outcome (ℕ × Cursor) → Outcome ℕ
value_of read = read >>= λ r. ok r.0

module _ (image : List ℕ) where
  -- `as_address`.
  unfoldable pub as_address : Info → Attr → Outcome FileAddr
  as_address info a = elim (form_of a.form) [
    | Form.addr ↦ u64 image (reader_at a) >>= λ r. ok (record { elf = info.elf; addr = r.0 })
    | _ ↦ err Error.wrong_form
  ]

  -- `as_section_offset`.
  unfoldable pub as_section_offset : Attr → Outcome ℕ
  as_section_offset a = elim (form_of a.form) [
    | Form.sec_offset ↦ value_of (u32 image (reader_at a))
    | _ ↦ err Error.wrong_form
  ]

  -- `as_int`.
  unfoldable pub as_int : Attr → Outcome ℕ
  as_int a = elim (form_of a.form) [
    | Form.data1 ↦ value_of (u8 image (reader_at a))
    | Form.data2 ↦ value_of (u16 image (reader_at a))
    | Form.data4 ↦ value_of (u32 image (reader_at a))
    | Form.data8 ↦ value_of (u64 image (reader_at a))
    | Form.udata ↦ value_of (uleb128 image (reader_at a))
    | _ ↦ err Error.wrong_form
  ]

  abbrev block_behind : Outcome (ℕ × Cursor) → Outcome Span
  block_behind size = size >>= λ r. ok (record { start = r.1.pos; size = r.0 })

  -- `as_block`.
  unfoldable pub as_block : Attr → Outcome Span
  as_block a = elim (form_of a.form) [
    | Form.block1 ↦ block_behind (u8 image (reader_at a))
    | Form.block2 ↦ block_behind (u16 image (reader_at a))
    | Form.block4 ↦ block_behind (u32 image (reader_at a))
    | Form.block ↦ block_behind (uleb128 image (reader_at a))
    | _ ↦ err Error.wrong_form
  ]

  -- The entry at an offset from the start of the attribute's own unit.
  abbrev in_unit : Info → Attr → Outcome (ℕ × Cursor) → Outcome Die
  in_unit info a offset = offset >>= λ r. die_at image info a.unit (a.unit.bytes.start + r.0)

  -- The unit that a position lies in; where there is none, the code reads behind its list.
  unfoldable pub unit_around : List CompileUnit → ℕ → Option CompileUnit
  unit_around units p = find (λ u. leb u.bytes.start p && ltb p (span_end u.bytes)) units

  -- `as_reference`.
  unfoldable pub as_reference : Info → List CompileUnit → Attr → Outcome Die
  unfolding unit_around
  as_reference info units a = elim (form_of a.form) [
    | Form.ref1 ↦ in_unit info a (u8 image (reader_at a))
    | Form.ref2 ↦ in_unit info a (u16 image (reader_at a))
    | Form.ref4 ↦ in_unit info a (u32 image (reader_at a))
    | Form.ref8 ↦ in_unit info a (u64 image (reader_at a))
    | Form.udata ↦ in_unit info a (uleb128 image (reader_at a))
    | Form.ref_addr ↦ u32 image (reader_at a) >>= λ r.
        let p = info.debug_info.start + r.0 in
        or_undefined (unit_around units p) >>= λ u. die_at image info u p
    | _ ↦ err Error.wrong_form
  ]

  -- `as_string`.
  unfoldable pub as_string : Info → Attr → Outcome (List ℕ)
  as_string info a = elim (form_of a.form) [
    | Form.string ↦ string image (reader_at a) >>= λ r. ok r.0
    | Form.strp ↦ u32 image (reader_at a) >>= λ r.
        string image (cursor_to (info.debug_str.start + r.0) (span_end info.debug_str)) >>= λ s.
        ok s.0
    | _ ↦ err Error.wrong_form
  ]

  -- `as_expression`: the bytes of the expression.
  unfoldable pub as_expression : Attr → Outcome Span
  as_expression a = block_behind (uleb128 image (reader_at a))

  -- `as_location_list`: the bytes from the list's start to the end of `.debug_loc`.
  unfoldable pub as_location_list : Info → Attr → Outcome Span
  as_location_list info a = u32 image (reader_at a) >>= λ r.
      ok (cursor_to (info.debug_loc.start + r.0) (span_end info.debug_loc)).span
