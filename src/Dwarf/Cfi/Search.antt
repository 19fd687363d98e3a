-- ===== src/Dwarf/Cfi/Search.antt =====
-- The binary search of `eh_hdr::operator[]` in src/dwarf.cpp.
use gsdb.Common.{ℕ, zero, suc, ◌+◌, ◌-◌, ◌*◌, ◌/◌, true, false, List}
use gsdb.Common.{
  ltb, leb, ◌==◌, if◌then◌else◌, Outcome, ok, err, exhausted, Error, or_undefined, ◌>>=◌,
}
use gsdb.Common.Word.{add64, sub64}
use gsdb.Dwarf.Cursor.{cursor_to}
use gsdb.Dwarf.Cfi.Pointer.{eh_frame_pointer, encoding_size}
use gsdb.Dwarf.Cfi.Entries.{Sections, EhHdr}

-- What a round leaves: the row to return, or the bounds of the next round.
pub data Range : Type 0 where
  hit : ℕ → Range
  between : ℕ → ℕ → Range

-- The body of the loop, with the address of the middle row.
unfoldable pub narrow : ℕ → ℕ → ℕ → ℕ → ℕ → Outcome Range
narrow key low high mid a =
    if ltb a key
    then ok (between (add64 mid 1) high)
    else if ltb key a
    then (if mid == 0 then err Error.address_not_in_table else ok (between low (mid - 1)))
    else ok (hit mid)

-- `while (low <= high)`, with the row's address as an argument: the row it leaves in `high`.
unfoldable pub search : ℕ → (ℕ → Outcome ℕ) → ℕ → ℕ → ℕ → Outcome ℕ
search zero row key low high = exhausted
search (suc rounds) row key low high = elim (leb low high) [
  | false ↦ ok high
  | true ↦
      let mid = add64 low high / 2 in
      row mid >>= λ a. narrow key low high mid a >>= λ r. elim r [
        | hit found ↦ ok found
        | between low' high' ↦ search rounds row key low' high'
      ]
]

-- The pointer at a place of the table.
abbrev pub table_pointer : List ℕ → EhHdr → ℕ → ℕ → ℕ → Outcome ℕ
table_pointer image hdr text size at =
    eh_frame_pointer image hdr.encoding
      (record {
        pc = at;
        text_section_start = text;
        data_section_start = hdr.start;
        func_start = 0;
      })
      (cursor_to at (hdr.search_table + hdr.count * (size * 2)))
    >>= λ r. ok r.0

unfoldable pub row_address : List ℕ → EhHdr → ℕ → ℕ → ℕ → Outcome ℕ
row_address image hdr text size mid =
    table_pointer image hdr text size (hdr.search_table + mid * (size * 2))

-- `operator[]`: the position of the entry whose row the search finds. Every round takes a row out
-- of the range, so one round more than rows is enough.
unfoldable pub eh_hdr_lookup : List ℕ → Sections → EhHdr → ℕ → Outcome ℕ
unfolding narrow search row_address
eh_hdr_lookup image s hdr address = do
  text ← or_undefined s.text
  size ← encoding_size hdr.encoding
  found ← search (suc hdr.count) (row_address image hdr text size) address 0 (sub64 hdr.count 1)
  table_pointer image hdr text size (hdr.search_table + found * (size * 2) + size)
