-- ===== src/Dwarf/LineTable/Lookup.antt =====
-- `get_entry_by_address` and `get_entries_by_line`: the loops over a table's rows.
use gsdb.Common.{ℕ, zero, suc, Bool, true, false, not, ◌&&◌, ◌||◌}
use gsdb.Common.{List, [], ◌∷◌, Option, none, some, length, ◌==◌, if◌then◌else◌}
use gsdb.Common.{Outcome, ok, exhausted, ◌>>=◌, or_undefined}
use gsdb.Dwarf.FilePath.{is_absolute, path_ends_in, same_elements, elements}
use gsdb.Dwarf.LineTable.{FileAddr, LineTable, Iterator, addr_le, addr_gt, begin, increment, at_end}

-- Whether the row `prev` covers the address: `prev->address <= address and it->address > address
-- and !prev->end_sequence`.
unfoldable pub covers : FileAddr → Iterator → Iterator → Outcome Bool
covers address prev it = do
  let row = prev.current
  let after = it.current
  below ← addr_le row.address address
  above ← (if below then addr_gt after.address address else ok false)
  ok (above && not row.end_sequence)

-- `for (++it; it != end(); prev = it++)`, from a row and the row behind it. The end of the table is
-- `none`.
unfoldable pub scan_rows : ℕ → List ℕ → FileAddr → Iterator → Iterator → Outcome (Option Iterator)
scan_rows zero image address prev it = exhausted
scan_rows (suc rounds) image address prev it = elim (at_end it) [
  | true ↦ ok none
  | false ↦ covers address prev it >>= λ hit. elim hit [
    | true ↦ ok (some prev)
    | false ↦ increment image it >>= scan_rows rounds image address it
  ]
]

-- `get_entry_by_address`. A row takes a byte of the program, so the image bounds the rounds.
unfoldable pub get_entry_by_address : List ℕ → LineTable → FileAddr → Outcome (Option Iterator)
get_entry_by_address image t address = do
  prev ← begin image t
  elim (at_end prev) [
    | true ↦ ok none
    | false ↦ increment image prev >>= scan_rows (suc (length image)) image address prev
  ]

-- The test of `get_entries_by_line`.
unfoldable pub on_line : List ℕ → ℕ → Iterator → Outcome Bool
on_line path line it = do
  let row = it.current
  file ← or_undefined row.file_entry
  ok (
      row.line == line
      && (is_absolute path && same_elements (elements file.path) (elements path)
          || not (is_absolute path) && path_ends_in file.path path))

unfoldable pub collect_rows : ℕ → List ℕ → List ℕ → ℕ → Iterator → Outcome (List Iterator)
collect_rows zero image path line it = exhausted
collect_rows (suc rounds) image path line it = elim (at_end it) [
  | true ↦ ok []
  | false ↦ on_line path line it >>= λ hit.
      increment image it >>= collect_rows rounds image path line >>= λ rest.
      ok (if hit then it ∷ rest else rest)
]

-- `get_entries_by_line`.
unfoldable pub get_entries_by_line : List ℕ → LineTable → List ℕ → ℕ → Outcome (List Iterator)
get_entries_by_line image t path line =
    begin image t >>= collect_rows (suc (suc (length image))) image path line
