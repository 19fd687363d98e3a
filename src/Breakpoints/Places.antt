-- ===== src/Breakpoints/Places.antt =====
-- Where the functions and the lines of src/breakpoint.cpp put their sites: the places that
-- `resolve` finds, with the debugging information of one object.
use gsdb.Common.{ℕ, Bool, true, false, ◌==◌, ◌&&◌, if◌then◌else◌}
use gsdb.Common.{List, [], ◌∷◌, Option, none, some, find, Outcome, ok, or_undefined, ◌>>=◌}
use gsdb.Dwarf.Cursor.{Span}
use gsdb.Dwarf.LineTable.{FileAddr, LineTable, Iterator, increment}
use gsdb.Dwarf.LineTable.Lookup.{get_entry_by_address}
use gsdb.Dwarf.Die.{Info, CompileUnit, Die, contains}
use gsdb.Dwarf.Die.Ranges.{low_pc}
use gsdb.Dwarf.Die.Lines.{parse_line_table}
use gsdb.Dwarf.Die.Index.{IndexEntry, tag_of}
use gsdb.Dwarf.Die.Scopes.{inline_stack_at_address}
use gsdb.Dwarf.Die.At
use gsdb.Dwarf.Die.Tag
use gsdb.Elf.{Elf}
use gsdb.Elf.Addresses.{to_virt_addr}
use gsdb.Stoppoints.Kernel.{Kernel}
use gsdb.Breakpoints.{Resolved, for_places}

-- `to_virt_addr` of an address in one of the objects.
unfoldable pub load_address : List Elf → FileAddr → Outcome ℕ
unfolding to_virt_addr
load_address elves a =
    or_undefined (find (λ o. o.id == a.elf) elves) >>= λ obj. ok (to_virt_addr obj a)

unfoldable pub symbol_place : List Elf → FileAddr → Outcome (Option ℕ)
unfolding load_address
symbol_place elves a = load_address elves a >>= λ place. ok (some place)

abbrev same_addr : FileAddr → FileAddr → Bool
same_addr a b = a.elf == b.elf && a.addr == b.addr

module _ (image : List ℕ) (info : Info) (units : List CompileUnit) (debug_line : Span) where
  -- The row after that of an address: past the end of the table it is undefined.
  abbrev next_row : LineTable → FileAddr → Outcome Iterator
  next_row table a =
      get_entry_by_address image table a >>= λ row. or_undefined row >>= increment image

  abbrev has_addresses : Die → Outcome Bool
  has_addresses d =
      contains d At.low_pc >>= λ has_low. if has_low then ok true else contains d At.ranges

  -- The place of a function: an inlined one has no prologue; another is entered at its second row.
  unfoldable pub function_address : Die → Outcome FileAddr
  unfolding contains low_pc parse_line_table get_entry_by_address increment
  function_address d = tag_of d >>= λ tag. low_pc image info d >>= λ low.
      if tag == Tag.inlined_subroutine
      then ok low
      else (parse_line_table image info debug_line d.unit >>= λ lines.
          or_undefined lines >>= λ table. next_row table low >>= λ row. ok row.current.address)

  -- A function without addresses has no place.
  unfoldable pub function_place : List Elf → Die → Outcome (Option ℕ)
  unfolding function_address load_address
  function_place elves d = has_addresses d >>= λ placed. elim placed [
    | true ↦ function_address d >>= load_address elves >>= λ a. ok (some a)
    | false ↦ ok none
  ]

  abbrev starts_at : FileAddr → List Die → Outcome Bool
  starts_at a (d ∷ []) = has_addresses d >>= λ placed.
      if placed then (low_pc image info d >>= λ low. ok (same_addr low a)) else ok false
  starts_at a stack = ok false

  -- The place of a row: the next one, if the row begins a function that is not inlined.
  unfoldable pub line_address : ℕ → List (List ℕ × IndexEntry) → Iterator → Outcome FileAddr
  unfolding inline_stack_at_address
  line_address rounds functions entry =
      inline_stack_at_address image info units rounds functions entry.current.address >>= λ stack.
      starts_at entry.current.address stack >>= λ should_skip_prologue.
      if should_skip_prologue
      then (increment image entry >>= λ row. ok row.current.address)
      else ok entry.current.address

  unfoldable pub line_place :
      ℕ → List (List ℕ × IndexEntry) → List Elf → Iterator → Outcome (Option ℕ)
  unfolding line_address load_address
  line_place rounds functions elves entry =
      line_address rounds functions entry >>= load_address elves >>= λ a. ok (some a)

  module _ {W : Type 0} (k : Kernel W) where
    -- `function_breakpoint::resolve`: the functions found, then the symbols.
    unfoldable pub resolve_function :
        List Elf → List Die → List FileAddr → Resolved W → Outcome (Resolved W)
    unfolding function_place symbol_place for_places
    resolve_function elves dwarf_functions elf_functions s =
        for_places k (function_place elves) dwarf_functions s
        >>= for_places k (symbol_place elves) elf_functions

    -- `line_breakpoint::resolve`, over the line entries found.
    unfoldable pub resolve_line :
        ℕ
        → List (List ℕ × IndexEntry)
        → List Elf
        → List Iterator
        → Resolved W
        → Outcome (Resolved W)
    unfolding line_place for_places
    resolve_line rounds functions elves entries =
        for_places k (line_place rounds functions elves) entries
