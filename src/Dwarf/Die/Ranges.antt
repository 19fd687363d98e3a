-- ===== src/Dwarf/Die/Ranges.antt =====
-- `range_list` of src/dwarf.cpp and include/libgsdb/dwarf.hpp, its iterator, and the lowest and
-- highest addresses of an entry.
pub mod Refines
use gsdb.Common.{ℕ, zero, suc, ◌+◌, ◌-◌, Bool, true, false, List, length, ltb, leb, ◌&&◌, ◌==◌}
use gsdb.Common.{Option, none, some, if◌then◌else◌}
use gsdb.Common.{Outcome, ok, err, exhausted, undefined, Error, or_undefined, ◌>>=◌}
use gsdb.Common.Word.{two64, add64}
use gsdb.Dwarf.Cursor.{Span, span_end, cursor_to, u64}
use gsdb.Dwarf.Form.{Form, form_of}
use gsdb.Dwarf.LineTable.{FileAddr, no_addr, shift_addr, addr_le, addr_gt}
use gsdb.Dwarf.Die.{Info, CompileUnit, Die, contains, attribute_of, root}
use gsdb.Dwarf.Die.Values.{as_address, as_int, as_section_offset}
use gsdb.Dwarf.Die.At

-- `range_list`.
pub record RangeList : Type 0 where
  pub elf : ℕ
  pub bytes : Span
  pub base_address : FileAddr

-- `range_list::entry`.
pub record RangeEntry : Type 0 where
  pub low : FileAddr
  pub high : FileAddr

-- `entry::contains`: both comparisons assert that the objects are the same.
unfoldable pub entry_contains : RangeEntry → FileAddr → Outcome Bool
unfolding addr_le addr_gt
entry_contains e a = addr_le e.low a >>= λ above. if above then addr_gt e.high a else ok false

-- The iterator; `pos` is `none` at the end, where the code holds a null pointer.
pub record RangeIterator : Type 0 where
  pub base : FileAddr
  pub pos : Option ℕ
  pub current : RangeEntry

module _ (image : List ℕ) where
  -- The loop of `operator++` from a byte pointer: a round for each pair of addresses.
  unfoldable pub next_range : ℕ → RangeList → FileAddr → ℕ → Outcome RangeIterator
  next_range zero l base p = exhausted
  next_range (suc rounds) l base p = u64 image (cursor_to p (span_end l.bytes)) >>= λ first.
      u64 image first.1 >>= λ second.
      let low : FileAddr = record { elf = l.elf; addr = first.0 } in
      let high : FileAddr = record { elf = l.elf; addr = second.0 } in
      let rest = next_range rounds l high second.1.pos in
      if first.0 == two64 - 1
      then rest
      else if (first.0 == 0) && (second.0 == 0)
      then ok (record { base = base; pos = none; current = record { low = low; high = high } })
      else ok (record {
        base = base;
        pos = some second.1.pos;
        current = record { low = shift_addr low base.addr; high = shift_addr high base.addr };
      })

  -- `begin` and `operator++`; a pair of addresses takes bytes, so the image bounds the rounds.
  unfoldable pub first_range : RangeList → Outcome RangeIterator
  first_range l = next_range (suc (length image)) l l.base_address l.bytes.start

  unfoldable pub later_range : RangeList → RangeIterator → Outcome RangeIterator
  later_range l it = or_undefined it.pos >>= next_range (suc (length image)) l it.base

  -- `std::any_of` of `range_list::contains`, from an iterator on.
  unfoldable pub any_contains : ℕ → RangeList → FileAddr → RangeIterator → Outcome Bool
  unfolding entry_contains later_range
  any_contains zero l a it = exhausted
  any_contains (suc rounds) l a it = elim it.pos [
    | none ↦ ok false
    | some p ↦ entry_contains it.current a >>= λ inside. elim inside [
      | true ↦ ok true
      | false ↦ later_range l it >>= any_contains rounds l a
    ]
  ]

  -- `range_list::contains`.
  unfoldable pub ranges_contain : RangeList → FileAddr → Outcome Bool
  unfolding first_range any_contains
  ranges_contain l a = first_range l >>= any_contains (suc (length image)) l a

  -- The last entry before the end: `while (std::next(it) != ranges.end()) ++it;`.
  unfoldable pub last_range : ℕ → RangeList → RangeIterator → Outcome RangeIterator
  last_range zero l it = exhausted
  last_range (suc rounds) l it = later_range l it >>= λ further. elim further.pos [
    | none ↦ ok it
    | some p ↦ last_range rounds l further
  ]

module _ (image : List ℕ) (info : Info) where
  -- `as_range_list`: the base address is the unit's own low address.
  unfoldable pub as_range_list : Die → Outcome RangeList
  as_range_list d = attribute_of d At.ranges >>= λ a. as_section_offset image a >>= λ offset.
      root image info d.unit >>= λ r. contains r At.low_pc >>= λ has.
      (if has then (attribute_of r At.low_pc >>= as_address image info) else ok no_addr) >>= λ base.
      ok (record {
        elf = info.elf;
        bytes = (cursor_to (info.debug_ranges.start + offset) (span_end info.debug_ranges)).span;
        base_address = base;
      })

  -- `low_pc`.
  unfoldable pub low_pc : Die → Outcome FileAddr
  unfolding as_range_list
  low_pc d = contains d At.ranges >>= λ has_ranges. contains d At.low_pc >>= λ has_low.
      if has_ranges
      then (as_range_list d >>= λ l. first_range image l >>= λ it. ok it.current.low)
      else if has_low
      then (attribute_of d At.low_pc >>= as_address image info)
      else err Error.attribute_not_found

  -- `high_pc`: an address, or a distance from the low address.
  unfoldable pub high_pc : Die → Outcome FileAddr
  unfolding low_pc
  high_pc d = contains d At.ranges >>= λ has_ranges. contains d At.high_pc >>= λ has_high.
      if has_ranges
      then (as_range_list d >>= λ l. first_range image l >>= λ it.
          last_range image (suc (length image)) l it >>= λ last. ok last.current.high)
      else if has_high
      then (attribute_of d At.high_pc >>= λ a. elim (form_of a.form) [
        | Form.addr ↦ as_address image info a
        | _ ↦ low_pc d >>= λ low. as_int image a >>= λ n. ok (shift_addr low n)
      ])
      else err Error.attribute_not_found

  -- `die::contains_address`.
  unfoldable pub contains_address : Die → FileAddr → Outcome Bool
  unfolding high_pc
  contains_address d a = contains d At.ranges >>= λ has_ranges. contains d At.low_pc >>= λ has_low.
      if a.elf == info.elf
      then (if has_ranges
          then (as_range_list d >>= λ l. ranges_contain image l a)
          else if has_low
          then (low_pc d >>= λ low. addr_le low a >>= λ above.
              if above then (high_pc d >>= λ high. addr_gt high a) else ok false)
          else ok false)
      else ok false
