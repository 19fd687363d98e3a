-- ===== src/Dwarf/Die/Children.antt =====
-- `die::children_range` of include/libgsdb/dwarf.hpp and its iterator in src/dwarf.cpp. An iterator
-- holds an entry; the end is the null entry, or no entry at all.
pub mod Forest
pub mod Walk
use gsdb.Common.{ℕ, zero, suc, Bool, true, false, List, [], ◌∷◌, Option, none, some, if◌then◌else◌}
use gsdb.Common.{Outcome, ok, exhausted, length, or_undefined, ◌>>=◌}
use gsdb.Dwarf.Die.{Info, CompileUnit, Die, contains, attribute_of, die_at, parse_die}
use gsdb.Dwarf.Die.Values.{as_reference}
use gsdb.Dwarf.Die.At

module _ (image : List ℕ) (info : Info) (units : List CompileUnit) where
  -- `iterator(d)`: the entry behind `d`.
  unfoldable pub first_child : Die → Outcome Die
  first_child d = die_at image info d.unit d.next

  -- What `operator++` does at an entry with an abbreviation, over the loop through its children.
  unfoldable pub after_entry : (Die → Outcome Die) → Bool → Die → Outcome Die
  unfolding first_child
  after_entry skip_children has_children d = contains d At.sibling >>= λ has_sibling.
      if has_children
      then (if has_sibling
          then (attribute_of d At.sibling >>= as_reference image info units)
          else (first_child d >>= skip_children >>= λ end. die_at image info d.unit end.next))
      else die_at image info d.unit d.next

  -- `operator++` (`false`), and its loop `while (sub_children->abbrev_) ++sub_children` (`true`), on
  -- the rounds that both may use.
  unfoldable pub walk : Bool → ℕ → Die → Outcome Die
  walk looping zero d = exhausted
  walk looping (suc rounds) d = elim d.abbrev_entry [
    | none ↦ ok d
    | some a ↦ after_entry (walk true rounds) a.has_children d >>= λ later. elim looping [
      | true ↦ walk true rounds later
      | false ↦ ok later
    ]
  ]

  -- The entries that a loop from an iterator to the end visits.
  unfoldable pub collect : ℕ → Die → Outcome (List Die)
  unfolding walk
  collect zero d = exhausted
  collect (suc rounds) d = elim d.abbrev_entry [
    | none ↦ ok []
    | some a ↦ walk false rounds d >>= λ later. collect rounds later >>= λ ds. ok (d ∷ ds)
  ]

  -- `children`, visited from `begin` to `end`. An entry takes a byte at least, so the image bounds
  -- the rounds, except where a sibling reference leads back: there the code may not end.
  unfoldable pub children : Die → Outcome (List Die)
  unfolding collect
  children d = or_undefined d.abbrev_entry >>= λ a.
      if a.has_children then (first_child d >>= collect (suc (length image))) else ok []
