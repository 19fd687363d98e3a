-- ===== src/Dwarf/Die.antt =====
-- Debugging information entries of src/dwarf.cpp and include/libgsdb/dwarf.hpp: compile units,
-- `parse_die` and the readers of attributes.
pub mod At
pub mod Tag
pub mod Tables
pub mod Values
pub mod Entries
pub mod Ranges
pub mod Children
pub mod Locations
pub mod Index
pub mod Scopes
pub mod Lines
mod Examples
mod ListExamples
use gsdb.Common.{ℕ, zero, suc, ◌+◌, ◌-◌, ◌%◌, ◌≤◌, Bool, true, false, not}
use gsdb.Common.{
  List, [], ◌∷◌, Option, none, some, length, find, leb, ltb, ◌==◌, ◌&&◌, if◌then◌else◌,
}
use gsdb.Common.{Outcome, ok, err, exhausted, Error, guard, or_err, or_undefined, ◌>>=◌, ◌>>◌}
use gsdb.Dwarf.Cursor.{
  Span, span_end, Cursor, cursor_of, cursor_to, jump, finished, u8, u16, u32, u64, uleb128, string,
  skip_form,
}
use gsdb.Dwarf.Form.{Form, form_of}
use gsdb.Dwarf.LineTable.{FileAddr}
use Tables.{AttrSpec, Abbrev, AbbrevTable, find_abbrev, parse_abbrev_table}

-- The object file that the information belongs to, and its sections. A section that the file lacks
-- starts where the image has no byte.
pub record Info : Type 0 where
  pub elf : ℕ
  pub debug_info : Span
  pub debug_abbrev : Span
  pub debug_str : Span
  pub debug_ranges : Span
  pub debug_loc : Span

pub record CompileUnit : Type 0 where
  pub bytes : Span
  pub abbrev_offset : ℕ

-- `die`: the null entry has no abbreviation.
pub record Die : Type 0 where
  pub position : ℕ
  pub unit : CompileUnit
  pub abbrev_entry : Option Abbrev
  pub next : ℕ
  pub attr_locs : List ℕ

pub record Attr : Type 0 where
  pub unit : CompileUnit
  pub name : ℕ
  pub form : ℕ
  pub location : ℕ

-- `parse_compile_unit`. The size field does not count itself, and is 32 bits wide.
unfoldable pub parse_compile_unit : List ℕ → Cursor → Outcome CompileUnit
parse_compile_unit image start = do
  (size, c) ← u32 image start
  (version, c) ← u16 image c
  (abbrev_offset, c) ← u32 image c
  (address_size, c) ← u8 image c
  guard (not (size == 0xffffffff)) Error.dwarf64
  guard (version == 4) Error.invalid_dwarf_version
  guard (address_size == 8) Error.invalid_address_size
  ok (record {
    bytes = record { start = start.pos; size = (size + 4) % 4294967296 };
    abbrev_offset = abbrev_offset;
  })

-- The loop of `parse_compile_units`.
unfoldable pub parse_units : ℕ → List ℕ → Cursor → Outcome (List CompileUnit)
parse_units zero image c = exhausted
parse_units (suc rounds) image c =
    let rest = parse_compile_unit image c >>= λ u.
    parse_units rounds image (jump c u.bytes.size) >>= λ us. ok (u ∷ us) in
    if finished c then ok [] else rest

-- `parse_compile_units`.
unfoldable pub parse_compile_units : List ℕ → Info → Outcome (List CompileUnit)
unfolding parse_units
parse_compile_units image info =
    parse_units (suc info.debug_info.size) image (cursor_of info.debug_info)

unfoldable pub find_spec : List AttrSpec → List ℕ → ℕ → Option (AttrSpec × ℕ)
find_spec [] locs attribute = none
find_spec (s ∷ specs) [] attribute = none
find_spec (s ∷ specs) (l ∷ locs) attribute =
    let rest = find_spec specs locs attribute in if s.attr == attribute then some (s, l) else rest

abbrev pub is_some {ℓ} : {A : Type ℓ} → Option A → Bool
is_some none = false
is_some (some a) = true

-- `contains`; on the null entry it reads through a null pointer.
unfoldable pub contains : Die → ℕ → Outcome Bool
contains d attribute =
    or_undefined d.abbrev_entry >>= λ a. ok (is_some (find (λ s. s.attr == attribute) a.attr_specs))

-- `operator[]`.
unfoldable pub attribute_of : Die → ℕ → Outcome Attr
unfolding find_spec
attribute_of d attribute = or_undefined d.abbrev_entry >>= λ a.
    or_err Error.attribute_not_found (find_spec a.attr_specs d.attr_locs attribute) >>= λ f.
    ok (record { unit = d.unit; name = f.0.attr; form = f.0.form; location = f.1 })

-- `die(next)`.
abbrev pub null_entry : ℕ → Die
null_entry next = record {
  position = 0;
  unit = record { bytes = record { start = 0; size = 0 }; abbrev_offset = 0 };
  abbrev_entry = none;
  next = next;
  attr_locs = [];
}

-- The position of each attribute, and the cursor behind the last one.
unfoldable pub locate : List ℕ → List AttrSpec → Cursor → Outcome (List ℕ × Cursor)
locate image [] c = ok ([], c)
locate image (s ∷ specs) c = do
  c' ← skip_form image s.form c
  (locs, end) ← locate image specs c'
  ok (c.pos ∷ locs, end)

module _ (image : List ℕ) (info : Info) where
  -- `compile_unit::abbrev_table`. The cache of the tables changes no result.
  unfoldable pub abbrev_table : CompileUnit → Outcome AbbrevTable
  abbrev_table u = parse_abbrev_table image info.debug_abbrev u.abbrev_offset

  -- `parse_die`.
  unfoldable pub parse_die : CompileUnit → Cursor → Outcome Die
  unfolding abbrev_table locate
  parse_die u start = uleb128 image start >>= λ r.
      let entry = abbrev_table u >>= λ table.
      or_err Error.out_of_range (find_abbrev table r.0) >>= λ a.
      locate image a.attr_specs r.1 >>= λ l. ok (record {
        position = start.pos;
        unit = u;
        abbrev_entry = some a;
        next = l.1.pos;
        attr_locs = l.0;
      }) in
      if r.0 == 0 then ok (null_entry r.1.pos) else entry

  abbrev pub die_at : CompileUnit → ℕ → Outcome Die
  die_at u p = parse_die u (cursor_to p (span_end u.bytes))

  -- `compile_unit::root`: the entry behind the header of eleven bytes.
  unfoldable pub root : CompileUnit → Outcome Die
  unfolding parse_die
  root u = die_at u (u.bytes.start + 11)
