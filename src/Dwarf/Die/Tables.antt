-- ===== src/Dwarf/Die/Tables.antt =====
-- Abbreviation tables: `attr_spec` and `abbrev` of include/libgsdb/dwarf.hpp, `parse_abbrev_table`
-- and the cache of `dwarf::get_abbrev_table` of src/dwarf.cpp.
pub mod Encoded
use gsdb.Common.{ℕ, zero, suc, Bool, not}
use gsdb.Common.{List, [], ◌∷◌, Option, none, some, length, ◌==◌, if◌then◌else◌}
use gsdb.Common.{Outcome, ok, exhausted, ◌>>=◌}
use gsdb.Dwarf.Cursor.{Span, Cursor, cursor_of, jump, u8, uleb128}

pub record AttrSpec : Type 0 where
  pub attr : ℕ
  pub form : ℕ

pub record Abbrev : Type 0 where
  pub code : ℕ
  pub tag : ℕ
  pub has_children : Bool
  pub attr_specs : List AttrSpec

-- An `unordered_map` filled by `emplace`: of two entries under one key the first one counts.
abbrev pub AbbrevTable : Type 0
AbbrevTable = List Abbrev

unfoldable pub find_abbrev : AbbrevTable → ℕ → Option Abbrev
find_abbrev [] code = none
find_abbrev (a ∷ table) code =
    let rest = find_abbrev table code in if a.code == code then some a else rest

module _ (image : List ℕ) where
  -- The inner `do … while (attr != 0)`; a round takes two bytes at least.
  unfoldable pub parse_attr_specs : ℕ → Cursor → Outcome (List AttrSpec × Cursor)
  parse_attr_specs zero c = exhausted
  parse_attr_specs (suc rounds) c = uleb128 image c >>= λ a. uleb128 image a.1 >>= λ f.
      let rest =
        parse_attr_specs rounds f.1 >>= λ r. ok (record { attr = a.0; form = f.0 } ∷ r.0, r.1) in
      if a.0 == 0 then ok ([], f.1) else rest

  -- The body of the outer loop: a declaration, with its code.
  unfoldable pub parse_abbrev : Cursor → Outcome (Abbrev × Cursor)
  unfolding parse_attr_specs
  parse_abbrev c = do
    (code, c) ← uleb128 image c
    (tag, c) ← uleb128 image c
    (has_children, c) ← u8 image c
    (specs, c) ← parse_attr_specs (suc (length image)) c
    ok (
      record { code = code; tag = tag; has_children = not (has_children == 0); attr_specs = specs },
      c,
    )

  -- The outer `do … while (code != 0)`.
  unfoldable pub parse_abbrevs : ℕ → Cursor → Outcome AbbrevTable
  parse_abbrevs zero c = exhausted
  parse_abbrevs (suc rounds) c = parse_abbrev c >>= λ d.
      let rest = parse_abbrevs rounds d.1 >>= λ table. ok (d.0 ∷ table) in
      if d.0.code == 0 then ok [] else rest

  -- `parse_abbrev_table`.
  unfoldable pub parse_abbrev_table : Span → ℕ → Outcome AbbrevTable
  unfolding parse_abbrevs
  parse_abbrev_table debug_abbrev offset =
      parse_abbrevs (suc (length image)) (jump (cursor_of debug_abbrev) offset)

-- `abbrev_tables_`: the tables that were parsed, by their offset.
abbrev pub TableCache : Type 0
TableCache = List (ℕ × AbbrevTable)

unfoldable pub cached_table : TableCache → ℕ → Option AbbrevTable
cached_table [] offset = none
cached_table ((k, table) ∷ cache) offset =
    let rest = cached_table cache offset in if k == offset then some table else rest

-- `get_abbrev_table`.
unfoldable pub get_abbrev_table :
    List ℕ → Span → TableCache → ℕ → Outcome (AbbrevTable × TableCache)
get_abbrev_table image debug_abbrev cache offset = elim (cached_table cache offset) [
  | some table ↦ ok (table, cache)
  | none ↦
      parse_abbrev_table image debug_abbrev offset >>= λ table. ok (table, (offset, table) ∷ cache)
]
