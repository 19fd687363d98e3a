-- ===== src/Elf.antt =====
-- src/elf.cpp and include/libgsdb/elf.hpp: the section headers, the sections by name and by address,
-- and the collection of the loaded files.
pub mod Symbols
pub mod Addresses
mod Examples
use gsdb.Common.{ℕ, zero, suc, ◌+◌, ◌*◌, ◌%◌, ◌≤◌, Bool, true, false, not, ◌&&◌}
use gsdb.Common.{List, [], ◌∷◌, Option, none, some, length, drop, find, get_elem?}
use gsdb.Common.{ltb, leb, ◌==◌, if◌then◌else◌}
use gsdb.Common.{Outcome, ok, undefined, or_undefined, ◌>>=◌}
use gsdb.Common.Word.{add64}
use gsdb.Dwarf.Cursor.{Span, from_bytes, scan_string}
use gsdb.Dwarf.FilePath.{same_text}
use gsdb.Dwarf.LineTable.{FileAddr}

-- What is read of `Elf64_Ehdr` and of `Elf64_Shdr`.
pub record Header : Type 0 where
  pub shoff : ℕ
  pub shentsize : ℕ
  pub shnum : ℕ
  pub shstrndx : ℕ

pub record Section : Type 0 where
  pub name : ℕ
  pub addr : ℕ
  pub offset : ℕ
  pub size : ℕ
  pub entsize : ℕ

-- `section_map_`: of two sections with one name the later one counts.
abbrev pub SectionMap : Type 0
SectionMap = List (List ℕ × Section)

-- A text that ends with a 0, as a `string_view` is made from a pointer.
unfoldable pub c_string : List ℕ → ℕ → Outcome (List ℕ)
unfolding scan_string
c_string image p = scan_string (suc (length image)) (drop p image)

module _ (image : List ℕ) where
  -- `from_bytes<Elf64_Ehdr>` reads 64 bytes.
  unfoldable pub read_header : Outcome Header
  unfolding from_bytes
  read_header = do
    shoff ← from_bytes 8 image 40
    shentsize ← from_bytes 2 image 58
    shnum ← from_bytes 2 image 60
    shstrndx ← from_bytes 2 image 62
    ok (record { shoff = shoff; shentsize = shentsize; shnum = shnum; shstrndx = shstrndx })

  -- A section header of 64 bytes, in full.
  unfoldable pub read_section : ℕ → Outcome Section
  unfolding from_bytes
  read_section p = do
    name ← from_bytes 4 image p
    addr ← from_bytes 8 image (p + 16)
    offset ← from_bytes 8 image (p + 24)
    size ← from_bytes 8 image (p + 32)
    entsize ← from_bytes 8 image (p + 56)
    ok (record { name = name; addr = addr; offset = offset; size = size; entsize = entsize })

  unfoldable pub read_sections : ℕ → ℕ → Outcome (List Section)
  unfolding read_section
  read_sections zero p = ok []
  read_sections (suc n) p = do
    s ← read_section p
    sections ← read_sections n (p + 64)
    ok (s ∷ sections)

  -- `parse_section_headers`: the number of headers is held in 16 bits, also where it comes from the
  -- first section's size.
  unfoldable pub parse_section_headers : Header → Outcome (List Section)
  unfolding read_sections
  parse_section_headers h = do
    n ←
        (if (h.shnum == 0) && not (h.shentsize == 0)
          then (read_section h.shoff >>= λ s. ok (s.size % 65536))
          else ok h.shnum)
    read_sections n h.shoff

  -- `get_section_name`.
  unfoldable pub get_section_name : Header → List Section → ℕ → Outcome (List ℕ)
  unfolding c_string
  get_section_name h sections index =
      or_undefined (get_elem? sections h.shstrndx) >>= λ s. c_string image (s.offset + index)

  -- `build_section_map`, over the sections that are left.
  unfoldable pub build_section_map : Header → List Section → List Section → Outcome SectionMap
  unfolding get_section_name
  build_section_map h sections [] = ok []
  build_section_map h sections (s ∷ left) = do
    name ← get_section_name h sections s.name
    entries ← build_section_map h sections left
    ok ((name, s) ∷ entries)

-- `get_section`.
unfoldable pub get_section : SectionMap → List ℕ → Option Section
get_section [] name = none
get_section ((n, s) ∷ entries) name = elim (get_section entries name) [
  | some later ↦ some later
  | none ↦ if same_text n name then some s else none
]

-- `get_section_contents`: a span without bytes where there is no such section.
unfoldable pub get_section_contents : SectionMap → List ℕ → Option Span
unfolding get_section
get_section_contents entries name = elim (get_section entries name) [
  | none ↦ none
  | some s ↦ some (record { start = s.offset; size = s.size })
]

-- A loaded file: which one it is, where it was loaded, and its sections.
pub record Elf : Type 0 where
  pub id : ℕ
  pub load_bias : ℕ
  pub section_headers : List Section
  pub section_map : SectionMap

-- `get_section_start_address`.
unfoldable pub get_section_start_address : Elf → List ℕ → Option FileAddr
unfolding get_section
get_section_start_address obj name = elim (get_section obj.section_map name) [
  | none ↦ none
  | some s ↦ some (record { elf = obj.id; addr = s.addr })
]

-- The two forms of `get_section_containing_address`. Sums are 64 bits wide.
abbrev pub has_file_address : ℕ → Section → Bool
has_file_address a s = leb s.addr a && ltb a (add64 s.addr s.size)

unfoldable pub section_at_file_address : Elf → FileAddr → Option Section
section_at_file_address obj a =
    if a.elf == obj.id then find (has_file_address a.addr) obj.section_headers else none

abbrev pub has_virtual_address : ℕ → ℕ → Section → Bool
has_virtual_address bias a s = leb (add64 bias s.addr) a && ltb a (add64 (add64 bias s.addr) s.size)

unfoldable pub section_at_virtual_address : Elf → ℕ → Option Section
section_at_virtual_address obj a = find (has_virtual_address obj.load_bias a) obj.section_headers

-- `elf_collection::get_elf_containing_address`.
unfoldable pub get_elf_containing_address : List Elf → ℕ → Option Elf
unfolding section_at_virtual_address
get_elf_containing_address elves a =
    find (λ obj. elim (section_at_virtual_address obj a) [ none ↦ false | some s ↦ true ]) elves
