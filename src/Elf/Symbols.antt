-- ===== src/Elf/Symbols.antt =====
-- The symbols of src/elf.cpp: the symbol table, the map from names and the map from addresses.
pub mod Nearest
use gsdb.Common.{ℕ, zero, suc, ◌+◌, ◌-◌, ◌*◌, ◌/◌, ◌%◌, Bool, true, false, not, ◌&&◌}
use gsdb.Common.{List, [], ◌∷◌, ◌++◌, Option, none, some, length, drop, take, replicate, map}
use gsdb.Common.{ltb, leb, ◌==◌, if◌then◌else◌}
use gsdb.Common.{Outcome, ok, undefined, or_undefined, ◌>>=◌}
use gsdb.Common.Word.{add64}
use gsdb.Dwarf.Cursor.{from_bytes}
use gsdb.Dwarf.FilePath.{same_text}
use gsdb.Dwarf.LineTable.{FileAddr}
use gsdb.Elf.{Section, SectionMap, get_section, c_string}

-- What is read of `Elf64_Sym`.
pub record Symbol : Type 0 where
  pub name : ℕ
  pub info : ℕ
  pub value : ℕ
  pub size : ℕ

-- An entry of `symbol_addr_map_`; its key is the range, and keys are ordered by `low`.
pub record SymbolEntry : Type 0 where
  pub low : ℕ
  pub high : ℕ
  pub symbol : Symbol

-- The names of the sections, in bytes.
abbrev strtab_name : List ℕ
strtab_name = b'.' ∷ b's' ∷ b't' ∷ b'r' ∷ b't' ∷ b'a' ∷ b'b' ∷ []

abbrev dynstr_name : List ℕ
dynstr_name = b'.' ∷ b'd' ∷ b'y' ∷ b'n' ∷ b's' ∷ b't' ∷ b'r' ∷ []

abbrev symtab_name : List ℕ
symtab_name = b'.' ∷ b's' ∷ b'y' ∷ b'm' ∷ b't' ∷ b'a' ∷ b'b' ∷ []

abbrev dynsym_name : List ℕ
dynsym_name = b'.' ∷ b'd' ∷ b'y' ∷ b'n' ∷ b's' ∷ b'y' ∷ b'm' ∷ []

-- The first of two sections that is there.
abbrev pub section_or : SectionMap → List ℕ → List ℕ → Option Section
section_or sections first second = elim (get_section sections first) [
  | some s ↦ some s
  | none ↦ get_section sections second
]

module _ (image : List ℕ) (sections : SectionMap) where
  -- `get_string`: the empty text where there is no string table.
  unfoldable pub get_string : ℕ → Outcome (List ℕ)
  get_string index = elim (section_or sections strtab_name dynstr_name) [
    | none ↦ ok []
    | some s ↦ c_string image (s.offset + index)
  ]

  -- Symbols of 24 bytes.
  unfoldable pub read_symbols : ℕ → List ℕ → Outcome (List Symbol)
  read_symbols zero bytes = ok []
  read_symbols (suc n) bytes = do
    name ← from_bytes 4 bytes 0
    info ← from_bytes 1 bytes 4
    value ← from_bytes 8 bytes 8
    size ← from_bytes 8 bytes 16
    others ← read_symbols n (drop 24 bytes)
    ok (record { name = name; info = info; value = value; size = size } ∷ others)

  -- `parse_symbol_table`: as many symbols as the section has entries, zeros at first, then the bytes
  -- of the section copied over them. An entry size of 0 divides by 0, and one of more than 24 copies
  -- behind the symbols.
  unfoldable pub parse_symbol_table : Outcome (List Symbol)
  unfolding read_symbols
  parse_symbol_table = elim (section_or sections symtab_name dynsym_name) [
    | none ↦ ok []
    | some s ↦
        let n = s.size / s.entsize in
        let symbols =
          read_symbols n (take s.size (drop s.offset image) ++ replicate (n * 24 - s.size) 0) in
        if s.entsize == 0
        then undefined
        else if ltb (n * 24) s.size
        then undefined
        else if ltb (length image) (s.offset + s.size)
        then undefined
        else symbols
  ]

-- `symbol_addr_map_.insert`: an entry whose start is there already is not put in.
unfoldable pub insert_entry : SymbolEntry → List SymbolEntry → List SymbolEntry
insert_entry e [] = e ∷ []
insert_entry e (f ∷ entries) =
    let rest = insert_entry e entries in
    if ltb e.low f.low then e ∷ (f ∷ entries) else if e.low == f.low then f ∷ entries else f ∷ rest

-- A symbol with an address and a name that is not thread-local, and its range.
abbrev pub has_range : Symbol → Bool
has_range s = not (s.value == 0) && not (s.name == 0) && not (s.info % 16 == 6)

abbrev pub entry_of : Symbol → SymbolEntry
entry_of s = record { low = s.value; high = add64 s.value s.size; symbol = s }

-- The part of `build_symbol_maps` that fills `symbol_addr_map_`, from a map on.
unfoldable pub build_addr_map : List SymbolEntry → List Symbol → List SymbolEntry
unfolding insert_entry
build_addr_map entries [] = entries
build_addr_map entries (s ∷ symbols) =
    if has_range s
    then build_addr_map (insert_entry (entry_of s) entries) symbols
    else build_addr_map entries symbols

-- The part that fills `symbol_name_map_`; `__cxa_demangle` gives a text or fails.
module _ (image : List ℕ) (sections : SectionMap) (demangle : List ℕ → Option (List ℕ)) where
  unfoldable pub build_name_map : List Symbol → Outcome (List (List ℕ × Symbol))
  unfolding get_string
  build_name_map [] = ok []
  build_name_map (s ∷ symbols) = do
    mangled_name ← get_string image sections s.name
    others ← build_name_map symbols
    ok (elim (demangle mangled_name) [
      | none ↦ (mangled_name, s) ∷ others
      | some demangled_name ↦ (demangled_name, s) ∷ ((mangled_name, s) ∷ others)
    ])

-- `get_symbols_by_name`, in the order in which the map was filled.
unfoldable pub get_symbols_by_name : List (List ℕ × Symbol) → List ℕ → List Symbol
get_symbols_by_name [] name = []
get_symbols_by_name ((n, s) ∷ names) name =
    let rest = get_symbols_by_name names name in if same_text n name then s ∷ rest else rest

-- `lower_bound`: the last entry before the first one that does not start below the address, and
-- that one.
unfoldable pub lower_bound :
    Option SymbolEntry → List SymbolEntry → ℕ → Option SymbolEntry × Option SymbolEntry
lower_bound before [] a = (before, none)
lower_bound before (e ∷ entries) a =
    let rest = lower_bound (some e) entries a in if ltb e.low a then rest else (before, some e)

-- `get_symbol_at_address`, for the object `obj`.
unfoldable pub get_symbol_at_address : ℕ → List SymbolEntry → FileAddr → Option Symbol
unfolding lower_bound
get_symbol_at_address obj entries a =
    if not (a.elf == obj) then none else elim (lower_bound none entries a.addr).1 [
      | none ↦ none
      | some e ↦ if e.low == a.addr then some e.symbol else none
    ]

-- The step back of `get_symbol_containing_address`.
abbrev pub before_address : Option SymbolEntry → ℕ → Option Symbol
before_address none a = none
before_address (some e) a = if ltb e.low a && ltb a e.high then some e.symbol else none

-- `get_symbol_containing_address`.
unfoldable pub get_symbol_containing_address : ℕ → List SymbolEntry → FileAddr → Option Symbol
unfolding lower_bound
get_symbol_containing_address obj entries a =
    if not (a.elf == obj)
    then none
    else (let (before, at) = lower_bound none entries a.addr in
        elim at [
          | none ↦ before_address before a.addr
          | some e ↦ if e.low == a.addr then some e.symbol else before_address before a.addr
        ])
