-- ===== src/Elf/Symbols/Nearest.antt =====
-- The lookup of the symbol around an address against a search through the whole symbol table.
use gsdb.Common.{ℕ, suc, ◌≤◌, ◌<◌, ◌≡◌, refl, ap, sym, ◌∙◌, arith, inl, inr}
use gsdb.Common.{Bool, true, false, ◌&&◌, List, [], ◌∷◌, Option, none, some}
use gsdb.Common.{ltb, leb, ◌==◌, ==_iff, ltb→lt, le→ltb, if◌then◌else◌, Bool-cases}
use gsdb.Dwarf.LineTable.{FileAddr}
use gsdb.Elf.Symbols.{
  Symbol, SymbolEntry, insert_entry, has_range, entry_of, build_addr_map, lower_bound,
  before_address, get_symbol_containing_address,
}

-- The better of two candidates for an address: the one that starts later, but not behind the
-- address; of two that start at one place the first one that came.
abbrev pub better : ℕ → SymbolEntry → Option SymbolEntry → Option SymbolEntry
better a e none = if leb e.low a then some e else none
better a e (some b) = if leb e.low a && ltb b.low e.low then some e else some b

-- The search through the symbols that have a range, from the best candidate so far.
abbrev pub nearest : ℕ → Option SymbolEntry → List Symbol → Option SymbolEntry
nearest a best [] = best
nearest a best (s ∷ symbols) =
    nearest a (if has_range s then better a (entry_of s) best else best) symbols

-- A candidate counts where it starts at the address, or covers it.
abbrev pub covering : ℕ → Option SymbolEntry → Option Symbol
covering a none = none
covering a (some e) =
    if e.low == a then some e.symbol else if ltb a e.high then some e.symbol else none

-- The last entry that does not start behind the address.
floor : ℕ → Option SymbolEntry → List SymbolEntry → Option SymbolEntry
floor a best [] = best
floor a best (e ∷ entries) = if leb e.low a then floor a (some e) entries else best

-- Keys in ascending order, above a bound.
abbrev IsAscending : ℕ → List SymbolEntry → Type 0
IsAscending low [] = Unit {0}
IsAscending low (e ∷ entries) = (low ≤ e.low) × IsAscending (suc e.low) entries

loosen :
    (low low' : ℕ) (entries : List SymbolEntry)
    → low ≤ low'
    → IsAscending low' entries
    → IsAscending low entries
loosen low low' [] h up = tt
loosen low low' (e ∷ entries) h up = (omega (arith, up.0), up.1)

insert_entry-IsAscending :
    (low : ℕ) (e : SymbolEntry) (entries : List SymbolEntry)
    → low ≤ e.low
    → IsAscending low entries
    → IsAscending low (insert_entry e entries)
unfolding insert_entry
insert_entry-IsAscending low e [] h up = (h, tt)
insert_entry-IsAscending low e (f ∷ entries) h up = elim (Bool-cases (ltb e.low f.low)) [
  | inl below ↦ rw below (h, (ground arith, up.1))
  | inr not_below ↦ elim (Bool-cases (e.low == f.low)) [
    | inl same ↦ rw (not_below, same) up
    | inr other ↦
        rw (not_below, other)
          (up.0, insert_entry-IsAscending (suc f.low) e entries (ground arith) up.1)
  ]
]

-- What the search reaches starts where the candidate did, or later.
floor_later :
    (a : ℕ) (f : SymbolEntry) (entries : List SymbolEntry)
    → IsAscending (suc f.low) entries
    → (g : SymbolEntry) × (floor a (some f) entries ≡ some g) × (f.low ≤ g.low)
unfolding floor
floor_later a f [] up = (f, refl, omega arith)
floor_later a f (e ∷ entries) up = elim (Bool-cases (leb e.low a)) [
  | inl reached ↦
      let (g, is_g, later) = floor_later a e entries up.1 in
      (g, rw reached is_g, omega (arith, up.0))
  | inr beyond ↦ (f, rw beyond refl, omega arith)
]

-- A candidate that starts before an entry, or none.
abbrev IsBefore : Option SymbolEntry → ℕ → Type 0
IsBefore none low = Unit {0}
IsBefore (some b) low = b.low < low

better_taken :
    (a : ℕ) (e : SymbolEntry) (best : Option SymbolEntry)
    → IsBefore best e.low
    → better a e best ≡ (if leb e.low a then some e else best)
better_taken a e none h = refl
better_taken a e (some b) h = elim (Bool-cases (leb e.low a)) [
  | inl reached ↦ rw (reached, le_true b.low e.low h) refl
  | inr beyond ↦ rw beyond refl
]
  where
    le_true : (x y : ℕ) → x < y → ltb x y ≡ true
    le_true x y h = ground arith

better_beyond :
    (a : ℕ) (e : SymbolEntry) (best : Option SymbolEntry)
    → leb e.low a ≡ false
    → better a e best ≡ best
better_beyond a e none h = rw h refl
better_beyond a e (some b) h = rw h refl

-- A candidate from `f` on stays against an entry that does not start behind `f`.
better_kept :
    (a : ℕ) (e f : SymbolEntry) (entries : List SymbolEntry)
    → e.low ≤ f.low
    → IsAscending (suc f.low) entries
    → better a e (floor a (some f) entries) ≡ floor a (some f) entries
better_kept a e f entries h up =
    let (g, is_g, later) = floor_later a f entries up in rw is_g (keep g (omega (arith, later)))
  where
    keep : (g : SymbolEntry) → e.low ≤ g.low → better a e (some g) ≡ some g
    keep g h = rw (not_later g h) (both (leb e.low a))
      where
        not_later : (g : SymbolEntry) → e.low ≤ g.low → ltb g.low e.low ≡ false
        not_later g h = le→ltb g.low e.low h

        both : (b : Bool) → (if b && false then some e else some g) ≡ some g
        both true = refl
        both false = refl

-- Inserting an entry makes it a candidate, and changes nothing else.
floor-insert_entry :
    (a low : ℕ) (e : SymbolEntry) (best : Option SymbolEntry) (entries : List SymbolEntry)
    → IsBefore best e.low
    → IsAscending low entries
    → floor a best (insert_entry e entries) ≡ better a e (floor a best entries)
unfolding floor insert_entry
floor-insert_entry a low e best [] h up = sym (better_taken a e best h)
floor-insert_entry a low e best (f ∷ entries) h up = elim (Bool-cases (ltb e.low f.low)) [
  | inl below ↦ rw below (elim (Bool-cases (leb f.low a)) [
    | inl reached ↦
        rw (reached, reaches reached below)
          (sym (better_kept a e f entries (omega (arith, ltb→lt e.low f.low below)) up.1))
    | inr beyond ↦ rw beyond (sym (better_taken a e best h))
  ])
  | inr not_below ↦ elim (Bool-cases (e.low == f.low)) [
    | inl same ↦
        rw (not_below, same)
          (elim (Bool-cases (leb f.low a)) [
            | inl reached ↦
                rw reached (
                  sym (better_kept a e f entries (omega (arith, (==_iff e.low f.low).0 same)) up.1))
            | inr beyond ↦ rw beyond (sym (better_beyond a e best (beyond_too beyond not_below)))
          ])
    | inr other ↦
        rw (not_below, other)
          (elim (Bool-cases (leb f.low a)) [
            | inl reached ↦
                rw reached
                  (floor-insert_entry a (suc f.low) e (some f) entries (later not_below other) up.1)
            | inr beyond ↦ rw beyond (sym (better_beyond a e best (beyond_too beyond not_below)))
          ])
  ]
]
  where
    reaches : leb f.low a ≡ true → ltb e.low f.low ≡ true → leb e.low a ≡ true
    reaches p q = ground arith

    beyond_too : leb f.low a ≡ false → ltb e.low f.low ≡ false → leb e.low a ≡ false
    beyond_too p q = ground arith

    later : ltb e.low f.low ≡ false → (e.low == f.low) ≡ false → f.low < e.low
    later p q = ground arith

-- The map that was built holds the best candidate of the symbol table.
floor-build_addr_map :
    (a : ℕ) (symbols : List Symbol) (entries : List SymbolEntry)
    → IsAscending 0 entries
    → (floor a none (build_addr_map entries symbols) ≡ nearest a (floor a none entries) symbols)
      × IsAscending 0 (build_addr_map entries symbols)
unfolding build_addr_map
floor-build_addr_map a [] entries up = (refl, up)
floor-build_addr_map a (s ∷ symbols) entries up = elim (Bool-cases (has_range s)) [
  | inl ranged ↦
      let added = insert_entry-IsAscending 0 (entry_of s) entries (omega arith) up in
      let (same, up') = floor-build_addr_map a symbols (insert_entry (entry_of s) entries) added in
      rw ranged (
        same
            ∙ ap (λ x. nearest a x symbols)
                (floor-insert_entry a 0 (entry_of s) none entries tt up),
        up',
      )
  | inr bare ↦ rw bare (floor-build_addr_map a symbols entries up)
]

-- What the lookup makes of the two entries around the bound.
abbrev answer : ℕ → Option SymbolEntry × Option SymbolEntry → Option Symbol
answer a (before, none) = before_address before a
answer a (before, some e) = if e.low == a then some e.symbol else before_address before a

before-covering :
    (a : ℕ) (before : Option SymbolEntry)
    → IsBefore before a
    → before_address before a ≡ covering a before
before-covering a none h = refl
before-covering a (some b) h = rw (sure b.low h, apart b.low h) refl
  where
    sure : (low : ℕ) → low < a → ltb low a ≡ true
    sure low h = ground arith

    apart : (low : ℕ) → low < a → (low == a) ≡ false
    apart low h = ground arith

answer-lower_bound :
    (a low : ℕ) (before : Option SymbolEntry) (entries : List SymbolEntry)
    → IsBefore before a
    → IsAscending low entries
    → answer a (lower_bound before entries a) ≡ covering a (floor a before entries)
unfolding lower_bound floor
answer-lower_bound a low before [] h up = before-covering a before h
answer-lower_bound a low before (e ∷ entries) h up = elim (Bool-cases (ltb e.low a)) [
  | inl below ↦
      rw (below, reached below)
        (answer-lower_bound a (suc e.low) (some e) entries (ltb→lt e.low a below) up.1)
  | inr not_below ↦ elim (Bool-cases (e.low == a)) [
    | inl here ↦ rw (not_below, at_address here, floor_here here entries up.1, here) refl
    | inr behind ↦ rw (not_below, beyond not_below behind, behind) (before-covering a before h)
  ]
]
  where
    reached : ltb e.low a ≡ true → leb e.low a ≡ true
    reached p = ground arith

    floor_here :
        (e.low == a) ≡ true
        → (entries : List SymbolEntry) → IsAscending (suc e.low) entries
        → floor a (some e) entries ≡ some e
    floor_here p [] up = refl
    floor_here p (g ∷ entries) up = rw (passed g (omega (arith, up.0)) p) refl
      where
        passed : (g : SymbolEntry) → suc e.low ≤ g.low → (e.low == a) ≡ true → leb g.low a ≡ false
        passed g h p = ground arith

    at_address : (e.low == a) ≡ true → leb e.low a ≡ true
    at_address p = ground arith

    beyond : ltb e.low a ≡ false → (e.low == a) ≡ false → leb e.low a ≡ false
    beyond p q = ground arith

-- On the map that `build_symbol_maps` makes of a symbol table, `get_symbol_containing_address`
-- finds what a search through the table does: of the symbols that have an address and a name and
-- are not thread-local, the one that starts last at or before the address, of several at one place
-- the first, if it starts at the address or ends behind it. An address of another object has none.
pub get_symbol_containing_address-nearest :
    (obj : ℕ) (symbols : List Symbol) (a : FileAddr)
    → get_symbol_containing_address obj (build_addr_map [] symbols) a
      ≡ (if a.elf == obj then covering a.addr (nearest a.addr none symbols) else none)
unfolding get_symbol_containing_address floor
get_symbol_containing_address-nearest obj symbols a = elim (Bool-cases (a.elf == obj)) [
  | inr other ↦ rw other refl
  | inl own ↦
      let (same, up) = floor-build_addr_map a.addr symbols [] tt in
      let entries = build_addr_map [] symbols in
      rw own (
        opened (lower_bound none entries a.addr)
        ∙ answer-lower_bound a.addr 0 none entries tt up
        ∙ ap (covering a.addr) same)
]
  where
    opened :
        (r : Option SymbolEntry × Option SymbolEntry)
        → elim r.1 [
          | none ↦ before_address r.0 a.addr
          | some e ↦ if e.low == a.addr then some e.symbol else before_address r.0 a.addr
        ]
          ≡ answer a.addr r
    opened (before, none) = refl
    opened (before, some e) = refl
