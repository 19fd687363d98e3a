-- ===== src/Dwarf/LineTable/Found.antt =====
-- What `get_entry_by_address` returns, and that its loop ends.
use gsdb.Common.{ℕ, zero, suc, ◌+◌, ◌<◌, ◌≡◌, refl, ap, ◌∙◌, arith, ◌⊎◌, inl, inr}
use gsdb.Common.{Bool, true, false, List, Option, none, some, length, Bool-cases}
use gsdb.Common.{
  Outcome, ok, undefined, ok-injective, >>=-eq-ok, ◌==◌, ==_iff, ◌≤◌, ltb, leb, not, ◌&&◌,
  if◌then◌else◌,
}
use gsdb.Common.{Ends, Ends-bind, Ends-self, Ends-weaken}
use mathlib.Core.Path.{subst}
use gsdb.Dwarf.LineTable.{
  FileAddr, Entry, LineTable, Iterator, begin, increment, at_end, addr_le, addr_gt,
}
use gsdb.Dwarf.Cursor.Progress.{Any}
use gsdb.Dwarf.LineTable.Rows.{Later, advance_at-Ends}
use gsdb.Dwarf.LineTable.Lookup.{covers, scan_rows, get_entry_by_address}

-- The address lies from one row up to another: all three are addresses of one object, the first
-- row does not begin behind the address, the second does, and the first does not end a sequence.
abbrev pub IsBetween : FileAddr → Entry → Entry → Type 0
IsBetween address low high =
    (FileAddr.elf low.address ≡ address.elf)
    × (FileAddr.elf high.address ≡ address.elf)
    × (FileAddr.addr low.address ≤ address.addr)
    × (address.addr < FileAddr.addr high.address)
    × (low.end_sequence ≡ false)

-- The row covers the address up to the row behind it.
abbrev pub Covers : FileAddr → Iterator → Iterator → Type 0
Covers address row after = IsBetween address row.current after.current

-- The result of a search from a row on: the first row that covers the address, or none, where no
-- row does up to the last one.
pub data Scanned (image : List ℕ) (address : FileAddr) : Iterator → Option Iterator → Type 0 where
  at_last :
      (row after : Iterator)
      → increment image row ≡ ok after
      → at_end after ≡ true
      → Scanned image address row none
  found :
      (row after : Iterator)
      → increment image row ≡ ok after
      → at_end after ≡ false
      → Covers address row after
      → Scanned image address row (some row)
  passed :
      (row after : Iterator) (r : Option Iterator)
      → increment image row ≡ ok after
      → at_end after ≡ false
      → ¬ (Covers address row after)
      → Scanned image address after r
      → Scanned image address row r

-- The result of a search through the table: of one from its first row, if it has rows.
abbrev pub Answer : List ℕ → LineTable → FileAddr → Option Iterator → Type 0
Answer image t address r =
    (row : Iterator) × (begin image t ≡ ok row)
    × (((at_end row ≡ true) × (r ≡ none)) ⊎ ((at_end row ≡ false) × Scanned image address row r))

-- The rounds are enough from a row that `++` has reached.
abbrev Enough : List ℕ → ℕ → Iterator → Type 0
Enough image rounds it =
    ((it.pos ≡ none) × (0 < rounds))
    ⊎ ((q : ℕ) × (it.pos ≡ some q) × (length image + 1 < q + rounds) × (1 < rounds))

same_elf-Ends : (b c : Bool) → Ends (Any {A = Bool}) (if b then ok c else undefined)
same_elf-Ends true c = tt
same_elf-Ends false c = tt

above-Ends :
    (below : Bool) (a b : FileAddr)
    → Ends (Any {A = Bool}) (if below then addr_gt a b else ok false)
unfolding addr_gt
above-Ends true a b = same_elf-Ends _ _
above-Ends false a b = tt

covers-Ends :
    (address : FileAddr) (prev it : Iterator) → Ends (Any {A = Bool}) (covers address prev it)
unfolding covers addr_le
covers-Ends address prev it =
    let row = prev.current in
    let after = it.current in
    Ends-bind Any Any (addr_le row.address address) _ (same_elf-Ends _ _) λ below _.
      Ends-bind Any Any (if below then addr_gt after.address address else ok false) _
        (above-Ends below after.address address) (λ above _. tt)

-- What the test of the loop says.
Decides : Bool → Type 0 → Type 0
Decides true P = P
Decides false P = ¬ P

same_elf-ok :
    (p q : ℕ) (c d : Bool) → (if p == q then ok c else undefined) ≡ ok d → (p ≡ q) × (c ≡ d)
same_elf-ok p q c d e = elim (Bool-cases (p == q)) [
  | inl same ↦ ((==_iff p q).0 same, ok-injective (rw same at e))
  | inr other ↦ absurd (ne (rw other at e))
]
  where
    ne : ◌≡◌ {A = Outcome Bool} undefined (ok d) → ⊥
    ne e = cc

leb-Decides : (x y : ℕ) (r : Bool) → leb x y ≡ r → Decides r (x ≤ y)
unfolding Decides
leb-Decides x y true e = ground arith
leb-Decides x y false e = ground arith

ltb-Decides : (x y : ℕ) (r : Bool) → ltb x y ≡ r → Decides r (x < y)
unfolding Decides
ltb-Decides x y true e = ground arith
ltb-Decides x y false e = ground arith

addr_le-Decides :
    (a b : FileAddr) (r : Bool) → addr_le a b ≡ ok r → (a.elf ≡ b.elf) × Decides r (a.addr ≤ b.addr)
unfolding addr_le Decides
addr_le-Decides a b r e =
    let (same, c) = same_elf-ok a.elf b.elf (leb a.addr b.addr) r e in
    (same, leb-Decides a.addr b.addr r c)

addr_gt-Decides :
    (a b : FileAddr) (r : Bool) → addr_gt a b ≡ ok r → (a.elf ≡ b.elf) × Decides r (b.addr < a.addr)
unfolding addr_gt Decides
addr_gt-Decides a b r e =
    let (same, c) = same_elf-ok a.elf b.elf (ltb b.addr a.addr) r e in
    (same, ltb-Decides b.addr a.addr r c)

ends_not : {b : Bool} → b ≡ true → b ≡ false → ⊥
ends_not h k = absurd (cc)

decided :
    (address : FileAddr) (low high : Entry) (below above ends : Bool)
    → low.end_sequence ≡ ends
    → (FileAddr.elf low.address ≡ address.elf)
      × Decides below (FileAddr.addr low.address ≤ address.addr)
    → (if below then addr_gt high.address address else ok false) ≡ ok above
    → Decides (above && not ends) (IsBetween address low high)
unfolding Decides
decided address low high true true false h (same, le) k =
    let (also, gt) = addr_gt-Decides high.address address true k in (same, also, le, gt, h)
decided address low high true true true h (same, le) k = λ c. ends_not h c.4
decided address low high true false ends h (same, le) k =
    let (_, gt) = addr_gt-Decides high.address address false k in λ c. gt c.3
decided address low high false true ends h (same, le) k = absurd (cc)
decided address low high false false ends h (same, le) k = λ c. le c.2

covers-Covers :
    (address : FileAddr) (row after : Iterator) (b : Bool)
    → covers address row after ≡ ok b
    → Decides b (Covers address row after)
unfolding covers
covers-Covers address row after b e =
    let low = row.current in
    let high = after.current in
    let (below, e1, k) = >>=-eq-ok (addr_le low.address address) _ e in
    let (above, e2, k2) =
      >>=-eq-ok (if below then addr_gt high.address address else ok false) _ k in
    subst (λ (r : Bool). Decides r (Covers address row after)) (ok-injective k2)
      (decided address low high below above low.end_sequence refl
        (addr_le-Decides low.address address below e1) e2)

increment-Ends :
    (image : List ℕ) (it : Iterator) (q : ℕ)
    → it.pos ≡ some q
    → Ends (Later image q) (increment image it)
unfolding increment
increment-Ends image it q at = rw at (advance_at-Ends image it q)

enough :
    (image : List ℕ) (q rounds : ℕ) (next : Iterator)
    → length image + 1 < q + suc rounds
    → 1 < suc rounds
    → Later image q next
    → Enough image rounds next
enough image q rounds next h k (inl final) = inl (final, omega arith)
enough image q rounds next h k (inr (r, at, past, inside)) = inr (r, at, omega arith, omega arith)

scan_rows-Ends :
    (rounds : ℕ) (image : List ℕ) (address : FileAddr) (prev it : Iterator)
    → increment image prev ≡ ok it
    → Enough image rounds it
    → Ends (Scanned image address prev) (scan_rows rounds image address prev it)
unfolding scan_rows Decides
scan_rows-Ends zero image address prev it e h = absurd (omega (arith, h))
scan_rows-Ends (suc rounds) image address prev it e (inl (final, h)) =
    rw (scan_rows, final) (Scanned.at_last prev it e (rw final refl))
scan_rows-Ends (suc rounds) image address prev it e (inr (q, at, h, k)) =
    rw (scan_rows, at)
      (Ends-bind (λ hit. (covers address prev it ≡ ok hit) × Any hit) (Scanned image address prev)
        (covers address prev it) _
        (Ends-self Any (covers address prev it) (covers-Ends address prev it))
        λ hit test. elim (Bool-cases hit) [
          | inl hits ↦ rw hits (
              Scanned.found prev it e (rw at refl)
                (covers-Covers address prev it true (test.0 ∙ ap ok hits)))
          | inr misses ↦ rw misses (
              Ends-bind (λ next. (increment image it ≡ ok next) × Later image q next)
                (Scanned image address prev) (increment image it) _
                (Ends-self (Later image q) (increment image it) (increment-Ends image it q at))
                λ next moved.
                  Ends-weaken (Scanned image address it) (Scanned image address prev)
                    (scan_rows rounds image address it next)
                    (scan_rows-Ends rounds image address it next moved.0
                      (enough image q rounds next h k moved.1))
                    (λ r behind.
                      Scanned.passed prev it r e (rw at refl)
                        (covers-Covers address prev it false (test.0 ∙ ap ok misses)) behind))
        ])

start_of : LineTable → ℕ
start_of t = let s = t.data_span in s.start

begin-Ends : (image : List ℕ) (t : LineTable) → Ends (Later image (start_of t)) (begin image t)
unfolding begin start_of
begin-Ends image t = increment-Ends image _ (start_of t) refl

-- `get_entry_by_address` ends on every line program. Where it returns, it has gone through the
-- table's rows in order: its result is the first row that covers the address, which is not below
-- that row's and below the next row's, in one object, and where the row does not end a sequence;
-- it is none where no row but the last was left, or the table has no row.
pub get_entry_by_address-Ends :
    (image : List ℕ) (t : LineTable) (address : FileAddr)
    → Ends (Answer image t address) (get_entry_by_address image t address)
unfolding get_entry_by_address
get_entry_by_address-Ends image t address =
    Ends-bind (λ row. (begin image t ≡ ok row) × Later image (start_of t) row)
      (Answer image t address) (begin image t) _
      (Ends-self (Later image (start_of t)) (begin image t) (begin-Ends image t))
      λ prev (started, reached). elim reached [
        | inl final ↦ rw final (prev, started, inl (rw final refl, refl))
        | inr (p, at, past, _) ↦ rw at (
            Ends-bind (λ it. (increment image prev ≡ ok it) × Later image p it)
              (Answer image t address) (increment image prev) _
              (Ends-self (Later image p) (increment image prev) (increment-Ends image prev p at))
              λ it moved.
                Ends-weaken (Scanned image address prev) (Answer image t address)
                  (scan_rows (suc (length image)) image address prev it)
                  (scan_rows-Ends (suc (length image)) image address prev it moved.0
                    (first image p it moved.1 (omega arith)))
                  (λ r scanned. (prev, started, inr (rw at refl, scanned))))
      ]
  where
    first :
        (image : List ℕ) (p : ℕ) (it : Iterator)
        → Later image p it
        → 0 < p
        → Enough image (suc (length image)) it
    first image p it (inl final) h = inl (final, omega arith)
    first image p it (inr (q, at, past, inside)) h = inr (q, at, omega arith, omega arith)
