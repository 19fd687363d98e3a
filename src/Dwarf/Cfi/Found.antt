-- ===== src/Dwarf/Cfi/Found.antt =====
-- What the binary search finds in a sorted table.
use gsdb.Common.{ℕ, zero, suc, ◌+◌, ◌-◌, ◌*◌, ◌/◌, ◌≤◌, ◌<◌, ◌≡◌, refl, arith}
use gsdb.Common.{
  leb, Outcome, ok, err, undefined, exhausted, ap, List, some, Error, ◌>>=◌, Bool-cases, inl, inr,
  ◌⊎◌,
}
use gsdb.Common.Word.{add64, sub64}
use gsdb.Dwarf.Cfi.Pointer.{encoding_size}
use gsdb.Dwarf.Cfi.Entries.{Sections, EhHdr}
use gsdb.Dwarf.Cfi.Search.{search, narrow, hit, between, row_address, table_pointer, eh_hdr_lookup}

-- The four results of a round.
abbrev Cases : ℕ → ℕ → ℕ → ℕ → ℕ → Type 0
Cases key low high mid a =
    ((a < key) × (narrow key low high mid a ≡ ok (between (mid + 1) high)))
    ⊎ ((key < a) × (mid ≡ 0) × (narrow key low high mid a ≡ err Error.address_not_in_table))
    ⊎ ((key < a) × (0 < mid) × (narrow key low high mid a ≡ ok (between low (mid - 1))))
    ⊎ ((a ≡ key) × (narrow key low high mid a ≡ ok (hit mid)))

narrow-Cases : (key low high mid a : ℕ) → mid < 4611686018427387904 → Cases key low high mid a
unfolding narrow
narrow-Cases key low high mid a h = ground arith

module _ (row : ℕ → Outcome ℕ) (a : ℕ → ℕ) (count key : ℕ)
    (reads : (i : ℕ) → i < count → row i ≡ ok (a i))
    (sorted : (i j : ℕ) → i ≤ j → j < count → a i ≤ a j) (small : count < 4611686018427387904) where
  -- The last row that starts at or before the key, or the first row starts behind it.
  abbrev pub Last : Outcome ℕ → Type 0
  Last (ok i) = (i < count) × (a i ≤ key) × ((j : ℕ) → i < j → j < count → key ≤ a j)
  Last (err e) = (e ≡ Error.address_not_in_table) × (key < a 0)
  Last r = ⊥

  -- The loop keeps every row below `low` before the key and every row above `high` behind it.
  search-Last :
      (rounds low high : ℕ)
      → low ≤ high + 1
      → high < count
      → high + 1 < low + rounds
      → ((i : ℕ) → i < low → a i < key)
      → ((j : ℕ) → high < j → j < count → key < a j)
      → (0 < low) ⊎ (low ≤ high)
      → Last (search rounds row key low high)
  unfolding search
  search-Last zero low high h hc hr below above any = absurd (omega arith)
  search-Last (suc rounds) low high h hc hr below above any = elim (Bool-cases (leb low high)) [
    | inl more ↦
        let mid = (low + high) / 2 in
        let ordered : low ≤ high = ground arith in
        let halved : add64 low high / 2 ≡ mid = omega arith in
        rw (search, more, halved, reads mid (omega arith))
          (elim (narrow-Cases key low high mid (a mid) (omega arith)) [
            | inl (before, e) ↦ rw e (
                search-Last rounds (mid + 1) high (omega arith) hc (omega arith)
                  (λ i k. omega (arith, before, sorted i mid)) above (inl (omega arith)))
            | inr (inl (behind, first, e)) ↦ rw e (ground arith)
            | inr (inr (inl (behind, later, e))) ↦ rw e (
                search-Last rounds low (mid - 1) (omega arith) (omega arith) (omega arith) below
                  (λ j k l. omega (arith, behind, sorted mid j)) (ground arith))
            | inr (inr (inr (same, e))) ↦ rw e (ground (arith, sorted mid))
          ])
    | inr done ↦
        let closed : high < low = ground arith in
        let before : a high < key = below high closed in
        rw (search, done) (hc, omega (arith, before), λ j k l. omega (arith, above j k l))
  ]

-- The row that covers an address.
abbrev pub Covering : (ℕ → ℕ) → ℕ → ℕ → ℕ → Type 0
Covering a count key i = (i < count) × (a i ≤ key) × ((j : ℕ) → i < j → j < count → key ≤ a j)

split :
    (row : ℕ → Outcome ℕ) (a : ℕ → ℕ) (count key : ℕ)
    (reads : (i : ℕ) → i < count → row i ≡ ok (a i))
    (sorted : (i j : ℕ) → i ≤ j → j < count → a i ≤ a j) (small : count < 4611686018427387904)
    (r : Outcome ℕ)
    → Last row a count key reads sorted small r
    → ((r ≡ err Error.address_not_in_table) × (key < a 0))
      ⊎ ((i : ℕ) × (r ≡ ok i) × Covering a count key i)
split row a count key reads sorted small (ok i) h = inr (i, refl, h)
split row a count key reads sorted small (err e) h = inl (ap err h.0, h.1)
split row a count key reads sorted small undefined h = absurd h
split row a count key reads sorted small exhausted h = absurd h

-- In a table of fewer than 2 ^ 62 rows, at least one, whose addresses `a` can be read and are in
-- ascending order, the lookup of an address ends: it raises an error exactly where the address lies
-- before the first row, and else reads the entry of a row that starts at or before the address, and
-- behind which no row starts before it.
pub lookup-Covering :
    (image : List ℕ) (s : Sections) (hdr : EhHdr) (text size address : ℕ) (a : ℕ → ℕ)
    → s.text ≡ some text
    → encoding_size hdr.encoding ≡ ok size
    → 0 < hdr.count
    → hdr.count < 4611686018427387904
    → ((i : ℕ) → i < hdr.count → row_address image hdr text size i ≡ ok (a i))
    → ((i j : ℕ) → i ≤ j → j < hdr.count → a i ≤ a j)
    → ((eh_hdr_lookup image s hdr address ≡ err Error.address_not_in_table) × (address < a 0))
      ⊎ ((i : ℕ) × (eh_hdr_lookup image s hdr address
            ≡ table_pointer image hdr text size (hdr.search_table + i * (size * 2) + size))
          × Covering a hdr.count address i)
unfolding eh_hdr_lookup
lookup-Covering image s hdr text size address a et es some_row small reads sorted =
    elim (split _ a hdr.count address reads sorted small _ (
      search-Last (row_address image hdr text size) a hdr.count address reads sorted small
        (suc hdr.count) 0 (hdr.count - 1) (omega arith) (omega arith) (omega arith)
        (λ i k. absurd (omega arith)) (λ j k l. absurd (omega arith)) (inr (omega arith)))) [
          | inl (fails, before) ↦ inl (searched _ fails, before)
          | inr (i, finds, covers) ↦ inr (i, searched _ finds, covers)
        ]
  where
    last : (n : ℕ) → 0 < n → n < 4611686018427387904 → sub64 n 1 ≡ n - 1
    last n h k = omega arith

    searched :
        (r : Outcome ℕ)
        → search (suc hdr.count) (row_address image hdr text size) address 0 (hdr.count - 1) ≡ r
        → eh_hdr_lookup image s hdr address ≡ (
            r >>= λ i. table_pointer image hdr text size (hdr.search_table + i * (size * 2) + size))
    searched r e = rw (et, es, last hdr.count some_row small, e) refl
