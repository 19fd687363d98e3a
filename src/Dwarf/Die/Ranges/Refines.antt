-- ===== src/Dwarf/Die/Ranges/Refines.antt =====
-- Range lists against their meaning in the DWARF standard: a list of ranges and base address
-- selections, and the addresses that it covers.
use gsdb.Common.{ℕ, zero, suc, ◌+◌, ◌-◌, ◌<◌, ◌≡◌, refl, ap, ◌∙◌, arith}
use gsdb.Common.{Bool, true, false, ◌&&◌, ◌||◌, List, [], ◌∷◌, ◌++◌, some, none, length, drop, All}
use gsdb.Common.{
  leb, ltb, ◌==◌, if◌then◌else◌, Bool-cases, inl, inr, ne→==, length-append, length-drop,
}
use gsdb.Common.{ok, ◌>>=◌}
use gsdb.Common.Word.{two64, add64}
use mathlib.Core.Path.{subst}
use mathlib.Core.List.{append_assoc}
use gsdb.Dwarf.Cursor.{move, cursor_to, span_end, u64}
use gsdb.Dwarf.Cursor.Steps.{le_bytes, length-le_bytes, fixed_int-le_bytes, drop-past}
use gsdb.Dwarf.LineTable.{FileAddr}
use gsdb.Dwarf.Die.Ranges.{
  RangeList, RangeIterator, entry_contains, next_range, later_range, any_contains, ranges_contain,
}

-- An entry of a list: a range of addresses counted from the base, or a new base.
pub data RangeItem : Type 0 where
  range : ℕ → ℕ → RangeItem
  select : ℕ → RangeItem

-- 64-bit numbers that stand for the item: a range is not the selection mark, nor the end mark.
abbrev pub IsItem : RangeItem → Type 0
IsItem (range low high) = (low < two64 - 1) × (high < two64) × ((low == 0) && (high == 0) ≡ false)
IsItem (select base) = base < two64

abbrev pub pair_bytes : ℕ → ℕ → List ℕ
pair_bytes first second = le_bytes 8 first ++ le_bytes 8 second

abbrev pub item_bytes : RangeItem → List ℕ
item_bytes (range low high) = pair_bytes low high
item_bytes (select base) = pair_bytes (two64 - 1) base

-- The bytes of a list, with its end mark.
abbrev pub list_bytes : List RangeItem → List ℕ → List ℕ
list_bytes [] rest = pair_bytes 0 0 ++ rest
list_bytes (i ∷ items) rest = item_bytes i ++ list_bytes items rest

-- Whether a list, read from a base address on, covers an address.
abbrev pub covers : ℕ → List RangeItem → ℕ → Bool
covers base [] a = false
covers base (range low high ∷ items) a =
    (leb (add64 low base) a && ltb a (add64 high base)) || covers base items a
covers base (select b ∷ items) a = covers b items a

length-pair_bytes : (x y : ℕ) → length (pair_bytes x y) ≡ 16
length-pair_bytes x y =
    length-append (le_bytes 8 x) (le_bytes 8 y)
    ∙ omega (arith, length-le_bytes 8 x, length-le_bytes 8 y)

length-item_bytes : (i : RangeItem) → length (item_bytes i) ≡ 16
length-item_bytes (range low high) = length-pair_bytes low high
length-item_bytes (select base) = length-pair_bytes (two64 - 1) base

length-list_bytes :
    (items : List RangeItem) (rest : List ℕ) → length items < length (list_bytes items rest)
length-list_bytes [] rest =
    omega (arith, length-append (pair_bytes 0 0) rest, length-pair_bytes 0 0)
length-list_bytes (i ∷ items) rest = omega (
  arith,
  length-append (item_bytes i) (list_bytes items rest),
  length-item_bytes i,
  length-list_bytes items rest,
)

entry_contains_lem :
    (e low high : ℕ) (a : FileAddr)
    → a.elf ≡ e
    → entry_contains
        (record { low = record { elf = e; addr = low }; high = record { elf = e; addr = high } })
        a
      ≡ ok (leb low a.addr && ltb a.addr high)
unfolding entry_contains
entry_contains_lem e low high a same = ground arith

module _ (image : List ℕ) (l : RangeList) (a : FileAddr) (same : a.elf ≡ l.elf) where
  -- The two addresses of an item, and the position behind them.
  read_pair :
      (p x y : ℕ) (rest : List ℕ)
      → x < two64
      → y < two64
      → drop p image ≡ pair_bytes x y ++ rest
      → (u64 image (cursor_to p (span_end l.bytes))
          ≡ ok (x, move (cursor_to p (span_end l.bytes)) 8))
        × (u64 image (move (cursor_to p (span_end l.bytes)) 8)
            ≡ ok (y, record (cursor_to p (span_end l.bytes)) { pos = p + 16 }))
        × (drop (p + 16) image ≡ rest)
  read_pair p x y rest hx hy e =
      let start = cursor_to p (span_end l.bytes) in
      let e1 : drop p image ≡ le_bytes 8 x ++ (le_bytes 8 y ++ rest) =
        e ∙ append_assoc (le_bytes 8 x) (le_bytes 8 y) rest in
      let e2 = drop-past image p (le_bytes 8 x) (le_bytes 8 y ++ rest) e1 in
      let behind : p + 8 + 8 ≡ p + 16 = omega arith in
      (
        fixed_int-le_bytes image 8 x start (le_bytes 8 y ++ rest) (omega arith) e1,
        fixed_int-le_bytes image 8 y (move start 8) rest (omega arith) e2
            ∙ ap (λ (q : ℕ). ok (y, record start { pos = q })) behind,
        subst (λ q. drop q image ≡ rest) behind (drop-past image (p + 8) (le_bytes 8 y) rest e2),
      )

  abbrev found : FileAddr → ℕ → ℕ → ℕ → RangeIterator
  found base p low high = record {
    base = base;
    pos = some p;
    current = record {
      low = record { elf = l.elf; addr = add64 low base.addr };
      high = record { elf = l.elf; addr = add64 high base.addr };
    };
  }

  next_range-range :
      (rounds p low high : ℕ) (base : FileAddr) (rest : List ℕ)
      → IsItem (range low high)
      → drop p image ≡ pair_bytes low high ++ rest
      → next_range image (suc rounds) l base p ≡ ok (found base (p + 16) low high)
  unfolding next_range
  next_range-range rounds p low high base rest h e =
      let (first, second, behind) = read_pair p low high rest (omega arith) h.1 e in
      simp (first, second, ne→== low (two64 - 1) (omega arith), h.2)

  next_range-select :
      (rounds p b : ℕ) (base : FileAddr) (rest : List ℕ)
      → b < two64
      → drop p image ≡ pair_bytes (two64 - 1) b ++ rest
      → next_range image (suc rounds) l base p
        ≡ next_range image rounds l (record { elf = l.elf; addr = b }) (p + 16)
  unfolding next_range
  next_range-select rounds p b base rest h e =
      let (first, second, behind) = read_pair p (two64 - 1) b rest (omega arith) h e in
      simp (first, second)

  next_range-end :
      (rounds p : ℕ) (base : FileAddr) (rest : List ℕ)
      → drop p image ≡ pair_bytes 0 0 ++ rest
      → (it : RangeIterator) × (next_range image (suc rounds) l base p ≡ ok it) × (it.pos ≡ none)
  unfolding next_range
  next_range-end rounds p base rest e =
      let (first, second, behind) = read_pair p 0 0 rest (omega arith) (omega arith) e in
      let zero_addr : FileAddr = record { elf = l.elf; addr = 0 } in
      (
        record { base = base; pos = none; current = record { low = zero_addr; high = zero_addr } },
        simp (first, second),
        refl,
      )

  -- One entry of the `any_of`, and its end.
  any_contains-found :
      (rounds p low high : ℕ) (base : FileAddr) (b : Bool)
      → (leb (add64 low base.addr) a.addr && ltb a.addr (add64 high base.addr)) ≡ b
      → any_contains image (suc rounds) l a (found base p low high) ≡ (
          if b
          then ok true
          else (next_range image (suc (length image)) l base p >>= any_contains image rounds l a))
  unfolding any_contains later_range
  any_contains-found rounds p low high base true e =
      simp (entry_contains_lem l.elf (add64 low base.addr) (add64 high base.addr) a same, e)
  any_contains-found rounds p low high base false e =
      simp (entry_contains_lem l.elf (add64 low base.addr) (add64 high base.addr) a same, e)

  any_contains-end :
      (rounds : ℕ) (it : RangeIterator)
      → it.pos ≡ none
      → any_contains image (suc rounds) l a it ≡ ok false
  unfolding any_contains
  any_contains-end rounds it e = rw (any_contains, e)

  fits :
      (p : ℕ) (items : List RangeItem) (rest : List ℕ)
      → drop p image ≡ list_bytes items rest
      → length items < length image
  fits p items rest e =
      omega (arith, length-list_bytes items rest, ap length e, length-drop p image)

  search_ranges :
      (items : List RangeItem) (n m p : ℕ) (base : FileAddr) (rest : List ℕ)
      → length items < n
      → length items < m
      → All IsItem items
      → drop p image ≡ list_bytes items rest
      → (next_range image n l base p >>= any_contains image m l a)
        ≡ ok (covers base.addr items a.addr)
  search_ranges items zero m p base rest hn hm h e = absurd (omega arith)
  search_ranges items (suc n) zero p base rest hn hm h e = absurd (omega arith)
  search_ranges [] (suc n) (suc m) p base rest hn hm h e =
      let (it, run, ended) = next_range-end n p base rest e in rw run (any_contains-end m it ended)
  search_ranges (select b ∷ items) (suc n) (suc m) p base rest hn hm h e =
      let (_, _, behind) = read_pair p (two64 - 1) b (list_bytes items rest) (omega arith) h.0 e in
      rw (next_range-select n p b base (list_bytes items rest) h.0 e) (
        search_ranges items n (suc m) (p + 16) (record { elf = l.elf; addr = b }) rest (omega arith)
          (omega arith) h.1 behind)
  search_ranges (range low high ∷ items) (suc n) (suc m) p base rest hn hm h e =
      let (_, _, behind) = read_pair p low high (list_bytes items rest) (omega arith) h.0.1 e in
      let first = next_range-range n p low high base (list_bytes items rest) h.0 e in
      let further =
        search_ranges items (suc (length image)) m (p + 16) base rest
          (omega (arith, fits (p + 16) items rest behind)) (omega arith) h.1 behind in
      let inside = leb (add64 low base.addr) a.addr && ltb a.addr (add64 high base.addr) in
      elim (Bool-cases inside) [
        | inl within ↦
            rw (first, any_contains-found m (p + 16) low high base true within, within) refl
        | inr outside ↦
            rw (first, any_contains-found m (p + 16) low high base false outside, outside) further
      ]

  -- On the bytes of a range list, with its end mark, `range_list::contains` ends and says whether
  -- one of the list's ranges, each counted from the base address that stands before it, covers the
  -- address; base address selections are taken into account, and whatever follows the end mark is
  -- not read. The address belongs to the list's object.
  pub ranges_contain-covers :
      (items : List RangeItem) (rest : List ℕ)
      → All IsItem items
      → drop l.bytes.start image ≡ list_bytes items rest
      → ranges_contain image l a ≡ ok (covers l.base_address.addr items a.addr)
  unfolding ranges_contain
  ranges_contain-covers items rest h e =
      let few = fits l.bytes.start items rest e in
      search_ranges items (suc (length image)) (suc (length image)) l.bytes.start l.base_address
        rest (omega arith) (omega arith) h e
