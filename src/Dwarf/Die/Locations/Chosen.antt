-- ===== src/Dwarf/Die/Locations/Chosen.antt =====
-- Location lists against their meaning in the DWARF standard.
use gsdb.Common.{ℕ, zero, suc, ◌+◌, ◌-◌, ◌%◌, ◌≤◌, ◌<◌, ◌≡◌, ap, ◌∙◌, arith}
use gsdb.Common.{false, ◌&&◌, List, [], ◌∷◌, ◌++◌, Option, some, none, length, drop, All}
use gsdb.Common.{
  leb, ltb, ◌==◌, if◌then◌else◌, Bool-cases, inl, inr, ne→==, length-append, length-drop,
}
use gsdb.Common.{ok}
use gsdb.Common.Word.{two64, add64}
use mathlib.Core.Path.{subst}
use gsdb.Dwarf.Cursor.{Span, Cursor, move, jump, u16, u64}
use gsdb.Dwarf.Cursor.Steps.{le_bytes, fixed_int-le_bytes, drop-past}
use gsdb.Dwarf.Die.Locations.{find_location}

-- An entry of a list: a range of addresses, counted from the base, with the expression that holds
-- there, or a new base.
pub data LocationItem : Type 0 where
  located : ℕ → ℕ → List ℕ → LocationItem
  select : ℕ → LocationItem

abbrev pub IsItem : LocationItem → Type 0
IsItem (located low high expr) =
    (low < two64 - 1) × (high < two64) × (length expr < 65536) × ((low == 0) && (high == 0) ≡ false)
IsItem (select base) = base < two64

-- The bytes of a list, with its end mark.
abbrev pub list_bytes : List LocationItem → List ℕ → List ℕ
list_bytes [] rest = le_bytes 8 0 ++ (le_bytes 8 0 ++ rest)
list_bytes (located low high expr ∷ items) rest =
    le_bytes 8 low
    ++ (le_bytes 8 high ++ (le_bytes 2 (length expr) ++ (expr ++ list_bytes items rest)))
list_bytes (select base ∷ items) rest =
    le_bytes 8 (two64 - 1) ++ (le_bytes 8 base ++ list_bytes items rest)

-- The place of the expression of the first entry that covers an address, in a list that starts at
-- a position.
abbrev pub chosen : ℕ → ℕ → List LocationItem → ℕ → Option Span
chosen p base [] pc = none
chosen p base (located low high expr ∷ items) pc =
    if leb (add64 base low) pc && ltb pc (add64 base high)
    then some (record { start = p + 18; size = length expr })
    else chosen (p + 18 + length expr) base items pc
chosen p base (select b ∷ items) pc = chosen (p + 16) b items pc

abbrev at_pos : Cursor → ℕ → Cursor
at_pos c p = record c { pos = p }

module _ (image : List ℕ) (pc : ℕ) (small : length image < two64) where
  -- The two addresses of an item.
  read_pair :
      (c : Cursor) (x y : ℕ) (rest : List ℕ)
      → x < two64
      → y < two64
      → drop c.pos image ≡ le_bytes 8 x ++ (le_bytes 8 y ++ rest)
      → (u64 image c ≡ ok (x, move c 8))
        × (u64 image (move c 8) ≡ ok (y, at_pos c (c.pos + 16)))
        × (drop (c.pos + 16) image ≡ rest)
  read_pair c x y rest hx hy e =
      let e2 = drop-past image c.pos (le_bytes 8 x) (le_bytes 8 y ++ rest) e in
      let behind : c.pos + 8 + 8 ≡ c.pos + 16 = omega arith in
      (
        fixed_int-le_bytes image 8 x c (le_bytes 8 y ++ rest) (omega arith) e,
        fixed_int-le_bytes image 8 y (move c 8) rest (omega arith) e2
            ∙ ap (λ (q : ℕ). ok (y, at_pos c q)) behind,
        subst (λ q. drop q image ≡ rest) behind
            (drop-past image (c.pos + 8) (le_bytes 8 y) rest e2),
      )

  list_fits :
      (items : List LocationItem) (rest : List ℕ)
      → length items + 16 ≤ length (list_bytes items rest)
  list_fits [] rest = omega arith
  list_fits (located low high expr ∷ items) rest =
      omega (arith, length-append expr (list_bytes items rest), list_fits items rest)
  list_fits (select b ∷ items) rest = omega (arith, list_fits items rest)

  -- Behind the expression of an entry.
  pass_expression :
      (c : Cursor) (expr : List ℕ) (items : List LocationItem) (rest : List ℕ)
      → drop c.pos image ≡ le_bytes 2 (length expr) ++ (expr ++ list_bytes items rest)
      → length expr < 65536
      → (u16 image c ≡ ok (length expr, at_pos c (c.pos + 2)))
        × (jump (at_pos c (c.pos + 2)) (length expr) ≡ at_pos c (c.pos + 2 + length expr))
        × (drop (c.pos + 2 + length expr) image ≡ list_bytes items rest)
  unfolding jump
  pass_expression c expr items rest e short =
      let behind =
        drop-past image c.pos (le_bytes 2 (length expr)) (expr ++ list_bytes items rest) e in
      let after = drop-past image (c.pos + 2) expr (list_bytes items rest) behind in
      let stays : (c.pos + 2 + length expr) % two64 ≡ c.pos + 2 + length expr = omega (
        arith,
        list_fits items rest,
        ap length after,
        length-drop (c.pos + 2 + length expr) image,
        small,
      ) in
      (
        fixed_int-le_bytes image 2 (length expr) c (expr ++ list_bytes items rest) (omega arith) e,
        ap (at_pos c) stays,
        after,
      )

  find_chosen :
      (rounds : ℕ) (items : List LocationItem) (base : ℕ) (c : Cursor) (rest : List ℕ)
      → length items < rounds
      → All IsItem items
      → drop c.pos image ≡ list_bytes items rest
      → find_location rounds image pc base c ≡ ok (chosen c.pos base items pc)
  unfolding find_location
  find_chosen zero items base c rest few h e = absurd (omega arith)
  find_chosen (suc rounds) [] base c rest few h e =
      let (first, second, behind) = read_pair c 0 0 rest (omega arith) (omega arith) e in
      simp (first, second)
  find_chosen (suc rounds) (select b ∷ items) base c rest few h e =
      let (first, second, behind) =
        read_pair c (two64 - 1) b (list_bytes items rest) (omega arith) h.0 e in
      let others =
        find_chosen rounds items b (at_pos c (c.pos + 16)) rest (omega arith) h.1 behind in
      simp (first, second, others)
  find_chosen (suc rounds) (located low high expr ∷ items) base c rest few h e =
      let bytes = le_bytes 2 (length expr) ++ (expr ++ list_bytes items rest) in
      let (first, second, behind) = read_pair c low high bytes (omega arith) h.0.1 e in
      let c' = at_pos c (c.pos + 16) in
      let (len, onward, after) = pass_expression c' expr items rest behind h.0.2 in
      let there : c.pos + 16 + 2 ≡ c.pos + 18 = omega arith in
      let others =
        find_chosen rounds items base (at_pos c (c.pos + 18 + length expr)) rest (omega arith) h.1
          (subst (λ q. drop (q + length expr) image ≡ list_bytes items rest) there after) in
      let len' : u16 image c' ≡ ok (length expr, at_pos c (c.pos + 18)) =
        len ∙ ap (λ q. ok (length expr, at_pos c q)) there in
      let onward' : jump (at_pos c (c.pos + 18)) (length expr)
          ≡ at_pos c (c.pos + 18 + length expr) =
        subst (λ q. jump (at_pos c q) (length expr) ≡ at_pos c (q + length expr)) there onward in
      let mark = ne→== low (two64 - 1) (omega arith) in
      elim (Bool-cases (leb (add64 base low) pc && ltb pc (add64 base high))) [
        | inl covered ↦ simp (first, second, h.0.3, mark, len', covered)
        | inr other ↦ simp (first, second, h.0.3, mark, len', other, onward', others)
      ]

  -- On the bytes of a location list, with its end mark, the loop of `location_list::eval` finds the
  -- place of the expression of the first entry that covers the program counter, counted from the
  -- base address that stands before the entry, and none where no entry does. As many rounds as the
  -- image has bytes are enough.
  pub find_location-chosen :
      (items : List LocationItem) (base : ℕ) (c : Cursor) (rest : List ℕ)
      → All IsItem items
      → drop c.pos image ≡ list_bytes items rest
      → find_location (suc (length image)) image pc base c ≡ ok (chosen c.pos base items pc)
  find_location-chosen items base c rest h e =
      find_chosen (suc (length image)) items base c rest
        (omega (arith, list_fits items rest, ap length e, length-drop c.pos image)) h e
