-- ===== src/Dwarf/LineTable/Emits.antt =====
-- The iterator on an encoded program: `operator++` stops at exactly the next row.
use gsdb.Common.{ℕ, zero, suc, ◌+◌, ◌-◌, ◌≤◌, ◌<◌, ◌≡◌, ◌≢◌, refl, ap, ◌∙◌, arith}
use gsdb.Common.{Bool, true, false, List, [], ◌∷◌, ◌++◌, Option, none, some, length, drop}
use gsdb.Common.{ok, get_elem?}
use gsdb.Common.{ne→==}
use gsdb.Common.Word.{sub64}
use gsdb.Common.{length-append, length-drop, All}
use gsdb.Dwarf.Cursor.{span_end}
use gsdb.Dwarf.LineTable.Program.{
  Instr, special, copy, end_sequence, encode, Fits, meaning, execute-encode,
}
use gsdb.Dwarf.Cursor.Steps.{drop-past}
use mathlib.Core.List.{append_assoc}
use gsdb.Dwarf.LineTable.{
  Entry, File, LineTable, Machine, Iterator, run_until_row, attach_file, advance_at,
}

-- The instructions of an encoded program one after the other.
unfoldable pub encode_all : LineTable → List Instr → List ℕ
encode_all t [] = []
encode_all t (i ∷ is) = encode t i ++ encode_all t is

-- The registers behind instructions that emit no row.
unfoldable pub meaning_all : LineTable → List Instr → Entry → Entry
meaning_all t [] r = r
meaning_all t (i ∷ is) r = meaning_all t is (meaning t i r).1

unfoldable pub emits : Instr → Bool
emits (special n) = true
emits copy = true
emits end_sequence = true
emits i = false

quiet_meaning :
    (t : LineTable) (i : Instr) (r : Entry)
    → emits i ≡ false
    → meaning t i r ≡ (none, (meaning t i r).1)
unfolding emits meaning
quiet_meaning t (special n) r e = cc
quiet_meaning t copy r e = cc
quiet_meaning t end_sequence r e = cc
quiet_meaning t i r e = refl

emitting_meaning :
    (t : LineTable) (i : Instr) (r : Entry)
    → emits i ≡ true
    → (row : Entry) × (meaning t i r ≡ (some row, (meaning t i r).1))
unfolding emits meaning
emitting_meaning t (special n) r e = (_, refl)
emitting_meaning t copy r e = (_, refl)
emitting_meaning t end_sequence r e = (_, refl)
emitting_meaning t i r e = absurd (cc)

-- A round of the loop on an instruction that emits nothing, and on one that emits a row.
round_quiet :
    (rounds : ℕ) (image : List ℕ) (m : Machine) (i : Instr) (rest : List ℕ)
    → Fits m.table i
    → emits i ≡ false
    → drop m.pos image ≡ encode m.table i ++ rest
    → run_until_row (suc rounds) image m
      ≡ run_until_row rounds image (record m {
        registers = (meaning m.table i m.registers).1;
        pos = m.pos + length (encode m.table i);
      })
unfolding run_until_row
round_quiet rounds image m i rest h q e =
    rw (execute-encode image m i rest h e, quiet_meaning m.table i m.registers q)

abbrev RowOf : Machine → Instr → Entry → Type 0
RowOf m i row = meaning m.table i m.registers ≡ (some row, (meaning m.table i m.registers).1)

round_row :
    (rounds : ℕ) (image : List ℕ) (m : Machine) (i : Instr) (rest : List ℕ) (row : Entry)
    → Fits m.table i
    → RowOf m i row
    → drop m.pos image ≡ encode m.table i ++ rest
    → run_until_row (suc rounds) image m
      ≡ ok (record m {
        current = row;
        registers = (meaning m.table i m.registers).1;
        pos = m.pos + length (encode m.table i);
      })
unfolding run_until_row
round_row rounds image m i rest row h q e = rw (execute-encode image m i rest h e, q)

abbrev skip_to : Machine → List Instr → Machine
skip_to m is = record m {
  registers = meaning_all m.table is m.registers;
  pos = m.pos + length (encode_all m.table is);
}

regrouped :
    (image : List ℕ) (m : Machine) (i : Instr) (rest : List ℕ) (x : Instr) (is : List Instr)
    → drop m.pos image ≡ encode_all m.table (x ∷ is) ++ (encode m.table i ++ rest)
    → drop m.pos image ≡ encode m.table x ++ (encode_all m.table is ++ (encode m.table i ++ rest))
unfolding encode_all
regrouped image m i rest x is e =
    e ∙ append_assoc (encode m.table x) (encode_all m.table is) (encode m.table i ++ rest)

run_until_row-encode_all :
    (rounds : ℕ) (image : List ℕ) (m : Machine) (is : List Instr) (i : Instr) (rest : List ℕ)
    (row : Entry)
    → length is < rounds
    → All (λ q. (emits q ≡ false) × Fits m.table q) is
    → Fits m.table i
    → RowOf (skip_to m is) i row
    → drop m.pos image ≡ encode_all m.table is ++ (encode m.table i ++ rest)
    → run_until_row rounds image m
      ≡ ok (record m {
        current = row;
        registers = (meaning m.table i (meaning_all m.table is m.registers)).1;
        pos = m.pos + length (encode_all m.table is) + length (encode m.table i);
      })
unfolding encode_all meaning_all
run_until_row-encode_all zero image m is i rest row hr quiet h q e = absurd (omega arith)
run_until_row-encode_all (suc rounds) image m [] i rest row hr quiet h q e =
    round_row rounds image m i rest row h q e ∙ ground arith
run_until_row-encode_all (suc rounds) image m (x ∷ is) i rest row hr (hx, quiet) h q e =
    round_quiet rounds image m x (encode_all m.table is ++ (encode m.table i ++ rest)) hx.1 hx.0
      (regrouped image m i rest x is e)
    ∙ run_until_row-encode_all rounds image
        (record m {
          registers = (meaning m.table x m.registers).1;
          pos = m.pos + length (encode m.table x);
        })
        is i rest row (omega arith) quiet h q
        (drop-past image m.pos (encode m.table x) _ (regrouped image m i rest x is e))
    ∙ ground (arith, length-append (encode m.table x) (encode_all m.table is))

encode_nonempty : (t : LineTable) (i : Instr) → 1 ≤ length (encode t i)
unfolding encode
encode_nonempty t (special n) = omega arith
encode_nonempty t i = omega arith

length-encode_all : (t : LineTable) (is : List Instr) → length is ≤ length (encode_all t is)
unfolding encode_all
length-encode_all t [] = omega arith
length-encode_all t (i ∷ is) = omega (
  arith,
  length-append (encode t i) (encode_all t is),
  encode_nonempty t i,
  length-encode_all t is,
)

-- Where the bytes at the iterator encode instructions that emit no row and then one that emits
-- `row`, whose file index is valid, `operator++` runs exactly those instructions: its row is `row`
-- with the file entry attached, and its byte pointer stands behind them.
pub advance_at-encode_all :
    (image : List ℕ) (it : Iterator) (p : ℕ) (is : List Instr) (i : Instr) (rest : List ℕ)
    (row : Entry) (file : File)
    → p ≢ span_end it.table.data_span
    → All (λ q. (emits q ≡ false) × Fits it.table q) is
    → Fits it.table i
    → (meaning it.table i (meaning_all it.table is it.registers)).0 ≡ some row
    → get_elem? it.table.file_names (sub64 row.file_index 1) ≡ some file
    → drop p image ≡ encode_all it.table is ++ (encode it.table i ++ rest)
    → advance_at image it p
      ≡ ok (record it {
        current = record row { file_entry = some file };
        registers = (meaning it.table i (meaning_all it.table is it.registers)).1;
        pos = some (p + length (encode_all it.table is) + length (encode it.table i));
      })
unfolding advance_at attach_file
advance_at-encode_all image it p is i rest row file hp quiet h q hf e = rw (
  ne→== p (span_end it.table.data_span) hp,
  run_until_row-encode_all (suc (length image - p)) image
      (record { table = it.table; current = it.current; registers = it.registers; pos = p }) is i
      rest row (enough image _ it.table p is e) quiet h
      (ap (λ (o : Option Entry). (o, (meaning it.table i (meaning_all it.table is it.registers)).1))
        q)
      e,
  hf,
)
  where
    enough :
        (image rest : List ℕ) (t : LineTable) (p : ℕ) (is : List Instr)
        → drop p image ≡ encode_all t is ++ rest
        → length is < suc (length image - p)
    enough image rest t p is e = omega (
      arith,
      length-drop p image,
      ap length e,
      length-append (encode_all t is) rest,
      length-encode_all t is,
    )
