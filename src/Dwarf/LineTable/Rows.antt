-- ===== src/Dwarf/LineTable/Rows.antt =====
-- The iterator of the line table: every instruction moves forward, so `operator++` ends.
use gsdb.Common.{ℕ, zero, suc, ◌+◌, ◌-◌, ◌≤◌, ◌<◌, ◌≡◌, refl, arith, ◌⊎◌}
use gsdb.Common.{Bool, ◌&&◌, List, [], ◌∷◌, none, some, length}
use gsdb.Common.{Outcome, ok, err, undefined, exhausted, or_undefined, get_elem?}
use gsdb.Common.Word.{sub64}
use gsdb.Common.{
  Bool-cases, inl, inr, ltb, ◌==◌, Ends, Ends-bind, Ends-weaken, Ends-if, Ends-or_undefined,
}
use gsdb.Dwarf.Cursor.{Cursor, cursor_to, span_end, u8, u16, u64, uleb128, sleb128, string}
use gsdb.Dwarf.Cursor.Progress.{
  Forward, Moved, TookByte, Any, uleb128-Ends, sleb128-Ends, fixed_int-Ends, u8-Ends, string-Ends,
}
use gsdb.Dwarf.FilePath.{is_absolute}
use gsdb.Dwarf.LineTable.{
  File, Machine, Iterator, Standard, Extended, resolve_path, parse_line_table_file, exec_standard,
  exec_extended, exec_special, execute_instruction, run_until_row, attach_file, advance_at,
}

-- The machine has not moved behind a cursor.
abbrev NotBehind : Cursor → Machine × Bool → Type 0
NotBehind c r = c.pos ≤ r.0.pos

standard-Ends :
    (image : List ℕ) (m : Machine) (c : Cursor) (op : Standard)
    → Ends (NotBehind c) (exec_standard image m c op)
unfolding exec_standard
standard-Ends image m c Standard.copy = omega arith
standard-Ends image m c Standard.advance_pc =
    Ends-bind (Forward c) (NotBehind c) (uleb128 image c) _ (uleb128-Ends image c)
      (λ r h. omega arith)
standard-Ends image m c Standard.advance_line =
    Ends-bind (Forward c) (NotBehind c) (sleb128 image c) _ (sleb128-Ends image c)
      (λ r h. omega arith)
standard-Ends image m c Standard.set_file =
    Ends-bind (Forward c) (NotBehind c) (uleb128 image c) _ (uleb128-Ends image c)
      (λ r h. omega arith)
standard-Ends image m c Standard.set_column =
    Ends-bind (Forward c) (NotBehind c) (uleb128 image c) _ (uleb128-Ends image c)
      (λ r h. omega arith)
standard-Ends image m c Standard.negate_stmt = omega arith
standard-Ends image m c Standard.set_basic_block = omega arith
standard-Ends image m c Standard.const_add_pc = elim (Bool-cases (m.table.line_range == 0)) [
  | inl e ↦ rw e tt
  | inr e ↦ rw e (omega arith)
]
standard-Ends image m c Standard.fixed_advance_pc =
    Ends-bind (Moved 2 c) (NotBehind c) (u16 image c) _ (fixed_int-Ends image 2 c)
      (λ r h. omega arith)
standard-Ends image m c Standard.set_prologue_end = omega arith
standard-Ends image m c Standard.set_epilogue_begin = omega arith
standard-Ends image m c Standard.set_isa = omega arith
standard-Ends image m c Standard.other = tt

resolve-Ends :
    (comp_dir : List ℕ) (dirs : List (List ℕ)) (name : List ℕ) (i : ℕ)
    → Ends (Any {A = List ℕ}) (resolve_path comp_dir dirs name i)
unfolding resolve_path
resolve-Ends comp_dir dirs [] i = tt
resolve-Ends comp_dir dirs (c ∷ name) i =
    Ends-if Any (is_absolute (c ∷ name)) _ _ (λ _. tt)
      λ _.
        Ends-if Any (i == 0) _ _ (λ _. tt)
          λ _.
            Ends-bind Any Any (or_undefined (get_elem? dirs (i - 1))) _
              (Ends-or_undefined Any (get_elem? dirs (i - 1)) (λ d _. tt)) (λ d _. tt)

file-Ends :
    (image comp_dir : List ℕ) (dirs : List (List ℕ)) (c : Cursor)
    → Ends (Forward {A = File} c) (parse_line_table_file image comp_dir dirs c)
unfolding parse_line_table_file
file-Ends image comp_dir dirs c =
    Ends-bind (Forward c) (Forward c) (string image c) _ (string-Ends image c) λ name hn.
      Ends-bind (Forward name.1) (Forward c) (uleb128 image name.1) _ (uleb128-Ends image name.1)
        λ d hd.
          Ends-bind (Forward d.1) (Forward c) (uleb128 image d.1) _ (uleb128-Ends image d.1) λ t ht.
            Ends-bind (Forward t.1) (Forward c) (uleb128 image t.1) _ (uleb128-Ends image t.1)
              λ l hl.
                Ends-bind Any (Forward c) (resolve_path comp_dir dirs name.0 d.0) _
                  (resolve-Ends comp_dir dirs name.0 d.0) (λ path _. omega arith)

extended-Ends :
    (image : List ℕ) (m : Machine) (c : Cursor) (op : Extended)
    → Ends (NotBehind c) (exec_extended image m c op)
unfolding exec_extended
extended-Ends image m c Extended.end_sequence = omega arith
extended-Ends image m c Extended.set_address =
    Ends-bind (Moved 8 c) (NotBehind c) (u64 image c) _ (fixed_int-Ends image 8 c)
      (λ r h. omega arith)
extended-Ends image m c Extended.define_file =
    Ends-bind (Forward c) (NotBehind c) (parse_line_table_file image _ _ c) _
      (file-Ends image m.table.comp_dir m.table.include_dirs c) (λ r h. omega arith)
extended-Ends image m c Extended.set_discriminator =
    Ends-bind (Forward c) (NotBehind c) (uleb128 image c) _ (uleb128-Ends image c)
      (λ r h. omega arith)
extended-Ends image m c Extended.other = tt

special-Ends :
    (m : Machine) (c : Cursor) (opcode : ℕ) → Ends (NotBehind c) (exec_special m c opcode)
unfolding exec_special
special-Ends m c opcode =
    Ends-if (NotBehind c) (m.table.line_range == 0) _ _ (λ _. tt) (λ _. omega arith)

-- Every instruction starts inside the image and moves on.
abbrev Onward : List ℕ → Machine → Machine × Bool → Type 0
Onward image m r = (m.pos < r.0.pos) × (m.pos < length image)

execute-Ends : (image : List ℕ) (m : Machine) → Ends (Onward image m) (execute_instruction image m)
unfolding execute_instruction
execute-Ends image m =
    let c = cursor_to m.pos (span_end m.table.data_span) in
    Ends-bind (TookByte image c) (Onward image m) (u8 image c) _ (u8-Ends image c) λ o ho.
      Ends-if (Onward image m) (ltb 0 o.0 && ltb o.0 m.table.opcode_base) _ _
        (λ _. onward o.1 (omega arith) _ (standard-Ends image m o.1 _))
        (λ _.
          Ends-if (Onward image m) (o.0 == 0) _ _
            (λ _.
              Ends-bind (Forward o.1) (Onward image m) (uleb128 image o.1) _
                (uleb128-Ends image o.1)
                λ l hl.
                  Ends-bind (TookByte image l.1) (Onward image m) (u8 image l.1) _
                    (u8-Ends image l.1)
                    λ e he. onward e.1 (omega arith) _ (extended-Ends image m e.1 _))
            (λ _. onward o.1 (omega arith) _ (special-Ends m o.1 o.0)))
  where
    onward :
        (c : Cursor)
        → (m.pos < c.pos) × (m.pos < length image)
        → (r : Outcome (Machine × Bool)) → Ends (NotBehind c) r
        → Ends (Onward image m) r
    onward c h (ok r) k = omega arith
    onward c h (err e) k = tt
    onward c h undefined k = tt
    onward c h exhausted k = k

-- A machine that started inside the image and has moved on.
abbrev Advanced : List ℕ → ℕ → Machine → Type 0
Advanced image p m = (p < m.pos) × (p < length image)

run_until_row-Ends :
    (rounds : ℕ) (image : List ℕ) (m : Machine)
    → 0 < rounds
    → length image < m.pos + rounds
    → Ends (Advanced image m.pos) (run_until_row rounds image m)
unfolding run_until_row
run_until_row-Ends zero image m h0 h = absurd (omega arith)
run_until_row-Ends (suc rounds) image m h0 h =
    Ends-bind (Onward image m) (Advanced image m.pos) (execute_instruction image m) _
      (execute-Ends image m)
      λ s hs. elim (Bool-cases s.1) [
        | inl row ↦ rw row hs
        | inr quiet ↦ rw quiet (
            Ends-weaken (Advanced image s.0.pos) (Advanced image m.pos) _
              (run_until_row-Ends rounds image s.0 (omega arith) (omega arith))
              (λ m' k. omega arith))
      ]

-- An iterator at the end, or behind a position inside the image.
abbrev pub Later : List ℕ → ℕ → Iterator → Type 0
Later image p it = (it.pos ≡ none) ⊎ ((q : ℕ) × (it.pos ≡ some q) × (p < q) × (p < length image))

attach-Ends :
    (image : List ℕ) (p : ℕ) (m : Machine)
    → Advanced image p m
    → Ends (Later image p) (attach_file m)
unfolding attach_file
attach-Ends image p m h =
    let file = get_elem? m.table.file_names (sub64 m.current.file_index 1) in
    Ends-bind Any (Later image p) (or_undefined file) _ (Ends-or_undefined Any file (λ f _. tt))
      (λ f _. inr (m.pos, refl, h.0, h.1))

-- `operator++` ends on every program: from a byte pointer it finds a row, reaches the end, throws
-- or does something undefined, but does not loop. Where it finds a row it started inside the image
-- and has moved forward.
pub advance_at-Ends :
    (image : List ℕ) (it : Iterator) (p : ℕ) → Ends (Later image p) (advance_at image it p)
unfolding advance_at
advance_at-Ends image it p =
    Ends-if (Later image p) (p == span_end it.table.data_span) _ _ (λ _. inl refl)
      λ _.
        Ends-bind (Advanced image p) (Later image p)
          (run_until_row (suc (length image - p)) image _) attach_file
          (run_until_row-Ends (suc (length image - p)) image _ (omega arith) (omega arith))
          (attach-Ends image p)
