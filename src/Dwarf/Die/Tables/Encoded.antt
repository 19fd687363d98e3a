-- ===== src/Dwarf/Die/Tables/Encoded.antt =====
-- Abbreviation tables against their encoding in the DWARF standard, and the cache of the tables.
use gsdb.Common.{ℕ, zero, suc, ◌+◌, ◌%◌, ◌≤◌, ◌<◌, ◌≡◌, refl, ap, ◌∙◌, arith}
use gsdb.Common.{Bool, true, false, not, List, [], ◌∷◌, ◌++◌, length, drop, All}
use gsdb.Common.{◌==◌, ne→==, length-append, length-drop}
use gsdb.Common.{Outcome, ok, undefined, ◌>>=◌}
use gsdb.Common.Word.{two64}
use gsdb.Dwarf.Cursor.{Span, Cursor, cursor_of, jump, uleb128, leb_loop}
use gsdb.Dwarf.Cursor.Steps.{drop-past, u8-cons, drop-step}
use gsdb.Dwarf.Cursor.Leb.{uleb_bytes, uleb128-uleb_bytes, length-uleb_bytes}
use gsdb.Dwarf.Die.Tables.{
  AttrSpec, Abbrev, parse_attr_specs, parse_abbrev, parse_abbrevs, parse_abbrev_table,
}

abbrev uleb : ℕ → List ℕ
uleb = uleb_bytes 9

abbrev pub IsSpec : AttrSpec → Type 0
IsSpec s = (0 < s.attr) × (s.attr < two64) × (s.form < two64)

-- A declaration with 64-bit numbers, whose attributes are not 0.
pub record IsDeclaration (a : Abbrev) : Type 0 where
  pub code_range : a.code < two64
  pub tag_range : a.tag < two64
  pub specs : All IsSpec a.attr_specs

-- The specifications with the pair of zeros that ends them, and a declaration, in front of `rest`.
abbrev pub spec_bytes : List AttrSpec → List ℕ → List ℕ
spec_bytes [] rest = uleb 0 ++ (uleb 0 ++ rest)
spec_bytes (s ∷ specs) rest = uleb s.attr ++ (uleb s.form ++ spec_bytes specs rest)

abbrev flag : Bool → ℕ
flag true = 1
flag false = 0

abbrev pub declaration_bytes : Abbrev → List ℕ → List ℕ
declaration_bytes a rest =
    uleb a.code ++ (uleb a.tag ++ (flag a.has_children ∷ spec_bytes a.attr_specs rest))

abbrev pub table_bytes : List Abbrev → List ℕ → List ℕ
table_bytes [] rest = rest
table_bytes (a ∷ table) rest = declaration_bytes a (table_bytes table rest)

-- A cursor moved to a position.
abbrev at_pos : Cursor → ℕ → Cursor
at_pos c p = record c { pos = p }

module _ (image : List ℕ) where
  -- One number: its value, the bytes behind it, and that it takes some.
  read_leb :
      (c : Cursor) (v : ℕ) (rest : List ℕ)
      → v < two64
      → drop c.pos image ≡ uleb v ++ rest
      → (p : ℕ) × (uleb128 image c ≡ ok (v, at_pos c p)) × (drop p image ≡ rest)
  read_leb c v rest h e = (
    c.pos + length (uleb v),
    uleb128-uleb_bytes image v c rest h e,
    drop-past image c.pos (uleb v) rest e,
  )

  read_specs :
      (rounds : ℕ) (specs : List AttrSpec) (c : Cursor) (rest : List ℕ)
      → length specs < rounds
      → All IsSpec specs
      → drop c.pos image ≡ spec_bytes specs rest
      → (p : ℕ) × (parse_attr_specs image rounds c ≡ ok (specs, at_pos c p)) × (drop p image ≡ rest)
  unfolding parse_attr_specs
  read_specs zero specs c rest few h e = absurd (omega arith)
  read_specs (suc rounds) [] c rest few h e =
      let (p, attr, e1) = read_leb c 0 (uleb 0 ++ rest) (omega arith) e in
      let (q, form, e2) = read_leb (at_pos c p) 0 rest (omega arith) e1 in
      (q, simp (attr, form), e2)
  read_specs (suc rounds) (s ∷ specs) c rest few h e =
      let (p, attr, e1) = read_leb c s.attr (uleb s.form ++ spec_bytes specs rest) h.0.1 e in
      let (q, form, e2) = read_leb (at_pos c p) s.form (spec_bytes specs rest) h.0.2 e1 in
      let (r, others, e3) = read_specs rounds specs (at_pos c q) rest (omega arith) h.1 e2 in
      (r, simp (attr, form, others, ne→== s.attr 0 (omega arith)), e3)

  specs_fit :
      (specs : List AttrSpec) (rest : List ℕ) → length specs ≤ length (spec_bytes specs rest)
  specs_fit [] rest = omega arith
  specs_fit (s ∷ specs) rest = omega (
    arith,
    length-append (uleb s.attr) (uleb s.form ++ spec_bytes specs rest),
    length-append (uleb s.form) (spec_bytes specs rest),
    length-uleb_bytes 9 s.attr,
    specs_fit specs rest,
  )

  flag-back : (b : Bool) → not (flag b == 0) ≡ b
  flag-back true = refl
  flag-back false = refl

  read_declaration :
      (c : Cursor) (a : Abbrev) (rest : List ℕ)
      → IsDeclaration a
      → drop c.pos image ≡ declaration_bytes a rest
      → (p : ℕ) × (parse_abbrev image c ≡ ok (a, at_pos c p)) × (drop p image ≡ rest)
  unfolding parse_abbrev
  read_declaration c a rest h e =
      let specs = spec_bytes a.attr_specs rest in
      let (p, code, e1) =
        read_leb c a.code (uleb a.tag ++ (flag a.has_children ∷ specs)) h.code_range e in
      let (q, tag, e2) = read_leb (at_pos c p) a.tag (flag a.has_children ∷ specs) h.tag_range e1 in
      let has = u8-cons image (at_pos c q) (flag a.has_children) specs e2 in
      let e3 = drop-step image q (flag a.has_children) specs e2 in
      let (r, read, e4) =
        read_specs (suc (length image)) a.attr_specs (at_pos c (q + 1)) rest
          (omega (arith, specs_fit a.attr_specs rest, ap length e3, length-drop (q + 1) image))
          h.specs e3 in
      (r, simp (code, tag, has, read, flag-back a.has_children), e4)

  -- The declarations of a table, in front of what the loop makes of the bytes behind them.
  abbrev prepend : List Abbrev → Outcome (List Abbrev) → Outcome (List Abbrev)
  prepend [] r = r
  prepend (a ∷ table) r = prepend table r >>= λ others. ok (a ∷ others)

  read_declarations :
      (rounds : ℕ) (table : List Abbrev) (c : Cursor) (rest : List ℕ) (r : Outcome (List Abbrev))
      → length table < rounds
      → All (λ a. IsDeclaration a × (0 < a.code)) table
      → drop c.pos image ≡ table_bytes table rest
      → ((k p : ℕ) → drop p image ≡ rest → parse_abbrevs image (suc k) (at_pos c p) ≡ r)
      → parse_abbrevs image rounds c ≡ prepend table r
  unfolding parse_abbrevs
  read_declarations zero table c rest r few h e behind = absurd (omega arith)
  read_declarations (suc rounds) [] c rest r few h e behind = behind rounds c.pos e
  read_declarations (suc rounds) (a ∷ table) c rest r few h e behind =
      let (p, read, e1) = read_declaration c a (table_bytes table rest) h.0.0 e in
      let others = read_declarations rounds table (at_pos c p) rest r (omega arith) h.1 e1 behind in
      simp (read, ne→== a.code 0 (omega (arith, h.0.1)), others)

  prepend-nil : (table : List Abbrev) → prepend table (ok []) ≡ ok table
  prepend-nil [] = refl
  prepend-nil (a ∷ table) = rw (prepend-nil table)

  prepend-undefined : (table : List Abbrev) → prepend table undefined ≡ undefined
  prepend-undefined [] = refl
  prepend-undefined (a ∷ table) = rw (prepend-undefined table)

  declarations_fit :
      (table : List Abbrev) (rest : List ℕ) → length table ≤ length (table_bytes table rest)
  declarations_fit [] rest = omega arith
  declarations_fit (a ∷ table) rest =
      let specs = spec_bytes a.attr_specs (table_bytes table rest) in
      omega (
        arith,
        length-append (uleb a.code) (uleb a.tag ++ (flag a.has_children ∷ specs)),
        length-uleb_bytes 9 a.code,
        length-append (uleb a.tag) (flag a.has_children ∷ specs),
        specs_behind a.attr_specs (table_bytes table rest),
        declarations_fit table rest,
      )
    where
      specs_behind :
          (specs : List AttrSpec) (rest : List ℕ) → length rest ≤ length (spec_bytes specs rest)
      specs_behind [] rest =
          omega (arith, length-append (uleb 0) (uleb 0 ++ rest), length-append (uleb 0) rest)
      specs_behind (s ∷ specs) rest = omega (
        arith,
        length-append (uleb s.attr) (uleb s.form ++ spec_bytes specs rest),
        length-append (uleb s.form) (spec_bytes specs rest),
        specs_behind specs rest,
      )

  -- The end of a table: a declaration whose code is 0, or the null code alone at the image's end.
  last_declaration :
      (c : Cursor) (last : Abbrev) (rest : List ℕ)
      → IsDeclaration last
      → last.code ≡ 0
      → (k p : ℕ) → drop p image ≡ declaration_bytes last rest
      → parse_abbrevs image (suc k) (at_pos c p) ≡ ok []
  unfolding parse_abbrevs
  last_declaration c last rest h null k p e =
      let (q, read, e1) = read_declaration (at_pos c p) last rest h e in simp (read, null)

  no_bytes : (c : Cursor) → drop c.pos image ≡ [] → uleb128 image c ≡ undefined
  unfolding uleb128 leb_loop
  no_bytes c e = rw e refl

  last_byte :
      (c : Cursor) (k p : ℕ)
      → drop p image ≡ 0 ∷ []
      → parse_abbrevs image (suc k) (at_pos c p) ≡ undefined
  unfolding parse_abbrevs parse_abbrev uleb_bytes
  last_byte c k p e =
      let (q, code, e1) = read_leb (at_pos c p) 0 [] (omega arith) e in
      simp (code, no_bytes (at_pos c q) e1)

  jumped :
      (section : Span) (offset : ℕ) (bytes : List ℕ)
      → section.start + offset < two64
      → drop (section.start + offset) image ≡ bytes
      → drop (jump (cursor_of section) offset).pos image ≡ bytes
  unfolding jump
  jumped section offset bytes inside e =
      let stays : (section.start + offset) % two64 ≡ section.start + offset = omega arith in
      rw stays e

  few_declarations :
      (table : List Abbrev) (p : ℕ) (rest : List ℕ)
      → drop p image ≡ table_bytes table rest
      → length table < suc (length image)
  few_declarations table p rest e =
      omega (arith, declarations_fit table rest, ap length e, length-drop p image)

  module _ (section : Span) (offset : ℕ) (table : List Abbrev)
      (inside : section.start + offset < two64)
      (valid : All (λ a. IsDeclaration a × (0 < a.code)) table) where
    -- Where declarations with codes that are not 0 stand at an offset of the section, and behind
    -- them one whose code is 0, `parse_abbrev_table` ends and returns exactly the declarations, in
    -- their order.
    pub parse_abbrev_table-table_bytes :
        (last : Abbrev) (rest : List ℕ)
        → IsDeclaration last
        → last.code ≡ 0
        → drop (section.start + offset) image ≡ table_bytes table (declaration_bytes last rest)
        → parse_abbrev_table image section offset ≡ ok table
    unfolding parse_abbrev_table
    parse_abbrev_table-table_bytes last rest h null e =
        let start = jump (cursor_of section) offset in
        let bytes = declaration_bytes last rest in
        read_declarations (suc (length image)) table start bytes (ok [])
          (few_declarations table _ bytes e) valid
          (jumped section offset (table_bytes table bytes) inside e)
          (last_declaration start last rest h null)
        ∙ prepend-nil table

    -- The null code alone ends a table, in one byte. Where the image ends with that byte,
    -- `parse_abbrev_table` reads behind the image: it reads a tag and attributes behind every code.
    pub parse_abbrev_table_overreads :
        drop (section.start + offset) image ≡ table_bytes table (0 ∷ [])
        → parse_abbrev_table image section offset ≡ undefined
    unfolding parse_abbrev_table
    parse_abbrev_table_overreads e =
        let start = jump (cursor_of section) offset in
        read_declarations (suc (length image)) table start (0 ∷ []) undefined
          (few_declarations table _ (0 ∷ []) e) valid
          (jumped section offset (table_bytes table (0 ∷ [])) inside e) (last_byte start)
        ∙ prepend-undefined table
