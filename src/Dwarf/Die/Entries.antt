-- ===== src/Dwarf/Die/Entries.antt =====
-- What `parse_die` leaves: the unit and the position of an entry, its progress, and where its
-- attributes lie.
use gsdb.Common.{ℕ, suc, ◌+◌, ◌≤◌, ◌<◌, ◌≡◌, ◌≢◌, refl, ap, sym, ◌∙◌, arith, ok-injective, inl, inr}
use gsdb.Common.{Bool, true, false, List, [], ◌∷◌, Option, none, some, length, All, find, ◌==◌}
use gsdb.Common.{Outcome, ok, or_err, Error, Bool-cases, >>=-eq-ok, ==_iff, err, ◌>>=◌}
use mathlib.Core.Path.{subst}
use gsdb.Dwarf.Cursor.{Cursor, uleb128, skip_form}
use gsdb.Dwarf.Cursor.Skip.{uleb128_takes, skip_form_forward}
use gsdb.Dwarf.Die.{
  Info, CompileUnit, Die, Attr, parse_die, locate, null_entry, contains, attribute_of, find_spec,
  is_some, abbrev_table,
}
use gsdb.Dwarf.Die.Tables.{AttrSpec, Abbrev, find_abbrev}

-- The places of the attributes: one for each, between the two positions.
abbrev pub AreBetween : ℕ → ℕ → List ℕ → Type 0
AreBetween low high = All (λ l. (low ≤ l) × (l ≤ high))

extend_range :
    (low low' high : ℕ) (locs : List ℕ)
    → low ≤ low'
    → AreBetween low' high locs
    → AreBetween low high locs
extend_range low low' high [] h b = tt
extend_range low low' high (l ∷ locs) h b = (omega arith, extend_range low low' high locs h b.1)

abbrev Places : List AttrSpec → Cursor → List ℕ × Cursor → Type 0
Places specs c r = (length r.0 ≡ length specs) × (c.pos ≤ r.1.pos) × AreBetween c.pos r.1.pos r.0

locate-Places :
    (image : List ℕ) (specs : List AttrSpec) (c c' : Cursor) (locs : List ℕ)
    → locate image specs c ≡ ok (locs, c')
    → Places specs c (locs, c')
unfolding locate
locate-Places image [] c c' locs e = subst (Places [] c) (ok-injective e) (refl, omega arith, tt)
locate-Places image (s ∷ specs) c c' locs e =
    let (c1, skip, e1) = >>=-eq-ok (skip_form image s.form c) _ e in
    let (r, rest, e2) = >>=-eq-ok (locate image specs c1) _ e1 in
    let (len, onward, between) = locate-Places image specs c1 r.1 r.0 rest in
    let first = skip_form_forward image s.form c c1 skip in
    subst (Places (s ∷ specs) c) (ok-injective e2) (
      ap suc len,
      omega arith,
      ((omega arith, omega arith), extend_range c.pos c1.pos r.1.pos r.0 first between),
    )

module _ (image : List ℕ) (info : Info) (u : CompileUnit) where
  -- The two ways in which `parse_die` returns.
  pub data Parsed (c : Cursor) (d : Die) : Type 0 where
    null : (c' : Cursor) → uleb128 image c ≡ ok (0, c') → d ≡ null_entry c'.pos → Parsed c d
    entry :
        (code : ℕ) (c' end : Cursor) (a : Abbrev) (locs : List ℕ)
        → uleb128 image c ≡ ok (code, c')
        → locate image a.attr_specs c' ≡ ok (locs, end)
        → d ≡ record {
          position = c.pos;
          unit = u;
          abbrev_entry = some a;
          next = end.pos;
          attr_locs = locs;
        }
        → Parsed c d

  pub parse_die-Parsed : (c : Cursor) (d : Die) → parse_die image info u c ≡ ok d → Parsed c d
  unfolding parse_die
  parse_die-Parsed c d e =
      let (r, code, e1) = >>=-eq-ok (uleb128 image c) _ e in
      elim (Bool-cases (r.0 == 0)) [
        | inl zero_code ↦
            Parsed.null r.1 (code ∙ ground arith) (sym (ok-injective (rw zero_code at e1)))
        | inr other ↦
            let (table, t, e2) = >>=-eq-ok (abbrev_table image info u) _ (rw other at e1) in
            let (a, found, e3) =
              >>=-eq-ok (or_err Error.out_of_range (find_abbrev table r.0)) _ e2 in
            let (l, places, e4) = >>=-eq-ok (locate image a.attr_specs r.1) _ e3 in
            Parsed.entry r.0 r.1 l.1 a l.0 code places (sym (ok-injective e4))
      ]

  -- An entry lies in its unit at the cursor, one place for each attribute, behind the code and not
  -- behind the next entry; the null entry ends within the image.
  abbrev pub IsPlaced : Cursor → Die → Type 0
  IsPlaced c d = elim d.abbrev_entry [
    | none ↦ d.next ≤ length image
    | some a ↦
        (d.unit ≡ u)
        × (d.position ≡ c.pos)
        × (length d.attr_locs ≡ length a.attr_specs)
        × AreBetween (c.pos + 1) d.next d.attr_locs
  ]

  -- Where `parse_die` returns, the next entry lies behind the cursor. The null entry ends within the
  -- image; any other has its unit and position, and for each attribute of its abbreviation a place
  -- behind its code that is not behind the next entry.
  pub parse_die-IsPlaced :
      (c : Cursor) (d : Die) → parse_die image info u c ≡ ok d → (c.pos < d.next) × IsPlaced c d
  parse_die-IsPlaced c d e = elim (parse_die-Parsed c d e) [
    | null c' code is_null ↦
        let taken = uleb128_takes image c 0 c' code in
        subst (λ (x : Die). (c.pos < x.next) × IsPlaced c x) (sym is_null) (taken.1, taken.2)
    | entry code c' end a locs read places is_entry ↦
        let taken = uleb128_takes image c code c' read in
        let (len, onward, between) = locate-Places image a.attr_specs c' end locs places in
        subst (λ (x : Die). (c.pos < x.next) × IsPlaced c x) (sym is_entry)
          (
            omega arith,
            (refl, refl, len, extend_range (c.pos + 1) c'.pos end.pos locs (omega arith) between),
          )
  ]

-- The first specification of a name, among the specifications of an entry whose attributes begin at
-- the cursor, and the position where its attribute begins: behind the values of the specifications
-- before it, each of the length of its form.
pub data Stands (image : List ℕ) (name : ℕ) : List AttrSpec → Cursor → AttrSpec → ℕ → Type 0 where
  here :
      (s : AttrSpec) (specs : List AttrSpec) (c : Cursor)
      → s.attr ≡ name
      → Stands image name (s ∷ specs) c s c.pos
  behind :
      (s : AttrSpec) (specs : List AttrSpec) (c c' : Cursor) (x : AttrSpec) (l : ℕ)
      → s.attr ≢ name
      → skip_form image s.form c ≡ ok c'
      → Stands image name specs c' x l
      → Stands image name (s ∷ specs) c x l

-- What `operator[]` answers, by whether the attribute is there: the attribute of that name, with the
-- form of its specification and the position where it begins, or an error, and no specification has
-- the name.
abbrev pub Answer : List ℕ → CompileUnit → ℕ → List AttrSpec → Cursor → Bool → Outcome Attr → Type 0
Answer image u name specs c true r =
    (s : AttrSpec) × (l : ℕ) × Stands image name specs c s l
    × (r ≡ ok (record { unit = u; name = name; form = s.form; location = l }))
Answer image u name specs c false r =
    All (λ s. s.attr ≢ name) specs × (r ≡ err Error.attribute_not_found)

-- The search of `operator[]` against the one of `contains`.
Looked : List ℕ → ℕ → List AttrSpec → Cursor → Bool → Option (AttrSpec × ℕ) → Type 0
Looked image name specs c true r =
    (s : AttrSpec) × (l : ℕ) × Stands image name specs c s l × (s.attr ≡ name) × (r ≡ some (s, l))
Looked image name specs c false r = All (λ s. s.attr ≢ name) specs × (r ≡ none)

Looked-behind :
    (image : List ℕ) (name : ℕ) (s : AttrSpec) (specs : List AttrSpec) (c c' : Cursor)
    → (b : Bool) (r : Option (AttrSpec × ℕ)) → s.attr ≢ name
    → skip_form image s.form c ≡ ok c'
    → Looked image name specs c' b r
    → Looked image name (s ∷ specs) c b r
unfolding Looked
Looked-behind image name s specs c c' true r other skip (x, l, stands, named, found) =
    (x, l, Stands.behind s specs c c' x l other skip stands, named, found)
Looked-behind image name s specs c c' false r other skip (none_has, missing) =
    ((other, none_has), missing)

differ : (a b : ℕ) → (a == b) ≡ false → a ≢ b
differ a b e same = ground arith

locate-Looked :
    (image : List ℕ) (name : ℕ) (specs : List AttrSpec) (c end : Cursor) (locs : List ℕ)
    → locate image specs c ≡ ok (locs, end)
    → Looked image name specs c
        (is_some (find (λ s. s.attr == name) specs))
        (find_spec specs locs name)
unfolding locate Looked find_spec
locate-Looked image name [] c end locs e = (tt, refl)
locate-Looked image name (s ∷ specs) c end locs e =
    let (c', skip, e1) = >>=-eq-ok (skip_form image s.form c) _ e in
    let (r, rest, e2) = >>=-eq-ok (locate image specs c') _ e1 in
    subst
      (λ ls.
        Looked image name (s ∷ specs) c (is_some (find (λ s. s.attr == name) (s ∷ specs)))
          (find_spec (s ∷ specs) ls name))
      (ap (λ (p : List ℕ × Cursor). p.0) (ok-injective e2))
      (elim (Bool-cases (s.attr == name)) [
        | inl same ↦
            let named = (==_iff s.attr name).0 same in
            rw (same, find_spec) (s, c.pos, Stands.here s specs c named, named, refl)
        | inr other ↦
            rw (other, find_spec)
              (Looked-behind image name s specs c c' _ _ (differ s.attr name other) skip
                (locate-Looked image name specs c' r.1 r.0 rest))
      ])

Looked-Answer :
    (image : List ℕ) (u : CompileUnit) (name : ℕ) (specs : List AttrSpec) (c : Cursor) (b : Bool)
    → (found : Option (AttrSpec × ℕ)) → Looked image name specs c b found
    → Answer image u name specs c b (
        or_err Error.attribute_not_found found >>= λ f.
        ok (record { unit = u; name = f.0.attr; form = f.0.form; location = f.1 }))
unfolding Looked
Looked-Answer image u name specs c true found (s, l, stands, named, is_found) =
    (s, l, stands, rw (is_found, named) refl)
Looked-Answer image u name specs c false found (none_has, missing) = (none_has, rw missing refl)

-- What `contains` and `operator[]` say of a name on an entry that was read at a cursor, of an
-- abbreviation: its attributes begin behind its code.
abbrev pub Contained : List ℕ → CompileUnit → Cursor → ℕ → Die → Abbrev → Type 0
Contained image u c name d a =
    (code : ℕ) × (c' : Cursor) × (uleb128 image c ≡ ok (code, c'))
    × ((b : Bool) × (contains d name ≡ ok b)
        × Answer image u name a.attr_specs c' b (attribute_of d name))

-- On an entry that `parse_die` returned, other than the null entry, `contains` answers. Where it
-- says that an attribute is there, `operator[]` returns the first attribute of that name, with its
-- form and the position where it begins: behind the entry's code and the attributes before it. Where
-- it says that it is not, no specification has the name, and `operator[]` raises "attribute not
-- found".
pub contains-attribute_of :
    (image : List ℕ) (info : Info) (u : CompileUnit) (c : Cursor) (d : Die) (a : Abbrev) (name : ℕ)
    → parse_die image info u c ≡ ok d
    → d.abbrev_entry ≡ some a
    → Contained image u c name d a
unfolding contains attribute_of
contains-attribute_of image info u c d a name e is_entry =
    elim (parse_die-Parsed image info u c d e) [
      | null c' code is_null ↦ absurd (no_entry (ap (λ (x : Die). x.abbrev_entry) is_null))
      | entry code c' end x locs read places is_d ↦
          let same = one_abbrev x (ap (λ (y : Die). y.abbrev_entry) is_d) in
          let there = is_some (find (λ s. s.attr == name) x.attr_specs) in
          subst (Contained image u c name d) same (
            subst (λ (y : Die). Contained image u c name y x) (sym is_d)
              (
                code,
                c',
                read,
                (
                  there,
                  refl,
                  Looked-Answer image u name x.attr_specs c' there
                      (find_spec x.attr_specs locs name)
                      (locate-Looked image name x.attr_specs c' end locs places),
                ),
              ))
    ]
  where
    no_entry : d.abbrev_entry ≡ none → ⊥
    no_entry p = absurd (cc)

    one_abbrev : (x : Abbrev) → d.abbrev_entry ≡ some x → x ≡ a
    one_abbrev x p = cc
