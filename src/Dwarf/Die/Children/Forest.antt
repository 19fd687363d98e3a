-- ===== src/Dwarf/Die/Children/Forest.antt =====
-- The entries below an entry as a forest in the bytes, and one step of the iteration over it.
use gsdb.Common.{ℕ, ◌≤◌, ◌<◌, ◌≡◌, arith}
use gsdb.Common.{Bool, true, false, List, [], ◌∷◌, none, some, length, find, ◌==◌}
use gsdb.Common.{Outcome, ok, ◌>>=◌}
use gsdb.Dwarf.Cursor.{cursor_to, span_end}
use gsdb.Dwarf.Die.{Info, CompileUnit, Die, contains, attribute_of, die_at, is_some}
use gsdb.Dwarf.Die.Tables.{Abbrev}
use gsdb.Dwarf.Die.Values.{as_reference}
use gsdb.Dwarf.Die.Entries.{IsPlaced, parse_die-IsPlaced}
use gsdb.Dwarf.Die.Children.{first_child, after_entry}
use gsdb.Dwarf.Die.At

module _ (image : List ℕ) (info : Info) (units : List CompileUnit) (u : CompileUnit) where
  -- Entries in the bytes of a unit: `Forest p ds q` are siblings `ds` from the position `p` on, with
  -- their own children between them, up to the null entry that ends before `q`. A sibling
  -- reference, where an entry has one, leads to the entry behind its children.
  pub data Forest : ℕ → List Die → ℕ → Type 0 where
    end :
        {p q : ℕ} (d : Die)
        → die_at image info u p ≡ ok d
        → d.abbrev_entry ≡ none
        → d.next ≡ q
        → Forest p [] q
    leaf :
        {p q : ℕ} {ds : List Die} (d : Die) (a : Abbrev)
        → die_at image info u p ≡ ok d
        → d.abbrev_entry ≡ some a
        → a.has_children ≡ false
        → Forest d.next ds q
        → Forest p (d ∷ ds) q
    branch :
        {p q r : ℕ} {inner ds : List Die} (d : Die) (a : Abbrev)
        → die_at image info u p ≡ ok d
        → d.abbrev_entry ≡ some a
        → a.has_children ≡ true
        → contains d At.sibling ≡ ok false
        → Forest d.next inner r
        → Forest r ds q
        → Forest p (d ∷ ds) q
    linked :
        {p q r : ℕ} {inner ds : List Die} (d : Die) (a : Abbrev) (e : Die)
        → die_at image info u p ≡ ok d
        → d.abbrev_entry ≡ some a
        → a.has_children ≡ true
        → contains d At.sibling ≡ ok true
        → (attribute_of d At.sibling >>= as_reference image info units) ≡ ok e
        → Forest d.next inner r
        → die_at image info u r ≡ ok e
        → Forest r ds q
        → Forest p (d ∷ ds) q

  pub start_of :
      {p q : ℕ} {ds : List Die} → Forest p ds q → (d : Die) × (die_at image info u p ≡ ok d)
  start_of (end d at null next) = (d, at)
  start_of (leaf d a at entry childless rest) = (d, at)
  start_of (branch d a at entry parent unlinked inner rest) = (d, at)
  start_of (linked d a e at entry parent link reference inner at_r rest) = (d, at)

  pub later_of : (p : ℕ) (d : Die) → die_at image info u p ≡ ok d → p < d.next
  later_of p d at = (parse_die-IsPlaced image info u _ d at).0

  pub unit_of :
      (p : ℕ) (d : Die) (a : Abbrev)
      → die_at image info u p ≡ ok d
      → d.abbrev_entry ≡ some a
      → d.unit ≡ u
  unit_of p d a at entry =
      let placed : IsPlaced image info u (cursor_to p (span_end u.bytes)) d =
        (parse_die-IsPlaced image info u _ d at).1 in
      let placed' = rw (entry, IsPlaced) at placed in placed'.0

  -- A forest takes bytes, and ends within the image.
  pub Forest-takes : {p q : ℕ} {ds : List Die} → Forest p ds q → (p < q) × (q ≤ length image)
  Forest-takes (end {p = p} d at null next) =
      let placed : IsPlaced image info u (cursor_to p (span_end u.bytes)) d =
        (parse_die-IsPlaced image info u _ d at).1 in
      let placed' = rw (null, IsPlaced) at placed in
      (omega (arith, later_of p d at), omega (arith, placed'))
  Forest-takes (leaf d a at entry childless rest) =
      omega (arith, later_of _ d at, Forest-takes rest)
  Forest-takes (branch d a at entry parent unlinked inner rest) =
      omega (arith, later_of _ d at, Forest-takes inner, Forest-takes rest)
  Forest-takes (linked d a e at entry parent link reference inner at_r rest) =
      omega (arith, later_of _ d at, Forest-takes inner, Forest-takes rest)

  -- One entry of a walk, for each of the forms of `operator++`.
  pub step_leaf :
      (looping : Die → Outcome Die) (d : Die) (p : ℕ) (a : Abbrev) (b : Bool)
      → die_at image info u p ≡ ok d
      → d.abbrev_entry ≡ some a
      → contains d At.sibling ≡ ok b
      → after_entry image info units looping false d ≡ die_at image info u d.next
  unfolding after_entry
  step_leaf looping d p a b at entry c = rw (c, after_entry, unit_of p d a at entry)

  pub contains-some :
      (d : Die) (a : Abbrev) → d.abbrev_entry ≡ some a → (b : Bool) × (contains d At.sibling ≡ ok b)
  unfolding contains
  contains-some d a entry =
      (is_some (find (λ s. s.attr == At.sibling) a.attr_specs), rw (entry, contains))

  pub step_branch :
      (looping : Die → Outcome Die) (d first last : Die) (p : ℕ) (a : Abbrev)
      → die_at image info u p ≡ ok d
      → d.abbrev_entry ≡ some a
      → contains d At.sibling ≡ ok false
      → die_at image info u d.next ≡ ok first
      → looping first ≡ ok last
      → after_entry image info units looping true d ≡ die_at image info u last.next
  unfolding after_entry first_child
  step_branch looping d first last p a at entry c begins ends =
      rw (c, after_entry, unit_of p d a at entry, begins, ends)

  pub step_linked :
      (looping : Die → Outcome Die) (d e : Die)
      → contains d At.sibling ≡ ok true
      → (attribute_of d At.sibling >>= as_reference image info units) ≡ ok e
      → after_entry image info units looping true d ≡ ok e
  unfolding after_entry
  step_linked looping d e c reference = rw (c, after_entry, reference)
