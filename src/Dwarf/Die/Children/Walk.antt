-- ===== src/Dwarf/Die/Children/Walk.antt =====
-- The iteration over the children of an entry: which entries of a forest the loop visits.
use gsdb.Common.{ℕ, zero, suc, ◌+◌, ◌≤◌, ◌≡◌, ap, sym, ◌∙◌, arith}
use gsdb.Common.{Bool, true, false, List, [], ◌∷◌, none, some, length}
use gsdb.Common.{Outcome, ok, ok-injective, ◌>>=◌}
use mathlib.Core.Path.{subst}
use gsdb.Dwarf.Die.{Info, CompileUnit, Die, contains, attribute_of, die_at}
use gsdb.Dwarf.Die.Tables.{Abbrev}
use gsdb.Dwarf.Die.Values.{as_reference}
use gsdb.Dwarf.Die.Children.{first_child, after_entry, walk, collect, children}
use gsdb.Dwarf.Die.At
use gsdb.Dwarf.Die.Children.Forest.{
  Forest, start_of, later_of, Forest-takes, step_leaf, contains-some, step_branch, step_linked,
}

module _ (image : List ℕ) (info : Info) (units : List CompileUnit) (u : CompileUnit) where
  -- The loop through the rest of a forest, from its first entry to its null entry.
  EndsAt : ℕ → Outcome Die → Type 0
  EndsAt q r = (last : Die) × (r ≡ ok last) × (last.next ≡ q)

  walk_on :
      (rounds q : ℕ) (d later : Die) (a : Abbrev)
      → d.abbrev_entry ≡ some a
      → after_entry image info units (walk image info units true rounds) a.has_children d ≡ ok later
      → (walk image info units true (suc rounds) d ≡ walk image info units true rounds later)
        × (walk image info units false (suc rounds) d ≡ ok later)
  unfolding walk
  walk_on rounds q d later a entry step = (rw (entry, walk, step), rw (entry, walk, step))

  walk_null :
      (looping : Bool) (rounds : ℕ) (d : Die)
      → d.abbrev_entry ≡ none
      → walk image info units looping (suc rounds) d ≡ ok d
  unfolding walk
  walk_null looping rounds d null = simp (walk, null)

  -- `operator++` from an entry to the entry at `r`.
  StepsTo : ℕ → Die → Abbrev → ℕ → Type 0
  StepsTo rounds d a r =
      (later : Die) × (die_at image info u r ≡ ok later)
      × (after_entry image info units (walk image info units true rounds) a.has_children d
          ≡ ok later)

  leaf-StepsTo :
      {q : ℕ} {ds : List Die} (rounds p : ℕ) (d : Die) (a : Abbrev)
      → die_at image info u p ≡ ok d
      → d.abbrev_entry ≡ some a
      → a.has_children ≡ false
      → Forest image info units u d.next ds q
      → StepsTo rounds d a d.next
  unfolding StepsTo
  leaf-StepsTo rounds p d a at entry childless rest =
      let (b, has) = contains-some image info units u d a entry in
      let (later, is_later) = start_of image info units u rest in
      (
        later,
        is_later,
        rw childless (step_leaf image info units u _ d p a b at entry has ∙ is_later),
      )

  branch-StepsTo :
      {q r : ℕ} {ds : List Die} (rounds p : ℕ) (d first : Die) (a : Abbrev)
      → die_at image info u p ≡ ok d
      → d.abbrev_entry ≡ some a
      → a.has_children ≡ true
      → contains d At.sibling ≡ ok false
      → die_at image info u d.next ≡ ok first
      → EndsAt r (walk image info units true rounds first)
      → Forest image info units u r ds q
      → StepsTo rounds d a r
  unfolding StepsTo EndsAt
  branch-StepsTo rounds p d first a at entry parent unlinked is_first (last, ends, next) rest =
      let (later, is_later) = start_of image info units u rest in
      (
        later,
        is_later,
        rw parent (
            step_branch image info units u _ d first last p a at entry unlinked is_first ends
            ∙ ap (die_at image info u) next
            ∙ is_later),
      )

  linked-StepsTo :
      (rounds r : ℕ) (d e : Die) (a : Abbrev)
      → a.has_children ≡ true
      → contains d At.sibling ≡ ok true
      → (attribute_of d At.sibling >>= as_reference image info units) ≡ ok e
      → die_at image info u r ≡ ok e
      → StepsTo rounds d a r
  unfolding StepsTo
  linked-StepsTo rounds r d e a parent link reference at_r =
      (e, at_r, rw parent (step_linked image info units u _ d e link reference))

  -- Where one step leads to an entry from which the loop ends, so does the loop from its start.
  walk_through :
      (rounds q r : ℕ) (d : Die) (a : Abbrev)
      → d.abbrev_entry ≡ some a
      → StepsTo rounds d a r
      → ((later : Die)
          → die_at image info u r ≡ ok later
          → EndsAt q (walk image info units true rounds later))
      → EndsAt q (walk image info units true (suc rounds) d)
  unfolding StepsTo EndsAt
  walk_through rounds q r d a entry (later, is_later, step) continue =
      let (last, runs, next) = continue later is_later in
      (last, (walk_on rounds q d later a entry step).0 ∙ runs, next)

  walk-EndsAt :
      {p q : ℕ} {ds : List Die} (rounds : ℕ) (f : Forest image info units u p ds q) (d : Die)
      → q ≤ p + rounds
      → die_at image info u p ≡ ok d
      → EndsAt q (walk image info units true rounds d)
  unfolding EndsAt
  walk-EndsAt zero f d fits is_d = absurd (omega (arith, Forest-takes image info units u f))
  walk-EndsAt (suc k) (Forest.end {q = q} d at null next) d' fits is_d =
      subst (λ x. EndsAt q (walk image info units true (suc k) x)) (ok-injective (sym at ∙ is_d))
        (d, walk_null true k d null, next)
  walk-EndsAt (suc k) (Forest.leaf {p = p} {q = q} d a at entry childless rest) d' fits is_d =
      subst (λ x. EndsAt q (walk image info units true (suc k) x)) (ok-injective (sym at ∙ is_d))
        (walk_through k q d.next d a entry (leaf-StepsTo k p d a at entry childless rest)
          (λ later is_later.
            walk-EndsAt k rest later (omega (arith, later_of image info units u p d at)) is_later))
  walk-EndsAt (suc k)
        (Forest.branch {p = p} {q = q} {r = r} d a at entry parent unlinked inner rest) d' fits
        is_d =
      let (first, is_first) = start_of image info units u inner in
      let ends =
        walk-EndsAt k inner first
          (omega (arith, later_of image info units u p d at, Forest-takes image info units u rest))
          is_first in
      subst (λ x. EndsAt q (walk image info units true (suc k) x)) (ok-injective (sym at ∙ is_d))
        (walk_through k q r d a entry
          (branch-StepsTo k p d first a at entry parent unlinked is_first ends rest)
          (λ later is_later.
            walk-EndsAt k rest later
              (omega
                (arith, later_of image info units u p d at, Forest-takes image info units u inner))
              is_later))
  walk-EndsAt (suc k)
        (Forest.linked {p = p} {q = q} {r = r} d a e at entry parent link reference inner at_r rest)
        d' fits is_d =
      subst (λ x. EndsAt q (walk image info units true (suc k) x)) (ok-injective (sym at ∙ is_d))
        (walk_through k q r d a entry (linked-StepsTo k r d e a parent link reference at_r)
          (λ later is_later.
            walk-EndsAt k rest later
              (omega
                (arith, later_of image info units u p d at, Forest-takes image info units u inner))
              is_later))

  collect_on :
      (rounds q r : ℕ) (d : Die) (a : Abbrev) (ds : List Die)
      → d.abbrev_entry ≡ some a
      → StepsTo rounds d a r
      → ((later : Die)
          → die_at image info u r ≡ ok later
          → collect image info units (suc rounds) later ≡ ok ds)
      → collect image info units (suc (suc rounds)) d ≡ ok (d ∷ ds)
  unfolding StepsTo collect
  collect_on rounds q r d a ds entry (later, is_later, step) continue =
      simp (collect, entry, (walk_on rounds q d later a entry step).1, continue later is_later)

  collect_null :
      (rounds : ℕ) (d : Die)
      → d.abbrev_entry ≡ none
      → collect image info units (suc rounds) d ≡ ok []
  unfolding collect
  collect_null rounds d null = rw (collect, null)

  collect-Forest :
      {p q : ℕ} {ds : List Die} (rounds : ℕ) (f : Forest image info units u p ds q) (d : Die)
      → q ≤ p + rounds
      → die_at image info u p ≡ ok d
      → collect image info units (suc rounds) d ≡ ok ds
  collect-Forest zero f d fits is_d = absurd (omega (arith, Forest-takes image info units u f))
  collect-Forest (suc k) (Forest.end d at null next) d' fits is_d =
      subst (λ x. collect image info units (suc (suc k)) x ≡ ok []) (ok-injective (sym at ∙ is_d))
        (collect_null (suc k) d null)
  collect-Forest (suc k) (Forest.leaf {p = p} {q = q} {ds = ds} d a at entry childless rest) d' fits
        is_d =
      subst (λ x. collect image info units (suc (suc k)) x ≡ ok (d ∷ ds))
        (ok-injective (sym at ∙ is_d))
        (collect_on k q d.next d a ds entry (leaf-StepsTo k p d a at entry childless rest)
          (λ later is_later.
            collect-Forest k rest later (omega (arith, later_of image info units u p d at))
              is_later))
  collect-Forest (suc k)
        (Forest.branch {p = p} {q = q} {r = r} {ds = ds} d a at entry parent unlinked inner rest) d'
        fits is_d =
      let (first, is_first) = start_of image info units u inner in
      let ends =
        walk-EndsAt k inner first
          (omega (arith, later_of image info units u p d at, Forest-takes image info units u rest))
          is_first in
      subst (λ x. collect image info units (suc (suc k)) x ≡ ok (d ∷ ds))
        (ok-injective (sym at ∙ is_d))
        (collect_on k q r d a ds entry
          (branch-StepsTo k p d first a at entry parent unlinked is_first ends rest)
          (λ later is_later.
            collect-Forest k rest later
              (omega
                (arith, later_of image info units u p d at, Forest-takes image info units u inner))
              is_later))
  collect-Forest (suc k)
        (Forest.linked {p = p} {q = q} {r = r} {ds = ds} d a e at entry parent link reference inner
          at_r rest)
        d' fits is_d =
      subst (λ x. collect image info units (suc (suc k)) x ≡ ok (d ∷ ds))
        (ok-injective (sym at ∙ is_d))
        (collect_on k q r d a ds entry (linked-StepsTo k r d e a parent link reference at_r)
          (λ later is_later.
            collect-Forest k rest later
              (omega
                (arith, later_of image info units u p d at, Forest-takes image info units u inner))
              is_later))

  -- Where a forest of entries lies behind an entry that has children, `children` ends and visits
  -- the forest's own entries, in their order: those below them are passed over, by a sibling
  -- reference or by a walk through them.
  pub children-Forest :
      (d : Die) (a : Abbrev) (ds : List Die) (q : ℕ)
      → d.abbrev_entry ≡ some a
      → a.has_children ≡ true
      → d.unit ≡ u
      → Forest image info units u d.next ds q
      → children image info units d ≡ ok ds
  unfolding children first_child
  children-Forest d a ds q entry parent unit f =
      let (first, is_first) = start_of image info units u f in
      let visited =
        collect-Forest (length image) f first (omega (arith, Forest-takes image info units u f))
          is_first in
      simp (children, entry, parent, unit, is_first, visited)
