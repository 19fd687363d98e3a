-- ===== src/Dwarf/Die/Index.antt =====
-- `die::name`, and the index of functions, global variables and member functions that `dwarf::index`
-- of src/dwarf.cpp builds.
use gsdb.Common.{ℕ, zero, suc, Bool, true, false, not, ◌&&◌, ◌||◌, ◌==◌}
use gsdb.Common.{List, [], ◌∷◌, ◌++◌, Option, none, some, if◌then◌else◌}
use gsdb.Common.{Outcome, ok, exhausted, or_undefined, ◌>>=◌}
use gsdb.Dwarf.Die.{Info, CompileUnit, Die, contains, attribute_of, root}
use gsdb.Dwarf.Die.Values.{as_string, as_reference}
use gsdb.Dwarf.Die.Children.{children}
use gsdb.Dwarf.Die.At
use gsdb.Dwarf.Die.Tag

abbrev pub tag_of : Die → Outcome ℕ
tag_of d = or_undefined d.abbrev_entry >>= λ a. ok a.tag

-- `index_entry`.
pub record IndexEntry : Type 0 where
  pub unit : CompileUnit
  pub pos : ℕ

-- `function_index_`, `global_variable_index_` and `member_function_index_`, in the order in which
-- they were filled; of two entries for one member declaration the first one counts.
pub record Index : Type 0 where
  pub functions : List (List ℕ × IndexEntry)
  pub global_variables : List (List ℕ × IndexEntry)
  pub member_functions : List (ℕ × IndexEntry)

abbrev pub empty_index : Index
empty_index = record { functions = []; global_variables = []; member_functions = [] }

abbrev entry_of : Die → IndexEntry
entry_of d = record { unit = d.unit; pos = d.position }

-- A `for` loop over entries that may throw, and `std::find_if` with such a test.
unfoldable pub for_each : {S : Type 0} → (Die → S → Outcome S) → List Die → S → Outcome S
for_each f [] s = ok s
for_each f (d ∷ ds) s = f d s >>= for_each f ds

unfoldable pub find_if : (Die → Outcome Bool) → List Die → Outcome (Option Die)
find_if test [] = ok none
find_if test (d ∷ ds) =
    test d >>= λ passes. elim passes [ true ↦ ok (some d) | false ↦ find_if test ds ]

module _ (image : List ℕ) (info : Info) (units : List CompileUnit) where
  -- `die::name`; the chain of references may have a loop, so the rounds are an argument.
  unfoldable pub name : ℕ → Die → Outcome (Option (List ℕ))
  name zero d = exhausted
  name (suc rounds) d = contains d At.name >>= λ named. contains d At.specification >>= λ specified.
      contains d At.abstract_origin >>= λ copied.
      let at_specification =
        attribute_of d At.specification >>= as_reference image info units >>= name rounds in
      let at_origin =
        attribute_of d At.abstract_origin >>= as_reference image info units >>= name rounds in
      if named
      then (attribute_of d At.name >>= as_string image info >>= λ text. ok (some text))
      else if specified
      then at_specification
      else if copied
      then at_origin
      else ok none

  abbrev is_function_tag : ℕ → Bool
  is_function_tag tag = (tag == Tag.subprogram) || (tag == Tag.inlined_subroutine)

  abbrev add_function : ℕ → Die → Index → Outcome Index
  add_function rounds d ix = name rounds d >>= λ n. elim n [
    | none ↦ ok ix
    | some text ↦ ok (record ix { functions = ix.functions ++ ((text, entry_of d) ∷ []) })
  ]

  abbrev add_variable : ℕ → Die → Index → Outcome Index
  add_variable rounds d ix = name rounds d >>= λ n. elim n [
    | none ↦ ok ix
    | some text ↦
        ok (record ix { global_variables = ix.global_variables ++ ((text, entry_of d) ∷ []) })
  ]

  abbrev add_member : ℕ → Die → Index → Outcome Index
  add_member attribute d ix =
      attribute_of d attribute >>= as_reference image info units >>= λ declaration. ok (record ix {
        member_functions = ix.member_functions ++ ((declaration.position, entry_of d) ∷ []);
      })

  -- The entries that one entry adds.
  unfoldable pub index_one : ℕ → Bool → Die → Index → Outcome Index
  unfolding name
  index_one rounds in_function d ix = do
    has_low ← contains d At.low_pc
    has_ranges ← contains d At.ranges
    tag ← tag_of d
    let is_function = is_function_tag tag
    ix ← (if (has_low || has_ranges) && is_function then add_function rounds d ix else ok ix)
    specified ← contains d At.specification
    copied ← contains d At.abstract_origin
    ix ←
        (if is_function
          then (if specified
              then add_member At.specification d ix
              else if copied
              then add_member At.abstract_origin d ix
              else ok ix)
          else ok ix)
    has_location ← contains d At.location
    if has_location && (tag == Tag.variable) && not in_function
        then add_variable rounds d ix
        else ok ix

  -- `index_die`, a round for each level of nesting.
  unfoldable pub index_die : ℕ → Bool → Die → Index → Outcome Index
  unfolding index_one for_each
  index_die zero in_function d ix = exhausted
  index_die (suc rounds) in_function d ix = index_one rounds in_function d ix >>= λ ix'.
      tag_of d >>= λ tag. children image info units d >>= λ ds.
      for_each (index_die rounds (is_function_tag tag || in_function)) ds ix'

  abbrev index_units : ℕ → List CompileUnit → Index → Outcome Index
  index_units rounds [] ix = ok ix
  index_units rounds (u ∷ us) ix =
      root image info u >>= λ d. index_die rounds false d ix >>= index_units rounds us

  -- `index`: done once.
  unfoldable pub index : ℕ → Index → Outcome Index
  unfolding index_die
  index rounds ix = elim ix.functions [ [] ↦ index_units rounds units ix | f ∷ fs ↦ ok ix ]
