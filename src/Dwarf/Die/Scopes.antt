-- ===== src/Dwarf/Die/Scopes.antt =====
-- What src/dwarf.cpp finds by walking through the entries: functions around an
-- address, inline stacks, scopes and variables.
pub mod Nested
use gsdb.Common.{ℕ, zero, suc, Bool, true, false, not, ◌&&◌, ◌||◌, ◌==◌}
use gsdb.Common.{List, [], ◌∷◌, ◌++◌, Option, none, some, get_elem?, if◌then◌else◌}
use gsdb.Common.{Outcome, ok, exhausted, or_undefined, ◌>>=◌}
use gsdb.Common.Word.{sub64}
use gsdb.Dwarf.LineTable.{FileAddr, File}
use gsdb.Dwarf.FilePath.{same_text}
use gsdb.Dwarf.Die.{Info, CompileUnit, Die, contains, attribute_of, die_at, root}
use gsdb.Dwarf.Die.Values.{as_string, as_reference, as_int}
use gsdb.Dwarf.Die.Ranges.{contains_address}
use gsdb.Dwarf.Die.Children.{children}
use gsdb.Dwarf.Die.At
use gsdb.Dwarf.Die.Index.{IndexEntry, tag_of, for_each, find_if, name}
use gsdb.Dwarf.Die.Tag

module _ (image : List ℕ) (info : Info) (units : List CompileUnit) where
  abbrev die_of : IndexEntry → Outcome Die
  die_of e = die_at image info e.unit e.pos

  -- `compile_unit_containing_address`.
  unfoldable pub compile_unit_containing_address :
      List CompileUnit → FileAddr → Outcome (Option CompileUnit)
  compile_unit_containing_address [] a = ok none
  compile_unit_containing_address (u ∷ us) a = root image info u >>= λ d.
      contains_address image info d a >>= λ inside. elim inside [
        | true ↦ ok (some u)
        | false ↦ compile_unit_containing_address us a
      ]

  abbrev is_function_around : FileAddr → Die → Outcome Bool
  is_function_around a d = contains_address image info d a >>= λ inside.
      if inside then (tag_of d >>= λ tag. ok (tag == Tag.subprogram)) else ok false

  -- `function_containing_address`, over the entries of the index in the map's own order.
  unfoldable pub function_containing_address :
      List (List ℕ × IndexEntry) → FileAddr → Outcome (Option Die)
  function_containing_address [] a = ok none
  function_containing_address ((text, e) ∷ functions) a = die_of e >>= λ d.
      is_function_around a d >>= λ found. elim found [
        | true ↦ ok (some d)
        | false ↦ function_containing_address functions a
      ]

  -- `find_functions`.
  unfoldable pub find_functions : List (List ℕ × IndexEntry) → List ℕ → Outcome (List Die)
  find_functions [] wanted = ok []
  find_functions ((text, e) ∷ functions) wanted =
      let others = find_functions functions wanted in
      if same_text text wanted then (die_of e >>= λ d. others >>= λ ds. ok (d ∷ ds)) else others

  -- `find_global_variable`.
  unfoldable pub find_global_variable : List (List ℕ × IndexEntry) → List ℕ → Outcome (Option Die)
  find_global_variable [] wanted = ok none
  find_global_variable ((text, e) ∷ variables) wanted =
      let others = find_global_variable variables wanted in
      if same_text text wanted then (die_of e >>= λ d. ok (some d)) else others

  abbrev is_inlined_around : FileAddr → Die → Outcome Bool
  is_inlined_around a d = tag_of d >>= λ tag.
      if tag == Tag.inlined_subroutine then contains_address image info d a else ok false

  -- The first child that is an inlined function around the address.
  unfoldable pub inlined_child : FileAddr → Die → Outcome (Option Die)
  unfolding find_if
  inlined_child a d = children image info units d >>= find_if (is_inlined_around a)

  -- The loop of `inline_stack_at_address`, outermost function first.
  unfoldable pub inlined_from : ℕ → FileAddr → Die → Outcome (List Die)
  unfolding inlined_child
  inlined_from zero a d = exhausted
  inlined_from (suc rounds) a d = inlined_child a d >>= λ found. elim found [
    | none ↦ ok (d ∷ [])
    | some c ↦ inlined_from rounds a c >>= λ stack. ok (d ∷ stack)
  ]

  -- `inline_stack_at_address`.
  unfoldable pub inline_stack_at_address :
      ℕ → List (List ℕ × IndexEntry) → FileAddr → Outcome (List Die)
  unfolding inlined_from
  inline_stack_at_address rounds functions a = function_containing_address functions a >>= λ func.
      elim func [ none ↦ ok [] | some d ↦ inlined_from rounds a d ]

  -- `scopes_at_address_in_die`: what is nested deepest comes first.
  unfoldable pub scopes_in_die : ℕ → FileAddr → Die → List Die → Outcome (List Die)
  unfolding for_each
  scopes_in_die zero a d scopes = exhausted
  scopes_in_die (suc rounds) a d scopes = children image info units d >>= λ ds.
      for_each
        (λ c found. contains_address image info c a >>= λ inside. elim inside [
          | true ↦ scopes_in_die rounds a c found >>= λ inner. ok (inner ++ (c ∷ []))
          | false ↦ ok found
        ])
        ds scopes

  -- `scopes_at_address`.
  unfoldable pub scopes_at_address : ℕ → List (List ℕ × IndexEntry) → FileAddr → Outcome (List Die)
  unfolding scopes_in_die
  scopes_at_address rounds functions a = function_containing_address functions a >>= λ func.
      elim func [
        | none ↦ ok []
        | some d ↦ scopes_in_die rounds a d [] >>= λ scopes. ok (scopes ++ (d ∷ []))
      ]

  abbrev is_variable_named : ℕ → List ℕ → Die → Outcome Bool
  is_variable_named rounds wanted d = tag_of d >>= λ tag.
      if (tag == Tag.variable) || (tag == Tag.formal_parameter)
      then (name image info units rounds d >>= λ n.
          ok (elim n [ none ↦ false | some text ↦ same_text text wanted ]))
      else ok false

  unfoldable pub find_in_scopes : ℕ → List ℕ → List Die → Outcome (Option Die)
  unfolding find_if
  find_in_scopes rounds wanted [] = ok none
  find_in_scopes rounds wanted (scope ∷ scopes) = children image info units scope >>= λ ds.
      find_if (is_variable_named rounds wanted) ds >>= λ found. elim found [
        | some d ↦ ok (some d)
        | none ↦ find_in_scopes rounds wanted scopes
      ]

  -- `find_local_variable`.
  unfoldable pub find_local_variable :
      ℕ → List (List ℕ × IndexEntry) → List ℕ → FileAddr → Outcome (Option Die)
  unfolding scopes_at_address find_in_scopes
  find_local_variable rounds functions wanted pc =
      scopes_at_address rounds functions pc >>= find_in_scopes rounds wanted

  -- `die::file` and `die::line`: where the entry is declared, or called, if it is inlined.
  abbrev by_tag : Die → ℕ → ℕ → Outcome ℕ
  by_tag d called declared = tag_of d >>= λ tag.
      attribute_of d (if tag == Tag.inlined_subroutine then called else declared) >>= as_int image

  unfoldable pub file : List File → Die → Outcome File
  file file_names d =
      by_tag d At.call_file At.decl_file >>= λ n. or_undefined (get_elem? file_names (sub64 n 1))

  unfoldable pub line : Die → Outcome ℕ
  line d = by_tag d At.call_line At.decl_line
