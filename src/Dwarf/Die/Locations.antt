-- ===== src/Dwarf/Die/Locations.antt =====
-- `location_list::eval`, `attr::as_evaluated_location` and `read_frame_base_result` of
-- src/dwarf.cpp.
pub mod Chosen
use gsdb.Common.{ℕ, zero, suc, ◌+◌, ◌-◌, List, length, ltb, leb, ◌==◌, ◌&&◌, if◌then◌else◌}
use gsdb.Common.{Bool, false, Option, none, some, Outcome, ok, err, exhausted, Error, ◌>>=◌}
use gsdb.Common.Word.{two64, add64}
use gsdb.Dwarf.Cursor.{Span, Cursor, cursor_of, jump, u16, u64}
use gsdb.Dwarf.Form.{Form, form_of}
use gsdb.Dwarf.Expression.{Context, Location, Result, eval}
use gsdb.Dwarf.Die.{Info, CompileUnit, Attr, attribute_of, root}
use gsdb.Dwarf.Die.Values.{as_address, as_expression, as_location_list}
use gsdb.Dwarf.Die.At

-- The loop of `location_list::eval`: the expression of the first entry that covers the program
-- counter, or none. A round takes bytes.
unfoldable pub find_location : ℕ → List ℕ → ℕ → ℕ → Cursor → Outcome (Option Span)
find_location zero image pc base c = exhausted
find_location (suc rounds) image pc base c = u64 image c >>= λ first.
    u64 image first.1 >>= λ second.
    let reselected = find_location rounds image pc second.0 second.1 in
    let entry = u16 image second.1 >>= λ len.
    let rest = find_location rounds image pc base (jump len.1 len.0) in
    if leb (add64 base first.0) pc && ltb pc (add64 base second.0)
    then ok (some (record { start = len.1.pos; size = len.0 }))
    else rest in
    if (first.0 == 0) && (second.0 == 0)
    then ok none
    else if first.0 == two64 - 1
    then reselected
    else entry

module _ (image : List ℕ) (info : Info) (context : Context) (in_frame_info : Bool) where
  -- `location_list::eval`. `pc` is the program counter as a file address; the look-up of the
  -- function around it has no use there, but may fail.
  unfoldable pub eval_location_list : ℕ → CompileUnit → ℕ → Span → Outcome Result
  unfolding find_location
  eval_location_list rounds u pc expr_data = context.enclosing_function >>= λ func.
      root image info u >>= λ r. attribute_of r At.low_pc >>= λ low.
      as_address image info low >>= λ base.
      find_location (suc (length image)) image pc base.addr (cursor_of expr_data) >>= λ found.
      elim found [
        | none ↦ ok (Result.simple Location.empty)
        | some data_span ↦ eval context image in_frame_info rounds data_span false
      ]

  -- `as_evaluated_location`.
  unfoldable pub as_evaluated_location : ℕ → ℕ → Attr → Outcome Result
  unfolding eval_location_list
  as_evaluated_location rounds pc a = elim (form_of a.form) [
    | Form.exprloc ↦ as_expression image a >>= λ data_span.
        eval context image in_frame_info rounds data_span false
    | Form.sec_offset ↦ as_location_list image info a >>= eval_location_list rounds a.unit pc
    | _ ↦ err Error.wrong_form
  ]

-- `read_frame_base_result`: only an address will do.
unfoldable pub read_frame_base_result : Result → Outcome ℕ
read_frame_base_result (Result.simple (Location.address a)) = ok a
read_frame_base_result (Result.simple l) = err Error.unsupported_frame_base
read_frame_base_result (Result.pieces ps) = err Error.unsupported_frame_base
