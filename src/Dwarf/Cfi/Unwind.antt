-- ===== src/Dwarf/Cfi/Unwind.antt =====
-- `execute_unwind_rules` and `unwind` of src/dwarf.cpp: the registers of the caller, from those of a
-- frame and the row of its unwind table.
pub mod Caller
mod Examples
use gsdb.Common.{
  ℕ, zero, suc, ◌%◌, ◌/◌, Bool, true, false, ◌==◌, List, [], ◌∷◌, find, Option, none, some,
}
use gsdb.Common.{Outcome, ok, err, Error, or_err, or_undefined, ◌>>=◌}
use gsdb.Common.Word.{add64}
use gsdb.Dwarf.Cursor.{Span, little_endian}
use gsdb.Dwarf.Expression.{Location, Result, eval}
use gsdb.Dwarf.Expression.{Context as Frame}
use gsdb.Dwarf.Cfi.Entries.{Sections, CieMap, EhHdr}
use gsdb.Dwarf.Cfi.Rules.{Rule, CfaRule, Ruleset, Context, unwind_row}
use gsdb.Registers.{
  RegisterFormat, RegisterInfo, ValueType, Value, Registers, undefine, read, write_bytes,
}

-- `register_info_by`, on the descriptions of the registers.
abbrev pub info_by : (RegisterInfo → Bool) → List RegisterInfo → Outcome RegisterInfo
info_by test infos = or_err Error.unknown_register (find test infos)

-- `register_info_by_dwarf` and `register_info_by_id`.
unfoldable pub info_by_dwarf : List RegisterInfo → ℕ → Outcome RegisterInfo
info_by_dwarf infos n = info_by (λ i. i.dwarf_id == n) infos

unfoldable pub info_by_id : List RegisterInfo → ℕ → Outcome RegisterInfo
info_by_id infos n = info_by (λ i. i.id == n) infos

abbrev word_bytes : ℕ → ℕ → List ℕ
word_bytes zero n = []
word_bytes (suc size) n = (n % 256) ∷ word_bytes size (n / 256)

-- A 64-bit number as a value of a register, and back by `std::get`.
abbrev pub word : ℕ → Value
word n = record { type = ValueType.uint64; bytes = word_bytes 8 n }

abbrev pub number_in : Value → Outcome ℕ
number_in v = elim v.type [
  | ValueType.uint64 ↦ or_undefined (little_endian 8 v.bytes)
  | other ↦ err Error.bad_variant_access
]

-- `dwexp_addr_result`.
abbrev pub address_in : Result → Outcome ℕ
address_in (Result.simple (Location.address a)) = ok a
address_in result = err Error.bad_variant_access

-- What the unwinding stands on: the conversions of floating-point numbers, the descriptions of the
-- registers and the id of `rsp`, the memory of the process, what an expression asks of a frame with
-- given registers and CFA, and the rounds that an expression gets.
module _ (convert : RegisterFormat → Value → List ℕ) (infos : List RegisterInfo) (rsp : ℕ)
    (read_memory : ℕ → ℕ → Outcome (List ℕ)) (frame : Registers → ℕ → Frame) (rounds : ℕ)
    (image : List ℕ) where
  unfoldable pub evaluated : Registers → ℕ → Bool → Span → Outcome ℕ
  evaluated regs cfa push_cfa expr =
      eval (frame regs cfa) image true rounds expr push_cfa >>= address_in

  abbrev pub read_word : ℕ → Outcome ℕ
  read_word a = read_memory a 8 >>= λ memory. or_undefined (little_endian 8 memory)

  -- The CFA of a row. The frame's own registers still have the CFA that was set before.
  unfoldable pub cfa_of : Registers → ℕ → CfaRule → Outcome ℕ
  unfolding info_by_dwarf read evaluated
  cfa_of old_regs old_cfa (CfaRule.cfa_register_rule reg offset) =
      info_by_dwarf infos reg >>= λ info.
      read info old_regs >>= number_in >>= λ n. ok (add64 n offset)
  cfa_of old_regs old_cfa (CfaRule.cfa_expr_rule expr) = evaluated old_regs old_cfa false expr

  -- One rule, on the registers being unwound.
  unfoldable pub apply_rule : Registers → ℕ → RegisterInfo → Rule → Registers → Outcome Registers
  unfolding info_by_dwarf read evaluated undefine write_bytes
  apply_rule old_regs cfa info Rule.undefined_rule regs = ok (undefine info regs)
  apply_rule old_regs cfa info Rule.same_rule regs = ok regs
  apply_rule old_regs cfa info (Rule.register_rule reg) regs = info_by_dwarf infos reg >>= λ other.
      read other old_regs >>= λ v. write_bytes convert info v regs
  apply_rule old_regs cfa info (Rule.offset_rule offset) regs =
      read_word (add64 cfa offset) >>= λ n. write_bytes convert info (word n) regs
  apply_rule old_regs cfa info (Rule.val_offset_rule offset) regs =
      write_bytes convert info (word (add64 cfa offset)) regs
  apply_rule old_regs cfa info (Rule.expr_rule expr) regs =
      evaluated old_regs cfa true expr >>= read_word >>= λ n. write_bytes convert info (word n) regs
  apply_rule old_regs cfa info (Rule.val_expr_rule expr) regs =
      evaluated old_regs cfa true expr >>= λ a. write_bytes convert info (word a) regs

  unfoldable pub apply_rules : Registers → ℕ → Ruleset → Registers → Outcome Registers
  unfolding info_by_dwarf apply_rule
  apply_rules old_regs cfa [] regs = ok regs
  apply_rules old_regs cfa ((reg, rule) ∷ rules) regs = info_by_dwarf infos reg >>= λ info.
      apply_rule old_regs cfa info rule regs >>= λ regs'. apply_rules old_regs cfa rules regs'

  -- `execute_unwind_rules`: the caller's registers, and the CFA that is set in the frame's own.
  unfoldable pub execute_unwind_rules : Registers → ℕ → CfaRule → Ruleset → Outcome (Registers × ℕ)
  unfolding cfa_of info_by_id apply_rules write_bytes
  execute_unwind_rules old_regs old_cfa cfa_rule rules = cfa_of old_regs old_cfa cfa_rule >>= λ cfa.
      info_by_id infos rsp >>= λ info. write_bytes convert info (word cfa) old_regs >>= λ regs.
      apply_rules old_regs cfa rules regs >>= λ unwound. ok (unwound, cfa)

  -- `unwind`.
  unfoldable pub unwind :
      Sections → CieMap → EhHdr → ℕ → Registers → ℕ → Outcome ((Registers × ℕ) × CieMap)
  unfolding unwind_row execute_unwind_rules
  unwind s m hdr pc regs cfa = unwind_row rounds image s m hdr pc >>= λ row.
      execute_unwind_rules regs cfa row.0.cfa_rule row.0.register_rules >>= λ unwound.
      ok (unwound, row.1)
