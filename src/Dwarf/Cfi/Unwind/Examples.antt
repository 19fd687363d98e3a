-- ===== src/Dwarf/Cfi/Unwind/Examples.antt =====
-- The caller's registers of src/dwarf.cpp, for a frame whose return address is below the CFA.
use gsdb.Common.{
  ℕ, ◌≡◌, refl, arith, false, List, [], ◌∷◌, ◌++◌, none, inl, Outcome, ok, ok-injective,
}
use mathlib.Core.Path.{subst}
use gsdb.Dwarf.Expression.{Context as Frame}
use gsdb.Dwarf.Cfi.Rules.{Rule, CfaRule, Ruleset}
use gsdb.Dwarf.Cfi.Unwind.{info_by_dwarf, info_by_id, word, cfa_of, execute_unwind_rules}
use gsdb.Dwarf.Cfi.Unwind.Caller.{Apart, NoRule, execute_unwind_rules-caller}
use gsdb.Registers.{
  RegisterType, RegisterFormat, RegisterInfo, ValueType, Value, Registers, is_undefined, read,
  read_type,
}

abbrev register : ℕ → ℕ → ℕ → RegisterInfo
register id dwarf_id offset = record {
  id = id;
  dwarf_id = dwarf_id;
  size = 8;
  offset = offset;
  type = RegisterType.gpr;
  format = RegisterFormat.uint;
}

-- rsp, rbp and rip, by their DWARF numbers.
abbrev infos : List RegisterInfo
infos = register 0 7 0 ∷ register 1 6 8 ∷ register 2 16 16 ∷ []

abbrev convert : RegisterFormat → Value → List ℕ
convert format v = v.bytes

abbrev stack_memory : ℕ → ℕ → Outcome (List ℕ)
stack_memory a n = ok (0x34 ∷ 0x12 ∷ 0 ∷ 0 ∷ 0 ∷ 0 ∷ 0 ∷ 0 ∷ [])

abbrev frame : Registers → ℕ → Frame
frame regs cfa = record {
  read_register = λ n. ok 0;
  read_memory = stack_memory;
  cfa = cfa;
  load_bias = 0;
  enclosing_function = ok none;
  frame_base = λ n. ok 0;
}

abbrev rbp_bytes : List ℕ
rbp_bytes = 5 ∷ 0 ∷ 0 ∷ 0 ∷ 0 ∷ 0 ∷ 0 ∷ 0 ∷ []

-- rsp is 0x1000.
abbrev inner : Registers
inner = record {
  bytes =
      (0 ∷ 0x10 ∷ 0 ∷ 0 ∷ 0 ∷ 0 ∷ 0 ∷ 0 ∷ [])
      ++ (rbp_bytes ++ (9 ∷ 0 ∷ 0 ∷ 0 ∷ 0 ∷ 0 ∷ 0 ∷ 0 ∷ []));
  undefined_offsets = [];
}

-- The CFA is rsp + 8, and the return address is at the CFA less 8.
abbrev row : Ruleset
row = (16, Rule.offset_rule 0xfffffffffffffff8) ∷ []

abbrev caller : Registers
caller = record {
  bytes =
      (8 ∷ 0x10 ∷ 0 ∷ 0 ∷ 0 ∷ 0 ∷ 0 ∷ 0 ∷ [])
      ++ (rbp_bytes ++ (0x34 ∷ 0x12 ∷ 0 ∷ 0 ∷ 0 ∷ 0 ∷ 0 ∷ 0 ∷ []));
  undefined_offsets = [];
}

returned_to :
    execute_unwind_rules convert infos 0 stack_memory frame 0 [] inner 0
      (CfaRule.cfa_register_rule 7 8)
      row
    ≡ ok (caller, 0x1008)
unfolding execute_unwind_rules
returned_to = refl

first : info_by_id infos 0 ≡ ok (register 0 7 0)
unfolding info_by_id
first = refl

all_defined : is_undefined (register 0 7 0) inner ≡ false
unfolding is_undefined
all_defined = refl

rip-Apart :
    (info : RegisterInfo)
    → info_by_dwarf infos 16 ≡ ok info
    → Apart (register 0 7 0) ValueType.uint64 info
unfolding info_by_dwarf
rip-Apart info e =
    subst (Apart (register 0 7 0) ValueType.uint64) (ok-injective e) (inl (omega arith), refl)

execute_unwind_rules-caller_example :
    (cfa_of convert infos 0 stack_memory frame 0 [] inner 0 (CfaRule.cfa_register_rule 7 8)
      ≡ ok 0x1008)
    × (read (register 0 7 0) caller ≡ ok (word 0x1008))
    × ((other : RegisterInfo) (type : ValueType)
        → read_type other ≡ ok type
        → Apart other type (register 0 7 0)
        → NoRule convert infos 0 stack_memory frame 0 [] other type row
        → read other caller ≡ read other inner)
execute_unwind_rules-caller_example =
    execute_unwind_rules-caller convert infos 0 stack_memory frame 0 [] inner caller 0 0x1008
      (CfaRule.cfa_register_rule 7 8) row (register 0 7 0) first refl refl all_defined
      (rip-Apart, tt) returned_to
