-- ===== src/Dwarf/Cfi/Rules.antt =====
-- The unwind table's rows: `unwind_context`, `execute_cfi_instruction` and the part of `unwind` that
-- computes a row, in src/dwarf.cpp. Products of signed numbers wrap, as the machine's do.
use gsdb.Common.{ℕ, zero, suc, ◌*◌, ◌%◌, bit_and, Bool, true, false, not, ◌&&◌}
use gsdb.Common.{List, [], ◌∷◌, Option, none, some, switch_on, ltb, leb, ◌==◌, if◌then◌else◌}
use gsdb.Common.{
  Outcome, ok, err, undefined, exhausted, Error, or_err, or_undefined, guard, ◌>>=◌, ◌>>◌,
}
use gsdb.Common.Word.{add64, mul64}
use gsdb.Dwarf.Cursor.{Span, Cursor, span_end, cursor_of, cursor_to, jump, finished}
use gsdb.Dwarf.Cursor.{u8, u16, u32, uleb128, sleb128}
use gsdb.Dwarf.Cfi.Pointer.{eh_frame_pointer}
use gsdb.Dwarf.Cfi.Entries.{Sections, Fde, CieMap, EhHdr, parse_fde}
use gsdb.Dwarf.Cfi.Search.{eh_hdr_lookup}

pub data Rule : Type 0 where
  undefined_rule same_rule : Rule
  offset_rule val_offset_rule register_rule : ℕ → Rule
  expr_rule val_expr_rule : Span → Rule

pub data CfaRule : Type 0 where
  cfa_register_rule : ℕ → ℕ → CfaRule
  cfa_expr_rule : Span → CfaRule

-- `ruleset`: a map from 32-bit register numbers; `emplace` keeps a rule that is there.
abbrev pub Ruleset : Type 0
Ruleset = List (ℕ × Rule)

unfoldable pub rule_at : Ruleset → ℕ → Option Rule
rule_at [] reg = none
rule_at ((k, rule) ∷ rules) reg =
    let rest = rule_at rules reg in if k == reg then some rule else rest

unfoldable pub emplace : Ruleset → ℕ → Rule → Ruleset
unfolding rule_at
emplace rules reg rule = elim (rule_at rules reg) [ some old ↦ rules | none ↦ (reg, rule) ∷ rules ]

-- `unwind_context`.
pub record Context : Type 0 where
  pub cur : Cursor
  pub location : ℕ
  pub cfa_rule : CfaRule
  pub cie_register_rules : Ruleset
  pub register_rules : Ruleset
  pub rule_stack : List (Ruleset × CfaRule)

pub data Op : Type 0 where
  advance_loc offset restore : ℕ → Op
  set_loc advance_loc1 advance_loc2 advance_loc4 : Op
  def_cfa def_cfa_sf def_cfa_register def_cfa_offset def_cfa_offset_sf def_cfa_expression : Op
  undefined_value same_value offset_extended offset_extended_sf val_offset val_offset_sf : Op
  register expression val_expression restore_extended remember_state restore_state none_of_these :
      Op

abbrev extended_table : List (ℕ × Op)
extended_table =
    (0x01, Op.set_loc)
    ∷ (0x02, Op.advance_loc1)
    ∷ (0x03, Op.advance_loc2)
    ∷ (0x04, Op.advance_loc4)
    ∷ (0x05, Op.offset_extended)
    ∷ (0x06, Op.restore_extended)
    ∷ (0x07, Op.undefined_value)
    ∷ (0x08, Op.same_value)
    ∷ (0x09, Op.register)
    ∷ (0x0a, Op.remember_state)
    ∷ (0x0b, Op.restore_state)
    ∷ (0x0c, Op.def_cfa)
    ∷ (0x0d, Op.def_cfa_register)
    ∷ (0x0e, Op.def_cfa_offset)
    ∷ (0x0f, Op.def_cfa_expression)
    ∷ (0x10, Op.expression)
    ∷ (0x11, Op.offset_extended_sf)
    ∷ (0x12, Op.def_cfa_sf)
    ∷ (0x13, Op.def_cfa_offset_sf)
    ∷ (0x14, Op.val_offset)
    ∷ (0x15, Op.val_offset_sf)
    ∷ (0x16, Op.val_expression)
    ∷ []

-- The primary opcode in the high two bits, else the extended one.
unfoldable pub op_of : ℕ → Op
op_of opcode =
    let low = bit_and opcode 0x3f in
    switch_on (bit_and opcode 0xc0) (switch_on low Op.none_of_these extended_table)
      ((0x40, Op.advance_loc low) ∷ (0x80, Op.offset low) ∷ (0xc0, Op.restore low) ∷ [])

abbrev low32 : ℕ → ℕ
low32 n = n % 4294967296

abbrev advance : Context → Cursor → ℕ → Outcome Context
advance x c n = ok (record x { cur = c; location = add64 x.location n })

-- `register_rules.emplace`.
abbrev set_rule : Context → Cursor → ℕ → Rule → Outcome Context
set_rule x c reg rule =
    ok (record x { cur = c; register_rules = emplace x.register_rules (low32 reg) rule })

abbrev set_cfa : Context → Cursor → CfaRule → Outcome Context
set_cfa x c rule = ok (record x { cur = c; cfa_rule = rule })

-- `cie_register_rules.at`.
abbrev restore_rule : Context → Cursor → ℕ → Outcome Context
restore_rule x c reg =
    or_err Error.out_of_range (rule_at x.cie_register_rules (low32 reg)) >>= λ rule.
    set_rule x c reg rule

-- `std::get<cfa_register_rule>(ctx.cfa_rule)`.
abbrev register_cfa : CfaRule → Outcome (ℕ × ℕ)
register_cfa (cfa_register_rule reg off) = ok (reg, off)
register_cfa (cfa_expr_rule e) = err Error.bad_variant_access

module _ (image : List ℕ) (s : Sections) (fde : Fde) where
  -- A length and the expression behind it.
  abbrev expr_block : Cursor → Outcome (Span × Cursor)
  expr_block c = uleb128 image c >>= λ n. ok (record { start = n.1.pos; size = n.0 }, jump n.1 n.0)

  -- An offset in units of the data alignment factor.
  abbrev factored : Outcome (ℕ × Cursor) → Outcome (ℕ × Cursor)
  factored r = r >>= λ n. let cie = fde.cie in ok (mul64 n.0 cie.data_alignment_factor, n.1)

  abbrev scaled : ℕ → ℕ
  scaled n = let cie = fde.cie in n * cie.code_alignment_factor

  unfoldable pub exec_cfi : Context → Cursor → Op → Outcome Context
  unfolding emplace
  exec_cfi x c (Op.advance_loc n) = advance x c (scaled n)
  exec_cfi x c (Op.offset reg) =
      factored (uleb128 image c) >>= λ o. set_rule x o.1 reg (offset_rule o.0)
  exec_cfi x c (Op.restore reg) = restore_rule x c reg
  exec_cfi x c Op.set_loc = do
    let cie = fde.cie
    text ← or_undefined s.text
    let plt : ℕ = elim s.got_plt [ none ↦ 0 | some a ↦ a ]
    (loc, c) ←
        eh_frame_pointer image cie.fde_pointer_encoding
          (record {
            pc = c.pos;
            text_section_start = text;
            data_section_start = plt;
            func_start = fde.initial_location;
          })
          c
    ok (record x { cur = c; location = loc })
  exec_cfi x c Op.advance_loc1 = u8 image c >>= λ n. advance x n.1 (scaled n.0)
  exec_cfi x c Op.advance_loc2 = u16 image c >>= λ n. advance x n.1 (scaled n.0)
  exec_cfi x c Op.advance_loc4 = u32 image c >>= λ n. advance x n.1 (scaled n.0)
  exec_cfi x c Op.def_cfa = do
    (reg, c) ← uleb128 image c
    (off, c) ← uleb128 image c
    set_cfa x c (cfa_register_rule (low32 reg) (low32 off))
  exec_cfi x c Op.def_cfa_sf = do
    (reg, c) ← uleb128 image c
    (off, c) ← factored (sleb128 image c)
    set_cfa x c (cfa_register_rule (low32 reg) off)
  exec_cfi x c Op.def_cfa_register = do
    (reg, c) ← uleb128 image c
    (_, off) ← register_cfa x.cfa_rule
    set_cfa x c (cfa_register_rule (low32 reg) off)
  exec_cfi x c Op.def_cfa_offset = do
    (off, c) ← uleb128 image c
    (reg, _) ← register_cfa x.cfa_rule
    set_cfa x c (cfa_register_rule reg off)
  exec_cfi x c Op.def_cfa_offset_sf = do
    (off, c) ← factored (sleb128 image c)
    (reg, _) ← register_cfa x.cfa_rule
    set_cfa x c (cfa_register_rule reg off)
  exec_cfi x c Op.def_cfa_expression = expr_block c >>= λ e. set_cfa x e.1 (cfa_expr_rule e.0)
  exec_cfi x c Op.undefined_value = uleb128 image c >>= λ r. set_rule x r.1 r.0 undefined_rule
  exec_cfi x c Op.same_value = uleb128 image c >>= λ r. set_rule x r.1 r.0 same_rule
  exec_cfi x c Op.offset_extended = uleb128 image c >>= λ r.
      factored (uleb128 image r.1) >>= λ o. set_rule x o.1 r.0 (offset_rule o.0)
  exec_cfi x c Op.offset_extended_sf = uleb128 image c >>= λ r.
      factored (sleb128 image r.1) >>= λ o. set_rule x o.1 r.0 (offset_rule o.0)
  exec_cfi x c Op.val_offset = uleb128 image c >>= λ r.
      factored (uleb128 image r.1) >>= λ o. set_rule x o.1 r.0 (val_offset_rule o.0)
  exec_cfi x c Op.val_offset_sf = uleb128 image c >>= λ r.
      factored (sleb128 image r.1) >>= λ o. set_rule x o.1 r.0 (val_offset_rule o.0)
  exec_cfi x c Op.register = uleb128 image c >>= λ r.
      uleb128 image r.1 >>= λ o. set_rule x o.1 r.0 (register_rule (low32 o.0))
  exec_cfi x c Op.expression =
      uleb128 image c >>= λ r. expr_block r.1 >>= λ e. set_rule x e.1 r.0 (val_expr_rule e.0)
  exec_cfi x c Op.val_expression =
      uleb128 image c >>= λ r. expr_block r.1 >>= λ e. set_rule x e.1 r.0 (expr_rule e.0)
  exec_cfi x c Op.restore_extended = uleb128 image c >>= λ r. restore_rule x r.1 r.0
  exec_cfi x c Op.remember_state =
      ok (record x { cur = c; rule_stack = (x.register_rules, x.cfa_rule) ∷ x.rule_stack })
  exec_cfi x c Op.restore_state = elim x.rule_stack [
    | [] ↦ undefined
    | saved ∷ below ↦
        ok (record x { cur = c; register_rules = saved.0; cfa_rule = saved.1; rule_stack = below })
  ]
  exec_cfi x c Op.none_of_these = ok (record x { cur = c })

  -- `execute_cfi_instruction`.
  unfoldable pub execute_cfi_instruction : Context → Outcome Context
  execute_cfi_instruction x = do
    _ ← or_undefined s.text
    (opcode, c) ← u8 image x.cur
    exec_cfi x c (op_of opcode)

  -- The loops of `unwind`: the CIE's instructions to their end, the FDE's while the location is not
  -- past the program counter.
  unfoldable pub run_while : (Context → Bool) → ℕ → Context → Outcome Context
  run_while goes_on zero x = exhausted
  run_while goes_on (suc rounds) x = elim (not (finished x.cur) && goes_on x) [
    | false ↦ ok x
    | true ↦ execute_cfi_instruction x >>= run_while goes_on rounds
  ]

  -- The row for a program counter that the entry covers.
  unfoldable pub row_at : ℕ → ℕ → Outcome Context
  unfolding run_while
  row_at rounds pc = do
    let cie = fde.cie
    x ←
        run_while (λ _. true) rounds
          (record {
            cur = cursor_of cie.instructions;
            location = 0;
            cfa_rule = cfa_register_rule 0 0;
            cie_register_rules = [];
            register_rules = [];
            rule_stack = [];
          })
    run_while (λ y. leb y.location pc) rounds
        (record x {
          cie_register_rules = x.register_rules;
          cur = cursor_of fde.instructions;
          location = fde.initial_location;
        })

-- `unwind`, up to the execution of the row's rules. An expression's length is unsigned and may move
-- the cursor back, so the rounds are an argument.
unfoldable pub unwind_row : ℕ → List ℕ → Sections → CieMap → EhHdr → ℕ → Outcome (Context × CieMap)
unfolding row_at
unwind_row rounds image s m hdr pc = do
  fde_start ← eh_hdr_lookup image s hdr pc
  (fde, m) ← parse_fde image s m (cursor_to fde_start (span_end s.eh_frame))
  guard (leb fde.initial_location pc && ltb pc (add64 fde.initial_location fde.address_range))
      Error.no_unwind_information
  x ← row_at image s fde rounds pc
  ok (x, m)
