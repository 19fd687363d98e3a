-- ===== src/Dwarf/Cfi/Effects.antt =====
-- What the call frame instructions do to the rules of a row.
use gsdb.Common.{ℕ, ◌+◌, ◌%◌, ◌<◌, ◌≡◌, refl, arith, bit_and, true}
use gsdb.Common.{List, ◌∷◌, ◌++◌, none, some, length, drop, ◌==◌, ==_refl}
use gsdb.Common.{ok}
use gsdb.Common.Bits.{table_eq, all_below}
use gsdb.Common.Word.{two64, mul64}
use gsdb.Dwarf.Cursor.{Cursor, Span, move, jump, uleb128}
use gsdb.Dwarf.Cursor.Steps.{u8-cons, drop-step, drop-past}
use gsdb.Dwarf.Cursor.Leb.{uleb_bytes, uleb128-uleb_bytes}
use gsdb.Dwarf.Cfi.Entries.{Sections, Fde}
use gsdb.Dwarf.Cfi.Rules.{
  Context, Rule, CfaRule, Ruleset, Op, op_of, offset_rule, expr_rule, val_expr_rule, rule_at,
  emplace, exec_cfi, execute_cfi_instruction,
}

rule_at-emplace_self :
    (rules : Ruleset) (reg : ℕ) (rule : Rule)
    → rule_at rules reg ≡ none
    → rule_at (emplace rules reg rule) reg ≡ some rule
unfolding emplace rule_at
rule_at-emplace_self rules reg rule e = rw (emplace, e, rule_at, ==_refl reg) refl

emplace_there :
    (rules : Ruleset) (reg : ℕ) (rule old : Rule)
    → rule_at rules reg ≡ some old
    → emplace rules reg rule ≡ rules
unfolding emplace
emplace_there rules reg rule old e = rw (emplace, e) refl

high_table : all_below 64 (λ r. bit_and (0x80 + r) 0xc0 == 0x80) ≡ true
unfolding all_below
high_table = refl

low_table : all_below 64 (λ r. bit_and (0x80 + r) 0x3f == r) ≡ true
unfolding all_below
low_table = refl

op_of-offset : (reg : ℕ) → reg < 64 → op_of (0x80 + reg) ≡ Op.offset reg
unfolding op_of
op_of-offset reg h =
    let high : bit_and (0x80 + reg) 0xc0 ≡ 0x80 = table_eq 64 _ _ high_table reg h in
    let low : bit_and (0x80 + reg) 0x3f ≡ reg = table_eq 64 _ _ low_table reg h in
    rw (high, low) refl

-- The bytes of `DW_CFA_offset` at the cursor.
abbrev pub OffsetAt : List ℕ → Context → ℕ → ℕ → List ℕ → Type 0
OffsetAt image x reg n rest =
    let c = x.cur in drop c.pos image ≡ (0x80 + reg) ∷ (uleb_bytes 9 n ++ rest)

-- `DW_CFA_offset` gives a register that has no rule the rule "saved at n times the data alignment
-- factor from the CFA". A register that has a rule keeps it: the instruction changes no rule.
pub execute-offset :
    (image : List ℕ) (s : Sections) (fde : Fde) (x : Context) (text reg n : ℕ) (rest : List ℕ)
    → s.text ≡ some text
    → reg < 64
    → n < two64
    → OffsetAt image x reg n rest
    → (y : Context) × (execute_cfi_instruction image s fde x ≡ ok y)
      × (rule_at x.register_rules reg ≡ none
          → let cie = fde.cie in
            rule_at y.register_rules reg ≡ some (offset_rule (mul64 n cie.data_alignment_factor)))
      × ((old : Rule)
          → rule_at x.register_rules reg ≡ some old
          → y.register_rules ≡ x.register_rules)
unfolding execute_cfi_instruction exec_cfi
execute-offset image s fde x text reg n rest et hr hn e =
    let c = x.cur in
    let small : reg % 4294967296 ≡ reg = omega arith in
    let cie = fde.cie in
    let rule = offset_rule (mul64 n cie.data_alignment_factor) in
    let behind = move (move c 1) (length (uleb_bytes 9 n)) in
    (
      record x { cur = behind; register_rules = emplace x.register_rules (reg % 4294967296) rule },
      rw
          (
            et,
            u8-cons image c (0x80 + reg) _ e,
            op_of-offset reg hr,
            uleb128-uleb_bytes image n (move c 1) rest hn (drop-step image c.pos (0x80 + reg) _ e),
          )
          refl,
      λ fresh. rw small (rule_at-emplace_self x.register_rules reg rule fresh),
      λ old there. rw small (emplace_there x.register_rules reg rule old there),
    )

-- The state that `DW_CFA_remember_state` saved is the state behind the `DW_CFA_restore_state` that
-- finds the rule stack as it was left, whatever the rules were in between; the stack is as before.
restore-remember :
    (image : List ℕ) (s : Sections) (fde : Fde) (x z : Context) (c d : Cursor)
    → (y : Context) × (exec_cfi image s fde x c Op.remember_state ≡ ok y)
      × (z.rule_stack ≡ y.rule_stack
          → (w : Context) × (exec_cfi image s fde z d Op.restore_state ≡ ok w)
            × (w.register_rules ≡ x.register_rules)
            × (w.cfa_rule ≡ x.cfa_rule)
            × (w.rule_stack ≡ x.rule_stack)
            × (w.location ≡ z.location))
unfolding exec_cfi
restore-remember image s fde x z c d =
    let saved : Ruleset × CfaRule = (x.register_rules, x.cfa_rule) in
    (
      record x { cur = c; rule_stack = saved ∷ x.rule_stack },
      refl,
      λ same. (
        record z {
          cur = d;
          register_rules = x.register_rules;
          cfa_rule = x.cfa_rule;
          rule_stack = x.rule_stack;
        },
        rw (exec_cfi, same) refl,
        refl,
        refl,
        refl,
        refl,
      ),
    )

-- The bytes of `DW_CFA_expression` (0x10) or `DW_CFA_val_expression` (0x16), behind the opcode.
abbrev pub BlockAt : List ℕ → Context → ℕ → ℕ → List ℕ → List ℕ → Type 0
BlockAt image x opcode reg block rest =
    let c = x.cur in
    drop c.pos image
    ≡ opcode ∷ (uleb_bytes 9 reg ++ (uleb_bytes 9 (length block) ++ (block ++ rest)))

-- The cursor behind the two operands, and the expression there.
abbrev pub operands_end : Context → ℕ → ℕ → Cursor
operands_end x reg size =
    move (move (move x.cur 1) (length (uleb_bytes 9 reg))) (length (uleb_bytes 9 size))

abbrev pub with_rule : Context → ℕ → ℕ → (Span → Rule) → Context
with_rule x reg size rule =
    let end = operands_end x reg size in
    record x {
      cur = jump end size;
      register_rules =
          emplace x.register_rules (reg % 4294967296)
            (rule (record { start = end.pos; size = size }));
    }

-- `DW_CFA_expression` installs for its register the rule `val_expr_rule`, by which the expression
-- computes the register's value, and `DW_CFA_val_expression` the rule `expr_rule`, by which it
-- computes the address where the register is saved. Both take the block behind the operands as the
-- expression, and move past it. A register that has a rule keeps it.
pub expression_rules_swapped :
    (image : List ℕ) (s : Sections) (fde : Fde) (x : Context) (text reg : ℕ) (block rest : List ℕ)
    → s.text ≡ some text
    → reg < two64
    → length block < two64
    → (BlockAt image x 0x10 reg block rest
        → execute_cfi_instruction image s fde x ≡ ok (with_rule x reg (length block) val_expr_rule))
      × (BlockAt image x 0x16 reg block rest
          → execute_cfi_instruction image s fde x ≡ ok (with_rule x reg (length block) expr_rule))
unfolding execute_cfi_instruction exec_cfi op_of
expression_rules_swapped image s fde x text reg block rest et hr hb = (
  λ e. rw (et, u8-cons image x.cur 0x10 _ e, first 0x10 e, second 0x10 e) refl,
  λ e. rw (et, u8-cons image x.cur 0x16 _ e, first 0x16 e, second 0x16 e) refl,
)
  where
    first :
        (opcode : ℕ)
        → BlockAt image x opcode reg block rest
        → uleb128 image (move x.cur 1) ≡ ok (reg, move (move x.cur 1) (length (uleb_bytes 9 reg)))
    first opcode e =
        let c = x.cur in
        uleb128-uleb_bytes image reg (move c 1) _ hr (drop-step image c.pos opcode _ e)

    second :
        (opcode : ℕ)
        → BlockAt image x opcode reg block rest
        → uleb128 image (move (move x.cur 1) (length (uleb_bytes 9 reg)))
          ≡ ok (length block, operands_end x reg (length block))
    second opcode e =
        let c = x.cur in
        uleb128-uleb_bytes image (length block) (move (move c 1) (length (uleb_bytes 9 reg)))
          (block ++ rest) hb
          (drop-past image (c.pos + 1) (uleb_bytes 9 reg) _ (drop-step image c.pos opcode _ e))
