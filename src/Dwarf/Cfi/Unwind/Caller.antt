-- ===== src/Dwarf/Cfi/Unwind/Caller.antt =====
-- The registers that `execute_unwind_rules` of src/dwarf.cpp makes for the caller: the stack pointer,
-- and those that no rule is for.
use gsdb.Common.{
  ℕ, ◌+◌, ◌/◌, ◌≤◌, ◌≡◌, refl, sym, ap, ◌∙◌, arith, Bool, true, false, ◌==◌, ◌⊎◌, leb,
}
use gsdb.Common.{List, [], ◌∷◌, ◌++◌, All, length, if◌then◌else◌}
use gsdb.Common.{
  Outcome, ok, err, undefined, Error, guard, >>=-eq-ok, ok->>=, ok-injective, ◌>>=◌, ◌>>◌,
}
use mathlib.Core.Path.{subst}
use gsdb.Common.Word.{add64}
use gsdb.Dwarf.Expression.{Context as Frame}
use gsdb.Dwarf.Cfi.Rules.{Rule, CfaRule, Ruleset}
use gsdb.Dwarf.Cfi.Unwind.{
  info_by_dwarf, info_by_id, word, evaluated, read_word, cfa_of, apply_rule, apply_rules,
  execute_unwind_rules,
}
use gsdb.Registers.{
  RegisterFormat, RegisterInfo, ValueType, Value, Registers, size_of, is_listed, undefine,
  is_undefined, read, read_type, value_at, write_bytes, widen,
}
use gsdb.Registers.Written.{read-write, read-write_elsewhere}

-- The bytes of a register that is read at a type, and its mark as undefined, are not those of
-- another.
abbrev pub Apart : RegisterInfo → ValueType → RegisterInfo → Type 0
Apart other type info =
    ((other.offset + size_of type ≤ info.offset) ⊎ (info.offset + info.size ≤ other.offset))
    × ((info.offset / 2 == other.offset / 2) ≡ false)

is_listed-append_other :
    (n m : ℕ) (ms : List ℕ) → (m == n) ≡ false → is_listed n (ms ++ (m ∷ [])) ≡ is_listed n ms
is_listed-append_other n m [] h = ground arith
is_listed-append_other n m (k ∷ ms) h = ground (arith, is_listed-append_other n m ms h)

-- A register's mark leaves those of the others.
is_undefined-undefine :
    (info other : RegisterInfo) (r : Registers)
    → (info.offset / 2 == other.offset / 2) ≡ false
    → is_undefined other (undefine info r) ≡ is_undefined other r
unfolding is_undefined undefine
is_undefined-undefine info other r h =
    is_listed-append_other (other.offset / 2) (info.offset / 2) r.undefined_offsets h

read-undefine :
    (info other : RegisterInfo) (r : Registers)
    → (info.offset / 2 == other.offset / 2) ≡ false
    → read other (undefine info r) ≡ read other r
unfolding read undefine
read-undefine info other r h =
    ap
      (λ b.
        if b
        then err Error.register_undefined
        else (read_type other >>= λ type. value_at type other r))
      (is_undefined-undefine info other r h)

module _ (convert : RegisterFormat → Value → List ℕ) where
  passed :
      (b c : Bool) (e : Error) (r r' : Registers)
      → (guard b e >> (if c then ok r else undefined)) ≡ ok r'
      → (b ≡ true) × (c ≡ true)
  passed true true e r r' h = (refl, refl)
  passed true false e r r' h = absurd (cc)
  passed false c e r r' h = absurd (cc)

  leb-true : (a b : ℕ) → leb a b ≡ true → a ≤ b
  leb-true a b h = ground arith

  -- A write that is done fits its register, which lies in the user area.
  write_bytes-inside :
      (info : RegisterInfo) (v : Value) (r r' : Registers)
      → write_bytes convert info v r ≡ ok r'
      → (size_of v.type ≤ info.size) × (info.offset + info.size ≤ length r.bytes)
  unfolding write_bytes
  write_bytes-inside info v r r' e =
      let (fits, inside) = passed _ _ _ _ r' e in
      (leb-true (size_of v.type) info.size fits, leb-true _ _ inside)

  -- A write to one register leaves another as it reads.
  write_bytes-elsewhere :
      (info other : RegisterInfo) (type : ValueType) (v : Value) (r r' : Registers)
      → read_type other ≡ ok type
      → Apart other type info
      → write_bytes convert info v r ≡ ok r'
      → read other r' ≡ read other r
  write_bytes-elsewhere info other type v r r' e apart h =
      let (fits, inside) = write_bytes-inside info v r r' h in
      sym (ok->>= (write_bytes convert info v r) (read other) h)
      ∙ read-write_elsewhere convert info other type v r fits inside e apart.0

  module _ (infos : List RegisterInfo) (rsp : ℕ) (read_memory : ℕ → ℕ → Outcome (List ℕ))
      (frame : Registers → ℕ → Frame) (rounds : ℕ) (image : List ℕ) where
    -- A rule for one register leaves another as it reads.
    apply_rule-elsewhere :
        (old_regs : Registers) (cfa : ℕ) (info other : RegisterInfo) (type : ValueType)
        (rule : Rule) (r r' : Registers)
        → read_type other ≡ ok type
        → Apart other type info
        → apply_rule convert infos rsp read_memory frame rounds image old_regs cfa info rule r
          ≡ ok r'
        → read other r' ≡ read other r
    unfolding apply_rule
    apply_rule-elsewhere old_regs cfa info other type Rule.undefined_rule r r' e apart h =
        ap (read other) (sym (ok-injective h)) ∙ read-undefine info other r apart.1
    apply_rule-elsewhere old_regs cfa info other type Rule.same_rule r r' e apart h =
        ap (read other) (sym (ok-injective h))
    apply_rule-elsewhere old_regs cfa info other type (Rule.register_rule reg) r r' e apart h =
        let (from, _, h1) = >>=-eq-ok (info_by_dwarf infos reg) _ h in
        let (v, _, h2) = >>=-eq-ok (read from old_regs) _ h1 in
        write_bytes-elsewhere info other type v r r' e apart h2
    apply_rule-elsewhere old_regs cfa info other type (Rule.offset_rule offset) r r' e apart h =
        let (n, _, h1) =
          >>=-eq-ok (read_word convert infos rsp read_memory frame rounds image (add64 cfa offset))
            _ h in
        write_bytes-elsewhere info other type (word n) r r' e apart h1
    apply_rule-elsewhere old_regs cfa info other type (Rule.val_offset_rule offset) r r' e apart h =
        write_bytes-elsewhere info other type (word (add64 cfa offset)) r r' e apart h
    apply_rule-elsewhere old_regs cfa info other type (Rule.expr_rule expr) r r' e apart h =
        let (n, _, h1) =
          >>=-eq-ok
            (evaluated convert infos rsp read_memory frame rounds image old_regs cfa true expr
              >>= read_word convert infos rsp read_memory frame rounds image)
            (λ n. write_bytes convert info (word n) r) h in
        write_bytes-elsewhere info other type (word n) r r' e apart h1
    apply_rule-elsewhere old_regs cfa info other type (Rule.val_expr_rule expr) r r' e apart h =
        let (a, _, h1) =
          >>=-eq-ok
            (evaluated convert infos rsp read_memory frame rounds image old_regs cfa true expr)
            (λ a. write_bytes convert info (word a) r) h in
        write_bytes-elsewhere info other type (word a) r r' e apart h1

    -- No rule is for the register, or for one that shares bytes or the mark with it.
    abbrev pub NoRule : RegisterInfo → ValueType → Ruleset → Type 0
    NoRule other type rules =
        All (λ r. (info : RegisterInfo) → info_by_dwarf infos r.0 ≡ ok info → Apart other type info)
          rules

    apply_rules-elsewhere :
        (old_regs : Registers) (cfa : ℕ) (other : RegisterInfo) (type : ValueType) (rules : Ruleset)
        (r r' : Registers)
        → read_type other ≡ ok type
        → NoRule other type rules
        → apply_rules convert infos rsp read_memory frame rounds image old_regs cfa rules r ≡ ok r'
        → read other r' ≡ read other r
    unfolding apply_rules
    apply_rules-elsewhere old_regs cfa other type [] r r' e apart h =
        ap (read other) (sym (ok-injective h))
    apply_rules-elsewhere old_regs cfa other type ((reg, rule) ∷ rules) r r' e apart h =
        let (info, found, h1) = >>=-eq-ok (info_by_dwarf infos reg) _ h in
        let (r1, first, h2) =
          >>=-eq-ok
            (apply_rule convert infos rsp read_memory frame rounds image old_regs cfa info rule r) _
            h1 in
        apply_rules-elsewhere old_regs cfa other type rules r1 r' e apart.1 h2
        ∙ apply_rule-elsewhere old_regs cfa info other type rule r r1 e (apart.0 info found) first

    -- An integer register is written without a conversion.
    write_bytes-integer :
        (info : RegisterInfo) (v : Value) (r : Registers)
        → info.format ≡ RegisterFormat.uint
        → write_bytes convert info v r ≡ write_bytes (λ format v. v.bytes) info v r
    unfolding write_bytes widen
    write_bytes-integer info v r e = rw e refl

    word_type :
        (info : RegisterInfo)
        → info.format ≡ RegisterFormat.uint
        → info.size ≡ 8
        → read_type info ≡ ok ValueType.uint64
    unfolding read_type
    word_type info e size = rw (e, size) refl

    read-word :
        (info : RegisterInfo) (n : ℕ) (r r' : Registers)
        → info.format ≡ RegisterFormat.uint
        → info.size ≡ 8
        → is_undefined info r ≡ false
        → write_bytes convert info (word n) r ≡ ok r'
        → read info r' ≡ ok (word n)
    read-word info n r r' integer size defined e =
        let plain = sym (write_bytes-integer info (word n) r integer) ∙ e in
        sym (ok->>= (write_bytes (λ format v. v.bytes) info (word n) r) (read info) plain)
        ∙ read-write (λ format v. v.bytes) info (word n) r (word_type info integer size) (sym size)
            (sym size) defined refl (write_bytes-inside info (word n) r r' e).1

    -- The conclusion, from the parts of a call that has returned.
    abbrev Made : Registers → ℕ → CfaRule → Ruleset → RegisterInfo → Registers → ℕ → Type 0
    Made old_regs old_cfa cfa_rule rules info unwound cfa =
        (cfa_of convert infos rsp read_memory frame rounds image old_regs old_cfa cfa_rule ≡ ok cfa)
        × (read info unwound ≡ ok (word cfa))
        × ((other : RegisterInfo) (type : ValueType)
            → read_type other ≡ ok type
            → Apart other type info
            → NoRule other type rules
            → read other unwound ≡ read other old_regs)

    made :
        (old_regs r unwound : Registers) (old_cfa cfa : ℕ) (cfa_rule : CfaRule) (rules : Ruleset)
        (info : RegisterInfo)
        → info.format ≡ RegisterFormat.uint
        → info.size ≡ 8
        → is_undefined info old_regs ≡ false
        → NoRule info ValueType.uint64 rules
        → cfa_of convert infos rsp read_memory frame rounds image old_regs old_cfa cfa_rule ≡ ok cfa
        → write_bytes convert info (word cfa) old_regs ≡ ok r
        → apply_rules convert infos rsp read_memory frame rounds image old_regs cfa rules r
          ≡ ok unwound
        → Made old_regs old_cfa cfa_rule rules info unwound cfa
    made old_regs r unwound old_cfa cfa cfa_rule rules info integer size defined free computed
          written applied =
        (
          computed,
          apply_rules-elsewhere old_regs cfa info ValueType.uint64 rules r unwound
                (word_type info integer size) free applied
              ∙ read-word info cfa old_regs r integer size defined written,
          λ other type e apart none_for.
              apply_rules-elsewhere old_regs cfa other type rules r unwound e none_for applied
              ∙ write_bytes-elsewhere info other type (word cfa) old_regs r e apart written,
        )

    -- Where `execute_unwind_rules` returns, with `rsp` an integer register of 8 bytes that is not
    -- undefined, and no rule for it, the caller's `rsp` reads as the CFA of the row. Every other
    -- register that no rule is for, and that shares no bytes with those, reads as in the frame.
    pub execute_unwind_rules-caller :
        (old_regs unwound : Registers) (old_cfa cfa : ℕ) (cfa_rule : CfaRule) (rules : Ruleset)
        (info : RegisterInfo)
        → info_by_id infos rsp ≡ ok info
        → info.format ≡ RegisterFormat.uint
        → info.size ≡ 8
        → is_undefined info old_regs ≡ false
        → NoRule info ValueType.uint64 rules
        → execute_unwind_rules convert infos rsp read_memory frame rounds image old_regs old_cfa
            cfa_rule rules
          ≡ ok (unwound, cfa)
        → (cfa_of convert infos rsp read_memory frame rounds image old_regs old_cfa cfa_rule
            ≡ ok cfa)
          × (read info unwound ≡ ok (word cfa))
          × ((other : RegisterInfo) (type : ValueType)
              → read_type other ≡ ok type
              → Apart other type info
              → NoRule other type rules
              → read other unwound ≡ read other old_regs)
    unfolding execute_unwind_rules
    execute_unwind_rules-caller old_regs unwound old_cfa cfa cfa_rule rules info found integer size
          defined free e =
        let (n, computed, e1) =
          >>=-eq-ok
            (cfa_of convert infos rsp read_memory frame rounds image old_regs old_cfa cfa_rule) _
            e in
        let (info', found', e2) = >>=-eq-ok (info_by_id infos rsp) _ e1 in
        let (r, written, e3) = >>=-eq-ok (write_bytes convert info' (word n) old_regs) _ e2 in
        let (r', applied, last) =
          >>=-eq-ok
            (apply_rules convert infos rsp read_memory frame rounds image old_regs n rules r) _
            e3 in
        let pair = ok-injective last in
        let same_info = ok-injective (sym found' ∙ found) in
        subst (λ p. Made old_regs old_cfa cfa_rule rules info p.0 p.1) pair
          (made old_regs r r' old_cfa n cfa_rule rules info integer size defined free computed
            (subst (λ i. write_bytes convert i (word n) old_regs ≡ ok r) same_info written) applied)
