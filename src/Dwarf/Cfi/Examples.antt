-- ===== src/Dwarf/Cfi/Examples.antt =====
-- Call frame information on concrete bytes.
use gsdb.Common.{
  ℕ, zero, suc, ◌+◌, ◌*◌, ◌≤◌, ◌<◌, ◌≡◌, refl, arith, true, List, [], ◌∷◌, none, some, ◌⊎◌,
}
use gsdb.Common.{ok, err, Error, drop}
use gsdb.Dwarf.Cursor.{cursor_of, from_bytes, fixed_int}
use gsdb.Dwarf.Cursor.Leb.{uleb_bytes}
use gsdb.Dwarf.Cfi.Pointer.{
  encoding_size, eh_frame_pointer, base_of, pointer_with_base, read_format,
}
use gsdb.Dwarf.Cfi.Entries.{Sections, Cie, CieMap, Fde, EhHdr, cie_at, get_cie, cached}
use gsdb.Dwarf.Cfi.Cache.{IsFaithful, get_cie-parse_cie}
use gsdb.Dwarf.Cfi.Search.{row_address, table_pointer, eh_hdr_lookup}
use gsdb.Dwarf.Cfi.Found.{Covering, lookup-Covering}
use gsdb.Dwarf.Cfi.Rules.{
  Context, Rule, cfa_register_rule, same_rule, offset_rule, expr_rule, val_expr_rule, rule_at,
  execute_cfi_instruction,
}
use gsdb.Dwarf.Cfi.Effects.{execute-offset, expression_rules_swapped, with_rule}

abbrev sections : Sections
sections = record {
  eh_frame = record { start = 0; size = 24 };
  eh_frame_hdr = record { start = 0; size = 16 };
  eh_frame_hdr_start = some 0;
  text = some 0x1000;
  got_plt = none;
}

-- A CIE as gcc writes it: version 1, "zR", factors 1 and -8, return address in register 16.
abbrev cie_bytes : List ℕ
cie_bytes =
    0x14 ∷ 0 ∷ 0 ∷ 0 ∷ 0 ∷ 0 ∷ 0 ∷ 0 ∷ 0x01 ∷ 0x7a ∷ 0x52 ∷ 0 ∷ 0x01 ∷ 0x78 ∷ 0x10 ∷ 0x01 ∷ 0x1b
    ∷ 0x0c ∷ 0x07 ∷ 0x08 ∷ 0x90 ∷ 0x01 ∷ 0 ∷ 0 ∷ []

abbrev gcc_cie : Cie
gcc_cie = record {
  length = 24;
  code_alignment_factor = 1;
  data_alignment_factor = 18446744073709551608;
  fde_has_augmentation = true;
  fde_pointer_encoding = 0x1b;
  instructions = record { start = 17; size = 7 };
}

empty-IsFaithful : IsFaithful cie_bytes sections []
unfolding cached
empty-IsFaithful offset cie e = absurd (cc)

get_cie-parse_cie_example :
    (cie_at cie_bytes sections 0 ≡ ok gcc_cie
      → (m' : CieMap) × (get_cie cie_bytes sections [] 0 ≡ ok (gcc_cie, m'))
        × IsFaithful cie_bytes sections m')
    × ((m' : CieMap)
        → get_cie cie_bytes sections [] 0 ≡ ok (gcc_cie, m')
        → cie_at cie_bytes sections 0 ≡ ok gcc_cie)
get_cie-parse_cie_example =
    get_cie-parse_cie cie_bytes sections [] 0 gcc_cie empty-IsFaithful (omega arith)

-- Two rows of 4-byte addresses, 0x10 and 0x20, with the entries at 0x55 and 0x66.
abbrev table_bytes : List ℕ
table_bytes = 0x10 ∷ 0 ∷ 0 ∷ 0 ∷ 0x55 ∷ 0 ∷ 0 ∷ 0 ∷ 0x20 ∷ 0 ∷ 0 ∷ 0 ∷ 0x66 ∷ 0 ∷ 0 ∷ 0 ∷ []

abbrev header : EhHdr
header = record { start = 0; search_table = 0; count = 2; encoding = 0x03 }

abbrev starts : ℕ → ℕ
starts zero = 0x10
starts (suc i) = 0x20

reads : (i : ℕ) → i < 2 → row_address table_bytes header 0x1000 4 i ≡ ok (starts i)
unfolding row_address eh_frame_pointer base_of pointer_with_base read_format fixed_int from_bytes
reads zero h = refl
reads (suc zero) h = refl
reads (suc (suc i)) h = absurd (omega arith)

sorted : (i j : ℕ) → i ≤ j → j < 2 → starts i ≤ starts j
sorted zero zero h k = omega arith
sorted zero (suc j) h k = omega arith
sorted (suc i) zero h k = absurd (omega arith)
sorted (suc i) (suc j) h k = omega arith

lookup-Covering_example :
    ((eh_hdr_lookup table_bytes sections header 0x2a ≡ err Error.address_not_in_table)
      × (0x2a < 0x10))
    ⊎ ((i : ℕ) × (eh_hdr_lookup table_bytes sections header 0x2a
          ≡ table_pointer table_bytes header 0x1000 4 (0 + i * (4 * 2) + 4))
        × Covering starts 2 0x2a i)
unfolding encoding_size
lookup-Covering_example =
    lookup-Covering table_bytes sections header 0x1000 4 0x2a starts refl refl (omega arith)
      (omega arith) reads sorted

abbrev gcc_fde : Fde
gcc_fde = record {
  length = 0;
  cie = gcc_cie;
  initial_location = 0x10;
  address_range = 0x10;
  instructions = record { start = 0; size = 4 };
}

abbrev row : Context
row = record {
  cur = cursor_of (record { start = 0; size = 4 });
  location = 0x10;
  cfa_rule = cfa_register_rule 7 8;
  cie_register_rules = [];
  register_rules = [];
  rule_stack = [];
}

-- DW_CFA_offset: r6 at 2 * -8.
abbrev offset_bytes : List ℕ
offset_bytes = 0x86 ∷ 0x02 ∷ []

execute-offset_example :
    (y : Context) × (execute_cfi_instruction offset_bytes sections gcc_fde row ≡ ok y)
    × (rule_at [] 6 ≡ none → rule_at y.register_rules 6 ≡ some (offset_rule 18446744073709551600))
    × ((old : Rule) → rule_at [] 6 ≡ some old → y.register_rules ≡ [])
unfolding uleb_bytes
execute-offset_example =
    execute-offset offset_bytes sections gcc_fde row 0x1000 6 2 [] refl (omega arith) (omega arith)
      refl

abbrev later : Context
later = record row {
  cfa_rule = cfa_register_rule 6 16;
  register_rules = (3, same_rule) ∷ [];
  rule_stack = ([], cfa_register_rule 7 8) ∷ [];
}

-- DW_CFA_expression: r3 by the expression DW_OP_breg7 8.
abbrev expression_bytes : List ℕ
expression_bytes = 0x10 ∷ 0x03 ∷ 0x02 ∷ 0x77 ∷ 0x08 ∷ []

expression_rules_swapped_example :
    (drop 0 expression_bytes ≡ 0x10 ∷ 0x03 ∷ 0x02 ∷ 0x77 ∷ 0x08 ∷ []
      → execute_cfi_instruction expression_bytes sections gcc_fde row
        ≡ ok (with_rule row 3 2 val_expr_rule))
    × (drop 0 expression_bytes ≡ 0x16 ∷ 0x03 ∷ 0x02 ∷ 0x77 ∷ 0x08 ∷ []
        → execute_cfi_instruction expression_bytes sections gcc_fde row
          ≡ ok (with_rule row 3 2 expr_rule))
unfolding uleb_bytes
expression_rules_swapped_example =
    expression_rules_swapped expression_bytes sections gcc_fde row 0x1000 3 (0x77 ∷ 0x08 ∷ []) []
      refl (omega arith) (omega arith)
