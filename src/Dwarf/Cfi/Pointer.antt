-- ===== src/Dwarf/Cfi/Pointer.antt =====
-- `parse_eh_frame_pointer_with_base`, `parse_eh_frame_pointer` and `eh_frame_pointer_encoding_size`
-- of src/dwarf.cpp.
use gsdb.Common.{ℕ, bit_and, List, [], ◌∷◌, switch_on}
use gsdb.Common.{Outcome, ok, err, Error, ◌>>=◌}
use gsdb.Common.Word.{add64}
use gsdb.Dwarf.Cursor.{Reader, u16, u32, u64, s16, s32, s64, uleb128, sleb128}

-- The low four bits of an encoding.
pub data Format : Type 0 where
  absptr uleb udata2 udata4 udata8 sleb sdata2 sdata4 sdata8 other : Format

abbrev format_table : List (ℕ × Format)
format_table =
    (0x00, Format.absptr)
    ∷ (0x01, Format.uleb)
    ∷ (0x02, Format.udata2)
    ∷ (0x03, Format.udata4)
    ∷ (0x04, Format.udata8)
    ∷ (0x09, Format.sleb)
    ∷ (0x0a, Format.sdata2)
    ∷ (0x0b, Format.sdata4)
    ∷ (0x0c, Format.sdata8)
    ∷ []

abbrev pub format_of : ℕ → Format
format_of encoding = switch_on (bit_and encoding 0x0f) Format.other format_table

unfoldable pub read_format : List ℕ → Format → Reader ℕ
read_format image Format.absptr c = u64 image c
read_format image Format.uleb c = uleb128 image c
read_format image Format.udata2 c = u16 image c
read_format image Format.udata4 c = u32 image c
read_format image Format.udata8 c = u64 image c
read_format image Format.sleb c = sleb128 image c
read_format image Format.sdata2 c = s16 image c
read_format image Format.sdata4 c = s32 image c
read_format image Format.sdata8 c = s64 image c
read_format image Format.other c = err Error.unknown_pointer_encoding

-- `parse_eh_frame_pointer_with_base`.
unfoldable pub pointer_with_base : List ℕ → ℕ → ℕ → Reader ℕ
unfolding read_format
pointer_with_base image encoding base c = do
  (v, c) ← read_format image (format_of encoding) c
  ok (add64 base v, c)

-- What a pointer may be relative to.
pub record Bases : Type 0 where
  pub pc : ℕ
  pub text_section_start : ℕ
  pub data_section_start : ℕ
  pub func_start : ℕ

-- The `switch` on the application bits; the indirect bit is masked out.
unfoldable pub base_of : Bases → ℕ → Outcome ℕ
base_of b encoding = switch_on (bit_and encoding 0x70) (err Error.unknown_pointer_encoding) (
    (0x00, ok 0)
    ∷ (0x10, ok b.pc)
    ∷ (0x20, ok b.text_section_start)
    ∷ (0x30, ok b.data_section_start)
    ∷ (0x40, ok b.func_start)
    ∷ [])

-- `parse_eh_frame_pointer`.
unfoldable pub eh_frame_pointer : List ℕ → ℕ → Bases → Reader ℕ
unfolding base_of pointer_with_base
eh_frame_pointer image encoding b c = do
  base ← base_of b encoding
  pointer_with_base image encoding base c

-- `eh_frame_pointer_encoding_size`.
unfoldable pub encoding_size : ℕ → Outcome ℕ
encoding_size encoding =
    switch_on (bit_and encoding 0x7) (err Error.invalid_pointer_encoding)
      ((0x00, ok 8) ∷ (0x02, ok 2) ∷ (0x03, ok 4) ∷ (0x04, ok 8) ∷ [])
