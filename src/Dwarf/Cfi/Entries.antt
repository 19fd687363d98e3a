-- ===== src/Dwarf/Cfi/Entries.antt =====
-- The entries of `.eh_frame` and the header of `.eh_frame_hdr`: `parse_cie`, `get_cie` with its
-- cache, `parse_fde` and `parse_eh_hdr` of src/dwarf.cpp. The mapped file is the image, so a file
-- offset is a position.
use gsdb.Common.{ℕ, ◌+◌, ◌-◌, ◌%◌, Bool, true, false, not, ◌||◌}
use gsdb.Common.{List, [], ◌∷◌, Option, none, some, switch_on, ◌==◌, if◌then◌else◌}
use gsdb.Common.{Outcome, ok, err, Error, guard, or_undefined, ◌>>=◌, ◌>>◌}
use gsdb.Common.Word.{sub64}
use gsdb.Dwarf.Cursor.{
  Span, Cursor, span_end, cursor_to, cursor_of, jump, u8, u32, s32, uleb128, sleb128, string,
}
use gsdb.Dwarf.Cfi.Pointer.{pointer_with_base, eh_frame_pointer}

-- The sections that the call frame information reads, and the start addresses of those it asks for.
pub record Sections : Type 0 where
  pub eh_frame : Span
  pub eh_frame_hdr : Span
  pub eh_frame_hdr_start : Option ℕ
  pub text : Option ℕ
  pub got_plt : Option ℕ

-- `common_information_entry`.
pub record Cie : Type 0 where
  pub length : ℕ
  pub code_alignment_factor : ℕ
  pub data_alignment_factor : ℕ
  pub fde_has_augmentation : Bool
  pub fde_pointer_encoding : ℕ
  pub instructions : Span

-- `frame_description_entry`.
pub record Fde : Type 0 where
  pub length : ℕ
  pub cie : Cie
  pub initial_location : ℕ
  pub address_range : ℕ
  pub instructions : Span

-- The length field does not count itself: `cur.u32() + 4` in 32 bits.
abbrev length_of : ℕ → ℕ
length_of n = (n + 4) % 4294967296

abbrev span_to : ℕ → ℕ → Span
span_to from end = record { start = from; size = end - from }

abbrev is_empty : List ℕ → Bool
is_empty [] = true
is_empty (c ∷ s) = false

abbrev starts_with_z : List ℕ → Bool
starts_with_z [] = true
starts_with_z (c ∷ s) = c == 0x7a

-- The loop over the augmentation string: 'z', 'R', 'L' and 'P'.
unfoldable pub augment : List ℕ → List ℕ → ℕ → Cursor → Outcome (ℕ × Cursor)
augment image [] encoding c = ok (encoding, c)
augment image (letter ∷ letters) encoding c =
    switch_on letter (err Error.invalid_cie_augmentation) (
      (0x7a, uleb128 image c >>= λ r. augment image letters encoding r.1)
      ∷ (0x52, u8 image c >>= λ r. augment image letters r.0 r.1)
      ∷ (0x4c, u8 image c >>= λ r. augment image letters encoding r.1)
      ∷ (
        0x50,
        u8 image c >>= λ e.
            pointer_with_base image e.0 0 e.1 >>= λ r. augment image letters encoding r.1,
      )
      ∷ [])

abbrev check_version_4 : List ℕ → ℕ → Cursor → Outcome Cursor
check_version_4 image version c =
    if version == 4
    then (u8 image c >>= λ a. u8 image a.1 >>= λ g.
        guard (a.0 == 8) Error.invalid_address_size
        >> guard (g.0 == 0) Error.invalid_segment_size
        >> ok g.1)
    else ok c

-- `parse_cie`.
unfoldable pub parse_cie : List ℕ → Cursor → Outcome Cie
unfolding augment
parse_cie image start = do
  (n, c) ← u32 image start
  (_, c) ← u32 image c
  (version, c) ← u8 image c
  guard (version == 1 || version == 3 || version == 4) Error.invalid_cie_version
  (augmentation, c) ← string image c
  guard (starts_with_z augmentation) Error.invalid_cie_augmentation
  c ← check_version_4 image version c
  (code_alignment_factor, c) ← uleb128 image c
  (data_alignment_factor, c) ← sleb128 image c
  (_, c) ← (if version == 1 then u8 image c else uleb128 image c)
  (encoding, c) ← augment image augmentation 0x04 c
  ok (record {
    length = length_of n;
    code_alignment_factor = code_alignment_factor;
    data_alignment_factor = data_alignment_factor;
    fde_has_augmentation = not (is_empty augmentation);
    fde_pointer_encoding = encoding;
    instructions = span_to c.pos (start.pos + length_of n);
  })

-- `cie_map_`, whose keys are 32-bit numbers.
abbrev pub CieMap : Type 0
CieMap = List (ℕ × Cie)

unfoldable pub cached : CieMap → ℕ → Option Cie
cached [] offset = none
cached ((k, cie) ∷ m) offset = let rest = cached m offset in if k == offset then some cie else rest

abbrev pub cie_at : List ℕ → Sections → ℕ → Outcome Cie
cie_at image s offset = parse_cie image (cursor_to offset (span_end s.eh_frame))

-- An offset as a key of the map.
unfoldable pub cie_key : ℕ → ℕ
cie_key offset = offset % 4294967296

-- `get_cie`: an entry is parsed once.
unfoldable pub get_cie : List ℕ → Sections → CieMap → ℕ → Outcome (Cie × CieMap)
get_cie image s m offset = elim (cached m (cie_key offset)) [
  | some cie ↦ ok (cie, m)
  | none ↦ cie_at image s offset >>= λ cie. ok (cie, (cie_key offset, cie) ∷ m)
]

abbrev skip_augmentation : List ℕ → Bool → Cursor → Outcome Cursor
skip_augmentation image has c = if has then (uleb128 image c >>= λ r. ok (jump r.1 r.0)) else ok c

-- `parse_fde`. The distance to the entry's CIE is counted from the field that holds it.
unfoldable pub parse_fde : List ℕ → Sections → CieMap → Cursor → Outcome (Fde × CieMap)
parse_fde image s m start = do
  (n, id) ← u32 image start
  (distance, at) ← s32 image id
  (cie, m) ← get_cie image s m (sub64 id.pos distance)
  let text : ℕ = elim s.text [ none ↦ 0 | some a ↦ a ]
  (location, c) ←
      eh_frame_pointer image cie.fde_pointer_encoding
        (record { pc = at.pos; text_section_start = text; data_section_start = 0; func_start = 0 })
        at
  (range, c) ← pointer_with_base image cie.fde_pointer_encoding 0 c
  c ← skip_augmentation image cie.fde_has_augmentation c
  ok (
    record {
      length = length_of n;
      cie = cie;
      initial_location = location;
      address_range = range;
      instructions = span_to c.pos (start.pos + length_of n);
    },
    m,
  )

-- `eh_hdr`.
pub record EhHdr : Type 0 where
  pub start : ℕ
  pub search_table : ℕ
  pub count : ℕ
  pub encoding : ℕ

-- `parse_eh_hdr`.
unfoldable pub parse_eh_hdr : List ℕ → Sections → Outcome EhHdr
parse_eh_hdr image s = do
  _ ← or_undefined s.eh_frame_hdr_start
  _ ← or_undefined s.text
  let start = cursor_of s.eh_frame_hdr
  (_, c) ← u8 image start
  (eh_frame_ptr_enc, c) ← u8 image c
  (fde_count_enc, c) ← u8 image c
  (table_enc, c) ← u8 image c
  (_, c) ← pointer_with_base image eh_frame_ptr_enc 0 c
  (fde_count, c) ← pointer_with_base image fde_count_enc 0 c
  ok (record { start = start.pos; search_table = c.pos; count = fde_count; encoding = table_enc })
