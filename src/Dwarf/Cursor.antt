-- ===== src/Dwarf/Cursor.antt =====
-- `class cursor` of src/dwarf.cpp, with `span` and `from_bytes`.
-- The bytes that the debugger has mapped are one list, `image`; a pointer into them is a position.
-- A read at a position that has no byte is undefined: the cursor makes no check of its own.
pub mod Steps
pub mod Leb
pub mod Sleb
pub mod Skip
pub mod Progress
use gsdb.Common.{ℕ, zero, suc, ◌+◌, ◌-◌, ◌*◌, ◌%◌, Bool, true, false, not, ◌&&◌, List, [], ◌∷◌}
use gsdb.Common.{Option, none, some, drop, length, ltb, leb, ◌==◌, if◌then◌else◌, bit_and, bit_or}
use gsdb.Common.{Outcome, ok, err, undefined, exhausted, or_undefined, ◌>>=◌, Error}
use gsdb.Common.Word.{two64, shl64, sign_extend}
use gsdb.Dwarf.Form
use gsdb.Dwarf.Form.{Form, form_of}

-- `span<const std::byte>`.
pub record Span : Type 0 where
  pub start : ℕ
  pub size : ℕ

abbrev pub span_end : Span → ℕ
span_end s = s.start + s.size

pub record Cursor : Type 0 where
  pub span : Span
  pub pos : ℕ

abbrev pub cursor_of : Span → Cursor
cursor_of s = record { span = s; pos = s.start }

-- A cursor from a position to an end.
abbrev pub cursor_to : ℕ → ℕ → Cursor
cursor_to from end = record { span = record { start = from; size = end - from }; pos = from }

abbrev pub move : Cursor → ℕ → Cursor
move c n = record c { pos = c.pos + n }

-- `operator+=`: the size is unsigned, so a negative 16-bit offset, widened, moves the pointer back.
unfoldable pub jump : Cursor → ℕ → Cursor
jump c n = record c { pos = (c.pos + n) % two64 }

unfoldable pub finished : Cursor → Bool
finished c = leb (c.span.start + c.span.size) c.pos

-- `n` bytes, least significant first, as a number.
abbrev pub little_endian : ℕ → List ℕ → Option ℕ
little_endian zero bytes = some 0
little_endian (suc n) [] = none
little_endian (suc n) (b ∷ bytes) = elim (little_endian n bytes) [
  | none ↦ none
  | some high ↦ some (b + 256 * high)
]

unfoldable pub from_bytes : ℕ → List ℕ → ℕ → Outcome ℕ
from_bytes size image p = or_undefined (little_endian size (drop p image))

abbrev pub Reader {ℓ} : Type ℓ → Type ℓ
Reader A = Cursor → Outcome (A × Cursor)

module _ (image : List ℕ) where
  unfoldable pub fixed_int : ℕ → Reader ℕ
  unfolding from_bytes
  fixed_int size c = do v ← from_bytes size image c.pos; ok (v, move c size)

  abbrev pub u8 : Reader ℕ
  u8 = fixed_int 1

  abbrev pub u16 : Reader ℕ
  u16 = fixed_int 2

  abbrev pub u32 : Reader ℕ
  u32 = fixed_int 4

  abbrev pub u64 : Reader ℕ
  u64 = fixed_int 8

  -- The signed readers, widened to 64 bits as every use of them widens them.
  unfoldable pub signed_int : ℕ → Reader ℕ
  unfolding fixed_int
  signed_int size c = do (v, c') ← fixed_int size c; ok (sign_extend (8 * size) v, c')

  abbrev pub s8 : Reader ℕ
  s8 = signed_int 1

  abbrev pub s16 : Reader ℕ
  s16 = signed_int 2

  abbrev pub s32 : Reader ℕ
  s32 = signed_int 4

  abbrev pub s64 : Reader ℕ
  s64 = signed_int 8

-- The bytes before the first 0 among the first `left`, as `std::find` scans them.
unfoldable pub scan_string : ℕ → List ℕ → Outcome (List ℕ)
scan_string zero bytes = ok []
scan_string (suc left) [] = undefined
scan_string (suc left) (b ∷ bytes) =
    let rest = scan_string left bytes in if b == 0 then ok [] else (rest >>= λ s. ok (b ∷ s))

-- `string`: the text up to the terminator or the end of the span; the position is one further. Behind
-- the span's end there is no range for `std::find`.
unfoldable pub string : List ℕ → Reader (List ℕ)
unfolding scan_string
string image c =
    if ltb (span_end c.span) c.pos
    then undefined
    else (scan_string (span_end c.span - c.pos) (drop c.pos image) >>= λ s.
        ok (s, move c (length s + 1)))

-- What the LEB128 loops leave: the bits read, the shift, the last byte and the position.
pub record Groups : Type 0 where
  pub value : ℕ
  pub shift : ℕ
  pub last : ℕ
  pub next : ℕ

-- The `do … while` of `uleb128` and `sleb128`. A shift by 64 or more is undefined.
unfoldable pub leb_loop : List ℕ → ℕ → ℕ → ℕ → Outcome Groups
leb_loop [] res shift pos = undefined
leb_loop (byte ∷ rest) res shift pos =
    let res' = bit_or res (shl64 (bit_and byte 0x7f) shift) in
    let more = leb_loop rest res' (shift + 7) (pos + 1) in
    if ltb 63 shift
    then undefined
    else if bit_and byte 0x80 == 0
    then ok (record { value = res'; shift = shift + 7; last = byte; next = pos + 1 })
    else more

unfoldable pub uleb128 : List ℕ → Reader ℕ
uleb128 image c = do
  g ← leb_loop (drop c.pos image) 0 0 c.pos
  ok (g.value, record c { pos = g.next })

unfoldable pub sign_fill : Groups → ℕ
sign_fill g =
    if ltb g.shift 64 && not (bit_and g.last 0x40 == 0)
    then bit_or g.value (shl64 (two64 - 1) g.shift)
    else g.value

unfoldable pub sleb128 : List ℕ → Reader ℕ
unfolding sign_fill
sleb128 image c = do
  g ← leb_loop (drop c.pos image) 0 0 c.pos
  ok (sign_fill g, record c { pos = g.next })

abbrev skip_sized : Outcome (ℕ × Cursor) → Outcome Cursor
skip_sized read = do (n, c) ← read; ok (move c n)

-- The `while` of the case for `DW_FORM_string`.
unfoldable pub skip_text : ℕ → List ℕ → Outcome ℕ
skip_text zero bytes = ok 0
skip_text (suc left) [] = undefined
skip_text (suc left) (b ∷ bytes) =
    let rest = skip_text left bytes in if b == 0 then ok 0 else (rest >>= λ n. ok (suc n))

-- One call of `skip_form` on a form that is not `DW_FORM_indirect`.
unfoldable pub skip_direct : List ℕ → Form → Cursor → Outcome Cursor
unfolding skip_text
skip_direct image Form.flag_present c = ok c
skip_direct image Form.data1 c = ok (move c 1)
skip_direct image Form.ref1 c = ok (move c 1)
skip_direct image Form.flag c = ok (move c 1)
skip_direct image Form.data2 c = ok (move c 2)
skip_direct image Form.ref2 c = ok (move c 2)
skip_direct image Form.data4 c = ok (move c 4)
skip_direct image Form.ref4 c = ok (move c 4)
skip_direct image Form.ref_addr c = ok (move c 4)
skip_direct image Form.sec_offset c = ok (move c 4)
skip_direct image Form.strp c = ok (move c 4)
skip_direct image Form.data8 c = ok (move c 8)
skip_direct image Form.addr c = ok (move c 8)
skip_direct image Form.sdata c = sleb128 image c >>= λ r. ok r.1
skip_direct image Form.udata c = uleb128 image c >>= λ r. ok r.1
skip_direct image Form.ref_udata c = uleb128 image c >>= λ r. ok r.1
skip_direct image Form.block1 c = skip_sized (u8 image c)
skip_direct image Form.block2 c = skip_sized (u16 image c)
skip_direct image Form.block4 c = skip_sized (u32 image c)
skip_direct image Form.block c = skip_sized (uleb128 image c)
skip_direct image Form.exprloc c = skip_sized (uleb128 image c)
skip_direct image Form.string c =
    skip_text (span_end c.span - c.pos) (drop c.pos image) >>= λ n. ok (move c (n + 1))
skip_direct image Form.indirect c = err Error.unrecognized_form
skip_direct image Form.ref8 c = err Error.unrecognized_form
skip_direct image Form.ref_sig8 c = err Error.unrecognized_form
skip_direct image Form.other c = err Error.unrecognized_form

-- `skip_form` with its recursion on `DW_FORM_indirect`, a round for each call.
unfoldable pub skip_rounds : ℕ → List ℕ → ℕ → Cursor → Outcome Cursor
skip_rounds zero image form c = exhausted
skip_rounds (suc rounds) image form c = elim (form_of form) [
  | Form.indirect ↦ uleb128 image c >>= λ r. skip_rounds rounds image r.0 r.1
  | direct ↦ skip_direct image direct c
]

-- An indirect form takes a byte at least, so this many rounds are enough.
unfoldable pub skip_form : List ℕ → ℕ → Cursor → Outcome Cursor
skip_form image form c = skip_rounds (suc (length image - c.pos)) image form c
