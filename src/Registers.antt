-- ===== src/Registers.antt =====
-- `registers` of src/registers.cpp and include/libgsdb/registers.hpp, over the descriptions of
-- include/libgsdb/register_info.hpp: the user area of a thread as bytes.
pub mod Slices
pub mod Written
mod Examples
use gsdb.Common.{
  ℕ, ◌+◌, ◌-◌, ◌/◌, ◌*◌, Bool, true, false, ◌==◌, leb, ltb, ◌||◌, ◌&&◌, if◌then◌else◌,
}
use gsdb.Common.{List, [], ◌∷◌, ◌++◌, length, take, drop, replicate, switch_on}
use gsdb.Common.{Outcome, ok, err, undefined, Error, guard, or_undefined, ◌>>=◌, ◌>>◌}
use gsdb.Registers.Slices.{splice}

pub data RegisterType : Type 0 where
  gpr sub_gpr fpr dr : RegisterType

pub data RegisterFormat : Type 0 where
  uint double_float long_double vector : RegisterFormat

-- `register_info`, without the name; -1 is the pattern of 32 bits.
pub record RegisterInfo : Type 0 where
  pub id : ℕ
  pub dwarf_id : ℕ
  pub size : ℕ
  pub offset : ℕ
  pub type : RegisterType
  pub format : RegisterFormat

-- The alternatives of `registers::value`, and the size of each.
pub data ValueType : Type 0 where
  uint8 uint16 uint32 uint64 int8 int16 int32 int64 : ValueType
  float32 float64 float80 byte64 byte128 : ValueType

abbrev pub size_of : ValueType → ℕ
size_of ValueType.uint8 = 1
size_of ValueType.uint16 = 2
size_of ValueType.uint32 = 4
size_of ValueType.uint64 = 8
size_of ValueType.int8 = 1
size_of ValueType.int16 = 2
size_of ValueType.int32 = 4
size_of ValueType.int64 = 8
size_of ValueType.float32 = 4
size_of ValueType.float64 = 8
size_of ValueType.float80 = 16
size_of ValueType.byte64 = 8
size_of ValueType.byte128 = 16

-- A value by its bytes, least significant first.
pub record Value : Type 0 where
  pub type : ValueType
  pub bytes : List ℕ

-- `data_` and `undefined_`.
pub record Registers : Type 0 where
  pub bytes : List ℕ
  pub undefined_offsets : List ℕ

abbrev pub is_listed : ℕ → List ℕ → Bool
is_listed n [] = false
is_listed n (m ∷ ms) = m == n || is_listed n ms

-- `undefine` and `is_undefined`, on the description that the id names. A register at an odd offset
-- counts as the one that contains it.
unfoldable pub undefine : RegisterInfo → Registers → Registers
undefine info r = record r { undefined_offsets = r.undefined_offsets ++ (info.offset / 2 ∷ []) }

unfoldable pub is_undefined : RegisterInfo → Registers → Bool
is_undefined info r = is_listed (info.offset / 2) r.undefined_offsets

-- `from_bytes` at an offset of the user area.
unfoldable pub bytes_at : ℕ → ℕ → List ℕ → Outcome (List ℕ)
bytes_at offset size bytes =
    if leb (offset + size) (length bytes) then ok (take size (drop offset bytes)) else undefined

abbrev pub value_at : ValueType → RegisterInfo → Registers → Outcome Value
value_at type info r = bytes_at info.offset (size_of type) r.bytes >>= λ bytes.
    ok (record { type = type; bytes = bytes })

-- The type that is read, by the format and the size.
abbrev pub type_of : RegisterFormat → ℕ → Outcome ValueType
type_of RegisterFormat.uint size = switch_on size (err Error.unexpected_register_size) (
    (1, ok ValueType.uint8)
    ∷ (2, ok ValueType.uint16)
    ∷ (4, ok ValueType.uint32)
    ∷ (8, ok ValueType.uint64)
    ∷ [])
type_of RegisterFormat.double_float size = ok ValueType.float64
type_of RegisterFormat.long_double size = ok ValueType.float80
type_of RegisterFormat.vector size = if size == 8 then ok ValueType.byte64 else ok ValueType.byte128

unfoldable pub read_type : RegisterInfo → Outcome ValueType
read_type info = type_of info.format info.size

-- `read`.
unfoldable pub read : RegisterInfo → Registers → Outcome Value
unfolding is_undefined read_type bytes_at
read info r =
    if is_undefined info r
    then err Error.register_undefined
    else (read_type info >>= λ type. value_at type info r)

abbrev pub is_signed : ValueType → Bool
is_signed ValueType.int8 = true
is_signed ValueType.int16 = true
is_signed ValueType.int32 = true
is_signed ValueType.int64 = true
is_signed type = false

abbrev pub is_floating : ValueType → Bool
is_floating ValueType.float32 = true
is_floating ValueType.float64 = true
is_floating ValueType.float80 = true
is_floating type = false

-- The byte that the sign of a value repeats.
abbrev sign_byte : List ℕ → ℕ
sign_byte [] = 0
sign_byte (b ∷ []) = if ltb b 128 then 0 else 255
sign_byte (b ∷ bytes) = sign_byte bytes

-- `to_byte128`: zeros after the value.
abbrev pub to_byte128 : List ℕ → List ℕ
to_byte128 bytes = bytes ++ replicate (16 - length bytes) 0

-- The word that `write` sends to the inferior, or all floating-point registers.
pub data Commit : Type 0 where
  fprs : Commit
  word : ℕ → List ℕ → Commit

-- `convert` is the compiler's conversion of a floating-point value to that of a format.
module _ (convert : RegisterFormat → Value → List ℕ) where
  -- The anonymous `widen`: signed values are extended to the size of an integer register.
  abbrev pub widen_to : RegisterFormat → ℕ → Value → List ℕ
  widen_to RegisterFormat.uint size v =
      if is_signed v.type && (size == 2 || size == 4 || size == 8)
      then to_byte128 (take size (v.bytes ++ replicate size (sign_byte v.bytes)))
      else to_byte128 v.bytes
  widen_to RegisterFormat.vector size v = to_byte128 v.bytes
  widen_to format size v = to_byte128 (if is_floating v.type then convert format v else v.bytes)

  unfoldable pub widen : RegisterInfo → Value → List ℕ
  widen info v = widen_to info.format info.size v

  -- `write` on the user area. A value that is too large ends the program.
  unfoldable pub write_bytes : RegisterInfo → Value → Registers → Outcome Registers
  unfolding widen
  write_bytes info v r =
      guard (leb (size_of v.type) info.size) Error.size_mismatch
      >> (if leb (info.offset + info.size) (length r.bytes)
          then ok (record r { bytes = splice r.bytes info.offset (take info.size (widen info v)) })
          else undefined)

  -- What is committed: the aligned word that the register starts in.
  unfoldable pub committed : RegisterInfo → Registers → Outcome Commit
  unfolding bytes_at
  committed info r = elim info.type [
    | RegisterType.fpr ↦ ok Commit.fprs
    | type ↦
        let aligned_offset = info.offset / 8 * 8 in
        bytes_at aligned_offset 8 r.bytes >>= λ bytes. ok (Commit.word aligned_offset bytes)
  ]

  unfoldable pub write : RegisterInfo → Value → Registers → Outcome (Registers × Commit)
  unfolding write_bytes committed
  write info v r = write_bytes info v r >>= λ r'. committed info r' >>= λ commit. ok (r', commit)
