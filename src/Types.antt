-- ===== src/Types.antt =====
-- Values and their classes: `memcpy_bits` of include/libgsdb/bit.hpp, bit fields in src/dwarf.cpp, and
-- the classes of parameters in src/type.cpp.
pub mod Round
pub mod BitCopy
mod Examples
use gsdb.Common.{
  ℕ, zero, suc, ◌+◌, ◌-◌, ◌*◌, ◌/◌, ◌%◌, ◌^◌, bit_and, bit_or, Bool, true, false, not,
}
use gsdb.Common.{List, Option, none, some, get_elem?, set, replicate, ◌&&◌, ◌==◌, if◌then◌else◌}
use gsdb.Common.{Outcome, ok, or_undefined, ◌>>=◌}
use gsdb.Common.Word.{sub64, mul64}
use gsdb.Dwarf.Die.{Die, contains, attribute_of}
use gsdb.Dwarf.Die.Values.{as_int}
use gsdb.Dwarf.Die.At

-- `parameter_class`.
pub data ParameterClass : Type 0 where
  integer sse sseup x87 x87up complex_x87 memory no_class : ParameterClass

-- `merge_parameter_classes`: what one class makes of another, by the order of its tests.
unfoldable pub merge_parameter_classes : ParameterClass → ParameterClass → ParameterClass
merge_parameter_classes ParameterClass.no_class rhs = rhs
merge_parameter_classes lhs ParameterClass.no_class = lhs
merge_parameter_classes ParameterClass.memory rhs = ParameterClass.memory
merge_parameter_classes lhs ParameterClass.memory = ParameterClass.memory
merge_parameter_classes ParameterClass.integer rhs = ParameterClass.integer
merge_parameter_classes lhs ParameterClass.integer = ParameterClass.integer
merge_parameter_classes ParameterClass.x87 ParameterClass.x87 = ParameterClass.x87
merge_parameter_classes ParameterClass.x87up ParameterClass.x87up = ParameterClass.x87up
merge_parameter_classes ParameterClass.complex_x87 ParameterClass.complex_x87 =
    ParameterClass.complex_x87
merge_parameter_classes ParameterClass.sseup ParameterClass.sseup = ParameterClass.sseup
merge_parameter_classes ParameterClass.sse ParameterClass.sse = ParameterClass.sse
merge_parameter_classes ParameterClass.sse ParameterClass.sseup = ParameterClass.sse
merge_parameter_classes ParameterClass.sseup ParameterClass.sse = ParameterClass.sse
merge_parameter_classes lhs rhs = ParameterClass.memory

-- One round of `memcpy_bits`: the bit is cleared, and set where the source has it.
unfoldable pub copy_bit : List ℕ → ℕ → List ℕ → ℕ → Outcome (List ℕ)
copy_bit dest dest_bit src src_bit = do
  old ← or_undefined (get_elem? dest (dest_bit / 8))
  from ← or_undefined (get_elem? src (src_bit / 8))
  let dest_mask = 2 ^ (dest_bit % 8)
  let cleared = bit_and old (255 - dest_mask)
  let new = (if bit_and from (2 ^ (src_bit % 8)) == 0 then cleared else bit_or cleared dest_mask)
  ok (set dest (dest_bit / 8) new)

-- `memcpy_bits`, with 32-bit positions.
unfoldable pub memcpy_bits : List ℕ → ℕ → List ℕ → ℕ → ℕ → Outcome (List ℕ)
unfolding copy_bit
memcpy_bits dest dest_bit src src_bit zero = ok dest
memcpy_bits dest dest_bit src src_bit (suc n_bits) = copy_bit dest dest_bit src src_bit >>= λ dest'.
    memcpy_bits dest' ((dest_bit + 1) % 4294967296) src ((src_bit + 1) % 4294967296) n_bits

-- `bitfield_information`.
pub record BitfieldInformation : Type 0 where
  pub bit_size : ℕ
  pub storage_byte_size : ℕ
  pub bit_offset : ℕ

module _ (image : List ℕ) where
  abbrev int_of : Die → ℕ → Outcome ℕ
  int_of d attribute = attribute_of d attribute >>= as_int image

  -- `get_bitfield_information`: the offset is 8 bits wide.
  unfoldable pub get_bitfield_information : Die → ℕ → Outcome (Option BitfieldInformation)
  get_bitfield_information d class_byte_size = do
    from_msb ← contains d At.bit_offset
    from_start ← contains d At.data_bit_offset
    sized ← contains d At.byte_size
    let found = (do
      bit_size ← int_of d At.bit_size
      storage ← (if sized then int_of d At.byte_size else ok class_byte_size)
      first ←
          (if from_msb
            then (int_of d At.bit_offset >>= λ offset_field.
                ok (sub64 (sub64 (mul64 storage 8) offset_field) bit_size % 256))
            else ok 0)
      bit_offset ←
          (if from_start then (int_of d At.data_bit_offset >>= λ n. ok (n % 8)) else ok first)
      ok (
          some
            (record { bit_size = bit_size; storage_byte_size = storage; bit_offset = bit_offset })))
    if not from_msb && not from_start then ok none else found

  -- `fixup_bitfield`, on the data of a member and the size of its type without qualifiers.
  unfoldable pub fixup_bitfield : Die → ℕ → List ℕ → Outcome (List ℕ)
  unfolding get_bitfield_information memcpy_bits
  fixup_bitfield member_die byte_size data_bytes =
      get_bitfield_information member_die byte_size >>= λ info. elim info [
        | none ↦ ok data_bytes
        | some i ↦
            memcpy_bits (replicate i.storage_byte_size 0) 0 data_bytes i.bit_offset
              (i.bit_size % 4294967296)
      ]
