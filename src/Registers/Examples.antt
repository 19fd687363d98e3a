-- ===== src/Registers/Examples.antt =====
-- Writes to `rax`, its parts and `rbx` of src/registers.cpp, on a user area of sixteen bytes.
use gsdb.Common.{ℕ, ◌≡◌, inl, refl, arith, List, [], ◌∷◌, ◌++◌, replicate}
use gsdb.Common.{ok, err, Error, ◌>>=◌}
use gsdb.Registers.{
  RegisterType, RegisterFormat, RegisterInfo, ValueType, Value, Registers, read_type, read,
  is_undefined, undefine, write_bytes, write, Commit,
}
use gsdb.Registers.Written.{read-write, read-write_elsewhere}

abbrev general : ℕ → ℕ → ℕ → RegisterInfo
general id size offset = record {
  id = id;
  dwarf_id = id;
  size = size;
  offset = offset;
  type = RegisterType.gpr;
  format = RegisterFormat.uint;
}

-- `rax` at 0, with its parts `eax` and `ah`, and `rbx` at 8.
abbrev rax : RegisterInfo
rax = general 0 8 0

abbrev eax : RegisterInfo
eax = general 1 4 0

abbrev ah : RegisterInfo
ah = general 2 1 1

abbrev rbx : RegisterInfo
rbx = general 3 8 8

abbrev as_it_is : RegisterFormat → Value → List ℕ
as_it_is format v = v.bytes

abbrev empty_area : Registers
empty_area = record { bytes = replicate 16 7; undefined_offsets = [] }

abbrev one : Value
one = record { type = ValueType.uint64; bytes = 1 ∷ replicate 7 0 }

abbrev minus_two : Value
minus_two = record { type = ValueType.int8; bytes = 254 ∷ [] }

-- A signed byte is extended to the register; the committed word holds its neighbours too.
signed_byte_extended :
    write as_it_is eax minus_two empty_area
    ≡ ok (
      record { bytes = 254 ∷ replicate 3 255 ++ replicate 12 7; undefined_offsets = [] },
      Commit.word 0 (254 ∷ replicate 3 255 ++ replicate 4 7),
    )
unfolding write
signed_byte_extended = refl

-- A register is undefined with the one that contains it.
undefined_part : read ah (undefine rax empty_area) ≡ err Error.register_undefined
unfolding read undefine
undefined_part = refl

read-write_example : (write_bytes as_it_is rax one empty_area >>= read rax) ≡ ok one
unfolding read_type is_undefined
read-write_example = read-write as_it_is rax one empty_area refl refl refl refl refl (omega arith)

read-write_elsewhere_example :
    (write_bytes as_it_is rbx minus_two empty_area >>= read ah) ≡ read ah empty_area
unfolding read_type
read-write_elsewhere_example =
    read-write_elsewhere as_it_is rbx ah ValueType.uint8 minus_two empty_area (omega arith)
      (omega arith) refl (inl (omega arith))
