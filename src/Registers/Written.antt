-- ===== src/Registers/Written.antt =====
-- `write` and then `read` of src/registers.cpp: a value of the register's own type is read back, and
-- a register whose bytes are elsewhere reads as before.
use gsdb.Common.{ℕ, zero, suc, ◌+◌, ◌≤◌, ◌≡◌, ◌⊎◌, inl, inr, refl, sym, ap, arith}
use gsdb.Common.{true, false, leb}
use gsdb.Common.{List, [], ◌∷◌, ◌++◌, length, take, drop, ok, ◌>>=◌}
use gsdb.Common.{ok-injective}
use gsdb.Registers.Slices.{
  splice, length-splice, slice-splice, slice-splice_before, drop-splice_after,
}
use gsdb.Registers.{
  RegisterFormat, RegisterInfo, ValueType, Value, Registers, size_of, type_of, read_type, read,
  is_undefined, bytes_at, is_signed, to_byte128, widen_to, widen, write_bytes,
}

le→leb : (a b : ℕ) → (a ≤ b) → leb a b ≡ true
le→leb a b h = ground arith

type_of-Unsigned :
    (format : RegisterFormat) (size : ℕ) (type : ValueType)
    → type_of format size ≡ ok type
    → is_signed type ≡ false
type_of-Unsigned RegisterFormat.uint size type e = ground arith
type_of-Unsigned RegisterFormat.double_float size type e = ap is_signed (sym (ok-injective e))
type_of-Unsigned RegisterFormat.long_double size type e = ap is_signed (sym (ok-injective e))
type_of-Unsigned RegisterFormat.vector size type e = ground arith

length-take_le : (n : ℕ) (xs : List ℕ) → length (take n xs) ≤ n
length-take_le zero xs = omega arith
length-take_le (suc n) [] = omega arith
length-take_le (suc n) (x ∷ xs) = omega (arith, length-take_le n xs)

take-append_self : (bs cs : List ℕ) → take (length bs) (bs ++ cs) ≡ bs
take-append_self [] cs = refl
take-append_self (b ∷ bs) cs = ap (λ r. b ∷ r) (take-append_self bs cs)

module _ (convert : RegisterFormat → Value → List ℕ) where
  -- A value of the type that the register is read at is only padded.
  widen_to-own :
      (format : RegisterFormat) (size : ℕ) (v : Value)
      → type_of format size ≡ ok v.type
      → convert format v ≡ v.bytes
      → widen_to convert format size v ≡ to_byte128 v.bytes
  widen_to-own RegisterFormat.uint size v e c =
      rw (type_of-Unsigned RegisterFormat.uint size v.type e) refl
  widen_to-own RegisterFormat.vector size v e c = refl
  widen_to-own RegisterFormat.double_float size v e c = ground (arith, c)
  widen_to-own RegisterFormat.long_double size v e c = ground (arith, c)

  stored :
      (info : RegisterInfo) (v : Value)
      → read_type info ≡ ok v.type
      → length v.bytes ≡ info.size
      → convert info.format v ≡ v.bytes
      → take info.size (widen convert info v) ≡ v.bytes
  unfolding read_type widen
  stored info v e sized c =
      rw (widen_to-own info.format info.size v e c, sym sized) (take-append_self v.bytes _)

  -- On a register that is not undefined and lies in the user area, a value of the type that the
  -- register is read at, and of its size, is written, and `read` then returns that value, where
  -- the conversion of a value to its own format leaves its bytes.
  pub read-write :
      (info : RegisterInfo) (v : Value) (r : Registers)
      → read_type info ≡ ok v.type
      → size_of v.type ≡ info.size
      → length v.bytes ≡ info.size
      → is_undefined info r ≡ false
      → convert info.format v ≡ v.bytes
      → (info.offset + info.size ≤ length r.bytes)
      → (write_bytes convert info v r >>= read info) ≡ ok v
  unfolding read_type write_bytes read is_undefined bytes_at widen
  read-write info v r e size sized defined c inside =
      rw
        (
          le→leb (size_of v.type) info.size (omega (arith, size)),
          le→leb _ _ inside,
          stored info v e sized c,
          defined,
          e,
          size,
          length-splice r.bytes info.offset v.bytes,
          le→leb _ _ inside,
        )
        (ap (λ bs. ok (record { type = v.type; bytes = bs }))
          (rw (sym sized) (slice-splice r.bytes info.offset v.bytes (rw sized inside))))

  -- The bytes elsewhere are the same, read by any type.
  slice_elsewhere :
      (xs : List ℕ) (o : ℕ) (bs : List ℕ) (size p n : ℕ)
      → (length bs ≤ size)
      → (p + n ≤ o) ⊎ (o + size ≤ p)
      → take n (drop p (splice xs o bs)) ≡ take n (drop p xs)
  slice_elsewhere xs o bs size p n short (inl before) = slice-splice_before xs o bs p n before
  slice_elsewhere xs o bs size p n short (inr after) =
      ap (take n) (drop-splice_after xs o bs p (omega (arith, short, after)))

  -- Where a value that is not larger than its register is written inside the user area, another
  -- register, whose bytes end before the written ones or start behind them, reads as before: the
  -- same value, or the error that it is undefined.
  pub read-write_elsewhere :
      (info other : RegisterInfo) (type : ValueType) (v : Value) (r : Registers)
      → (size_of v.type ≤ info.size)
      → (info.offset + info.size ≤ length r.bytes)
      → read_type other ≡ ok type
      → (other.offset + size_of type ≤ info.offset) ⊎ (info.offset + info.size ≤ other.offset)
      → (write_bytes convert info v r >>= read other) ≡ read other r
  unfolding read_type write_bytes read is_undefined bytes_at
  read-write_elsewhere info other type v r fits inside e apart =
      rw
        (
          le→leb (size_of v.type) info.size fits,
          le→leb _ _ inside,
          e,
          length-splice r.bytes info.offset (take info.size (widen convert info v)),
          slice_elsewhere r.bytes info.offset (take info.size (widen convert info v)) info.size
              other.offset (size_of type) (length-take_le info.size (widen convert info v)) apart,
        )
        refl
