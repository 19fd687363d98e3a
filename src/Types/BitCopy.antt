-- ===== src/Types/BitCopy.antt =====
-- `memcpy_bits` against the bits of the two arrays.
use gsdb.Common.{ℕ, zero, suc, ◌+◌, ◌-◌, ◌*◌, ◌/◌, ◌%◌, ◌≤◌, ◌<◌, ◌≡◌, refl, ◌∙◌, arith}
use gsdb.Common.{true, false, ◌&&◌, List, length}
use gsdb.Common.{set, length-set, inl, inr}
use gsdb.Common.{ltb, leb, ◌==◌, ==_iff, if◌then◌else◌, Bool-cases}
use gsdb.Common.{ok}
use gsdb.Types.{copy_bit, memcpy_bits}
use gsdb.Types.Round.{bit_at, IsBytes, byte_at, set-IsBytes, written, written-lt, round_bit}

-- An array of the same length in which `n` bits from `d` on are those of the source from `s` on.
pub record Copied (dest src : List ℕ) (d s n : ℕ) (dest' : List ℕ) : Type 0 where
  pub len : length dest' ≡ length dest
  pub bytes : IsBytes dest'
  pub bits :
      (k : ℕ)
      → bit_at dest' k
        ≡ (if leb d k && ltb k (d + n) then bit_at src (s + (k - d)) else bit_at dest k)

first_round :
    (dest src : List ℕ) (d s : ℕ)
    → d / 8 < length dest
    → s / 8 < length src
    → IsBytes dest
    → IsBytes src
    → (dest' : List ℕ) × (copy_bit dest d src s ≡ ok dest')
      × (length dest' ≡ length dest)
      × IsBytes dest'
      × ((k : ℕ) → bit_at dest' k ≡ (if k == d then bit_at src s else bit_at dest k))
unfolding copy_bit
first_round dest src d s hd hs are_dest are_src =
    let (old, is_old, old_lt) = byte_at dest (d / 8) hd are_dest in
    let (from, is_from, from_lt) = byte_at src (s / 8) hs are_src in
    let new = written old (d % 8) from (s % 8) in
    (
      set dest (d / 8) new,
      simp (is_old, is_from),
      length-set dest (d / 8) new,
      set-IsBytes dest (d / 8) new (written-lt old (d % 8) from (s % 8) old_lt (omega arith))
          are_dest,
      λ k. round_bit dest src d s k old from hd is_old is_from from_lt,
    )

-- Where both ranges lie in their arrays of bytes, which are different arrays, and end at a bit
-- position below 2^32, `memcpy_bits` returns an array of bytes of the same length in which the bits
-- of the range are the source's bits, in their order, and every other bit is as before, also in the
-- bytes that the range covers in part.
pub memcpy_bits-Copied :
    (n : ℕ) (dest src : List ℕ) (d s : ℕ)
    → d + n ≤ 8 * length dest
    → s + n ≤ 8 * length src
    → d + n < 4294967296
    → s + n < 4294967296
    → IsBytes dest
    → IsBytes src
    → (dest' : List ℕ) × (memcpy_bits dest d src s n ≡ ok dest') × Copied dest src d s n dest'
unfolding memcpy_bits
memcpy_bits-Copied zero dest src d s hd hs wd ws are_dest are_src =
    (dest, refl, record { len = refl; bytes = are_dest; bits = λ k. none_copied k })
  where
    none_copied :
        (k : ℕ)
        → bit_at dest k
          ≡ (if leb d k && ltb k (d + 0) then bit_at src (s + (k - d)) else bit_at dest k)
    none_copied k = rw (empty k) refl
      where
        empty : (k : ℕ) → leb d k && ltb k (d + 0) ≡ false
        empty k = ground arith
memcpy_bits-Copied (suc n) dest src d s hd hs wd ws are_dest are_src =
    let (dest1, run, len1, are1, first) =
      first_round dest src d s (omega arith) (omega arith) are_dest are_src in
    let (dest2, rest, copied) =
      memcpy_bits-Copied n dest1 src (d + 1) (s + 1) (omega (arith, len1)) (omega arith)
        (omega arith) (omega arith) are1 are_src in
    let next_d : (d + 1) % 4294967296 ≡ d + 1 = omega arith in
    let next_s : (s + 1) % 4294967296 ≡ s + 1 = omega arith in
    (
      dest2,
      simp (run, next_d, next_s, rest),
      record {
        len = copied.len ∙ len1;
        bytes = copied.bytes;
        bits = λ k. copied.bits k ∙ joined k (bit_at dest1 k) (first k);
      },
    )
  where
    joined :
        (k b : ℕ)
        → b ≡ (if k == d then bit_at src s else bit_at dest k)
        → (if leb (d + 1) k && ltb k (d + 1 + n) then bit_at src (s + 1 + (k - (d + 1))) else b)
          ≡ (if leb d k && ltb k (d + suc n) then bit_at src (s + (k - d)) else bit_at dest k)
    joined k b h = elim (Bool-cases (k == d)) [
      | inl here ↦
          let is_d = (==_iff k d).0 here in
          let first : s + (k - d) ≡ s = omega (arith, is_d) in
          rw (starts is_d, begins is_d, first) (rw here at h)
      | inr there ↦ elim (Bool-cases (leb d k && ltb k (d + suc n))) [
        | inl inside ↦ rw (later there ∙ inside, inside, offset there inside) refl
        | inr outside ↦ rw (later there ∙ outside, outside) (rw there at h)
      ]
    ]
      where
        starts : k ≡ d → leb (d + 1) k && ltb k (d + 1 + n) ≡ false
        starts e = ground (arith, e)

        begins : k ≡ d → leb d k && ltb k (d + suc n) ≡ true
        begins e = ground (arith, e)

        later : (k == d) ≡ false → leb (d + 1) k && ltb k (d + 1 + n) ≡ leb d k && ltb k (d + suc n)
        later p = ground arith

        offset :
            (k == d) ≡ false
            → leb d k && ltb k (d + suc n) ≡ true
            → s + 1 + (k - (d + 1)) ≡ s + (k - d)
        offset p q = ground arith
