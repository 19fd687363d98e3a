-- ===== src/Types/Round.antt =====
-- One round of `memcpy_bits`, bit by bit.
use gsdb.Common.{ℕ, zero, suc, ◌-◌, ◌/◌, ◌%◌, ◌^◌, ◌<◌, ◌≡◌, ◌≢◌, refl, ap, sym, ◌∙◌, arith}
use gsdb.Common.{
  Bool, true, false, ◌&&◌, bit_and, bit_or, List, [], ◌∷◌, Option, none, some, length, All,
}
use gsdb.Common.{get_elem?, set, get_elem?-set_self, get_elem?-set_ne, inl, inr}
use gsdb.Common.{ltb, ltb→lt, ◌==◌, ==_iff, ==_refl, ne→==, if◌then◌else◌, Bool-cases}
use gsdb.Common.Bits.{all_below, full_row, bit_or-lt}
use gsdb.Common.Masks.{bit_and-lt}
use gsdb.Common.TestBits.{test_bit, test_bit-bit_and, test_bit-bit_or, test_bit-lt, test_bit_ext}

-- Bit `k` of an array of bytes, counted from the lowest bit of the first byte.
abbrev bit_of : Option ℕ → ℕ → ℕ
bit_of none j = 0
bit_of (some b) j = test_bit b j

abbrev pub bit_at : List ℕ → ℕ → ℕ
bit_at bytes k = bit_of (get_elem? bytes (k / 8)) (k % 8)

abbrev pub IsBytes : List ℕ → Type 0
IsBytes = All (λ b. b < 256)

mask_table :
    all_below 8 (λ p. all_below 8 (λ j.
      (test_bit (2 ^ p) j == (if j == p then 1 else 0))
      && (test_bit (255 - 2 ^ p) j == (if j == p then 0 else 1))))
    ≡ true
unfolding all_below
mask_table = refl

both_true : (b : Bool) {c : Bool} → b && c ≡ true → (b ≡ true) × (c ≡ true)
both_true true h = (refl, h)
both_true false h = absurd (cc)

mask_row :
    (p j : ℕ)
    → p < 8
    → j < 8
    → (test_bit (2 ^ p) j ≡ (if j == p then 1 else 0))
      × (test_bit (255 - 2 ^ p) j ≡ (if j == p then 0 else 1))
mask_row p j hp hj =
    let (set_row, clear_row) = both_true _ (full_row _ 8 j hj (full_row _ 8 p hp mask_table)) in
    ((==_iff _ _).0 set_row, (==_iff _ _).0 clear_row)

zero_bit : (n : ℕ) → test_bit 0 n ≡ 0
zero_bit zero = refl
zero_bit (suc n) = zero_bit n

clash : {c : Bool} → c ≡ true → c ≡ false → ⊥
clash p q = cc

-- The test of the source bit.
source_test : (b q : ℕ) → b < 256 → q < 8 → (bit_and b (2 ^ q) == 0) ≡ (test_bit b q == 0)
source_test b q hb hq = elim (Bool-cases (test_bit b q == 0)) [
  | inl clear ↦
      (==_iff _ 0).1 (test_bit_ext 8 _ 0 (bit_and-lt 8 b (2 ^ q) hb) (omega arith) (no_bit clear))
      ∙ sym clear
  | inr is_set ↦ ne→== _ 0 (has_bit is_set) ∙ sym is_set
]
  where
    no_bit :
        (test_bit b q == 0) ≡ true → (n : ℕ) → n < 8 → test_bit (bit_and b (2 ^ q)) n ≡ test_bit 0 n
    no_bit clear n h = elim (Bool-cases (n == q)) [
      | inl here ↦
          let at : test_bit b n ≡ 0 =
            ap (test_bit b) ((==_iff n q).0 here) ∙ (==_iff _ 0).0 clear in
          omega (arith, test_bit-bit_and n b (2 ^ q), at, zero_bit n)
      | inr there ↦
          let at : test_bit (2 ^ q) n ≡ 0 = (mask_row q n hq h).0 ∙ rw there refl in
          omega (arith, test_bit-bit_and n b (2 ^ q), at, zero_bit n)
    ]

    has_bit : (test_bit b q == 0) ≡ false → bit_and b (2 ^ q) ≢ 0
    has_bit is_set e =
        let at : test_bit (2 ^ q) q ≡ 1 = (mask_row q q hq hq).0 ∙ rw (==_refl q) refl in
        let gone : test_bit (bit_and b (2 ^ q)) q ≡ 0 =
          ap (λ (t : ℕ). test_bit t q) e ∙ zero_bit q in
        let nil : test_bit b q ≡ 0 =
          omega (arith, test_bit-bit_and q b (2 ^ q), at, gone, test_bit-lt q b) in
        clash ((==_iff _ 0).1 nil) is_set

-- The byte that a round writes.
abbrev pub written : ℕ → ℕ → ℕ → ℕ → ℕ
written old p from q =
    if bit_and from (2 ^ q) == 0
    then bit_and old (255 - 2 ^ p)
    else bit_or (bit_and old (255 - 2 ^ p)) (2 ^ p)

pub written-lt : (old p from q : ℕ) → old < 256 → p < 8 → written old p from q < 256
written-lt old p from q h hp = elim (Bool-cases (bit_and from (2 ^ q) == 0)) [
  | inl clear ↦ rw clear (bit_and-lt 8 old (255 - 2 ^ p) h)
  | inr is_set ↦ rw is_set (
      bit_or-lt 8 (bit_and old (255 - 2 ^ p)) (2 ^ p) (bit_and-lt 8 old (255 - 2 ^ p) h)
        (power p hp))
]
  where
    power : (p : ℕ) → p < 8 → 2 ^ p < 2 ^ 8
    power p hp = ltb→lt _ _ (full_row _ 8 p hp table)
      where
        table : all_below 8 (λ p. ltb (2 ^ p) (2 ^ 8)) ≡ true
        table = unfold all_below in refl

written_bit :
    (old p from q j : ℕ)
    → from < 256
    → p < 8
    → q < 8
    → j < 8
    → test_bit (written old p from q) j ≡ (if j == p then test_bit from q else test_bit old j)
written_bit old p from q j hf hp hq hj =
    let (set_row, clear_row) = mask_row p j hp hj in
    let cleared = test_bit-bit_and j old (255 - 2 ^ p) in
    let bit = test_bit-lt j old in
    let source = test_bit-lt q from in
    elim (Bool-cases (j == p)) [
      | inl here ↦ elim (Bool-cases (test_bit from q == 0)) [
        | inl nil ↦
            rw (here, source_test from q hf hq, nil)
              (omega (arith, cleared, (rw here at clear_row), (==_iff _ 0).0 nil))
        | inr one ↦
            rw (here, source_test from q hf hq, one)
              (omega (
                arith,
                test_bit-bit_or j (bit_and old (255 - 2 ^ p)) (2 ^ p),
                cleared,
                (rw here at clear_row),
                (rw here at set_row),
                not_zero (test_bit from q) one,
                source,
              ))
      ]
      | inr there ↦ elim (Bool-cases (bit_and from (2 ^ q) == 0)) [
        | inl nil ↦ rw (there, nil) (omega (arith, cleared, (rw there at clear_row), bit))
        | inr one ↦
            rw (there, one)
              (omega (
                arith,
                test_bit-bit_or j (bit_and old (255 - 2 ^ p)) (2 ^ p),
                cleared,
                (rw there at clear_row),
                (rw there at set_row),
                bit,
              ))
      ]
    ]
  where
    not_zero : (x : ℕ) → (x == 0) ≡ false → 0 < x
    not_zero x h = ground arith

pub byte_at :
    (bytes : List ℕ) (i : ℕ)
    → i < length bytes
    → IsBytes bytes
    → (b : ℕ) × (get_elem? bytes i ≡ some b) × (b < 256)
byte_at [] i h are = absurd (omega arith)
byte_at (b ∷ bytes) zero h are = (b, refl, are.0)
byte_at (b ∷ bytes) (suc i) h are = byte_at bytes i (omega arith) are.1

pub set-IsBytes : (bytes : List ℕ) (i v : ℕ) → v < 256 → IsBytes bytes → IsBytes (set bytes i v)
set-IsBytes [] i v h are = tt
set-IsBytes (b ∷ bytes) zero v h are = (h, are.1)
set-IsBytes (b ∷ bytes) (suc i) v h are = (are.0, set-IsBytes bytes i v h are.1)

-- The bits after one round.
pub round_bit :
    (dest src : List ℕ) (d s k old from : ℕ)
    → d / 8 < length dest
    → get_elem? dest (d / 8) ≡ some old
    → get_elem? src (s / 8) ≡ some from
    → from < 256
    → bit_at (set dest (d / 8) (written old (d % 8) from (s % 8))) k
      ≡ (if k == d then bit_at src s else bit_at dest k)
round_bit dest src d s k old from inside is_old is_from hf = elim (Bool-cases (k / 8 == d / 8)) [
  | inl same ↦
      let index : k / 8 ≡ d / 8 = (==_iff _ _).0 same in
      let new = written old (d % 8) from (s % 8) in
      let source : bit_at src s ≡ test_bit from (s % 8) = rw is_from refl in
      let before : bit_at dest k ≡ test_bit old (k % 8) = rw (index, is_old) refl in
      let after : bit_at (set dest (d / 8) new) k ≡ test_bit new (k % 8) =
        rw (index, get_elem?-set_self dest (d / 8) new inside) refl in
      after
      ∙ written_bit old (d % 8) from (s % 8) (k % 8) hf (omega arith) (omega arith) (omega arith)
      ∙ chosen index (sym source) (sym before)
  | inr apart ↦
      let other : (k == d) ≡ false =
        ne→== k d (λ e. clash ((==_iff _ _).1 (ap (λ (t : ℕ). t / 8) e)) apart) in
      rw other (
        ap (λ o. bit_of o (k % 8))
          (get_elem?-set_ne dest (d / 8) (k / 8) _ (λ e. clash ((==_iff _ _).1 (sym e)) apart)))
]
  where
    chosen :
        {x y x' y' : ℕ}
        → k / 8 ≡ d / 8
        → x ≡ x'
        → y ≡ y'
        → (if k % 8 == d % 8 then x else y) ≡ (if k == d then x' else y')
    chosen index p q = ground (arith, index, p, q)
