-- ===== src/Process/DebugRegisters/Free.antt =====
-- `find_free_stoppoint_register`: the first register that is not enabled.
use gsdb.Common.{ℕ, zero, suc, ◌+◌, ◌*◌, ◌^◌, ◌≤◌, ◌<◌, ◌≡◌, refl, ap, sym, ◌∙◌, arith, inl, inr}
use gsdb.Common.{Bool, true, false, ◌==◌, if◌then◌else◌, Bool-cases, ==_iff, bit_and}
use gsdb.Common.{Outcome, ok, err, undefined, exhausted, Error}
use gsdb.Common.Masks.{bit_and-lt}
use gsdb.Common.Bits.{all_below, full_row}
use gsdb.Common.TestBits.{test_bit, test_bit-bit_and, test_bit-lt, test_bit_ext}
use Prim.Native.Nat.{min}
use gsdb.Process.DebugRegisters.{enable_bits, free_from, find_free_stoppoint_register}

-- Whether a control word enables a register: one of its two bits is set.
abbrev pub is_free : ℕ → ℕ → Bool
is_free control i =
    if test_bit control (2 * i) == 0 then test_bit control (2 * i + 1) == 0 else false

mask_table :
    all_below 4 (λ i. all_below 64 (λ n.
      test_bit (enable_bits i) n == (if n == 2 * i then 1 else if n == 2 * i + 1 then 1 else 0)))
    ≡ true
unfolding all_below
mask_table = refl

mask_bit :
    (i n : ℕ)
    → i < 4
    → n < 64
    → test_bit (enable_bits i) n ≡ (if n == 2 * i then 1 else if n == 2 * i + 1 then 1 else 0)
mask_bit i n hi hn = (==_iff _ _).0 (full_row _ 64 n hn (full_row _ 4 i hi mask_table))

zero_bit : (n : ℕ) → test_bit 0 n ≡ 0
zero_bit zero = refl
zero_bit (suc n) = zero_bit n

-- What the search from a register on may return: the first register that is free.
abbrev pub FirstFree : ℕ → ℕ → ℕ → Outcome ℕ → Type 0
FirstFree control left i (ok f) =
    (i ≤ f)
    × (f < i + left)
    × (is_free control f ≡ true)
    × ((j : ℕ) → i ≤ j → j < f → is_free control j ≡ false)
FirstFree control left i (err e) =
    (e ≡ Error.no_free_debug_register)
    × ((j : ℕ) → i ≤ j → j < i + left → is_free control j ≡ false)
FirstFree control left i r = ⊥

module _ (control : ℕ) (fits : control < 2 ^ 64) where
  masked : ℕ → ℕ → ℕ
  masked i n = min (test_bit control n) (test_bit (enable_bits i) n)

  masked_bit : (i n : ℕ) → test_bit (bit_and control (enable_bits i)) n ≡ masked i n
  unfolding masked
  masked_bit i n = test_bit-bit_and n control (enable_bits i)

  pair_zero :
      (i : ℕ)
      → is_free control i ≡ true
      → (test_bit control (2 * i) ≡ 0) × (test_bit control (2 * i + 1) ≡ 0)
  pair_zero i free = ground arith

  free_masked : (i n : ℕ) → i < 4 → n < 64 → is_free control i ≡ true → masked i n ≡ 0
  unfolding masked
  free_masked i n hi hn free =
      let (even, odd) = pair_zero i free in
      elim (Bool-cases (n == 2 * i)) [
        | inl first ↦
            let at : test_bit control n ≡ 0 =
              ap (test_bit control) ((==_iff n (2 * i)).0 first) ∙ even in
            omega (arith, at)
        | inr not_first ↦ elim (Bool-cases (n == 2 * i + 1)) [
          | inl second ↦
              let at : test_bit control n ≡ 0 =
                ap (test_bit control) ((==_iff n (2 * i + 1)).0 second) ∙ odd in
              omega (arith, at)
          | inr not_second ↦
              let at : test_bit (enable_bits i) n ≡ 0 =
                mask_bit i n hi hn ∙ rw (not_first, not_second) refl in
              ap (min (test_bit control n)) at ∙ omega arith
        ]
      ]

  set_pair :
      (i : ℕ)
      → i < 4
      → (test_bit (enable_bits i) (2 * i) ≡ 1) × (test_bit (enable_bits i) (2 * i + 1) ≡ 1)
  set_pair i hi = (
    mask_bit i (2 * i) hi (omega arith) ∙ ground arith,
    mask_bit i (2 * i + 1) hi (omega arith) ∙ ground arith,
  )

  zero_masked : (i n : ℕ) → bit_and control (enable_bits i) ≡ 0 → masked i n ≡ 0
  zero_masked i n e = sym (masked_bit i n) ∙ ap (λ (t : ℕ). test_bit t n) e ∙ zero_bit n

  used_test : (i : ℕ) → i < 4 → bit_and control (enable_bits i) ≡ 0 → is_free control i ≡ true
  unfolding masked
  used_test i hi e =
      let (first, second) = set_pair i hi in
      let even : test_bit control (2 * i) ≡ 0 =
        omega (arith, zero_masked i (2 * i) e, first, test_bit-lt (2 * i) control) in
      let odd : test_bit control (2 * i + 1) ≡ 0 =
        omega (arith, zero_masked i (2 * i + 1) e, second, test_bit-lt (2 * i + 1) control) in
      rw (even, odd) refl

  -- The test of the loop reads the two bits.
  free_test : (i : ℕ) → i < 4 → (bit_and control (enable_bits i) == 0) ≡ is_free control i
  free_test i hi = elim (Bool-cases (is_free control i)) [
    | inl free ↦
        (==_iff _ 0).1 (
          test_bit_ext 64 _ 0 (bit_and-lt 64 control (enable_bits i) fits) (omega arith)
            (λ n h. masked_bit i n ∙ free_masked i n hi h free ∙ sym (zero_bit n)))
        ∙ sym free
    | inr used ↦ elim (Bool-cases (bit_and control (enable_bits i) == 0)) [
      | inl clear ↦ absurd (clash (used_test i hi ((==_iff _ 0).0 clear)) used)
      | inr other ↦ other ∙ sym used
    ]
  ]
    where
      clash : {b : Bool} → b ≡ true → b ≡ false → ⊥
      clash p q = cc

  used_from :
      (i end : ℕ)
      → is_free control i ≡ false
      → ((j : ℕ) → i + 1 ≤ j → j < end → is_free control j ≡ false)
      → (j : ℕ) → i ≤ j
      → j < end
      → is_free control j ≡ false
  used_from i end used others j low high = elim (Bool-cases (i == j)) [
    | inl here ↦ ap (is_free control) (sym ((==_iff i j).0 here)) ∙ used
    | inr behind ↦ others j (ground arith) high
  ]

  extend :
      (left i : ℕ) (r : Outcome ℕ)
      → is_free control i ≡ false
      → FirstFree control left (i + 1) r
      → FirstFree control (suc left) i r
  extend left i (ok f) used (low, high, free, others) =
      (omega arith, omega arith, free, used_from i f used others)
  extend left i (err e) used (is_e, others) =
      (is_e, used_from i (i + suc left) used (λ j low high. others j low (omega arith)))
  extend left i undefined used h = h
  extend left i exhausted used h = h

  free_from-FirstFree :
      (left i : ℕ) → i + left ≤ 4 → FirstFree control left i (free_from left i control)
  unfolding free_from
  free_from-FirstFree zero i h = (refl, λ j low high. absurd (omega arith))
  free_from-FirstFree (suc left) i h = elim (Bool-cases (is_free control i)) [
    | inl free ↦
        rw (free_test i (omega arith), free)
          ((omega arith, omega arith, free, λ j low high. absurd (omega arith)))
    | inr used ↦
        rw (free_test i (omega arith), used)
          (extend left i (free_from left (i + 1) control) used
            (free_from-FirstFree left (i + 1) (omega arith)))
  ]

  -- The search of `find_free_stoppoint_register` returns the first of the four registers that the
  -- control word enables neither locally nor globally, and raises "no remaining debug registers"
  -- exactly where it enables all four.
  pub find_free_stoppoint_register-FirstFree :
      FirstFree control 4 0 (find_free_stoppoint_register control)
  unfolding find_free_stoppoint_register
  find_free_stoppoint_register-FirstFree = free_from-FirstFree 4 0 (omega arith)
