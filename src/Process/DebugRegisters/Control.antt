-- ===== src/Process/DebugRegisters/Control.antt =====
-- The control word of the debug registers, bit by bit.
use gsdb.Common.{ℕ, ◌+◌, ◌*◌, ◌^◌, ◌≤◌, ◌<◌, ◌≡◌, refl, ap, sym, ◌∙◌, arith, inl, inr}
use gsdb.Common.{Bool, true, false, ◌&&◌, ◌||◌, ◌==◌, ltb, leb, if◌then◌else◌, Bool-cases, ==_iff}
use gsdb.Common.{bit_and, bit_or}
use gsdb.Common.Word.{shl64}
use gsdb.Common.{ltb→lt}
use gsdb.Common.Masks.{bit_and-lt}
use gsdb.Common.Bits.{all_below, full_row, bit_or-lt}
use gsdb.Common.TestBits.{
  test_bit, test_bit-bit_and, test_bit-bit_or, test_bit-lt, test_bit_high, test_bit_ext,
}
use Prim.Native.Nat.{min, max}
use gsdb.Process.DebugRegisters.{keep_mask, set_control, clear_control}

-- The bits of DR7 that belong to a register: two that enable it, and four that say on what it traps.
abbrev pub in_slot : ℕ → ℕ → Bool
in_slot i n =
    ((leb (2 * i) n && ltb n (2 * i + 2)) && ltb n 8) || (leb (4 * i + 16) n && ltb n (4 * i + 20))

-- What the slot of a register is set to: enabled, with a mode and a size.
abbrev pub slot_value : ℕ → ℕ → ℕ → ℕ
slot_value i mode_flag size_flag =
    2 ^ (2 * i) + mode_flag * 2 ^ (4 * i + 16) + size_flag * 2 ^ (4 * i + 18)

abbrev flags : ℕ → ℕ → ℕ → ℕ
flags i mode_flag size_flag =
    bit_or (bit_or (shl64 1 (i * 2)) (shl64 mode_flag (i * 4 + 16))) (shl64 size_flag (i * 4 + 18))

keep_table :
    all_below 4
      (λ i. all_below 32 (λ n. test_bit (keep_mask i) n == (if in_slot i n then 0 else 1)))
    ≡ true
unfolding all_below keep_mask
keep_table = refl

flags_table :
    all_below 4 (λ i. all_below 4 (λ m. all_below 4 (λ s. all_below 64 (λ n.
      test_bit (flags i m s) n == (if in_slot i n then test_bit (slot_value i m s) n else 0)))))
    ≡ true
unfolding all_below
flags_table = refl

size_table :
    all_below 4 (λ i. all_below 4 (λ m. all_below 4 (λ s. ltb (flags i m s) (2 ^ 32)))) ≡ true
unfolding all_below
size_table = refl

keep_bit : (i n : ℕ) → i < 4 → n < 32 → test_bit (keep_mask i) n ≡ (if in_slot i n then 0 else 1)
keep_bit i n hi hn = (==_iff _ _).0 (full_row _ 32 n hn (full_row _ 4 i hi keep_table))

flags_bit :
    (i m s n : ℕ)
    → i < 4
    → m < 4
    → s < 4
    → n < 64
    → test_bit (flags i m s) n ≡ (if in_slot i n then test_bit (slot_value i m s) n else 0)
flags_bit i m s n hi hm hs hn =
    (==_iff _ _).0
      (full_row _ 64 n hn (full_row _ 4 s hs (full_row _ 4 m hm (full_row _ 4 i hi flags_table))))

kept : (b : Bool) (x : ℕ) → x < 2 → min x (if b then 0 else 1) ≡ (if b then 0 else x)
kept true x h = omega arith
kept false x h = omega arith

joined : (b : Bool) (x y : ℕ) → max (if b then 0 else x) (if b then y else 0) ≡ (if b then y else x)
joined true x y = omega arith
joined false x y = omega arith

clear_bit :
    (control i n : ℕ)
    → i < 4
    → n < 32
    → test_bit (clear_control control i) n ≡ (if in_slot i n then 0 else test_bit control n)
unfolding clear_control
clear_bit control i n hi hn =
    test_bit-bit_and n control (keep_mask i)
    ∙ ap (min (test_bit control n)) (keep_bit i n hi hn)
    ∙ kept (in_slot i n) (test_bit control n) (test_bit-lt n control)

-- `set_hardware_stoppoint` sets the bits of its register's slot in DR7 to enabled, with the mode
-- and the size, and leaves every other one of the 32 defined bits as it was.
pub set_control_bits :
    (control i mode_flag size_flag n : ℕ)
    → i < 4
    → mode_flag < 4
    → size_flag < 4
    → n < 32
    → test_bit (set_control control i mode_flag size_flag) n
      ≡ (if in_slot i n then test_bit (slot_value i mode_flag size_flag) n else test_bit control n)
unfolding set_control clear_control
set_control_bits control i m s n hi hm hs hn =
    test_bit-bit_or n (bit_and control (keep_mask i)) (flags i m s)
    ∙ ap (λ (t : ℕ). max t (test_bit (flags i m s) n)) (clear_bit control i n hi hn)
    ∙ ap (max (if in_slot i n then 0 else test_bit control n))
        (flags_bit i m s n hi hm hs (omega arith))
    ∙ joined (in_slot i n) (test_bit control n) (test_bit (slot_value i m s) n)

-- Setting a register's slot and clearing it again gives the control word back, where the word has
-- only the 32 defined bits and nothing in the slot.
clear_control-set_control :
    (control i mode_flag size_flag : ℕ)
    → i < 4
    → mode_flag < 4
    → size_flag < 4
    → control < 2 ^ 32
    → ((n : ℕ) → n < 32 → in_slot i n ≡ true → test_bit control n ≡ 0)
    → clear_control (set_control control i mode_flag size_flag) i ≡ control
clear_control-set_control control i m s hi hm hs small free =
    test_bit_ext 64 _ control fits (omega arith) same
  where
    flags_fit : flags i m s < 2 ^ 32
    flags_fit = ltb→lt _ _ (full_row _ 4 s hs (full_row _ 4 m hm (full_row _ 4 i hi size_table)))

    word_fits : set_control control i m s < 2 ^ 64
    word_fits =
        unfold set_control in
        bit_or-lt 64 (bit_and control (keep_mask i)) (flags i m s)
          (bit_and-lt 64 control (keep_mask i) (omega arith)) (omega (arith, flags_fit))

    fits : clear_control (set_control control i m s) i < 2 ^ 64
    fits = unfold clear_control in bit_and-lt 64 (set_control control i m s) (keep_mask i) word_fits

    slot_empty :
        (n : ℕ) → n < 32 → (if in_slot i n then 0 else test_bit control n) ≡ test_bit control n
    slot_empty n h = elim (Bool-cases (in_slot i n)) [
      | inl inside ↦ rw inside (sym (free n h inside))
      | inr outside ↦ rw outside refl
    ]

    inner : (b : Bool) (x y : ℕ) → (if b then 0 else (if b then x else y)) ≡ (if b then 0 else y)
    inner true x y = refl
    inner false x y = refl

    above :
        (n : ℕ)
        → 32 ≤ n
        → test_bit (clear_control (set_control control i m s) i) n ≡ test_bit control n
    above n h =
        unfold clear_control set_control in
        omega (
          arith,
          test_bit-bit_and n (set_control control i m s) (keep_mask i),
          test_bit-bit_or n (bit_and control (keep_mask i)) (flags i m s),
          test_bit-bit_and n control (keep_mask i),
          test_bit_high 32 n control h small,
          test_bit_high 32 n (flags i m s) h flags_fit,
        )

    same :
        (n : ℕ)
        → n < 64
        → test_bit (clear_control (set_control control i m s) i) n ≡ test_bit control n
    same n h = elim (Bool-cases (ltb n 32)) [
      | inl low ↦
          clear_bit (set_control control i m s) i n hi (ltb→lt n 32 low)
          ∙ ap (λ (t : ℕ). if in_slot i n then 0 else t)
              (set_control_bits control i m s n hi hm hs (ltb→lt n 32 low))
          ∙ inner (in_slot i n) (test_bit (slot_value i m s) n) (test_bit control n)
          ∙ slot_empty n (ltb→lt n 32 low)
      | inr high ↦ above n (ground arith)
    ]
