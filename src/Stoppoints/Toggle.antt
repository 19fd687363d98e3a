-- ===== src/Stoppoints/Toggle.antt =====
-- Enabling and disabling a site against the memory without traps.
use gsdb.Common.{if_true, if_false, ℕ, ◌+◌, ◌<◌, ◌≡◌, refl, sym, ap, ◌∙◌, arith}
use gsdb.Common.{true, false, List, ◌∷◌, ◌++◌, some, inl, inr}
use gsdb.Common.{Outcome, ok, or_err, >>=-eq-ok, or_err-eq-ok, Bool-cases, Error}
use gsdb.Common.{bit_and, bit_or, not}
use gsdb.Common.Masks.{bit_and_ff}
use mathlib.Core.Path.{ap₂}
use gsdb.Common.Word.{not64}
use gsdb.Stoppoints.Kernel.{Kernel, IsMemory}
use gsdb.Stoppoints.Site.{Site, enable, disable}
use gsdb.Stoppoints.View.{
  view, Untrapped, replaced_memory, view_swap, same_part, part, part_untrapped, hard_untrapped,
  off_untrapped, soft_trapped,
}

ok_pair :
    {A B : Type 0} {a c : A} {b d : B}
    → ◌≡◌ {A = Outcome (A × B)} (ok (a, b)) (ok (c, d))
    → (a ≡ c) × (b ≡ d)
ok_pair e = (cc, cc)

module _ {W : Type 0} (k : Kernel W) (byte : W → ℕ → ℕ) (memory : IsMemory k byte) where
  low_byte : (w : W) (a word : ℕ) → k.peek w a ≡ some word → byte w a ≡ bit_and word 0xff
  low_byte w a word seen =
      ap (byte w) (plus_zero a)
      ∙ memory.peek_bytes w a word 0 seen (omega arith)
      ∙ omega (arith, bit_and_ff word (memory.peek_range w a word seen))
    where
      plus_zero : (a : ℕ) → a ≡ a + 0
      plus_zero a = omega arith

  -- Enabling a breakpoint site leaves the memory without traps as it was, at every address, where
  -- no other site has a trap at the site's address. Hardware sites and sites that are enabled
  -- already are included.
  pub view-enable :
      (before after : List Site) (s s' : Site) (w w' : W) (x : ℕ)
      → Untrapped before after s.address
      → enable k s w ≡ ok (s', w')
      → view (byte w') (before ++ (s' ∷ after)) x ≡ view (byte w) (before ++ (s ∷ after)) x
  unfolding enable
  view-enable before after s s' w w' x free e = elim (Bool-cases s.is_enabled) [
    | inl on ↦
        let (same, kept) = ok_pair (sym (if_true s.is_enabled _ _ on) ∙ e) in
        same_part _ _ before after s' s x (ap (λ t. part t x) (sym same))
          (ap (λ v. byte v x) (sym kept))
    | inr off ↦ elim (Bool-cases s.is_hardware) [
      | inl hard ↦
          let (r, done, last) =
            >>=-eq-ok (k.set_hardware_breakpoint w s.id s.address) _
              (sym (if_false s.is_enabled _ _ off ∙ if_true s.is_hardware _ _ hard) ∙ e) in
          let (same, kept) = ok_pair last in
          let t : Site = record s { hardware_register_index = r.0; is_enabled = true } in
          same_part _ _ before after s' s x
            (ap (λ u. part u x) (sym same)
              ∙ part_untrapped t x (hard_untrapped t hard)
              ∙ sym (part_untrapped s x (off_untrapped s off)))
            (ap (λ v. byte v x) (sym kept) ∙ memory.set_keeps w s.id s.address r x done)
      | inr soft ↦
          let (word, peeked, next) =
            >>=-eq-ok (or_err Error.os_failure (k.peek w s.address)) _
              (sym (if_false s.is_enabled _ _ off ∙ if_false s.is_hardware _ _ soft) ∙ e) in
          let (w'', poked, last) =
            >>=-eq-ok
              (or_err Error.os_failure
                (k.poke w s.address (bit_or (bit_and word (not64 0xff)) 0xcc)))
              _ next in
          let (same, kept) = ok_pair last in
          let (at, others) =
            replaced_memory k byte memory w s.address word 0xcc w'' (omega arith)
              (or_err-eq-ok _ _ peeked) (or_err-eq-ok _ _ poked) in
          let t : Site = record s { saved_data = bit_and word 0xff; is_enabled = true } in
          ap₂ (λ u v. view (byte v) (before ++ (u ∷ after)) x) (sym same) (sym kept)
          ∙ view_swap _ _ before after t s x free refl (soft_trapped t refl soft)
              (off_untrapped s off) (low_byte w s.address word (or_err-eq-ok _ _ peeked)) others
    ]
  ]

  -- Disabling a breakpoint site leaves the memory without traps as it was, at every address, where
  -- no other site has a trap at the site's address and the site has saved a byte.
  pub view-disable :
      (before after : List Site) (s s' : Site) (w w' : W) (x : ℕ)
      → Untrapped before after s.address
      → s.saved_data < 256
      → disable k s w ≡ ok (s', w')
      → view (byte w') (before ++ (s' ∷ after)) x ≡ view (byte w) (before ++ (s ∷ after)) x
  unfolding disable
  view-disable before after s s' w w' x free small e = elim (Bool-cases s.is_enabled) [
    | inr off ↦
        let (same, kept) = ok_pair (sym (if_true (not s.is_enabled) _ _ (ap not off)) ∙ e) in
        same_part _ _ before after s' s x (ap (λ t. part t x) (sym same))
          (ap (λ v. byte v x) (sym kept))
    | inl on ↦ elim (Bool-cases s.is_hardware) [
      | inl hard ↦
          let (w'', done, last) =
            >>=-eq-ok (k.clear_hardware_stoppoint w s.hardware_register_index) _ (
              sym (if_false (not s.is_enabled) _ _ (ap not on) ∙ if_true s.is_hardware _ _ hard)
              ∙ e) in
          let (same, kept) = ok_pair last in
          let t : Site = record s { hardware_register_index = 4294967295; is_enabled = false } in
          same_part _ _ before after s' s x
            (ap (λ u. part u x) (sym same)
              ∙ part_untrapped t x (hard_untrapped t hard)
              ∙ sym (part_untrapped s x (hard_untrapped s hard)))
            (ap (λ v. byte v x) (sym kept)
              ∙ memory.clear_keeps w s.hardware_register_index w'' x done)
      | inr soft ↦
          let (word, peeked, next) = >>=-eq-ok (or_err Error.os_failure (k.peek w s.address)) _ (
            sym (if_false (not s.is_enabled) _ _ (ap not on) ∙ if_false s.is_hardware _ _ soft)
            ∙ e) in
          let (w'', poked, last) =
            >>=-eq-ok
              (or_err Error.os_failure
                (k.poke w s.address (bit_or (bit_and word (not64 0xff)) s.saved_data)))
              _ next in
          let (same, kept) = ok_pair last in
          let (at, others) =
            replaced_memory k byte memory w s.address word s.saved_data w'' small
              (or_err-eq-ok _ _ peeked) (or_err-eq-ok _ _ poked) in
          let t : Site = record s { is_enabled = false } in
          ap₂ (λ u v. view (byte v) (before ++ (u ∷ after)) x) (sym same) (sym kept)
          ∙ sym (
              view_swap _ _ before after s t x free refl (soft_trapped s on soft)
                (off_untrapped t refl) at (λ y o. sym (others y o)))
    ]
  ]
