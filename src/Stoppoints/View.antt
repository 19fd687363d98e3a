-- ===== src/Stoppoints/View.antt =====
-- The memory that the program would have without traps, and that enabling and disabling a site
-- leaves it as it is.
use gsdb.Common.{
  ℕ, zero, suc, ◌+◌, ◌-◌, ◌*◌, ◌/◌, ◌%◌, ◌^◌, ◌≤◌, ◌<◌, ◌≡◌, ◌≢◌, refl, sym, ap, ◌∙◌, arith,
}
use gsdb.Common.{true, false, List, [], ◌∷◌, ◌++◌, Option, none, some, ◌⊎◌, inl, inr, ◌==◌, ◌&&◌}
use gsdb.Common.{if◌then◌else◌, Bool-cases, Option-cases}
use gsdb.Common.{bit_and, bit_or, ltb, ltb→lt, ne→==, ==_refl, ==_iff}
use gsdb.Common.Masks.{bit_and_high, bit_or_low}
use gsdb.Common.Word.{two64, not64}
use gsdb.Stoppoints.Kernel.{Kernel, IsMemory}
use gsdb.Stoppoints.Site.{Site}
use gsdb.Stoppoints.Memory.{has_trap}

-- What the last site with a trap at the address has saved.
unfoldable pub saved_at : List Site → ℕ → Option ℕ
saved_at [] x = none
saved_at (s ∷ sites) x = elim (saved_at sites x) [
  | some b ↦ some b
  | none ↦ if has_trap s && s.address == x then some s.saved_data else none
]

abbrev pub or_byte : Option ℕ → ℕ → ℕ
or_byte none b = b
or_byte (some a) b = a

unfoldable pub view : (ℕ → ℕ) → List Site → ℕ → ℕ
view byte sites x = or_byte (saved_at sites x) (byte x)

abbrev or_else : Option ℕ → Option ℕ → Option ℕ
or_else none b = b
or_else (some a) b = some a

saved_at-append :
    (xs ys : List Site) (x : ℕ) → saved_at (xs ++ ys) x ≡ or_else (saved_at ys x) (saved_at xs x)
unfolding saved_at
saved_at-append [] ys x = elim (Option-cases (saved_at ys x)) [
  | inl e ↦ rw e refl
  | inr (a, e) ↦ rw e refl
]
saved_at-append (s ∷ xs) ys x = elim (Option-cases (saved_at ys x)) [
  | inl e ↦ rw (saved_at, saved_at-append xs ys x, e) refl
  | inr (a, e) ↦ rw (saved_at, saved_at-append xs ys x, e) refl
]

-- A word with its low byte replaced.
replaced :
    (word low : ℕ)
    → word < two64
    → low < 256
    → bit_or (bit_and word (not64 0xff)) low ≡ word / 256 * 256 + low
replaced word low h k =
    ap (λ (t : ℕ). bit_or t low) (bit_and_high word h) ∙ bit_or_low (word / 256) low (omega arith) k

high_bytes :
    (i word low : ℕ)
    → low < 256
    → 0 < i
    → i < 8
    → (word / 256 * 256 + low) / 256 ^ i % 256 ≡ word / 256 ^ i % 256
high_bytes zero word low h p q = absurd (omega arith)
high_bytes (suc zero) word low h p q = omega arith
high_bytes (suc (suc zero)) word low h p q = omega arith
high_bytes (suc (suc (suc zero))) word low h p q = omega arith
high_bytes (suc (suc (suc (suc zero)))) word low h p q = omega arith
high_bytes (suc (suc (suc (suc (suc zero))))) word low h p q = omega arith
high_bytes (suc (suc (suc (suc (suc (suc zero)))))) word low h p q = omega arith
high_bytes (suc (suc (suc (suc (suc (suc (suc zero))))))) word low h p q = omega arith
high_bytes (suc (suc (suc (suc (suc (suc (suc (suc i)))))))) word low h p q = absurd (omega arith)

-- Where an address lies to a word's.
data Place (a x : ℕ) : Type 0 where
  outside : (x < a) ⊎ (a + 8 ≤ x) → Place a x
  inside : (i : ℕ) → x ≡ a + i → 0 < i → i < 8 → Place a x

place : (a x : ℕ) → x ≢ a → Place a x
place a x h = elim (Bool-cases (ltb x a)) [
  | inl before ↦ outside (inl (ltb→lt x a before))
  | inr e ↦ elim (Bool-cases (ltb x (a + 8))) [
    | inl near ↦ inside (x - a) (ground arith) (ground arith) (ground arith)
    | inr far ↦ outside (inr (ground arith))
  ]
]

module _ {W : Type 0} (k : Kernel W) (byte : W → ℕ → ℕ) (memory : IsMemory k byte) where
  -- Writing the word back with another low byte changes one byte of memory.
  pub replaced_memory :
      (w : W) (a word low : ℕ) (w' : W)
      → low < 256
      → k.peek w a ≡ some word
      → k.poke w a (bit_or (bit_and word (not64 0xff)) low) ≡ some w'
      → (byte w' a ≡ low) × ((x : ℕ) → x ≢ a → byte w' x ≡ byte w x)
  replaced_memory w a word low w' hl seen written =
      let written' = rw (replaced word low (memory.peek_range w a word seen) hl) at written in
      (
        ap (byte w') (plus_zero a)
            ∙ memory.poke_bytes w a _ w' 0 written' (omega arith)
            ∙ omega arith,
        λ x other. elsewhere written' x (place a x other),
      )
    where
      plus_zero : (a : ℕ) → a ≡ a + 0
      plus_zero a = omega arith

      elsewhere :
          k.poke w a (word / 256 * 256 + low) ≡ some w' → (x : ℕ) → Place a x → byte w' x ≡ byte w x
      elsewhere done x (outside far) = memory.poke_others w a _ w' x done far
      elsewhere done x (inside i at lo hi) =
          ap (byte w') at
          ∙ memory.poke_bytes w a _ w' i done hi
          ∙ high_bytes i word low hl lo hi
          ∙ sym (memory.peek_bytes w a word i seen hi)
          ∙ ap (byte w) (sym at)

-- What one site contributes at an address, and the others around it.
abbrev pub part : Site → ℕ → Option ℕ
part s x = if has_trap s && s.address == x then some s.saved_data else none

alone :
    (before after : List Site) (s : Site) (x : ℕ)
    → saved_at (before ++ (s ∷ after)) x
      ≡ or_else (saved_at after x) (or_else (part s x) (saved_at before x))
unfolding saved_at
alone before after s x = elim (Option-cases (saved_at after x)) [
  | inl e ↦ rw (saved_at-append before (s ∷ after) x, saved_at, e) refl
  | inr (a, e) ↦ rw (saved_at-append before (s ∷ after) x, saved_at, e) refl
]

pub same_part :
    (f g : ℕ → ℕ) (before after : List Site) (s t : Site) (x : ℕ)
    → part s x ≡ part t x
    → f x ≡ g x
    → view f (before ++ (s ∷ after)) x ≡ view g (before ++ (t ∷ after)) x
unfolding view
same_part f g before after s t x e h =
    ap (λ o. or_byte o (f x))
      (alone before after s x
        ∙ ap (λ o. or_else (saved_at after x) (or_else o (saved_at before x))) e
        ∙ sym (alone before after t x))
    ∙ ap (or_byte (saved_at (before ++ (t ∷ after)) x)) h

part_elsewhere : (s t : Site) (x : ℕ) → s.address ≡ t.address → x ≢ s.address → part s x ≡ part t x
part_elsewhere s t x same other =
    none_there s x other ∙ sym (none_there t x (λ e. other (e ∙ sym same)))
  where
    none_there : (s : Site) (x : ℕ) → x ≢ s.address → part s x ≡ none
    none_there s x other = elim (Bool-cases (has_trap s)) [
      | inl e ↦ rw (e, ne→== s.address x (λ q. other (sym q))) refl
      | inr e ↦ rw e refl
    ]

pub hard_untrapped : (s : Site) → s.is_hardware ≡ true → has_trap s ≡ false
hard_untrapped s e = ground arith

pub off_untrapped : (s : Site) → s.is_enabled ≡ false → has_trap s ≡ false
off_untrapped s e = rw e refl

pub soft_trapped : (s : Site) → s.is_enabled ≡ true → s.is_hardware ≡ false → has_trap s ≡ true
soft_trapped s on soft = rw (on, soft) refl

pub part_untrapped : (s : Site) (x : ℕ) → has_trap s ≡ false → part s x ≡ none
part_untrapped s x e = rw e refl

-- No other site has a trap at the address.
abbrev pub Untrapped : List Site → List Site → ℕ → Type 0
Untrapped before after a = (saved_at before a ≡ none) × (saved_at after a ≡ none)

view_trapped :
    (f : ℕ → ℕ) (before after : List Site) (s : Site)
    → Untrapped before after s.address
    → has_trap s ≡ true
    → view f (before ++ (s ∷ after)) s.address ≡ s.saved_data
unfolding view
view_trapped f before after s free e =
    rw (alone before after s s.address, free.1, e, ==_refl s.address) refl

view-Untrapped :
    (f : ℕ → ℕ) (before after : List Site) (s : Site)
    → Untrapped before after s.address
    → has_trap s ≡ false
    → view f (before ++ (s ∷ after)) s.address ≡ f s.address
unfolding view
view-Untrapped f before after s free e = rw (alone before after s s.address, free.1, e, free.0) refl

-- Where one of two sites at an address has a trap there, and the other has none and the memory
-- holds the byte that the first has saved, the memory without traps is the same.
pub view_swap :
    (f g : ℕ → ℕ) (before after : List Site) (s t : Site) (x : ℕ)
    → Untrapped before after s.address
    → s.address ≡ t.address
    → has_trap s ≡ true
    → has_trap t ≡ false
    → g s.address ≡ s.saved_data
    → ((y : ℕ) → y ≢ s.address → f y ≡ g y)
    → view f (before ++ (s ∷ after)) x ≡ view g (before ++ (t ∷ after)) x
view_swap f g before after s t x free same on off byte others = elim (Bool-cases (x == s.address)) [
  | inl here ↦
      let at : x ≡ s.address = (==_iff x s.address).0 here in
      let free' : Untrapped before after t.address =
        (ap (saved_at before) (sym same) ∙ free.0, ap (saved_at after) (sym same) ∙ free.1) in
      ap (view f (before ++ (s ∷ after))) at
      ∙ view_trapped f before after s free on
      ∙ sym byte
      ∙ ap g same
      ∙ sym (view-Untrapped g before after t free' off)
      ∙ ap (view g (before ++ (t ∷ after))) (sym (at ∙ same))
  | inr there ↦
      let other : x ≢ s.address = ground arith in
      same_part f g before after s t x (part_elsewhere s t x same other) (others x other)
]
