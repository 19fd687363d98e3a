-- ===== src/Dwarf/Cfi/Cache.antt =====
-- The cache of `get_cie`: it changes no result at offsets below 2^32.
use gsdb.Common.{ℕ, ◌<◌, ◌≡◌, ap, ◌∙◌, arith, Bool-cases, Option-cases, ok->>=, inl, inr}
use gsdb.Common.{List, ◌∷◌, some, ◌==◌, Outcome, ok}
use gsdb.Dwarf.Cfi.Entries.{Sections, Cie, CieMap, cached, cie_key, cie_at, get_cie}

-- The cache holds what parsing again would give.
abbrev pub IsFaithful : List ℕ → Sections → CieMap → Type 0
IsFaithful image s m =
    (offset : ℕ) (cie : Cie) → cached m offset ≡ some cie → cie_at image s offset ≡ ok cie

cached-cons :
    (image : List ℕ) (s : Sections) (m : CieMap) (k : ℕ) (new : Cie)
    → cie_at image s k ≡ ok new
    → IsFaithful image s m
    → IsFaithful image s ((k, new) ∷ m)
unfolding cached
cached-cons image s m k new parsed h offset cie e = elim (Bool-cases (k == offset)) [
  | inl same ↦ ground arith
  | inr other ↦ h offset cie (ground arith)
]

small_key : (offset : ℕ) → offset < 4294967296 → cie_key offset ≡ offset
unfolding cie_key
small_key offset h = omega arith

-- With a cache that holds what was parsed, `get_cie` at an offset below 2^32 returns a CIE exactly
-- when parsing at the offset does, and the same one, and leaves a cache that holds what was parsed.
pub get_cie-parse_cie :
    (image : List ℕ) (s : Sections) (m : CieMap) (offset : ℕ) (cie : Cie)
    → IsFaithful image s m
    → offset < 4294967296
    → (cie_at image s offset ≡ ok cie
        → (m' : CieMap) × (get_cie image s m offset ≡ ok (cie, m')) × IsFaithful image s m')
      × ((m' : CieMap) → get_cie image s m offset ≡ ok (cie, m') → cie_at image s offset ≡ ok cie)
unfolding get_cie
get_cie-parse_cie image s m offset cie h small = elim (Option-cases (cached m offset)) [
  | inl new ↦
      rw (get_cie, small_key offset small, new)
        (
          λ parsed. (
            (cie_key offset, cie) ∷ m,
            ok->>= (cie_at image s offset) _ parsed,
            cached-cons image s m (cie_key offset) cie (rw (small_key offset small) parsed) h,
          ),
          λ m' e. ground arith,
        )
  | inr (old, known) ↦
      rw (get_cie, small_key offset small, known)
        (
          λ parsed. (m, ap (λ c. ok (c, m)) (same old cie (h offset old known) parsed), h),
          λ m' e. h offset old known ∙ ap ok (cached_one old cie m m' e),
        )
]
  where
    same : (a b : Cie) {r : Outcome Cie} → r ≡ ok a → r ≡ ok b → a ≡ b
    same a b p q = cc

    cached_one :
        (a b : Cie) (m m' : CieMap)
        → ◌≡◌ {A = Outcome (Cie × CieMap)} (ok (a, m)) (ok (b, m'))
        → a ≡ b
    cached_one a b m m' p = cc
