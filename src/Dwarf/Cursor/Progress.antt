-- ===== src/Dwarf/Cursor/Progress.antt =====
-- The readers end, and move forward.
use gsdb.Common.{ℕ, zero, suc, ◌+◌, ◌-◌, ◌<◌, ◌≡◌, refl, arith}
use gsdb.Common.{List, [], ◌∷◌, drop, length, length-drop, ok, undefined, ltb, ◌>>=◌, Ends-if}
use gsdb.Common.{
  Option, none, some, ◌==◌, or_undefined, Ends, Ends-of, Ends-bind, Bool-cases, inl, inr,
}
use gsdb.Dwarf.Cursor.{
  Cursor, span_end, move, little_endian, fixed_int, scan_string, string, uleb128, sleb128, u8,
}
use gsdb.Dwarf.Cursor.Skip.{
  uleb128_takes, uleb128-ne-exhausted, sleb128_takes, sleb128-ne-exhausted,
}

-- A reader's result lies behind the cursor that it was given.
abbrev pub Forward {ℓ} : {A : Type ℓ} → Cursor → A × Cursor → Type 0
Forward c r = c.pos < r.1.pos

abbrev pub Moved : ℕ → Cursor → ℕ × Cursor → Type 0
Moved size c r = r.1.pos ≡ c.pos + size

abbrev pub TookByte : List ℕ → Cursor → ℕ × Cursor → Type 0
TookByte image c r = (r.1.pos ≡ c.pos + 1) × (c.pos < length image)

abbrev pub Any {ℓ} : {A : Type ℓ} → A → Type 0
Any a = Unit

pub uleb128-Ends : (image : List ℕ) (c : Cursor) → Ends (Forward c) (uleb128 image c)
uleb128-Ends image c =
    Ends-of (Forward c) (uleb128 image c) (uleb128-ne-exhausted image c)
      (λ r e. (uleb128_takes image c r.0 r.1 e).1)

pub sleb128-Ends : (image : List ℕ) (c : Cursor) → Ends (Forward c) (sleb128 image c)
sleb128-Ends image c =
    Ends-of (Forward c) (sleb128 image c) (sleb128-ne-exhausted image c)
      (λ r e. sleb128_takes image c r.0 r.1 e)

pub fixed_int-Ends :
    (image : List ℕ) (size : ℕ) (c : Cursor) → Ends (Moved size c) (fixed_int image size c)
unfolding fixed_int
fixed_int-Ends image size c = go (little_endian size (drop c.pos image))
  where
    go : (o : Option ℕ) → Ends (Moved size c) (or_undefined o >>= λ v. ok (v, move c size))
    go none = tt
    go (some v) = refl

-- A byte is read only inside the image.
pub u8-Ends : (image : List ℕ) (c : Cursor) → Ends (TookByte image c) (u8 image c)
unfolding fixed_int
u8-Ends image c = go (drop c.pos image) (length-drop c.pos image)
  where
    go :
        (bytes : List ℕ)
        → length bytes ≡ length image - c.pos
        → Ends (TookByte image c) (or_undefined (little_endian 1 bytes) >>= λ v. ok (v, move c 1))
    go [] e = tt
    go (b ∷ bytes) e = (refl, omega arith)

scan-Ends : (left : ℕ) (bytes : List ℕ) → Ends (Any {A = List ℕ}) (scan_string left bytes)
unfolding scan_string
scan-Ends zero bytes = tt
scan-Ends (suc left) [] = tt
scan-Ends (suc left) (b ∷ bytes) = elim (Bool-cases (b == 0)) [
  | inl e ↦ rw e tt
  | inr e ↦ rw e (Ends-bind Any Any (scan_string left bytes) _ (scan-Ends left bytes) (λ s _. tt))
]

pub string-Ends : (image : List ℕ) (c : Cursor) → Ends (Forward c) (string image c)
unfolding string
string-Ends image c =
    Ends-if (Forward c) (ltb (span_end c.span) c.pos) undefined _ (λ _. tt)
      λ _.
        Ends-bind Any (Forward c) (scan_string (span_end c.span - c.pos) (drop c.pos image)) _
          (scan-Ends (span_end c.span - c.pos) (drop c.pos image)) (λ s _. omega arith)
