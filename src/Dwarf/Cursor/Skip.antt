-- ===== src/Dwarf/Cursor/Skip.antt =====
-- Progress of the LEB128 readers, and `skip_form`: it ends on every input and never moves back.
use gsdb.Common.{ℕ, zero, suc, ◌+◌, ◌-◌, ◌≤◌, ◌<◌, ◌≡◌, ◌≢◌, refl, arith, ◌⊎◌, inl, inr, sym, ◌∙◌}
use gsdb.Common.{List, [], ◌∷◌, drop, length, length-drop, Outcome, ok, exhausted, ◌>>=◌}
use gsdb.Common.{bit_and, bit_or, >>=-eq-ok, bind-ne-exhausted}
use gsdb.Common.Bits.{bit_or-lt}
use gsdb.Common.Word.{two64, shl64}
use gsdb.Dwarf.Form.{Form, form_of, Form-discrete}
use gsdb.Dwarf.Cursor.{Cursor, Groups, leb_loop, uleb128, sleb128, fixed_int}
use gsdb.Dwarf.Cursor.{span_end, skip_text, skip_direct, skip_rounds, skip_form}

-- The loop takes a byte at least, and only bytes that are there.
leb_loop_takes :
    (bytes : List ℕ) (res shift pos : ℕ) (g : Groups)
    → leb_loop bytes res shift pos ≡ ok g
    → (pos < g.next) × (g.next ≤ pos + length bytes) × (g.shift ≤ 70)
unfolding leb_loop
leb_loop_takes [] res shift pos g e = cc
leb_loop_takes (byte ∷ rest) res shift pos g e = ground (
  arith,
  leb_loop_takes rest (bit_or res (shl64 (bit_and byte 0x7f) shift)) (shift + 7) (pos + 1) g,
)

leb_loop-value :
    (bytes : List ℕ) (res shift pos : ℕ) (g : Groups)
    → res < two64
    → leb_loop bytes res shift pos ≡ ok g
    → g.value < two64
unfolding leb_loop
leb_loop-value [] res shift pos g h e = cc
leb_loop-value (byte ∷ rest) res shift pos g h e = ground (
  arith,
  bit_or-lt 64 res (shl64 (bit_and byte 0x7f) shift),
  leb_loop-value rest (bit_or res (shl64 (bit_and byte 0x7f) shift)) (shift + 7) (pos + 1) g,
)

-- Whatever the bytes are, `uleb128` returns a 64-bit number or does not return, and where it
-- returns it has moved by at least one byte, and not past the end of the mapping.
pub uleb128_takes :
    (image : List ℕ) (c : Cursor) (v : ℕ) (c' : Cursor)
    → uleb128 image c ≡ ok (v, c')
    → (v < two64) × (c.pos < c'.pos) × (c'.pos ≤ length image)
unfolding uleb128
uleb128_takes image c v c' e =
    let (g, run, eq) = >>=-eq-ok (leb_loop (drop c.pos image) 0 0 c.pos) _ e in
    ground (
      arith,
      leb_loop_takes (drop c.pos image) 0 0 c.pos g run,
      leb_loop-value (drop c.pos image) 0 0 c.pos g (omega arith) run,
      length-drop c.pos image,
      eq,
    )

leb_loop-ne-exhausted :
    (bytes : List ℕ) (res shift pos : ℕ) → leb_loop bytes res shift pos ≢ exhausted
unfolding leb_loop
leb_loop-ne-exhausted [] res shift pos e = cc
leb_loop-ne-exhausted (byte ∷ rest) res shift pos e = ground (
  arith,
  leb_loop-ne-exhausted rest (bit_or res (shl64 (bit_and byte 0x7f) shift)) (shift + 7) (pos + 1),
)

pub uleb128-ne-exhausted : (image : List ℕ) (c : Cursor) → uleb128 image c ≢ exhausted
unfolding uleb128
uleb128-ne-exhausted image c e = ground (arith, leb_loop-ne-exhausted (drop c.pos image) 0 0 c.pos)

pub sleb128-ne-exhausted : (image : List ℕ) (c : Cursor) → sleb128 image c ≢ exhausted
unfolding sleb128
sleb128-ne-exhausted image c e = ground (arith, leb_loop-ne-exhausted (drop c.pos image) 0 0 c.pos)

skip_text-ne-exhausted : (left : ℕ) (bytes : List ℕ) → skip_text left bytes ≢ exhausted
unfolding skip_text
skip_text-ne-exhausted zero bytes e = cc
skip_text-ne-exhausted (suc left) [] e = cc
skip_text-ne-exhausted (suc left) (b ∷ bytes) e = ground (arith, skip_text-ne-exhausted left bytes)

pub sleb128_takes :
    (image : List ℕ) (c : Cursor) (v : ℕ) (c' : Cursor)
    → sleb128 image c ≡ ok (v, c')
    → c.pos < c'.pos
unfolding sleb128
sleb128_takes image c v c' e =
    let (g, run, eq) = >>=-eq-ok (leb_loop (drop c.pos image) 0 0 c.pos) _ e in
    ground (arith, leb_loop_takes (drop c.pos image) 0 0 c.pos g run, eq)

skip_direct-ne-exhausted :
    (image : List ℕ) (f : Form) (c : Cursor) → skip_direct image f c ≢ exhausted
unfolding skip_direct fixed_int
skip_direct-ne-exhausted image Form.sdata c e = ground (arith, sleb128-ne-exhausted image c)
skip_direct-ne-exhausted image Form.string c e =
    ground (arith, skip_text-ne-exhausted (span_end c.span - c.pos) (drop c.pos image))
skip_direct-ne-exhausted image f c e = ground (arith, uleb128-ne-exhausted image c)

-- A cursor that has read a LEB128 number and moved on lies behind the start.
after_uleb128 :
    (image : List ℕ) (c : Cursor) (f : ℕ × Cursor → Outcome Cursor) {c' : Cursor}
    → ((r : ℕ × Cursor) → f r ≡ ok c' → r.1.pos ≤ c'.pos)
    → (uleb128 image c >>= f) ≡ ok c'
    → c.pos ≤ c'.pos
after_uleb128 image c f onward e =
    let (r, run, eq) = >>=-eq-ok (uleb128 image c) f e in
    omega (arith, uleb128_takes image c r.0 r.1 run, onward r eq)

-- `skip_form` on a direct form never moves the cursor back.
skip_direct_forward :
    (image : List ℕ) (f : Form) (c c' : Cursor) → skip_direct image f c ≡ ok c' → c.pos ≤ c'.pos
unfolding skip_direct fixed_int
skip_direct_forward image Form.sdata c c' e =
    let (r, run, eq) = >>=-eq-ok (sleb128 image c) _ e in
    ground (arith, sleb128_takes image c r.0 r.1 run, eq)
skip_direct_forward image Form.udata c c' e = after_uleb128 image c _ (λ r q. ground arith) e
skip_direct_forward image Form.ref_udata c c' e = after_uleb128 image c _ (λ r q. ground arith) e
skip_direct_forward image Form.block c c' e = after_uleb128 image c _ (λ r q. ground arith) e
skip_direct_forward image Form.exprloc c c' e = after_uleb128 image c _ (λ r q. ground arith) e
skip_direct_forward image f c c' e = ground arith

Form-cases : (f : Form) → (f ≡ Form.indirect) ⊎ (f ≢ Form.indirect)
Form-cases f = elim (Form-discrete f Form.indirect) [ yes e ↦ inl e | no ne ↦ inr ne ]

-- One call of `skip_form`: an indirect form reads the form itself, any other is skipped.
skip_rounds-indirect :
    (rounds : ℕ) (image : List ℕ) (form : ℕ) (c : Cursor)
    → form_of form ≡ Form.indirect
    → skip_rounds (suc rounds) image form c
      ≡ (uleb128 image c >>= λ r. skip_rounds rounds image r.0 r.1)
unfolding skip_rounds
skip_rounds-indirect rounds image form c e = rw (e, skip_rounds)

skip_rounds-direct :
    (rounds : ℕ) (image : List ℕ) (form : ℕ) (c : Cursor)
    → form_of form ≢ Form.indirect
    → skip_rounds (suc rounds) image form c ≡ skip_direct image (form_of form) c
skip_rounds-direct rounds image form c ne = go (form_of form) refl
  where
    go :
        (f : Form)
        → form_of form ≡ f
        → skip_rounds (suc rounds) image form c ≡ skip_direct image f c
    go Form.indirect e = absurd (ne e)
    go f e = unfold skip_rounds in rw (e, skip_rounds)

-- The recursion of `skip_form` on indirect forms ends: it never outlasts its rounds.
skip_rounds-ne-exhausted :
    (rounds : ℕ) (image : List ℕ) (form : ℕ) (c : Cursor)
    → 0 < rounds
    → length image < c.pos + rounds
    → skip_rounds rounds image form c ≢ exhausted
skip_rounds-ne-exhausted zero image form c h1 h = absurd (omega arith)
skip_rounds-ne-exhausted (suc rounds) image form c h1 h = elim (Form-cases (form_of form)) [
  | inr ne ↦ rw (skip_rounds-direct rounds image form c ne) (skip_direct-ne-exhausted image _ c)
  | inl e ↦ rw (skip_rounds-indirect rounds image form c e) (
      bind-ne-exhausted (uleb128 image c) _ (uleb128-ne-exhausted image c) λ r run.
        let taken = uleb128_takes image c r.0 r.1 run in
        skip_rounds-ne-exhausted rounds image r.0 r.1 (omega (arith, taken)) (omega (arith, taken)))
]

-- `skip_form` ends on every form, bytes and position: its rounds are never used up.
skip_form-ne-exhausted :
    (image : List ℕ) (form : ℕ) (c : Cursor) → skip_form image form c ≢ exhausted
unfolding skip_form
skip_form-ne-exhausted image form c =
    skip_rounds-ne-exhausted _ image form c (omega arith) (omega arith)

skip_rounds_forward :
    (rounds : ℕ) (image : List ℕ) (form : ℕ) (c c' : Cursor)
    → skip_rounds rounds image form c ≡ ok c'
    → c.pos ≤ c'.pos
skip_rounds_forward zero image form c c' e = unfold skip_rounds in absurd (ground arith)
skip_rounds_forward (suc rounds) image form c c' e = elim (Form-cases (form_of form)) [
  | inr ne ↦
      skip_direct_forward image (form_of form) c c'
        (sym (skip_rounds-direct rounds image form c ne) ∙ e)
  | inl i ↦
      after_uleb128 image c _ (λ r q. skip_rounds_forward rounds image r.0 r.1 c' q)
        (sym (skip_rounds-indirect rounds image form c i) ∙ e)
]

-- Where `skip_form` returns, the cursor has not moved back, whatever the form and the bytes are.
pub skip_form_forward :
    (image : List ℕ) (form : ℕ) (c c' : Cursor) → skip_form image form c ≡ ok c' → c.pos ≤ c'.pos
unfolding skip_form
skip_form_forward image form c c' e = skip_rounds_forward _ image form c c' e
