-- ===== src/Dwarf/Expression/Compiled.antt =====
-- `dwarf_expression::eval` on the code of an expression tree computes its value.
mod Terms
unfoldable pub use Terms.*
use gsdb.Common.{ℕ, zero, suc, ◌+◌, ◌≤◌, ◌<◌, ◌≡◌, refl, ap, ◌∙◌, arith}
use gsdb.Common.{Bool, true, false, List, [], ◌∷◌, ◌++◌, Option, none, length, drop}
use gsdb.Common.{Outcome, ok, ◌>>=◌, >>=-eq-ok, ok->>=, or_undefined, if◌then◌else◌}
use gsdb.Common.{length-append, leb}
use mathlib.Core.List.{append_assoc}
use gsdb.Common.Word.{two64, two63, add64, not64}
use gsdb.Dwarf.Cursor.{Span, Cursor, move, cursor_of, span_end, finished, little_endian}
use gsdb.Dwarf.Cursor.Steps.{
  le_bytes, length-le_bytes, fixed_int-le_bytes, u8-cons, drop-step, drop-past,
}
use gsdb.Dwarf.Cursor.Sleb.{sleb_bytes, pattern_of, sleb128-sleb_bytes}
use gsdb.Dwarf.Expression.{
  Context, Location, Result, Arith, Rel, Op, op_of, State, apply_arith, apply_rel, exec, step, run,
  conclude, eval, get_current_location,
}

ge→leb : (a b : ℕ) → a ≤ b → leb a b ≡ true
ge→leb a b h = ground arith

module _ (x : Context) (image : List ℕ) (frame : Bool) where
  abbrev Runs : ℕ → State → Cursor → Outcome State → Type 0
  Runs rounds s c result = run x image frame rounds s c ≡ result

  abbrev onto : State → ℕ → State
  onto s v = record s { stack = v ∷ s.stack }

  -- A round on the next opcode.
  run-op :
      (rounds : ℕ) (s : State) (c : Cursor) (b : ℕ) (rest : List ℕ)
      → c.pos < span_end c.span
      → drop c.pos image ≡ b ∷ rest
      → run x image frame (suc rounds) s c
        ≡ (exec x image frame s (move c 1) (op_of b) >>= λ r. run x image frame rounds r.0 r.1)
  unfolding run step finished
  run-op rounds s c b rest h e =
      rw (run, finished, le→ltb' (span_end c.span) c.pos h, step, u8-cons image c b rest e) refl
    where
      le→ltb' : (a b : ℕ) → b < a → leb a b ≡ false
      le→ltb' a b h = ground arith

  recount :
      (s : State) (c : Cursor) (n m : ℕ) → n ≡ m → run x image frame n s c ≡ run x image frame m s c
  recount s c n m e = ap (λ k. run x image frame k s c) e

  -- The last opcode of a compound expression, behind the code of its operands.
  last_op :
      (rounds : ℕ) (s : State) (c : Cursor) (front : List ℕ) (b : ℕ) (rest : List ℕ)
      → c.pos + length (front ++ (b ∷ [])) ≤ span_end c.span
      → drop c.pos image ≡ (front ++ (b ∷ [])) ++ rest
      → run x image frame (suc rounds) s (move c (length front)) ≡ (
          exec x image frame s (move c (length (front ++ (b ∷ [])))) (op_of b) >>= λ r.
          run x image frame rounds r.0 r.1)
  last_op rounds s c front b rest h e =
      run-op rounds s (move c (length front)) b rest (omega (arith, length-append front (b ∷ [])))
        (drop-past image c.pos front (b ∷ rest) (e ∙ append_assoc front (b ∷ []) rest))
      ∙ ap
          (λ n. exec x image frame s (record c { pos = n }) (op_of b) >>= λ r.
            run x image frame rounds r.0 r.1)
          (omega (arith, length-append front (b ∷ [])))

  -- What running an expression's code does: its value is pushed.
  abbrev Pushes : Term → Type 0
  Pushes t =
      (rounds : ℕ) (s : State) (c : Cursor) (rest : List ℕ) (v : ℕ)
      → Fits t
      → value x t ≡ ok v
      → c.pos + length (code t) ≤ span_end c.span
      → drop c.pos image ≡ code t ++ rest
      → run x image frame (opcodes t + rounds) s c
        ≡ run x image frame rounds (onto s v) (move c (length (code t)))

  landed :
      (rounds : ℕ) (s : State) (range : Span) (p q v w : ℕ)
      → v ≡ w
      → p ≡ q
      → run x image frame rounds (onto s v) (record { span = range; pos = p })
        ≡ run x image frame rounds (onto s w) (record { span = range; pos = q })
  landed rounds s range p q v w e f =
      ap (λ a. run x image frame rounds (onto s a) (record { span = range; pos = p })) e
      ∙ ap (λ b. run x image frame rounds (onto s w) (record { span = range; pos = b })) f

  small-Pushes : (n : ℕ) → Pushes (Term.small n)
  unfolding code value opcodes exec
  small-Pushes n rounds s c rest v f q h e =
      recount s c (1 + rounds) (suc rounds) (omega arith)
      ∙ run-op rounds s c (0x30 + n) rest (omega arith) e
      ∙ rw (op_of-small n f) (landed rounds s c.span _ _ n v (cc) (omega arith))

  number-Pushes : (n : ℕ) → Pushes (Term.number n)
  unfolding code value opcodes exec op_of
  number-Pushes n rounds s c rest v f q h e =
      recount s c (1 + rounds) (suc rounds) (omega arith)
      ∙ run-op rounds s c 0x0e (le_bytes 8 n ++ rest) (omega arith) e
      ∙ rw (fixed_int-le_bytes image 8 n (move c 1) rest f (drop-step image c.pos 0x0e _ e))
          (landed rounds s c.span _ _ n v (cc) (omega (arith, length-le_bytes 8 n)))

  based-Pushes : (r : ℕ) (neg : Bool) (n : ℕ) → Pushes (Term.based r neg n)
  unfolding code value opcodes exec
  based-Pushes r neg n rounds s c rest v f q h e =
      let (w, reads, sum) = >>=-eq-ok (x.read_register r) _ q in
      recount s c (1 + rounds) (suc rounds) (omega arith)
      ∙ run-op rounds s c (0x70 + r) (sleb_bytes neg 9 n ++ rest) (omega arith) e
      ∙ rw
          (
            op_of-based r f.0,
            reads,
            sleb128-sleb_bytes image neg n (move c 1) rest f.1
                (drop-step image c.pos (0x70 + r) _ e),
          )
          (landed rounds s c.span _ _ _ v (cc) (omega arith))

  deref-Pushes : (a : Term) → Pushes a → Pushes (Term.deref a)
  unfolding code value opcodes exec op_of
  deref-Pushes a go rounds s c rest v f q h e =
      let (w, first, second) = >>=-eq-ok (value x a) _ q in
      recount s c (opcodes a + 1 + rounds) (opcodes a + suc rounds) (omega arith)
      ∙ go (suc rounds) s c ((0x06 ∷ []) ++ rest) w f first
          (omega (arith, length-append (code a) (0x06 ∷ [])))
          (e ∙ append_assoc (code a) (0x06 ∷ []) rest)
      ∙ last_op rounds (onto s w) c (code a) 0x06 rest h e
      ∙ rw second refl

  complement-Pushes : (a : Term) → Pushes a → Pushes (Term.complement a)
  unfolding code value opcodes exec op_of
  complement-Pushes a go rounds s c rest v f q h e =
      let (w, first, second) = >>=-eq-ok (value x a) _ q in
      recount s c (opcodes a + 1 + rounds) (opcodes a + suc rounds) (omega arith)
      ∙ go (suc rounds) s c ((0x20 ∷ []) ++ rest) w f first
          (omega (arith, length-append (code a) (0x20 ∷ [])))
          (e ∙ append_assoc (code a) (0x20 ∷ []) rest)
      ∙ last_op rounds (onto s w) c (code a) 0x20 rest h e
      ∙ landed rounds s c.span _ _ _ v (cc) refl

  -- Two operands and an opcode on them.
  two_then :
      (a b : Term) (byte : ℕ)
      → Pushes a
      → Pushes b
      → (rounds : ℕ) (s : State) (c : Cursor) (rest : List ℕ) (v w : ℕ) → Fits a × Fits b
      → value x a ≡ ok v
      → value x b ≡ ok w
      → c.pos + length (code a ++ (code b ++ (byte ∷ []))) ≤ span_end c.span
      → drop c.pos image ≡ (code a ++ (code b ++ (byte ∷ []))) ++ rest
      → run x image frame (opcodes a + opcodes b + 1 + rounds) s c ≡ (
          exec x image frame
            (onto (onto s v) w)
            (move c (length (code a ++ (code b ++ (byte ∷ [])))))
            (op_of byte)
          >>= λ r. run x image frame rounds r.0 r.1)
  two_then a b byte go_a go_b rounds s c rest v w f qa qb h e =
      let ea = e ∙ append_assoc (code a) (code b ++ (byte ∷ [])) rest in
      let eb = drop-past image c.pos (code a) _ ea in
      let total = length-append (code a) (code b ++ (byte ∷ [])) in
      let part = length-append (code b) (byte ∷ []) in
      recount s c (opcodes a + opcodes b + 1 + rounds) (opcodes a + (opcodes b + suc rounds))
        (omega arith)
      ∙ go_a (opcodes b + suc rounds) s c _ v f.0 qa (omega (arith, total)) ea
      ∙ go_b (suc rounds) (onto s v) (move c (length (code a))) _ w f.1 qb
          (omega (arith, total, part)) (eb ∙ append_assoc (code b) (byte ∷ []) rest)
      ∙ last_op rounds (onto (onto s v) w) (move c (length (code a))) (code b) byte rest
          (omega (arith, total)) eb
      ∙ ap
          (λ n. exec x image frame (onto (onto s v) w) (record c { pos = n }) (op_of byte) >>= λ r.
            run x image frame rounds r.0 r.1)
          (omega (arith, total))

  binary-Pushes : (op : Arith) (a b : Term) → Pushes a → Pushes b → Pushes (Term.binary op a b)
  unfolding code value opcodes exec
  binary-Pushes op a b go_a go_b rounds s c rest v f q h e =
      let (l, first, q') = >>=-eq-ok (value x a) _ q in
      let (r, second, third) = >>=-eq-ok (value x b) _ q' in
      two_then a b (arith_byte op) go_a go_b rounds s c rest l r f first second h e
      ∙ rw (op_of-arith_byte op, third) refl

  compare-Pushes : (op : Rel) (a b : Term) → Pushes a → Pushes b → Pushes (Term.compare op a b)
  unfolding code value opcodes exec
  compare-Pushes op a b go_a go_b rounds s c rest v f q h e =
      let (l, first, q') = >>=-eq-ok (value x a) _ q in
      let (r, second, third) = >>=-eq-ok (value x b) _ q' in
      two_then a b (rel_byte op) go_a go_b rounds s c rest l r f first second h e
      ∙ rw (op_of-rel_byte op) (landed rounds s c.span _ _ _ v (cc) refl)

  -- Running the code of an expression that has a value pushes the value, and stands behind the
  -- code; the rounds that it takes are its opcodes.
  pub run-code : (t : Term) → Pushes t
  run-code (Term.small n) = small-Pushes n
  run-code (Term.number n) = number-Pushes n
  run-code (Term.based r neg n) = based-Pushes r neg n
  run-code (Term.binary op a b) = binary-Pushes op a b (run-code a) (run-code b)
  run-code (Term.compare op a b) = compare-Pushes op a b (run-code a) (run-code b)
  run-code (Term.complement a) = complement-Pushes a (run-code a)
  run-code (Term.deref a) = deref-Pushes a (run-code a)

run-finished :
    (x : Context) (image : List ℕ) (frame : Bool) (rounds : ℕ) (s : State) (c : Cursor)
    → span_end c.span ≤ c.pos
    → run x image frame rounds s c ≡ ok s
unfolding run finished
run-finished x image frame zero s c h = rw (ge→leb (span_end c.span) c.pos h) refl
run-finished x image frame (suc rounds) s c h =
    rw (run, finished, ge→leb (span_end c.span) c.pos h) refl

-- `eval` on exactly the code of an expression that has a value, with at least as many rounds as the
-- expression has opcodes, is that value as an address, whatever it held before the CFA was pushed.
pub eval-code :
    (x : Context) (image : List ℕ) (frame push_cfa : Bool) (t : Term) (start more v : ℕ)
    (rest : List ℕ) (function : Option ℕ)
    → Fits t
    → value x t ≡ ok v
    → x.enclosing_function ≡ ok function
    → drop start image ≡ code t ++ rest
    → eval x image frame
        (opcodes t + more)
        (record { start = start; size = length (code t) })
        push_cfa
      ≡ ok (Result.simple (Location.address v))
unfolding eval conclude get_current_location
eval-code x image frame push_cfa t start more v rest function f q known e =
    let s : State = record {
      stack = if push_cfa then x.cfa ∷ [] else [];
      most_recent_location = none;
      found = [];
      result_is_address = true;
    } in
    let c = cursor_of (record { start = start; size = length (code t) }) in
    ok->>= (x.enclosing_function) _ known
    ∙ ok->>= (run x image frame (opcodes t + more) s c) _ (
        run-code x image frame t more s c rest v f q (omega arith) e
        ∙ run-finished x image frame more (onto x image frame s v) (move c (length (code t)))
            (omega arith))
