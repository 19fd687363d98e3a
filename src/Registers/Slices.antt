-- ===== src/Registers/Slices.antt =====
-- Bytes written over a stretch of bytes, and read back from it, beside it or elsewhere.
use gsdb.Common.{ℕ, zero, suc, ◌+◌, ◌≤◌, ◌≡◌, refl, ap, arith, List, [], ◌∷◌, length, take, drop}

-- `std::copy` to an offset: bytes past the end are dropped.
abbrev pub splice : List ℕ → ℕ → List ℕ → List ℕ
splice [] o bs = []
splice (x ∷ xs) (suc o) bs = x ∷ splice xs o bs
splice (x ∷ xs) zero [] = x ∷ xs
splice (x ∷ xs) zero (b ∷ bs) = b ∷ splice xs zero bs

pub length-splice : (xs : List ℕ) (o : ℕ) (bs : List ℕ) → length (splice xs o bs) ≡ length xs
length-splice [] o bs = refl
length-splice (x ∷ xs) (suc o) bs = ap suc (length-splice xs o bs)
length-splice (x ∷ xs) zero [] = refl
length-splice (x ∷ xs) zero (b ∷ bs) = ap suc (length-splice xs zero bs)

pub slice-splice :
    (xs : List ℕ) (o : ℕ) (bs : List ℕ)
    → (o + length bs ≤ length xs)
    → take (length bs) (drop o (splice xs o bs)) ≡ bs
slice-splice [] zero [] h = refl
slice-splice [] zero (b ∷ bs) h = absurd (omega (arith, h))
slice-splice [] (suc o) bs h = absurd (omega (arith, h))
slice-splice (x ∷ xs) (suc o) bs h = slice-splice xs o bs (omega (arith, h))
slice-splice (x ∷ xs) zero [] h = refl
slice-splice (x ∷ xs) zero (b ∷ bs) h = ap (λ r. b ∷ r) (slice-splice xs zero bs (omega (arith, h)))

pub slice-splice_before :
    (xs : List ℕ) (o : ℕ) (bs : List ℕ) (p n : ℕ)
    → (p + n ≤ o)
    → take n (drop p (splice xs o bs)) ≡ take n (drop p xs)
slice-splice_before xs o bs p zero h = refl
slice-splice_before [] o bs p (suc n) h = refl
slice-splice_before (x ∷ xs) zero bs p (suc n) h = absurd (omega (arith, h))
slice-splice_before (x ∷ xs) (suc o) bs zero (suc n) h =
    ap (λ r. x ∷ r) (slice-splice_before xs o bs zero n (omega (arith, h)))
slice-splice_before (x ∷ xs) (suc o) bs (suc p) (suc n) h =
    slice-splice_before xs o bs p (suc n) (omega (arith, h))

pub drop-splice_after :
    (xs : List ℕ) (o : ℕ) (bs : List ℕ) (p : ℕ)
    → (o + length bs ≤ p)
    → drop p (splice xs o bs) ≡ drop p xs
drop-splice_after [] o bs p h = refl
drop-splice_after (x ∷ xs) (suc o) bs zero h = absurd (omega (arith, h))
drop-splice_after (x ∷ xs) (suc o) bs (suc p) h = drop-splice_after xs o bs p (omega (arith, h))
drop-splice_after (x ∷ xs) zero [] p h = refl
drop-splice_after (x ∷ xs) zero (b ∷ bs) zero h = absurd (omega (arith, h))
drop-splice_after (x ∷ xs) zero (b ∷ bs) (suc p) h =
    drop-splice_after xs zero bs p (omega (arith, h))
