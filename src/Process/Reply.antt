-- ===== src/Process/Reply.antt =====
-- A method of the process class: it reads and changes the state, and the state comes back after a
-- throw too, since `wait_on_signal` catches what its handler throws and goes on from there.
pub mod Within
pub mod Follows
pub mod Returned
use gsdb.Common.{Bool, true, false, ◌≡◌, refl}
use gsdb.Common.{Outcome, ok, err, Error, Ends, if◌then◌else◌}

pub data Reply (S A : Type 0) : Type 0 where
  returned : A → S → Reply S A
  threw : Error → S → Reply S A
  crashed : Reply S A
  unfinished : Reply S A

abbrev pub Call : Type 0 → Type 0 → Type 0
Call S A = S → Reply S A

module _ {S : Type 0} where
  abbrev pub pure : {A : Type 0} → A → Call S A
  pure a s = returned a s

  abbrev pub gets : {A : Type 0} → (S → A) → Call S A
  gets f s = returned (f s) s

  abbrev pub modify : (S → S) → Call S Unit
  modify f s = returned tt (f s)

  abbrev pub throw : {A : Type 0} → Error → Call S A
  throw e s = threw e s

  abbrev pub throw_unless : Bool → Error → Call S Unit
  throw_unless true e s = returned tt s
  throw_unless false e s = threw e s

  infixl 5 ◌>>=◌ ◌>>◌
  abbrev pub bound : {A B : Type 0} → (A → Call S B) → Reply S A → Reply S B
  bound f (returned a s) = f a s
  bound f (threw e s) = threw e s
  bound f crashed = crashed
  bound f unfinished = unfinished

  abbrev pub ◌>>=◌ : {A B : Type 0} → Call S A → (A → Call S B) → Call S B
  ◌>>=◌ m f s = bound f (m s)

  abbrev pub ◌>>◌ : {A B : Type 0} → Call S A → Call S B → Call S B
  m >> k = m >>= λ _. k

  abbrev pub when : Bool → Call S Unit → Call S Unit
  when true m s = m s
  when false m s = returned tt s

  -- The code after `catch (...)`, which throws the exception again.
  abbrev pub rethrow : {A : Type 0} → Call S Unit → Reply S A → Reply S A
  rethrow handler (returned a s) = returned a s
  rethrow handler (threw e s) = bound (λ _. throw e) (handler s)
  rethrow handler crashed = crashed
  rethrow handler unfinished = unfinished

  abbrev pub catching : {A : Type 0} → Call S A → Call S Unit → Call S A
  catching m handler s = rethrow handler (m s)

  -- A call of another component, whose result is put into the state.
  abbrev pub settled : {A B : Type 0} → (A → S → Reply S B) → Outcome A → S → Reply S B
  settled put (ok a) s = put a s
  settled put (err e) s = threw e s
  settled put Outcome.undefined s = crashed
  settled put Outcome.exhausted s = unfinished

  abbrev pub lift : {A B : Type 0} → (S → Outcome A) → (A → Call S B) → Call S B
  lift m put s = settled put (m s) s

  -- What holds of a reply: one thing where the call returned, another where it threw. The call
  -- does not run out of rounds.
  abbrev pub Holds : {A : Type 0} → (A → S → Type 0) → (S → Type 0) → Reply S A → Type 0
  Holds P E (returned a s) = P a s
  Holds P E (threw e s) = E s
  Holds P E crashed = Unit
  Holds P E unfinished = ⊥

  pub Holds-bound :
      {A B : Type 0} (P : A → S → Type 0) (Q : B → S → Type 0) (E F : S → Type 0)
      → (r : Reply S A) (f : A → Call S B) → Holds P E r
      → ((a : A) (s : S) → P a s → Holds Q F (f a s))
      → ((s : S) → E s → F s)
      → Holds Q F (bound f r)
  Holds-bound P Q E F (returned a s) f h k l = k a s h
  Holds-bound P Q E F (threw e s) f h k l = l s h
  Holds-bound P Q E F crashed f h k l = tt
  Holds-bound P Q E F unfinished f h k l = h

  pub Holds-weaken :
      {A : Type 0} (P Q : A → S → Type 0) (E F : S → Type 0) (r : Reply S A)
      → Holds P E r
      → ((a : A) (s : S) → P a s → Q a s)
      → ((s : S) → E s → F s)
      → Holds Q F r
  Holds-weaken P Q E F (returned a s) h k l = k a s h
  Holds-weaken P Q E F (threw e s) h k l = l s h
  Holds-weaken P Q E F crashed h k l = tt
  Holds-weaken P Q E F unfinished h k l = h

  pub Holds-if :
      {A : Type 0} (P : A → S → Type 0) (E : S → Type 0) (b : Bool) (m n : Call S A) (s : S)
      → (b ≡ true → Holds P E (m s))
      → (b ≡ false → Holds P E (n s))
      → Holds P E ((if b then m else n) s)
  Holds-if P E true m n s h k = h refl
  Holds-if P E false m n s h k = k refl

  pub Holds-when :
      (P E : S → Type 0) (b : Bool) (m : Call S Unit) (s : S)
      → (b ≡ true → Holds (λ _. P) E (m s))
      → (b ≡ false → P s)
      → Holds (λ _. P) E (when b m s)
  Holds-when P E true m s h k = h refl
  Holds-when P E false m s h k = k refl

  pub Holds-catching :
      {A : Type 0} (P : A → S → Type 0) (E F : S → Type 0) (m : Call S A) (handler : Call S Unit)
      → (s : S) → Holds P E (m s)
      → ((s' : S) → E s' → Holds (λ _. F) F (handler s'))
      → Holds P F (catching m handler s)
  Holds-catching {A = A} P E F m handler s h k = caught (m s) h
    where
      caught : (r : Reply S A) → Holds P E r → Holds P F (rethrow handler r)
      caught (returned a s') g = g
      caught (threw e s') g =
          Holds-bound (λ _. F) P F F (handler s') (λ _. throw e) (k s' g) (λ _ s'' q. q)
            (λ s'' q. q)
      caught crashed g = tt
      caught unfinished g = g

  pub Holds-lift :
      {A B : Type 0} (P : A → Type 0) (Q : B → S → Type 0) (E : S → Type 0) (s : S)
      → (m : S → Outcome A) (put : A → Call S B) → Ends P (m s)
      → ((a : A) → P a → Holds Q E (put a s))
      → E s
      → Holds Q E (lift m put s)
  Holds-lift {A = A} P Q E s m put h k l = at (m s) h
    where
      at : (o : Outcome A) → Ends P o → Holds Q E (settled put o s)
      at (ok a) g = k a g
      at (err e) g = l
      at Outcome.undefined g = tt
      at Outcome.exhausted g = g tt
