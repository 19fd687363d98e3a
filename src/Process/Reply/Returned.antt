-- ===== src/Process/Reply/Returned.antt =====
-- What is known of a call that has returned.
use gsdb.Common.{◌≡◌, refl}
use mathlib.Core.Path.{subst}
use gsdb.Process.Reply.{Call, Reply, returned, threw, bound, Holds}
use gsdb.Process.Reply.Follows.{Led, Follows}
use gsdb.Process.Reply.Within.{Order}

module _ {S : Type 0} where
  -- A chain of calls that returns has two parts that return.
  pub bound-eq-returned :
      {A B : Type 0} (f : A → Call S B) (r : Reply S A) (b : B) (t : S)
      → bound f r ≡ returned b t
      → (a : A) × ((s : S) × (r ≡ returned a s) × (f a s ≡ returned b t))
  bound-eq-returned f (returned a s) b t e = (a, (s, refl, e))
  bound-eq-returned f (threw e s) b t h = absurd (cc)
  bound-eq-returned f Reply.crashed b t h = absurd (cc)
  bound-eq-returned f Reply.unfinished b t h = absurd (cc)

  pub returned-injective :
      {A : Type 0} {a b : A} {s t : S}
      → ◌≡◌ {A = Reply S A} (returned a s) (returned b t)
      → (a ≡ b) × (s ≡ t)
  returned-injective e = (cc, cc)

  -- A call that follows an order leads to the state where it returns.
  pub Follows-returned :
      {A : Type 0} (o : Order S) (m : Call S A)
      → Follows o m
      → (s t : S) (a : A) → m s ≡ returned a t
      → o.Leads s t
  Follows-returned o m h s t a e = subst (Led o s) e (h.follows s)

  -- A call that ends, with what is known where it returns.
  pub Holds-returned :
      {A : Type 0} (P Q : A → S → Type 0) (E : S → Type 0) (r : Reply S A)
      → Holds P E r
      → ((a : A) (t : S) → r ≡ returned a t → Q a t)
      → Holds Q (λ t. Unit) r
  Holds-returned P Q E (returned a t) h k = k a t refl
  Holds-returned P Q E (threw e t) h k = tt
  Holds-returned P Q E Reply.crashed h k = tt
  Holds-returned P Q E Reply.unfinished h k = h
