-- ===== src/Process/Reply/Follows.antt =====
-- Calls of the process class that change the state only along an order, where they return and where
-- they throw: how that is carried from the parts of a method to the whole. Unlike `Within`, nothing
-- is said of a call that does not end.
use gsdb.Common.{Bool, true, false, Error, Outcome, ok, err, if◌then◌else◌}
use gsdb.Process.Reply.{
  Call, Reply, returned, threw, pure, gets, modify, throw, throw_unless, when, lift, catching,
  bound, settled, rethrow, ◌>>=◌,
}
use gsdb.Process.Reply.Within.{Order}

-- Where the reply has a state, `s` leads to it.
abbrev pub Led : {S A : Type 0} → Order S → S → Reply S A → Type 0
Led o s (returned a t) = o.Leads s t
Led o s (threw e t) = o.Leads s t
Led o s Reply.crashed = Unit
Led o s Reply.unfinished = Unit

-- The call changes the state along the order.
pub record Follows {S A : Type 0} (o : Order S) (m : Call S A) : Type 0 where
  pub follows : (s : S) → Led o s (m s)

-- What a reply is from a state that was led to.
onward :
    {S A : Type 0} (o : Order S) (s t : S) (r : Reply S A) → o.Leads s t → Led o t r → Led o s r
onward o s t (returned a u) e g = o.Leads-trans s t u e g
onward o s t (threw z u) e g = o.Leads-trans s t u e g
onward o s t Reply.crashed e g = tt
onward o s t Reply.unfinished e g = tt

module _ {S : Type 0} {o : Order S} where
  pub Follows-pure : {A : Type 0} (a : A) → Follows o (pure a)
  Follows-pure a = record { follows = λ s. o.Leads-refl s }

  pub Follows-gets : {A : Type 0} (f : S → A) → Follows o (gets f)
  Follows-gets f = record { follows = λ s. o.Leads-refl s }

  pub Follows-throw : {A : Type 0} (e : Error) → Follows {A = A} o (throw e)
  Follows-throw e = record { follows = λ s. o.Leads-refl s }

  pub Follows-throw_unless : (b : Bool) (e : Error) → Follows o (throw_unless b e)
  Follows-throw_unless true e = record { follows = λ s. o.Leads-refl s }
  Follows-throw_unless false e = record { follows = λ s. o.Leads-refl s }

  pub Follows-modify : (f : S → S) → ((s : S) → o.Leads s (f s)) → Follows o (modify f)
  Follows-modify f h = record { follows = h }

  pub Follows-bind :
      {A B : Type 0} (m : Call S A) (f : A → Call S B)
      → Follows o m
      → ((a : A) → Follows o (f a))
      → Follows o (m >>= f)
  Follows-bind {A = A} m f h k = record { follows = λ s. at s (m s) (h.follows s) }
    where
      at : (s : S) (r : Reply S A) → Led o s r → Led o s (bound f r)
      at s (returned a t) g = onward o s t (f a t) g ((k a).follows t)
      at s (threw x t) g = g
      at s Reply.crashed g = tt
      at s Reply.unfinished g = tt

  pub Follows-if :
      {A : Type 0} (b : Bool) (m n : Call S A)
      → Follows o m
      → Follows o n
      → Follows o (if b then m else n)
  Follows-if true m n h k = h
  Follows-if false m n h k = k

  pub Follows-when : (b : Bool) (m : Call S Unit) → Follows o m → Follows o (when b m)
  Follows-when true m h = record { follows = h.follows }
  Follows-when false m h = record { follows = λ s. o.Leads-refl s }

  pub Follows-lift :
      {A B : Type 0} (m : S → Outcome A) (put : A → Call S B)
      → ((a : A) → Follows o (put a))
      → Follows o (lift m put)
  Follows-lift {A = A} m put h = record { follows = λ s. at s (m s) }
    where
      at : (s : S) (r : Outcome A) → Led o s (settled put r s)
      at s (ok a) = (h a).follows s
      at s (err e) = o.Leads-refl s
      at s Outcome.undefined = tt
      at s Outcome.exhausted = tt

  pub Follows-catching :
      {A : Type 0} (m : Call S A) (handler : Call S Unit)
      → Follows o m
      → Follows o handler
      → Follows o (catching m handler)
  Follows-catching {A = A} m handler h k = record { follows = λ s. at s (m s) (h.follows s) }
    where
      at : (s : S) (r : Reply S A) → Led o s r → Led o s (rethrow handler r)
      at s (returned a t) g = g
      at s (threw e t) g =
          onward o s t (bound (λ _. throw e) (handler t)) g
            ((Follows-bind handler (λ _. throw e) k (λ _. Follows-throw {A = A} e)).follows t)
      at s Reply.crashed g = tt
      at s Reply.unfinished g = tt

pub ruleset follows_rules = (
  Follows-pure, Follows-gets, Follows-throw, Follows-throw_unless, Follows-if, Follows-when,
  Follows-lift, Follows-bind, Follows-catching,
)
