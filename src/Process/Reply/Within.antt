-- ===== src/Process/Reply/Within.antt =====
-- Calls of the process class that change the state only along a given order: what such an order
-- is, and how it is carried from the parts of a method to the whole.
use gsdb.Common.{Bool, true, false, ◌≡◌, refl, Outcome, Ends, if◌then◌else◌}
use gsdb.Process.Reply.{
  Call, pure, gets, when, lift, catching, ◌>>=◌, Holds, Holds-bound, Holds-weaken, Holds-catching,
  Holds-lift,
}

-- What a method may do to the state: nothing, and one such change after another.
pub record Order (S : Type 0) : Type 1 where
  pub Leads : S → S → Type 0
  pub Leads-refl : (s : S) → Leads s s
  pub Leads-trans : (s t u : S) → Leads s t → Leads t u → Leads s u

-- Nothing is stated of the result.
abbrev pub Any : {S A : Type 0} → A → S → Type 0
Any a t = Unit

module _ {S : Type 0} (o : Order S) where
  -- The call from `s`, returning or throwing, ends in a state that `s` leads to; what it returns
  -- is as stated.
  unfoldable pub Within : {A : Type 0} → (A → S → Type 0) → Call S A → S → Type 0
  Within P m s = Holds (λ a t. P a t × o.Leads s t) (o.Leads s) (m s)

  pub Within-intro :
      {A : Type 0} (P : A → S → Type 0) (m : Call S A) (s : S)
      → Holds (λ a t. P a t × o.Leads s t) (o.Leads s) (m s)
      → Within P m s
  unfolding Within
  Within-intro P m s h = h

  pub Within-elim :
      {A : Type 0} (P : A → S → Type 0) (m : Call S A) (s : S)
      → Within P m s
      → Holds (λ a t. P a t × o.Leads s t) (o.Leads s) (m s)
  unfolding Within
  Within-elim P m s h = h

  pub Within-bind :
      {A B : Type 0} (P : A → S → Type 0) (Q : B → S → Type 0)
      → (m : Call S A) (f : A → Call S B) (s : S) → Within P m s
      → ((a : A) (t : S) → P a t → o.Leads s t → Within Q (f a) t)
      → Within Q (m >>= f) s
  unfolding Within
  Within-bind P Q m f s h k =
      Holds-bound (λ a t. P a t × o.Leads s t) (λ b t. Q b t × o.Leads s t) (o.Leads s) (o.Leads s)
        (m s) f h
        (λ a t p.
          Holds-weaken (λ b u. Q b u × o.Leads t u) (λ b u. Q b u × o.Leads s u) (o.Leads t)
            (o.Leads s) (f a t) (k a t p.0 p.1) (λ b u q. (q.0, o.Leads-trans s t u p.1 q.1))
            (λ u q. o.Leads-trans s t u p.1 q))
        (λ t e. e)

  pub Within-pure : {A : Type 0} (P : A → S → Type 0) (a : A) (s : S) → P a s → Within P (pure a) s
  unfolding Within
  Within-pure P a s p = (p, o.Leads-refl s)

  pub Within-gets :
      {A : Type 0} (P : A → S → Type 0) (f : S → A) (s : S) → P (f s) s → Within P (gets f) s
  unfolding Within
  Within-gets P f s p = (p, o.Leads-refl s)

  pub Within-if :
      {A : Type 0} (P : A → S → Type 0) (b : Bool) (m n : Call S A) (s : S)
      → (b ≡ true → Within P m s)
      → (b ≡ false → Within P n s)
      → Within P (if b then m else n) s
  unfolding Within
  Within-if P true m n s h k = h refl
  Within-if P false m n s h k = k refl

  pub Within-when :
      (b : Bool) (m : Call S Unit) (s : S) → (b ≡ true → Within Any m s) → Within Any (when b m) s
  unfolding Within
  Within-when true m s h = h refl
  Within-when false m s h = (tt, o.Leads-refl s)

  pub Within-lift :
      {A B : Type 0} (P : A → Type 0) (Q : B → S → Type 0)
      → (m : S → Outcome A) (put : A → Call S B) (s : S) → Ends P (m s)
      → ((a : A) → P a → Within Q (put a) s)
      → Within Q (lift m put) s
  unfolding Within
  Within-lift P Q m put s h k =
      Holds-lift P (λ b t. Q b t × o.Leads s t) (o.Leads s) s m put h k (o.Leads-refl s)

  pub Within-weaken :
      {A : Type 0} (P Q : A → S → Type 0) (m : Call S A) (s : S)
      → Within P m s
      → ((a : A) (t : S) → P a t → o.Leads s t → Q a t)
      → Within Q m s
  unfolding Within
  Within-weaken P Q m s h k =
      Holds-weaken (λ a t. P a t × o.Leads s t) (λ a t. Q a t × o.Leads s t) (o.Leads s) (o.Leads s)
        (m s) h (λ a t p. (k a t p.0 p.1, p.1)) (λ t e. e)

  -- The handler starts where the body threw.
  pub Within-catching :
      {A : Type 0} (P : A → S → Type 0) (m : Call S A) (handler : Call S Unit) (s : S)
      → Within P m s
      → ((t : S) → o.Leads s t → Within Any handler t)
      → Within P (catching m handler) s
  unfolding Within
  Within-catching P m handler s h k =
      Holds-catching (λ a t. P a t × o.Leads s t) (o.Leads s) (o.Leads s) m handler s h
        (λ t e.
          Holds-weaken (λ _ u. Any tt u × o.Leads t u) (λ _. o.Leads s) (o.Leads t) (o.Leads s)
            (handler t) (k t e) (λ _ u q. o.Leads-trans s t u e q.1)
            (λ u q. o.Leads-trans s t u e q))

-- A narrower order.
pub Within-into :
    {S A : Type 0} (o p : Order S) (P : A → S → Type 0) (m : Call S A) (s : S)
    → Within o P m s
    → ((t : S) → o.Leads s t → p.Leads s t)
    → Within p P m s
unfolding Within
Within-into o p P m s h k =
    Holds-weaken (λ a t. P a t × o.Leads s t) (λ a t. P a t × p.Leads s t) (o.Leads s) (p.Leads s)
      (m s) h (λ a t q. (q.0, k t q.1)) k
