-- ===== src/Breakpoints/Again.antt =====
-- Resolving a breakpoint of src/breakpoint.cpp again, as the target does when an object is loaded,
-- adds no site twice.
use gsdb.Common.{ℕ, ◌≡◌, refl, sym, ◌∙◌, true, Bool-cases, inl, inr}
use gsdb.Common.{
  arith, Option, none, some, List, [], ◌∷◌, ◌++◌, Outcome, ok, >>=-eq-ok, ok-injective, ◌>>=◌,
}
use gsdb.Common.{if_true, if_false, ap}
use gsdb.Stoppoints.Kernel.{Kernel}
use gsdb.Breakpoints.{
  Resolved, is_listed, switched, create_breakpoint_site, add_site, resolve_at, placed, for_places,
}

is_listed-append_self : (a : ℕ) (bs : List ℕ) → is_listed a (bs ++ (a ∷ [])) ≡ true
is_listed-append_self a [] = ground arith
is_listed-append_self a (b ∷ bs) = ground (arith, is_listed-append_self a bs)

is_listed-append :
    (a c : ℕ) (bs : List ℕ) → is_listed a bs ≡ true → is_listed a (bs ++ (c ∷ [])) ≡ true
is_listed-append a c [] h = absurd (cc)
is_listed-append a c (b ∷ bs) h = ground (arith, h, is_listed-append a c bs)

module _ {W : Type 0} (k : Kernel W) where
  -- A new site is listed, beside those that were.
  added :
      (address : ℕ) (s t : Resolved W)
      → add_site k address s ≡ ok t
      → t.breakpoint.breakpoint_sites ≡ s.breakpoint.breakpoint_sites ++ (address ∷ [])
  unfolding add_site
  added address s t e =
      let b = s.breakpoint in
      let (r, created, rest) =
        >>=-eq-ok
          (create_breakpoint_site k b.next_site_id address b.is_hardware b.is_internal s.sites) _
          e in
      let (q, done, last) = >>=-eq-ok (switched k b.is_enabled r.0 r.1 s.outside) _ rest in
      ap (λ u. u.breakpoint.breakpoint_sites) (sym (ok-injective last))

  resolve_at-Lists :
      (address : ℕ) (s t : Resolved W)
      → resolve_at k address s ≡ ok t
      → is_listed address t.breakpoint.breakpoint_sites ≡ true
  unfolding resolve_at
  resolve_at-Lists address s t e =
      elim (Bool-cases (is_listed address s.breakpoint.breakpoint_sites)) [
        | inl listed ↦
            rw (sym (ok-injective (sym (if_true _ (ok s) (add_site k address s) listed) ∙ e)))
              listed
        | inr new ↦
            rw (added address s t (sym (if_false _ (ok s) (add_site k address s) new) ∙ e))
              (is_listed-append_self address s.breakpoint.breakpoint_sites)
      ]

  resolve_at-keeps :
      (address a : ℕ) (s t : Resolved W)
      → resolve_at k address s ≡ ok t
      → is_listed a s.breakpoint.breakpoint_sites ≡ true
      → is_listed a t.breakpoint.breakpoint_sites ≡ true
  unfolding resolve_at
  resolve_at-keeps address a s t e h =
      elim (Bool-cases (is_listed address s.breakpoint.breakpoint_sites)) [
        | inl listed ↦
            rw (sym (ok-injective (sym (if_true _ (ok s) (add_site k address s) listed) ∙ e))) h
        | inr new ↦
            rw (added address s t (sym (if_false _ (ok s) (add_site k address s) new) ∙ e))
              (is_listed-append a address s.breakpoint.breakpoint_sites h)
      ]

  -- The second state lists what the first does.
  Includes : Resolved W → Resolved W → Type 0
  Includes s t =
      (a : ℕ)
      → is_listed a s.breakpoint.breakpoint_sites ≡ true
      → is_listed a t.breakpoint.breakpoint_sites ≡ true

  placed-Includes : (found : Option ℕ) (s t : Resolved W) → placed k found s ≡ ok t → Includes s t
  unfolding Includes
  placed-Includes none s t e a h = rw (sym (ok-injective e)) h
  placed-Includes (some address) s t e a h = resolve_at-keeps address a s t e h

  placed-again :
      (found : Option ℕ) (s t u : Resolved W)
      → placed k found s ≡ ok t
      → Includes t u
      → placed k found u ≡ ok u
  unfolding Includes resolve_at
  placed-again none s t u e h = refl
  placed-again (some address) s t u e h = rw (h address (resolve_at-Lists address s t e)) refl

  module _ {A : Type 0} (place : A → Outcome (Option ℕ)) where
    for_places-Includes :
        (found : List A) (s t : Resolved W) → for_places k place found s ≡ ok t → Includes s t
    unfolding for_places Includes
    for_places-Includes [] s t e a h = rw (sym (ok-injective e)) h
    for_places-Includes (x ∷ found) s t e a h =
        let (address, _, rest) = >>=-eq-ok (place x) _ e in
        let (u, first, last) = >>=-eq-ok (placed k address s) (for_places k place found) rest in
        for_places-Includes found u t last a (placed-Includes address s u first a h)

    -- A loop that has been through is not needed again, then or later.
    for_places-fixed :
        (found : List A) (s t u : Resolved W)
        → for_places k place found s ≡ ok t
        → Includes t u
        → for_places k place found u ≡ ok u
    unfolding for_places Includes
    for_places-fixed [] s t u e h = refl
    for_places-fixed (x ∷ found) s t u e h =
        let (address, at, rest) = >>=-eq-ok (place x) _ e in
        let (v, first, last) = >>=-eq-ok (placed k address s) (for_places k place found) rest in
        rw
          (
            at,
            placed-again address s v u first (λ a l. h a (for_places-Includes found v t last a l)),
          )
          (for_places-fixed found v t u last h)

  -- Where the loops of `resolve` over two lists of what was found return a state, the same loops
  -- over the same lists, started in that state, return it again: the breakpoint, the sites of the
  -- process and its memory are as they were.
  pub for_places-again :
      {A B : Type 0} (place : A → Outcome (Option ℕ)) (place' : B → Outcome (Option ℕ))
      → (found : List A) (found' : List B) (s t : Resolved W)
      → (for_places k place found s >>= for_places k place' found') ≡ ok t
      → (for_places k place found t >>= for_places k place' found') ≡ ok t
  unfolding Includes
  for_places-again place place' found found' s t e =
      let (u, first, second) =
        >>=-eq-ok (for_places k place found s) (for_places k place' found') e in
      rw (for_places-fixed place found s u t first (for_places-Includes place' found' u t second))
        (for_places-fixed place' found' u t t second (λ a l. l))
