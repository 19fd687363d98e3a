-- ===== src/Process/Threads/Sites.antt =====
-- The methods of src/process.cpp on the threads remove no breakpoint site, and only the hit handlers
-- that they call make sites.
pub mod Handled
pub mod Waits
use gsdb.Common.{
  ℕ, ◌≡◌, refl, sym, ap, ◌∙◌, Bool, true, false, arith, List, [], ◌∷◌, ◌++◌, map, All, All-append,
}
use mathlib.Core.List.{append-nil, append_assoc}
use gsdb.Common.{Error, Option, none, some, zero, suc}
use gsdb.Stoppoints.Site.{Site, replace_site}
use gsdb.Process.Reply.{Call, pure, gets, modify, throw, lift}
use gsdb.Process.Reply.Within.{Order}
use gsdb.Process.Reply.Follows.{Led, Follows, Follows-bind, Follows-modify, follows_rules}
use gsdb.Process.Threads.{
  Thread, Process, System, Request, ProcessState, StopReason, SyscallCatchPolicy, outside,
  thread_at, at_thread, request, get_pc, put_site, enable_at, disable_at, swallow_pending_sigstop,
  wait_for_step, step_over_breakpoint, set_running, continue_with, send_continue, resume,
  find_thread, thread_or_throw, thread_or,
}

abbrev pub addresses : {W : Type 0} → Process W → List ℕ
addresses s = map (λ t. t.address) s.breakpoint_sites

-- The sites are where they were, in their order, and behind them those that were made since, each at
-- an address that `Made` allows.
abbrev pub added : {W : Type 0} → (ℕ → Type 0) → Order (Process W)
added Made = record {
  Leads = λ s t. (more : List ℕ) × (addresses t ≡ addresses s ++ more) × All Made more;
  Leads-refl = λ s. ([], sym (append-nil (addresses s)), tt);
  Leads-trans = λ s t u (xs, e, p) (ys, g, q). (
    xs ++ ys,
    g ∙ ap (λ l. l ++ ys) e ∙ append_assoc (addresses s) xs ys,
    All-append Made xs ys p q,
  );
}

-- The hit handlers of breakpoints remove no site, and make them only where `Made` allows.
pub record Makes {W : Type 0} (y : System W) (Made : ℕ → Type 0) : Type 0 where
  pub hit_adds :
      (t : Site) (sites : List Site) (w : W)
      → (more : List ℕ) × (map (λ u. u.address) (y.notify_hit t sites w).1.0
          ≡ map (λ u. u.address) sites ++ more)
        × All Made more

-- A change of a site leaves it at its address.
addresses-replace_site :
    (t : Site) (sites : List Site)
    → map (λ u. u.address) (replace_site t sites) ≡ map (λ u. u.address) sites
addresses-replace_site t [] = refl
addresses-replace_site t (u ∷ sites) = grind (arith, addresses-replace_site t sites)

module _ {W : Type 0} (y : System W) (Made : ℕ → Type 0) where
  abbrev pub KeepsSites : {A : Type 0} → Call (Process W) A → Type 0
  KeepsSites m = Follows (added Made) m

  -- No site is made.
  pub unchanged :
      (s : Process W) {xs : List ℕ}
      → xs ≡ addresses s
      → (more : List ℕ) × (xs ≡ addresses s ++ more) × All Made more
  unchanged s e = ([], e ∙ sym (append-nil (addresses s)), tt)

  -- A change of something else.
  pub elsewhere :
      (f : Process W → Process W)
      → ((s : Process W) → (f s).breakpoint_sites ≡ s.breakpoint_sites)
      → KeepsSites (modify f)
  elsewhere f h = Follows-modify f (λ s. unchanged s (ap (map (λ t. t.address)) (h s)))

  pub outside-KeepsSites : {A : Type 0} (f : W → A × W) → KeepsSites (outside y f)
  outside-KeepsSites f = record { follows = λ s. unchanged s refl }

  pub thread_at-KeepsSites : (tid : ℕ) → KeepsSites (thread_at y tid)
  thread_at-KeepsSites tid = record { follows = λ s. at s (find_thread tid s.threads) }
    where
      at : (s : Process W) (o : Option Thread) → Led (added Made) s (thread_or_throw o s)
      at s none = unchanged s refl
      at s (some t) = unchanged s refl

  pub at_thread-KeepsSites : (tid : ℕ) (f : Thread → Thread) → KeepsSites (at_thread y tid f)
  at_thread-KeepsSites tid f = Follows-modify _ (λ s. unchanged s refl)

  pub put_site-KeepsSites : (r : Site × W) → KeepsSites (put_site y r)
  put_site-KeepsSites r =
      Follows-modify _ (λ s. unchanged s (addresses-replace_site r.0 s.breakpoint_sites))

  pub ruleset sites_rules = (
    follows_rules, outside-KeepsSites, thread_at-KeepsSites, at_thread-KeepsSites,
    put_site-KeepsSites, elsewhere,
  )

  pub get_pc-KeepsSites : (tid : ℕ) → KeepsSites (get_pc y tid)
  unfolding get_pc
  get_pc-KeepsSites tid = search sites_rules

  pub enable_at-KeepsSites : (a : ℕ) → KeepsSites (enable_at y a)
  enable_at-KeepsSites a = search sites_rules

  pub disable_at-KeepsSites : (a : ℕ) → KeepsSites (disable_at y a)
  disable_at-KeepsSites a = search sites_rules

  pub swallow_pending_sigstop-KeepsSites : (tid : ℕ) → KeepsSites (swallow_pending_sigstop y tid)
  unfolding swallow_pending_sigstop
  swallow_pending_sigstop-KeepsSites tid = search sites_rules

  wait_for_step-KeepsSites : (tid : ℕ) → KeepsSites (wait_for_step y tid)
  wait_for_step-KeepsSites tid = Follows-bind _ _ (outside-KeepsSites _) (λ answer. answered answer)
    where
      answered :
          (answer : Option (ℕ × ℕ))
          → KeepsSites {A = Unit {0}} (elim answer as (λ _. Call (Process W) (Unit {0})) [
            | none ↦ throw Error.os_failure
            | some event ↦ pure tt
          ])
      answered none = search sites_rules
      answered (some event) = search sites_rules

  pub step_over_breakpoint-KeepsSites : (tid : ℕ) → KeepsSites (step_over_breakpoint y tid)
  unfolding step_over_breakpoint
  step_over_breakpoint-KeepsSites tid =
      search
        (
          sites_rules, get_pc-KeepsSites, enable_at-KeepsSites, disable_at-KeepsSites,
          swallow_pending_sigstop-KeepsSites, wait_for_step-KeepsSites,
        )
        depth 12

  send_continue-KeepsSites : (tid : ℕ) → KeepsSites (send_continue y tid)
  unfolding send_continue
  send_continue-KeepsSites tid = search sites_rules depth 8

  pub resume-KeepsSites : (otid : Option ℕ) → KeepsSites (resume y otid)
  unfolding resume
  resume-KeepsSites otid =
      search (sites_rules, step_over_breakpoint-KeepsSites, send_continue-KeepsSites)
