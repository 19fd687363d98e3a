-- ===== src/Target/Ends.antt =====
-- `run_until_address` of src/target.cpp ends, without its breakpoint.
use gsdb.Common.{ℕ, ◌≤◌, ◌<◌, ◌≡◌, arith, Bool, true, false, ◌==◌, List, [], ◌∷◌, ◌++◌, All}
use gsdb.Common.{Outcome, ok, Error, some, Ends, Ends-bind, if◌then◌else◌, ◌>>=◌ as after}
use gsdb.Stoppoints.Site.{Site, disable}
use gsdb.Stoppoints.Memory.{site_stoppoint}
use gsdb.Stoppoints.Collection.{remove_first, remove_by_address}
use gsdb.Process.Reply.{Call, Holds, pure, gets, modify, throw_unless, when, ◌>>=◌}
use gsdb.Process.Reply.Within.{
  Order, Within, Any, Within-elim, Within-bind, Within-pure, Within-gets, Within-when, Within-lift,
}
use gsdb.Process.Reply.Returned.{Holds-returned}
use gsdb.Process.Threads.{StopReason, Process, System, enable_at, get_pc, resume}
use gsdb.Process.Threads.Kept.{IsFinite, Reported}
use gsdb.Process.Threads.Resumed.{enable_at-Keeps, get_pc-Keeps, disable_left}
use gsdb.Process.Threads.Rounds.{
  changes-Reported, kept-Reported, change_thread-Reported, resume-Reported,
}
use gsdb.Process.Threads.Stops.{wait_on_signal}
use gsdb.Process.Threads.Waits.{wait_on_signal-AllStopped}
use gsdb.Process.Threads.Sites.{addresses, added, Makes}
use gsdb.Target.{View, plant, uproot, set_reason, finish_run, breakpoint_pc, run_until_address}
use gsdb.Target.Clean.{run_until_address-returned}

-- A call that ends, whatever the state, and brings no new reports.
record Calm {W A : Type 0} (left : W → ℕ) (m : Call (Process W) A) : Type 0 where
  calm : (s : Process W) → Within (Reported left) Any m s

module _ {W : Type 0} {left : W → ℕ} where
  Calm-bind :
      {A B : Type 0} (m : Call (Process W) A) (f : A → Call (Process W) B)
      → Calm left m
      → ((a : A) → Calm left (f a))
      → Calm left (m >>= f)
  Calm-bind m f h k = record {
    calm = λ s. Within-bind (Reported left) Any Any m f s (h.calm s) (λ a t _ _. (k a).calm t);
  }

  Calm-pure : {A : Type 0} (a : A) → Calm left (pure a)
  Calm-pure a = record { calm = λ s. Within-pure (Reported left) Any a s tt }

  Calm-gets : {A : Type 0} (f : Process W → A) → Calm left (gets f)
  Calm-gets f = record { calm = λ s. Within-gets (Reported left) Any f s tt }

  Calm-if :
      {A : Type 0} (b : Bool) (m n : Call (Process W) A)
      → Calm left m
      → Calm left n
      → Calm left (if b then m else n)
  Calm-if true m n h k = h
  Calm-if false m n h k = k

  Calm-when : (b : Bool) (m : Call (Process W) Unit) → Calm left m → Calm left (when b m)
  Calm-when b m h = record { calm = λ s. Within-when (Reported left) b m s (λ _. h.calm s) }

  Calm-throw_unless : (b : Bool) (e : Error) → Calm left (throw_unless b e)
  unfolding Within
  Calm-throw_unless true e = record { calm = λ s. (tt, omega arith) }
  Calm-throw_unless false e = record { calm = λ s. omega arith }

ruleset calm_rules = (Calm-pure, Calm-gets, Calm-if, Calm-when, Calm-throw_unless, Calm-bind)

module _ {W : Type 0} (y : System W) (v : View W) (left : W → ℕ) (h : IsFinite y left) where
  remove_left :
      (test : Site → Bool) (sites : List Site) (w : W)
      → Ends (λ r. left r.1 ≤ left w) (remove_first (site_stoppoint y.kernel) test sites w)
  unfolding remove_first
  remove_left test [] w = omega arith
  remove_left test (t ∷ sites) w = at (remove_left test sites w) (test t)
    where
      at :
          Ends (λ r. left r.1 ≤ left w) (remove_first (site_stoppoint y.kernel) test sites w)
          → (b : Bool)
          → Ends
              (λ r. left r.1 ≤ left w)
              (elim b as (λ _. Outcome (List Site × W)) [
                | true ↦ after (disable y.kernel t w) (λ r. ok (sites, r.1))
                | false ↦
                    after
                      (remove_first (site_stoppoint y.kernel) test sites w)
                      (λ r. ok (t ∷ r.0, r.1))
              ])
      at l true =
          Ends-bind (λ r. left r.1 ≤ left w) (λ r. left r.1 ≤ left w) (disable y.kernel t w) _
            (disable_left y left h t w) (λ r l. l)
      at l false =
          Ends-bind (λ r. left r.1 ≤ left w) (λ r. left r.1 ≤ left w)
            (remove_first (site_stoppoint y.kernel) test sites w) _ l (λ r l. l)

  uproot-Calm : (address : ℕ) → Calm left (uproot y v address)
  unfolding remove_by_address
  uproot-Calm address = record {
    calm = λ s.
        Within-lift (Reported left) (λ r. left r.1 ≤ left s.outside) Any
          (λ s. remove_by_address (site_stoppoint y.kernel) s.breakpoint_sites address s.outside)
          (λ r. modify (λ s. record s { breakpoint_sites = r.0; outside = r.1 })) s
          (remove_left (λ t. t.address == address) s.breakpoint_sites s.outside)
          (λ r l.
            changes-Reported y left h (λ s. record s { breakpoint_sites = r.0; outside = r.1 }) s
              l);
  }

  pushed-Calm :
      (f : Process W → List Site) → Calm left (modify (λ s. record s { breakpoint_sites = f s }))
  pushed-Calm f = record {
    calm =
        λ s. changes-Reported y left h (λ s. record s { breakpoint_sites = f s }) s (omega arith);
  }

  enable_at-Calm : (address : ℕ) → Calm left (enable_at y address)
  enable_at-Calm address = record {
    calm = λ s.
        kept-Reported y left h Any (enable_at y address) s (enable_at-Keeps y left h address s);
  }

  get_pc-Calm : (tid : ℕ) → Calm left (get_pc y tid)
  get_pc-Calm tid = record {
    calm = λ s. kept-Reported y left h Any (get_pc y tid) s (get_pc-Keeps y left h tid s);
  }

  set_reason-Calm : (tid : ℕ) (reason : StopReason) → Calm left (set_reason y v tid reason)
  set_reason-Calm tid reason = record { calm = λ s. change_thread-Reported y left h tid _ s }

  plant-Calm : (address : ℕ) → Calm left (plant y v address)
  plant-Calm address = search (calm_rules, pushed-Calm, enable_at-Calm) depth 8

  resume-Calm : (tid : ℕ) → Calm left (resume y (some tid))
  resume-Calm tid = record { calm = resume-Reported y left h tid }

  finish-Calm :
      (address tid : ℕ) (made : Bool) (reason : StopReason)
      → Calm left (breakpoint_pc y v tid reason >>= finish_run y v address tid made reason)
  finish-Calm address tid made reason =
      search (calm_rules, get_pc-Calm, uproot-Calm, set_reason-Calm) depth 12

  run_until_address-Ends :
      (rounds address tid : ℕ) (s : Process W)
      → (left s.outside < rounds)
      → Within (Reported left) Any (run_until_address y v rounds address tid) s
  unfolding run_until_address
  run_until_address-Ends rounds address tid s l =
      Within-bind (Reported left) Any Any (plant y v address)
        (λ made. resume y (some tid) >>= λ _. waited made) s ((plant-Calm address).calm s)
        (λ made t _ first.
          Within-bind (Reported left) Any Any (resume y (some tid)) (λ _. waited made) t
            ((resume-Calm tid).calm t)
            (λ _ u _ second.
              Within-bind (Reported left) _ Any (wait_on_signal y rounds (some tid))
                (λ reason. breakpoint_pc y v tid reason >>= finish_run y v address tid made reason)
                u
                (wait_on_signal-AllStopped y left h rounds (some tid) u
                  (omega (arith, first, second, l)))
                (λ reason w _ _. (finish-Calm address tid made reason).calm w)))
    where
      waited : Bool → Call (Process W) StopReason
      waited made = wait_on_signal y rounds (some tid) >>= λ reason.
          breakpoint_pc y v tid reason >>= finish_run y v address tid made reason

  -- Let the hit handlers of breakpoints remove no site, and make sites only at addresses that `Made`
  -- allows. Where the system has fewer changes of state of its threads left to report than there are
  -- rounds, `run_until_address` ends: it returns, throws, or does something undefined. Where it
  -- returns, the process has its breakpoint sites at the addresses where it had them before, in
  -- their order, and behind them no other than sites that handlers made: the internal breakpoint has
  -- been taken out, and one that was there is still there.
  pub run_until_address-clean :
      (Made : ℕ → Type 0) (rounds address tid : ℕ) (s : Process W)
      → Makes y Made
      → (left s.outside < rounds)
      → Holds
          (λ reason t. (more : List ℕ) × (addresses t ≡ addresses s ++ more) × All Made more)
          (λ t. Unit)
          (run_until_address y v rounds address tid s)
  run_until_address-clean Made rounds address tid s makes l =
      Holds-returned _ (λ reason t. Order.Leads (added Made) s t) _
        (run_until_address y v rounds address tid s)
        (Within-elim (Reported left) Any (run_until_address y v rounds address tid) s
          (run_until_address-Ends rounds address tid s l))
        (λ reason t e. run_until_address-returned y v Made makes rounds address tid reason s t e)
