-- ===== src/Process/Threads/Resumed.antt =====
-- The calls of src/process.cpp that a thread makes on its way to be resumed: they leave the states
-- of the threads, and bring no new reports.
use gsdb.Common.{ℕ, ◌≤◌, refl, true, false, not, arith, bit_and, bit_or}
use gsdb.Common.{List, Option, none, some}
use gsdb.Common.{Outcome, ok, Error, or_err, Ends, Ends-bind, Ends-if, ◌>>=◌ as after}
use gsdb.Common.Word.{not64}
use gsdb.Stoppoints.Site.{Site, enable, disable, replace_byte}
use gsdb.Stoppoints.Memory.{site_stoppoint}
use gsdb.Stoppoints.Collection.{enabled_stoppoint_at_address, get_by_address, contains_address}
use gsdb.Process.Reply.{Call, pure, lift, throw}
use gsdb.Process.Reply.Within.{Within, Any, Within-bind, Within-pure, Within-lift}
use gsdb.Process.Threads.{
  Process, System, Request, enable_at, disable_at, put_site, wait_for_step, swallow_pending_sigstop,
  step_over_breakpoint, get_pc,
}
use gsdb.Process.Threads.Kept.{
  IsFinite, Settles, or_err-Settles, or_err-Ends, Kept, Keeps, bind-Keeps, seq-Keeps, throw-Keeps,
  at_thread-Kept, thread_at-Kept, request-Kept, waitpid-Keeps, request_outside-Keeps, reading-Kept,
  when-Keeps,
}

module _ {W : Type 0} (y : System W) (left : W → ℕ) (h : IsFinite y left) where
  pub get_by_address-Settles :
      (sites : List Site) (a : ℕ) → Settles (get_by_address (site_stoppoint y.kernel) sites a)
  unfolding get_by_address
  get_by_address-Settles sites a = or_err-Settles Error.no_stoppoint_address _

  enabled-Settles :
      (sites : List Site) (a : ℕ)
      → Settles (enabled_stoppoint_at_address (site_stoppoint y.kernel) sites a)
  unfolding enabled_stoppoint_at_address contains_address get_by_address
  enabled-Settles sites a = ground arith

  -- A site's change leaves as many reports.
  put_site-Keeps :
      (s : Process W) (r : Site × W) → (left r.1 ≤ left s.outside) → Keeps left (put_site y r) s
  unfolding Within
  put_site-Keeps s r k = (tt, ((λ u. refl), k))

  replaced_left :
      (w : W) (address word byte : ℕ)
      → Ends (λ w'. left w' ≤ left w) (replace_byte y.kernel w address word byte)
  replaced_left w address word byte =
      or_err-Ends (λ w'. left w' ≤ left w) Error.os_failure _
        (λ w'. h.poke_left address (bit_or (bit_and word (not64 0xff)) byte) w w')

  -- The software branch of both: the word is read, and written back with another byte.
  patched_left :
      (w : W) (address : ℕ) (byte : ℕ → ℕ) (site : ℕ → Site)
      → Ends {A = Site × W}
          (λ r. left r.1 ≤ left w)
          (after (or_err Error.os_failure (y.kernel.peek w address)) (λ word.
            after (replace_byte y.kernel w address word (byte word)) (λ w'. ok (site word, w'))))
  patched_left w address byte site =
      Ends-bind (λ _. Unit {0}) (λ (r : Site × W). left r.1 ≤ left w)
        (or_err Error.os_failure (y.kernel.peek w address)) _ (or_err-Settles _ _)
        (λ word _.
          Ends-bind (λ w'. left w' ≤ left w) (λ r. left r.1 ≤ left w)
            (replace_byte y.kernel w address word (byte word)) _
            (replaced_left w address word (byte word)) (λ w' k. k))

  enable_left : (site : Site) (w : W) → Ends (λ r. left r.1 ≤ left w) (enable y.kernel site w)
  unfolding enable
  enable_left site w =
      Ends-if (λ r. left r.1 ≤ left w) site.is_enabled _ _ (λ _. omega arith)
        (λ _.
          Ends-if (λ r. left r.1 ≤ left w) site.is_hardware _ _
            (λ _.
              Ends-bind (λ r. left r.1 ≤ left w) (λ r. left r.1 ≤ left w)
                (y.kernel.set_hardware_breakpoint w site.id site.address) _
                (h.set_left site.id site.address w) (λ r k. k))
            (λ _.
              patched_left w site.address (λ _. 0xcc)
                (λ word. record site { saved_data = bit_and word 0xff; is_enabled = true })))

  pub disable_left : (site : Site) (w : W) → Ends (λ r. left r.1 ≤ left w) (disable y.kernel site w)
  unfolding disable
  disable_left site w =
      Ends-if (λ r. left r.1 ≤ left w) (not site.is_enabled) _ _ (λ _. omega arith)
        (λ _.
          Ends-if (λ r. left r.1 ≤ left w) site.is_hardware _ _
            (λ _.
              Ends-bind (λ w'. left w' ≤ left w) (λ r. left r.1 ≤ left w)
                (y.kernel.clear_hardware_stoppoint w site.hardware_register_index) _
                (h.clear_left site.hardware_register_index w) (λ r k. k))
            (λ _.
              patched_left w site.address (λ _. site.saved_data)
                (λ _. record site { is_enabled = false })))

  toggled-Keeps :
      (toggle : Site → W → Outcome (Site × W)) (a : ℕ)
      → ((site : Site) (w : W) → Ends (λ r. left r.1 ≤ left w) (toggle site w))
      → (s : Process W)
      → Keeps left
          (lift
            (λ s. get_by_address (site_stoppoint y.kernel) s.breakpoint_sites a)
            (λ site. lift (λ s. toggle site s.outside) (put_site y)))
          s
  toggled-Keeps toggle a k s =
      Within-lift (Kept left) (λ _. Unit {0}) Any
        (λ s. get_by_address (site_stoppoint y.kernel) s.breakpoint_sites a)
        (λ site. lift (λ s. toggle site s.outside) (put_site y)) s
        (get_by_address-Settles s.breakpoint_sites a)
        (λ site _.
          Within-lift (Kept left) (λ r. left r.1 ≤ left s.outside) Any (λ s. toggle site s.outside)
            (put_site y) s (k site s.outside) (λ r l. put_site-Keeps s r l))

  pub enable_at-Keeps : (a : ℕ) (s : Process W) → Keeps left (enable_at y a) s
  enable_at-Keeps a s = toggled-Keeps (enable y.kernel) a enable_left s

  pub disable_at-Keeps : (a : ℕ) (s : Process W) → Keeps left (disable_at y a) s
  disable_at-Keeps a s = toggled-Keeps (disable y.kernel) a disable_left s

  pub swallow_pending_sigstop-Keeps :
      (tid : ℕ) (s : Process W) → Keeps left (swallow_pending_sigstop y tid) s
  unfolding swallow_pending_sigstop
  swallow_pending_sigstop-Keeps tid s =
      Within-bind (Kept left) _ Any _ _ s (thread_at-Kept y left h tid s) (λ t s _ _.
        when-Keeps left t.pending_sigstop _
          (seq-Keeps left _ _
            (seq-Keeps left _ _ (request_outside-Keeps y left h Request.cont tid)
              (waitpid-Keeps y left h (some tid)))
            (λ s.
              at_thread-Kept y left h tid (λ t. record t { pending_sigstop = false }) s (λ t. refl)
                (λ t. refl)))
          s)

  pub get_pc-Keeps : (tid : ℕ) (s : Process W) → Keeps left (get_pc y tid) s
  unfolding get_pc
  get_pc-Keeps tid s =
      Within-bind (Kept left) _ Any _ _ s (thread_at-Kept y left h tid s)
        (λ t s _ _. Within-pure (Kept left) Any t.regs.rip s tt)

  wait_for_step-Keeps : (tid : ℕ) (s : Process W) → Keeps left (wait_for_step y tid) s
  wait_for_step-Keeps tid s =
      bind-Keeps left _ _ s (waitpid-Keeps y left h (some tid) s) (λ answer s. answered answer s)
    where
      answered :
          (answer : Option (ℕ × ℕ)) (s : Process W)
          → Keeps left {A = Unit {0}}
              (elim answer as (λ _. Call (Process W) (Unit {0})) [
                | none ↦ throw Error.os_failure
                | some event ↦ pure tt
              ])
              s
      answered none s = throw-Keeps left (Unit {0}) Error.os_failure s
      answered (some event) s = Within-pure (Kept left) Any tt s tt

  enabled-Keeps :
      (pc : ℕ) (s : Process W)
      → Keeps left
          (lift
            (λ s. enabled_stoppoint_at_address (site_stoppoint y.kernel) s.breakpoint_sites pc)
            pure)
          s
  enabled-Keeps pc s =
      reading-Kept y left h
        (λ s. enabled_stoppoint_at_address (site_stoppoint y.kernel) s.breakpoint_sites pc) s
        (enabled-Settles s.breakpoint_sites pc)

  pub step_over_breakpoint-Keeps :
      (tid : ℕ) (s : Process W) → Keeps left (step_over_breakpoint y tid) s
  unfolding step_over_breakpoint get_pc
  step_over_breakpoint-Keeps tid s = bind-Keeps left _ _ s (get_pc-Keeps tid s) (λ pc s.
      bind-Keeps left _ _ s (enabled-Keeps pc s) (λ at_breakpoint s.
        when-Keeps left at_breakpoint _
          (seq-Keeps left _ _
            (seq-Keeps left _ _
              (seq-Keeps left _ _
                (seq-Keeps left _ _ (disable_at-Keeps pc) (swallow_pending_sigstop-Keeps tid))
                (request-Kept y left h Request.single_step tid))
              (wait_for_step-Keeps tid))
            (enable_at-Keeps pc))
          s))
