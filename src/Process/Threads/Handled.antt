-- ===== src/Process/Threads/Handled.antt =====
-- The parts of `handle_signal` of src/process.cpp leave the states of the threads, and bring no
-- new reports.
use gsdb.Common.{ℕ, ◌≤◌, ◌≡◌, refl, Bool, false, ltb, ◌==◌, arith}
use gsdb.Common.{List, find, get_elem?, Option, none, some, if◌then◌else◌}
use gsdb.Common.{Error, Outcome, ok, err, or_err, or_undefined, Ends-bind}
use gsdb.Dwarf.Cursor.{little_endian}
use gsdb.Stoppoints.Site.{Site}
use gsdb.Stoppoints.Memory.{site_stoppoint}
use gsdb.Stoppoints.Collection.{get_by_address, contains_address}
use gsdb.Process.Watchpoint.{Watchpoint, update_data, at_address as watches}
use gsdb.Process.Reply.{Holds, settled, pure, gets, modify, lift}
use gsdb.Process.Reply.Within.{
  Order, Within, Any, Within-bind, Within-pure, Within-gets, Within-if, Within-lift,
}
use gsdb.Process.Threads.{Thread, Process, System, StopReason, at_thread}
use gsdb.Process.Threads.Kept.{
  IsFinite, Settles, or_err-Settles, or_err-Ends, Kept, Keeps, bind-Keeps, at_thread-Kept,
  thread_at-Kept, reading-Kept,
}
use gsdb.Process.Threads.Resumed.{get_by_address-Settles}
use gsdb.Process.Threads.Signals.{
  HardwareStoppoint, augment_stop_reason, augment_other, count_trailing_zeros, site_at, point_at,
  get_current_hardware_stoppoint, read_all_registers, set_pc, hit, at_software_break,
  update_watchpoint, replace_watchpoint, augmented_syscall,
}

pub or_undefined-Settles : {A : Type 0} (o : Option A) → Settles (or_undefined o)
or_undefined-Settles none = tt
or_undefined-Settles (some a) = tt

module _ {W : Type 0} (y : System W) (left : W → ℕ) (h : IsFinite y left) where
  pub pure-Keeps : (A : Type 0) (a : A) (s : Process W) → Keeps left {A = A} (pure a) s
  pure-Keeps A a s = Within-pure (Kept left) Any a s tt

  pub modify-Keeps :
      (f : Process W → Process W) (s : Process W)
      → (f s).threads ≡ s.threads
      → (left (f s).outside ≤ left s.outside)
      → Keeps left (modify f) s
  unfolding Within
  modify-Keeps f s k l = (tt, ((λ u. rw k refl), l))

  pub gets-Keeps : (A : Type 0) (f : Process W → A) (s : Process W) → Keeps left {A = A} (gets f) s
  gets-Keeps A f s = Within-gets (Kept left) Any f s tt

  pub read_all_registers-Keeps : (tid : ℕ) (s : Process W) → Keeps left (read_all_registers y tid) s
  unfolding read_all_registers
  read_all_registers-Keeps tid s =
      Within-bind (Kept left) _ Any _ _ s (thread_at-Kept y left h tid s) (λ t s _ _.
        bind-Keeps left (lift (λ s. or_err Error.os_failure (y.read_registers tid s.outside)) pure)
          _ s
          (reading-Kept y left h (λ s. or_err Error.os_failure (y.read_registers tid s.outside)) s
            (or_err-Settles _ _))
          (λ regs s.
            at_thread-Kept y left h tid (λ t. record t { regs = regs }) s (λ t. refl) (λ t. refl)))

  set_pc-Keeps : (address tid : ℕ) (s : Process W) → Keeps left (set_pc y address tid) s
  unfolding set_pc
  set_pc-Keeps address tid s =
      Within-bind (Kept left) _ Any _ _ s (thread_at-Kept y left h tid s) (λ t s _ _.
        bind-Keeps left (at_thread y tid (λ t. record t { regs = record t.regs { rip = address } }))
          _ s
          (at_thread-Kept y left h tid (λ t. record t { regs = record t.regs { rip = address } }) s
            (λ t. refl) (λ t. refl))
          (λ _ s.
            Within-lift (Kept left) (λ w. left w ≤ left s.outside) Any
              (λ s. or_err Error.os_failure (y.write_rip tid address s.outside))
              (λ w. modify (λ s. record s { outside = w })) s
              (or_err-Ends (λ w. left w ≤ left s.outside) Error.os_failure _
                (λ w. h.write_left tid address s.outside w))
              (λ w l. modify-Keeps (λ s. record s { outside = w }) s refl l)))

  -- A partial read of the state.
  reads-Keeps :
      {A : Type 0} (e : Error) (f : Process W → Option A) (s : Process W)
      → Keeps left (lift (λ s. or_err e (f s)) pure) s
  reads-Keeps e f s = reading-Kept y left h (λ s. or_err e (f s)) s (or_err-Settles e (f s))

  expects-Keeps :
      (f : Process W → Option ℕ) (s : Process W)
      → Keeps left (lift (λ s. or_undefined (f s)) pure) s
  expects-Keeps f s = reading-Kept y left h (λ s. or_undefined (f s)) s (or_undefined-Settles (f s))

  -- `augment_stop_reason` leaves the state in the reason.
  noted_syscall-Kept :
      (reason : StopReason) (t : Thread) (s : Process W)
      → Within (Kept left) (λ r u. r.reason ≡ reason.reason) (augmented_syscall y reason t) s
  unfolding Within
  noted_syscall-Kept reason t s = (refl, ((λ u. refl), omega arith))

  augment_other-Kept :
      (reason : StopReason) (code : ℕ) (s : Process W)
      → Within (Kept left) (λ r u. r.reason ≡ reason.reason) (augment_other y reason code) s
  unfolding Within
  augment_other-Kept reason code s = (refl, ((λ u. refl), omega arith))

  pub augment_stop_reason-Kept :
      (reason : StopReason) (s : Process W)
      → Within (Kept left) (λ r t. r.reason ≡ reason.reason) (augment_stop_reason y reason) s
  unfolding augment_stop_reason
  augment_stop_reason-Kept reason s =
      Within-bind (Kept left) Any _ _ _ s
        (reads-Keeps Error.os_failure (λ s. y.signal_code reason.tid s.outside) s)
        (λ code s _ _.
          Within-if (Kept left) _ (reason.info == 133) _ _ s
            (λ _.
              Within-bind (Kept left) _ _ _ _ s (thread_at-Kept y left h reason.tid s)
                (λ t s _ _. noted_syscall-Kept reason t s))
            (λ _. augment_other-Kept reason code s))

  site_at-Keeps : (addr : ℕ) (s : Process W) → Keeps left (site_at y addr) s
  site_at-Keeps addr s =
      Within-lift (Kept left) (λ _. Unit {0}) Any
        (λ s. get_by_address (site_stoppoint y.kernel) s.breakpoint_sites addr)
        (λ site. pure (HardwareStoppoint.site site.id)) s
        (get_by_address-Settles y left h s.breakpoint_sites addr)
        (λ site _. pure-Keeps HardwareStoppoint (HardwareStoppoint.site site.id) s)

  point_at-Keeps : (addr : ℕ) (s : Process W) → Keeps left (point_at y addr) s
  point_at-Keeps addr s =
      Within-lift (Kept left) (λ _. Unit {0}) Any
        (λ s. or_err Error.no_stoppoint_address (find (λ w. watches w addr) s.watchpoints))
        (λ point. pure (HardwareStoppoint.watchpoint point.id)) s (or_err-Settles _ _)
        (λ point _. pure-Keeps HardwareStoppoint (HardwareStoppoint.watchpoint point.id) s)

  pub get_current_hardware_stoppoint-Keeps :
      (tid : ℕ) (s : Process W) → Keeps left (get_current_hardware_stoppoint y tid) s
  unfolding get_current_hardware_stoppoint
  get_current_hardware_stoppoint-Keeps tid s =
      Within-bind (Kept left) _ Any _ _ s (thread_at-Kept y left h tid s) (λ t s _ _.
        bind-Keeps left _ _ s (expects-Keeps (λ s. get_elem? t.regs.debug 6) s) (λ status s.
          bind-Keeps left _ _ s (expects-Keeps (λ s. count_trailing_zeros 64 status) s) (λ index s.
            bind-Keeps left _ _ s
              (reads-Keeps Error.unknown_register (λ s. get_elem? t.regs.debug index) s)
              (λ addr s.
                bind-Keeps left (gets (λ s. s.breakpoint_sites))
                  (λ sites.
                    if contains_address (site_stoppoint y.kernel) sites addr
                    then site_at y addr
                    else point_at y addr)
                  s (gets-Keeps (List Site) (λ s. s.breakpoint_sites) s)
                  (λ sites s.
                    Within-if (Kept left) Any
                      (contains_address (site_stoppoint y.kernel) sites addr) _ _ s
                      (λ _. site_at-Keeps addr s) (λ _. point_at-Keeps addr s))))))

  update_data-Settles :
      (point : Watchpoint) (s : Process W) → Settles (update_data (y.read_memory s.outside) point)
  unfolding update_data
  update_data-Settles point s =
      Ends-bind (λ _. Unit {0}) (λ _. Unit {0}) (y.read_memory s.outside point.address point.size) _
        (h.read_ends s.outside point.address point.size)
        (λ read _.
          Ends-bind (λ _. Unit {0}) (λ _. Unit {0})
            (or_undefined (little_endian (if ltb point.size 8 then point.size else 8) read)) _
            (or_undefined-Settles _) (λ new_data _. tt))

  pub update_watchpoint-Keeps :
      (point : HardwareStoppoint) (s : Process W) → Keeps left (update_watchpoint y point) s
  update_watchpoint-Keeps (HardwareStoppoint.site id) s = pure-Keeps Unit tt s
  update_watchpoint-Keeps (HardwareStoppoint.watchpoint id) s =
      Within-lift (Kept left) (λ _. Unit {0}) Any
        (λ s. or_err Error.no_stoppoint_id (find (λ w. w.id == id) s.watchpoints)) _ s
        (or_err-Settles _ _)
        (λ point _.
          Within-lift (Kept left) (λ _. Unit {0}) Any
            (λ s. update_data (y.read_memory s.outside) point) _ s (update_data-Settles point s)
            (λ point _.
              modify-Keeps (λ s. record s { watchpoints = replace_watchpoint point s.watchpoints })
                s refl (omega arith)))

  hit-Keeps : (bp : Site) (s : Process W) → Keeps left (hit y bp) s
  unfolding Within
  hit-Keeps bp s =
      at (y.notify_hit bp s.breakpoint_sites s.outside).0
        (h.hit_settles bp s.breakpoint_sites s.outside)
    where
      left_by : Process W
      left_by =
          let r = (y.notify_hit bp s.breakpoint_sites s.outside).1 in
          record s { breakpoint_sites = r.0; outside = r.1 }

      at :
          (o : Outcome Bool)
          → Settles o
          → Holds
              (λ a t. Any a t × Order.Leads (Kept left) s t)
              (Order.Leads (Kept left) s)
              (settled pure o left_by)
      at (ok b) e = (tt, ((λ u. refl), h.hit_left bp s.breakpoint_sites s.outside))
      at (err x) e = ((λ u. refl), h.hit_left bp s.breakpoint_sites s.outside)
      at Outcome.undefined e = tt
      at Outcome.exhausted e = absurd (e tt)

  pub at_software_break-Keeps :
      (tid instr_begin : ℕ) (s : Process W) → Keeps left (at_software_break y tid instr_begin) s
  at_software_break-Keeps tid instr_begin s =
      bind-Keeps left _ _ s (set_pc-Keeps instr_begin tid s) (λ _ s.
        bind-Keeps left
          (lift (λ s. get_by_address (site_stoppoint y.kernel) s.breakpoint_sites instr_begin) pure)
          _ s
          (reading-Kept y left h
            (λ s. get_by_address (site_stoppoint y.kernel) s.breakpoint_sites instr_begin) s
            (get_by_address-Settles y left h s.breakpoint_sites instr_begin))
          (λ bp s.
            Within-if (Kept left) Any (y.has_parent bp) _ _ s (λ _. hit-Keeps bp s)
              (λ _. pure-Keeps Bool false s)))
