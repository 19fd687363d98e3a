-- ===== src/Process/Threads/Sites/Handled.antt =====
-- `handle_signal` of src/process.cpp removes no breakpoint site, and only the hit handlers make
-- sites.
use gsdb.Common.{ℕ, Bool, Option, none, some, Error, Outcome, ok, err}
use gsdb.Stoppoints.Site.{Site}
use gsdb.Process.Reply.{pure, settled}
use gsdb.Process.Reply.Follows.{Led}
use gsdb.Process.Threads.{Process, System, StopReason}
use gsdb.Process.Threads.Signals.{
  HardwareStoppoint, augment_stop_reason, get_current_hardware_stoppoint,
  should_resume_from_syscall, report_thread_lifecycle_event, read_all_registers, set_pc, hit,
  at_software_break, update_watchpoint, handle_trap, throw_if, notify_target, report_signal, track,
  stop_thread, handle_signal,
}
use gsdb.Process.Threads.Sites.{KeepsSites, Makes, added, sites_rules, get_pc-KeepsSites}

module _ {W : Type 0} (y : System W) (Made : ℕ → Type 0) (makes : Makes y Made) where
  augment_stop_reason-KeepsSites :
      (reason : StopReason) → KeepsSites y Made (augment_stop_reason y reason)
  unfolding augment_stop_reason
  augment_stop_reason-KeepsSites reason = search sites_rules depth 10

  get_current-KeepsSites : (tid : ℕ) → KeepsSites y Made (get_current_hardware_stoppoint y tid)
  unfolding get_current_hardware_stoppoint
  get_current-KeepsSites tid = search sites_rules depth 10

  should_resume-KeepsSites :
      (reason : StopReason) → KeepsSites y Made (should_resume_from_syscall y reason)
  unfolding should_resume_from_syscall
  should_resume-KeepsSites reason = search sites_rules

  pub lifecycle-KeepsSites :
      (reason : StopReason) → KeepsSites y Made (report_thread_lifecycle_event y reason)
  unfolding report_thread_lifecycle_event
  lifecycle-KeepsSites reason = search sites_rules

  read_all_registers-KeepsSites : (tid : ℕ) → KeepsSites y Made (read_all_registers y tid)
  unfolding read_all_registers
  read_all_registers-KeepsSites tid = search sites_rules depth 8

  set_pc-KeepsSites : (address tid : ℕ) → KeepsSites y Made (set_pc y address tid)
  unfolding set_pc
  set_pc-KeepsSites address tid = search sites_rules depth 8

  hit-KeepsSites : (bp : Site) → KeepsSites y Made (hit y bp)
  hit-KeepsSites bp = record {
    follows = λ s. at s (y.notify_hit bp s.breakpoint_sites s.outside).0;
  }
    where
      left_by : Process W → Process W
      left_by s =
          let r = (y.notify_hit bp s.breakpoint_sites s.outside).1 in
          record s { breakpoint_sites = r.0; outside = r.1 }

      at : (s : Process W) (o : Outcome Bool) → Led (added Made) s (settled pure o (left_by s))
      at s (ok b) = makes.hit_adds bp s.breakpoint_sites s.outside
      at s (err e) = makes.hit_adds bp s.breakpoint_sites s.outside
      at s Outcome.undefined = tt
      at s Outcome.exhausted = tt

  at_software_break-KeepsSites :
      (tid instr_begin : ℕ) → KeepsSites y Made (at_software_break y tid instr_begin)
  at_software_break-KeepsSites tid instr_begin =
      search (sites_rules, set_pc-KeepsSites, hit-KeepsSites) depth 8

  update_watchpoint-KeepsSites :
      (point : HardwareStoppoint) → KeepsSites y Made (update_watchpoint y point)
  update_watchpoint-KeepsSites (HardwareStoppoint.site id) = search sites_rules
  update_watchpoint-KeepsSites (HardwareStoppoint.watchpoint id) = search sites_rules

  handle_trap-KeepsSites :
      (is_main_stop : Bool) (reason : StopReason)
      → KeepsSites y Made (handle_trap y is_main_stop reason)
  unfolding handle_trap
  handle_trap-KeepsSites is_main_stop reason =
      search
        (
          sites_rules, get_pc-KeepsSites, at_software_break-KeepsSites, get_current-KeepsSites,
          update_watchpoint-KeepsSites, should_resume-KeepsSites,
        )
        depth 12

  throw_if-KeepsSites : (e : Option Error) → KeepsSites y Made (throw_if e)
  throw_if-KeepsSites none = search sites_rules
  throw_if-KeepsSites (some e) = search sites_rules

  notify_target-KeepsSites : (reason : StopReason) → KeepsSites y Made (notify_target y reason)
  notify_target-KeepsSites reason = search (sites_rules, throw_if-KeepsSites)

  report_signal-KeepsSites :
      (is_main_stop : Bool) (reason : StopReason)
      → KeepsSites y Made (report_signal y is_main_stop reason)
  unfolding report_signal
  report_signal-KeepsSites is_main_stop reason =
      search
        (
          sites_rules, read_all_registers-KeepsSites, augment_stop_reason-KeepsSites,
          handle_trap-KeepsSites, notify_target-KeepsSites,
        )
        depth 10

  track-KeepsSites : (reason : StopReason) → KeepsSites y Made (track y reason)
  unfolding track
  track-KeepsSites reason = search (sites_rules, lifecycle-KeepsSites) depth 8

  stop_thread-KeepsSites :
      (is_main_stop : Bool) (reason : StopReason)
      → KeepsSites y Made (stop_thread y is_main_stop reason)
  unfolding stop_thread
  stop_thread-KeepsSites is_main_stop reason =
      search (sites_rules, report_signal-KeepsSites) depth 8

  pub handle_signal-KeepsSites :
      (reason : StopReason) (is_main_stop : Bool)
      → KeepsSites y Made (handle_signal y reason is_main_stop)
  unfolding handle_signal
  handle_signal-KeepsSites reason is_main_stop =
      search (sites_rules, track-KeepsSites, stop_thread-KeepsSites) depth 10
