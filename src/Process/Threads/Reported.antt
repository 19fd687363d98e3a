-- ===== src/Process/Threads/Reported.antt =====
-- `handle_signal` of src/process.cpp leaves the states of the threads, but for the thread that it
-- starts to track; what it reports has the state of the signal.
use gsdb.Common.{ℕ, ◌≡◌, refl, Bool, true, false, ◌==◌, ◌&&◌, arith}
use gsdb.Common.{List, [], ◌∷◌, ◌++◌, Option, none, some, if◌then◌else◌, Error}
use gsdb.Common.Word.{sub64}
use gsdb.Stoppoints.Site.{Site}
use gsdb.Process.Reply.{pure, gets, modify, when, ◌>>=◌, ◌>>◌}
use gsdb.Process.Reply.Within.{
  Order, Within, Any, Within-bind, Within-pure, Within-gets, Within-if, Within-into,
}
use gsdb.Process.Threads.{
  ProcessState, TrapType, Thread, Process, System, StopReason, sigtrap, sigstop, is_state, is_trap,
  find_thread, outside, at_thread,
}
use gsdb.Process.Threads.Kept.{
  IsFinite, Kept, Reported, Keeps, bind-Keeps, throw-Keeps, at_thread-Kept, thread_at-Kept,
  outside-Kept, reading-Kept, when-Keeps,
}
use gsdb.Process.Threads.Resumed.{get_pc-Keeps}
use gsdb.Process.Threads.Handled.{
  pure-Keeps, gets-Keeps, get_current_hardware_stoppoint-Keeps, update_watchpoint-Keeps,
  at_software_break-Keeps, augment_stop_reason-Kept, read_all_registers-Keeps,
}
use gsdb.Process.Threads.Signals.{
  get_current_hardware_stoppoint, should_resume_from_syscall, resumes_from, is_enabled_at,
  at_software_break, handle_trap, notify_target, throw_if, report_signal, stop_thread, track,
  handle_signal, when_attached, after_track, is_tracked, new_thread, report_thread_lifecycle_event,
  update_watchpoint,
}
use gsdb.Process.Threads.Kept.{Settles}
use gsdb.Process.Threads.{SyscallCatchPolicy, SyscallInformation}

-- What is reported of a signal.
abbrev pub Reports : {W : Type 0} → StopReason → Option StopReason → Process W → Type 0
Reports reason none s = Unit
Reports reason (some r) s = r.reason ≡ reason.reason

resumes_from-Settles :
    (policy : SyscallCatchPolicy) (info : Option SyscallInformation)
    → Settles (resumes_from policy info)
resumes_from-Settles (SyscallCatchPolicy.catch_some to_catch) none = tt
resumes_from-Settles (SyscallCatchPolicy.catch_some to_catch) (some call) = tt
resumes_from-Settles SyscallCatchPolicy.catch_none info = tt
resumes_from-Settles SyscallCatchPolicy.catch_all info = tt

module _ {W : Type 0} (y : System W) (left : W → ℕ) (h : IsFinite y left) where
  should_resume_from_syscall-Keeps :
      (reason : StopReason) (s : Process W) → Keeps left (should_resume_from_syscall y reason) s
  unfolding should_resume_from_syscall
  should_resume_from_syscall-Keeps reason s =
      reading-Kept y left h (λ s. resumes_from s.syscall_catch_policy reason.syscall_info) s
        (resumes_from-Settles s.syscall_catch_policy reason.syscall_info)

  watched-Keeps :
      (tid : ℕ) (s : Process W)
      → Keeps left (get_current_hardware_stoppoint y tid >>= update_watchpoint y >> pure false) s
  watched-Keeps tid s =
      bind-Keeps left (get_current_hardware_stoppoint y tid >>= update_watchpoint y)
        (λ _. pure false) s
        (bind-Keeps left (get_current_hardware_stoppoint y tid) (update_watchpoint y) s
          (get_current_hardware_stoppoint-Keeps y left h tid s) (update_watchpoint-Keeps y left h))
        (λ _ s. pure-Keeps y left h Bool false s)

  broken-Keeps :
      (tid instr_begin : ℕ) (is_main_stop : Bool) (s : Process W)
      → Keeps left
          (at_software_break y tid instr_begin >>= (λ restart. pure (restart && is_main_stop)))
          s
  broken-Keeps tid instr_begin is_main_stop s =
      bind-Keeps left (at_software_break y tid instr_begin)
        (λ restart. pure (restart && is_main_stop)) s
        (at_software_break-Keeps y left h tid instr_begin s)
        (λ restart s. pure-Keeps y left h Bool (restart && is_main_stop) s)

  handle_trap-Keeps :
      (is_main_stop : Bool) (reason : StopReason) (s : Process W)
      → Keeps left (handle_trap y is_main_stop reason) s
  unfolding handle_trap
  handle_trap-Keeps is_main_stop reason s =
      bind-Keeps left _ _ s (get_pc-Keeps y left h reason.tid s) (λ pc s.
        bind-Keeps left (gets (λ s. s.breakpoint_sites)) _ s
          (gets-Keeps y left h (List Site) (λ s. s.breakpoint_sites) s)
          (λ sites s.
            Within-if (Kept left) Any
              (is_trap TrapType.software_break reason.trap_reason
                && is_enabled_at y sites (sub64 pc 1))
              _ _ s (λ _. broken-Keeps reason.tid (sub64 pc 1) is_main_stop s)
              (λ _.
                Within-if (Kept left) Any (is_trap TrapType.hardware_break reason.trap_reason) _ _ s
                  (λ _. watched-Keeps reason.tid s)
                  (λ _.
                    Within-if (Kept left) Any
                      (is_trap TrapType.syscall reason.trap_reason && is_main_stop) _ _ s
                      (λ _. should_resume_from_syscall-Keeps reason s)
                      (λ _. pure-Keeps y left h Bool false s)))))

  throw_if-Keeps : (e : Option Error) (s : Process W) → Keeps left (throw_if e) s
  throw_if-Keeps none s = pure-Keeps y left h Unit tt s
  throw_if-Keeps (some e) s = throw-Keeps left Unit e s

  notify_target-Keeps :
      (reason : StopReason) (s : Process W) → Keeps left (notify_target y reason) s
  notify_target-Keeps reason s =
      bind-Keeps left (gets (λ s. s.has_target))
        (λ has_target. when has_target (outside y (y.notify_stop reason) >>= throw_if)) s
        (gets-Keeps y left h Bool (λ s. s.has_target) s)
        (λ has_target s.
          when-Keeps left has_target (outside y (y.notify_stop reason) >>= throw_if)
            (λ s.
              bind-Keeps left (outside y (y.notify_stop reason)) throw_if s
                (outside-Kept y left h (y.notify_stop reason) s (h.stop_left reason s.outside))
                throw_if-Keeps)
            s)

  report_signal-Kept :
      (is_main_stop : Bool) (reason : StopReason) (s : Process W)
      → Within (Kept left) (Reports reason) (report_signal y is_main_stop reason) s
  unfolding report_signal
  report_signal-Kept is_main_stop reason s =
      Within-bind (Kept left) Any _ _ _ s (read_all_registers-Keeps y left h reason.tid s)
        (λ _ s _ _.
          Within-bind (Kept left) _ _ _ _ s (augment_stop_reason-Kept y left h reason s)
            (λ augmented s same _.
              Within-bind (Kept left) Any _
                (if augmented.info == sigtrap
                  then handle_trap y is_main_stop augmented
                  else pure false)
                _ s
                (Within-if (Kept left) Any (augmented.info == sigtrap) _ _ s
                  (λ _. handle_trap-Keeps is_main_stop augmented s)
                  (λ _. pure-Keeps y left h Bool false s))
                (λ restart s _ _.
                  Within-if (Kept left) _ restart (pure none)
                    (notify_target y augmented >> pure (some augmented)) s
                    (λ _. Within-pure (Kept left) _ none s tt)
                    (λ _.
                      Within-bind (Kept left) Any _ (notify_target y augmented)
                        (λ _. pure (some augmented)) s (notify_target-Keeps augmented s)
                        (λ _ s _ _. Within-pure (Kept left) _ (some augmented) s same)))))

  stop_thread-Kept :
      (is_main_stop : Bool) (reason : StopReason) (s : Process W)
      → Within (Kept left) (Reports reason) (stop_thread y is_main_stop reason) s
  unfolding stop_thread
  stop_thread-Kept is_main_stop reason s =
      Within-bind (Kept left) _ _ _ _ s (thread_at-Kept y left h reason.tid s) (λ t s _ _.
        Within-if (Kept left) _ (t.pending_sigstop && reason.info == sigstop)
          (at_thread y reason.tid (λ t. record t { pending_sigstop = false }) >> pure none) _ s
          (λ _.
            Within-bind (Kept left) Any _
              (at_thread y reason.tid (λ t. record t { pending_sigstop = false })) (λ _. pure none)
              s
              (at_thread-Kept y left h reason.tid (λ t. record t { pending_sigstop = false }) s
                (λ t. refl) (λ t. refl))
              (λ _ s _ _. Within-pure (Kept left) _ none s tt))
          (λ _. report_signal-Kept is_main_stop reason s))

  handled-Within :
      (o : Order (Process W)) (reason : StopReason) (is_main_stop : Bool) (s : Process W)
      → ((s : Process W) → Within o (Reports reason) (stop_thread y is_main_stop reason) s)
      → Within o Any (track y reason) s
      → Within o (Reports reason) (handle_signal y reason is_main_stop) s
  unfolding handle_signal
  handled-Within o reason is_main_stop s stops tracks =
      Within-bind o (λ _ t. t ≡ s) (Reports reason) (gets (λ s. s.is_attached))
        (when_attached y reason is_main_stop) s
        (Within-gets o (λ _ t. t ≡ s) (λ s. s.is_attached) s refl)
        (λ is_attached t same _.
          Within-if o _ (is_trap TrapType.clone reason.trap_reason && is_main_stop) _ _ t
            (λ _. Within-pure o _ none t tt)
            (λ _.
              Within-if o _ (is_attached && is_state reason.reason ProcessState.stopped) _ _ t
                (λ _.
                  Within-bind o Any _ (track y reason) (after_track y reason is_main_stop) t
                    (rw same tracks)
                    (λ is_new t _ _.
                      Within-if o _ (is_new && is_main_stop) _ _ t (λ _. Within-pure o _ none t tt)
                        (λ _. stops t)))
                (λ _. Within-pure o _ (some reason) t refl)))

  track-Keeps :
      (reason : StopReason) (t : Thread) (s : Process W)
      → find_thread reason.tid s.threads ≡ some t
      → Keeps left (track y reason) s
  unfolding track Within
  track-Keeps reason t s e = rw e (tt, ((λ u. refl), omega arith))

  track-Reported :
      (reason : StopReason) (s : Process W) → Within (Reported left) Any (track y reason) s
  unfolding track Within report_thread_lifecycle_event
  track-Reported reason s =
      elim (is_tracked (find_thread reason.tid s.threads))
        as (λ b.
          Within (Reported left) Any
            (if b
              then pure false
              else (modify
                    (λ s. record s { threads = s.threads ++ (new_thread y.unread reason.tid ∷ []) })
                  >> report_thread_lifecycle_event y reason
                  >> pure true))
            s) [ true ↦ (tt, omega arith) | false ↦ (tt, h.lifecycle_left reason s.outside) ]

  -- A signal of a tracked thread, which did not cause the stop.
  pub handle_signal-Kept :
      (reason : StopReason) (is_main_stop : Bool) (t : Thread) (s : Process W)
      → find_thread reason.tid s.threads ≡ some t
      → Within (Kept left) (Reports reason) (handle_signal y reason is_main_stop) s
  handle_signal-Kept reason is_main_stop t s e =
      handled-Within (Kept left) reason is_main_stop s (stop_thread-Kept is_main_stop reason)
        (track-Keeps reason t s e)

  -- A signal of any thread.
  pub handle_signal-Reported :
      (reason : StopReason) (is_main_stop : Bool) (s : Process W)
      → Within (Reported left) (Reports reason) (handle_signal y reason is_main_stop) s
  handle_signal-Reported reason is_main_stop s =
      handled-Within (Reported left) reason is_main_stop s
        (λ s.
          Within-into (Kept left) (Reported left) _ _ s (stop_thread-Kept is_main_stop reason s)
            (λ t k. k.1))
        (track-Reported reason s)
