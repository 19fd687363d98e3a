-- ===== src/Process/Threads/Signals.antt =====
-- `augment_stop_reason`, `handle_signal` and what they call, of src/process.cpp: what a reported
-- signal means, and whether the thread is to be restarted.
mod Reasons
unfoldable pub use Reasons.*
use gsdb.Common.{ℕ, zero, suc, ◌+◌, ◌%◌, ◌/◌, Bool, true, false, not, ◌==◌, ◌&&◌, ◌||◌}
use gsdb.Common.{List, [], ◌∷◌, ◌++◌, find, get_elem?, switch_on, if◌then◌else◌, Option, none, some}
use gsdb.Common.{Outcome, Error, or_err, or_undefined}
use gsdb.Common.Word.{sub64}
use gsdb.Stoppoints.Site.{Site}
use gsdb.Stoppoints.Memory.{site_stoppoint}
use gsdb.Stoppoints.Collection.{contains_address, get_by_address}
use gsdb.Process.Watchpoint.{Watchpoint, update_data}
use gsdb.Process.Watchpoint.{at_address as watches}
use gsdb.Process.Reply.{Call, pure, gets, modify, throw, when, lift, settled, ◌>>=◌, ◌>>◌}
use gsdb.Process.Threads.{
  ProcessState, TrapType, SyscallValue, SyscallInformation, StopReason, Thread, Process, System,
  SyscallCatchPolicy, UserRegisters, sigtrap, sigstop, no_reason, is_state, is_trap, find_thread,
  outside, thread_at, at_thread, get_pc,
}

-- `__builtin_ctzll`, which is undefined on zero.
unfoldable pub count_trailing_zeros : ℕ → ℕ → Option ℕ
count_trailing_zeros zero n = none
count_trailing_zeros (suc left) n =
    let rest = count_trailing_zeros left (n / 2) in
    if n % 2 == 1 then some 0 else elim rest [ none ↦ none | some i ↦ some (i + 1) ]

-- The variant of `get_current_hardware_stoppoint`.
pub data HardwareStoppoint : Type 0 where
  site watchpoint : ℕ → HardwareStoppoint

abbrev pub replace_watchpoint : Watchpoint → List Watchpoint → List Watchpoint
replace_watchpoint w [] = []
replace_watchpoint w (u ∷ points) =
    if u.id == w.id then w ∷ points else u ∷ replace_watchpoint w points

-- `thread_state{tid, registers(*this, tid), stop_reason{}}`.
abbrev pub new_thread : UserRegisters → ℕ → Thread
new_thread unread tid = record {
  tid = tid;
  regs = unread;
  reason = no_reason;
  state = ProcessState.stopped;
  pending_sigstop = false;
}

abbrev pub is_tracked : Option Thread → Bool
is_tracked none = false
is_tracked (some t) = true

abbrev pub throw_if : {S : Type 0} → Option Error → Call S Unit
throw_if none = pure tt
throw_if (some e) = throw e

-- A policy of some calls lets the others go on. Without the information it is undefined.
abbrev pub caught : List ℕ → ℕ → Bool
caught [] id = false
caught (n ∷ to_catch) id = n == id || caught to_catch id

abbrev pub resumes_from : SyscallCatchPolicy → Option SyscallInformation → Outcome Bool
resumes_from (SyscallCatchPolicy.catch_some to_catch) none = Outcome.undefined
resumes_from (SyscallCatchPolicy.catch_some to_catch) (some call) =
    Outcome.ok (not (caught to_catch call.id))
resumes_from policy info = Outcome.ok false

module _ {W : Type 0} (y : System W) where
  abbrev pub site_at : ℕ → Call (Process W) HardwareStoppoint
  site_at addr =
      lift (λ s. get_by_address (site_stoppoint y.kernel) s.breakpoint_sites addr)
        (λ point. pure (HardwareStoppoint.site point.id))

  abbrev pub point_at : ℕ → Call (Process W) HardwareStoppoint
  point_at addr =
      lift (λ s. or_err Error.no_stoppoint_address (find (λ w. watches w addr) s.watchpoints))
        (λ point. pure (HardwareStoppoint.watchpoint point.id))

  unfoldable pub get_current_hardware_stoppoint : ℕ → Call (Process W) HardwareStoppoint
  unfolding count_trailing_zeros
  get_current_hardware_stoppoint tid = do
    t ← thread_at y tid
    status ← lift (λ s. or_undefined (get_elem? t.regs.debug 6)) pure
    index ← lift (λ s. or_undefined (count_trailing_zeros 64 status)) pure
    addr ← lift (λ s. or_err Error.unknown_register (get_elem? t.regs.debug index)) pure
    sites ← gets (λ s. s.breakpoint_sites)
    if contains_address (site_stoppoint y.kernel) sites addr then site_at addr else point_at addr

  unfoldable pub should_resume_from_syscall : StopReason → Call (Process W) Bool
  should_resume_from_syscall reason =
      lift (λ s. resumes_from s.syscall_catch_policy reason.syscall_info) pure

  -- `report_thread_lifecycle_event`.
  unfoldable pub report_thread_lifecycle_event : StopReason → Call (Process W) Unit
  report_thread_lifecycle_event reason =
      modify (λ s. record s { outside = y.notify_lifecycle reason s.outside })

  -- `read_all_registers`.
  unfoldable pub read_all_registers : ℕ → Call (Process W) Unit
  read_all_registers tid = do
    thread_at y tid
    regs ← lift (λ s. or_err Error.os_failure (y.read_registers tid s.outside)) pure
    at_thread y tid (λ t. record t { regs = regs })

  -- `set_pc`.
  unfoldable pub set_pc : ℕ → ℕ → Call (Process W) Unit
  set_pc address tid = do
    thread_at y tid
    at_thread y tid (λ t. record t { regs = record t.regs { rip = address } })
    lift (λ s. or_err Error.os_failure (y.write_rip tid address s.outside))
        (λ w. modify (λ s. record s { outside = w }))

  -- `notify_hit`, with what its handler does to the process.
  abbrev pub hit : Site → Call (Process W) Bool
  hit bp = λ s.
      let (restart, (sites, w)) = y.notify_hit bp s.breakpoint_sites s.outside in
      settled pure restart (record s { breakpoint_sites = sites; outside = w })

  -- The three branches on SIGTRAP: whether the thread is to be restarted.
  abbrev pub at_software_break : ℕ → ℕ → Call (Process W) Bool
  at_software_break tid instr_begin = do
    set_pc instr_begin tid
    bp ← lift (λ s. get_by_address (site_stoppoint y.kernel) s.breakpoint_sites instr_begin) pure
    if y.has_parent bp then hit bp else pure false

  abbrev pub update_watchpoint : HardwareStoppoint → Call (Process W) Unit
  update_watchpoint (HardwareStoppoint.site id) = pure tt
  update_watchpoint (HardwareStoppoint.watchpoint id) =
      lift (λ s. or_err Error.no_stoppoint_id (find (λ w. w.id == id) s.watchpoints))
        (λ point.
          lift (λ s. update_data (y.read_memory s.outside) point)
            (λ point.
              modify (λ s. record s { watchpoints = replace_watchpoint point s.watchpoints })))

  abbrev pub is_enabled_at : List Site → ℕ → Bool
  is_enabled_at sites address = elim (get_by_address (site_stoppoint y.kernel) sites address) [
    | Outcome.ok s ↦ s.is_enabled
    | other ↦ false
  ]

  unfoldable pub handle_trap : Bool → StopReason → Call (Process W) Bool
  unfolding get_current_hardware_stoppoint should_resume_from_syscall set_pc
  handle_trap is_main_stop reason = do
    pc ← get_pc y reason.tid
    sites ← gets (λ s. s.breakpoint_sites)
    if is_trap TrapType.software_break reason.trap_reason && is_enabled_at sites (sub64 pc 1)
        then at_software_break reason.tid (sub64 pc 1)
          >>= (λ restart. pure (restart && is_main_stop))
        else if is_trap TrapType.hardware_break reason.trap_reason
        then get_current_hardware_stoppoint reason.tid >>= update_watchpoint >> pure false
        else if is_trap TrapType.syscall reason.trap_reason && is_main_stop
        then should_resume_from_syscall reason
        else pure false

  -- The notice to the target.
  abbrev pub notify_target : StopReason → Call (Process W) Unit
  notify_target reason = do
    has_target ← gets (λ s. s.has_target)
    when has_target (outside y (y.notify_stop reason) >>= throw_if)

  -- `handle_signal` from `read_all_registers` on.
  unfoldable pub report_signal : Bool → StopReason → Call (Process W) (Option StopReason)
  unfolding read_all_registers augment_stop_reason handle_trap
  report_signal is_main_stop reason = do
    read_all_registers reason.tid
    reason ← augment_stop_reason y reason
    restart ← if reason.info == sigtrap then handle_trap is_main_stop reason else pure false
    if restart then pure none else (notify_target reason >> pure (some reason))

  -- A thread not tracked yet, whose first stop this is: whether it is one.
  unfoldable pub track : StopReason → Call (Process W) Bool
  unfolding report_thread_lifecycle_event
  track reason = do
    threads ← gets (λ s. s.threads)
    if is_tracked (find_thread reason.tid threads)
        then pure false
        else (modify
              (λ s. record s { threads = s.threads ++ (new_thread y.unread reason.tid ∷ []) })
            >> report_thread_lifecycle_event reason
            >> pure true)

  -- A SIGSTOP that is pending is dropped, and the thread is restarted.
  unfoldable pub stop_thread : Bool → StopReason → Call (Process W) (Option StopReason)
  unfolding report_signal
  stop_thread is_main_stop reason = do
    t ← thread_at y reason.tid
    if t.pending_sigstop && reason.info == sigstop
        then at_thread y reason.tid (λ t. record t { pending_sigstop = false }) >> pure none
        else report_signal is_main_stop reason

  abbrev pub after_track : StopReason → Bool → Bool → Call (Process W) (Option StopReason)
  after_track reason is_main_stop is_new =
      if is_new && is_main_stop then pure none else stop_thread is_main_stop reason

  abbrev pub when_attached : StopReason → Bool → Bool → Call (Process W) (Option StopReason)
  when_attached reason is_main_stop is_attached =
      if is_trap TrapType.clone reason.trap_reason && is_main_stop
      then pure none
      else if is_attached && is_state reason.reason ProcessState.stopped
      then (track reason >>= after_track reason is_main_stop)
      else pure (some reason)

  -- `handle_signal`. A clone that caused the stop restarts the thread; only the stops of an
  -- attached process are handled.
  unfoldable pub handle_signal : StopReason → Bool → Call (Process W) (Option StopReason)
  unfolding track stop_thread
  handle_signal reason is_main_stop =
      gets (λ s. s.is_attached) >>= when_attached reason is_main_stop
