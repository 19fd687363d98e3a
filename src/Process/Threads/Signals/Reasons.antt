-- ===== src/Process/Threads/Signals/Reasons.antt =====
-- `stop_reason` and `augment_stop_reason` of src/process.cpp: what a wait status and a signal mean.
use gsdb.Common.{ℕ, ◌%◌, ◌/◌, Bool, false, not, ◌==◌}
use gsdb.Common.{[], ◌∷◌, switch_on, if◌then◌else◌, none, some}
use gsdb.Common.{Outcome, Error, or_err}
use gsdb.Process.Reply.{Call, pure, gets, modify, lift, ◌>>=◌, ◌>>◌}
use gsdb.Process.Threads.{
  ProcessState, TrapType, SyscallValue, SyscallInformation, StopReason, Thread, Process, System,
  UserRegisters, sigtrap, thread_at,
}

-- The stop of a system call: its entry, or its exit if one is expected.
unfoldable pub syscall_stop : Bool → UserRegisters → SyscallInformation
syscall_stop expecting regs = record {
  id = regs.orig_rax % 65536;
  value = if expecting then SyscallValue.ret regs.rax else SyscallValue.args regs.arguments;
}

-- The `switch` on `si_code`: TRAP_TRACE, SI_KERNEL, TRAP_HWBKPT.
unfoldable pub trap_of_code : ℕ → TrapType
trap_of_code code =
    switch_on code TrapType.unknown (
      (2, TrapType.single_step)
      ∷ (128, TrapType.software_break)
      ∷ (4, TrapType.hardware_break)
      ∷ [])

module _ {W : Type 0} (y : System W) where
  -- The constructor of `stop_reason`. A status of none of the three kinds leaves it unset.
  unfoldable pub stop_reason : ℕ → ℕ → Outcome StopReason
  stop_reason tid status =
      let trap = if status / 256 == 773 then some TrapType.clone else none in
      let because : ProcessState → ℕ → StopReason = λ state info. record {
        tid = tid;
        reason = state;
        info = info;
        trap_reason = trap;
        syscall_info = none;
      } in
      if y.is_exited status
      then Outcome.ok (because ProcessState.exited (y.exit_status status))
      else if y.is_signaled status
      then Outcome.ok (because ProcessState.terminated (y.term_signal status))
      else if y.is_stopped status
      then Outcome.ok (because ProcessState.stopped (y.stop_signal status))
      else Outcome.undefined

  abbrev pub augmented_syscall : StopReason → Thread → Call (Process W) StopReason
  augmented_syscall reason t = do
    expecting ← gets (λ s. s.expecting_syscall_exit)
    modify (λ s. record s { expecting_syscall_exit = not expecting })
    pure (record reason {
      info = sigtrap;
      trap_reason = some TrapType.syscall;
      syscall_info = some (syscall_stop expecting t.regs);
    })

  abbrev pub augment_syscall : StopReason → Call (Process W) StopReason
  augment_syscall reason = thread_at y reason.tid >>= augmented_syscall reason

  abbrev pub augment_other : StopReason → ℕ → Call (Process W) StopReason
  augment_other reason code = do
    modify (λ s. record s { expecting_syscall_exit = false })
    pure (record reason {
      trap_reason = some (if reason.info == sigtrap then trap_of_code code else TrapType.unknown);
    })

  -- `augment_stop_reason`: SIGTRAP with bit 7 set is a system call.
  unfoldable pub augment_stop_reason : StopReason → Call (Process W) StopReason
  unfolding syscall_stop trap_of_code
  augment_stop_reason reason = do
    code ← lift (λ s. or_err Error.os_failure (y.signal_code reason.tid s.outside)) pure
    if reason.info == 133 then augment_syscall reason else augment_other reason code
