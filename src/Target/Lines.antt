-- ===== src/Target/Lines.antt =====
-- `step_in` and `step_over` of src/target.cpp: to another line, or past a call.
use gsdb.Common.{ℕ, zero, suc, Bool, false, not, ◌==◌, ◌||◌, ltb, List, Option, none, some}
use gsdb.Common.{if◌then◌else◌, Outcome}
use gsdb.Process.Reply.{Call, Reply, pure, gets, modify, lift, ◌>>=◌, ◌>>◌}
use gsdb.Process.Threads.{
  ProcessState, TrapType, StopReason, Process, System, sigtrap, is_step, get_pc, thread_or,
}
use gsdb.Process.Threads.Stops.{step_instruction}
use gsdb.Target.{View, set_reason, run_until_address, from_end, known, alive}

abbrev pub stepped : ℕ → StopReason
stepped tid = record {
  tid = tid;
  reason = ProcessState.stopped;
  info = sigtrap;
  trap_reason = some TrapType.single_step;
  syscall_info = none;
}

-- The condition of the loops: the row is the one at the start or ends a sequence, and there is one.
unfoldable pub same_line : Option (ℕ × Bool) → Option (ℕ × Bool) → Bool
same_line orig none = false
same_line none (some (row, end_sequence)) = end_sequence
same_line (some (first, _)) (some (row, end_sequence)) = row == first || end_sequence

module _ {W : Type 0} (y : System W) (v : View W) where
  abbrev line_now : ℕ → Call (Process W) (Option (ℕ × Bool))
  line_now tid = lift (λ s. v.line_entry_at_pc tid s) pure

  abbrev stop_at : ℕ → StopReason → Call (Process W) StopReason
  stop_at tid reason = alive y v tid >> set_reason y v tid reason >> pure reason

  abbrev enter : ℕ → ℕ → Option ℕ → Call (Process W) StopReason
  enter rounds tid none = stop_at tid (stepped tid)
  enter rounds tid (some address) = run_until_address y v rounds address tid

  -- The loop of `step_in`, and what comes behind it at the start of a function.
  unfoldable pub step_in_loop : ℕ → ℕ → ℕ → Option (ℕ × Bool) → Call (Process W) StopReason
  unfolding run_until_address is_step same_line step_instruction
  step_in_loop zero rounds tid orig_line = λ s. Reply.unfinished
  step_in_loop (suc turns) rounds tid orig_line = step_instruction y rounds (some tid) >>= λ reason.
      if not (is_step reason)
      then stop_at tid reason
      else (line_now tid >>= λ line.
          if same_line orig_line line
          then step_in_loop turns rounds tid orig_line
          else (lift (λ s. v.after_prologue tid s) pure >>= enter rounds tid))

  abbrev enter_inlined : ℕ → Call (Process W) StopReason
  enter_inlined tid =
      modify (λ s. record s { outside = v.simulate_inlined_step_in tid s.outside })
      >> stop_at tid (stepped tid)

  abbrev step_in_at : ℕ → ℕ → ℕ → ℕ → Call (Process W) StopReason
  step_in_at turns rounds tid height =
      if ltb 0 height then enter_inlined tid else (line_now tid >>= step_in_loop turns rounds tid)

  unfoldable pub step_in : ℕ → ℕ → Option ℕ → Call (Process W) StopReason
  unfolding step_in_loop
  step_in turns rounds otid = do
    current ← gets (λ s. s.current_thread)
    known y v (thread_or y otid current)
    height ← gets (λ s. v.inline_height (thread_or y otid current) s)
    step_in_at turns rounds (thread_or y otid current) height

  -- One turn of `step_over`: where it ran to, or none after a single instruction.
  abbrev over_to : ℕ → ℕ → ℕ → Call (Process W) (StopReason × Option ℕ)
  over_to rounds tid address =
      run_until_address y v rounds address tid >>= λ reason. pure (reason, some address)

  abbrev over_instructions :
      ℕ → ℕ → (ℕ × Bool) × (ℕ × Bool) → Call (Process W) (StopReason × Option ℕ)
  over_instructions rounds tid ((_, is_call), (next, _)) =
      if is_call
      then over_to rounds tid next
      else (step_instruction y rounds (some tid) >>= λ reason. pure (reason, none))

  abbrev over_once : ℕ → ℕ → List (Outcome ℕ) → ℕ → Call (Process W) (StopReason × Option ℕ)
  over_once rounds tid ends height =
      if ltb 0 height
      then (lift (λ s. from_end y v ends height) pure >>= over_to rounds tid)
      else (lift (λ s. v.disassemble tid s) pure >>= over_instructions rounds tid)

  -- Whether the turn went as meant: a step, and at the address that it ran to.
  abbrev over_done : ℕ → StopReason × Option ℕ → Call (Process W) Bool
  over_done tid (reason, none) = pure (is_step reason)
  over_done tid (reason, some address) =
      if is_step reason then (get_pc y tid >>= λ pc. pure (pc == address)) else pure false

  -- The loop of `step_over`.
  unfoldable pub step_over_loop : ℕ → ℕ → ℕ → Option (ℕ × Bool) → Call (Process W) StopReason
  unfolding run_until_address is_step same_line step_instruction
  step_over_loop zero rounds tid orig_line = λ s. Reply.unfinished
  step_over_loop (suc turns) rounds tid orig_line =
      alive y v tid >> lift (λ s. v.inline_stack_ends tid s) pure >>= λ ends.
      gets (λ s. v.inline_height tid s) >>= λ height. over_once rounds tid ends height >>= λ turn.
      over_done tid turn >>= λ done.
      if not done
      then stop_at tid turn.0
      else (line_now tid >>= λ line.
          if same_line orig_line line
          then step_over_loop turns rounds tid orig_line
          else stop_at tid turn.0)

  unfoldable pub step_over : ℕ → ℕ → Option ℕ → Call (Process W) StopReason
  unfolding step_over_loop
  step_over turns rounds otid = do
    current ← gets (λ s. s.current_thread)
    known y v (thread_or y otid current)
    orig_line ← line_now (thread_or y otid current)
    step_over_loop turns rounds (thread_or y otid current) orig_line
