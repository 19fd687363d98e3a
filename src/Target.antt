-- ===== src/Target.antt =====
-- `target` of src/target.cpp: running to an address and stepping out of functions, on the threads
-- of the process. Lines steps over lines.
pub mod Lines
pub mod Once
pub mod Clean
pub mod Ends
mod Examples
use gsdb.Common.{ℕ, zero, suc, ◌+◌, ◌-◌, Bool, true, false, not, ◌==◌, ◌&&◌, ◌||◌, leb, ltb}
use gsdb.Common.{List, [], ◌∷◌, length, get_elem?, Option, none, some, if◌then◌else◌}
use gsdb.Common.{Outcome, Error, or_undefined}
use gsdb.Stoppoints.Site.{Site, new_site, enable}
use gsdb.Stoppoints.Memory.{site_stoppoint}
use gsdb.Stoppoints.Collection.{contains_address, push, remove_by_address}
use gsdb.Process.Reply.{Call, Reply, pure, gets, modify, throw_unless, when, lift, ◌>>=◌, ◌>>◌}
use gsdb.Process.Threads.{
  ProcessState, TrapType, StopReason, Process, System, sigtrap, is_step, is_breakpoint, at_thread,
  enable_at, get_pc, resume, thread_or,
}
use gsdb.Process.Threads.Stops.{wait_on_signal, step_instruction}

-- What the stepping asks of a thread's stack, of the line table and of the disassembler: the height
-- of the inline stack and its change by `simulate_inlined_step_in`; the virtual `high_pc` of the
-- functions of `inline_stack_at_pc`, outermost first; `line_entry_at_pc`, as the place of the row
-- and whether it ends a sequence; the number of visible frames and the program counter of the
-- visible frame above the current one; the two instructions at an address, each with its address
-- and whether it is a call; the first address behind the prologue of the function that begins at
-- the thread's program counter, if one does and its row has a next one; and whether the target's
-- own map of threads has one, which its life-cycle callback inserts and erases.
pub record View (W : Type 0) : Type 0 where
  pub inline_height : ℕ → Process W → ℕ
  pub simulate_inlined_step_in : ℕ → W → W
  pub inline_stack_ends : ℕ → Process W → Outcome (List (Outcome ℕ))
  pub line_entry_at_pc : ℕ → Process W → Outcome (Option (ℕ × Bool))
  pub visible_frames : ℕ → Process W → ℕ
  pub caller_pc : ℕ → Process W → Outcome ℕ
  pub disassemble : ℕ → Process W → Outcome ((ℕ × Bool) × (ℕ × Bool))
  pub after_prologue : ℕ → Process W → Outcome (Option ℕ)
  pub has_thread : ℕ → W → Bool

-- The reason of a stop where the run was to go: it counts as a step.
unfoldable pub arrived : ℕ → ℕ → StopReason → StopReason
unfolding is_breakpoint
arrived pc address reason =
    if is_breakpoint reason && pc == address
    then record reason { trap_reason = some TrapType.single_step }
    else reason

abbrev flat : Outcome (Outcome ℕ) → Outcome ℕ
flat (Outcome.ok a) = a
flat (Outcome.err e) = Outcome.err e
flat Outcome.undefined = Outcome.undefined
flat Outcome.exhausted = Outcome.exhausted

module _ {W : Type 0} (y : System W) (v : View W) where
  -- The internal breakpoint of `run_until_address`, unless there is a site: whether it was made.
  abbrev pub plant : ℕ → Call (Process W) Bool
  plant address = do
    sites ← gets (λ s. s.breakpoint_sites)
    if contains_address (site_stoppoint y.kernel) sites address
        then pure false
        else (modify (λ s. record s {
          breakpoint_sites =
              push (site_stoppoint y.kernel) s.breakpoint_sites (new_site 0 address false true).0;
        })
            >> enable_at y address
            >> pure true)

  -- `threads_.at`, of the target.
  abbrev pub known : ℕ → Call (Process W) Unit
  known tid =
      gets (λ s. v.has_thread tid s.outside) >>= λ found. throw_unless found Error.out_of_range

  -- A use of a thread of the target that was looked up before: it may have been erased since.
  abbrev pub alive : ℕ → Call (Process W) Unit
  alive tid =
      lift (λ s. if v.has_thread tid s.outside then Outcome.ok tt else Outcome.undefined) pure

  abbrev pub set_reason : ℕ → StopReason → Call (Process W) Unit
  set_reason tid reason = at_thread y tid (λ t. record t { reason = reason })

  abbrev pub uproot : ℕ → Call (Process W) Unit
  uproot address =
      lift (λ s. remove_by_address (site_stoppoint y.kernel) s.breakpoint_sites address s.outside)
        (λ r. modify (λ s. record s { breakpoint_sites = r.0; outside = r.1 }))

  abbrev pub finish_run : ℕ → ℕ → Bool → StopReason → ℕ → Call (Process W) StopReason
  finish_run address tid made reason pc = do
    when made (uproot address)
    known tid
    set_reason tid (arrived pc address reason)
    pure (arrived pc address reason)

  -- The program counter is read only at a breakpoint.
  abbrev pub breakpoint_pc : ℕ → StopReason → Call (Process W) ℕ
  breakpoint_pc tid reason = if is_breakpoint reason then get_pc y tid else pure 0

  -- `run_until_address`, with the rounds of `wait_on_signal`.
  unfoldable pub run_until_address : ℕ → ℕ → ℕ → Call (Process W) StopReason
  unfolding arrived contains_address push new_site remove_by_address wait_on_signal resume get_pc
  run_until_address rounds address tid = do
    made ← plant address
    resume y (some tid)
    reason ← wait_on_signal y rounds (some tid)
    pc ← breakpoint_pc tid reason
    finish_run address tid made reason pc

  -- The loop of `step_out`, with the number of frames at its start. The program counter that it
  -- looks at is that of the current thread.
  abbrev pub out_again :
      Call (Process W) StopReason → ℕ → ℕ → ℕ → StopReason → ℕ → Call (Process W) StopReason
  out_again again address tid frames reason pc =
      if not (is_breakpoint reason) || not (pc == address)
      then pure reason
      else (alive tid >> gets (λ s. v.visible_frames tid s) >>= λ now.
          if leb frames now then again else pure reason)

  unfoldable pub step_out_loop : ℕ → ℕ → ℕ → ℕ → ℕ → Call (Process W) StopReason
  unfolding run_until_address is_breakpoint
  step_out_loop zero rounds address tid frames = λ s. Reply.unfinished
  step_out_loop (suc turns) rounds address tid frames = do
    reason ← run_until_address rounds address tid
    current ← gets (λ s. s.current_thread)
    pc ← breakpoint_pc current reason
    out_again (step_out_loop turns rounds address tid frames) address tid frames reason pc

  abbrev pub from_end : List (Outcome ℕ) → ℕ → Outcome ℕ
  from_end ends n =
      if leb n (length ends)
      then flat (or_undefined (get_elem? ends (length ends - n)))
      else Outcome.undefined

  abbrev pub leave : ℕ → ℕ → ℕ → List (Outcome ℕ) → ℕ → Call (Process W) StopReason
  leave turns rounds tid ends height =
      if ltb 1 (length ends) && ltb height (length ends - 1)
      then (lift (λ s. from_end ends (height + 1)) pure >>= λ address.
          run_until_address rounds address tid)
      else (lift (λ s. v.caller_pc tid s) pure >>= λ address.
          gets (λ s. v.visible_frames tid s) >>= step_out_loop turns rounds address tid)

  -- `step_out`: to the end of the inlined function, or to the caller.
  unfoldable pub step_out : ℕ → ℕ → Option ℕ → Call (Process W) StopReason
  unfolding step_out_loop
  step_out turns rounds otid = do
    current ← gets (λ s. s.current_thread)
    known (thread_or y otid current)
    ends ← lift (λ s. v.inline_stack_ends (thread_or y otid current) s) pure
    height ← gets (λ s. v.inline_height (thread_or y otid current) s)
    leave turns rounds (thread_or y otid current) ends height
