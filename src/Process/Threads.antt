-- ===== src/Process/Threads.antt =====
-- `process` of src/process.cpp and include/libgsdb/process.hpp: the threads of the inferior, what
-- the operating system says of them, and the calls that resume them.
mod State
pub mod Signals
pub mod Stops
pub mod Kept
pub mod Resumed
pub mod Handled
pub mod Reported
pub mod Halted
pub mod AllStop
pub mod Rounds
pub mod Waits
pub mod Sites
pub mod Examples
unfoldable pub use State.*
use gsdb.Common.{ℕ, Bool, true, false, ◌==◌, ◌&&◌, ◌||◌, List, [], ◌∷◌, find, if◌then◌else◌}
use gsdb.Common.{Option, none, some, ◌/◌, Outcome, Error}
use gsdb.Stoppoints.Kernel.{Kernel}
use gsdb.Stoppoints.Site.{Site, replace_site, enable, disable}
use gsdb.Stoppoints.Memory.{site_stoppoint}
use gsdb.Stoppoints.Collection.{enabled_stoppoint_at_address, get_by_address}
use gsdb.Process.Watchpoint.{Watchpoint}
use gsdb.Process.Reply.{Call, pure, gets, modify, throw, throw_unless, lift, when, ◌>>=◌, ◌>>◌}

abbrev pub find_thread : ℕ → List Thread → Option Thread
find_thread tid threads = find (λ t. t.tid == tid) threads

-- A change of `threads_.at(tid)`.
abbrev pub change_thread : ℕ → (Thread → Thread) → List Thread → List Thread
change_thread tid f [] = []
change_thread tid f (t ∷ threads) =
    if t.tid == tid then f t ∷ threads else t ∷ change_thread tid f threads

abbrev pub thread_or_throw : {S : Type 0} → Option Thread → Call S Thread
thread_or_throw none = throw Error.out_of_range
thread_or_throw (some t) = pure t

abbrev pub resume_request : SyscallCatchPolicy → Request
resume_request SyscallCatchPolicy.catch_none = Request.cont
resume_request policy = Request.syscall

module _ {W : Type 0} (y : System W) where
  abbrev pub outside : {A : Type 0} → (W → A × W) → Call (Process W) A
  outside f s = let r = f s.outside in pure r.0 (record s { outside = r.1 })

  abbrev pub thread_at : ℕ → Call (Process W) Thread
  thread_at tid s = thread_or_throw (find_thread tid s.threads) s

  abbrev pub at_thread : ℕ → (Thread → Thread) → Call (Process W) Unit
  at_thread tid f = modify (λ s. record s { threads = change_thread tid f s.threads })

  -- `ptrace`, and the throw where it fails.
  abbrev pub request : Request → ℕ → Call (Process W) Unit
  request r tid = outside (y.request r tid) >>= λ done. throw_unless done Error.os_failure

  unfoldable pub get_pc : ℕ → Call (Process W) ℕ
  get_pc tid = thread_at tid >>= λ t. pure t.regs.rip

  -- `enable` and `disable` on the site at an address.
  abbrev pub put_site : Site × W → Call (Process W) Unit
  put_site r =
      modify
        (λ s. record s { breakpoint_sites = replace_site r.0 s.breakpoint_sites; outside = r.1 })

  abbrev pub enable_at : ℕ → Call (Process W) Unit
  enable_at a =
      lift (λ s. get_by_address (site_stoppoint y.kernel) s.breakpoint_sites a)
        (λ site. lift (λ s. enable y.kernel site s.outside) put_site)

  abbrev pub disable_at : ℕ → Call (Process W) Unit
  disable_at a =
      lift (λ s. get_by_address (site_stoppoint y.kernel) s.breakpoint_sites a)
        (λ site. lift (λ s. disable y.kernel site s.outside) put_site)

  -- The results of `ptrace` and `waitpid` are not looked at here.
  unfoldable pub swallow_pending_sigstop : ℕ → Call (Process W) Unit
  swallow_pending_sigstop tid = do
    t ← thread_at tid
    when t.pending_sigstop (
        outside (y.request Request.cont tid)
        >> outside (y.waitpid (some tid))
        >> at_thread tid (λ t. record t { pending_sigstop = false }))

  abbrev pub wait_for_step : ℕ → Call (Process W) Unit
  wait_for_step tid = outside (y.waitpid (some tid)) >>= λ answer. elim answer [
    | none ↦ throw Error.os_failure
    | some event ↦ pure tt
  ]

  unfoldable pub step_over_breakpoint : ℕ → Call (Process W) Unit
  unfolding get_pc swallow_pending_sigstop
  step_over_breakpoint tid = do
    pc ← get_pc tid
    at_breakpoint ←
        lift (λ s. enabled_stoppoint_at_address (site_stoppoint y.kernel) s.breakpoint_sites pc)
          pure
    when at_breakpoint (
        disable_at pc
        >> swallow_pending_sigstop tid
        >> request Request.single_step tid
        >> wait_for_step tid
        >> enable_at pc)

  abbrev pub set_running : ℕ → Call (Process W) Unit
  set_running tid =
      at_thread tid (λ t. record t { state = ProcessState.running })
      >> modify (λ s. record s { state = ProcessState.running })

  abbrev pub mark_running : ℕ → Call (Process W) Unit
  mark_running tid = thread_at tid >> set_running tid

  abbrev pub continue_with : ℕ → SyscallCatchPolicy → Call (Process W) Unit
  continue_with tid policy = request (resume_request policy) tid >> mark_running tid

  unfoldable pub send_continue : ℕ → Call (Process W) Unit
  send_continue tid = gets (λ s. s.syscall_catch_policy) >>= continue_with tid

  abbrev pub thread_or : Option ℕ → ℕ → ℕ
  thread_or none current = current
  thread_or (some tid) current = tid

  -- `resume`, on a thread or else on the current one.
  unfoldable pub resume : Option ℕ → Call (Process W) Unit
  unfolding step_over_breakpoint send_continue
  resume otid = do
    current ← gets (λ s. s.current_thread)
    step_over_breakpoint (thread_or otid current)
    send_continue (thread_or otid current)

  abbrev for_each : List Thread → (ℕ → Call (Process W) Unit) → Call (Process W) Unit
  for_each [] f = pure tt
  for_each (t ∷ threads) f = f t.tid >> for_each threads f

  unfoldable pub resume_all_threads : Call (Process W) Unit
  unfolding step_over_breakpoint send_continue
  resume_all_threads = do
    threads ← gets (λ s. s.threads)
    for_each threads step_over_breakpoint
    for_each threads send_continue
