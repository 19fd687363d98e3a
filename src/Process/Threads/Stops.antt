-- ===== src/Process/Threads/Stops.antt =====
-- `stop_running_threads`, `cleanup_exited_threads`, `wait_on_signal` and `step_instruction` of
-- src/process.cpp: all threads are stopped before a stop is reported.
use gsdb.Common.{ℕ, zero, suc, Bool, true, false, not, ◌==◌, ◌&&◌, ◌||◌, if◌then◌else◌}
use gsdb.Common.{List, [], ◌∷◌, Option, none, some, Error, or_err, or_undefined}
use gsdb.Stoppoints.Memory.{site_stoppoint}
use gsdb.Stoppoints.Collection.{enabled_stoppoint_at_address}
use gsdb.Process.Reply.{Call, Reply, pure, gets, modify, when, lift, catching, ◌>>=◌, ◌>>◌}
use gsdb.Process.Threads.{
  ProcessState, StopReason, Thread, Process, System, Request, sigstop, is_state, outside, thread_at,
  at_thread, get_pc, thread_or, resume, request, enable_at, disable_at, swallow_pending_sigstop,
}
use gsdb.Process.Threads.Signals.{stop_reason, handle_signal, report_thread_lifecycle_event}

abbrev pub value_or : {A : Type 0} → Option A → A → A
value_or none a = a
value_or (some b) a = b

-- A stop for another signal leaves the SIGSTOP pending; its own stop ends that.
unfoldable pub pending_after : StopReason → Bool → Bool
pending_after reason pending =
    if is_state reason.reason ProcessState.stopped then not (reason.info == sigstop) else pending

abbrev pub has_ended : ProcessState → Bool
has_ended state = is_state state ProcessState.exited || is_state state ProcessState.terminated

-- The exited threads, but for that of the stop, which are erased.
unfoldable pub is_removed : ℕ → Thread → Bool
is_removed main_stop_tid t = not (t.tid == main_stop_tid) && has_ended t.state

unfoldable pub to_remove : ℕ → List Thread → List ℕ
unfolding is_removed
to_remove main_stop_tid [] = []
to_remove main_stop_tid (t ∷ threads) =
    let rest = to_remove main_stop_tid threads in
    if is_removed main_stop_tid t then t.tid ∷ rest else rest

abbrev pub erase : ℕ → List Thread → List Thread
erase tid [] = []
erase tid (t ∷ threads) = if t.tid == tid then erase tid threads else t ∷ erase tid threads

abbrev pub erase_each : List ℕ → List Thread → List Thread
erase_each [] threads = threads
erase_each (tid ∷ tids) threads = erase_each tids (erase tid threads)

-- What to report if the main thread is among them.
unfoldable pub main_exit : ℕ → ℕ → List Thread → Option StopReason
unfolding is_removed
main_exit pid main_stop_tid [] = none
main_exit pid main_stop_tid (t ∷ threads) =
    let rest = main_exit pid main_stop_tid threads in
    if is_removed main_stop_tid t && t.tid == pid then some t.reason else rest

module _ {W : Type 0} (y : System W) where
  abbrev pub send_sigstop : ℕ → Call (Process W) Unit
  send_sigstop tid = modify (λ s. record s { outside = y.tgkill s.pid tid sigstop s.outside })

  -- The loop body of `stop_running_threads` on a running thread, up to `handle_signal`. The status
  -- is read even if `waitpid` failed and did not set it.
  unfoldable pub await_stop : ℕ → Call (Process W) StopReason
  unfolding stop_reason pending_after
  await_stop tid = do
    t ← thread_at y tid
    when (not t.pending_sigstop) (send_sigstop tid)
    answer ← outside y (y.waitpid (some tid))
    event ← lift (λ s. or_undefined answer) pure
    reason ← lift (λ s. stop_reason y tid event.1) pure
    at_thread y tid (λ t. record t { pending_sigstop = pending_after reason t.pending_sigstop })
    pure reason

  abbrev pub note_stop : ℕ → StopReason → Call (Process W) Unit
  note_stop tid reason =
      thread_at y tid >> at_thread y tid (λ t. record t { reason = reason; state = reason.reason })

  unfoldable pub stop_running : ℕ → Call (Process W) Unit
  unfolding await_stop handle_signal
  stop_running tid = do
    reason ← await_stop tid
    answer ← handle_signal y reason false
    note_stop tid (value_or answer reason)

  abbrev pub when_running : ℕ → Thread → Call (Process W) Unit
  when_running tid t = when (is_state t.state ProcessState.running) (stop_running tid)

  unfoldable pub stop_each : List Thread → Call (Process W) Unit
  unfolding stop_running
  stop_each [] = pure tt
  stop_each (t ∷ threads) = thread_at y t.tid >>= when_running t.tid >> stop_each threads

  unfoldable pub stop_running_threads : Call (Process W) Unit
  unfolding stop_each
  stop_running_threads = gets (λ s. s.threads) >>= stop_each

  abbrev pub report_removed : ℕ → List Thread → Call (Process W) Unit
  report_removed main_stop_tid [] = pure tt
  report_removed main_stop_tid (t ∷ threads) =
      when (is_removed main_stop_tid t) (report_thread_lifecycle_event y t.reason)
      >> report_removed main_stop_tid threads

  abbrev pub remove_exited : ℕ → List Thread → Call (Process W) (Option StopReason)
  remove_exited main_stop_tid threads = do
    report_removed main_stop_tid threads
    modify (λ s. record s { threads = erase_each (to_remove main_stop_tid threads) s.threads })
    gets (λ s. main_exit s.pid main_stop_tid threads)

  unfoldable pub cleanup_exited_threads : ℕ → Call (Process W) (Option StopReason)
  unfolding is_removed report_thread_lifecycle_event to_remove main_exit
  cleanup_exited_threads main_stop_tid = do
    threads ← gets (λ s. s.threads)
    remove_exited main_stop_tid threads

  -- A thread whose stop is recorded: in the handler of `wait_on_signal` it may not be tracked.
  abbrev pub record_stop : StopReason → Call (Process W) Unit
  record_stop reason =
      at_thread y reason.tid (λ t. record t { reason = reason; state = reason.reason })

  abbrev pub set_stopped : ℕ → ProcessState → Call (Process W) Unit
  set_stopped tid state = modify (λ s. record s { state = state; current_thread = tid })

  -- What `wait_on_signal` does after `catch (...)`.
  unfoldable pub recover : StopReason → Call (Process W) Unit
  unfolding stop_running_threads
  recover reason = do record_stop reason; stop_running_threads; set_stopped reason.tid reason.reason

  -- A stop that is reported: every thread is stopped, and the exited ones are dropped.
  unfoldable pub report_stop : ℕ → StopReason → Call (Process W) StopReason
  unfolding stop_running_threads cleanup_exited_threads
  report_stop tid reason = do
    stop_running_threads
    to_report ← cleanup_exited_threads tid
    set_stopped tid (value_or to_report reason).reason
    pure (value_or to_report reason)

  -- The exit of a thread: that of the main thread is the process's own.
  abbrev pub exit_of :
      Call (Process W) StopReason → ℕ → StopReason → ℕ → Call (Process W) StopReason
  exit_of again tid reason pid =
      if tid == pid then modify (λ s. record s { state = reason.reason }) >> pure reason else again

  abbrev pub report_exit :
      Call (Process W) StopReason → ℕ → StopReason → Call (Process W) StopReason
  report_exit again tid reason = do
    report_thread_lifecycle_event y reason
    pid ← gets (λ s. s.pid)
    exit_of again tid reason pid

  abbrev pub report : Call (Process W) StopReason → ℕ → StopReason → Call (Process W) StopReason
  report again tid reason = do
    note_stop tid reason
    if has_ended reason.reason then report_exit again tid reason else report_stop tid reason

  abbrev pub settle :
      Call (Process W) StopReason
      → Call (Process W) StopReason
      → ℕ
      → Option StopReason
      → Call (Process W) StopReason
  settle again any tid none = resume y (some tid) >> again
  settle again any tid (some reason) = report any tid reason

  abbrev pub handle :
      Call (Process W) StopReason
      → Call (Process W) StopReason
      → StopReason
      → Call (Process W) StopReason
  handle again any reason =
      catching (handle_signal y reason true) (recover reason) >>= settle again any reason.tid

  abbrev pub decode :
      Call (Process W) StopReason
      → Call (Process W) StopReason
      → ℕ × ℕ
      → Call (Process W) StopReason
  decode again any event = lift (λ s. stop_reason y event.0 event.1) pure >>= handle again any

  -- `wait_on_signal`, with a bound on the signals it takes before one it reports. The thread to
  -- await is any one (-1) after the exit of a thread.
  unfoldable pub wait_on_signal : ℕ → Option ℕ → Call (Process W) StopReason
  unfolding resume stop_reason handle_signal recover report_stop report_thread_lifecycle_event
  wait_on_signal zero to_await = λ s. Reply.unfinished
  wait_on_signal (suc rounds) to_await = do
    answer ← outside y (y.waitpid to_await)
    event ← lift (λ s. or_err Error.os_failure answer) pure
    decode (wait_on_signal rounds to_await) (wait_on_signal rounds none) event

  -- `step_instruction`: an enabled breakpoint site at the program counter is off meanwhile.
  unfoldable pub step_instruction : ℕ → Option ℕ → Call (Process W) StopReason
  unfolding wait_on_signal get_pc swallow_pending_sigstop
  step_instruction rounds otid = do
    current ← gets (λ s. s.current_thread)
    pc ← get_pc y (thread_or y otid current)
    to_reenable ←
        lift (λ s. enabled_stoppoint_at_address (site_stoppoint y.kernel) s.breakpoint_sites pc)
          pure
    when to_reenable (disable_at y pc)
    swallow_pending_sigstop y (thread_or y otid current)
    request y Request.single_step (thread_or y otid current)
    reason ← wait_on_signal rounds (some (thread_or y otid current))
    when to_reenable (enable_at y pc)
    pure reason
