-- ===== src/Process/Threads/Sites/Waits.antt =====
-- `wait_on_signal` of src/process.cpp removes no breakpoint site, and only the hit handlers make
-- sites.
use gsdb.Common.{ℕ, zero, suc, Option, none, some, List, [], ◌∷◌}
use gsdb.Process.Reply.{Call, when, ◌>>=◌}
use gsdb.Process.Reply.Follows.{Follows-bind}
use gsdb.Process.Threads.{Process, System, StopReason, Thread, thread_at}
use gsdb.Process.Threads.Signals.{report_thread_lifecycle_event}
use gsdb.Process.Threads.Stops.{
  is_removed, await_stop, note_stop, stop_running, when_running, stop_each, stop_running_threads,
  report_removed, cleanup_exited_threads, recover, report_stop, report, settle, decode,
  wait_on_signal,
}
use gsdb.Process.Threads.Sites.{KeepsSites, Makes, sites_rules, resume-KeepsSites}
use gsdb.Process.Threads.Sites.Handled.{lifecycle-KeepsSites, handle_signal-KeepsSites}

module _ {W : Type 0} (y : System W) (Made : ℕ → Type 0) (makes : Makes y Made) where
  await_stop-KeepsSites : (tid : ℕ) → KeepsSites y Made (await_stop y tid)
  unfolding await_stop
  await_stop-KeepsSites tid = search sites_rules depth 12

  note_stop-KeepsSites :
      (tid : ℕ) (reason : StopReason) → KeepsSites y Made (note_stop y tid reason)
  note_stop-KeepsSites tid reason = search sites_rules

  stop_running-KeepsSites : (tid : ℕ) → KeepsSites y Made (stop_running y tid)
  unfolding stop_running
  stop_running-KeepsSites tid =
      search (sites_rules, await_stop-KeepsSites, handle_signal-KeepsSites, note_stop-KeepsSites)
        depth 8

  stop_each-KeepsSites : (threads : List Thread) → KeepsSites y Made (stop_each y threads)
  unfolding stop_each
  stop_each-KeepsSites [] = search sites_rules
  stop_each-KeepsSites (t ∷ threads) =
      Follows-bind (thread_at y t.tid >>= when_running y t.tid) (λ _. stop_each y threads)
        (search (sites_rules, stop_running-KeepsSites)) (λ _. stop_each-KeepsSites threads)

  stop_running_threads-KeepsSites : KeepsSites y Made (stop_running_threads y)
  unfolding stop_running_threads
  stop_running_threads-KeepsSites = search (sites_rules, stop_each-KeepsSites)

  report_removed-KeepsSites :
      (tid : ℕ) (threads : List Thread) → KeepsSites y Made (report_removed y tid threads)
  report_removed-KeepsSites tid [] = search sites_rules
  report_removed-KeepsSites tid (t ∷ threads) =
      Follows-bind (when (is_removed tid t) (report_thread_lifecycle_event y t.reason))
        (λ _. report_removed y tid threads) (search (sites_rules, lifecycle-KeepsSites))
        (λ _. report_removed-KeepsSites tid threads)

  cleanup-KeepsSites : (tid : ℕ) → KeepsSites y Made (cleanup_exited_threads y tid)
  unfolding cleanup_exited_threads
  cleanup-KeepsSites tid = search (sites_rules, report_removed-KeepsSites) depth 10

  recover-KeepsSites : (reason : StopReason) → KeepsSites y Made (recover y reason)
  unfolding recover
  recover-KeepsSites reason = search (sites_rules, stop_running_threads-KeepsSites) depth 8

  report_stop-KeepsSites :
      (tid : ℕ) (reason : StopReason) → KeepsSites y Made (report_stop y tid reason)
  unfolding report_stop
  report_stop-KeepsSites tid reason =
      search (sites_rules, stop_running_threads-KeepsSites, cleanup-KeepsSites) depth 10

  module _ (again any : Call (Process W) StopReason) (h : KeepsSites y Made again)
      (k : KeepsSites y Made any) where
    report-KeepsSites :
        (tid : ℕ) (reason : StopReason) → KeepsSites y Made (report y any tid reason)
    report-KeepsSites tid reason =
        search (sites_rules, note_stop-KeepsSites, lifecycle-KeepsSites, report_stop-KeepsSites)
          depth 12

    settle-KeepsSites :
        (tid : ℕ) (final : Option StopReason) → KeepsSites y Made (settle y again any tid final)
    settle-KeepsSites tid none = search (sites_rules, resume-KeepsSites)
    settle-KeepsSites tid (some reason) = report-KeepsSites tid reason

    decode-KeepsSites : (event : ℕ × ℕ) → KeepsSites y Made (decode y again any event)
    decode-KeepsSites event =
        search (sites_rules, handle_signal-KeepsSites, recover-KeepsSites, settle-KeepsSites) depth
          12

  -- `wait_on_signal` leaves the sites where they are, returning or throwing, and what is behind them
  -- was made by hit handlers.
  pub wait_on_signal-KeepsSites :
      (rounds : ℕ) (to_await : Option ℕ) → KeepsSites y Made (wait_on_signal y rounds to_await)
  unfolding wait_on_signal
  wait_on_signal-KeepsSites zero to_await = record { follows = λ s. tt }
  wait_on_signal-KeepsSites (suc rounds) to_await =
      search
        (
          sites_rules,
          decode-KeepsSites _ _ (wait_on_signal-KeepsSites rounds to_await)
              (wait_on_signal-KeepsSites rounds none),
        )
        depth 8
