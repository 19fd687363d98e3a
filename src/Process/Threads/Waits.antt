-- ===== src/Process/Threads/Waits.antt =====
-- `wait_on_signal` of src/process.cpp: it ends when the system has reported all it has to report,
-- and no thread runs when it reports a stop.
use gsdb.Common.{ℕ, zero, suc, ◌≤◌, ◌<◌, ◌≡◌, ◌⊎◌, inl, inr, refl, true}
use gsdb.Common.{◌==◌, arith, Option, none, some, if◌then◌else◌, Error}
use gsdb.Common.{or_err}
use gsdb.Process.Reply.{Call, pure, gets, modify, lift, catching, ◌>>=◌, ◌>>◌}
use gsdb.Process.Reply.Within.{
  Within, Any, Within-bind, Within-pure, Within-gets, Within-if, Within-lift, Within-weaken,
  Within-catching,
}
use gsdb.Process.Threads.{ProcessState, Process, System, StopReason, outside, resume}
use gsdb.Process.Threads.Kept.{IsFinite, Reported, or_err-Ends}
use gsdb.Process.Threads.Reported.{handle_signal-Reported, Reports}
use gsdb.Process.Threads.AllStop.{NoneRunning, stop_running_threads-NoneRunning}
use gsdb.Process.Threads.Halted.{stop_reason-Halted}
use gsdb.Process.Threads.Rounds.{
  resume-Reported, remove_exited-NoneRunning, note_stop-Reported, lifecycle-Reported,
  changes-Reported, change_thread-Reported,
}
use gsdb.Process.Threads.Signals.{stop_reason, handle_signal, report_thread_lifecycle_event}
use gsdb.Process.Threads.Stops.{
  has_ended, note_stop, stop_running_threads, remove_exited, cleanup_exited_threads, record_stop,
  set_stopped, recover, report_stop, exit_of, report_exit, report, settle, handle, decode,
  wait_on_signal, value_or,
}

-- The process has ended, or no thread of it runs.
abbrev pub AllStopped : {W : Type 0} → StopReason → Process W → Type 0
AllStopped r s = (has_ended r.reason ≡ true) ⊎ NoneRunning s

module _ {W : Type 0} (y : System W) (left : W → ℕ) (h : IsFinite y left) where
  -- The calls that leave the threads as they are.
  set_stopped-NoneRunning :
      (tid : ℕ) (state : ProcessState) (s : Process W)
      → NoneRunning s
      → Within (Reported left) (λ _ u. NoneRunning u) (set_stopped y tid state) s
  unfolding Within
  set_stopped-NoneRunning tid state s k = (k, omega arith)

  cleanup-NoneRunning :
      (tid : ℕ) (s : Process W)
      → NoneRunning s
      → Within (Reported left) (λ _ u. NoneRunning u) (cleanup_exited_threads y tid) s
  unfolding cleanup_exited_threads
  cleanup-NoneRunning tid s k =
      Within-bind (Reported left) (λ _ u. NoneRunning u) _ (gets (λ s. s.threads))
        (remove_exited y tid) s (Within-gets (Reported left) _ (λ s. s.threads) s k)
        (λ threads s k _. remove_exited-NoneRunning y left h tid threads s k)

  recover-Reported :
      (reason : StopReason) (s : Process W) → Within (Reported left) Any (recover y reason) s
  unfolding recover
  recover-Reported reason s =
      Within-bind (Reported left) Any Any (record_stop y reason)
        (λ _. stop_running_threads y >> set_stopped y reason.tid reason.reason) s
        (change_thread-Reported y left h reason.tid _ s)
        (λ _ s _ _.
          Within-bind (Reported left) _ Any (stop_running_threads y)
            (λ _. set_stopped y reason.tid reason.reason) s
            (stop_running_threads-NoneRunning y left h s)
            (λ _ s _ _. changes-Reported y left h _ s (omega arith)))

  report_stop-NoneRunning :
      (tid : ℕ) (reason : StopReason) (s : Process W)
      → Within (Reported left) (λ _ u. NoneRunning u) (report_stop y tid reason) s
  unfolding report_stop
  report_stop-NoneRunning tid reason s =
      Within-bind (Reported left) _ _ (stop_running_threads y) (λ _. cleaned) s
        (stop_running_threads-NoneRunning y left h s)
        (λ _ s k _.
          Within-bind (Reported left) _ _ (cleanup_exited_threads y tid) finish s
            (cleanup-NoneRunning tid s k)
            (λ to_report s k _.
              Within-bind (Reported left) _ _ (set_stopped y tid (value_or to_report reason).reason)
                (λ _. pure (value_or to_report reason)) s
                (set_stopped-NoneRunning tid (value_or to_report reason).reason s k)
                (λ _ s k _. Within-pure (Reported left) _ (value_or to_report reason) s k)))
    where
      finish : Option StopReason → Call (Process W) StopReason
      finish to_report =
          set_stopped y tid (value_or to_report reason).reason >> pure (value_or to_report reason)

      cleaned : Call (Process W) StopReason
      cleaned = cleanup_exited_threads y tid >>= finish

  exited :
      (reason : StopReason) (s : Process W)
      → has_ended reason.reason ≡ true
      → Within
          (Reported left)
          AllStopped
          (modify (λ s. record s { state = reason.reason }) >> pure reason)
          s
  unfolding Within
  exited reason s e = (inl e, omega arith)

  -- A report, if the rest of the waiting is as stated in every state with fewer than `n` reports left.
  report-AllStopped :
      (again : Call (Process W) StopReason) (n tid : ℕ) (reason : StopReason) (s : Process W)
      → ((s : Process W) → left s.outside < n → Within (Reported left) AllStopped again s)
      → (left s.outside < n)
      → Within (Reported left) AllStopped (report y again tid reason) s
  report-AllStopped again n tid reason s k l =
      Within-bind (Reported left) Any _ (note_stop y tid reason)
        (λ _.
          if has_ended reason.reason
          then report_exit y again tid reason
          else report_stop y tid reason)
        s (note_stop-Reported y left h tid reason s)
        (λ _ s _ fewer.
          Within-if (Reported left) _ (has_ended reason.reason) _ _ s
            (λ ended.
              Within-bind (Reported left) Any _ (report_thread_lifecycle_event y reason)
                (λ _. gets (λ s. s.pid) >>= exit_of y again tid reason) s
                (lifecycle-Reported y left h reason s)
                (λ _ s _ fewer'.
                  Within-bind (Reported left) (λ _ t. t ≡ s) _ (gets (λ s. s.pid))
                    (exit_of y again tid reason) s
                    (Within-gets (Reported left) _ (λ s. s.pid) s refl)
                    (λ pid t e _.
                      Within-if (Reported left) _ (tid == pid) _ _ t (λ _. exited reason t ended)
                        (λ _. k t (rw e (omega (arith, fewer, fewer', l)))))))
            (λ _.
              Within-weaken (Reported left) _ _ (report_stop y tid reason) s
                (report_stop-NoneRunning tid reason s) (λ _ _ stopped _. inr stopped)))

  settle-AllStopped :
      (again any : Call (Process W) StopReason) (n tid : ℕ) (final : Option StopReason)
      → (s : Process W)
      → ((s : Process W) → left s.outside < n → Within (Reported left) AllStopped again s)
      → ((s : Process W) → left s.outside < n → Within (Reported left) AllStopped any s)
      → (left s.outside < n)
      → Within (Reported left) AllStopped (settle y again any tid final) s
  settle-AllStopped again any n tid (some reason) s k k' l =
      report-AllStopped any n tid reason s k' l
  settle-AllStopped again any n tid none s k k' l =
      Within-bind (Reported left) Any _ (resume y (some tid)) (λ _. again) s
        (resume-Reported y left h tid s) (λ _ s _ fewer. k s (omega (arith, fewer, l)))

  handle-AllStopped :
      (again any : Call (Process W) StopReason) (n : ℕ) (reason : StopReason) (s : Process W)
      → ((s : Process W) → left s.outside < n → Within (Reported left) AllStopped again s)
      → ((s : Process W) → left s.outside < n → Within (Reported left) AllStopped any s)
      → (left s.outside < n)
      → Within (Reported left) AllStopped (handle y again any reason) s
  handle-AllStopped again any n reason s k k' l =
      Within-bind (Reported left) (Reports reason) _
        (catching (handle_signal y reason true) (recover y reason)) (settle y again any reason.tid)
        s
        (Within-catching (Reported left) (Reports reason) (handle_signal y reason true)
          (recover y reason) s (handle_signal-Reported y left h reason true s)
          (λ s _. recover-Reported reason s))
        (λ final s _ fewer.
          settle-AllStopped again any n reason.tid final s k k' (omega (arith, fewer, l)))

  decode-AllStopped :
      (again any : Call (Process W) StopReason) (n : ℕ) (event : ℕ × ℕ) (s : Process W)
      → ((s : Process W) → left s.outside < n → Within (Reported left) AllStopped again s)
      → ((s : Process W) → left s.outside < n → Within (Reported left) AllStopped any s)
      → (left s.outside < n)
      → Within (Reported left) AllStopped (decode y again any event) s
  decode-AllStopped again any n event s k k' l =
      Within-bind (Reported left) Any _ (lift (λ s. stop_reason y event.0 event.1) pure)
        (handle y again any) s
        (Within-lift (Reported left) _ Any (λ s. stop_reason y event.0 event.1) pure s
          (stop_reason-Halted y left h event.0 event.1)
          (λ r _. Within-pure (Reported left) Any r s tt))
        (λ reason s _ fewer. handle-AllStopped again any n reason s k k' (omega (arith, fewer, l)))

  -- The answer of `waitpid`: with an event there is one report less.
  Waited : Option ℕ → ℕ → Option (ℕ × ℕ) → Process W → Type 0
  Waited to n answer s = ((event : ℕ × ℕ) → answer ≡ some event → left s.outside < n)

  waitpid-Reports :
      (to : Option ℕ) (n : ℕ) (s : Process W)
      → (left s.outside ≤ n)
      → Within (Reported left) (Waited to n) (outside y (y.waitpid to)) s
  unfolding Within Waited
  waitpid-Reports to n s l = (
    (λ event e. omega (arith, h.waitpid_reports to s.outside event e, l)),
    h.waitpid_left to s.outside,
  )

  fewer :
      (to : Option ℕ) {n : ℕ} (answer : Option (ℕ × ℕ)) (s : Process W)
      → Waited to n answer s
      → (event : ℕ × ℕ) → answer ≡ some event
      → left s.outside < n
  unfolding Waited
  fewer to answer s k = k

  -- Where the system has fewer changes of state of its threads left to report than there are rounds,
  -- `wait_on_signal` ends: it returns, throws, or does something undefined. Where it returns, it
  -- reports that the process has exited or been terminated, or else none of the tracked threads
  -- runs. Where it returns or throws, the system has no more changes left than before.
  pub wait_on_signal-AllStopped :
      (rounds : ℕ) (to_await : Option ℕ) (s : Process W)
      → (left s.outside < rounds)
      → Within (Reported left) AllStopped (wait_on_signal y rounds to_await) s
  unfolding wait_on_signal
  wait_on_signal-AllStopped zero to_await s l = absurd (omega (arith, l))
  wait_on_signal-AllStopped (suc rounds) to_await s l =
      Within-bind (Reported left) (Waited to_await rounds) _ (outside y (y.waitpid to_await))
        (λ answer. lift (λ s. or_err Error.os_failure answer) pure >>= next) s
        (waitpid-Reports to_await rounds s (omega (arith, l)))
        (λ answer s k _.
          Within-bind (Reported left) (λ event t. left t.outside < rounds) _
            (lift (λ s. or_err Error.os_failure answer) pure) next s
            (Within-lift (Reported left) (λ event. answer ≡ some event) _
              (λ s. or_err Error.os_failure answer) pure s
              (or_err-Ends (λ event. answer ≡ some event) Error.os_failure answer (λ event e. e))
              (λ event e.
                Within-pure (Reported left) _ event s (fewer to_await answer s k event e)))
            (λ event s l' _.
              decode-AllStopped (wait_on_signal y rounds to_await) (wait_on_signal y rounds none)
                rounds event s (wait_on_signal-AllStopped rounds to_await)
                (wait_on_signal-AllStopped rounds none) l'))
    where
      next : ℕ × ℕ → Call (Process W) StopReason
      next = decode y (wait_on_signal y rounds to_await) (wait_on_signal y rounds none)
