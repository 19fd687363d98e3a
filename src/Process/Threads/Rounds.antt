-- ===== src/Process/Threads/Rounds.antt =====
-- What `wait_on_signal` of src/process.cpp does around the stop of the threads: it resumes one, and
-- drops those that have exited. No call brings new reports.
use gsdb.Common.{ℕ, ◌≤◌, ◌≡◌, ◌≢◌, ◌⊎◌, inl, inr, refl, ◌∙◌}
use gsdb.Common.{arith, sym, List, [], ◌∷◌, none, some}
use gsdb.Process.Reply.{Call, gets, modify, when, ◌>>◌}
use gsdb.Process.Reply.Within.{
  Order, Within, Any, Within-bind, Within-pure, Within-gets, Within-when, Within-into,
  Within-weaken,
}
use gsdb.Process.Threads.{
  ProcessState, Thread, Process, System, StopReason, thread_at, at_thread, request, resume_request,
  set_running, mark_running, continue_with, send_continue, step_over_breakpoint, resume,
}
use gsdb.Process.Threads.Kept.{IsFinite, Kept, Reported, thread_at-Kept, request-Kept, state_of}
use gsdb.Process.Threads.Resumed.{step_over_breakpoint-Keeps}
use gsdb.Process.Threads.AllStop.{NoneRunning}
use gsdb.Process.Threads.Signals.{report_thread_lifecycle_event}
use gsdb.Process.Threads.Stops.{
  is_removed, to_remove, erase, erase_each, main_exit, note_stop, report_removed, remove_exited,
}

-- A thread that is kept has its state; those that exited are no longer tracked.
state_of-erase_self : (tid : ℕ) (threads : List Thread) → state_of tid (erase tid threads) ≡ none
state_of-erase_self tid [] = refl
state_of-erase_self tid (t ∷ threads) = ground (arith, state_of-erase_self tid threads)

state_of-erase_ne :
    (u tid : ℕ) (threads : List Thread)
    → u ≢ tid
    → state_of u (erase tid threads) ≡ state_of u threads
state_of-erase_ne u tid [] h = refl
state_of-erase_ne u tid (t ∷ threads) h = ground (arith, state_of-erase_ne u tid threads h)

erase-NotRunning :
    (u tid : ℕ) (threads : List Thread)
    → state_of u threads ≢ some ProcessState.running
    → state_of u (erase tid threads) ≢ some ProcessState.running
erase-NotRunning u tid threads h = elim (same_or_not u tid) [
  | inl e ↦ rw e (λ p. ne_some (sym (state_of-erase_self tid threads) ∙ p))
  | inr e ↦ rw (state_of-erase_ne u tid threads e) h
]
  where
    same_or_not : (u tid : ℕ) → (u ≡ tid) ⊎ (u ≢ tid)
    same_or_not u tid = ground arith

    ne_some : none ≡ some ProcessState.running → ⊥
    ne_some p = cc

erase_each-NotRunning :
    (u : ℕ) (tids : List ℕ) (threads : List Thread)
    → state_of u threads ≢ some ProcessState.running
    → state_of u (erase_each tids threads) ≢ some ProcessState.running
erase_each-NotRunning u [] threads h = h
erase_each-NotRunning u (tid ∷ tids) threads h =
    erase_each-NotRunning u tids (erase tid threads) (erase-NotRunning u tid threads h)

-- Reports of exits, with the threads as they are.
abbrev Same : {W : Type 0} → (W → ℕ) → Order (Process W)
Same left = record {
  Leads = λ s t. (t.threads ≡ s.threads) × (left t.outside ≤ left s.outside);
  Leads-refl = λ s. (refl, omega arith);
  Leads-trans = λ s t u k l. (l.0 ∙ k.0, omega (arith, k.1, l.1));
}

module _ {W : Type 0} (y : System W) (left : W → ℕ) (h : IsFinite y left) where
  -- A change of the state that leaves the reports.
  pub changes-Reported :
      (f : Process W → Process W) (s : Process W)
      → (left (f s).outside ≤ left s.outside)
      → Within (Reported left) Any (modify f) s
  unfolding Within
  changes-Reported f s k = (tt, k)

  pub kept-Reported :
      {A : Type 0} (P : A → Process W → Type 0) (m : Call (Process W) A) (s : Process W)
      → Within (Kept left) P m s
      → Within (Reported left) P m s
  kept-Reported P m s k = Within-into (Kept left) (Reported left) P m s k (λ t l. l.1)

  pub change_thread-Reported :
      (tid : ℕ) (f : Thread → Thread) (s : Process W)
      → Within (Reported left) Any (at_thread y tid f) s
  unfolding Within
  change_thread-Reported tid f s = (tt, omega arith)

  pub note_stop-Reported :
      (tid : ℕ) (reason : StopReason) (s : Process W)
      → Within (Reported left) Any (note_stop y tid reason) s
  note_stop-Reported tid reason s =
      Within-bind (Reported left) _ Any (thread_at y tid)
        (λ _. at_thread y tid (λ t. record t { reason = reason; state = reason.reason })) s
        (kept-Reported _ (thread_at y tid) s (thread_at-Kept y left h tid s))
        (λ _ s _ _. change_thread-Reported tid _ s)

  set_running-Reported :
      (tid : ℕ) (s : Process W) → Within (Reported left) Any (set_running y tid) s
  unfolding Within
  set_running-Reported tid s = (tt, omega arith)

  send_continue-Reported :
      (tid : ℕ) (s : Process W) → Within (Reported left) Any (send_continue y tid) s
  unfolding send_continue
  send_continue-Reported tid s =
      Within-bind (Reported left) Any Any (gets (λ s. s.syscall_catch_policy)) (continue_with y tid)
        s (Within-gets (Reported left) Any (λ s. s.syscall_catch_policy) s tt)
        (λ policy s _ _.
          Within-bind (Reported left) Any Any (request y (resume_request policy) tid)
            (λ _. mark_running y tid) s
            (kept-Reported _ (request y (resume_request policy) tid) s
              (request-Kept y left h (resume_request policy) tid s))
            (λ _ s _ _.
              Within-bind (Reported left) _ Any (thread_at y tid) (λ _. set_running y tid) s
                (kept-Reported _ (thread_at y tid) s (thread_at-Kept y left h tid s))
                (λ _ s _ _. set_running-Reported tid s)))

  pub resume-Reported :
      (tid : ℕ) (s : Process W) → Within (Reported left) Any (resume y (some tid)) s
  unfolding resume
  resume-Reported tid s =
      Within-bind (Reported left) Any Any (gets (λ s. s.current_thread))
        (λ current. step_over_breakpoint y tid >> send_continue y tid) s
        (Within-gets (Reported left) Any (λ s. s.current_thread) s tt)
        (λ current s _ _.
          Within-bind (Reported left) Any Any (step_over_breakpoint y tid)
            (λ _. send_continue y tid) s
            (kept-Reported Any (step_over_breakpoint y tid) s
              (step_over_breakpoint-Keeps y left h tid s))
            (λ _ s _ _. send_continue-Reported tid s))

  pub lifecycle-Reported :
      (reason : StopReason) (s : Process W)
      → Within (Reported left) Any (report_thread_lifecycle_event y reason) s
  unfolding report_thread_lifecycle_event
  lifecycle-Reported reason s = changes-Reported _ s (h.lifecycle_left reason s.outside)

  lifecycle-Same :
      (reason : StopReason) (s : Process W)
      → Within (Same left) Any (report_thread_lifecycle_event y reason) s
  unfolding report_thread_lifecycle_event Within
  lifecycle-Same reason s = (tt, (refl, h.lifecycle_left reason s.outside))

  report_removed-Same :
      (main : ℕ) (threads : List Thread) (s : Process W)
      → Within (Same left) Any (report_removed y main threads) s
  report_removed-Same main [] s = Within-pure (Same left) Any tt s tt
  report_removed-Same main (t ∷ threads) s =
      Within-bind (Same left) Any Any
        (when (is_removed main t) (report_thread_lifecycle_event y t.reason))
        (λ _. report_removed y main threads) s
        (Within-when (Same left) (is_removed main t) (report_thread_lifecycle_event y t.reason) s
          (λ _. lifecycle-Same t.reason s))
        (λ _ s _ _. report_removed-Same main threads s)

  erased-NoneRunning :
      (tids : List ℕ) (main : ℕ) (threads : List Thread) (s : Process W)
      → NoneRunning s
      → Within
          (Reported left)
          (λ _ u. NoneRunning u)
          (modify (λ s. record s { threads = erase_each tids s.threads })
            >> gets (λ s. main_exit s.pid main threads))
          s
  unfolding Within
  erased-NoneRunning tids main threads s k =
      ((λ u. erase_each-NotRunning u tids s.threads (k u)), omega arith)

  pub remove_exited-NoneRunning :
      (main : ℕ) (threads : List Thread) (s : Process W)
      → NoneRunning s
      → Within (Reported left) (λ _ u. NoneRunning u) (remove_exited y main threads) s
  remove_exited-NoneRunning main threads s k =
      Within-bind (Reported left) (λ _ u. NoneRunning u) _ (report_removed y main threads)
        (λ _.
          modify (λ s. record s { threads = erase_each (to_remove main threads) s.threads })
          >> gets (λ s. main_exit s.pid main threads))
        s
        (Within-into (Same left) (Reported left) _ (report_removed y main threads) s
          (Within-weaken (Same left) Any _ (report_removed y main threads) s
            (report_removed-Same main threads s) (λ _ u _ l tid. rw l.0 (k tid)))
          (λ u l. l.1))
        (λ _ s k _. erased-NoneRunning (to_remove main threads) main threads s k)
