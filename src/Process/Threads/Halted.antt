-- ===== src/Process/Threads/Halted.antt =====
-- What `stop_running_threads` of src/process.cpp does to one thread: afterwards it does not run.
use gsdb.Common.{ℕ, ◌≤◌, ◌≡◌, ◌≢◌, ◌⊎◌, inl, inr, refl, true, false, not, ◌==◌, arith}
use gsdb.Common.{List, [], ◌∷◌, Option, none, some, if◌then◌else◌}
use gsdb.Common.{Ends, Ends-if, or_undefined}
use gsdb.Process.Reply.{Call, pure, lift, when, ◌>>=◌}
use gsdb.Process.Reply.Within.{
  Order, Within, Any, Within-bind, Within-pure, Within-lift, Within-into, Within-weaken,
}
use gsdb.Process.Threads.{
  ProcessState, Thread, Process, System, StopReason, find_thread, change_thread, thread_at,
  at_thread,
}
use gsdb.Process.Threads.Kept.{
  IsFinite, Kept, when-Keeps, at_thread-Kept, thread_at-Kept, waitpid-Keeps, reading-Kept, state_of,
  state_of-find_thread,
}
use gsdb.Process.Threads.Handled.{modify-Keeps, or_undefined-Settles}
use gsdb.Process.Threads.Reported.{handle_signal-Kept, Reports}
use gsdb.Process.Threads.Signals.{stop_reason, handle_signal}
use gsdb.Process.Threads.Stops.{
  await_stop, note_stop, send_sigstop, stop_running, value_or, pending_after,
}

abbrev pub IsHalted : ProcessState → Type 0
IsHalted state = state ≢ ProcessState.running

find_thread-state_of :
    (tid : ℕ) (threads : List Thread) (state : ProcessState)
    → state_of tid threads ≡ some state
    → (t : Thread) × (find_thread tid threads ≡ some t)
find_thread-state_of tid [] state e = absurd (cc)
find_thread-state_of tid (t ∷ threads) state e =
    elim (t.tid == tid)
        as (λ b.
          (if b then some t.state else state_of tid threads) ≡ some state
          → (u : Thread) × ((if b then some t else find_thread tid threads) ≡ some u)) [
            | true ↦ λ _. (t, refl)
            | false ↦ find_thread-state_of tid threads state
          ]
      e

-- What `stop_running_threads` does to a thread leaves the states of the others.
abbrev pub KeptBut : {W : Type 0} → (W → ℕ) → ℕ → Order (Process W)
KeptBut left tid = record {
  Leads = λ s t.
      ((u : ℕ) → (u ≡ tid) ⊎ (state_of u t.threads ≡ state_of u s.threads))
      × (left t.outside ≤ left s.outside);
  Leads-refl = λ s. ((λ u. inr refl), omega arith);
  Leads-trans = λ s t u h k. (
    (λ v. elim (h.0 v) [
      | inl e ↦ inl e
      | inr e ↦ elim (k.0 v) [ inl e' ↦ inl e' | inr e' ↦ inr (rw e' e) ]
    ]),
    omega (arith, h.1, k.1),
  );
}

-- The new state of a thread is that of the change; the others keep theirs.
state_of-changed :
    (tid : ℕ) (f : Thread → Thread) (threads : List Thread) (state : ProcessState)
    → ((t : Thread) → (f t).tid ≡ t.tid)
    → ((t : Thread) → (f t).state ≡ state)
    → IsHalted state
    → state_of tid (change_thread tid f threads) ≢ some ProcessState.running
state_of-changed tid f [] state h k l = λ p. cc
state_of-changed tid f (t ∷ threads) state h k l =
    grind (arith, h t, k t, l, state_of-changed tid f threads state)

state_of-others :
    (u tid : ℕ) (f : Thread → Thread) (threads : List Thread)
    → ((t : Thread) → (f t).tid ≡ t.tid)
    → (u ≡ tid) ⊎ (state_of u (change_thread tid f threads) ≡ state_of u threads)
state_of-others u tid f [] h = inr refl
state_of-others u tid f (t ∷ threads) h = grind (arith, h t, state_of-others u tid f threads)

abbrev Awaited : {W : Type 0} → ℕ → StopReason → Process W → Type 0
Awaited tid r u =
    (r.tid ≡ tid) × IsHalted r.reason × ((v : Thread) × (find_thread tid u.threads ≡ some v))

module _ {W : Type 0} (y : System W) (left : W → ℕ) (h : IsFinite y left) where
  -- The constructor gives a stop, an exit or a termination.
  pub stop_reason-Halted :
      (tid status : ℕ) → Ends (λ r. (r.tid ≡ tid) × IsHalted r.reason) (stop_reason y tid status)
  unfolding stop_reason
  stop_reason-Halted tid status =
      Ends-if (λ r. (r.tid ≡ tid) × IsHalted r.reason) (y.is_exited status) _ _
        (λ _. (refl, λ p. cc))
        (λ _.
          Ends-if (λ r. (r.tid ≡ tid) × IsHalted r.reason) (y.is_signaled status) _ _
            (λ _. (refl, λ p. cc))
            (λ _.
              Ends-if (λ r. (r.tid ≡ tid) × IsHalted r.reason) (y.is_stopped status) _ _
                (λ _. (refl, λ p. cc)) (λ _. tt)))

  await_stop-Kept :
      (tid : ℕ) (s : Process W)
      → Within (Kept left) (λ r t. (r.tid ≡ tid) × IsHalted r.reason) (await_stop y tid) s
  unfolding await_stop
  await_stop-Kept tid s =
      Within-bind (Kept left) _ _ _ _ s (thread_at-Kept y left h tid s) (λ t s _ _.
        Within-bind (Kept left) Any _ (when (not t.pending_sigstop) (send_sigstop y tid)) _ s
          (when-Keeps left (not t.pending_sigstop) (send_sigstop y tid)
            (λ s. modify-Keeps y left h _ s refl (h.tgkill_left _ _ _ s.outside)) s)
          (λ _ s _ _.
            Within-bind (Kept left) Any _ _ _ s (waitpid-Keeps y left h (some tid) s)
              (λ answer s _ _.
                Within-bind (Kept left) Any _ (lift (λ s. or_undefined answer) pure) _ s
                  (reading-Kept y left h (λ s. or_undefined answer) s (or_undefined-Settles answer))
                  (λ event s _ _.
                    Within-bind (Kept left) (λ r t. (r.tid ≡ tid) × IsHalted r.reason) _
                      (lift (λ s. stop_reason y tid event.1) pure) _ s
                      (Within-lift (Kept left) (λ r. (r.tid ≡ tid) × IsHalted r.reason) _
                        (λ s. stop_reason y tid event.1) pure s (stop_reason-Halted tid event.1)
                        (λ r k. Within-pure (Kept left) _ r s k))
                      (λ r s k _.
                        Within-bind (Kept left) Any _
                          (at_thread y tid
                            (λ t. record t { pending_sigstop = pending_after r t.pending_sigstop }))
                          (λ _. pure r) s (at_thread-Kept y left h tid _ s (λ t. refl) (λ t. refl))
                          (λ _ s _ _. Within-pure (Kept left) _ r s k))))))

  recorded-Halts :
      (tid : ℕ) (reason : StopReason) (s : Process W)
      → IsHalted reason.reason
      → Within
          (KeptBut left tid)
          (λ _ u. state_of tid u.threads ≢ some ProcessState.running)
          (at_thread y tid (λ t. record t { reason = reason; state = reason.reason }))
          s
  unfolding Within
  recorded-Halts tid reason s k = (
    state_of-changed tid (λ t. record t { reason = reason; state = reason.reason }) s.threads
        reason.reason (λ t. refl) (λ t. refl) k,
    (
      (λ u.
          state_of-others u tid (λ t. record t { reason = reason; state = reason.reason }) s.threads
            (λ t. refl)),
      omega arith,
    ),
  )

  pub others-Kept :
      {A : Type 0} (P : A → Process W → Type 0) (tid : ℕ) (m : Call (Process W) A) (s : Process W)
      → Within (Kept left) P m s
      → Within (KeptBut left tid) P m s
  others-Kept P tid m s k =
      Within-into (Kept left) (KeptBut left tid) P m s k (λ t l. ((λ u. inr (l.0 u)), l.1))

  note_stop-Halts :
      (tid : ℕ) (reason : StopReason) (s : Process W)
      → IsHalted reason.reason
      → Within
          (KeptBut left tid)
          (λ _ u. state_of tid u.threads ≢ some ProcessState.running)
          (note_stop y tid reason)
          s
  note_stop-Halts tid reason s k =
      Within-bind (KeptBut left tid) _ _ (thread_at y tid)
        (λ _. at_thread y tid (λ t. record t { reason = reason; state = reason.reason })) s
        (others-Kept _ tid (thread_at y tid) s (thread_at-Kept y left h tid s))
        (λ _ s _ _. recorded-Halts tid reason s k)

  -- The thread is tracked when it is asked to stop, and when its stop is handled.
  await_stop-Tracked :
      (tid : ℕ) (t : Thread) (s : Process W)
      → find_thread tid s.threads ≡ some t
      → Within (Kept left) (Awaited tid) (await_stop y tid) s
  await_stop-Tracked tid t s e =
      Within-weaken (Kept left) _ _ (await_stop y tid) s (await_stop-Kept tid s) (λ r u k l. (
        k.0,
        k.1,
        find_thread-state_of tid u.threads t.state
            (rw (l.0 tid) (state_of-find_thread tid s.threads t e)),
      ))

  reported-Halted :
      (reason : StopReason) (answer : Option StopReason) (s : Process W)
      → IsHalted reason.reason
      → Reports reason answer s
      → IsHalted (value_or answer reason).reason
  reported-Halted reason none s k e = k
  reported-Halted reason (some r) s k e = rw e k

  pub stop_running-Halts :
      (tid : ℕ) (t : Thread) (s : Process W)
      → find_thread tid s.threads ≡ some t
      → Within
          (KeptBut left tid)
          (λ _ u. state_of tid u.threads ≢ some ProcessState.running)
          (stop_running y tid)
          s
  unfolding stop_running
  stop_running-Halts tid t s e =
      Within-bind (KeptBut left tid) (Awaited tid) _ (await_stop y tid)
        (λ reason.
          handle_signal y reason false >>= λ answer. note_stop y tid (value_or answer reason))
        s (others-Kept _ tid (await_stop y tid) s (await_stop-Tracked tid t s e))
        (λ reason s k _.
          Within-bind (KeptBut left tid) (Reports reason) _ (handle_signal y reason false)
            (λ answer. note_stop y tid (value_or answer reason)) s
            (others-Kept _ tid (handle_signal y reason false) s
              (handle_signal-Kept y left h reason false k.2.0 s (rw k.0 k.2.1)))
            (λ answer s l _.
              note_stop-Halts tid (value_or answer reason) s
                (reported-Halted reason answer s k.1 l)))
