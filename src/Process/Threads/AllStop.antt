-- ===== src/Process/Threads/AllStop.antt =====
-- `stop_running_threads` of src/process.cpp: when it is done no thread runs.
use gsdb.Common.{ℕ, ◌≡◌, ◌≢◌, ◌⊎◌, inl, inr, refl, ◌∙◌, Bool, true, false, arith, sym}
use gsdb.Common.{List, [], ◌∷◌, some}
use gsdb.Process.Reply.{gets, when, ◌>>=◌}
use gsdb.Process.Reply.Within.{
  Within, Within-bind, Within-pure, Within-gets, Within-into, Within-weaken,
}
use gsdb.Process.Threads.{ProcessState, Thread, Process, System, is_state, find_thread, thread_at}
use gsdb.Process.Threads.Kept.{IsFinite, Reported, thread_at-Kept, state_of, state_of-find_thread}
use gsdb.Process.Threads.Stops.{stop_running, stop_each, when_running, stop_running_threads}
use gsdb.Process.Threads.Halted.{KeptBut, others-Kept, stop_running-Halts}

-- Each tracked thread is stopped, or it has exited or been terminated.
abbrev pub NoneRunning : {W : Type 0} → Process W → Type 0
NoneRunning s = (tid : ℕ) → state_of tid s.threads ≢ some ProcessState.running

-- What is left to stop: a thread not listed does not run.
abbrev Listed : ℕ → List Thread → Type 0
Listed u [] = ⊥
Listed u (t ∷ threads) = (u ≡ t.tid) ⊎ Listed u threads

abbrev OnlyRunning : {W : Type 0} → List Thread → Process W → Type 0
OnlyRunning threads s =
    (u : ℕ) → (state_of u s.threads ≢ some ProcessState.running) ⊎ Listed u threads

Listed-state_of :
    (u : ℕ) (threads : List Thread)
    → (state_of u threads ≢ some ProcessState.running) ⊎ Listed u threads
Listed-state_of u [] = inl (λ p. cc)
Listed-state_of u (t ∷ threads) = ground (arith, Listed-state_of u threads)

not_running :
    (state : ProcessState)
    → is_state state ProcessState.running ≡ false
    → state ≢ ProcessState.running
not_running ProcessState.running e = absurd (cc)
not_running ProcessState.stopped e = λ p. cc
not_running ProcessState.exited e = λ p. cc
not_running ProcessState.terminated e = λ p. cc

some-injective : {A : Type 0} {a b : A} → some a ≡ some b → a ≡ b
some-injective e = cc

module _ {W : Type 0} (y : System W) (left : W → ℕ) (h : IsFinite y left) where
  when_running-Halts :
      (tid : ℕ) (t : Thread) (s : Process W)
      → find_thread tid s.threads ≡ some t
      → Within
          (KeptBut left tid)
          (λ _ u. state_of tid u.threads ≢ some ProcessState.running)
          (when_running y tid t)
          s
  when_running-Halts tid t s e = case_of (is_state t.state ProcessState.running) refl
    where
      case_of :
          (b : Bool)
          → is_state t.state ProcessState.running ≡ b
          → Within
              (KeptBut left tid)
              (λ _ u. state_of tid u.threads ≢ some ProcessState.running)
              (when b (stop_running y tid))
              s
      case_of true p = stop_running-Halts y left h tid t s e
      case_of false p = Within-pure (KeptBut left tid) _ tt s (λ q.
          not_running t.state p (some-injective (sym (state_of-find_thread tid s.threads t e) ∙ q)))

  -- One turn of the loop takes a thread off those that may run.
  turn-OnlyRunning :
      (t : Thread) (threads : List Thread) (s : Process W)
      → OnlyRunning (t ∷ threads) s
      → Within
          (Reported left)
          (λ _ u. OnlyRunning threads u)
          (thread_at y t.tid >>= when_running y t.tid)
          s
  turn-OnlyRunning t threads s k =
      Within-into (KeptBut left t.tid) (Reported left) _ _ s
        (Within-weaken (KeptBut left t.tid)
          (λ _ u. state_of t.tid u.threads ≢ some ProcessState.running) _ _ s
          (Within-bind (KeptBut left t.tid) _ _ (thread_at y t.tid) (when_running y t.tid) s
            (others-Kept y left h _ t.tid (thread_at y t.tid) s (thread_at-Kept y left h t.tid s))
            (λ now s e _. when_running-Halts t.tid now s e))
          (λ _ u halted l v. elim (l.0 v) [
            | inl e ↦ inl (rw e halted)
            | inr e ↦ elim (k v) [
              | inl stopped ↦ inl (rw e stopped)
              | inr (inl e') ↦ inl (rw e' halted)
              | inr (inr listed) ↦ inr listed
            ]
          ]))
        (λ u l. l.1)

  stop_each-NoneRunning :
      (threads : List Thread) (s : Process W)
      → OnlyRunning threads s
      → Within (Reported left) (λ _ u. NoneRunning u) (stop_each y threads) s
  unfolding stop_each
  stop_each-NoneRunning [] s k =
      Within-pure (Reported left) _ tt s
        (λ u. elim (k u) [ inl halted ↦ halted | inr e ↦ absurd e ])
  stop_each-NoneRunning (t ∷ threads) s k =
      Within-bind (Reported left) (λ _ u. OnlyRunning threads u) _
        (thread_at y t.tid >>= when_running y t.tid) (λ _. stop_each y threads) s
        (turn-OnlyRunning t threads s k) (λ _ s l _. stop_each-NoneRunning threads s l)

  -- Started in any state, `stop_running_threads` leaves no thread running when it returns; it
  -- always ends, and takes no more reports than there are.
  pub stop_running_threads-NoneRunning :
      (s : Process W) → Within (Reported left) (λ _ u. NoneRunning u) (stop_running_threads y) s
  unfolding stop_running_threads
  stop_running_threads-NoneRunning s =
      Within-bind (Reported left) (λ threads t. (threads ≡ s.threads) × (t ≡ s)) _
        (gets (λ s. s.threads)) (stop_each y) s
        (Within-gets (Reported left) _ (λ s. s.threads) s (refl, refl))
        (λ threads t e _.
          stop_each-NoneRunning threads t (λ u. rw (e.0, e.1) (Listed-state_of u s.threads)))
