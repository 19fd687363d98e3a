-- ===== src/Target/Once.antt =====
-- `run_until_address` of src/target.cpp never reports the breakpoint that it ran to, so `step_out`
-- runs to the caller's address once.
use gsdb.Common.{ℕ, suc, ◌≡◌, refl, sym, ap, ◌∙◌, Bool, true, false, ◌==◌, ◌&&◌, arith}
use gsdb.Common.{List, [], ◌∷◌, Option, none, some, if◌then◌else◌}
use gsdb.Common.{Outcome, Error, ok, err, if_true, if_false}
use gsdb.Stoppoints.Memory.{site_stoppoint}
use gsdb.Stoppoints.Collection.{remove_by_address}
use gsdb.Process.Reply.{returned, bound, pure, when, settled, throw_unless, ◌>>=◌}
use gsdb.Process.Reply.Returned.{bound-eq-returned, returned-injective}
use gsdb.Process.Threads.{
  StopReason, Thread, Process, System, is_breakpoint, TrapType, find_thread, change_thread, get_pc,
  resume, thread_or_throw,
}
use gsdb.Process.Threads.Stops.{wait_on_signal}
use gsdb.Target.{
  View, arrived, plant, uproot, known, finish_run, breakpoint_pc, run_until_address, out_again,
  step_out_loop,
}

not_breakpoint :
    (reason : StopReason)
    → is_breakpoint (record reason { trap_reason = some TrapType.single_step }) ≡ false
unfolding is_breakpoint
not_breakpoint reason = ground arith

-- A stop that is still reported as at a breakpoint was reported so, and not at the address.
arrived-elsewhere :
    (pc address : ℕ) (reason : StopReason)
    → is_breakpoint (arrived pc address reason) ≡ true
    → (arrived pc address reason ≡ reason) × ((pc == address) ≡ false)
unfolding arrived
arrived-elsewhere pc address reason h = case_of (is_breakpoint reason) refl (pc == address) refl
  where
    differ : true ≡ false → ⊥
    differ e = cc

    case_of :
        (b : Bool)
        → is_breakpoint reason ≡ b
        → (c : Bool) → (pc == address) ≡ c
        → (arrived pc address reason ≡ reason) × ((pc == address) ≡ false)
    case_of true p true q = absurd (
        differ (
          sym h
          ∙ (ap is_breakpoint (if_true _ _ reason (ap (λ b. b && pc == address) p ∙ q))
              ∙ not_breakpoint reason)))
    case_of true p false q = (if_false _ _ reason (ap (λ b. b && pc == address) p ∙ q), q)
    case_of false p c q = absurd (
        differ
          (sym h ∙ (ap is_breakpoint (if_false _ _ reason (ap (λ b. b && pc == address) p)) ∙ p)))

abbrev rip_in : Option Thread → Option ℕ
rip_in none = none
rip_in (some t) = some t.regs.rip

abbrev rip_of : ℕ → List Thread → Option ℕ
rip_of tid threads = rip_in (find_thread tid threads)

-- The program counter of a thread whose reason is set is as before.
rip_of-set :
    (tid : ℕ) (reason : StopReason) (threads : List Thread)
    → rip_of tid (change_thread tid (λ t. record t { reason = reason }) threads)
      ≡ rip_of tid threads
rip_of-set tid reason [] = refl
rip_of-set tid reason (u ∷ threads) = grind (arith, rip_of-set tid reason threads)

module _ {W : Type 0} (y : System W) (v : View W) where
  -- The removal of the breakpoint leaves the threads.
  uproot-threads :
      (address : ℕ) (s t : Process W) → uproot y v address s ≡ returned tt t → t.threads ≡ s.threads
  uproot-threads address s t e =
      at (remove_by_address (site_stoppoint y.kernel) s.breakpoint_sites address s.outside) e
    where
      at :
          (o : Outcome (List _ × W))
          → settled (λ r. λ s. returned tt (record s { breakpoint_sites = r.0; outside = r.1 })) o s
            ≡ returned tt t
          → t.threads ≡ s.threads
      at (ok r) e = ap (λ u. u.threads) (sym (returned-injective e).1)
      at (err x) e = absurd (cc)
      at Outcome.undefined e = absurd (cc)
      at Outcome.exhausted e = absurd (cc)

  made-threads :
      (made : Bool) (address : ℕ) (s t : Process W)
      → when made (uproot y v address) s ≡ returned tt t
      → t.threads ≡ s.threads
  made-threads true address s t e = uproot-threads address s t e
  made-threads false address s t e = ap (λ u. u.threads) (sym (returned-injective e).1)

  known-state : (tid : ℕ) (s t : Process W) → known y v tid s ≡ returned tt t → s ≡ t
  known-state tid s t e = at (v.has_thread tid s.outside) e
    where
      at : (found : Bool) → throw_unless found Error.out_of_range s ≡ returned tt t → s ≡ t
      at true e = (returned-injective e).1
      at false e = absurd (cc)

  get_pc-returned :
      (tid pc : ℕ) (s t : Process W)
      → get_pc y tid s ≡ returned pc t
      → rip_of tid s.threads ≡ some pc
  unfolding get_pc
  get_pc-returned tid pc s t e = at (find_thread tid s.threads) e
    where
      at :
          (o : Option Thread)
          → bound (λ u. pure u.regs.rip) (thread_or_throw o s) ≡ returned pc t
          → rip_in o ≡ some pc
      at none e = absurd (cc)
      at (some u) e = ap some (returned-injective e).0

  returned-get_pc :
      (tid pc : ℕ) (s : Process W) → rip_of tid s.threads ≡ some pc → get_pc y tid s ≡ returned pc s
  unfolding get_pc
  returned-get_pc tid pc s e = at (find_thread tid s.threads) e
    where
      at :
          (o : Option Thread)
          → rip_in o ≡ some pc
          → bound (λ u. pure u.regs.rip) (thread_or_throw o s) ≡ returned pc s
      at none e = absurd (cc)
      at (some u) e = ap (λ n. returned n s) (equal e)
        where
          equal : {m n : ℕ} → some m ≡ some n → m ≡ n
          equal e = cc

  -- Where the breakpoint is reported, the program counter is elsewhere, and was so before.
  finish_run-elsewhere :
      (address tid : ℕ) (made : Bool) (reason r : StopReason) (pc : ℕ) (s t : Process W)
      → breakpoint_pc y v tid reason s ≡ returned pc s
      → finish_run y v address tid made reason pc s ≡ returned r t
      → is_breakpoint r ≡ true
      → (get_pc y tid t ≡ returned pc t) × ((pc == address) ≡ false)
  finish_run-elsewhere address tid made reason r pc s t read e h =
      let recorded = λ (s : Process W). returned (arrived pc address reason) (record s {
        threads =
            change_thread tid (λ t. record t { reason = arrived pc address reason }) s.threads;
      }) in
      let (_, (s1, cut, found)) =
        bound-eq-returned (λ _. known y v tid >>= λ _. recorded) (when made (uproot y v address) s)
          r t e in
      let (_, (s2, there, rest)) = bound-eq-returned (λ _. recorded) (known y v tid s1) r t found in
      let (same, state) = returned-injective rest in
      let (kept, elsewhere) = arrived-elsewhere pc address reason (ap is_breakpoint same ∙ h) in
      let at_breakpoint = ap is_breakpoint (sym kept ∙ same) ∙ h in
      let before = get_pc-returned tid pc s s (
        ap (λ m. m s) (sym (if_true (is_breakpoint reason) (get_pc y tid) (pure 0) at_breakpoint))
        ∙ read) in
      (
        returned-get_pc tid pc t (
            ap (λ u. rip_of tid u.threads) (sym state)
            ∙ rip_of-set tid (arrived pc address reason) s2.threads
            ∙ ap (λ u. rip_of tid u.threads) (sym (known-state tid s1 s2 there))
            ∙ ap (rip_of tid) (made-threads made address s s1 cut)
            ∙ before),
        elsewhere,
      )

  breakpoint_pc-state :
      (tid pc : ℕ) (reason : StopReason) (s t : Process W)
      → breakpoint_pc y v tid reason s ≡ returned pc t
      → s ≡ t
  unfolding get_pc
  breakpoint_pc-state tid pc reason s t e = at (is_breakpoint reason) e
    where
      found :
          (o : Option Thread)
          → bound (λ u. pure u.regs.rip) (thread_or_throw o s) ≡ returned pc t
          → s ≡ t
      found none e = absurd (cc)
      found (some u) e = (returned-injective e).1

      at : (b : Bool) → (if b then get_pc y tid else pure 0) s ≡ returned pc t → s ≡ t
      at true e = found (find_thread tid s.threads) e
      at false e = (returned-injective e).1

  -- `run_until_address` does not report the breakpoint at its address.
  run_until_address-elsewhere :
      (rounds address tid : ℕ) (r : StopReason) (s t : Process W)
      → run_until_address y v rounds address tid s ≡ returned r t
      → is_breakpoint r ≡ true
      → (pc : ℕ) × ((get_pc y tid t ≡ returned pc t) × ((pc == address) ≡ false))
  unfolding run_until_address
  run_until_address-elsewhere rounds address tid r s t e h =
      let (made, (s1, _, e1)) = bound-eq-returned _ (plant y v address s) r t e in
      let (_, (s2, _, e2)) = bound-eq-returned _ (resume y (some tid) s1) r t e1 in
      let (reason, (s3, _, e3)) =
        bound-eq-returned _ (wait_on_signal y rounds (some tid) s2) r t e2 in
      let (pc, (s4, read, e4)) = bound-eq-returned _ (breakpoint_pc y v tid reason s3) r t e3 in
      let same = breakpoint_pc-state tid pc reason s3 s4 read in
      (
        pc,
        finish_run-elsewhere address tid made reason r pc s4 t
            (ap (breakpoint_pc y v tid reason) (sym same) ∙ read) e4 h,
      )

  -- Where `run_until_address` returns a stop of the thread that is current then, the loop of
  -- `step_out` returns that stop, in the same state: it does not run to the address again, however
  -- many frames there are.
  pub step_out_loop-once :
      (turns rounds address tid frames : ℕ) (r : StopReason) (s t : Process W)
      → run_until_address y v rounds address tid s ≡ returned r t
      → t.current_thread ≡ tid
      → step_out_loop y v (suc turns) rounds address tid frames s ≡ returned r t
  unfolding step_out_loop
  step_out_loop-once turns rounds address tid frames r s t e current = rw e (
      ap
        (λ c.
          bound
            (λ pc.
              out_again y v (step_out_loop y v turns rounds address tid frames) address tid frames r
                pc)
            (breakpoint_pc y v c r t))
        current
      ∙ case_of (is_breakpoint r) refl)
    where
      case_of :
          (b : Bool)
          → is_breakpoint r ≡ b
          → bound
              (λ pc.
                out_again y v
                  (step_out_loop y v turns rounds address tid frames)
                  address
                  tid
                  frames
                  r
                  pc)
              (breakpoint_pc y v tid r t)
            ≡ returned r t
      case_of false p = rw p refl
      case_of true p =
          let (pc, (got, elsewhere)) = run_until_address-elsewhere rounds address tid r s t e p in
          rw (p, got, elsewhere) refl
