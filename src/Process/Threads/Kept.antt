-- ===== src/Process/Threads/Kept.antt =====
-- What the calls of src/process.cpp leave as it is: the state of every thread, but where a thread
-- is resumed or its stop is recorded. The changes of state that the system has still to report
-- are counted, and no call adds to them.
use gsdb.Common.{ℕ, ◌≤◌, ◌<◌, ◌≡◌, refl, Bool, true, false, ◌==◌, arith}
use gsdb.Common.{List, [], ◌∷◌, Option, none, some, if◌then◌else◌}
use gsdb.Common.{Outcome, Error, or_err, Ends}
use gsdb.Stoppoints.Site.{Site}
use gsdb.Process.Reply.{Call, pure, lift, when, throw, ◌>>=◌, ◌>>◌}
use gsdb.Process.Reply.Within.{
  Order, Within, Any, Within-bind, Within-pure, Within-when, Within-lift,
}
use gsdb.Process.Threads.{
  ProcessState, Thread, Process, System, Request, StopReason, find_thread, change_thread, outside,
  thread_at, at_thread, request,
}

-- A call that does not run out of rounds.
abbrev pub Settles : {A : Type 0} → Outcome A → Type 0
Settles m = Ends (λ _. Unit {0}) m

-- The system has `left` changes of state of its threads still to report, and `waitpid` reports one
-- of them; no other call brings new ones. The calls of other components return.
pub record IsFinite {W : Type 0} (y : System W) (left : W → ℕ) : Type 0 where
  pub waitpid_reports :
      (to : Option ℕ) (w : W) (event : ℕ × ℕ)
      → (y.waitpid to w).0 ≡ some event
      → left (y.waitpid to w).1 < left w
  pub waitpid_left : (to : Option ℕ) (w : W) → left (y.waitpid to w).1 ≤ left w
  pub request_left : (r : Request) (tid : ℕ) (w : W) → left (y.request r tid w).1 ≤ left w
  pub tgkill_left : (pid tid signal : ℕ) (w : W) → left (y.tgkill pid tid signal w) ≤ left w
  pub write_left : (tid a : ℕ) (w w' : W) → y.write_rip tid a w ≡ some w' → left w' ≤ left w
  pub poke_left : (a v : ℕ) (w w' : W) → y.kernel.poke w a v ≡ some w' → left w' ≤ left w
  pub set_left :
      (id a : ℕ) (w : W) → Ends (λ r. left r.1 ≤ left w) (y.kernel.set_hardware_breakpoint w id a)
  pub clear_left :
      (index : ℕ) (w : W)
      → Ends (λ w'. left w' ≤ left w) (y.kernel.clear_hardware_stoppoint w index)
  pub read_ends : (w : W) (a n : ℕ) → Settles (y.read_memory w a n)
  pub hit_left :
      (site : Site) (sites : List Site) (w : W) → left (y.notify_hit site sites w).1.1 ≤ left w
  pub hit_settles :
      (site : Site) (sites : List Site) (w : W) → Settles (y.notify_hit site sites w).0
  pub stop_left : (r : StopReason) (w : W) → left (y.notify_stop r w).1 ≤ left w
  pub lifecycle_left : (r : StopReason) (w : W) → left (y.notify_lifecycle r w) ≤ left w

abbrev pub state_of : ℕ → List Thread → Option ProcessState
state_of tid [] = none
state_of tid (t ∷ threads) = if t.tid == tid then some t.state else state_of tid threads

pub state_of-change_thread :
    (u tid : ℕ) (f : Thread → Thread) (threads : List Thread)
    → ((t : Thread) → (f t).tid ≡ t.tid)
    → ((t : Thread) → (f t).state ≡ t.state)
    → state_of u (change_thread tid f threads) ≡ state_of u threads
state_of-change_thread u tid f [] h k = refl
state_of-change_thread u tid f (t ∷ threads) h k =
    grind (arith, h t, k t, state_of-change_thread u tid f threads h k)

pub state_of-find_thread :
    (tid : ℕ) (threads : List Thread) (t : Thread)
    → find_thread tid threads ≡ some t
    → state_of tid threads ≡ some t.state
state_of-find_thread tid [] t h = cc
state_of-find_thread tid (u ∷ threads) t h = grind (arith, state_of-find_thread tid threads t)

-- The orders: as many changes of state left, or fewer; and all states as before, too.
module _ {W : Type 0} (left : W → ℕ) where
  abbrev pub Reported : Order (Process W)
  Reported = record {
    Leads = λ s t. left t.outside ≤ left s.outside;
    Leads-refl = λ s. omega arith;
    Leads-trans = λ s t u h k. omega arith;
  }

  abbrev pub SameStates : Process W → Process W → Type 0
  SameStates s t = (u : ℕ) → state_of u t.threads ≡ state_of u s.threads

  abbrev pub Kept : Order (Process W)
  Kept = record {
    Leads = λ s t. SameStates s t × (left t.outside ≤ left s.outside);
    Leads-refl = λ s. ((λ u. refl), omega arith);
    Leads-trans = λ s t u h k. ((λ v. rw (k.0 v) (h.0 v)), omega (arith, h.1, k.1));
  }

  abbrev pub Keeps : {A : Type 0} → Call (Process W) A → Process W → Type 0
  Keeps m s = Within Kept Any m s

  pub bind-Keeps :
      {A B : Type 0} (m : Call (Process W) A) (f : A → Call (Process W) B) (s : Process W)
      → Keeps m s
      → ((a : A) (t : Process W) → Keeps (f a) t)
      → Keeps (m >>= f) s
  bind-Keeps m f s h k = Within-bind Kept Any Any m f s h (λ a t _ _. k a t)

  pub seq-Keeps :
      {A B : Type 0} (m : Call (Process W) A) (n : Call (Process W) B)
      → ((s : Process W) → Keeps m s)
      → ((s : Process W) → Keeps n s)
      → (s : Process W) → Keeps (m >> n) s
  seq-Keeps m n h k s = bind-Keeps m (λ _. n) s (h s) (λ _. k)

  pub throw-Keeps : (A : Type 0) (e : Error) (s : Process W) → Keeps {A = A} (throw e) s
  unfolding Within
  throw-Keeps A e s = ((λ u. refl), omega arith)

  pub when-Keeps :
      (b : Bool) (m : Call (Process W) Unit)
      → ((t : Process W) → Keeps m t)
      → (s : Process W) → Keeps (when b m) s
  when-Keeps b m k s = Within-when Kept b m s (λ _. k s)

pub or_err-Settles : {A : Type 0} (e : Error) (o : Option A) → Settles (or_err e o)
or_err-Settles e none = tt
or_err-Settles e (some a) = tt

pub or_err-Ends :
    {A : Type 0} (P : A → Type 0) (e : Error) (o : Option A)
    → ((a : A) → o ≡ some a → P a)
    → Ends P (or_err e o)
or_err-Ends P e none h = tt
or_err-Ends P e (some a) h = h a refl

module _ {W : Type 0} (y : System W) (left : W → ℕ) (h : IsFinite y left) where
  -- The parts that the methods are made of.
  pub at_thread-Kept :
      (tid : ℕ) (f : Thread → Thread) (s : Process W)
      → ((t : Thread) → (f t).tid ≡ t.tid)
      → ((t : Thread) → (f t).state ≡ t.state)
      → Keeps left (at_thread y tid f) s
  unfolding Within
  at_thread-Kept tid f s k l =
      (tt, ((λ u. state_of-change_thread u tid f s.threads k l), omega arith))

  pub thread_at-Kept :
      (tid : ℕ) (s : Process W)
      → Within (Kept left) (λ t u. find_thread tid u.threads ≡ some t) (thread_at y tid) s
  unfolding Within
  thread_at-Kept tid s = from (find_thread tid s.threads) refl
    where
      from :
          (o : Option Thread)
          → find_thread tid s.threads ≡ o
          → Within
              (Kept left)
              (λ t u. find_thread tid u.threads ≡ some t)
              (λ s. thread_at y tid s)
              s
      from none e = rw e ((λ u. refl), omega arith)
      from (some t) e = rw e (e, ((λ u. refl), omega arith))

  pub outside-Kept :
      {A : Type 0} (f : W → A × W) (s : Process W)
      → (left (f s.outside).1 ≤ left s.outside)
      → Keeps left (outside y f) s
  unfolding Within
  outside-Kept f s k = (tt, ((λ u. refl), k))

  pub waitpid-Keeps : (to : Option ℕ) (s : Process W) → Keeps left (outside y (y.waitpid to)) s
  waitpid-Keeps to s = outside-Kept (y.waitpid to) s (h.waitpid_left to s.outside)

  pub request_outside-Keeps :
      (r : Request) (tid : ℕ) (s : Process W) → Keeps left (outside y (y.request r tid)) s
  request_outside-Keeps r tid s = outside-Kept (y.request r tid) s (h.request_left r tid s.outside)

  pub request-Kept : (r : Request) (tid : ℕ) (s : Process W) → Keeps left (request y r tid) s
  unfolding Within
  request-Kept r tid s = from (y.request r tid s.outside).0 refl
    where
      from : (b : Bool) → (y.request r tid s.outside).0 ≡ b → Keeps left (request y r tid) s
      from true e = rw e (tt, ((λ u. refl), h.request_left r tid s.outside))
      from false e = rw e ((λ u. refl), h.request_left r tid s.outside)

  -- A partial operation of another component, whose value the rest goes on with.
  pub reading-Kept :
      {A : Type 0} (m : Process W → Outcome A) (s : Process W)
      → Settles (m s)
      → Keeps left (lift m pure) s
  reading-Kept m s k =
      Within-lift (Kept left) (λ _. Unit {0}) Any m pure s k
        (λ a _. Within-pure (Kept left) Any a s tt)
