-- ===== src/Process/Threads/Examples.antt =====
-- Runs of src/process.cpp on a process of two threads, whose system reports a list of events.
use gsdb.Common.{ℕ, ◌/◌, ◌%◌, ◌<◌, ◌≤◌, ◌≡◌, refl, true, false, ◌==◌, ◌&&◌, not, arith}
use gsdb.Common.{List, [], ◌∷◌, map, length, Option, none, some, Outcome, ok}
use gsdb.Stoppoints.Kernel.{Kernel}
use gsdb.Stoppoints.Collection.{enabled_stoppoint_at_address}
use gsdb.Process.Reply.{Reply, returned}
use gsdb.Process.Reply.Within.{Within}
use gsdb.Process.Threads.{
  ProcessState, UserRegisters, Thread, SyscallCatchPolicy, Process, System, no_reason,
}
use gsdb.Process.Threads.Kept.{IsFinite, Reported}
use gsdb.Process.Threads.Waits.{AllStopped, wait_on_signal-AllStopped}
use gsdb.Process.Threads.Stops.{wait_on_signal}

-- The events still to come: a thread and its wait status.
abbrev pub Events : Type 0
Events = List (ℕ × ℕ)

abbrev next_event : Option ℕ → Events → Option (ℕ × ℕ) × Events
next_event to [] = (none, [])
next_event to (event ∷ events) = (some event, events)

abbrev registers : UserRegisters
registers = record { rip = 4096; rax = 0; orig_rax = 1; arguments = 1 ∷ 2 ∷ []; debug = [] }

abbrev pub kernel : Kernel Events
kernel = record {
  peek = λ w a. some 0;
  poke = λ w a v. some w;
  readv = λ w parts. some [];
  set_hardware_breakpoint = λ w id a. Outcome.ok (0, w);
  clear_hardware_stoppoint = λ w index. Outcome.ok w;
}

abbrev pub system : System Events
system = record {
  kernel = kernel;
  is_exited = λ status. status % 128 == 0;
  is_signaled = λ status. not (status % 128 == 0) && not (status % 256 == 127);
  is_stopped = λ status. status % 256 == 127;
  exit_status = λ status. status / 256;
  term_signal = λ status. status % 128;
  stop_signal = λ status. status / 256;
  request = λ r tid w. (true, w);
  tgkill = λ pid tid signal w. w;
  waitpid = next_event;
  read_registers = λ tid w. some registers;
  write_rip = λ tid a w. some w;
  signal_code = λ tid w. some 2;
  read_memory = λ w a n. Outcome.ok [];
  unread = registers;
  has_parent = λ site. false;
  notify_hit = λ site sites w. (ok false, (sites, w));
  notify_stop = λ r w. (none, w);
  notify_lifecycle = λ r w. w;
}

next_event-length :
    (to : Option ℕ) (w : Events) (event : ℕ × ℕ)
    → (next_event to w).0 ≡ some event
    → length (next_event to w).1 < length w
next_event-length to [] event e = absurd (cc)
next_event-length to (x ∷ w) event e = omega arith

next_event-shorter : (to : Option ℕ) (w : Events) → length (next_event to w).1 ≤ length w
next_event-shorter to [] = omega arith
next_event-shorter to (x ∷ w) = omega arith

pub system-IsFinite : IsFinite system length
system-IsFinite = record {
  waitpid_reports = next_event-length;
  waitpid_left = next_event-shorter;
  request_left = λ r tid w. omega arith;
  tgkill_left = λ pid tid signal w. omega arith;
  write_left = λ tid a w w' e. same w w' e;
  poke_left = λ a v w w' e. same w w' e;
  set_left = λ id a w. omega arith;
  clear_left = λ index w. omega arith;
  read_ends = λ w a n. tt;
  hit_left = λ site sites w. omega arith;
  hit_settles = λ site sites w. tt;
  stop_left = λ r w. omega arith;
  lifecycle_left = λ r w. omega arith;
}
  where
    same : (w w' : Events) → some w ≡ some w' → length w' ≤ length w
    same w w' e = rw (equal w w' e) (omega arith)
      where
        equal : (w w' : Events) → some w ≡ some w' → w' ≡ w
        equal w w' e = cc

abbrev thread : ℕ → Thread
thread n = record {
  tid = n;
  regs = registers;
  reason = no_reason;
  state = ProcessState.running;
  pending_sigstop = false;
}

-- Threads 7, the main one, and 8 run. Thread 7 traps after one step, and thread 8 is stopped.
abbrev pub two_threads : Events → Process Events
two_threads events = record {
  pid = 7;
  current_thread = 7;
  state = ProcessState.running;
  threads = thread 7 ∷ thread 8 ∷ [];
  is_attached = true;
  has_target = true;
  syscall_catch_policy = SyscallCatchPolicy.catch_none;
  expecting_syscall_exit = false;
  breakpoint_sites = [];
  watchpoints = [];
  outside = events;
}

abbrev states : {A : Type 0} → Reply (Process Events) A → List (ℕ × ProcessState)
states (returned a s) = map (λ t. (t.tid, t.state)) s.threads
states other = []

-- A new thread, 9, is tracked and let go; thread 7 stops; thread 8 has exited, and 9 is stopped.
abbrev with_new_thread : Events
with_new_thread = (9, 4991) ∷ (7, 1407) ∷ (8, 0) ∷ (9, 4991) ∷ []

wait_on_new_thread :
    states (wait_on_signal system 5 none (two_threads with_new_thread))
    ≡ (7, ProcessState.stopped) ∷ (9, ProcessState.stopped) ∷ []
unfolding wait_on_signal enabled_stoppoint_at_address
wait_on_new_thread = refl

wait_on_signal-AllStopped_example :
    Within (Reported length) AllStopped (wait_on_signal system 5 none) (two_threads with_new_thread)
wait_on_signal-AllStopped_example =
    wait_on_signal-AllStopped system length system-IsFinite 5 none (two_threads with_new_thread)
      (omega arith)
