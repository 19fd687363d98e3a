-- ===== src/Target/Examples.antt =====
-- A run of src/target.cpp to the caller's address, in the process of two threads.
use gsdb.Common.{
  ℕ, ◌≡◌, refl, ap, List, ◌++◌, map, All, false, true, [], ◌∷◌, none, some, Outcome, Error, Option,
  length, ltb, arith,
}
use gsdb.Stoppoints.Site.{Site, new_site, enable, disable}
use gsdb.Stoppoints.Memory.{site_stoppoint}
use gsdb.Stoppoints.Collection.{push, get_by_address, enabled_stoppoint_at_address}
use gsdb.Process.Reply.{Reply, returned, Holds}
use gsdb.Process.Threads.{Process, System}
use gsdb.Process.Threads.Kept.{IsFinite}
use gsdb.Process.Threads.Sites.{addresses, Makes}
use gsdb.Process.Threads.Examples.{Events, system, system-IsFinite, two_threads}
use gsdb.Target.{View, run_until_address, step_out_loop}
use gsdb.Target.Lines.{stepped}
use gsdb.Target.Once.{step_out_loop-once}
use gsdb.Target.Ends.{run_until_address-clean}

-- Every stop is at a software breakpoint.
abbrev trapping : System Events
trapping = record system { signal_code = λ tid w. some 128 }

abbrev view : View Events
view = record {
  inline_height = λ tid s. 0;
  simulate_inlined_step_in = λ tid w. w;
  inline_stack_ends = λ tid s. Outcome.ok [];
  line_entry_at_pc = λ tid s. Outcome.ok none;
  visible_frames = λ tid s. 9;
  caller_pc = λ tid s. Outcome.ok 4095;
  disassemble = λ tid s. Outcome.ok ((0, false), (1, false));
  after_prologue = λ tid s. Outcome.ok none;
  has_thread = λ tid w. true;
}

abbrev started : Process Events
started = two_threads ((7, 1407) ∷ (8, 4991) ∷ [])

abbrev state_in : {A : Type 0} → Reply (Process Events) A → Process Events
state_in (returned a s) = s
state_in other = started

abbrev arrival : Process Events
arrival = state_in (run_until_address trapping view 3 4095 7 started)

-- The thread is stopped behind the trap, at 4096, and set back to it.
run_to_caller : run_until_address trapping view 3 4095 7 started ≡ returned (stepped 7) arrival
unfolding run_until_address get_by_address enable enabled_stoppoint_at_address disable
run_to_caller = refl

step_out_loop-once_example :
    step_out_loop trapping view 5 3 4095 7 1 started ≡ returned (stepped 7) arrival
unfolding run_until_address get_by_address enable enabled_stoppoint_at_address disable
step_out_loop-once_example =
    step_out_loop-once trapping view 4 3 4095 7 1 (stepped 7) started arrival run_to_caller refl

-- The process exits, and the target's map has no thread any more once the event is reported: the
-- exit is lost behind an exception.
abbrev forgetful : View Events
forgetful = record view { has_thread = λ tid w. ltb 0 (length w) }

abbrev error_of : {A : Type 0} → Reply (Process Events) A → Option Error
error_of (Reply.threw e s) = some e
error_of other = none

exit_lost :
    error_of (run_until_address trapping forgetful 3 4095 7 (two_threads ((7, 0) ∷ [])))
    ≡ some Error.out_of_range
unfolding run_until_address get_by_address enable enabled_stoppoint_at_address disable
exit_lost = refl

-- A handler that makes a site at 8192, as that of the program's entry does in the dynamic linker.
abbrev linking : System Events
linking = record trapping {
  has_parent = λ t. true;
  notify_hit = λ t sites w. (
    Outcome.ok false,
    (push (site_stoppoint trapping.kernel) sites (new_site 9 8192 false true).0, w),
  );
}

linking-IsFinite : IsFinite linking length
linking-IsFinite = record {
  waitpid_reports = system-IsFinite.waitpid_reports;
  waitpid_left = system-IsFinite.waitpid_left;
  request_left = system-IsFinite.request_left;
  tgkill_left = system-IsFinite.tgkill_left;
  write_left = system-IsFinite.write_left;
  poke_left = system-IsFinite.poke_left;
  set_left = system-IsFinite.set_left;
  clear_left = system-IsFinite.clear_left;
  read_ends = system-IsFinite.read_ends;
  hit_left = λ t sites w. omega arith;
  hit_settles = λ t sites w. tt;
  stop_left = system-IsFinite.stop_left;
  lifecycle_left = system-IsFinite.lifecycle_left;
}

abbrev IsLinkers : ℕ → Type 0
IsLinkers a = a ≡ 8192

pushed_behind :
    (sites : List Site)
    → map
        (λ u. u.address)
        (push (site_stoppoint trapping.kernel) sites (new_site 9 8192 false true).0)
      ≡ map (λ u. u.address) sites ++ (8192 ∷ [])
unfolding push new_site
pushed_behind [] = refl
pushed_behind (t ∷ sites) = ap (λ l. t.address ∷ l) (pushed_behind sites)

linking-Makes : Makes linking IsLinkers
linking-Makes = record { hit_adds = λ t sites w. (8192 ∷ [], pushed_behind sites, (refl, tt)) }

-- A process with a breakpoint site of its own, elsewhere.
abbrev marked : Process Events
marked = record started { breakpoint_sites = (new_site 0 4090 false false).0 ∷ [] }

-- The internal site at 4095 lay between the two.
sites_after_run :
    addresses (state_in (run_until_address linking view 3 4095 7 marked)) ≡ 4090 ∷ 8192 ∷ []
unfolding run_until_address get_by_address enable enabled_stoppoint_at_address disable push new_site
sites_after_run = refl

run_until_address-clean_example :
    Holds
      (λ reason t. (more : List ℕ) × (addresses t ≡ addresses marked ++ more) × All IsLinkers more)
      (λ t. Unit)
      (run_until_address linking view 3 4095 7 marked)
run_until_address-clean_example =
    run_until_address-clean linking view length linking-IsFinite IsLinkers 3 4095 7 marked
      linking-Makes (omega arith)
