-- ===== src/Process/Threads/State.antt =====
-- The state of `process` and of its threads, in src/process.cpp and include/libgsdb/process.hpp,
-- and what the class asks of the system.
use gsdb.Common.{ℕ, Bool, true, false, ◌==◌, ◌&&◌, ◌||◌, List}
use gsdb.Common.{Option, none, some, Outcome, Error}
use gsdb.Stoppoints.Kernel.{Kernel}
use gsdb.Stoppoints.Site.{Site}
use gsdb.Process.Watchpoint.{Watchpoint}

pub data ProcessState : Type 0 where
  stopped running exited terminated : ProcessState

pub data TrapType : Type 0 where
  single_step software_break hardware_break syscall clone unknown : TrapType

-- The union of `syscall_information`, with its flag `entry`.
pub data SyscallValue : Type 0 where
  args : List ℕ → SyscallValue
  ret : ℕ → SyscallValue

pub record SyscallInformation : Type 0 where
  pub id : ℕ
  pub value : SyscallValue

pub record StopReason : Type 0 where
  pub tid : ℕ
  pub reason : ProcessState
  pub info : ℕ
  pub trap_reason : Option TrapType
  pub syscall_info : Option SyscallInformation

-- The registers that the process class itself reads.
pub record UserRegisters : Type 0 where
  pub rip : ℕ
  pub rax : ℕ
  pub orig_rax : ℕ
  pub arguments : List ℕ
  pub debug : List ℕ

-- `thread_state`.
pub record Thread : Type 0 where
  pub tid : ℕ
  pub regs : UserRegisters
  pub reason : StopReason
  pub state : ProcessState
  pub pending_sigstop : Bool

-- `syscall_catch_policy`, by its named constructors.
pub data SyscallCatchPolicy : Type 0 where
  catch_none catch_all : SyscallCatchPolicy
  catch_some : List ℕ → SyscallCatchPolicy

-- `W` is all that is outside the class: the inferior, the kernel and the target.
pub record Process (W : Type 0) : Type 0 where
  pub pid : ℕ
  pub current_thread : ℕ
  pub state : ProcessState
  pub threads : List Thread
  pub is_attached : Bool
  pub has_target : Bool
  pub syscall_catch_policy : SyscallCatchPolicy
  pub expecting_syscall_exit : Bool
  pub breakpoint_sites : List Site
  pub watchpoints : List Watchpoint
  pub outside : W

-- The requests that let a thread run: `PTRACE_CONT`, `PTRACE_SYSCALL`, `PTRACE_SINGLESTEP`.
pub data Request : Type 0 where
  cont syscall single_step : Request

-- What the class asks of the system, and of the breakpoints and the target: the macros on a wait
-- status; `ptrace`, `tgkill` and `waitpid` (-1 is `none`); the registers of a thread, and what they
-- hold before the first read; `notify_hit` of a site's parent, whose handler may throw, and may make
-- sites: it gets the process's sites, and leaves them and the rest changed; `notify_stop`, which may
-- throw; the life-cycle callbacks.
pub record System (W : Type 0) : Type 0 where
  pub kernel : Kernel W
  pub is_exited : ℕ → Bool
  pub is_signaled : ℕ → Bool
  pub is_stopped : ℕ → Bool
  pub exit_status : ℕ → ℕ
  pub term_signal : ℕ → ℕ
  pub stop_signal : ℕ → ℕ
  pub request : Request → ℕ → W → Bool × W
  pub tgkill : ℕ → ℕ → ℕ → W → W
  pub waitpid : Option ℕ → W → Option (ℕ × ℕ) × W
  pub read_registers : ℕ → W → Option UserRegisters
  pub write_rip : ℕ → ℕ → W → Option W
  pub signal_code : ℕ → W → Option ℕ
  pub read_memory : W → ℕ → ℕ → Outcome (List ℕ)
  pub unread : UserRegisters
  pub has_parent : Site → Bool
  pub notify_hit : Site → List Site → W → Outcome Bool × (List Site × W)
  pub notify_stop : StopReason → W → Option Error × W
  pub notify_lifecycle : StopReason → W → W

abbrev pub sigtrap : ℕ
sigtrap = 5

abbrev pub sigstop : ℕ
sigstop = 19

-- `stop_reason{}`.
abbrev pub no_reason : StopReason
no_reason = record {
  tid = 0;
  reason = ProcessState.stopped;
  info = 0;
  trap_reason = none;
  syscall_info = none;
}

abbrev pub is_state : ProcessState → ProcessState → Bool
is_state ProcessState.stopped ProcessState.stopped = true
is_state ProcessState.running ProcessState.running = true
is_state ProcessState.exited ProcessState.exited = true
is_state ProcessState.terminated ProcessState.terminated = true
is_state s t = false

abbrev pub is_trap : TrapType → Option TrapType → Bool
is_trap TrapType.single_step (some TrapType.single_step) = true
is_trap TrapType.software_break (some TrapType.software_break) = true
is_trap TrapType.hardware_break (some TrapType.hardware_break) = true
is_trap TrapType.syscall (some TrapType.syscall) = true
is_trap TrapType.clone (some TrapType.clone) = true
is_trap t reason = false

-- `is_step` and `is_breakpoint` of `stop_reason`.
unfoldable pub is_step : StopReason → Bool
is_step r =
    is_state r.reason ProcessState.stopped
    && r.info == sigtrap
    && is_trap TrapType.single_step r.trap_reason

unfoldable pub is_breakpoint : StopReason → Bool
is_breakpoint r =
    is_state r.reason ProcessState.stopped
    && r.info == sigtrap
    && (is_trap TrapType.software_break r.trap_reason
        || is_trap TrapType.hardware_break r.trap_reason)
