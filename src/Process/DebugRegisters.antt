-- ===== src/Process/DebugRegisters.antt =====
-- The debug registers of src/process.cpp: DR0 to DR3 hold addresses, DR7 says which are in use and
-- on what they trap. Each thread has its own.
pub mod Control
pub mod Armed
pub mod Free
use gsdb.Common.{ℕ, zero, suc, ◌+◌, ◌*◌, bit_and, bit_or, Bool, ◌==◌}
use gsdb.Common.{List, [], ◌∷◌, get_elem?, set, find, switch_on, if◌then◌else◌}
use gsdb.Common.{Outcome, ok, err, Error, guard, or_err, or_undefined, ◌>>=◌, ◌>>◌}
use gsdb.Common.Word.{shl64}

-- `stoppoint_mode`.
pub data StoppointMode : Type 0 where
  write read_write execute : StoppointMode

-- `encode_hardware_stoppoint_mode` and `encode_hardware_stoppoint_size`.
unfoldable pub encode_hardware_stoppoint_mode : StoppointMode → ℕ
encode_hardware_stoppoint_mode StoppointMode.write = 0b01
encode_hardware_stoppoint_mode StoppointMode.read_write = 0b11
encode_hardware_stoppoint_mode StoppointMode.execute = 0b00

unfoldable pub encode_hardware_stoppoint_size : ℕ → Outcome ℕ
encode_hardware_stoppoint_size size =
    switch_on size (err Error.invalid_stoppoint_size)
      ((1, ok 0b00) ∷ (2, ok 0b01) ∷ (4, ok 0b11) ∷ (8, ok 0b10) ∷ [])

abbrev enable_bits : ℕ → ℕ
enable_bits i = shl64 0b11 (i * 2)

-- The loop of `find_free_stoppoint_register` from a register on.
unfoldable pub free_from : ℕ → ℕ → ℕ → Outcome ℕ
free_from zero i control = err Error.no_free_debug_register
free_from (suc left) i control =
    let rest = free_from left (i + 1) control in
    if bit_and control (enable_bits i) == 0 then ok i else rest

unfoldable pub find_free_stoppoint_register : ℕ → Outcome ℕ
unfolding free_from
find_free_stoppoint_register control = free_from 4 0 control

-- `~clear_mask`. The mask is an `int`: at register 3 its top bit is the sign, so its complement is
-- not negative, and widens to 64 bits with zeros.
unfoldable pub keep_mask : ℕ → ℕ
keep_mask i =
    switch_on i 0x0fffff3f
      ((0, 0xfffffffffff0fffc) ∷ (1, 0xffffffffff0ffff3) ∷ (2, 0xfffffffff0ffffcf) ∷ [])

-- The new control word of `set_hardware_stoppoint` and of `clear_hardware_stoppoint`.
unfoldable pub set_control : ℕ → ℕ → ℕ → ℕ → ℕ
unfolding keep_mask
set_control control i mode_flag size_flag = bit_or (bit_and control (keep_mask i)) (
    bit_or (bit_or (shl64 1 (i * 2)) (shl64 mode_flag (i * 4 + 16))) (shl64 size_flag (i * 4 + 18)))

unfoldable pub clear_control : ℕ → ℕ → ℕ
unfolding keep_mask
clear_control control i = bit_and control (keep_mask i)

-- A thread's debug registers, DR0 to DR7.
pub record DebugThread : Type 0 where
  pub tid : ℕ
  pub debug : List ℕ

pub record DebugState : Type 0 where
  pub current_thread : ℕ
  pub threads : List DebugThread

abbrev pub dr7 : ℕ
dr7 = 7

-- `PTRACE_POKEUSER` on a thread's register, which may fail.
abbrev pub Poke : Type 0
Poke = ℕ → ℕ → ℕ → Bool

-- `get_registers()`: the current thread, or `out_of_range`.
abbrev pub current_of : DebugState → Outcome DebugThread
current_of s = or_err Error.out_of_range (find (λ t. t.tid == s.current_thread) s.threads)

abbrev pub replace_thread : DebugThread → List DebugThread → List DebugThread
replace_thread t [] = []
replace_thread t (u ∷ threads) = (if u.tid == t.tid then t else u) ∷ replace_thread t threads

module _ (poke : Poke) where
  -- `write_by_id` on a debug register.
  unfoldable pub write_debug : ℕ → ℕ → DebugThread → Outcome DebugThread
  write_debug index value t =
      guard (poke t.tid index value) Error.os_failure
      >> ok (record t { debug = set t.debug index value })

  -- The two writes of one thread: the register of the slot, then DR7.
  unfoldable pub write_slot : ℕ → ℕ → ℕ → DebugThread → Outcome DebugThread
  unfolding write_debug
  write_slot i address control t = write_debug i address t >>= write_debug dr7 control

  -- The writes to all threads but the current one, whose writes are done.
  unfoldable pub write_others : ℕ → ℕ → ℕ → ℕ → List DebugThread → Outcome (List DebugThread)
  unfolding write_slot
  write_others current i address control [] = ok []
  write_others current i address control (t ∷ threads) =
      (if t.tid == current then ok t else write_slot i address control t) >>= λ t'.
      write_others current i address control threads >>= λ threads'. ok (t' ∷ threads')

  -- `set_hardware_stoppoint`. The registers written before an error are not in its outcome.
  unfoldable pub set_hardware_stoppoint :
      DebugState → ℕ → StoppointMode → ℕ → Outcome (ℕ × DebugState)
  unfolding write_others
  set_hardware_stoppoint s address mode size = do
    t ← current_of s
    control ← or_undefined (get_elem? t.debug dr7)
    free_space ← find_free_stoppoint_register control
    t ← write_debug free_space address t
    size_flag ← encode_hardware_stoppoint_size size
    let masked = set_control control free_space (encode_hardware_stoppoint_mode mode) size_flag
    t ← write_debug dr7 masked t
    threads ← write_others s.current_thread free_space address masked (replace_thread t s.threads)
    ok (free_space, record s { threads = threads })

  -- `clear_hardware_stoppoint`.
  unfoldable pub clear_hardware_stoppoint : DebugState → ℕ → Outcome DebugState
  unfolding write_others
  clear_hardware_stoppoint s index = do
    t ← current_of s
    t ← write_debug index 0 t
    control ← or_undefined (get_elem? t.debug dr7)
    let masked = clear_control control index
    t ← write_debug dr7 masked t
    threads ← write_others s.current_thread index 0 masked (replace_thread t s.threads)
    ok (record s { threads = threads })
