-- ===== src/Process/Examples.antt =====
-- Debug registers and watchpoints, on two threads and in a memory of zeros.
use gsdb.Common.{ℕ, ◌<◌, ◌≡◌, refl, arith}
use gsdb.Common.{true, false, [], ◌∷◌, map, if◌then◌else◌, ◌==◌}
use gsdb.Common.{ok, ==_iff}
use gsdb.Common.Bits.{all_below, full_row}
use gsdb.Common.TestBits.{test_bit}
use gsdb.Process.DebugRegisters.{
  StoppointMode, DebugThread, DebugState, Poke, set_hardware_stoppoint, clear_hardware_stoppoint,
  set_control, clear_control, find_free_stoppoint_register, free_from,
  encode_hardware_stoppoint_mode, encode_hardware_stoppoint_size,
}
use gsdb.Process.DebugRegisters.Control.{in_slot, set_control_bits}
use gsdb.Process.DebugRegisters.Armed.{
  armed, set_hardware_stoppoint-armed, clear_hardware_stoppoint-disarmed,
}
use gsdb.Process.DebugRegisters.Free.{FirstFree, find_free_stoppoint_register-FirstFree}
use gsdb.Process.Watchpoint.{ReadMemory, new_watchpoint}
use gsdb.Process.ReadString.{read_string, read_string-before_zero}
use gsdb.Common.{replicate, exhausted}
use gsdb.Process.Watchpoint.Created.{new_watchpoint-verdict}

-- Register 0 is in use: it is enabled, and traps on writes of eight bytes.
abbrev control : ℕ
control = 0x00090001

set_control_bits_example : test_bit (set_control control 1 1 3) 22 ≡ 1
set_control_bits_example =
    set_control_bits control 1 1 3 22 (omega arith) (omega arith) (omega arith) (omega arith)

find_free_stoppoint_register-FirstFree_example :
    FirstFree control 4 0 (find_free_stoppoint_register control)
find_free_stoppoint_register-FirstFree_example =
    find_free_stoppoint_register-FirstFree control (omega arith)

slot_table : all_below 32 (λ n. if in_slot 1 n then test_bit control n == 0 else true) ≡ true
unfolding all_below
slot_table = refl

slot_free : (n : ℕ) → n < 32 → in_slot 1 n ≡ true → test_bit control n ≡ 0
slot_free n h inside =
    let row : (if in_slot 1 n then test_bit control n == 0 else true) ≡ true =
      full_row _ 32 n h slot_table in
    (==_iff _ 0).0 (rw inside at row)

abbrev leader : DebugThread
leader = record { tid = 10; debug = 0x1000 ∷ 0 ∷ 0 ∷ 0 ∷ 0 ∷ 0 ∷ 0 ∷ control ∷ [] }

abbrev worker : DebugThread
worker = record { tid = 11; debug = 0x1000 ∷ 0 ∷ 0 ∷ 0 ∷ 0 ∷ 0 ∷ 0 ∷ control ∷ [] }

abbrev threads : DebugState
threads = record { current_thread = 10; threads = leader ∷ worker ∷ [] }

abbrev accepting : Poke
accepting tid index value = true

set_hardware_stoppoint-armed_example :
    set_hardware_stoppoint accepting threads 0x2000 StoppointMode.write 4
    ≡ ok (
      1,
      record {
        current_thread = 10;
        threads = map (armed 1 0x2000 (set_control control 1 1 3)) (leader ∷ worker ∷ []);
      },
    )
unfolding find_free_stoppoint_register free_from encode_hardware_stoppoint_mode
    encode_hardware_stoppoint_size
set_hardware_stoppoint-armed_example =
    set_hardware_stoppoint-armed accepting (λ tid index value. refl) threads leader control refl
      ((λ e. refl), ((λ e. absurd (omega (arith, e))), tt)) refl refl 0x2000 StoppointMode.write 4 1
      3 refl refl

clear_hardware_stoppoint-disarmed_example :
    clear_hardware_stoppoint accepting threads 0
    ≡ ok (record {
      current_thread = 10;
      threads = map (armed 0 0 (clear_control control 0)) (leader ∷ worker ∷ []);
    })
clear_hardware_stoppoint-disarmed_example =
    clear_hardware_stoppoint-disarmed accepting (λ tid index value. refl) threads leader control
      refl ((λ e. refl), ((λ e. absurd (omega (arith, e))), tt)) refl refl 0 (omega arith)

-- A memory of zeros, and an aligned watchpoint in it.
abbrev zeros : ReadMemory
zeros address size = ok (0 ∷ 0 ∷ 0 ∷ 0 ∷ [])

new_watchpoint-verdict_example :
    new_watchpoint zeros 6 0x1004 StoppointMode.write 4
    ≡ ok (
      record {
        id = 7;
        address = 0x1004;
        is_enabled = false;
        mode = StoppointMode.write;
        size = 4;
        hardware_register_index = 4294967295;
        data_now = 0;
        previous_data = 0;
      },
      7,
    )
new_watchpoint-verdict_example =
    new_watchpoint-verdict zeros 6 0x1004 4 StoppointMode.write (0 ∷ 0 ∷ 0 ∷ 0 ∷ []) 0 (omega arith)
      refl refl

-- A text of two bytes, and a memory without a 0.
abbrev hello : ReadMemory
hello address size = ok (0x68 ∷ 0x69 ∷ 0 ∷ [])

abbrev ones : ReadMemory
ones address size = ok (replicate size 1)

read_string-before_zero_example : read_string ones 8 0x1000 [] ≡ exhausted
read_string-before_zero_example = read_string-before_zero ones 0x1000 (replicate 1024 1) 7 refl

text_read : read_string hello 1 0x1000 [] ≡ ok (0x68 ∷ 0x69 ∷ [])
text_read = read_string-before_zero hello 0x1000 (0x68 ∷ 0x69 ∷ 0 ∷ []) 0 refl
