-- ===== src/Process/Watchpoint.antt =====
-- `watchpoint` of src/watchpoint.cpp and include/libgsdb/watchpoint.hpp, and `create_watchpoint` of
-- src/process.cpp.
pub mod Created
use gsdb.Common.{ℕ, ◌+◌, ◌-◌, Bool, true, false, not, ◌||◌, ◌&&◌, ◌==◌, leb, ltb, bit_and}
use gsdb.Common.{List, [], ◌∷◌, ◌++◌, length, if◌then◌else◌}
use gsdb.Common.{Outcome, ok, Error, guard, or_undefined, ◌>>=◌, ◌>>◌}
use gsdb.Common.Word.{sub64}
use gsdb.Dwarf.Cursor.{little_endian}
use gsdb.Process.DebugRegisters.{
  StoppointMode, DebugState, Poke, set_hardware_stoppoint, clear_hardware_stoppoint,
}

pub record Watchpoint : Type 0 where
  pub id : ℕ
  pub address : ℕ
  pub is_enabled : Bool
  pub mode : StoppointMode
  pub size : ℕ
  pub hardware_register_index : ℕ
  pub data_now : ℕ
  pub previous_data : ℕ

abbrev pub is_execute : StoppointMode → Bool
is_execute StoppointMode.execute = true
is_execute mode = false

abbrev pub at_address : Watchpoint → ℕ → Bool
at_address w a = w.address == a

abbrev pub in_range : Watchpoint → ℕ → ℕ → Bool
in_range w low high = leb low w.address && ltb w.address high

-- `process::read_memory`.
abbrev pub ReadMemory : Type 0
ReadMemory = ℕ → ℕ → Outcome (List ℕ)

module _ (read_memory : ReadMemory) where
  -- `update_data`: the watched bytes as a number; what was there is kept.
  unfoldable pub update_data : Watchpoint → Outcome Watchpoint
  update_data w = do
    read ← read_memory w.address w.size
    new_data ← or_undefined (little_endian (if ltb w.size 8 then w.size else 8) read)
    ok (record w { data_now = new_data; previous_data = w.data_now })

  -- The constructor, and the counter of the ids.
  unfoldable pub new_watchpoint : ℕ → ℕ → StoppointMode → ℕ → Outcome (Watchpoint × ℕ)
  unfolding update_data
  new_watchpoint counter address mode size = do
    guard (size == 1 || size == 2 || size == 4 || size == 8) Error.bad_watchpoint_size
    guard (not (is_execute mode) || size == 1) Error.bad_execute_size
    guard (bit_and address (sub64 size 1) == 0) Error.misaligned_watchpoint
    w ← update_data (record {
      id = counter + 1;
      address = address;
      is_enabled = false;
      mode = mode;
      size = size;
      hardware_register_index = 4294967295;
      data_now = 0;
      previous_data = 0;
    })
    ok (w, counter + 1)

  abbrev taken : List Watchpoint → ℕ → Bool
  taken [] a = false
  taken (w ∷ points) a = at_address w a || taken points a

  -- `create_watchpoint`: one for an address.
  unfoldable pub create_watchpoint :
      List Watchpoint → ℕ → ℕ → StoppointMode → ℕ → Outcome (List Watchpoint × ℕ)
  unfolding new_watchpoint
  create_watchpoint points counter address mode size = do
    guard (not (taken points address)) Error.address_taken
    (w, counter) ← new_watchpoint counter address mode size
    ok (points ++ (w ∷ []), counter)

module _ (poke : Poke) where
  -- `enable`, through `set_watchpoint`.
  unfoldable pub enable : Watchpoint → DebugState → Outcome (Watchpoint × DebugState)
  enable w s =
      if w.is_enabled
      then ok (w, s)
      else (set_hardware_stoppoint poke s w.address w.mode w.size >>= λ r.
          ok (record w { hardware_register_index = r.0; is_enabled = true }, r.1))

  -- `disable`.
  unfoldable pub disable : Watchpoint → DebugState → Outcome (Watchpoint × DebugState)
  disable w s =
      if not w.is_enabled
      then ok (w, s)
      else (clear_hardware_stoppoint poke s w.hardware_register_index >>= λ s'.
          ok (record w { is_enabled = false }, s'))
