-- ===== src/Process/Watchpoint/Created.antt =====
-- Which watchpoints can be made.
use gsdb.Common.{ℕ, ◌+◌, ◌%◌, ◌<◌, ◌≡◌, refl, arith}
use gsdb.Common.{
  Bool, true, false, ◌||◌, ◌==◌, bit_and, List, some, if◌then◌else◌, Bool-cases, ==_iff, ltb, ◌⊎◌,
  inl, inr,
}
use gsdb.Common.{Outcome, ok, err, Error, ◌>>=◌}
use gsdb.Common.Word.{two64, sub64}
use gsdb.Common.Masks.{bit_and_low}
use gsdb.Dwarf.Cursor.{little_endian}
use gsdb.Process.DebugRegisters.{StoppointMode}
use gsdb.Process.Watchpoint.{ReadMemory, is_execute, new_watchpoint, update_data}

-- What the constructor answers, by the size, the mode and the alignment of the address.
abbrev pub verdict : StoppointMode → ℕ → ℕ → Outcome (Unit {0})
verdict mode size address =
    if size == 1 || size == 2 || size == 4 || size == 8
    then (if is_execute mode
        then (if size == 1 then ok tt else err Error.bad_execute_size)
        else (if address % size == 0 then ok tt else err Error.misaligned_watchpoint))
    else err Error.bad_watchpoint_size

-- The sizes of a watchpoint: the mask reads the alignment, and the bytes read are the size.
abbrev is_size : ℕ → Bool
is_size size = size == 1 || size == 2 || size == 4 || size == 8

size_cases : (size : ℕ) → is_size size ≡ true → (size ≡ 1) ⊎ (size ≡ 2) ⊎ (size ≡ 4) ⊎ (size ≡ 8)
size_cases size h = ground arith

aligned :
    (address size : ℕ)
    → address < two64
    → is_size size ≡ true
    → bit_and address (sub64 size 1) ≡ address % size
aligned address size fits h = elim (size_cases size h) [
  | inl e ↦ rw e (bit_and_low 0 address (omega arith) fits)
  | inr (inl e) ↦ rw e (bit_and_low 1 address (omega arith) fits)
  | inr (inr (inl e)) ↦ rw e (bit_and_low 2 address (omega arith) fits)
  | inr (inr (inr e)) ↦ rw e (bit_and_low 3 address (omega arith) fits)
]

all_read : (size : ℕ) → is_size size ≡ true → (if ltb size 8 then size else 8) ≡ size
all_read size h = elim (size_cases size h) [
  | inl e ↦ rw e refl
  | inr (inl e) ↦ rw e refl
  | inr (inr (inl e)) ↦ rw e refl
  | inr (inr (inr e)) ↦ rw e refl
]

byte_aligned : (address size : ℕ) → (size == 1) ≡ true → (address % size == 0) ≡ true
byte_aligned address size one = rw ((==_iff size 1).0 one) ((==_iff _ 0).1 (omega arith))

-- Where the memory at the address can be read, making a watchpoint is refused exactly where the
-- size is not 1, 2, 4 or 8, an execution watchpoint is longer than a byte, or the address is no
-- multiple of the size, in this order; else it is a disabled watchpoint as asked for, with the next
-- id, that holds the bytes read as its data.
pub new_watchpoint-verdict :
    (read_memory : ReadMemory) (counter address size : ℕ) (mode : StoppointMode) (bytes : List ℕ)
    (v : ℕ)
    → address < two64
    → read_memory address size ≡ ok bytes
    → little_endian size bytes ≡ some v
    → new_watchpoint read_memory counter address mode size ≡ (
        verdict mode size address >>= λ _. ok (
          record {
            id = counter + 1;
            address = address;
            is_enabled = false;
            mode = mode;
            size = size;
            hardware_register_index = 4294967295;
            data_now = v;
            previous_data = 0;
          },
          counter + 1,
        ))
unfolding new_watchpoint update_data
new_watchpoint-verdict read_memory counter address size mode bytes v fits read value =
    elim (Bool-cases (is_size size)) [
      | inr bad ↦ rw bad refl
      | inl good ↦
          rw (good, aligned address size fits good)
            (elim (Bool-cases (is_execute mode)) [
              | inl execute ↦ rw execute (elim (Bool-cases (size == 1)) [
                | inl one ↦
                    rw (one, byte_aligned address size one, read, all_read size good, value) refl
                | inr long ↦ rw long refl
              ])
              | inr on_data ↦ rw on_data (elim (Bool-cases (address % size == 0)) [
                | inl multiple ↦ rw (multiple, read, all_read size good, value) refl
                | inr off ↦ rw off refl
              ])
            ])
    ]
