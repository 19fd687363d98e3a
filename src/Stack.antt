-- ===== src/Stack.antt =====
-- `stack` of src/stack.cpp and include/libgsdb/stack.hpp: the frames of a thread, in which the
-- functions inlined at an address have a frame each.
pub mod Frames
mod Examples
use gsdb.Common.{ℕ, zero, suc, ◌+◌, ◌%◌, Bool, true, false, ◌==◌, ◌||◌, ◌&&◌, if◌then◌else◌}
use gsdb.Common.{List, [], ◌∷◌, ◌++◌, drop, length, get_elem?, Option, none, some}
use gsdb.Common.{Outcome, ok, err, undefined, exhausted, or_undefined, ltb, ◌>>=◌}
use gsdb.Common.Word.{sub64}
use gsdb.Dwarf.LineTable.{FileAddr, File}

-- What the stack asks of the debugging information and of the target, on registers `R` and entries
-- `D`: `inline_stack_at_address`, outermost function first; `low_pc` and `location` of an entry;
-- the address, file and line of `line_entry_at_address`; `unwind` of the call frame information;
-- the program counter in the registers; the address conversions. An address in no object has the
-- object 0.
pub record Unwinder (R D : Type 0) : Type 0 where
  pub inline_stack_at_address : FileAddr → Outcome (List D)
  pub low_pc : D → Outcome FileAddr
  pub location : D → Outcome (Option File × ℕ)
  pub line_entry_at_address : FileAddr → Outcome (Option (FileAddr × (Option File × ℕ)))
  pub unwind : FileAddr → R → Outcome R
  pub rip : R → Outcome ℕ
  pub to_virt_addr : FileAddr → ℕ
  pub to_file_addr : ℕ → FileAddr

pub record StackFrame (R D : Type 0) : Type 0 where
  pub regs : R
  pub backtrace_report_address : ℕ
  pub func_die : D
  pub inlined : Bool
  pub location : Option File × ℕ

pub record Stack (R D : Type 0) : Type 0 where
  pub inline_height : ℕ
  pub frames : List (StackFrame R D)
  pub current_frame : ℕ

abbrev pub reverse : {A : Type 0} → List A → List A
reverse [] = []
reverse (x ∷ xs) = reverse xs ++ (x ∷ [])

abbrev pub same_addr : FileAddr → FileAddr → Bool
same_addr a b = a.elf == b.elf && a.addr == b.addr

module _ {R D : Type 0} where
  -- `simulate_inlined_step_in`, on a height of 32 bits, `up` and `down`.
  unfoldable pub simulate_inlined_step_in : Stack R D → Stack R D
  simulate_inlined_step_in s =
      let height = (s.inline_height + 4294967295) % 4294967296 in
      record s { inline_height = height; current_frame = height }

  unfoldable pub up : Stack R D → Stack R D
  up s = record s { current_frame = s.current_frame + 1 }

  unfoldable pub down : Stack R D → Stack R D
  down s = record s { current_frame = sub64 s.current_frame 1 }

  -- `frames`, `has_frames`, `current_frame`, `current_frame_index` and `regs`.
  unfoldable pub visible_frames : Stack R D → Outcome (List (StackFrame R D))
  visible_frames s =
      if ltb (length s.frames) s.inline_height
      then undefined
      else ok (drop s.inline_height s.frames)

  unfoldable pub has_frames : Stack R D → Bool
  has_frames s = ltb 0 (length s.frames)

  unfoldable pub frame_now : Stack R D → Outcome (StackFrame R D)
  frame_now s = or_undefined (get_elem? s.frames s.current_frame)

  unfoldable pub current_frame_index : Stack R D → ℕ
  current_frame_index s = sub64 s.current_frame s.inline_height

  module _ (u : Unwinder R D) where
    -- The loop of `reset_inline_height`, from the innermost function on.
    unfoldable pub count_entered : FileAddr → List D → Outcome ℕ
    count_entered pc [] = ok 0
    count_entered pc (d ∷ ds) =
        let rest = count_entered pc ds in
        u.low_pc d >>= λ low. if same_addr low pc then (rest >>= λ n. ok (suc n)) else ok 0

    -- `inline_stack_at_pc`.
    unfoldable pub inline_stack_at_pc : FileAddr → Outcome (List D)
    inline_stack_at_pc pc = if pc.elf == 0 then ok [] else u.inline_stack_at_address pc

    -- `reset_inline_height`: the stack is that of the thread's address, and the functions are
    -- compared with the address of the process's current thread.
    unfoldable pub reset_inline_height : FileAddr → FileAddr → Outcome ℕ
    unfolding inline_stack_at_pc count_entered
    reset_inline_height pc current_pc =
        inline_stack_at_pc pc >>= λ stack. count_entered current_pc (reverse stack)

    -- `create_base_frame`. Without a line entry the location is that of an empty entry: line 1.
    abbrev pub at_entry :
        R → D → Bool → FileAddr → Option (FileAddr × (Option File × ℕ)) → StackFrame R D
    at_entry regs die inlined pc none = record {
      regs = regs;
      backtrace_report_address = u.to_virt_addr pc;
      func_die = die;
      inlined = inlined;
      location = (none, 1);
    }
    at_entry regs die inlined pc (some (address, place)) = record {
      regs = regs;
      backtrace_report_address = u.to_virt_addr address;
      func_die = die;
      inlined = inlined;
      location = place;
    }

    unfoldable pub create_base_frame : R → D → FileAddr → Bool → Outcome (StackFrame R D)
    create_base_frame regs die pc inlined =
        u.line_entry_at_address pc >>= λ entry. ok (at_entry regs die inlined pc entry)

    abbrev pub is_empty : List D → Bool
    is_empty [] = true
    is_empty (d ∷ ds) = false

    -- `create_inline_stack_frames`, from the function that the last frame is of outwards: the call
    -- is where that function begins.
    unfoldable pub create_inline_stack_frames : R → D → List D → Outcome (List (StackFrame R D))
    create_inline_stack_frames regs inner [] = ok []
    create_inline_stack_frames regs inner (d ∷ ds) = u.low_pc inner >>= λ low.
        u.location inner >>= λ place. create_inline_stack_frames regs d ds >>= λ frames. ok (
          record {
            regs = regs;
            backtrace_report_address = u.to_virt_addr low;
            func_die = d;
            inlined = if is_empty ds then false else true;
            location = place;
          }
          ∷ frames)

    -- The frames of one address, for its inline stack with the innermost function first.
    unfoldable pub create_frames : R → FileAddr → List D → Outcome (List (StackFrame R D))
    unfolding create_base_frame create_inline_stack_frames
    create_frames regs pc [] = ok []
    create_frames regs pc (d ∷ ds) =
        create_base_frame regs d pc (if is_empty ds then false else true) >>= λ frame.
        create_inline_stack_frames regs d ds >>= λ frames. ok (frame ∷ frames)

    -- The registers of the caller and its address, or none after an exception, which ends the loop.
    abbrev caught : {A : Type 0} → Outcome A → Outcome (Option A)
    caught (ok a) = ok (some a)
    caught (err e) = ok none
    caught undefined = undefined
    caught exhausted = exhausted

    abbrev caller : FileAddr → R → Outcome (Option (R × ℕ))
    caller pc regs =
        caught (u.unwind pc regs >>= λ regs'. u.rip regs' >>= λ rip. ok (regs', sub64 rip 1))

    -- The loop of `unwind`. Nothing bounds the frames of a thread, hence the rounds. The last frame
    -- made has the registers that it was made with.
    unfoldable pub unwind_from :
        ℕ → R → ℕ → FileAddr → List (StackFrame R D) → Outcome (List (StackFrame R D))
    unfolding create_frames
    unwind_from zero regs virt_pc file_pc frames = exhausted
    unwind_from (suc rounds) regs virt_pc file_pc frames = elim (virt_pc == 0 || file_pc.elf == 0) [
      | true ↦ ok frames
      | false ↦ u.inline_stack_at_address file_pc >>= λ stack. elim (is_empty stack) [
        | true ↦ ok frames
        | false ↦ create_frames regs file_pc (reverse stack) >>= λ made.
            caller file_pc regs >>= λ next. elim next [
              | none ↦ ok (frames ++ made)
              | some (regs', pc) ↦ unwind_from rounds regs' pc (u.to_file_addr pc) (frames ++ made)
            ]
      ]
    ]

    -- `unwind`, on the thread's registers and address, and the address of the current thread.
    unfoldable pub unwind : ℕ → R → ℕ → FileAddr → FileAddr → Outcome (Stack R D)
    unfolding reset_inline_height unwind_from
    unwind rounds regs virt_pc file_pc current_pc =
        reset_inline_height file_pc current_pc >>= λ height.
        unwind_from rounds regs virt_pc file_pc [] >>= λ frames.
        ok (record { inline_height = height; frames = frames; current_frame = height })
