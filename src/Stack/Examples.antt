-- ===== src/Stack/Examples.antt =====
-- The frames of src/stack.cpp where a function is inlined into another, and its caller is unknown.
use gsdb.Common.{ℕ, ◌≡◌, refl, true, false, List, [], ◌∷◌, none}
use gsdb.Common.{ok, err, Error, switch_on}
use gsdb.Dwarf.LineTable.{FileAddr}
use gsdb.Stack.{Unwinder, StackFrame, create_frames, unwind, reset_inline_height}
use gsdb.Stack.Frames.{Describes, create_frames-Describes, reset_inline_height-entered}

abbrev at : ℕ → FileAddr
at a = record { elf = 1; addr = a }

-- Function 1 begins at 100, and function 2 is inlined into it at 104.
abbrev unwinder : Unwinder ℕ ℕ
unwinder = record {
  inline_stack_at_address = λ a. ok (1 ∷ 2 ∷ []);
  low_pc = λ d. ok (at (switch_on d 100 ((2, 104) ∷ [])));
  location = λ d. ok (none, 7);
  line_entry_at_address = λ a. ok none;
  unwind = λ a r. err Error.no_unwind_information;
  rip = λ r. ok r;
  to_virt_addr = λ a. a.addr;
  to_file_addr = at;
}

abbrev both : List (StackFrame ℕ ℕ)
both =
    record {
      regs = 5;
      backtrace_report_address = 104;
      func_die = 2;
      inlined = true;
      location = (none, 1);
    }
    ∷ record {
      regs = 5;
      backtrace_report_address = 104;
      func_die = 1;
      inlined = false;
      location = (none, 7);
    }
    ∷ []

made : create_frames unwinder 5 (at 104) (2 ∷ 1 ∷ []) ≡ ok both
unfolding create_frames
made = refl

-- Execution is where function 2 begins: its frame is there, but not visible yet.
unwound :
    unwind unwinder 3 5 104 (at 104) (at 104)
    ≡ ok (record { inline_height = 1; frames = both; current_frame = 1 })
unfolding unwind
unwound = refl

create_frames-Describes_example : Describes unwinder 5 (2 ∷ 1 ∷ []) both
create_frames-Describes_example = create_frames-Describes unwinder 5 (at 104) (2 ∷ 1 ∷ []) both made

-- Function 1 alone, at its beginning: it is counted, although nothing is inlined into it.
abbrev single : Unwinder ℕ ℕ
single = record unwinder { inline_stack_at_address = λ a. ok (1 ∷ []) }

reset_inline_height-entered_example : reset_inline_height single (at 100) (at 100) ≡ ok 1
reset_inline_height-entered_example =
    reset_inline_height-entered single (at 100) (at 100) (1 ∷ []) (1 ∷ []) [] refl refl refl
      (refl, tt) tt
