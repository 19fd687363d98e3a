-- ===== src/Lib.antt =====
-- gsdb is a debugger for x86-64 Linux. This library models the parts of it that decode ELF files and
-- debugging information, that plant breakpoints and watchpoints, that control the threads of a
-- process and step through it, and that read its values, and proves what they compute.
--
-- The program's parts. libgsdb maps an ELF file, finds its sections and symbols, and reads its DWARF
-- sections through a cursor over bytes. On that cursor stand the debugging information entries (the
-- tree of units, functions and variables, with the attributes of each), the line table (an abstract
-- machine that emits rows), the expression evaluator (a stack machine) and the call frame
-- information (a search table, entries, and a machine that computes the rules of one row), which
-- `unwind` uses for a program counter. Breakpoint sites replace a byte of the traced process by a
-- trap through ptrace; the process reads memory with the traps taken out, through the collection of
-- its sites. Watchpoints and hardware breakpoints use the debug registers of all threads. The process
-- waits for the signals of its threads, decides which to report, and stops all threads before it
-- reports one. A user's breakpoint is resolved to sites; the stack turns the inline functions at an
-- address into frames; the target steps over lines and out of functions on top of them all.
--
-- The files.
--   Common          names and lemmas that all parts share: tests, lists, errors, words, bits
--   Dwarf/Cursor    class `cursor` of src/dwarf.cpp: fixed-width integers, strings, LEB128, skip_form
--   Dwarf/FilePath  the operations on std::filesystem::path that the line table calls
--   Dwarf/LineTable line_table and its iterator (src/dwarf.cpp, include/libgsdb/dwarf.hpp), over
--                   the data in Table
--   Dwarf/Expression dwarf_expression::eval, over the opcodes in Opcodes
--   Dwarf/Cfi       call_frame_information: pointers, CIE, FDE, .eh_frame_hdr, CFA instructions
--                   (Rules), and the registers of the caller (Unwind)
--   Dwarf/Die       compile_unit, die and attr: parse_die in Dwarf/Die itself, and below it
--     Tables        parse_abbrev_table and its cache
--     Values        attr::as_int, as_address, as_reference, as_string and the other readers
--     Ranges        range_list, low_pc, high_pc, contains_address
--     Children      die::children_range and its iterator
--     Locations     location_list::eval, as_evaluated_location, read_frame_base_result
--     Index         die::name, index_die and index
--     Scopes        functions, inline stacks, scopes and variables around an address
--     Lines         parse_line_table: the header of a unit's line table
--     At, Tag       the constants of include/libgsdb/detail/dwarf.h that the code asks for
--   Elf             src/elf.cpp: section headers, sections; Elf/Symbols its symbol maps, and
--                   Elf/Addresses the address conversions of src/types.cpp
--   Types           memcpy_bits, bit fields, merge_parameter_classes
--   Stoppoints      breakpoint_site, stoppoint_collection, and the memory functions of process
--   Process         src/process.cpp: the debug registers (DebugRegisters), watchpoints
--                   (Watchpoint, with src/watchpoint.cpp) and read_string (ReadString)
--     Reply         what a method returns or throws, with the state that it leaves
--     Threads       resume, send_continue, the step over a breakpoint, on the data in State; below it
--                   Signals (stop reasons, augment_stop_reason, handle_signal) and Stops
--                   (stop_running_threads, cleanup_exited_threads, wait_on_signal,
--                   step_instruction); the other modules there are theorems
--   Registers       src/registers.cpp: reads, widened writes, undefined registers
--   Breakpoints     src/breakpoint.cpp: the sites of a breakpoint; Breakpoints/Places finds them
--   Stack           src/stack.cpp: inline heights and the frames of a thread
--   Target          src/target.cpp: run_until_address, step_out; Target/Lines step_in, step_over
-- Each has its theorems in the modules below it, and concrete runs in a module Examples.
--
-- The model. The mapped file is one list of bytes, `image`; a pointer into it is a position, so a
-- file offset is a position too. A call returns an `Outcome`: a value, one of the exceptions, what
-- C++ leaves undefined (a read behind the mapping, `back()` of an empty vector, a shift by 64 or
-- more), or `exhausted`, for a loop that outlasts its rounds. 64-bit arithmetic wraps, written out
-- with `%`; a signed number is its bit pattern. The caches that an object fills when it is asked
-- (abbreviation tables, the index) are arguments or are computed anew. The methods of Process/Threads
-- and Target return a `Reply`, which keeps the state behind an exception too, since wait_on_signal
-- catches one and goes on.
--
-- Rounds. LEB128 decoding and string scans are structural on the bytes. skip_form and the line
-- table's loop get as many rounds as there are bytes left, and one more: each round takes a byte, so
-- they are enough. Abbreviation tables, range lists, location lists, the lists of a line table's
-- header and the walk through children get a round more than the image has bytes, for the same
-- reason; a sibling reference that leads back can make the walk outlast them. The search of
-- .eh_frame_hdr gets a round more than the table has rows. A page-wise read gets a round more than
-- it has bytes. The expression evaluator and the CFA machine may run for ever on a branch that goes
-- back, `name`, the index and the lookups of scopes and inline functions on references that lead
-- back, and `read_string` on a long text, so their rounds are an argument. So are those of
-- `wait_on_signal`, which waits for the system: a round for each change of state that the system has
-- left to report, and one more, are enough (`IsFinite` says what the system does to that number).
-- The loops of the stepping and of `unwind` have no bound in the code.
--
-- Parameters. The kernel's calls on a traced process are the record `Kernel`, with their documented
-- effect on bytes as the record `IsMemory`, the function `Poke` for the debug registers, and
-- `ReadMemory` where only a read is asked for. What an expression asks of the process and of the
-- function around it is the record `Context` of Dwarf/Expression. `__cxa_demangle` is an argument of
-- the symbol map. An unordered map is a list, in the order of its iteration where that can be seen.
-- The record `System` of Process/Threads holds ptrace, waitpid, tgkill, the macros on a wait status
-- and the callbacks into breakpoints and target; those into breakpoints may make sites. The records
-- `Unwinder` of Stack and `View` of Target are what these ask of the debugging information, the
-- stack, the disassembler and the target's own map of threads. The conversions of floating-point
-- numbers are an argument of `write`; the table of register descriptions is one of the unwinding.
--
-- Not modelled: the launch of a process, the attachment to one and its end, calls of functions in the
-- inferior, shared libraries, the layout, classification and printing of types, the evaluator of
-- expressions, the parsing of numbers and vectors from text, the command line, the disassembler.
pub mod Common
pub mod Dwarf
pub mod Stoppoints
pub mod Process
pub mod Registers
pub mod Breakpoints
pub mod Stack
pub mod Target
pub mod Elf
pub mod Types
