-- ===== src/Stoppoints/Kernel.antt =====
-- What the debugger asks of the operating system for the memory of a stopped process, and of the
-- process class for its debug registers: an interface, with the documented behaviour of the calls.
use gsdb.Common.{ℕ, ◌+◌, ◌/◌, ◌%◌, ◌^◌, ◌≤◌, ◌<◌, ◌≡◌, ◌⊎◌, List, [], ◌∷◌, ◌++◌, Option, some}
use gsdb.Common.{length, take}
use gsdb.Common.{zero, suc, Outcome, ok}
use gsdb.Common.Word.{two64}

-- `W` is the state of the process: `PTRACE_PEEKDATA`, `PTRACE_POKEDATA`, `process_vm_readv` on a
-- list of addresses and sizes, `set_hardware_breakpoint` and `clear_hardware_stoppoint`.
pub record Kernel (W : Type 0) : Type 0 where
  pub peek : W → ℕ → Option ℕ
  pub poke : W → ℕ → ℕ → Option W
  pub readv : W → List (ℕ × ℕ) → Option (List ℕ)
  pub set_hardware_breakpoint : W → ℕ → ℕ → Outcome (ℕ × W)
  pub clear_hardware_stoppoint : W → ℕ → Outcome W

-- `n` bytes of a memory from an address on, and the parts of a scattered read in their order.
abbrev pub bytes_from : (ℕ → ℕ) → ℕ → ℕ → List ℕ
bytes_from byte a zero = []
bytes_from byte a (suc n) = byte a ∷ bytes_from byte (a + 1) n

abbrev pub gathered : (ℕ → ℕ) → List (ℕ × ℕ) → List ℕ
gathered byte [] = []
gathered byte ((a, n) ∷ parts) = bytes_from byte a n ++ gathered byte parts

-- The calls act on the bytes of a memory: a word is eight bytes, least significant first; a write
-- changes those eight; a scattered read returns the parts one after the other, but it may stop early,
-- behind any byte; debug registers are not memory.
pub record IsMemory {W : Type 0} (k : Kernel W) (byte : W → ℕ → ℕ) : Type 0 where
  pub peek_range : (w : W) (a v : ℕ) → k.peek w a ≡ some v → v < two64
  pub peek_bytes :
      (w : W) (a v i : ℕ) → k.peek w a ≡ some v → i < 8 → byte w (a + i) ≡ v / 256 ^ i % 256
  pub poke_bytes :
      (w : W) (a v : ℕ) (w' : W) (i : ℕ)
      → k.poke w a v ≡ some w'
      → i < 8
      → byte w' (a + i) ≡ v / 256 ^ i % 256
  pub poke_others :
      (w : W) (a v : ℕ) (w' : W) (x : ℕ)
      → k.poke w a v ≡ some w'
      → (x < a) ⊎ (a + 8 ≤ x)
      → byte w' x ≡ byte w x
  pub readv_bytes :
      (w : W) (parts : List (ℕ × ℕ)) (read : List ℕ)
      → k.readv w parts ≡ some read
      → read ≡ take (length read) (gathered (byte w) parts)
  pub set_keeps :
      (w : W) (id a : ℕ) (r : ℕ × W) (x : ℕ)
      → k.set_hardware_breakpoint w id a ≡ ok r
      → byte r.1 x ≡ byte w x
  pub clear_keeps :
      (w : W) (index : ℕ) (w' : W) (x : ℕ)
      → k.clear_hardware_stoppoint w index ≡ ok w'
      → byte w' x ≡ byte w x
