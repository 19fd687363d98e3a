-- ===== src/Process/ReadString.antt =====
-- `process::read_string` of src/process.cpp.
use gsdb.Common.{
  ℕ, zero, suc, ◌≡◌, refl, Bool, true, false, Bool-cases, inl, inr, List, [], ◌∷◌, ◌++◌,
}
use gsdb.Common.{◌==◌, if◌then◌else◌, Outcome, ok, exhausted, ◌>>=◌}
use gsdb.Process.Watchpoint.{ReadMemory}

-- The bytes before the first 0, and whether there is one.
abbrev pub before_zero : List ℕ → List ℕ × Bool
before_zero [] = ([], false)
before_zero (c ∷ bytes) =
    if c == 0 then ([], true) else (c ∷ (before_zero bytes).0, (before_zero bytes).1)

-- `read_string`: the text that is there so far, and the next 1024 bytes, read at the address.
unfoldable pub read_string : ReadMemory → ℕ → ℕ → List ℕ → Outcome (List ℕ)
read_string read_memory zero address ret = exhausted
read_string read_memory (suc rounds) address ret = read_memory address 1024 >>= λ bytes.
    let ret' = ret ++ (before_zero bytes).0 in
    let again = read_string read_memory rounds address ret' in
    if (before_zero bytes).1 then ok ret' else again

-- Without a 0 every round is like the first one.
repeats :
    (read_memory : ReadMemory) (address : ℕ) (bytes : List ℕ) (rounds : ℕ) (ret : List ℕ)
    → read_memory address 1024 ≡ ok bytes
    → (before_zero bytes).1 ≡ false
    → read_string read_memory rounds address ret ≡ exhausted
unfolding read_string
repeats read_memory address bytes zero ret read open_text = refl
repeats read_memory address bytes (suc rounds) ret read open_text = simp (
  read,
  open_text,
  repeats read_memory address bytes rounds (ret ++ (before_zero bytes).0) read open_text,
)

-- Where the memory at the address can be read, `read_string` returns the bytes before the first 0
-- where there is one among the first 1024, in one round. Where there is none it does not
-- return in any number of rounds: it reads the same bytes again in every one.
pub read_string-before_zero :
    (read_memory : ReadMemory) (address : ℕ) (bytes : List ℕ) (rounds : ℕ)
    → read_memory address 1024 ≡ ok bytes
    → read_string read_memory (suc rounds) address []
      ≡ (if (before_zero bytes).1 then ok (before_zero bytes).0 else exhausted)
unfolding read_string
read_string-before_zero read_memory address bytes rounds read =
    elim (Bool-cases (before_zero bytes).1) [
      | inl ended ↦ simp (read, ended)
      | inr open_text ↦ simp (
        read,
        open_text,
        repeats read_memory address bytes rounds (before_zero bytes).0 read open_text,
      )
    ]
