-- ===== src/Stoppoints/Memory.antt =====
-- `read_memory`, `write_memory` and `read_memory_without_traps` of src/process.cpp.
use gsdb.Common.{ℕ, zero, suc, ◌-◌, bit_and, Bool, false, not}
use gsdb.Common.{List, [], ◌∷◌, ◌++◌, length, set, drop, replicate, ltb, leb, if◌then◌else◌}
use gsdb.Common.{Outcome, ok, exhausted, Error, or_err, or_undefined, ◌>>=◌}
use gsdb.Common.Word.{add64, sub64}
use gsdb.Dwarf.Cursor.{little_endian}
use gsdb.Stoppoints.Kernel.{Kernel}
use gsdb.Stoppoints.Site.{Site, at_address, in_range, disable}
use gsdb.Stoppoints.Collection.{IsStoppoint, get_in_region}

-- The page-sized parts of a read: one round for a part, and a part has a byte at least.
unfoldable pub split_pages : ℕ → ℕ → ℕ → Outcome (List (ℕ × ℕ))
split_pages zero address amount = exhausted
split_pages (suc rounds) address zero = ok []
split_pages (suc rounds) address (suc left) =
    let up_to_next_page = 0x1000 - bit_and address 0xfff in
    let chunk = if ltb up_to_next_page (suc left) then up_to_next_page else suc left in
    split_pages rounds (add64 address chunk) (suc left - chunk) >>= λ parts.
    ok ((address, chunk) ∷ parts)

module _ {W : Type 0} (k : Kernel W) where
  -- `read_memory`: `process_vm_readv` fills a vector of zeros, as far as it reads.
  unfoldable pub read_memory : W → ℕ → ℕ → Outcome (List ℕ)
  unfolding split_pages
  read_memory w address amount = do
    parts ← split_pages (suc amount) address amount
    read ← or_err Error.os_failure (k.readv w parts)
    ok (read ++ replicate (amount - length read) 0)

  -- The word that a round of `write_memory` writes: eight bytes of the data, or what is left of it
  -- in front of the bytes that are in memory.
  abbrev next_word : W → ℕ → List ℕ → Outcome ℕ
  next_word w address bytes =
      if leb 8 (length bytes)
      then or_undefined (little_endian 8 bytes)
      else (read_memory w address 8 >>= λ memory.
          or_undefined (little_endian 8 (bytes ++ drop (length bytes) memory)))

  -- `write_memory`: a round for each word.
  unfoldable pub write_memory : ℕ → W → ℕ → List ℕ → Outcome W
  unfolding read_memory
  write_memory zero w address bytes = exhausted
  write_memory (suc rounds) w address [] = ok w
  write_memory (suc rounds) w address (b ∷ bytes) = do
    word ← next_word w address (b ∷ bytes)
    w ← or_err Error.os_failure (k.poke w address word)
    write_memory rounds w (add64 address 8) (drop 8 (b ∷ bytes))

  -- Breakpoint sites as stoppoints.
  abbrev pub site_stoppoint : IsStoppoint Site W
  site_stoppoint = record {
    id = λ s. s.id;
    at_address = at_address;
    is_enabled = λ s. s.is_enabled;
    in_range = in_range;
    disable = disable k;
  }

-- A site whose trap is in memory.
abbrev pub has_trap : Site → Bool
has_trap s = if s.is_enabled then not s.is_hardware else false

-- The loop of `read_memory_without_traps` over the sites of the region.
unfoldable pub patch : ℕ → List Site → List ℕ → List ℕ
patch address [] memory = memory
patch address (s ∷ sites) memory =
    patch address sites
      (if has_trap s then set memory (sub64 s.address address) s.saved_data else memory)

module _ {W : Type 0} (k : Kernel W) where
  -- `read_memory_without_traps`.
  unfoldable pub read_memory_without_traps : W → List Site → ℕ → ℕ → Outcome (List ℕ)
  unfolding read_memory patch
  read_memory_without_traps w sites address amount = do
    memory ← read_memory k w address amount
    ok (
        patch address (get_in_region (site_stoppoint k) sites address (add64 address amount))
          memory)
