-- ===== src/Stoppoints/Transparent.antt =====
-- `read_memory_without_traps` reads the memory that the program would have without traps.
use gsdb.Common.{ℕ, zero, suc, ◌+◌, ◌-◌, ◌≤◌, ◌<◌, ◌≡◌, ◌≢◌, refl, sym, ap, ◌∙◌, arith, bit_and}
use gsdb.Common.{Bool, true, false, List, [], ◌∷◌, ◌++◌, Option, none, some, inl, inr, ◌==◌}
use gsdb.Common.{ok, or_err, ◌>>=◌, >>=-eq-ok, ok->>=, Bool-cases, Error}
use gsdb.Common.{
  length, set, take, replicate, get_elem?, get_elem?-set_self, get_elem?-set_ne, length-set,
  if◌then◌else◌,
}
use gsdb.Common.{ltb, ne→==}
use gsdb.Common.Masks.{bit_and_fff}
use gsdb.Common.Word.{two64, add64, sub64}
use gsdb.Stoppoints.Kernel.{Kernel, IsMemory, bytes_from, gathered}
use gsdb.Stoppoints.Site.{Site, in_range}
use gsdb.Stoppoints.Collection.{get_in_region}
use gsdb.Stoppoints.Memory.{
  has_trap, split_pages, read_memory, patch, site_stoppoint, read_memory_without_traps,
}
use gsdb.Stoppoints.View.{saved_at, view, part, or_byte}
use mathlib.Core.Path.{ap₂}
use mathlib.Core.List.{append-nil}

recount : (byte : ℕ → ℕ) (a m n : ℕ) → m ≡ n → bytes_from byte a m ≡ bytes_from byte a n
recount byte a m n e = ap (bytes_from byte a) e

bytes_from-add :
    (byte : ℕ → ℕ) (a m n : ℕ)
    → bytes_from byte a (m + n) ≡ bytes_from byte a m ++ bytes_from byte (a + m) n
bytes_from-add byte a zero n = ap₂ (bytes_from byte) (same a) (omega arith)
  where
    same : (a : ℕ) → a ≡ a + 0
    same a = omega arith
bytes_from-add byte a (suc m) n =
    again byte a m n
    ∙ ap (λ rest. byte a ∷ rest)
        (bytes_from-add byte (a + 1) m n
          ∙ ap (λ x. bytes_from byte (a + 1) m ++ bytes_from byte x n) (next a m))
  where
    next : (a m : ℕ) → a + 1 + m ≡ a + suc m
    next a m = omega arith

    again :
        (byte : ℕ → ℕ) (a m n : ℕ) → bytes_from byte a (suc m + n) ≡ bytes_from byte a (suc (m + n))
    again byte a m n = recount byte a (suc m + n) (suc (m + n)) (omega arith)

take-bytes_from : (byte : ℕ → ℕ) (a n : ℕ) → take n (bytes_from byte a n) ≡ bytes_from byte a n
take-bytes_from byte a zero = refl
take-bytes_from byte a (suc n) = ap (λ l. byte a ∷ l) (take-bytes_from byte (a + 1) n)

length-bytes_from : (byte : ℕ → ℕ) (a n : ℕ) → length (bytes_from byte a n) ≡ n
length-bytes_from byte a zero = refl
length-bytes_from byte a (suc n) = ap suc (length-bytes_from byte (a + 1) n)

get_elem?-bytes_from :
    (byte : ℕ → ℕ) (a n i : ℕ) → i < n → get_elem? (bytes_from byte a n) i ≡ some (byte (a + i))
get_elem?-bytes_from byte a zero i h = absurd (omega arith)
get_elem?-bytes_from byte a (suc n) zero h = ap (λ x. some (byte x)) (omega arith)
get_elem?-bytes_from byte a (suc n) (suc i) h =
    get_elem?-bytes_from byte (a + 1) n i (omega arith) ∙ ap (λ x. some (byte x)) (omega arith)

-- The page-sized parts are the whole range, in order.
split_pages-gathered :
    (byte : ℕ → ℕ) (rounds a n : ℕ)
    → n < rounds
    → a + n < two64
    → (parts : List (ℕ × ℕ)) × (split_pages rounds a n ≡ ok parts)
      × (gathered byte parts ≡ bytes_from byte a n)
unfolding split_pages
split_pages-gathered byte zero a n h k = absurd (omega arith)
split_pages-gathered byte (suc rounds) a zero h k = ([], refl, refl)
split_pages-gathered byte (suc rounds) a (suc left) h k =
    let page = bit_and a 0xfff in
    let below : page < 4096 = omega (arith, bit_and_fff a (omega arith)) in
    let chunk = if ltb (0x1000 - page) (suc left) then 0x1000 - page else suc left in
    let some_bytes : 0 < chunk = ground arith in
    let fits : chunk ≤ suc left = ground arith in
    let next : add64 a chunk ≡ a + chunk = omega arith in
    let (parts, splits, gathers) =
      split_pages-gathered byte rounds (a + chunk) (suc left - chunk) (omega arith) (omega arith) in
    (
      (a, chunk) ∷ parts,
      ap (λ x. split_pages rounds x (suc left - chunk) >>= λ ps. ok ((a, chunk) ∷ ps)) next
          ∙ ok->>= (split_pages rounds (a + chunk) (suc left - chunk)) _ splits,
      ap (λ rest. bytes_from byte a chunk ++ rest) gathers
          ∙ sym (bytes_from-add byte a chunk (suc left - chunk))
          ∙ recount byte a (chunk + (suc left - chunk)) (suc left) (omega arith),
    )

module _ {W : Type 0} (k : Kernel W) (byte : W → ℕ → ℕ) (memory : IsMemory k byte) where
  -- A read that does not stop early returns the bytes in memory.
  read_memory-whole :
      (w : W) (a n : ℕ)
      → a + n < two64
      → ((parts : List (ℕ × ℕ))
          → split_pages (suc n) a n ≡ ok parts
          → (raw : List ℕ) × (k.readv w parts ≡ some raw) × (length raw ≡ n))
      → read_memory k w a n ≡ ok (bytes_from (byte w) a n)
  unfolding read_memory
  read_memory-whole w a n h readable =
      let (parts, splits, gathers) = split_pages-gathered (byte w) (suc n) a n (omega arith) h in
      let (raw, reads, size) = readable parts splits in
      ok->>= (split_pages (suc n) a n) _ splits
      ∙ ap (λ o. or_err Error.os_failure o >>= λ read. ok (read ++ replicate (n - length read) 0))
          reads
      ∙ ap (λ m. ok (raw ++ replicate m 0)) (none_left (length raw) size)
      ∙ ap ok (
          append-nil raw
          ∙ memory.readv_bytes w parts raw reads
          ∙ ap₂ take size gathers
          ∙ take-bytes_from (byte w) a n)
    where
      none_left : (m : ℕ) → m ≡ n → n - m ≡ 0
      none_left m e = omega arith

abbrev or_else : Option ℕ → Option ℕ → Option ℕ
or_else none b = b
or_else (some a) b = some a

-- Patching one site.
patched_one :
    (s : Site) (a i : ℕ) (memory : List ℕ)
    → a + length memory < two64
    → i < length memory
    → a ≤ s.address
    → s.address < a + length memory
    → get_elem? (if has_trap s then set memory (sub64 s.address a) s.saved_data else memory) i
      ≡ or_else (part s (a + i)) (get_elem? memory i)
patched_one s a i memory h hi lo up =
    let offset : sub64 s.address a ≡ s.address - a = omega arith in
    elim (Bool-cases (has_trap s)) [
      | inr off ↦ rw off refl
      | inl on ↦
          rw (on, offset)
            (elim (Bool-cases (s.address == a + i)) [
              | inl here ↦
                  let index : i ≡ s.address - a = ground arith in
                  rw here (
                    ap (get_elem? (set memory (s.address - a) s.saved_data)) index
                    ∙ get_elem?-set_self memory (s.address - a) s.saved_data (omega arith))
              | inr there ↦
                  let elsewhere : s.address - a ≢ i = ground arith in
                  rw there (get_elem?-set_ne memory (s.address - a) i s.saved_data elsewhere)
            ])
    ]

or_else_assoc :
    (o p q : Option ℕ) → or_else o (or_else p q) ≡ or_else (elim o [ some b ↦ some b | none ↦ p ]) q
or_else_assoc none p q = refl
or_else_assoc (some a) p q = refl

length-patched :
    (trap : Bool) (memory : List ℕ) (i v : ℕ)
    → length (if trap then set memory i v else memory) ≡ length memory
length-patched true memory i v = length-set memory i v
length-patched false memory i v = refl

part_far : (s : Site) (a n i : ℕ) → i < n → in_range s a (a + n) ≡ false → part s (a + i) ≡ none
part_far s a n i h far = elim (Bool-cases (has_trap s)) [
  | inl on ↦ rw (on, ne→== s.address (a + i) (outside s a n i h far)) refl
  | inr off ↦ rw off refl
]
  where
    outside : (s : Site) (a n i : ℕ) → i < n → in_range s a (a + n) ≡ false → s.address ≢ a + i
    outside s a n i h far = ground arith

in_range_bounds : (s : Site) (a e : ℕ) → in_range s a e ≡ true → (a ≤ s.address) × (s.address < e)
in_range_bounds s a e h = ground arith

-- Patching the sites of a region: what the last trap at an address has saved, else what was read.
get_elem?-patch :
    {W : Type 0} (k : Kernel W) (a i n : ℕ) (sites : List Site) (memory : List ℕ)
    → n ≡ length memory
    → a + length memory < two64
    → i < length memory
    → get_elem? (patch a (get_in_region (site_stoppoint k) sites a (add64 a n)) memory) i
      ≡ or_else (saved_at sites (a + i)) (get_elem? memory i)
unfolding patch get_in_region saved_at
get_elem?-patch k a i n [] memory hn h hi = refl
get_elem?-patch k a i n (s ∷ sites) memory hn h hi =
    let end : add64 a n ≡ a + n = omega arith in
    elim (Bool-cases (in_range s a (add64 a n))) [
      | inl near ↦
          rw (get_in_region, near)
            (get_elem?-patch k a i n sites _ (hn ∙ sym (length-patched (has_trap s) memory _ _))
                (omega (arith, length-patched (has_trap s) memory (sub64 s.address a) s.saved_data))
                (omega (arith, length-patched (has_trap s) memory (sub64 s.address a) s.saved_data))
              ∙ ap (or_else (saved_at sites (a + i))) (
                  patched_one s a i memory h hi (in_range_bounds s a _ near).0
                    (omega (arith, end, hn, (in_range_bounds s a _ near).1)))
              ∙ or_else_assoc (saved_at sites (a + i)) (part s (a + i)) (get_elem? memory i))
      | inr far ↦
          rw (get_in_region, far)
            (get_elem?-patch k a i n sites memory hn h hi
              ∙ ap (or_else (saved_at sites (a + i))) (
                  sym (
                    ap (λ p. or_else p (get_elem? memory i))
                      (part_far s a n i (omega arith) (ap (in_range s a) (sym end) ∙ far))))
              ∙ or_else_assoc (saved_at sites (a + i)) (part s (a + i)) (get_elem? memory i))
    ]

module _ {W : Type 0} (k : Kernel W) (byte : W → ℕ → ℕ) (memory : IsMemory k byte) where
  returned :
      (w : W) (sites : List Site) (a n i : ℕ) (read : List ℕ)
      → a + n < two64
      → i < n
      → read_memory k w a n ≡ ok (bytes_from (byte w) a n)
      → read_memory_without_traps k w sites a n ≡ ok read
      → get_elem? read i ≡ some (view (byte w) sites (a + i))
  unfolding read_memory_without_traps view
  returned w sites a n i read h hi memory_read e =
      let (raw, reads, patched) = >>=-eq-ok (read_memory k w a n) _ e in
      let whole = ok_eq (sym reads ∙ memory_read) in
      let size : length raw ≡ n = ap length whole ∙ length-bytes_from (byte w) a n in
      ap (λ r. get_elem? r i) (sym (ok_eq patched))
      ∙ get_elem?-patch k a i n sites raw (sym size) (omega (arith, size)) (omega (arith, size))
      ∙ ap (λ r. or_else (saved_at sites (a + i)) (get_elem? r i)) whole
      ∙ ap (or_else (saved_at sites (a + i))) (get_elem?-bytes_from (byte w) a n i hi)
      ∙ finish (saved_at sites (a + i)) (byte w (a + i))
    where
      ok_eq : {A : Type 0} {x y : A} → ok x ≡ ok y → x ≡ y
      ok_eq q = cc

      finish : (o : Option ℕ) (b : ℕ) → or_else o (some b) ≡ some (or_byte o b)
      finish none b = refl
      finish (some c) b = refl

  -- On a range that does not wrap around, and that the kernel reads to its end,
  -- `read_memory_without_traps` returns, and the bytes that it returns are those of the memory
  -- without traps: at the address of a site with a trap the byte that the last such site has saved,
  -- and elsewhere the byte in memory.
  pub read_memory_without_traps-view :
      (w : W) (sites : List Site) (a n : ℕ)
      → a + n < two64
      → ((parts : List (ℕ × ℕ))
          → split_pages (suc n) a n ≡ ok parts
          → (raw : List ℕ) × (k.readv w parts ≡ some raw) × (length raw ≡ n))
      → (read : List ℕ) × (read_memory_without_traps k w sites a n ≡ ok read)
        × ((i : ℕ) → i < n → get_elem? read i ≡ some (view (byte w) sites (a + i)))
  unfolding read_memory_without_traps read_memory
  read_memory_without_traps-view w sites a n h readable =
      let memory_read = read_memory-whole k byte memory w a n h readable in
      let done = ok->>= (read_memory k w a n) _ memory_read in
      (_, done, λ i hi. returned w sites a n i _ h hi memory_read done)
