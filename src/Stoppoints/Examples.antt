-- ===== src/Stoppoints/Examples.antt =====
-- A memory for the kernel's calls, and breakpoint sites in it.
use gsdb.Common.{
  ℕ, zero, suc, ◌+◌, ◌-◌, ◌*◌, ◌/◌, ◌%◌, ◌^◌, ◌≤◌, ◌<◌, ◌≡◌, refl, arith, ◌⊎◌, ap, sym, ◌∙◌,
}
use gsdb.Common.{
  Bool, true, false, List, [], ◌∷◌, some, ltb, leb, ◌&&◌, if◌then◌else◌, get_elem?, length, take,
}
use gsdb.Common.{ok}
use gsdb.Stoppoints.Kernel.{Kernel, IsMemory, gathered}
use gsdb.Stoppoints.Site.{Site, enable, disable}
use gsdb.Stoppoints.Memory.{split_pages, read_memory_without_traps}
use gsdb.Stoppoints.View.{saved_at, view}
use gsdb.Stoppoints.Toggle.{view-enable, view-disable}
use gsdb.Stoppoints.Transparent.{read_memory_without_traps-view}

-- A memory is a function; its bytes are its values below 256.
abbrev Memory : Type 0
Memory = ℕ → ℕ

abbrev byte_of : Memory → ℕ → ℕ
byte_of m x = m x % 256

word_at : Memory → ℕ → ℕ
word_at m a =
    byte_of m a
    + 256 * byte_of m (a + 1)
    + 65536 * byte_of m (a + 2)
    + 16777216 * byte_of m (a + 3)
    + 4294967296 * byte_of m (a + 4)
    + 1099511627776 * byte_of m (a + 5)
    + 281474976710656 * byte_of m (a + 6)
    + 72057594037927936 * byte_of m (a + 7)

write_word : Memory → ℕ → ℕ → Memory
write_word m a v x = if leb a x && ltb x (a + 8) then v / 256 ^ (x - a) else m x

abbrev kernel : Kernel Memory
kernel = record {
  peek = λ m a. some (word_at m a);
  poke = λ m a v. some (write_word m a v);
  readv = λ m parts. some (gathered (byte_of m) parts);
  set_hardware_breakpoint = λ m id a. ok (0, m);
  clear_hardware_stoppoint = λ m index. ok m;
}

word_bytes : (m : Memory) (a i : ℕ) → i < 8 → byte_of m (a + i) ≡ word_at m a / 256 ^ i % 256
unfolding word_at
word_bytes m a zero h = ap (byte_of m) (plus_zero a) ∙ omega arith
  where
    plus_zero : (a : ℕ) → a + 0 ≡ a
    plus_zero a = omega arith
word_bytes m a (suc zero) h = omega arith
word_bytes m a (suc (suc zero)) h = omega arith
word_bytes m a (suc (suc (suc zero))) h = omega arith
word_bytes m a (suc (suc (suc (suc zero)))) h = omega arith
word_bytes m a (suc (suc (suc (suc (suc zero))))) h = omega arith
word_bytes m a (suc (suc (suc (suc (suc (suc zero)))))) h = omega arith
word_bytes m a (suc (suc (suc (suc (suc (suc (suc zero))))))) h = omega arith
word_bytes m a (suc (suc (suc (suc (suc (suc (suc (suc i)))))))) h = absurd (omega arith)

some_eq : {A : Type 0} {x y : A} → some x ≡ some y → x ≡ y
some_eq e = cc

ok_eq : {A : Type 0} {x y : A} → ok x ≡ ok y → x ≡ y
ok_eq e = cc

written_inside :
    (m : Memory) (a v i : ℕ) → i < 8 → byte_of (write_word m a v) (a + i) ≡ v / 256 ^ i % 256
unfolding write_word
written_inside m a v i h =
    let inside : (leb a (a + i) && ltb (a + i) (a + 8)) ≡ true = ground arith in
    let offset : a + i - a ≡ i = omega arith in rw (inside, offset) refl

written_outside :
    (m : Memory) (a v x : ℕ) → (x < a) ⊎ (a + 8 ≤ x) → byte_of (write_word m a v) x ≡ byte_of m x
unfolding write_word
written_outside m a v x h =
    let outside : (leb a x && ltb x (a + 8)) ≡ false = ground arith in rw outside refl

take-all : (xs : List ℕ) → take (length xs) xs ≡ xs
take-all [] = refl
take-all (x ∷ xs) = ap (λ l. x ∷ l) (take-all xs)

kernel-IsMemory : IsMemory kernel byte_of
unfolding word_at
kernel-IsMemory = record {
  peek_range = λ m a v e. omega (arith, sym (some_eq e));
  peek_bytes = λ m a v i e h. word_bytes m a i h ∙ ap (λ w. w / 256 ^ i % 256) (some_eq e);
  poke_bytes =
      λ m a v m' i e h. ap (λ w. byte_of w (a + i)) (sym (some_eq e)) ∙ written_inside m a v i h;
  poke_others =
      λ m a v m' x e h. ap (λ w. byte_of w x) (sym (some_eq e)) ∙ written_outside m a v x h;
  readv_bytes = λ m parts read e.
      sym (some_eq e)
      ∙ sym (take-all (gathered (byte_of m) parts))
      ∙ ap (λ r. take (length r) (gathered (byte_of m) parts)) (some_eq e);
  set_keeps = λ m id a r x e. ap (λ (q : ℕ × Memory). byte_of q.1 x) (sym (ok_eq e));
  clear_keeps = λ m index m' x e. ap (λ w. byte_of w x) (sym (ok_eq e));
}

-- A memory whose byte at an address is the address, with a trap at 5, and a site for 9.
abbrev trapped : Memory
trapped x = if leb 5 x && leb x 5 then 0xcc else x

abbrev site_at : ℕ → ℕ → Bool → ℕ → Site
site_at id address is_enabled saved = record {
  id = id;
  address = address;
  is_enabled = is_enabled;
  saved_data = saved;
  is_hardware = false;
  is_internal = false;
  hardware_register_index = 4294967295;
}

abbrev at_five : Site
at_five = site_at 1 5 true 5

abbrev at_nine : Site
at_nine = site_at 2 9 false 0

view-enable_example :
    view (byte_of (write_word trapped 9 1157159078456920780)) (at_five ∷ site_at 2 9 true 9 ∷ []) 9
    ≡ view (byte_of trapped) (at_five ∷ at_nine ∷ []) 9
unfolding saved_at enable word_at
view-enable_example =
    view-enable kernel byte_of kernel-IsMemory (at_five ∷ []) [] at_nine (site_at 2 9 true 9)
      trapped (write_word trapped 9 1157159078456920780) 9 (refl, refl) refl

view-disable_example :
    view (byte_of (write_word trapped 5 867798387104613893)) (site_at 1 5 false 5 ∷ at_nine ∷ []) 5
    ≡ view (byte_of trapped) (at_five ∷ at_nine ∷ []) 5
unfolding saved_at disable word_at
view-disable_example =
    view-disable kernel byte_of kernel-IsMemory [] (at_nine ∷ []) at_five (site_at 1 5 false 5)
      trapped (write_word trapped 5 867798387104613893) 5 (refl, refl) (omega arith) refl

read_memory_without_traps-view_example :
    (read : List ℕ) × (read_memory_without_traps kernel trapped (at_five ∷ at_nine ∷ []) 4 3
      ≡ ok read)
    × ((i : ℕ)
        → i < 3
        → get_elem? read i ≡ some (view (byte_of trapped) (at_five ∷ at_nine ∷ []) (4 + i)))
unfolding split_pages
read_memory_without_traps-view_example =
    read_memory_without_traps-view kernel byte_of kernel-IsMemory trapped (at_five ∷ at_nine ∷ []) 4
      3 (omega arith)
      (λ parts h. (
        gathered (byte_of trapped) parts,
        refl,
        ap (λ p. length (gathered (byte_of trapped) p)) (sym (ok_eq h)),
      ))
