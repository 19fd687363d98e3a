-- ===== src/Elf/Addresses.antt =====
-- `file_addr::to_virt_addr` and `virt_addr::to_file_addr` of src/types.cpp.
use gsdb.Common.{ℕ, ◌+◌, ◌%◌, ◌<◌, ◌≡◌, refl, ap, sym, ◌∙◌, arith, inl, inr}
use gsdb.Common.{Bool, true, false, ◌&&◌, List, [], ◌∷◌, none, some, find, All}
use gsdb.Common.{leb, ltb, ◌==◌, ==_iff, ltb→lt, Bool-cases}
use gsdb.Common.Word.{two64, add64, sub64}
use gsdb.Dwarf.LineTable.{FileAddr, no_addr}
use gsdb.Elf.{
  Elf, Section, has_file_address, section_at_file_address, has_virtual_address,
  section_at_virtual_address, get_elf_containing_address,
}

-- `to_virt_addr`: 0 for an address in no section.
unfoldable pub to_virt_addr : Elf → FileAddr → ℕ
unfolding section_at_file_address
to_virt_addr obj a = elim (section_at_file_address obj a) [
  | none ↦ 0
  | some s ↦ add64 a.addr obj.load_bias
]

-- `to_file_addr`, for one object and for a collection.
unfoldable pub to_file_addr : Elf → ℕ → FileAddr
unfolding section_at_virtual_address
to_file_addr obj a = elim (section_at_virtual_address obj a) [
  | none ↦ no_addr
  | some s ↦ record { elf = obj.id; addr = sub64 a obj.load_bias }
]

unfoldable pub to_file_addr_among : List Elf → ℕ → FileAddr
unfolding get_elf_containing_address to_file_addr
to_file_addr_among elves a = elim (get_elf_containing_address elves a) [
  | none ↦ no_addr
  | some obj ↦ to_file_addr obj a
]

-- The sections of an object lie below 2 ^ 64, also where it was loaded.
abbrev pub IsLoaded : Elf → Type 0
IsLoaded obj = All (λ s. obj.load_bias + s.addr + s.size < two64) obj.section_headers

same_test :
    (bias a : ℕ) (s : Section)
    → bias + s.addr + s.size < two64
    → bias + a < two64
    → has_virtual_address bias (add64 a bias) s ≡ has_file_address a s
same_test bias a s fits small =
    let e1 : (bias + s.addr) % two64 ≡ bias + s.addr = omega arith in
    let e2 : (a + bias) % two64 ≡ a + bias = omega arith in
    let e3 : (bias + s.addr + s.size) % two64 ≡ bias + s.addr + s.size = omega arith in
    let e4 : (s.addr + s.size) % two64 ≡ s.addr + s.size = omega arith in
    rw (e1, e2, e3, e4) (shifted bias s.addr s.size a)
  where
    shifted :
        (bias low size a : ℕ)
        → leb (bias + low) (a + bias) && ltb (a + bias) (bias + low + size)
          ≡ leb low a && ltb a (low + size)
    shifted bias low size a = ground arith

find_congruent :
    {A : Type 0} (p q : A → Bool) (xs : List A) → All (λ x. p x ≡ q x) xs → find p xs ≡ find q xs
find_congruent p q [] h = refl
find_congruent p q (x ∷ xs) h = rw (h.0, find_congruent p q xs h.1) refl

same_tests :
    (bias a : ℕ) (sections : List Section)
    → bias + a < two64
    → All (λ s. bias + s.addr + s.size < two64) sections
    → All (λ s. has_virtual_address bias (add64 a bias) s ≡ has_file_address a s) sections
same_tests bias a [] small fits = tt
same_tests bias a (s ∷ sections) small fits =
    (same_test bias a s fits.0 small, same_tests bias a sections small fits.1)

last_true : (b : Bool) {c : Bool} → b && c ≡ true → c ≡ true
last_true true h = h
last_true false h = absurd (cc)

-- An address in a section is below its end.
address_fits :
    (bias a : ℕ) (sections : List Section) (s : Section)
    → All (λ s. bias + s.addr + s.size < two64) sections
    → find (has_file_address a) sections ≡ some s
    → bias + a < two64
address_fits bias a [] s fits e = absurd (cc)
address_fits bias a (t ∷ sections) s fits e = elim (Bool-cases (has_file_address a t)) [
  | inl inside ↦
      let e1 : (t.addr + t.size) % two64 ≡ t.addr + t.size = omega (arith, fits.0) in
      let below : ltb a (t.addr + t.size) ≡ true = last_true (leb t.addr a) (rw e1 at inside) in
      omega (arith, fits.0, ltb→lt a (t.addr + t.size) below)
  | inr outside ↦ address_fits bias a sections s fits.1 (rw outside at e)
]

-- In an object that was loaded within the 64-bit address space, `to_virt_addr` and then
-- `to_file_addr` give back every file address that lies in a section, and the virtual address lies
-- in the same section.
pub to_file_addr-to_virt_addr :
    (obj : Elf) (a : FileAddr) (s : Section)
    → IsLoaded obj
    → section_at_file_address obj a ≡ some s
    → (section_at_virtual_address obj (to_virt_addr obj a) ≡ some s)
      × (to_file_addr obj (to_virt_addr obj a) ≡ a)
unfolding section_at_file_address section_at_virtual_address to_virt_addr to_file_addr
to_file_addr-to_virt_addr obj a s fits e = elim (Bool-cases (a.elf == obj.id)) [
  | inr other ↦ absurd (cc)
  | inl own ↦
      let found : find (has_file_address a.addr) obj.section_headers ≡ some s = rw own at e in
      let small = address_fits obj.load_bias a.addr obj.section_headers s fits found in
      let virtual : find (has_virtual_address obj.load_bias (add64 a.addr obj.load_bias))
            obj.section_headers
          ≡ some s =
        find_congruent _ _ obj.section_headers
          (same_tests obj.load_bias a.addr obj.section_headers small fits)
        ∙ found in
      let runs : to_virt_addr obj a ≡ add64 a.addr obj.load_bias =
        rw (to_virt_addr, own, found) refl in
      let back : sub64 (add64 a.addr obj.load_bias) obj.load_bias ≡ a.addr = omega (arith, small) in
      let same : obj.id ≡ a.elf = sym ((==_iff a.elf obj.id).0 own) in
      rw runs (
        virtual,
        rw (to_file_addr, virtual)
            (ap (λ (x : ℕ). record { elf = obj.id; addr = x }) back
              ∙ ap (λ (x : ℕ). record { elf = x; addr = a.addr }) same),
      )
]
