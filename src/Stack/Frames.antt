-- ===== src/Stack/Frames.antt =====
-- The frames that src/stack.cpp makes for one address, against the functions inlined there, and the
-- functions that it counts as not entered yet.
use gsdb.Common.{ℕ, ◌≡◌, refl, sym, ap, ◌∙◌, arith}
use gsdb.Common.{Bool, true, false, All, List, [], ◌∷◌, ◌++◌, length, ◌==◌, map, Option, none, some}
use gsdb.Common.{ok, >>=-eq-ok, ok-injective, if◌then◌else◌}
use gsdb.Dwarf.LineTable.{FileAddr, File}
use gsdb.Stack.{
  Unwinder, StackFrame, same_addr, count_entered, create_base_frame, at_entry,
  create_inline_stack_frames, create_frames, is_empty, reverse, reset_inline_height,
  inline_stack_at_pc,
}

-- For the inline stack of an address, innermost first: whether each function is inlined. All are
-- but the last.
abbrev pub inlined_flags : {D : Type 0} → List D → List Bool
inlined_flags [] = []
inlined_flags (d ∷ []) = false ∷ []
inlined_flags (d ∷ e ∷ ds) = true ∷ inlined_flags (e ∷ ds)

same_addr_refl : (a : FileAddr) → same_addr a a ≡ true
same_addr_refl a = ground arith

module _ {R D : Type 0} (u : Unwinder R D) where
  abbrev pub Describes : R → List D → List (StackFrame R D) → Type 0
  Describes regs ds frames =
      (map (λ f. f.func_die) frames ≡ ds)
      × (map (λ f. f.inlined) frames ≡ inlined_flags ds)
      × All (λ f. f.regs ≡ regs) frames

  cons-Describes :
      (regs : R) (d : D) (ds : List D) (frame : StackFrame R D) (frames : List (StackFrame R D))
      → frame.func_die ≡ d
      → frame.inlined ≡ (if is_empty u ds then false else true)
      → frame.regs ≡ regs
      → Describes regs ds frames
      → Describes regs (d ∷ ds) (frame ∷ frames)
  cons-Describes regs d [] frame frames p q r h = (rw (p, h.0) refl, rw (q, h.1) refl, (r, h.2))
  cons-Describes regs d (e ∷ ds) frame frames p q r h =
      (rw (p, h.0) refl, rw (q, h.1) refl, (r, h.2))

  entry_die :
      (regs : R) (d : D) (b : Bool) (pc : FileAddr)
      → (entry : Option (FileAddr × (Option File × ℕ)))
      → (at_entry u regs d b pc entry).func_die ≡ d
  entry_die regs d b pc none = refl
  entry_die regs d b pc (some found) = refl

  entry_inlined :
      (regs : R) (d : D) (b : Bool) (pc : FileAddr)
      → (entry : Option (FileAddr × (Option File × ℕ))) → (at_entry u regs d b pc entry).inlined ≡ b
  entry_inlined regs d b pc none = refl
  entry_inlined regs d b pc (some found) = refl

  entry_regs :
      (regs : R) (d : D) (b : Bool) (pc : FileAddr)
      → (entry : Option (FileAddr × (Option File × ℕ))) → (at_entry u regs d b pc entry).regs ≡ regs
  entry_regs regs d b pc none = refl
  entry_regs regs d b pc (some found) = refl

  inline_frames-Describes :
      (regs : R) (inner : D) (ds : List D) (frames : List (StackFrame R D))
      → create_inline_stack_frames u regs inner ds ≡ ok frames
      → Describes regs ds frames
  unfolding create_inline_stack_frames
  inline_frames-Describes regs inner [] frames e = rw (sym (ok-injective e)) (refl, refl, tt)
  inline_frames-Describes regs inner (d ∷ ds) frames e =
      let (low, _, e1) = >>=-eq-ok (u.low_pc inner) _ e in
      let (place, _, e2) = >>=-eq-ok (u.location inner) _ e1 in
      let (others, made, last) = >>=-eq-ok (create_inline_stack_frames u regs d ds) _ e2 in
      rw (sym (ok-injective last)) (
        cons-Describes regs d ds
          (record {
            regs = regs;
            backtrace_report_address = u.to_virt_addr low;
            func_die = d;
            inlined = if is_empty u ds then false else true;
            location = place;
          })
          others refl refl refl (inline_frames-Describes regs d ds others made))

  -- Where the frames of an address are made, there is one for each function of its inline stack,
  -- from the innermost outwards, all with the registers of the address; each is marked as inlined
  -- but the outermost.
  pub create_frames-Describes :
      (regs : R) (pc : FileAddr) (ds : List D) (frames : List (StackFrame R D))
      → create_frames u regs pc ds ≡ ok frames
      → Describes regs ds frames
  unfolding create_frames create_base_frame
  create_frames-Describes regs pc [] frames e = rw (sym (ok-injective e)) (refl, refl, tt)
  create_frames-Describes regs pc (d ∷ ds) frames e =
      let (frame, based, e1) =
        >>=-eq-ok (create_base_frame u regs d pc (if is_empty u ds then false else true)) _ e in
      let (others, made, last) = >>=-eq-ok (create_inline_stack_frames u regs d ds) _ e1 in
      let (entry, _, at) = >>=-eq-ok (u.line_entry_at_address pc) _ based in
      rw (sym (ok-injective last)) (
        cons-Describes regs d ds frame others
          (ap (λ f. f.func_die) (sym (ok-injective at)) ∙ entry_die regs d _ pc entry)
          (ap (λ f. f.inlined) (sym (ok-injective at)) ∙ entry_inlined regs d _ pc entry)
          (ap (λ f. f.regs) (sym (ok-injective at)) ∙ entry_regs regs d _ pc entry)
          (inline_frames-Describes regs d ds others made))

  -- What ends the count: there is no further function, or the next one begins elsewhere.
  abbrev pub BeginsElsewhere : FileAddr → List D → Type 0
  BeginsElsewhere pc [] = Unit
  BeginsElsewhere pc (d ∷ ds) =
      (low : FileAddr) × ((u.low_pc d ≡ ok low) × (same_addr low pc ≡ false))

  count_entered-prefix :
      (pc : FileAddr) (entered others : List D)
      → All (λ d. u.low_pc d ≡ ok pc) entered
      → BeginsElsewhere pc others
      → count_entered u pc (entered ++ others) ≡ ok (length entered)
  unfolding count_entered
  count_entered-prefix pc [] [] h k = refl
  count_entered-prefix pc [] (d ∷ others) h (low, (e, differ)) = rw (e, differ) refl
  count_entered-prefix pc (d ∷ entered) others h k =
      rw (h.0, same_addr_refl pc, count_entered-prefix pc entered others h.1 k) refl

  -- The inline height is the number of functions, from the innermost one outwards, that begin at
  -- the program counter of the process's current thread, on the inline stack at the thread's own
  -- program counter, which is in an object. The outermost function, which is not inlined, is
  -- counted as well where it and all those inside it begin there.
  pub reset_inline_height-entered :
      (pc current_pc : FileAddr) (stack entered others : List D)
      → (pc.elf == 0) ≡ false
      → u.inline_stack_at_address pc ≡ ok stack
      → reverse stack ≡ entered ++ others
      → All (λ d. u.low_pc d ≡ ok current_pc) entered
      → BeginsElsewhere current_pc others
      → reset_inline_height u pc current_pc ≡ ok (length entered)
  unfolding reset_inline_height inline_stack_at_pc
  reset_inline_height-entered pc current_pc stack entered others inside found split h k =
      rw (inside, found, split) (count_entered-prefix current_pc entered others h k)
