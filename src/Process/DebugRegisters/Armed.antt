-- ===== src/Process/DebugRegisters/Armed.antt =====
-- `set_hardware_stoppoint` and `clear_hardware_stoppoint` over all threads.
use gsdb.Common.{ℕ, ◌<◌, ◌≡◌, refl, ap, sym, ◌∙◌, arith, inl, inr}
use gsdb.Common.{Bool, true, List, [], ◌∷◌, map, some, All, ◌==◌, find, length}
use gsdb.Common.{get_elem?, set, get_elem?-set_ne}
use gsdb.Common.{ok, Bool-cases, ==_iff, ==_refl}
use gsdb.Process.DebugRegisters.{
  StoppointMode, DebugThread, DebugState, Poke, dr7, write_debug, write_slot, write_others,
  replace_thread, set_hardware_stoppoint, clear_hardware_stoppoint, set_control, clear_control,
  find_free_stoppoint_register, encode_hardware_stoppoint_mode, encode_hardware_stoppoint_size,
}

-- A thread with an address in one of its registers and a control word.
abbrev pub armed : ℕ → ℕ → ℕ → DebugThread → DebugThread
armed i address control t = record t { debug = set (set t.debug i address) dr7 control }

-- The threads have different ids: any with the current one's id is it.
abbrev pub IsOnly : DebugThread → List DebugThread → Type 0
IsOnly t threads = All (λ u. u.tid ≡ t.tid → u ≡ t) threads

find-test : {A : Type 0} (p : A → Bool) (xs : List A) (x : A) → find p xs ≡ some x → p x ≡ true
find-test p [] x e = absurd (cc)
find-test p (y ∷ ys) x e = elim (Bool-cases (p y)) [
  | inl passes ↦ ground arith
  | inr fails ↦ find-test p ys x (rw fails at e)
]

module _ (poke : Poke) (accepts : (tid index value : ℕ) → poke tid index value ≡ true) where
  written :
      (index value : ℕ) (t : DebugThread)
      → write_debug poke index value t ≡ ok (record t { debug = set t.debug index value })
  unfolding write_debug
  written index value t = rw (accepts t.tid index value) refl

  slot_written :
      (i address control : ℕ) (t : DebugThread)
      → write_slot poke i address control t ≡ ok (armed i address control t)
  unfolding write_slot
  slot_written i address control t =
      simp (written i address t, written dr7 control (record t { debug = set t.debug i address }))

  others_written :
      (i address control : ℕ) (t : DebugThread) (threads : List DebugThread)
      → IsOnly t threads
      → write_others poke t.tid i address control
          (replace_thread (armed i address control t) threads)
        ≡ ok (map (armed i address control) threads)
  unfolding write_others
  others_written i address control t [] only = refl
  others_written i address control t (u ∷ threads) only =
      let rest = others_written i address control t threads only.1 in
      elim (Bool-cases (u.tid == t.tid)) [
        | inl same ↦
            let is_t : u ≡ t = only.0 ((==_iff u.tid t.tid).0 same) in
            simp (same, ==_refl t.tid, rest)
              (ap (λ x. ok (armed i address control x ∷ map (armed i address control) threads))
                (sym is_t))
        | inr other ↦ simp (other, slot_written i address control u, rest)
      ]

  -- What a call needs: the current thread, its control word, and a thread with eight registers.
  module _ (s : DebugState) (t : DebugThread) (control : ℕ)
      (current : find (λ u. u.tid == s.current_thread) s.threads ≡ some t)
      (only : IsOnly t s.threads) (eight : length t.debug ≡ 8)
      (word : get_elem? t.debug dr7 ≡ some control) where
    is_current : t.tid ≡ s.current_thread
    is_current = (==_iff _ _).0 (find-test (λ u. u.tid == s.current_thread) s.threads t current)

    all_written :
        (i address control' : ℕ)
        → write_others poke s.current_thread i address control'
            (replace_thread (armed i address control' t) s.threads)
          ≡ ok (map (armed i address control') s.threads)
    all_written i address control' =
        rw (sym is_current) (others_written i address control' t s.threads only)

    -- Where the kernel accepts the writes, a register is free and the size is one that the hardware
    -- knows, `set_hardware_stoppoint` returns the free register, and in every thread, not the
    -- current one alone, that register holds the address and DR7 the new control word of the
    -- current thread; no other register of any thread changes.
    pub set_hardware_stoppoint-armed :
        (address : ℕ) (mode : StoppointMode) (size i size_flag : ℕ)
        → find_free_stoppoint_register control ≡ ok i
        → encode_hardware_stoppoint_size size ≡ ok size_flag
        → set_hardware_stoppoint poke s address mode size
          ≡ ok (
            i,
            record s {
              threads =
                  map
                    (armed i address
                      (set_control control i (encode_hardware_stoppoint_mode mode) size_flag))
                    s.threads;
            },
          )
    unfolding set_hardware_stoppoint
    set_hardware_stoppoint-armed address mode size i size_flag free known =
        let control' = set_control control i (encode_hardware_stoppoint_mode mode) size_flag in
        simp (
          current,
          word,
          free,
          written i address t,
          known,
          written dr7 control' (record t { debug = set t.debug i address }),
          all_written i address control',
        )

    -- Where the kernel accepts the writes, `clear_hardware_stoppoint` puts 0 into the register in
    -- every thread, and into DR7 the current thread's control word with the register's slot
    -- cleared; no other register of any thread changes.
    pub clear_hardware_stoppoint-disarmed :
        (i : ℕ)
        → i < 4
        → clear_hardware_stoppoint poke s i
          ≡ ok (record s { threads = map (armed i 0 (clear_control control i)) s.threads })
    unfolding clear_hardware_stoppoint
    clear_hardware_stoppoint-disarmed i few =
        let t' : DebugThread = record t { debug = set t.debug i 0 } in
        let same_word : get_elem? (set t.debug i 0) dr7 ≡ some control =
          get_elem?-set_ne t.debug i dr7 0 (omega arith) ∙ word in
        simp (
          current,
          written i 0 t,
          same_word,
          written dr7 (clear_control control i) t',
          all_written i 0 (clear_control control i),
        )
