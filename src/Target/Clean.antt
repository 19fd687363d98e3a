-- ===== src/Target/Clean.antt =====
-- `run_until_address` of src/target.cpp takes its breakpoint out again: the sites that
-- were there stay, and behind them are those that hit handlers made while it waited.
use gsdb.Common.{ℕ, ◌≡◌, refl, sym, ap, ◌∙◌, Bool, true, false, ◌==◌, ◌||◌}
use gsdb.Common.{arith, List, [], ◌∷◌, ◌++◌, map, All, All-append, some, if◌then◌else◌}
use gsdb.Common.{Outcome, ok, err, >>=-eq-ok, ok-injective, ◌>>=◌ as after}
use gsdb.Stoppoints.Site.{Site, disable, new_site}
use gsdb.Stoppoints.Memory.{site_stoppoint}
use gsdb.Stoppoints.Collection.{
  contains_address, find_by_address, push, remove_first, remove_by_address,
}
use gsdb.Process.Reply.{Call, returned, pure, modify, when, settled, ◌>>=◌, ◌>>◌}
use gsdb.Process.Reply.Returned.{bound-eq-returned, returned-injective, Follows-returned}
use gsdb.Process.Reply.Within.{Order}
use mathlib.Core.Path.{subst}
use mathlib.Core.List.{append_assoc}
use gsdb.Process.Threads.{StopReason, Process, System, enable_at, resume}
use gsdb.Process.Threads.Stops.{wait_on_signal}
use gsdb.Process.Threads.Sites.{
  addresses, added, Makes, unchanged, sites_rules, KeepsSites, enable_at-KeepsSites,
  get_pc-KeepsSites, resume-KeepsSites,
}
use gsdb.Process.Threads.Sites.Waits.{wait_on_signal-KeepsSites}
use gsdb.Target.{View, arrived, plant, known, uproot, set_reason, breakpoint_pc, run_until_address}

abbrev is_there : ℕ → List ℕ → Bool
is_there a [] = false
is_there a (b ∷ bs) = b == a || is_there a bs

module _ {W : Type 0} (y : System W) (v : View W) (Made : ℕ → Type 0) (makes : Makes y Made) where
  contains-is_there :
      (a : ℕ) (sites : List Site)
      → contains_address (site_stoppoint y.kernel) sites a ≡ false
      → is_there a (map (λ t. t.address) sites) ≡ false
  unfolding contains_address find_by_address
  contains-is_there a [] h = refl
  contains-is_there a (t ∷ sites) h = ground (arith, contains-is_there a sites)

  remove_first-here :
      (a : ℕ) (t : Site) (sites : List Site) (w : W)
      → (t.address == a) ≡ true
      → remove_first (site_stoppoint y.kernel) (λ t. t.address == a) (t ∷ sites) w
        ≡ after (disable y.kernel t w) (λ q. ok (sites, q.1))
  unfolding remove_first
  remove_first-here a t sites w e = rw (remove_first, e) refl

  remove_first-there :
      (a : ℕ) (t : Site) (sites : List Site) (w : W)
      → (t.address == a) ≡ false
      → remove_first (site_stoppoint y.kernel) (λ t. t.address == a) (t ∷ sites) w
        ≡ after
            (remove_first (site_stoppoint y.kernel) (λ t. t.address == a) sites w)
            (λ q. ok (t ∷ q.0, q.1))
  unfolding remove_first
  remove_first-there a t sites w e = rw (remove_first, e) refl

  same_address : (a b : ℕ) → b ≡ a → (b == a) ≡ true
  same_address a b e = ground arith

  head_of : {a b : ℕ} {xs ys : List ℕ} → a ∷ xs ≡ b ∷ ys → (a ≡ b) × (xs ≡ ys)
  head_of e = (cc, cc)

  -- The removal takes out the first site at the address.
  remove_first-pushed :
      (a : ℕ) (before more : List ℕ) (sites : List Site) (w : W) (r : List Site × W)
      → map (λ t. t.address) sites ≡ before ++ (a ∷ more)
      → is_there a before ≡ false
      → remove_first (site_stoppoint y.kernel) (λ t. t.address == a) sites w ≡ ok r
      → map (λ t. t.address) r.0 ≡ before ++ more
  remove_first-pushed a [] more [] w r e h k = absurd (cc)
  remove_first-pushed a (b ∷ before) more [] w r e h k = absurd (cc)
  remove_first-pushed a [] more (t ∷ sites) w r e h k =
      let (first, others) = head_of e in
      let (q, _, last) =
        >>=-eq-ok (disable y.kernel t w) _
          (sym (remove_first-here a t sites w (same_address a t.address first)) ∙ k) in
      ap (λ p. map (λ t. t.address) p.0) (sym (ok-injective last)) ∙ others
  remove_first-pushed a (b ∷ before) more (t ∷ sites) w r e h k =
      let (first, others) = head_of e in
      let (q, rest, last) =
        >>=-eq-ok (remove_first (site_stoppoint y.kernel) (λ t. t.address == a) sites w) _
          (sym (remove_first-there a t sites w (ground arith)) ∙ k) in
      let tail = remove_first-pushed a before more sites w q others (ground arith) rest in
      ap (λ p. map (λ t. t.address) p.0) (sym (ok-injective last)) ∙ cc

  pushed_addresses :
      (sites : List Site) (address : ℕ)
      → map
          (λ t. t.address)
          (push (site_stoppoint y.kernel) sites (new_site 0 address false true).0)
        ≡ map (λ t. t.address) sites ++ (address ∷ [])
  unfolding push new_site
  pushed_addresses [] address = refl
  pushed_addresses (t ∷ sites) address = ap (λ l. t.address ∷ l) (pushed_addresses sites address)

  -- What `plant` leaves, and what the run leaves behind it: the sites as they were, with one more
  -- behind them, where none was, and those that hit handlers made.
  abbrev Planted : ℕ → Process W → Bool → Process W → Type 0
  Planted address s false t = Order.Leads (added Made) s t
  Planted address s true t =
      (more : List ℕ) × (addresses t ≡ addresses s ++ (address ∷ more))
      × All Made more
      × (is_there address (addresses s) ≡ false)

  later :
      (address : ℕ) (made : Bool) (s t u : Process W)
      → Planted address s made t
      → Order.Leads (added Made) t u
      → Planted address s made u
  later address false s t u h e = Order.Leads-trans (added Made) s t u h e
  later address true s t u (xs, h, p, k) (ys, e, q) = (
    xs ++ ys,
    e ∙ ap (λ l. l ++ ys) h ∙ append_assoc (addresses s) (address ∷ xs) ys,
    All-append Made xs ys p q,
    k,
  )

  plant-Planted :
      (address : ℕ) (made : Bool) (s t : Process W)
      → plant y v address s ≡ returned made t
      → Planted address s made t
  plant-Planted address made s t e =
      at (contains_address (site_stoppoint y.kernel) s.breakpoint_sites address) refl e
    where
      pushed : Process W
      pushed = record s {
        breakpoint_sites =
            push (site_stoppoint y.kernel) s.breakpoint_sites (new_site 0 address false true).0;
      }

      at :
          (b : Bool)
          → contains_address (site_stoppoint y.kernel) s.breakpoint_sites address ≡ b
          → (if b
                then pure false
                else (modify (λ s. record s {
                  breakpoint_sites =
                      push
                        (site_stoppoint y.kernel)
                        s.breakpoint_sites
                        (new_site 0 address false true).0;
                })
                    >> enable_at y address
                    >> pure true))
              s
            ≡ returned made t
          → Planted address s made t
      at true c g =
          let (none_made, same) = returned-injective g in
          rw (sym none_made, sym same) (unchanged y Made s refl)
      at false c g =
          let (_, (u, enabled, last)) =
            bound-eq-returned (λ _. pure true) (enable_at y address pushed) made t g in
          let (one_made, same) = returned-injective last in
          let there : Planted address s true pushed = (
            [],
            pushed_addresses s.breakpoint_sites address,
            tt,
            contains-is_there address s.breakpoint_sites c,
          ) in
          let after_enable = later address true s pushed u there (
            Follows-returned (added Made) (enable_at y address)
              (enable_at-KeepsSites y Made address) pushed u tt enabled) in
          rw (sym one_made) (subst (Planted address s true) same after_enable)

  uproot-Planted :
      (address : ℕ) (made : Bool) (s t u : Process W)
      → Planted address s made t
      → when made (uproot y v address) t ≡ returned tt u
      → Order.Leads (added Made) s u
  unfolding remove_by_address
  uproot-Planted address false s t u h e =
      subst (Order.Leads (added Made) s) (returned-injective e).1 h
  uproot-Planted address true s t u (more, h, p, k) e =
      at (remove_by_address (site_stoppoint y.kernel) t.breakpoint_sites address t.outside) refl e
    where
      at :
          (o : Outcome (List Site × W))
          → remove_by_address (site_stoppoint y.kernel) t.breakpoint_sites address t.outside ≡ o
          → settled (λ r. λ s. returned tt (record s { breakpoint_sites = r.0; outside = r.1 })) o t
            ≡ returned tt u
          → Order.Leads (added Made) s u
      at (ok r) c g = (
        more,
        ap addresses (sym (returned-injective g).1)
            ∙ remove_first-pushed address (addresses s) more t.breakpoint_sites t.outside r h k c,
        p,
      )
      at (err x) c g = absurd (cc)
      at Outcome.undefined c g = absurd (cc)
      at Outcome.exhausted c g = absurd (cc)

  breakpoint_pc-KeepsSites :
      (tid : ℕ) (reason : StopReason) → KeepsSites y Made (breakpoint_pc y v tid reason)
  breakpoint_pc-KeepsSites tid reason = search (sites_rules, get_pc-KeepsSites)

  -- The end of `run_until_address`, behind the removal.
  abbrev recorded : ℕ → StopReason → Call (Process W) StopReason
  recorded tid reason = known y v tid >>= λ _. set_reason y v tid reason >>= λ _. pure reason

  recorded-KeepsSites : (tid : ℕ) (reason : StopReason) → KeepsSites y Made (recorded tid reason)
  recorded-KeepsSites tid reason = search sites_rules depth 8

  -- Where `run_until_address` returns, the process has its breakpoint sites where it had them, and
  -- behind them those that hit handlers made.
  pub run_until_address-returned :
      (rounds address tid : ℕ) (r : StopReason) (s t : Process W)
      → run_until_address y v rounds address tid s ≡ returned r t
      → Order.Leads (added Made) s t
  unfolding run_until_address
  run_until_address-returned rounds address tid r s t e =
      let (made, (s1, planted, e1)) = bound-eq-returned _ (plant y v address s) r t e in
      let (_, (s2, resumed, e2)) = bound-eq-returned _ (resume y (some tid) s1) r t e1 in
      let (reason, (s3, stopped, e3)) =
        bound-eq-returned _ (wait_on_signal y rounds (some tid) s2) r t e2 in
      let (pc, (s4, read, e4)) = bound-eq-returned _ (breakpoint_pc y v tid reason s3) r t e3 in
      let (_, (s5, cut, e5)) =
        bound-eq-returned (λ _. recorded tid (arrived pc address reason))
          (when made (uproot y v address) s4) r t e4 in
      let before = plant-Planted address made s s1 planted in
      let running = later address made s s1 s2 before (
        Follows-returned (added Made) (resume y (some tid)) (resume-KeepsSites y Made (some tid)) s1
          s2 tt resumed) in
      let waited = later address made s s2 s3 running (
        Follows-returned (added Made) (wait_on_signal y rounds (some tid))
          (wait_on_signal-KeepsSites y Made makes rounds (some tid)) s2 s3 reason stopped) in
      let at_pc = later address made s s3 s4 waited (
        Follows-returned (added Made) (breakpoint_pc y v tid reason)
          (breakpoint_pc-KeepsSites tid reason) s3 s4 pc read) in
      Order.Leads-trans (added Made) s s5 t (uproot-Planted address made s s4 s5 at_pc cut) (
        Follows-returned (added Made) (recorded tid (arrived pc address reason))
          (recorded-KeepsSites tid (arrived pc address reason)) s5 t r e5)
