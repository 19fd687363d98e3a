-- ===== src/Breakpoints.antt =====
-- `breakpoint` of src/breakpoint.cpp and include/libgsdb/breakpoint.hpp: a user's breakpoint, and
-- the sites that it is resolved to.
pub mod Places
pub mod Again
mod Examples
use gsdb.Common.{ℕ, ◌+◌, Bool, true, false, not, ◌==◌, ◌||◌, ◌&&◌, leb, ltb, if◌then◌else◌}
use gsdb.Common.{List, [], ◌∷◌, ◌++◌, Option, none, some, Outcome, ok, Error, guard, ◌>>=◌, ◌>>◌}
use gsdb.Stoppoints.Kernel.{Kernel}
use gsdb.Stoppoints.Site.{Site, replace_site, enable, disable}
use gsdb.Stoppoints.Memory.{site_stoppoint}
use gsdb.Stoppoints.Collection.{contains_address, get_by_address, push}

-- A breakpoint points to its sites, which the process owns: here by their addresses, of which the
-- process has one site each.
pub record Breakpoint : Type 0 where
  pub id : ℕ
  pub is_enabled : Bool
  pub is_hardware : Bool
  pub is_internal : Bool
  pub next_site_id : ℕ
  pub breakpoint_sites : List ℕ

-- The breakpoint, the sites of the process, and the rest of the process.
pub record Resolved (W : Type 0) : Type 0 where
  pub breakpoint : Breakpoint
  pub sites : List Site
  pub outside : W

abbrev minus_one : ℕ
minus_one = 4294967295

-- `get_next_id` and the constructor: the breakpoint and the new counter.
unfoldable pub new_breakpoint : ℕ → Bool → Bool → Breakpoint × ℕ
new_breakpoint counter is_hardware is_internal =
    let id = if is_internal then minus_one else counter + 1 in
    (
      record {
        id = id;
        is_enabled = false;
        is_hardware = is_hardware;
        is_internal = is_internal;
        next_site_id = 1;
        breakpoint_sites = [];
      },
      if is_internal then counter else counter + 1,
    )

abbrev pub is_listed : ℕ → List ℕ → Bool
is_listed a [] = false
is_listed a (b ∷ bs) = b == a || is_listed a bs

-- `at_address` and `in_range`.
unfoldable pub at_address : Breakpoint → ℕ → Bool
at_address b a = is_listed a b.breakpoint_sites

abbrev any_within : ℕ → ℕ → List ℕ → Bool
any_within low high [] = false
any_within low high (a ∷ addresses) = (leb low a && ltb a high) || any_within low high addresses

unfoldable pub in_range : Breakpoint → ℕ → ℕ → Bool
in_range b low high = any_within low high b.breakpoint_sites

-- The constructor of a site with a parent: its id is the parent's choice.
unfoldable pub child_site : ℕ → ℕ → Bool → Bool → Site
child_site id address is_hardware is_internal = record {
  id = id;
  address = address;
  is_enabled = false;
  saved_data = 0;
  is_hardware = is_hardware;
  is_internal = is_internal;
  hardware_register_index = minus_one;
}

module _ {W : Type 0} (k : Kernel W) where
  abbrev toggle_each :
      (Site → W → Outcome (Site × W)) → List ℕ → List Site → W → Outcome (List Site × W)
  toggle_each toggle [] sites w = ok (sites, w)
  toggle_each toggle (a ∷ addresses) sites w = get_by_address (site_stoppoint k) sites a >>= λ site.
      toggle site w >>= λ r. toggle_each toggle addresses (replace_site r.0 sites) r.1

  -- `enable` and `disable`, over the sites.
  unfoldable pub enable_breakpoint : Resolved W → Outcome (Resolved W)
  enable_breakpoint s =
      toggle_each (enable k) s.breakpoint.breakpoint_sites s.sites s.outside >>= λ r. ok (record {
        breakpoint = record s.breakpoint { is_enabled = true };
        sites = r.0;
        outside = r.1;
      })

  unfoldable pub disable_breakpoint : Resolved W → Outcome (Resolved W)
  disable_breakpoint s =
      toggle_each (disable k) s.breakpoint.breakpoint_sites s.sites s.outside >>= λ r. ok (record {
        breakpoint = record s.breakpoint { is_enabled = false };
        sites = r.0;
        outside = r.1;
      })

  -- `create_breakpoint_site` of src/process.cpp, for a breakpoint: one site for an address.
  unfoldable pub create_breakpoint_site :
      ℕ → ℕ → Bool → Bool → List Site → Outcome (Site × List Site)
  unfolding child_site
  create_breakpoint_site id address is_hardware is_internal sites =
      guard (not (contains_address (site_stoppoint k) sites address)) Error.address_taken
      >> (let site = child_site id address is_hardware is_internal in
          ok (site, push (site_stoppoint k) sites site))

  abbrev switched : Bool → Site → List Site → W → Outcome (List Site × W)
  switched true site sites w = enable k site w >>= λ r. ok (replace_site r.0 sites, r.1)
  switched false site sites w = ok (sites, w)

  -- The new site of a breakpoint, which is on if the breakpoint is.
  unfoldable pub add_site : ℕ → Resolved W → Outcome (Resolved W)
  unfolding create_breakpoint_site
  add_site address s =
      let b = s.breakpoint in
      create_breakpoint_site b.next_site_id address b.is_hardware b.is_internal s.sites >>= λ r.
      switched b.is_enabled r.0 r.1 s.outside >>= λ t. ok (record {
        breakpoint = record b {
          next_site_id = b.next_site_id + 1;
          breakpoint_sites = b.breakpoint_sites ++ (address ∷ []);
        };
        sites = t.0;
        outside = t.1;
      })

  -- The end of a loop body: a place already resolved is left alone.
  unfoldable pub resolve_at : ℕ → Resolved W → Outcome (Resolved W)
  unfolding add_site
  resolve_at address s =
      if is_listed address s.breakpoint.breakpoint_sites then ok s else add_site address s

  abbrev pub placed : Option ℕ → Resolved W → Outcome (Resolved W)
  placed none s = ok s
  placed (some address) s = resolve_at address s

  -- The loops of `resolve`, over what the target has found; what has no place is passed over.
  unfoldable pub for_places :
      {A : Type 0} → (A → Outcome (Option ℕ)) → List A → Resolved W → Outcome (Resolved W)
  unfolding resolve_at
  for_places place [] s = ok s
  for_places place (x ∷ found) s =
      place x >>= λ address. placed address s >>= for_places place found

  abbrev is_empty : List ℕ → Bool
  is_empty [] = true
  is_empty (a ∷ addresses) = false

  -- `address_breakpoint::resolve`.
  unfoldable pub resolve_address : ℕ → Resolved W → Outcome (Resolved W)
  unfolding add_site
  resolve_address address s =
      if is_empty s.breakpoint.breakpoint_sites then add_site address s else ok s
