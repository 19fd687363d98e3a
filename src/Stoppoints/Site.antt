-- ===== src/Stoppoints/Site.antt =====
-- `breakpoint_site` of src/breakpoint_site.cpp and include/libgsdb/breakpoint_site.hpp.
use gsdb.Common.{
  ℕ, ◌+◌, bit_and, bit_or, Bool, true, false, ◌&&◌, not, leb, ltb, ◌==◌, if◌then◌else◌,
}
use gsdb.Common.{List, [], ◌∷◌}
use gsdb.Common.{Outcome, ok, Error, or_err, ◌>>=◌}
use gsdb.Common.Word.{not64}
use gsdb.Stoppoints.Kernel.{Kernel}

-- An internal site has the id -1, as its 32-bit pattern; so does a hardware register not in use.
pub record Site : Type 0 where
  pub id : ℕ
  pub address : ℕ
  pub is_enabled : Bool
  pub saved_data : ℕ
  pub is_hardware : Bool
  pub is_internal : Bool
  pub hardware_register_index : ℕ

abbrev minus_one : ℕ
minus_one = 4294967295

-- `get_next_id` and the constructor: the counter and the new site.
unfoldable pub new_site : ℕ → ℕ → Bool → Bool → Site × ℕ
new_site counter address is_hardware is_internal =
    let id = if is_internal then minus_one else counter + 1 in
    (
      record {
        id = id;
        address = address;
        is_enabled = false;
        saved_data = 0;
        is_hardware = is_hardware;
        is_internal = is_internal;
        hardware_register_index = minus_one;
      },
      if is_internal then counter else counter + 1,
    )

-- A change of the site at an address, among those that the process owns.
abbrev pub replace_site : Site → List Site → List Site
replace_site t [] = []
replace_site t (u ∷ sites) = if u.address == t.address then t ∷ sites else u ∷ replace_site t sites

abbrev pub at_address : Site → ℕ → Bool
at_address s a = s.address == a

abbrev pub in_range : Site → ℕ → ℕ → Bool
in_range s low high = leb low s.address && ltb s.address high

module _ {W : Type 0} (k : Kernel W) where
  -- `data & ~0xff | byte`, written back over the word at the address.
  abbrev pub replace_byte : W → ℕ → ℕ → ℕ → Outcome W
  replace_byte w address word byte =
      or_err Error.os_failure (k.poke w address (bit_or (bit_and word (not64 0xff)) byte))

  -- `enable`.
  unfoldable pub enable : Site → W → Outcome (Site × W)
  enable s w =
      if s.is_enabled
      then ok (s, w)
      else if s.is_hardware
      then (k.set_hardware_breakpoint w s.id s.address >>= λ r.
          ok (record s { hardware_register_index = r.0; is_enabled = true }, r.1))
      else (or_err Error.os_failure (k.peek w s.address) >>= λ word.
          replace_byte w s.address word 0xcc >>= λ w'.
          ok (record s { saved_data = bit_and word 0xff; is_enabled = true }, w'))

  -- `disable`.
  unfoldable pub disable : Site → W → Outcome (Site × W)
  disable s w =
      if not s.is_enabled
      then ok (s, w)
      else if s.is_hardware
      then (k.clear_hardware_stoppoint w s.hardware_register_index >>= λ w'.
          ok (record s { hardware_register_index = minus_one; is_enabled = false }, w'))
      else (or_err Error.os_failure (k.peek w s.address) >>= λ word.
          replace_byte w s.address word s.saved_data >>= λ w'.
          ok (record s { is_enabled = false }, w'))
