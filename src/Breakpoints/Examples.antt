-- ===== src/Breakpoints/Examples.antt =====
-- A breakpoint of src/breakpoint.cpp resolved twice, in a process whose memory holds zeros.
use gsdb.Common.{ℕ, ◌≡◌, refl, true, false, List, [], ◌∷◌, Option, some}
use gsdb.Common.{Outcome, ok, err, Error, ◌>>=◌}
use gsdb.Stoppoints.Kernel.{Kernel}
use gsdb.Stoppoints.Site.{Site, enable}
use gsdb.Stoppoints.Collection.{contains_address, push}
use gsdb.Breakpoints.{Resolved, for_places, resolve_address}
use gsdb.Breakpoints.Again.{for_places-again}

-- The addresses written to, the last first.
abbrev kernel : Kernel (List ℕ)
kernel = record {
  peek = λ w a. some 0;
  poke = λ w a v. some (a ∷ w);
  readv = λ w parts. some [];
  set_hardware_breakpoint = λ w id a. ok (0, w);
  clear_hardware_stoppoint = λ w index. ok w;
}

abbrev unresolved : Resolved (List ℕ)
unresolved = record {
  breakpoint = record {
    id = 1;
    is_enabled = true;
    is_hardware = false;
    is_internal = false;
    next_site_id = 1;
    breakpoint_sites = [];
  };
  sites = [];
  outside = [];
}

abbrev enabled_site : ℕ → ℕ → Site
enabled_site id address = record {
  id = id;
  address = address;
  is_enabled = true;
  saved_data = 0;
  is_hardware = false;
  is_internal = false;
  hardware_register_index = 4294967295;
}

-- Two places, of which one is found twice.
abbrev resolved : Resolved (List ℕ)
resolved = record {
  breakpoint = record {
    id = 1;
    is_enabled = true;
    is_hardware = false;
    is_internal = false;
    next_site_id = 3;
    breakpoint_sites = 4096 ∷ 8192 ∷ [];
  };
  sites = enabled_site 1 4096 ∷ enabled_site 2 8192 ∷ [];
  outside = 8192 ∷ 4096 ∷ [];
}

abbrev found_at : ℕ → Outcome (Option ℕ)
found_at a = ok (some a)

resolve_twice :
    (for_places kernel found_at (4096 ∷ 8192 ∷ []) unresolved
      >>= for_places kernel found_at (4096 ∷ []))
    ≡ ok resolved
unfolding for_places contains_address enable push
resolve_twice = refl

-- Another breakpoint of the process already has a site there.
resolve_taken :
    resolve_address kernel 4096 (record unresolved { sites = enabled_site 1 4096 ∷ [] })
    ≡ err Error.address_taken
unfolding resolve_address contains_address
resolve_taken = refl

for_places-again_example :
    (for_places kernel found_at (4096 ∷ 8192 ∷ []) resolved
      >>= for_places kernel found_at (4096 ∷ []))
    ≡ ok resolved
for_places-again_example =
    for_places-again kernel found_at found_at (4096 ∷ 8192 ∷ []) (4096 ∷ []) unresolved resolved
      resolve_twice
