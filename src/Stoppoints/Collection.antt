-- ===== src/Stoppoints/Collection.antt =====
-- `stoppoint_collection` of include/libgsdb/stoppoint_collection.hpp, over any type of stoppoint.
use gsdb.Common.{ℕ, Bool, true, false, ◌==◌, List, [], ◌∷◌, ◌++◌, Option, none, some, find}
use gsdb.Common.{if◌then◌else◌, Outcome, ok, Error, or_err, ◌>>=◌}

-- The concept `stoppoint_concept`, with `id`. `disable` acts on the process as well.
pub record IsStoppoint (T W : Type 0) : Type 0 where
  pub id : T → ℕ
  pub at_address : T → ℕ → Bool
  pub is_enabled : T → Bool
  pub in_range : T → ℕ → ℕ → Bool
  pub disable : T → W → Outcome (T × W)

module _ {T W : Type 0} (p : IsStoppoint T W) where
  unfoldable pub push : List T → T → List T
  push points t = points ++ (t ∷ [])

  unfoldable pub find_by_id : List T → ℕ → Option T
  find_by_id points n = find (λ t. p.id t == n) points

  unfoldable pub find_by_address : List T → ℕ → Option T
  find_by_address points a = find (λ t. p.at_address t a) points

  abbrev is_some : Option T → Bool
  is_some none = false
  is_some (some t) = true

  unfoldable pub contains_id : List T → ℕ → Bool
  unfolding find_by_id
  contains_id points n = is_some (find_by_id points n)

  unfoldable pub contains_address : List T → ℕ → Bool
  unfolding find_by_address
  contains_address points a = is_some (find_by_address points a)

  unfoldable pub get_by_id : List T → ℕ → Outcome T
  unfolding find_by_id
  get_by_id points n = or_err Error.no_stoppoint_id (find_by_id points n)

  unfoldable pub get_by_address : List T → ℕ → Outcome T
  unfolding find_by_address
  get_by_address points a = or_err Error.no_stoppoint_address (find_by_address points a)

  unfoldable pub enabled_stoppoint_at_address : List T → ℕ → Outcome Bool
  unfolding contains_address get_by_address
  enabled_stoppoint_at_address points a =
      if contains_address points a
      then (get_by_address points a >>= λ t. ok (p.is_enabled t))
      else ok false

  -- `disable` on the first point that passes the test, which is then erased.
  unfoldable pub remove_first : (T → Bool) → List T → W → Outcome (List T × W)
  remove_first test [] w = ok ([], w)
  remove_first test (t ∷ points) w = elim (test t) [
    | true ↦ p.disable t w >>= λ r. ok (points, r.1)
    | false ↦ remove_first test points w >>= λ r. ok (t ∷ r.0, r.1)
  ]

  unfoldable pub remove_by_id : List T → ℕ → W → Outcome (List T × W)
  unfolding remove_first
  remove_by_id points n w = remove_first (λ t. p.id t == n) points w

  unfoldable pub remove_by_address : List T → ℕ → W → Outcome (List T × W)
  unfolding remove_first
  remove_by_address points a w = remove_first (λ t. p.at_address t a) points w

  unfoldable pub get_in_region : List T → ℕ → ℕ → List T
  get_in_region [] low high = []
  get_in_region (t ∷ points) low high =
      let rest = get_in_region points low high in if p.in_range t low high then t ∷ rest else rest
