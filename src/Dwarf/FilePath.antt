-- ===== src/Dwarf/FilePath.antt =====
-- `std::filesystem::path` as far as the line table uses it, on POSIX: a path is its bytes.
use gsdb.Common.{ℕ, ◌-◌, Bool, true, false, List, [], ◌∷◌, ◌++◌, ◌==◌, if◌then◌else◌}
use gsdb.Common.{drop, length, ltb, ◌&&◌, not, ◌||◌}

abbrev slash : ℕ
slash = b'/'

abbrev pub is_absolute : List ℕ → Bool
is_absolute [] = false
is_absolute (c ∷ path) = c == slash

-- Whether `operator/` puts a separator behind the left path.
abbrev has_filename : List ℕ → Bool
has_filename [] = false
has_filename (c ∷ []) = not (c == slash)
has_filename (c ∷ path) = has_filename path

-- `lhs / rhs`.
unfoldable pub join : List ℕ → List ℕ → List ℕ
join lhs rhs =
    if is_absolute rhs then rhs else if has_filename lhs then lhs ++ (slash ∷ rhs) else lhs ++ rhs

-- The names between separators; a run of separators counts as one.
unfoldable pub names : List ℕ → List ℕ → List (List ℕ)
names [] [] = []
names (n ∷ name) [] = (n ∷ name) ∷ []
names name (c ∷ path) =
    let here = names (name ++ (c ∷ [])) path in
    let next = names [] path in if c == slash then flush name next else here
  where
    flush : List ℕ → List (List ℕ) → List (List ℕ)
    flush [] rest = rest
    flush (n ∷ name) rest = (n ∷ name) ∷ rest

-- What iterating over a path gives: the root separator, the names, and an empty element for a
-- separator behind the last name.
unfoldable pub elements : List ℕ → List (List ℕ)
unfolding names
elements path =
    let root = if is_absolute path then (slash ∷ []) ∷ [] else [] in
    let trailing = if has_filename path || none_of (names [] path) then [] else [] ∷ [] in
    root ++ (names [] path ++ trailing)
  where
    none_of : List (List ℕ) → Bool
    none_of [] = true
    none_of (n ∷ ns) = false

-- `std::equal` on two ranges of elements.
unfoldable pub same_text : List ℕ → List ℕ → Bool
same_text [] [] = true
same_text [] (b ∷ bs) = false
same_text (a ∷ as') [] = false
same_text (a ∷ as') (b ∷ bs) = a == b && same_text as' bs

unfoldable pub same_elements : List (List ℕ) → List (List ℕ) → Bool
unfolding same_text
same_elements [] [] = true
same_elements [] (b ∷ bs) = false
same_elements (a ∷ as') [] = false
same_elements (a ∷ as') (b ∷ bs) = same_text a b && same_elements as' bs

-- `path_ends_in`.
unfoldable pub path_ends_in : List ℕ → List ℕ → Bool
unfolding same_elements elements
path_ends_in lhs rhs =
    let left = elements lhs in
    let right = elements rhs in
    if ltb (length left) (length right)
    then false
    else same_elements (drop (length left - length right) left) right
