-- ===== src/Overlay/FilePath.antt =====
-- What internal/overlayfs/fs.go uses of Go's package path.
use sandbox_kit_spec.Base.{
  ℕ, Bool, false, ◌||◌, Option, none, some, List, [], ◌∷◌, ◌++◌, reverse, Text, codes, text_eq,
  cut_last, split, join, is_empty, filter, not, if◌then◌else◌, ◌==◌, trim_right,
}

abbrev pub slash : ℕ
slash = b'/'

abbrev pub is_rooted : Text → Bool
is_rooted [] = false
is_rooted (c ∷ p) = c == slash

abbrev pub is_dot : Text → Bool
is_dot seg = is_empty seg || text_eq seg (codes ".")

abbrev pub is_up : Text → Bool
is_up seg = text_eq seg (codes "..")

-- One component, onto the components that are kept, the last one first.
abbrev pub climb : Bool → List Text → List Text
climb rooted [] = if rooted then [] else codes ".." ∷ []
climb rooted (top ∷ kept) = if is_up top then codes ".." ∷ top ∷ kept else kept

abbrev pub keep_component : Bool → List Text → Text → List Text
keep_component rooted kept seg =
    if is_dot seg then kept else if is_up seg then climb rooted kept else seg ∷ kept

unfoldable pub clean_components : Bool → List Text → List Text → List Text
unfolding text_eq
clean_components rooted kept [] = kept
clean_components rooted kept (seg ∷ segs) =
    clean_components rooted (keep_component rooted kept seg) segs

abbrev pub dot_if_empty : Text → Text
dot_if_empty [] = codes "."
dot_if_empty (c ∷ p) = c ∷ p

-- path.Clean
unfoldable pub clean : Text → Text
unfolding clean_components split join
clean p =
    let kept = reverse (clean_components (is_rooted p) [] (split slash p)) in
    if is_rooted p then slash ∷ join (codes "/") kept else dot_if_empty (join (codes "/") kept)

-- path.Split
abbrev pub directory_part : Text → Option (Text × Text) → Text
directory_part p none = []
directory_part p (some (before, after)) = before ++ slash ∷ []

abbrev pub base_part : Text → Option (Text × Text) → Text
base_part p none = p
base_part p (some (before, after)) = after

unfoldable pub split_path : Text → Text × Text
unfolding cut_last
split_path p =
    let parts = cut_last (λ c. c == slash) p in (directory_part p parts, base_part p parts)

-- path.Join of two elements
unfoldable pub join_path : Text → Text → Text
unfolding clean
join_path a b =
    if is_empty a
    then (if is_empty b then [] else clean b)
    else if is_empty b
    then clean a
    else clean (a ++ slash ∷ b)

abbrev pub slash_if_empty : Text → Text
slash_if_empty [] = codes "/"
slash_if_empty (c ∷ p) = c ∷ p

-- path.Base
unfoldable pub base_name : Text → Text
unfolding trim_right split_path
base_name p =
    if is_empty p then codes "." else slash_if_empty (split_path (trim_right (λ c. c == slash) p)).1

-- The components of a cleaned path from the root.
unfoldable pub components : Text → List Text
unfolding split filter
components p = filter (λ seg. not (is_empty seg)) (split slash p)
