-- ===== src/Version/Order.antt =====
-- The order of versions and its canonical spelling: splitVersion, allDigits, compareDigits,
-- CompareVersions, canonicalVersion, nextVersion, versionPattern, parseVersion, IsVersion.
pub mod Digits
pub mod Flip
pub mod Linear
pub mod Valid
pub mod Canonical
pub mod Successor
pub mod Cycle
use sandbox_kit_spec.Base.{
  ℕ, compare, Ordering, lt, eq, gt, Bool, true, false, not, ◌&&◌, ◌||◌, Option, none, some, List,
  [], ◌∷◌, ◌++◌, map, length, all, Text, codes, compare_text, trim_left, trim_space, split, join,
  is_digit, is_lower, is_upper, ◌==◌, if◌then◌else◌, or_else, Ordering,
}

-- strings.Split(v, ".") of the trimmed text; nil where nothing is left.
abbrev split_trimmed : Text → List Text
split_trimmed [] = []
split_trimmed (c ∷ s) = split b'.' (c ∷ s)

unfoldable pub split_version : Text → List Text
unfolding split trim_space
split_version v = split_trimmed (trim_space v)

unfoldable pub all_digits : Text → Bool
unfolding is_digit
all_digits [] = false
all_digits (c ∷ s) = all is_digit (c ∷ s)

abbrev pub is_zero : ℕ → Bool
is_zero c = c == b'0'

abbrev pub compare_trimmed : Text → Text → Ordering
compare_trimmed a b = or_else (compare (length a) (length b)) (compare_text a b)

unfoldable pub compare_digits : Text → Text → Ordering
unfolding trim_left compare_text
compare_digits a b = compare_trimmed (trim_left is_zero a) (trim_left is_zero b)

-- One round of the loop of CompareVersions.
unfoldable pub compare_segment : Text → Text → Ordering
unfolding all_digits compare_digits compare_text
compare_segment a b = if all_digits a && all_digits b then compare_digits a b else compare_text a b

-- The loop: the shorter list is padded by empty segments.
unfoldable pub compare_segments : List Text → List Text → Ordering
unfolding compare_segment
compare_segments [] [] = eq
compare_segments [] (b ∷ bs) = or_else (compare_segment [] b) (compare_segments [] bs)
compare_segments (a ∷ as') [] = or_else (compare_segment a []) (compare_segments as' [])
compare_segments (a ∷ as') (b ∷ bs) = or_else (compare_segment a b) (compare_segments as' bs)

unfoldable pub compare_versions : Text → Text → Ordering
unfolding split_version compare_segments
compare_versions a b = compare_segments (split_version a) (split_version b)

abbrev pub or_zero : Text → Text
or_zero [] = b'0' ∷ []
or_zero (c ∷ s) = c ∷ s

unfoldable pub canonical_segment : Text → Text
unfolding all_digits trim_left
canonical_segment s = if all_digits s then or_zero (trim_left is_zero s) else s

unfoldable pub canonical_version : Text → Text
unfolding split_version canonical_segment join
canonical_version v = join (b'.' ∷ []) (map canonical_segment (split_version v))

abbrev pub version_successor_suffix : Text
version_successor_suffix = b'.' ∷ b'-' ∷ []

unfoldable pub next_version : Text → Text
next_version v = v ++ version_successor_suffix

unfoldable pub is_segment_char : ℕ → Bool
unfolding is_digit is_lower is_upper
is_segment_char c = is_digit c || is_upper c || is_lower c || (c == b'-')

unfoldable pub is_segment : Text → Bool
unfolding is_segment_char
is_segment [] = false
is_segment (c ∷ s) = all is_segment_char (c ∷ s)

-- `^[0-9]+(\.[0-9A-Za-z-]+)*$`, read segment by segment.
abbrev pub are_segments : List Text → Bool
are_segments [] = false
are_segments (first ∷ rest) = all_digits first && all is_segment rest

unfoldable pub version_pattern : Text → Bool
unfolding split all_digits is_segment
version_pattern v = are_segments (split b'.' v)

-- `none` is the error "invalid version".
unfoldable pub parse_version : Text → Option Text
unfolding trim_space version_pattern
parse_version v =
    let trimmed = trim_space v in if version_pattern trimmed then some trimmed else none

abbrev pub is_some {ℓ} : {A : Type ℓ} → Option A → Bool
is_some none = false
is_some (some a) = true

unfoldable pub is_version : Text → Bool
unfolding parse_version
is_version s = is_some (parse_version s)
