-- ===== src/Speclink/Headings.antt =====
-- tck/speclink/speclink.go: what a page's line says: a heading's title and section number, its anchor, and
-- the statement that a comment marks.
use sandbox_kit_spec.Base.{
  ℕ, Bool, not, ◌||◌, Option, none, some, [], ◌∷◌, length, all, Text, codes, has_prefix, cut_prefix,
  cut, cut_suffix, trim_left, trim_space, ◌==◌, if◌then◌else◌,
}

-- unicode.IsLetter, unicode.IsDigit and strings.ToLower of a character
pub record Unicode : Type 0 where
  pub is_letter : ℕ → Bool
  pub is_digit : ℕ → Bool
  pub to_lower : ℕ → ℕ

-- strings.Cut at a text
abbrev cut_here : ℕ → Option Text → Option (Text × Text) → Option (Text × Text)
cut_here c (some after) later = some ([], after)
cut_here c none none = none
cut_here c none (some (before, after)) = some (c ∷ before, after)

unfoldable pub cut_at : Text → Text → Option (Text × Text)
unfolding cut_prefix
cut_at sep [] = none
cut_at sep (c ∷ s) = cut_here c (cut_prefix sep (c ∷ s)) (cut_at sep s)

abbrev pub before_cut : Text → Option (Text × Text) → Text
before_cut s none = s
before_cut s (some (before, after)) = before

abbrev pub after_cut : Option (Text × Text) → Text
after_cut none = []
after_cut (some (before, after)) = after

-- headingTitle
unfoldable pub heading_title : Text → Option Text
unfolding trim_left trim_space has_prefix
heading_title line =
    let trimmed = trim_left (λ c. c == b'#') line in
    if (length trimmed == length line) || not (has_prefix (codes " ") trimmed)
    then none
    else some (trim_space trimmed)

-- statementID
abbrev closed_id : Option (Text × Text) → Option Text
closed_id none = none
closed_id (some (id, rest)) = some (trim_space id)

abbrev opened_id : Option (Text × Text) → Option Text
opened_id none = none
opened_id (some (before, rest)) = closed_id (cut_at (codes " -->") rest)

unfoldable pub statement_id : Text → Option Text
unfolding cut_at trim_space
statement_id line = opened_id (cut_at (codes "<!-- tck: ") line)

abbrev without_suffix : Text → Option Text → Text
without_suffix s none = s
without_suffix s (some before) = before

abbrev numbered : Unicode → Text → Option Text
numbered u [] = none
numbered u (c ∷ number) =
    if all (λ d. u.is_digit d || d == b'.') (c ∷ number) then some (c ∷ number) else none

-- sectionNumber
unfoldable pub section_number : Unicode → Text → Option Text
unfolding cut cut_suffix
section_number u title =
    let number = before_cut title (cut 32 title) in
    numbered u (without_suffix number (cut_suffix (codes ".") number))

-- slug
abbrev slug_char : Unicode → ℕ → Text → Text
slug_char u c rest =
    if u.is_letter c || u.is_digit c || c == b'-' || c == b'_'
    then c ∷ rest
    else if c == 32
    then b'-' ∷ rest
    else rest

unfoldable pub slug : Unicode → Text → Text
slug u [] = []
slug u (c ∷ s) = slug_char u (u.to_lower c) (slug u s)
