-- ===== src/Report/Words.antt =====
-- tck/report/render.go: wrap, with columns, and strings.Fields as it uses it.
use sandbox_kit_spec.Base.{
  ℕ, ◌+◌, Bool, true, false, List, [], ◌∷◌, ◌++◌, length, Text, codes, contains, split, is_space,
  is_empty, leb, if◌then◌else◌,
}

-- columns: a text is its code points.
abbrev pub columns : Text → ℕ
columns s = length s

-- strings.Fields: the words between the white space.
abbrev pub add_word : Text → List Text → List Text
add_word [] words = words
add_word (c ∷ word) words = (c ∷ word) ∷ words

abbrev pub next_fields : Bool → ℕ → List Text × Text → List Text × Text
next_fields true c (words, word) = (add_word word words, [])
next_fields false c (words, word) = (words, c ∷ word)

unfoldable pub fields_from : Text → List Text × Text
unfolding is_space
fields_from [] = ([], [])
fields_from (c ∷ s) = next_fields (is_space c) c (fields_from s)

-- The text ends the last word as a space does.
unfoldable pub fields : Text → List Text
unfolding fields_from
fields s = (next_fields true 32 (fields_from s)).0

-- A word onto the line, or the line is done.
abbrev pub fits : ℕ → Text → Text → Bool
fits width line word = leb (columns line + 1 + columns word) width

abbrev pub with_word : Text → Text → Text
with_word line word = line ++ (codes " " ++ word)

-- The loop of wrap, with the line that is being filled.
unfoldable pub wrap_words : ℕ → Text → List Text → List Text
wrap_words width line [] = line ∷ []
wrap_words width [] (word ∷ words) = wrap_words width word words
wrap_words width (c ∷ line) (word ∷ words) =
    let same = wrap_words width (with_word (c ∷ line) word) words in
    let next = wrap_words width word words in
    if fits width (c ∷ line) word then same else (c ∷ line) ∷ next

abbrev pub newline : ℕ
newline = 10

-- wrap
unfoldable pub wrap : Text → ℕ → List Text
unfolding wrap_words fields contains split
wrap text width =
    if contains newline text
    then split newline text
    else if is_empty text
    then []
    else wrap_words width [] (fields text)
