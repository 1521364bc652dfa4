-- ===== src/Report/Wrapped.antt =====
-- tck/report/render.go: wrap keeps the words of a text and their order, and keeps to the width.
use sandbox_kit_spec.Base.{
  ℕ, ◌≡◌, ◌≢◌, refl, sym, ap, length-append, ◌∙◌, Bool, true, false, not, ◌||◌, List, [], ◌∷◌, ◌++◌,
  append_assoc, all, Text, codes, join, contains, split, is_space, is_empty, leb, if◌then◌else◌,
  arith, ◌==◌,
}
use sandbox_kit_spec.Report.Words.{
  columns, next_fields, fields_from, fields, fits, with_word, wrap_words, newline, wrap,
}

abbrev pub spaced : List Text → Text
spaced ws = join (codes " ") ws

spaced-with_word :
    (line word : Text) (words : List Text)
    → spaced (with_word line word ∷ words) ≡ spaced (line ∷ word ∷ words)
unfolding join
spaced-with_word line word [] = refl
spaced-with_word line word (w ∷ words) = append_assoc line (32 ∷ word) (32 ∷ spaced (w ∷ words))

wrap_words-ne-nil : (width : ℕ) (line : Text) (words : List Text) → wrap_words width line words ≢ []
unfolding wrap_words
wrap_words-ne-nil width line [] = λ e. cc
wrap_words-ne-nil width [] (word ∷ words) = wrap_words-ne-nil width word words
wrap_words-ne-nil width (c ∷ line) (word ∷ words) =
    by_fit (fits width (c ∷ line) word) (wrap_words-ne-nil width (with_word (c ∷ line) word) words)
  where
    by_fit :
        (b : Bool)
        → wrap_words width (with_word (c ∷ line) word) words ≢ []
        → (if b
            then wrap_words width (with_word (c ∷ line) word) words
            else (c ∷ line) ∷ wrap_words width word words)
          ≢ []
    by_fit true h = h
    by_fit false h = λ e. cc

spaced-cons :
    (line : Text) (lines : List Text)
    → lines ≢ []
    → spaced (line ∷ lines) ≡ with_word line (spaced lines)
unfolding join
spaced-cons line [] h = absurd (h refl)
spaced-cons line (l ∷ lines) h = refl

abbrev is_word : Text → Bool
is_word w = not (is_empty w)

spaced-wrap_words :
    (width c : ℕ) (line : Text) (words : List Text)
    → all is_word words ≡ true
    → spaced (wrap_words width (c ∷ line) words) ≡ spaced ((c ∷ line) ∷ words)
unfolding wrap_words
spaced-wrap_words width c line [] h = refl
spaced-wrap_words width c line ([] ∷ words) h = cc
spaced-wrap_words width c line ((d ∷ word) ∷ words) h =
    by_fit (fits width (c ∷ line) (d ∷ word))
      (spaced-wrap_words width c (line ++ (codes " " ++ d ∷ word)) words h)
      (spaced-wrap_words width d word words h)
  where
    by_fit :
        (b : Bool)
        → spaced (wrap_words width (with_word (c ∷ line) (d ∷ word)) words)
          ≡ spaced (with_word (c ∷ line) (d ∷ word) ∷ words)
        → spaced (wrap_words width (d ∷ word) words) ≡ spaced ((d ∷ word) ∷ words)
        → spaced (
            if b
            then wrap_words width (with_word (c ∷ line) (d ∷ word)) words
            else (c ∷ line) ∷ wrap_words width (d ∷ word) words)
          ≡ spaced ((c ∷ line) ∷ (d ∷ word) ∷ words)
    by_fit true same next = same ∙ spaced-with_word (c ∷ line) (d ∷ word) words
    by_fit false same next =
        spaced-cons (c ∷ line) (wrap_words width (d ∷ word) words)
          (wrap_words-ne-nil width (d ∷ word) words)
        ∙ ap (λ t. with_word (c ∷ line) t) next
        ∙ sym (spaced-cons (c ∷ line) ((d ∷ word) ∷ words) (λ e. cc))

-- A line within the width, or a word alone: it has no space.
abbrev pub is_within : ℕ → Text → Bool
is_within width line = leb (columns line) width || not (contains 32 line)

all-wrap_words :
    (width : ℕ) (line : Text) (words : List Text)
    → is_within width line ≡ true
    → all (λ w. not (contains 32 w)) words ≡ true
    → all (is_within width) (wrap_words width line words) ≡ true
unfolding wrap_words
all-wrap_words width line [] h k = ground arith
all-wrap_words width [] (word ∷ words) h k =
    all-wrap_words width word words (ground arith) (ground arith)
all-wrap_words width (c ∷ line) (word ∷ words) h k =
    by_fit (fits width (c ∷ line) word) refl
      (λ fit. all-wrap_words width (with_word (c ∷ line) word) words fit (ground arith))
      (all-wrap_words width word words (ground arith) (ground arith))
  where
    by_fit :
        (b : Bool)
        → fits width (c ∷ line) word ≡ b
        → (is_within width (with_word (c ∷ line) word) ≡ true
            → all (is_within width) (wrap_words width (with_word (c ∷ line) word) words) ≡ true)
        → all (is_within width) (wrap_words width word words) ≡ true
        → all (is_within width) (
            if b
            then wrap_words width (with_word (c ∷ line) word) words
            else (c ∷ line) ∷ wrap_words width word words)
          ≡ true
    by_fit true e same next = same (ground (arith, length-append line (32 ∷ word)))
    by_fit false e same next = ground arith

-- The words of a text are not empty and have no space.
abbrev AreWords : List Text × Text → Type 0
AreWords (words, word) =
    (all is_word words ≡ true)
    × (all (λ w. not (contains 32 w)) words ≡ true)
    × (contains 32 word ≡ false)

next_fields-AreWords :
    (b : Bool) (c : ℕ) (p : List Text × Text)
    → (b ≡ false → (c == 32) ≡ false)
    → AreWords p
    → AreWords (next_fields b c p)
unfolding contains
next_fields-AreWords true c (words, []) e h = h
next_fields-AreWords true c (words, d ∷ word) e (h, k, l) = (h, ground arith, refl)
next_fields-AreWords false c (words, word) e (h, k, l) = (h, k, ground (arith, e refl))

is_space-32 : (c : ℕ) → is_space c ≡ false → (c == 32) ≡ false
unfolding is_space
is_space-32 c h = ground arith

fields_from-AreWords : (s : Text) → AreWords (fields_from s)
unfolding fields_from contains
fields_from-AreWords [] = (refl, refl, refl)
fields_from-AreWords (c ∷ s) =
    next_fields-AreWords (is_space c) c (fields_from s) (is_space-32 c) (fields_from-AreWords s)

fields-AreWords : (s : Text) → AreWords (fields s, [])
unfolding fields contains
fields-AreWords s =
    let (h, k, l) =
      next_fields-AreWords true 32 (fields_from s) (λ e. cc) (fields_from-AreWords s) in
    (h, k, refl)

abbrev IsWrapped : ℕ → List Text → List Text → Type 0
IsWrapped width words lines = (spaced lines ≡ spaced words) × (all (is_within width) lines ≡ true)

wrap_words-IsWrapped :
    (width : ℕ) (words : List Text)
    → AreWords (words, [])
    → IsWrapped width words (wrap_words width [] words)
unfolding wrap_words join contains
wrap_words-IsWrapped width [] a = (refl, ground arith)
wrap_words-IsWrapped width ([] ∷ words) (h, k, l) = cc
wrap_words-IsWrapped width ((c ∷ word) ∷ words) (h, k, l) = (
  spaced-wrap_words width c word words h,
  all-wrap_words width (c ∷ word) words (ground arith) (ground arith),
)

-- The lines of a text without a line break are its words in their order with a space between any two,
-- and each line has at most the width's columns or has no space.
pub wrap-fields :
    (text : Text) (width : ℕ)
    → contains newline text ≡ false
    → (spaced (wrap text width) ≡ spaced (fields text))
      × (all (is_within width) (wrap text width) ≡ true)
unfolding wrap fields
wrap-fields [] width h = (refl, refl)
wrap-fields (c ∷ text) width h =
    by_break (contains newline (c ∷ text)) h
      (wrap_words-IsWrapped width (fields (c ∷ text)) (fields-AreWords (c ∷ text)))
  where
    by_break :
        (b : Bool)
        → b ≡ false
        → IsWrapped width (fields (c ∷ text)) (wrap_words width [] (fields (c ∷ text)))
        → IsWrapped width
            (fields (c ∷ text))
            (if b then split newline (c ∷ text) else wrap_words width [] (fields (c ∷ text)))
    by_break true e w = cc
    by_break false e w = w
