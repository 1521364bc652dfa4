-- ===== src/Version/Order/Valid.antt =====
-- What the version pattern says of a text: it has no white space, and its segments are the pieces
-- between the dots.
use mathlib.Core.Logic.{◌≢◌}
use sandbox_kit_spec.Base.{
  ℕ, Bool, true, not, ◌≡◌, refl, ap, ◌∙◌, List, [], ◌∷◌, ◌++◌, All, all, Text, split, is_space,
  is_digit, trim_space, arith, some,
}
use sandbox_kit_spec.Base.Splitting.{join-split, all-join, HasNoSpace, trim_space-id, split-append}
use sandbox_kit_spec.Version.Order.{
  split_trimmed, split_version, all_digits, is_segment_char, is_segment, are_segments,
  version_pattern, parse_version, next_version,
}

abbrev pub IsVersionText : Text → Type 0
IsVersionText v = version_pattern v ≡ true

abbrev pub AreSegments : List Text → Type 0
AreSegments segs = All (λ s. is_segment s ≡ true) segs

pub is_segment-digits : (s : Text) → all_digits s ≡ true → is_segment s ≡ true
unfolding all_digits is_segment
is_segment-digits [] h = h
is_segment-digits (c ∷ s) h = go (c ∷ s) h
  where
    go : (t : Text) → all is_digit t ≡ true → all is_segment_char t ≡ true
    go [] k = refl
    go (d ∷ t) k = ground (arith, go t)

All_of_all : (segs : List Text) → all is_segment segs ≡ true → AreSegments segs
All_of_all [] h = tt
All_of_all (s ∷ ss) h = (ground arith, All_of_all ss (ground arith))

pub are_segments-AreSegments : (segs : List Text) → are_segments segs ≡ true → AreSegments segs
are_segments-AreSegments [] h = tt
are_segments-AreSegments (s ∷ ss) h =
    (is_segment-digits s (ground arith), All_of_all ss (ground arith))

is_plain : ℕ → Bool
is_plain c = not (is_space c)

plain_of_segment : (s : Text) → is_segment s ≡ true → HasNoSpace s
unfolding is_segment
plain_of_segment [] h = refl
plain_of_segment (c ∷ s) h = go (c ∷ s) h
  where
    char : (d : ℕ) → is_segment_char d ≡ true → not (is_space d) ≡ true
    char d k = unfold is_space is_segment_char in ground arith

    go : (t : Text) → all is_segment_char t ≡ true → HasNoSpace t
    go [] k = refl
    go (d ∷ t) k = ground (arith, go t, char d)

plain_of_segments : (segs : List Text) → AreSegments segs → All HasNoSpace segs
plain_of_segments [] h = tt
plain_of_segments (s ∷ ss) h = (plain_of_segment s h.0, plain_of_segments ss h.1)

pub IsVersionText-HasNoSpace : (v : Text) → IsVersionText v → HasNoSpace v
unfolding version_pattern
IsVersionText-HasNoSpace v h =
    let segs = split b'.' v in
    rw (← join-split b'.' v) (
      all-join (λ c. not (is_space c)) b'.' segs (unfold is_space in refl)
        (plain_of_segments segs (are_segments-AreSegments segs h)))

split_trimmed_ne : (v : Text) → v ≢ [] → split_trimmed v ≡ split b'.' v
split_trimmed_ne [] h = absurd (h refl)
split_trimmed_ne (c ∷ v) h = refl

IsVersionText-ne-nil : (v : Text) → IsVersionText v → v ≢ []
unfolding version_pattern
IsVersionText-ne-nil [] h = λ e. cc
IsVersionText-ne-nil (c ∷ v) h = λ e. cc

pub trim-IsVersionText : (v : Text) → IsVersionText v → trim_space v ≡ v
trim-IsVersionText v h = trim_space-id v (IsVersionText-HasNoSpace v h)

pub split_version-IsVersionText : (v : Text) → IsVersionText v → split_version v ≡ split b'.' v
unfolding split_version
split_version-IsVersionText v h =
    ap split_trimmed (trim-IsVersionText v h) ∙ split_trimmed_ne v (IsVersionText-ne-nil v h)

pub segments_of : (v : Text) → IsVersionText v → AreSegments (split_version v)
unfolding version_pattern
segments_of v h = rw (split_version-IsVersionText v h) (are_segments-AreSegments (split b'.' v) h)

-- Appending a segment to a version gives a version.
pub next-IsVersionText : (v : Text) → IsVersionText v → IsVersionText (next_version v)
unfolding version_pattern next_version is_segment
next-IsVersionText v h = rw (split-append b'.' v (b'-' ∷ [])) (go (split b'.' v) h)
  where
    more :
        (ss : List Text) → all is_segment ss ≡ true → all is_segment (ss ++ (b'-' ∷ []) ∷ []) ≡ true
    more [] k = refl
    more (s ∷ ss) k = ground (arith, more ss)

    go : (ss : List Text) → are_segments ss ≡ true → are_segments (ss ++ (b'-' ∷ []) ∷ []) ≡ true
    go [] k = cc
    go (s ∷ ss) k = ground (arith, more ss)

pub split-next :
    (v : Text)
    → IsVersionText v
    → split_version (next_version v) ≡ split_version v ++ (b'-' ∷ []) ∷ []
split-next v h =
    rw
      (
        split_version-IsVersionText v h,
        split_version-IsVersionText (next_version v) (next-IsVersionText v h),
      )
      (unfold next_version split in split-append b'.' v (b'-' ∷ []))

-- What parse_version returns is a version.
pub parse_version-IsVersionText : (s : Text) {v : Text} → parse_version s ≡ some v → IsVersionText v
unfolding parse_version
parse_version-IsVersionText s h = ground arith

-- A version is parsed to itself.
pub parse_version_self : (v : Text) → IsVersionText v → parse_version v ≡ some v
unfolding parse_version
parse_version_self v h = rw (trim-IsVersionText v h, h)
