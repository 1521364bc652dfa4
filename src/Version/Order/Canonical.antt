-- ===== src/Version/Order/Canonical.antt =====
-- canonicalVersion gives two spellings of one version one rendering.
use mathlib.Core.Logic.{◌≢◌}
use sandbox_kit_spec.Base.{
  ℕ, Ordering, eq, ◌≡◌, refl, ap, ap₂, sym, ◌∙◌, true, false, ◌&&◌, List, [], ◌∷◌, ◌↔◌, map, length,
  Text, All, all, or_else, arith, trim_left, is_digit, compare_text-eq-eq, compare_text_self,
  compare_self, join, split, contains, ◌==◌, Bool-cases, inl, inr,
}
use sandbox_kit_spec.Base.Splitting.{split-join, split-ne-nil}
use sandbox_kit_spec.Version.Order.{
  all_digits, is_zero, is_segment, is_segment_char, are_segments, compare_trimmed, compare_digits,
  compare_segment, compare_segments, compare_versions, split_version, canonical_segment,
  canonical_version, or_zero, version_pattern,
}
use sandbox_kit_spec.Version.Order.Digits.{all_digits-all, all-trim, IsStripped, trim-IsStripped}
use sandbox_kit_spec.Version.Order.Flip.{compare_segment_self}
use sandbox_kit_spec.Version.Order.Valid.{
  IsVersionText, AreSegments, segments_of, split_version-IsVersionText, is_segment-digits,
}

or_zero-injective : (s t : Text) → IsStripped s → IsStripped t → or_zero s ≡ or_zero t → s ≡ t
or_zero-injective [] [] h k e = refl
or_zero-injective [] (d ∷ t) h k e = ground arith
or_zero-injective (c ∷ s) [] h k e = ground arith
or_zero-injective (c ∷ s) (d ∷ t) h k e = e

or_zero-digits : (s : Text) → all is_digit s ≡ true → all_digits (or_zero s) ≡ true
unfolding all_digits
or_zero-digits [] h = refl
or_zero-digits (c ∷ s) h = h

compare_trimmed-eq : (s t : Text) → compare_trimmed s t ≡ eq → s ≡ t
compare_trimmed-eq s t h = ground (arith, compare_text-eq-eq s t)

-- A canonical segment is a digit string exactly if the segment is.
all_digits-canonical : (s : Text) → all_digits (canonical_segment s) ≡ all_digits s
unfolding canonical_segment
all_digits-canonical s = elim (Bool-cases (all_digits s)) [
  | inl h ↦ rw h (or_zero-digits (trim_left is_zero s) (all-trim s (all_digits-all s h)))
  | inr h ↦ rw (h) h
]

compare_segment-digits :
    (s t : Text)
    → all_digits s ≡ true
    → all_digits t ≡ true
    → (compare_segment s t ≡ eq) ↔ (canonical_segment s ≡ canonical_segment t)
unfolding compare_segment canonical_segment compare_digits
compare_segment-digits s t h k =
    let s' = trim_left is_zero s in
    let t' = trim_left is_zero t in
    rw (h, k)
      (
        λ e. ap or_zero (compare_trimmed-eq s' t' e),
        λ e.
            rw (or_zero-injective s' t' (trim-IsStripped s) (trim-IsStripped t) e)
              (rw (compare_self (length t'), compare_text_self t')),
      )

compare_segment-other :
    (s t : Text) → (all_digits s && all_digits t) ≡ false → (compare_segment s t ≡ eq) → s ≡ t
unfolding compare_segment
compare_segment-other s t h e = ground (arith, compare_text-eq-eq s t)

canonical_segment-other : (s : Text) → all_digits s ≡ false → canonical_segment s ≡ s
unfolding canonical_segment
canonical_segment-other s h = rw h

canonical-ne :
    (s t : Text)
    → (all_digits s && all_digits t) ≡ false
    → canonical_segment s ≡ canonical_segment t
    → s ≡ t
canonical-ne s t h e = ground (
  arith,
  all_digits-canonical s,
  all_digits-canonical t,
  ap all_digits e,
  canonical_segment-other s,
  canonical_segment-other t,
)

pub compare_segment-eq_iff :
    (s t : Text) → (compare_segment s t ≡ eq) ↔ (canonical_segment s ≡ canonical_segment t)
compare_segment-eq_iff s t = elim (Bool-cases (all_digits s && all_digits t)) [
  | inl h ↦ compare_segment-digits s t (ground arith) (ground arith)
  | inr h ↦ (
    λ e. ap canonical_segment (compare_segment-other s t h e),
    λ e. rw (canonical-ne s t h e) (compare_segment_self t),
  )
]

-- The empty segment, which pads the shorter version, differs from every segment.
nil-ne-segment : (s : Text) → is_segment s ≡ true → compare_segment [] s ≢ eq
unfolding compare_segment is_segment
nil-ne-segment [] h = cc
nil-ne-segment (c ∷ s) h = cc

segment-ne-nil : (s : Text) → is_segment s ≡ true → compare_segment s [] ≢ eq
unfolding compare_segment is_segment
segment-ne-nil [] h = cc
segment-ne-nil (c ∷ s) h = ground arith

or_else-eq : (p q : Ordering) → or_else p q ≡ eq → (p ≡ eq) × (q ≡ eq)
or_else-eq p q h = ground arith

cons-injective : {s t : Text} {ss ts : List Text} → s ∷ ss ≡ t ∷ ts → (s ≡ t) × (ss ≡ ts)
cons-injective e = (cc, cc)

compare_segments-eq_iff :
    (ss ts : List Text)
    → AreSegments ss
    → AreSegments ts
    → (compare_segments ss ts ≡ eq) ↔ (map canonical_segment ss ≡ map canonical_segment ts)
unfolding compare_segments
compare_segments-eq_iff [] [] h k = (λ e. refl, λ e. refl)
compare_segments-eq_iff [] (t ∷ ts) h k =
    (λ e. absurd (nil-ne-segment t k.0 (or_else-eq _ _ e).0), λ e. cc)
compare_segments-eq_iff (s ∷ ss) [] h k =
    (λ e. absurd (segment-ne-nil s h.0 (or_else-eq _ _ e).0), λ e. cc)
compare_segments-eq_iff (s ∷ ss) (t ∷ ts) h k =
    let head = compare_segment-eq_iff s t in
    let rest = compare_segments-eq_iff ss ts h.1 k.1 in
    (
      λ e. ap₂ ◌∷◌ (head.0 (or_else-eq _ _ e).0) (rest.0 (or_else-eq _ _ e).1),
      λ e. rw (head.1 (cons-injective e).0) (rest.1 (cons-injective e).1),
    )

no_dot : (s : Text) → is_segment s ≡ true → contains b'.' s ≡ false
unfolding is_segment contains
no_dot [] h = refl
no_dot (c ∷ s) h = go (c ∷ s) h
  where
    char : (d : ℕ) → is_segment_char d ≡ true → (d == b'.') ≡ false
    char d k = unfold is_segment_char in ground arith

    go : (t : Text) → all is_segment_char t ≡ true → contains b'.' t ≡ false
    go [] k = refl
    go (d ∷ t) k = ground (arith, go t, char d)

canonical_segment-segment :
    (s : Text) → is_segment s ≡ true → is_segment (canonical_segment s) ≡ true
canonical_segment-segment s h = elim (Bool-cases (all_digits s)) [
  | inl k ↦ is_segment-digits (canonical_segment s) (all_digits-canonical s ∙ k)
  | inr k ↦ rw (canonical_segment-other s k) h
]

canonical-no_dot :
    (ss : List Text)
    → AreSegments ss
    → All (λ t. contains b'.' t ≡ false) (map canonical_segment ss)
canonical-no_dot [] h = tt
canonical-no_dot (s ∷ ss) h =
    (no_dot (canonical_segment s) (canonical_segment-segment s h.0), canonical-no_dot ss h.1)

map-ne-nil : (ss : List Text) → ss ≢ [] → map canonical_segment ss ≢ []
map-ne-nil [] h = h
map-ne-nil (s ∷ ss) h = λ e. cc

split-canonical :
    (v : Text)
    → IsVersionText v
    → split b'.' (canonical_version v) ≡ map canonical_segment (split_version v)
unfolding canonical_version
split-canonical v h =
    split-join b'.' (map canonical_segment (split_version v))
      (map-ne-nil (split_version v) (rw (split_version-IsVersionText v h) (split-ne-nil b'.' v)))
      (canonical-no_dot (split_version v) (segments_of v h))

-- Two versions compare equal exactly if their canonical spellings are the same text.
pub compare_versions-eq_iff :
    (a b : Text)
    → IsVersionText a
    → IsVersionText b
    → (compare_versions a b ≡ eq) ↔ (canonical_version a ≡ canonical_version b)
unfolding compare_versions
compare_versions-eq_iff a b h k =
    let same =
      compare_segments-eq_iff (split_version a) (split_version b) (segments_of a h)
        (segments_of b k) in
    (
      λ e. unfold canonical_version in ap (join (b'.' ∷ [])) (same.0 e),
      λ e. same.1 (sym (split-canonical a h) ∙ ap (split b'.') e ∙ split-canonical b k),
    )

are_segments-canonical :
    (ss : List Text) → are_segments ss ≡ true → are_segments (map canonical_segment ss) ≡ true
are_segments-canonical [] h = h
are_segments-canonical (s ∷ ss) h = rw (all_digits-canonical s) (ground (arith, go ss))
  where
    go :
        (ts : List Text)
        → all is_segment ts ≡ true
        → all is_segment (map canonical_segment ts) ≡ true
    go [] k = refl
    go (t ∷ ts) k = ground (arith, go ts, canonical_segment-segment t)

pub canonical-IsVersionText : (v : Text) → IsVersionText v → IsVersionText (canonical_version v)
unfolding version_pattern
canonical-IsVersionText v h =
    rw (split-canonical v h, split_version-IsVersionText v h)
      (are_segments-canonical (split b'.' v) h)

or_zero-trim : (s : Text) → IsStripped s → or_zero (trim_left is_zero (or_zero s)) ≡ or_zero s
unfolding trim_left
or_zero-trim [] h = refl
or_zero-trim (c ∷ s) h = rw h

canonical_segment_idem : (s : Text) → canonical_segment (canonical_segment s) ≡ canonical_segment s
unfolding canonical_segment
canonical_segment_idem s = elim (Bool-cases (all_digits s)) [
  | inl h ↦
      rw (h, or_zero-digits (trim_left is_zero s) (all-trim s (all_digits-all s h)))
        (or_zero-trim (trim_left is_zero s) (trim-IsStripped s))
  | inr h ↦ rw (h, h) refl
]

map-canonical_idem :
    (ss : List Text) → map canonical_segment (map canonical_segment ss) ≡ map canonical_segment ss
map-canonical_idem [] = refl
map-canonical_idem (s ∷ ss) = ap₂ ◌∷◌ (canonical_segment_idem s) (map-canonical_idem ss)

canonical_version_idem :
    (v : Text) → IsVersionText v → canonical_version (canonical_version v) ≡ canonical_version v
canonical_version_idem v h =
    let c = canonical_version v in
    let segs = split_version-IsVersionText c (canonical-IsVersionText v h) ∙ split-canonical v h in
    unfold canonical_version in
    ap (join (b'.' ∷ [])) (ap (map canonical_segment) segs ∙ map-canonical_idem (split_version v))

-- The canonical spelling of a version is a version, and it compares equal to the version.
pub compare_versions-canonical :
    (v : Text)
    → IsVersionText v
    → IsVersionText (canonical_version v) × (compare_versions v (canonical_version v) ≡ eq)
compare_versions-canonical v h = (
  canonical-IsVersionText v h,
  (compare_versions-eq_iff v (canonical_version v) h (canonical-IsVersionText v h)).1
      (sym (canonical_version_idem v h)),
)
