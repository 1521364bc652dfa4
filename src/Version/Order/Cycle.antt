-- ===== src/Version/Order/Cycle.antt =====
-- Numeric and other segments do not compare by one order: CompareVersions has cycles.
use sandbox_kit_spec.Base.{
  lt, eq, ◌≡◌, refl, ap, ◌∙◌, true, List, [], ◌∷◌, ◌++◌, Text, codes, split, or_else, arith, all,
}
use sandbox_kit_spec.Base.Splitting.{split-append}
use sandbox_kit_spec.Version.Order.{
  is_segment, are_segments, compare_segment, compare_segments, compare_versions, split_version,
  version_pattern,
}
use sandbox_kit_spec.Version.Order.Flip.{compare_segment_self}
use sandbox_kit_spec.Version.Order.Valid.{IsVersionText, split_version-IsVersionText}

compare_segments-prefix :
    (ss : List Text) (x y : Text)
    → compare_segments (ss ++ x ∷ []) (ss ++ y ∷ []) ≡ or_else (compare_segment x y) eq
unfolding compare_segments
compare_segments-prefix [] x y = refl
compare_segments-prefix (s ∷ ss) x y = rw (compare_segment_self s) (compare_segments-prefix ss x y)

are_segments-append :
    (ss : List Text) (x : Text)
    → are_segments ss ≡ true
    → is_segment x ≡ true
    → are_segments (ss ++ x ∷ []) ≡ true
are_segments-append [] x h k = cc
are_segments-append (s ∷ ss) x h k = ground (arith, go ss)
  where
    go : (ts : List Text) → all is_segment ts ≡ true → all is_segment (ts ++ x ∷ []) ≡ true
    go [] e = ground arith
    go (t ∷ ts) e = ground (arith, go ts)

-- A version followed by one more segment.
abbrev pub extend : Text → Text → Text
extend v x = v ++ b'.' ∷ x

module _ (v : Text) (valid : IsVersionText v) where
  module _ (x : Text) (plain : split b'.' x ≡ x ∷ []) (seg : is_segment x ≡ true) where
    pub extend-IsVersionText : IsVersionText (extend v x)
    unfolding version_pattern
    extend-IsVersionText =
        rw (split-append b'.' v x, plain) (are_segments-append (split b'.' v) x valid seg)

    split_version-extend : split_version (extend v x) ≡ split b'.' v ++ x ∷ []
    split_version-extend =
        split_version-IsVersionText (extend v x) extend-IsVersionText
        ∙ split-append b'.' v x
        ∙ ap (λ r. split b'.' v ++ r) plain

module _ (v : Text) (valid : IsVersionText v) where
  pub compare_versions-extend :
      (x y : Text)
      → split b'.' x ≡ x ∷ []
      → split b'.' y ≡ y ∷ []
      → is_segment x ≡ true
      → is_segment y ≡ true
      → compare_versions (extend v x) (extend v y) ≡ or_else (compare_segment x y) eq
  unfolding compare_versions
  compare_versions-extend x y hx hy kx ky =
      rw (split_version-extend v valid x hx kx, split_version-extend v valid y hy ky)
        (compare_segments-prefix (split b'.' v) x y)

  -- Below every version v there is a cycle: v.2 < v.10 < v.1a < v.2.
  pub compare_versions-cycle :
      (compare_versions (extend v (codes "2")) (extend v (codes "10")) ≡ lt)
      × (compare_versions (extend v (codes "10")) (extend v (codes "1a")) ≡ lt)
      × (compare_versions (extend v (codes "1a")) (extend v (codes "2")) ≡ lt)
  unfolding split is_segment compare_segment
  compare_versions-cycle = (
    compare_versions-extend (codes "2") (codes "10") refl refl refl refl,
    compare_versions-extend (codes "10") (codes "1a") refl refl refl refl,
    compare_versions-extend (codes "1a") (codes "2") refl refl refl refl,
  )

  -- Below every version v two spellings that compare equal stand on two sides of a third:
  -- v.01 and v.1 are equal, and v.01 < v.0a < v.1.
  pub compare_versions-split_spelling :
      (compare_versions (extend v (codes "01")) (extend v (codes "1")) ≡ eq)
      × (compare_versions (extend v (codes "01")) (extend v (codes "0a")) ≡ lt)
      × (compare_versions (extend v (codes "0a")) (extend v (codes "1")) ≡ lt)
  unfolding split is_segment compare_segment
  compare_versions-split_spelling = (
    compare_versions-extend (codes "01") (codes "1") refl refl refl refl,
    compare_versions-extend (codes "01") (codes "0a") refl refl refl refl,
    compare_versions-extend (codes "0a") (codes "1") refl refl refl refl,
  )
