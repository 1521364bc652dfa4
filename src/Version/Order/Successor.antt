-- ===== src/Version/Order/Successor.antt =====
-- nextVersion names the least version above a version.
use sandbox_kit_spec.Base.{lt, gt, ◌≡◌, refl, true, List, [], ◌∷◌, ◌++◌, Text, is_le, is_lt, arith}
use sandbox_kit_spec.Version.Order.{
  is_segment, compare_segment, compare_segments, compare_versions, split_version, next_version,
}
use sandbox_kit_spec.Version.Order.Valid.{IsVersionText, AreSegments, segments_of, split-next}

abbrev dash : Text
dash = b'-' ∷ []

compare_segment-nil_segment : (t : Text) → is_segment t ≡ true → compare_segment [] t ≡ lt
unfolding compare_segment is_segment
compare_segment-nil_segment [] h = cc
compare_segment-nil_segment (c ∷ t) h = refl

compare_segment-segment_nil : (t : Text) → is_segment t ≡ true → compare_segment t [] ≡ gt
unfolding compare_segment is_segment
compare_segment-segment_nil [] h = cc
compare_segment-segment_nil (c ∷ t) h = ground arith

-- "-" is the least segment.
dash-le : (t : Text) → is_segment t ≡ true → is_le (compare_segment dash t) ≡ true
unfolding compare_segment is_segment
dash-le [] h = cc
dash-le (c ∷ []) h = ground arith
dash-le (c ∷ d ∷ t) h = ground arith

nil-le : (ts : List Text) → AreSegments ts → is_le (compare_segments [] ts) ≡ true
unfolding compare_segments
nil-le [] h = refl
nil-le (t ∷ ts) h = rw (compare_segment-nil_segment t h.0)

-- Nothing lies between the segments v and the segments v, "-".
successor_segments :
    (v w : List Text)
    → AreSegments v
    → AreSegments w
    → is_lt (compare_segments v w) ≡ is_le (compare_segments (v ++ dash ∷ []) w)
unfolding compare_segments
successor_segments [] [] h k = unfold compare_segment in refl
successor_segments [] (t ∷ ts) h k =
    ground (arith, compare_segment-nil_segment t k.0, dash-le t k.0, nil-le ts k.1)
successor_segments (s ∷ ss) [] h k = rw (compare_segment-segment_nil s h.0)
successor_segments (s ∷ ss) (t ∷ ts) h k = ground (arith, successor_segments ss ts h.1 k.1)

-- For versions v and w: w is above v exactly if it is not below the next version of v, so that
-- "> v" and ">= next(v)" admit the same versions, and "< next(v)" and "<= v" too.
pub next_version-least :
    (v w : Text)
    → IsVersionText v
    → IsVersionText w
    → is_lt (compare_versions v w) ≡ is_le (compare_versions (next_version v) w)
unfolding compare_versions
next_version-least v w h k =
    rw (split-next v h)
      (successor_segments (split_version v) (split_version w) (segments_of v h) (segments_of w k))
