-- ===== src/Version/Order/Flip.antt =====
-- Exchanging the arguments of CompareVersions negates its result.
use sandbox_kit_spec.Base.{
  compare, Ordering, eq, ◌≡◌, refl, sym, List, [], ◌∷◌, length, Text, compare_text, trim_left,
  or_else, flip, flip-or_else, flip-compare, flip-compare_text, compare_text_self, arith,
}
use sandbox_kit_spec.Version.Order.{
  is_zero, compare_digits, compare_segment, compare_segments, compare_versions, split_version,
}

flip-compare_digits : (a b : Text) → compare_digits b a ≡ flip (compare_digits a b)
unfolding compare_digits
flip-compare_digits a b =
    let s = trim_left is_zero a in
    let t = trim_left is_zero b in
    rw (flip-compare (length s) (length t), flip-compare_text s t)
      (sym (flip-or_else (compare (length s) (length t)) (compare_text s t)))

pub flip-compare_segment : (a b : Text) → compare_segment b a ≡ flip (compare_segment a b)
unfolding compare_segment
flip-compare_segment a b = ground (arith, flip-compare_digits a b, flip-compare_text a b)

flip-or : (p q r s : Ordering) → q ≡ flip p → s ≡ flip r → or_else q s ≡ flip (or_else p r)
flip-or p q r s h k = rw (h, k) (sym (flip-or_else p r))

pub flip-compare_segments : (a b : List Text) → compare_segments b a ≡ flip (compare_segments a b)
unfolding compare_segments
flip-compare_segments [] [] = refl
flip-compare_segments [] (t ∷ ts) =
    flip-or _ _ _ _ (flip-compare_segment [] t) (flip-compare_segments [] ts)
flip-compare_segments (s ∷ ss) [] =
    flip-or _ _ _ _ (flip-compare_segment s []) (flip-compare_segments ss [])
flip-compare_segments (s ∷ ss) (t ∷ ts) =
    flip-or _ _ _ _ (flip-compare_segment s t) (flip-compare_segments ss ts)

-- For all texts: comparing b with a gives 1, 0 or -1 where comparing a with b gives -1, 0 or 1.
pub flip-compare_versions : (a b : Text) → compare_versions b a ≡ flip (compare_versions a b)
unfolding compare_versions
flip-compare_versions a b = flip-compare_segments (split_version a) (split_version b)

pub compare_segment_self : (a : Text) → compare_segment a a ≡ eq
unfolding compare_segment compare_digits
compare_segment_self a =
    ground (arith, compare_text_self a, compare_text_self (trim_left is_zero a))

pub compare_segments_self : (a : List Text) → compare_segments a a ≡ eq
unfolding compare_segments
compare_segments_self [] = refl
compare_segments_self (s ∷ ss) = rw (compare_segment_self s) (compare_segments_self ss)

pub compare_versions_self : (a : Text) → compare_versions a a ≡ eq
unfolding compare_versions
compare_versions_self a = compare_segments_self (split_version a)
