-- ===== src/Version/Constraint/Coherent.antt =====
-- What the results of three comparisons say of one another where CompareVersions is linear.
use sandbox_kit_spec.Base.{
  ℕ, suc, split, Ordering, lt, eq, gt, ◌≡◌, refl, sym, ap, ◌∙◌, Bool, true, false, ◌&&◌, List, [],
  ◌∷◌, map, All, Text, codes, flip, is_le, is_ge, is_gt, arith,
}
use sandbox_kit_spec.Version.Order.{
  compare_versions, split_version, next_version, version_pattern, all_digits, are_segments,
}
use sandbox_kit_spec.Version.Order.Digits.{value}
use sandbox_kit_spec.Version.Order.Flip.{flip-compare_versions, compare_versions_self}
use sandbox_kit_spec.Version.Order.Valid.{
  IsVersionText, next-IsVersionText, split_version-IsVersionText,
}
use sandbox_kit_spec.Version.Order.Linear.{
  IsLinear, point, rank, compare_points, compare_versions-points, compare_versions_trans,
  next-IsLinear,
}
use sandbox_kit_spec.Version.Order.Successor.{next_version-least}
use sandbox_kit_spec.Version.Constraint.{Constraint}

-- A version each of whose segments is a string of digits or the mark "-": the class on which the
-- order is linear.
abbrev pub IsPoint : Text → Type 0
IsPoint v = IsVersionText v × IsLinear v

abbrev pub HavePoints : List Constraint → Type 0
HavePoints cs = All (λ c. IsPoint c.version) cs

pub next-IsPoint : (v : Text) → IsPoint v → IsPoint (next_version v)
next-IsPoint v h = (next-IsVersionText v h.0, next-IsLinear v h.0 h.1)

abbrev implies : Bool → Bool → Bool
implies true b = b
implies false b = true

-- p compares x with y, q compares y with z, and r compares x with z.
unfoldable pub coherent : Ordering → Ordering → Ordering → Bool
coherent p q r =
    implies (is_le p && is_le q) (is_le r)
    && implies (is_ge p && is_ge q) (is_ge r)
    && implies (is_ge p && is_le r) (is_le q)
    && implies (is_le p && is_ge r) (is_ge q)
    && implies (is_le r && is_ge q) (is_le p)
    && implies (is_ge r && is_le q) (is_ge p)

is_le-flip : (o : Ordering) → is_le (flip o) ≡ is_ge o
is_le-flip lt = refl
is_le-flip eq = refl
is_le-flip gt = refl

le-flip : (x y : Text) → is_le (compare_versions y x) ≡ is_ge (compare_versions x y)
le-flip x y = rw (flip-compare_versions x y) (is_le-flip (compare_versions x y))

pub compare_versions-coherent :
    (x y z : Text)
    → IsPoint x
    → IsPoint y
    → IsPoint z
    → coherent (compare_versions x y) (compare_versions y z) (compare_versions x z) ≡ true
unfolding coherent
compare_versions-coherent x y z (_, hx) (_, hy) (_, hz) = ground (
  arith,
  compare_versions_trans x y z hx hy hz,
  compare_versions_trans z y x hz hy hx,
  compare_versions_trans y x z hy hx hz,
  compare_versions_trans z x y hz hx hy,
  compare_versions_trans x z y hx hz hy,
  compare_versions_trans y z x hy hz hx,
  le-flip x y,
  le-flip y z,
  le-flip x z,
)

-- A version above lo, seen from the next version of lo.
pub next-ge :
    (lo w : Text)
    → IsVersionText lo
    → IsVersionText w
    → is_ge (compare_versions w (next_version lo)) ≡ is_gt (compare_versions w lo)
next-ge lo w h k = ground (
  arith,
  next_version-least lo w h k,
  flip-compare_versions lo w,
  flip-compare_versions (next_version lo) w,
)

pub next-gt : (v : Text) → IsVersionText v → is_gt (compare_versions (next_version v) v) ≡ true
next-gt v h =
    sym (next-ge v (next_version v) h (next-IsVersionText v h))
    ∙ ap is_ge (compare_versions_self (next_version v))

abbrev zero_version : Text
zero_version = codes "0"

pub zero-IsPoint : IsPoint zero_version
unfolding version_pattern split_version
zero-IsPoint = (refl, (refl, tt))

nil-le-points : (xs : List ℕ) → is_ge (compare_points xs []) ≡ true
unfolding compare_points
nil-le-points [] = refl
nil-le-points (x ∷ xs) = refl

point-zero : point zero_version ≡ 1 ∷ []
unfolding point split_version rank value all_digits
point-zero = refl

ge-one : (n : ℕ) (xs : List ℕ) → is_ge (compare_points (suc n ∷ xs) (1 ∷ [])) ≡ true
unfolding compare_points
ge-one n xs = ground (arith, nil-le-points xs)

points-ge-one :
    (ss : List Text) → are_segments ss ≡ true → is_ge (compare_points (map rank ss) (1 ∷ [])) ≡ true
points-ge-one [] e = cc
points-ge-one (s ∷ ss) e =
    let digits : all_digits s ≡ true = ground arith in
    let first : rank s ≡ suc (value s) = unfold rank in rw digits in
    rw first (ge-one (value s) (map rank ss))

-- No version lies below "0".
pub zero-least : (w : Text) → IsPoint w → is_ge (compare_versions w zero_version) ≡ true
unfolding version_pattern
zero-least w (h, k) =
    let segments : point w ≡ map rank (split b'.' w) =
      unfold point in ap (map rank) (split_version-IsVersionText w h) in
    rw (compare_versions-points w zero_version k zero-IsPoint.1, point-zero, segments)
      (points-ge-one (split b'.' w) h)
