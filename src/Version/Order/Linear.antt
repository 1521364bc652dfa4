-- ===== src/Version/Order/Linear.antt =====
-- CompareVersions on versions whose segments are digit strings or the successor mark "-", against
-- the lexicographic order of lists of numbers.
use sandbox_kit_spec.Base.{
  ℕ, suc, compare, Ordering, lt, eq, gt, ◌≡◌, refl, ap₂, ◌∙◌, Bool, true, ◌||◌, List, [], ◌∷◌, map,
  Text, All, All-append, compare_text, text_eq, text_eq_iff, if◌then◌else◌, or_else, is_le, arith,
  Bool-cases, inl, inr,
}
use sandbox_kit_spec.Version.Order.{
  all_digits, compare_segment, compare_segments, compare_versions, split_version, next_version,
}
use sandbox_kit_spec.Version.Order.Digits.{value, compare_digits-value}
use sandbox_kit_spec.Version.Order.Valid.{IsVersionText, split-next}

abbrev dash : Text
dash = b'-' ∷ []

-- A digit string or "-".
abbrev pub is_linear_segment : Text → Bool
is_linear_segment s = all_digits s || text_eq s (b'-' ∷ [])

abbrev pub AreLinear : List Text → Type 0
AreLinear segs = All (λ s. is_linear_segment s ≡ true) segs

-- Every segment is a digit string or the mark "-", as in a numeric version or its next version.
abbrev pub IsLinear : Text → Type 0
IsLinear v = AreLinear (split_version v)

-- The place of a segment: the mark first, then the numbers.
unfoldable pub rank : Text → ℕ
rank s = if all_digits s then suc (value s) else 0

-- The numbers that a version names.
unfoldable pub point : Text → List ℕ
point v = map rank (split_version v)

-- Lexicographic order: a proper prefix comes first.
unfoldable pub compare_points : List ℕ → List ℕ → Ordering
compare_points [] [] = eq
compare_points [] (y ∷ ys) = lt
compare_points (x ∷ xs) [] = gt
compare_points (x ∷ xs) (y ∷ ys) = or_else (compare x y) (compare_points xs ys)

dash-digits : (t : Text) → all_digits t ≡ true → compare_text dash t ≡ lt
unfolding all_digits compare_text
dash-digits [] h = cc
dash-digits (c ∷ t) h = ground arith

digits-dash : (t : Text) → all_digits t ≡ true → compare_text t dash ≡ gt
unfolding all_digits compare_text
digits-dash [] h = cc
digits-dash (c ∷ t) h = ground arith

compare_segment-rank :
    (s t : Text)
    → is_linear_segment s ≡ true
    → is_linear_segment t ≡ true
    → compare_segment s t ≡ compare (rank s) (rank t)
unfolding compare_segment rank
compare_segment-rank s t h k = elim (Bool-cases (all_digits s)) [
  | inl ds ↦ elim (Bool-cases (all_digits t)) [
    | inl dt ↦ rw (ds, dt) (compare_digits-value s t ds dt ∙ ground arith)
    | inr dt ↦
        let e : t ≡ dash = (text_eq_iff t dash).0 (ground arith) in
        rw (ds, dt, e) (digits-dash s ds ∙ ground arith)
  ]
  | inr ds ↦
      let e : s ≡ dash = (text_eq_iff s dash).0 (ground arith) in
      elim (Bool-cases (all_digits t)) [
        | inl dt ↦ rw (ds, dt, e) (dash-digits t dt ∙ ground arith)
        | inr dt ↦
            let e' : t ≡ dash = (text_eq_iff t dash).0 (ground arith) in
            rw (ds, dt, e, e') (unfold compare_text in refl)
      ]
]

compare_segment-nil_left : (t : Text) → is_linear_segment t ≡ true → compare_segment [] t ≡ lt
unfolding compare_segment text_eq
compare_segment-nil_left [] h = cc
compare_segment-nil_left (c ∷ t) h = refl

compare_segment-nil_right : (t : Text) → is_linear_segment t ≡ true → compare_segment t [] ≡ gt
unfolding compare_segment text_eq
compare_segment-nil_right [] h = cc
compare_segment-nil_right (c ∷ t) h = ground arith

compare_segments-points :
    (ss ts : List Text)
    → AreLinear ss
    → AreLinear ts
    → compare_segments ss ts ≡ compare_points (map rank ss) (map rank ts)
unfolding compare_segments compare_points
compare_segments-points [] [] h k = refl
compare_segments-points [] (t ∷ ts) h k = rw (compare_segment-nil_left t k.0)
compare_segments-points (s ∷ ss) [] h k = rw (compare_segment-nil_right s h.0)
compare_segments-points (s ∷ ss) (t ∷ ts) h k =
    ap₂ or_else (compare_segment-rank s t h.0 k.0) (compare_segments-points ss ts h.1 k.1)

-- On versions whose segments are digit strings or "-", CompareVersions is the lexicographic
-- comparison of the numbers that the segments name, whatever their length and leading zeros.
pub compare_versions-points :
    (a b : Text)
    → IsLinear a
    → IsLinear b
    → compare_versions a b ≡ compare_points (point a) (point b)
unfolding compare_versions point
compare_versions-points a b h k = compare_segments-points (split_version a) (split_version b) h k

compare_points_trans :
    (xs ys zs : List ℕ)
    → is_le (compare_points xs ys) ≡ true
    → is_le (compare_points ys zs) ≡ true
    → is_le (compare_points xs zs) ≡ true
unfolding compare_points
compare_points_trans [] ys [] h k = refl
compare_points_trans [] ys (z ∷ zs) h k = refl
compare_points_trans (x ∷ xs) [] zs h k = cc
compare_points_trans (x ∷ xs) (y ∷ ys) [] h k = cc
compare_points_trans (x ∷ xs) (y ∷ ys) (z ∷ zs) h k = ground (arith, compare_points_trans xs ys zs)

-- On such versions "not above" is transitive.
pub compare_versions_trans :
    (a b c : Text)
    → IsLinear a
    → IsLinear b
    → IsLinear c
    → is_le (compare_versions a b) ≡ true
    → is_le (compare_versions b c) ≡ true
    → is_le (compare_versions a c) ≡ true
compare_versions_trans a b c ha hb hc =
    rw
      (
        compare_versions-points a b ha hb,
        compare_versions-points b c hb hc,
        compare_versions-points a c ha hc,
      )
      (compare_points_trans (point a) (point b) (point c))

-- The class is closed under next_version.
pub next-IsLinear : (v : Text) → IsVersionText v → IsLinear v → IsLinear (next_version v)
unfolding text_eq all_digits
next-IsLinear v h k =
    rw (split-next v h)
      (All-append (λ s. is_linear_segment s ≡ true) (split_version v) (dash ∷ []) k (refl, tt))
