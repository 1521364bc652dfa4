-- ===== src/Version/Constraint/Refused.antt =====
-- Constraint sets that checkConstraintsSatisfiable refuses though a version meets them.
use sandbox_kit_spec.Base.{
  Ordering, gt, ◌≡◌, refl, ap, ◌∙◌, true, List, [], ◌∷◌, ◌++◌, Text, codes, split, flip, or_else,
  arith, err, is_ge,
}
use sandbox_kit_spec.Base.Splitting.{split-append}
use sandbox_kit_spec.Version.Order.{
  compare_versions, compare_segments, compare_segment, split_version, version_pattern, all_digits,
  is_segment, are_segments,
}
use sandbox_kit_spec.Version.Order.Digits.{value, compare_digits-value}
use sandbox_kit_spec.Version.Order.Cycle.{extend, extend-IsVersionText, compare_versions-cycle}
use sandbox_kit_spec.Version.Order.Flip.{flip-compare_versions}
use sandbox_kit_spec.Version.Order.Valid.{IsVersionText, split_version-IsVersionText}
use sandbox_kit_spec.Version.Error.{op_gte, op_lte, crossed_bounds}
use sandbox_kit_spec.Version.Constraint.{
  Constraint, all_hold, constraint_holds, check_constraints_satisfiable,
}

segments-above_nil :
    (s : Text) (ss : List Text) → is_segment s ≡ true → compare_segments (s ∷ ss) [] ≡ gt
unfolding compare_segments compare_segment is_segment
segments-above_nil [] ss h = cc
segments-above_nil (c ∷ s) ss h = ground arith

digits-ge-zero : (s : Text) → all_digits s ≡ true → is_ge (compare_segment s (codes "0")) ≡ true
unfolding compare_segment
digits-ge-zero s h =
    rw h (rw (compare_digits-value s (codes "0") h refl) (unfold value in ground arith))

or_else-gt : (p q : Ordering) → is_ge p ≡ true → q ≡ gt → or_else p q ≡ gt
or_else-gt p q h k = ground arith

longer-above_zero :
    (ss : List Text) (x : Text)
    → are_segments ss ≡ true
    → is_segment x ≡ true
    → compare_segments (ss ++ x ∷ []) (codes "0" ∷ []) ≡ gt
unfolding compare_segments
longer-above_zero [] x h k = cc
longer-above_zero (s ∷ []) x h k =
    or_else-gt _ _ (digits-ge-zero s (ground arith)) (segments-above_nil x [] k)
longer-above_zero (s ∷ t ∷ ts) x h k =
    or_else-gt _ _ (digits-ge-zero s (ground arith))
      (segments-above_nil t (ts ++ x ∷ []) (ground arith))

-- ">= v.10, <= v.2"
abbrev pub crossed : Text → List Constraint
crossed v =
    record { op = op_gte; version = extend v (codes "10") }
    ∷ record { op = op_lte; version = extend v (codes "2") }
    ∷ []

module _ (v : Text) (valid : IsVersionText v) where
  ten-above_zero : compare_versions (extend v (codes "10")) (codes "0") ≡ gt
  unfolding compare_versions split is_segment version_pattern split_version
  ten-above_zero =
      ap (λ ss. compare_segments ss (codes "0" ∷ []))
        (split_version-IsVersionText (extend v (codes "10"))
            (extend-IsVersionText v valid (codes "10") refl refl)
          ∙ split-append b'.' v (codes "10"))
      ∙ longer-above_zero (split b'.' v) (codes "10") valid refl

  two-below_ten : compare_versions (extend v (codes "10")) (extend v (codes "2")) ≡ gt
  two-below_ten =
      flip-compare_versions (extend v (codes "2")) (extend v (codes "10"))
      ∙ ap flip (compare_versions-cycle v valid).0

  -- For every version v the constraints ">= v.10, <= v.2" are refused as unsatisfiable, and the
  -- version v.1a meets both.
  pub check_constraints_satisfiable-refuses :
      (check_constraints_satisfiable (crossed v)
        ≡ err (crossed_bounds op_gte (extend v (codes "10")) op_lte (extend v (codes "2"))))
      × IsVersionText (extend v (codes "1a"))
      × (all_hold (extend v (codes "1a")) (crossed v) ≡ true)
  unfolding check_constraints_satisfiable all_hold constraint_holds split is_segment
  check_constraints_satisfiable-refuses = (
    ground (arith, ten-above_zero, two-below_ten),
    extend-IsVersionText v valid (codes "1a") refl refl,
    ground (
      arith,
      (compare_versions-cycle v valid).1,
      (compare_versions-cycle v valid).2,
      flip-compare_versions (extend v (codes "10")) (extend v (codes "1a")),
    ),
  )
