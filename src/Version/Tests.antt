-- ===== src/Version/Tests.antt =====
-- The theorems on spec/version.go at concrete inputs, and runs of its functions.
use sandbox_kit_spec.Base.{
  ◌≡◌, refl, ◌↔◌, lt, eq, gt, true, false, List, [], ◌∷◌, Text, codes, is_lt, is_le, err, compare,
  contains,
}
use sandbox_kit_spec.Version.Order.{
  all_digits, compare_digits, compare_versions, split_version, canonical_version, next_version,
  version_pattern,
}
use sandbox_kit_spec.Version.Order.Digits.{value, compare_digits-value}
use sandbox_kit_spec.Version.Order.Linear.{
  point, compare_points, compare_versions-points, compare_versions_trans,
}
use sandbox_kit_spec.Version.Order.Valid.{IsVersionText}
use sandbox_kit_spec.Version.Order.Canonical.{compare_versions-eq_iff}
use sandbox_kit_spec.Version.Order.Successor.{next_version-least}
use sandbox_kit_spec.Version.Order.Cycle.{
  extend, compare_versions-cycle, compare_versions-split_spelling,
}
use sandbox_kit_spec.Version.Error.{
  op_gte, op_gt, op_lte, op_lt, crossed_bounds, requires_entry, constraint_version, invalid_version,
  single_label,
}
use sandbox_kit_spec.Version.Name.{
  valid_capability_name, check_capability_name, normalize_capability_name, display_capability_name,
}
use sandbox_kit_spec.Version.Name.Normal.{normalize-display}
use sandbox_kit_spec.Version.Constraint.{
  Constraint, Require, satisfies, all_hold, check_constraints_satisfiable, simplify_constraints,
}
use sandbox_kit_spec.Version.Constraint.Coherent.{IsPoint}
use sandbox_kit_spec.Version.Constraint.Satisfiable.{
  check_constraints_satisfiable-ok, check_constraints_satisfiable-err,
}
use sandbox_kit_spec.Version.Constraint.Simplify.{simplify_constraints-all_hold}
use sandbox_kit_spec.Version.Constraint.Refused.{crossed, check_constraints_satisfiable-refuses}
use sandbox_kit_spec.Version.Require.{parse_require, parse_constraints, canonical_require}
use sandbox_kit_spec.Version.Require.Fuel.{Ends}
use sandbox_kit_spec.Version.Require.Accepted.{
  IsAccepted, IsRequire, parse_constraints-Ends, parse_require-IsRequire,
}
use sandbox_kit_spec.Version.Package.{package_version}
use sandbox_kit_spec.Version.Tag.{latest_version}

-- ">= 1.2, < 2.0"
abbrev between : List Constraint
between =
    record { op = op_gte; version = codes "1.2" }
    ∷ record { op = op_lt; version = codes "2.0" }
    ∷ []

-- "> 3, < 2"
abbrev empty_range : List Constraint
empty_range =
    record { op = op_gt; version = codes "3" } ∷ record { op = op_lt; version = codes "2" } ∷ []

check_constraints_satisfiable-ok_example : (w : Text) × IsPoint w × (all_hold w between ≡ true)
unfolding check_constraints_satisfiable version_pattern split_version
check_constraints_satisfiable-ok_example =
    check_constraints_satisfiable-ok between
      ((refl, (refl, (refl, tt))), ((refl, (refl, (refl, tt))), tt)) refl

check_constraints_satisfiable-err_example : all_hold (codes "2.5") empty_range ≡ false
unfolding check_constraints_satisfiable version_pattern split_version
check_constraints_satisfiable-err_example =
    check_constraints_satisfiable-err (codes "2.5") empty_range
      {e = crossed_bounds op_gt (codes "3") op_lt (codes "2")} (refl, (refl, (refl, tt)))
      ((refl, (refl, tt)), ((refl, (refl, tt)), tt)) refl

simplify_constraints-all_hold_example :
    all_hold (codes "1.10") (simplify_constraints between) ≡ all_hold (codes "1.10") between
unfolding check_constraints_satisfiable version_pattern split_version
simplify_constraints-all_hold_example =
    simplify_constraints-all_hold (codes "1.10") between (refl, (refl, (refl, tt)))
      ((refl, (refl, (refl, tt))), ((refl, (refl, (refl, tt))), tt)) refl

compare_versions-points_example :
    compare_versions (codes "1.010") (codes "1.9")
    ≡ compare_points (point (codes "1.010")) (point (codes "1.9"))
unfolding split_version all_digits
compare_versions-points_example =
    compare_versions-points (codes "1.010") (codes "1.9") (refl, (refl, tt)) (refl, (refl, tt))

compare_versions_trans_example : is_le (compare_versions (codes "1.2") (codes "2")) ≡ true
unfolding compare_versions split_version
compare_versions_trans_example =
    compare_versions_trans (codes "1.2") (codes "1.10") (codes "2") (refl, (refl, tt))
      (refl, (refl, tt)) (refl, tt) refl refl

compare_versions-eq_iff_example :
    (compare_versions (codes "1.07") (codes "01.7") ≡ eq)
    ↔ (canonical_version (codes "1.07") ≡ canonical_version (codes "01.7"))
unfolding version_pattern
compare_versions-eq_iff_example = compare_versions-eq_iff (codes "1.07") (codes "01.7") refl refl

next_version-least_example :
    is_lt (compare_versions (codes "1.0") (codes "1.0.a"))
    ≡ is_le (compare_versions (next_version (codes "1.0")) (codes "1.0.a"))
unfolding version_pattern
next_version-least_example = next_version-least (codes "1.0") (codes "1.0.a") refl refl

compare_digits-value_example :
    compare_digits (codes "99999999999999999999") (codes "100000000000000000000")
    ≡ compare (value (codes "99999999999999999999")) (value (codes "100000000000000000000"))
unfolding all_digits
compare_digits-value_example =
    compare_digits-value (codes "99999999999999999999") (codes "100000000000000000000") refl refl

compare_versions-cycle_example :
    (compare_versions (extend (codes "1") (codes "2")) (extend (codes "1") (codes "10")) ≡ lt)
    × (compare_versions (extend (codes "1") (codes "10")) (extend (codes "1") (codes "1a")) ≡ lt)
    × (compare_versions (extend (codes "1") (codes "1a")) (extend (codes "1") (codes "2")) ≡ lt)
unfolding version_pattern
compare_versions-cycle_example = compare_versions-cycle (codes "1") refl

compare_versions-split_spelling_example :
    (compare_versions (extend (codes "1") (codes "01")) (extend (codes "1") (codes "1")) ≡ eq)
    × (compare_versions (extend (codes "1") (codes "01")) (extend (codes "1") (codes "0a")) ≡ lt)
    × (compare_versions (extend (codes "1") (codes "0a")) (extend (codes "1") (codes "1")) ≡ lt)
unfolding version_pattern
compare_versions-split_spelling_example = compare_versions-split_spelling (codes "1") refl

check_constraints_satisfiable-refuses_example :
    (check_constraints_satisfiable (crossed (codes "1"))
      ≡ err (crossed_bounds op_gte (codes "1.10") op_lte (codes "1.2")))
    × IsVersionText (codes "1.1a")
    × (all_hold (codes "1.1a") (crossed (codes "1")) ≡ true)
unfolding version_pattern
check_constraints_satisfiable-refuses_example =
    check_constraints_satisfiable-refuses (codes "1") refl

normalize-display_example :
    (normalize_capability_name
        (display_capability_name (normalize_capability_name (codes "com.docker.kit/gh")))
      ≡ normalize_capability_name (codes "com.docker.kit/gh"))
    × (contains b'/' (codes "com.docker.kit/gh") ≡ false
        → display_capability_name (normalize_capability_name (codes "com.docker.kit/gh"))
          ≡ codes "com.docker.kit/gh")
unfolding valid_capability_name
normalize-display_example = normalize-display (codes "com.docker.kit/gh") refl

parse_constraints-Ends_example : Ends IsAccepted (parse_constraints (codes ">= 1.0, < 2"))
parse_constraints-Ends_example = parse_constraints-Ends (codes ">= 1.0, < 2")

-- "gh >=1.0"
abbrev gh_from_one : Require
gh_from_one = record {
  name = codes "com.docker.kit/gh";
  constraints = record { op = op_gte; version = codes "1.0" } ∷ [];
}

parse_require-IsRequire_example : IsRequire gh_from_one
unfolding parse_require
parse_require-IsRequire_example = parse_require-IsRequire (codes " gh >=1.0 ") gh_from_one refl

-- Runs that the program's own tests state.
numeric_order : compare_versions (codes "1.10.0") (codes "1.9.0") ≡ gt
unfolding compare_versions
numeric_order = refl

longer_is_above : compare_versions (codes "1") (codes "1.0") ≡ lt
unfolding compare_versions
longer_is_above = refl

spellings_agree :
    canonical_require gh_from_one
    ≡ canonical_require (record {
      name = codes "com.docker.kit/gh";
      constraints =
          record { op = op_gte; version = codes "0.9" }
          ∷ record { op = op_gte; version = codes "01.0" }
          ∷ [];
    })
unfolding canonical_require
spellings_agree = refl

unversioned_meets_nothing :
    satisfies (record { name = codes "com.docker.kit/gh"; version = [] }) gh_from_one ≡ false
unfolding satisfies
unversioned_meets_nothing = refl

single_label_is_reserved :
    check_capability_name (codes "foo/gh")
    ≡ err (single_label (codes "foo") (codes "foo/gh") (codes "gh"))
unfolding check_capability_name
single_label_is_reserved = refl

leading_v_is_refused :
    parse_require (codes "gh >= v1")
    ≡ err (
        requires_entry
          (codes "gh >= v1")
          (constraint_version op_gte (invalid_version (codes "v1"))))
unfolding parse_require
leading_v_is_refused = refl

rebuild_is_dropped : package_version (codes "1:9.20.26-1~deb13u1") ≡ codes "9.20.26"
unfolding package_version
rebuild_is_dropped = refl

candidate_has_no_version : package_version (codes "2.0~rc1-1") ≡ []
unfolding package_version
candidate_has_no_version = refl

leading_zero_is_kept : package_version (codes "1.07.1-4") ≡ codes "1.07.1"
unfolding package_version
leading_zero_is_kept = refl

latest_is_spelled_as_tagged :
    latest_version (codes "latest" ∷ codes "1.9" ∷ codes "v1.10" ∷ []) ≡ codes "v1.10"
unfolding latest_version
latest_is_spelled_as_tagged = refl
