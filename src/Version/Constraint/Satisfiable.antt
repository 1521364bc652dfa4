-- ===== src/Version/Constraint/Satisfiable.antt =====
-- checkConstraintsSatisfiable decides whether some version meets all the constraints, where the
-- order is linear; where it is not, the check refuses sets that a version meets.
use sandbox_kit_spec.Base.{
  ◌≡◌, refl, sym, ◌∙◌, true, false, List, Option, none, some, Text, arith, Result, ok, err, ◌>>=◌,
}
use sandbox_kit_spec.Version.Error.{Error}
use sandbox_kit_spec.Version.Constraint.{
  Constraint, all_hold, collect_pin, floor, narrow, effective_lo, check_pinned,
  check_constraints_satisfiable,
}
use sandbox_kit_spec.Version.Constraint.Coherent.{IsPoint, HavePoints}
use sandbox_kit_spec.Version.Constraint.Range.{
  is_within, HasNoPin, narrow-HasPoints, narrow-within, floor-HasPoints, floor-within,
  effective_lo-IsPoint, check_range-ok, check_range-err,
}
use sandbox_kit_spec.Version.Constraint.Pins.{
  collect_pin-none, collect_pin-IsPoint, collect_pin-meets, collect_pin-err, check_pin-ok,
  check_pin-err, all_hold-same,
}

-- The version that shows the constraints satisfiable: the pin, or the least within the bounds.
abbrev choose : List Constraint → Option Text → Text
choose cs (some pin) = pin
choose cs none = effective_lo (narrow floor cs)

within-all_hold :
    (w : Text) (cs : List Constraint)
    → IsPoint w
    → HavePoints cs
    → HasNoPin cs
    → is_within (narrow floor cs) w ≡ all_hold w cs
within-all_hold w cs hw h p =
    narrow-within w cs floor hw h p floor-HasPoints ∙ rw (floor-within w hw)

pinned-ok :
    (cs : List Constraint) (pin : Option Text)
    → HavePoints cs
    → collect_pin none cs ≡ ok pin
    → check_pinned cs pin ≡ ok tt
    → IsPoint (choose cs pin) × (all_hold (choose cs pin) cs ≡ true)
pinned-ok cs (some pin) h e k = (collect_pin-IsPoint cs none h tt e, check_pin-ok pin cs k)
pinned-ok cs none h e k =
    let points = narrow-HasPoints cs floor h floor-HasPoints in
    let point = effective_lo-IsPoint (narrow floor cs) points in
    (
      point,
      sym (within-all_hold _ cs point h (collect_pin-none cs e))
          ∙ check_range-ok (narrow floor cs) points k,
    )

-- Where every version of the constraints has segments that are digit strings or the mark "-", and
-- the check passes: a version of that kind meets all of them.
pub check_constraints_satisfiable-ok :
    (cs : List Constraint)
    → HavePoints cs
    → check_constraints_satisfiable cs ≡ ok tt
    → (w : Text) × IsPoint w × (all_hold w cs ≡ true)
unfolding check_constraints_satisfiable
check_constraints_satisfiable-ok cs h k = go (collect_pin none cs) refl k
  where
    go :
        (r : Result Error (Option Text))
        → collect_pin none cs ≡ r
        → (r >>= check_pinned cs) ≡ ok tt
        → (w : Text) × IsPoint w × (all_hold w cs ≡ true)
    go (ok pin) e k' = let (p, a) = pinned-ok cs pin h e k' in (choose cs pin, p, a)
    go (err x) e k' = cc

pinned-err :
    (w : Text) (cs : List Constraint) (pin : Option Text) {e : Error}
    → IsPoint w
    → HavePoints cs
    → collect_pin none cs ≡ ok pin
    → check_pinned cs pin ≡ err e
    → all_hold w cs ≡ false
pinned-err w cs (some pin) hw h e k = ground (
  arith,
  collect_pin-meets w cs none e,
  all_hold-same w pin cs hw (collect_pin-IsPoint cs none h tt e) h,
  check_pin-err pin cs k,
)
pinned-err w cs none hw h e k =
    sym (within-all_hold w cs hw h (collect_pin-none cs e))
    ∙ check_range-err (narrow floor cs) w (narrow-HasPoints cs floor h floor-HasPoints) hw k

-- Where every version of the constraints has segments that are digit strings or the mark "-", and
-- the check refuses: no version of that kind meets all of them.
pub check_constraints_satisfiable-err :
    (w : Text) (cs : List Constraint) {e : Error}
    → IsPoint w
    → HavePoints cs
    → check_constraints_satisfiable cs ≡ err e
    → all_hold w cs ≡ false
unfolding check_constraints_satisfiable
check_constraints_satisfiable-err w cs hw h k = go (collect_pin none cs) refl k
  where
    go :
        (r : Result Error (Option Text)) {e : Error}
        → collect_pin none cs ≡ r
        → (r >>= check_pinned cs) ≡ err e
        → all_hold w cs ≡ false
    go (ok pin) e k' = pinned-err w cs pin hw h e k'
    go (err x) e k' = collect_pin-err w cs none hw h tt e
