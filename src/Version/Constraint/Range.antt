-- ===== src/Version/Constraint/Range.antt =====
-- The loop over the bounds keeps exactly what the constraints say, and check_range decides whether
-- anything lies between the bounds.
use sandbox_kit_spec.Base.{
  ◌≡◌, refl, sym, ap, ◌∙◌, Bool, true, false, ◌&&◌, List, [], ◌∷◌, Option, none, some, All, Text,
  is_ge, if◌then◌else◌, arith, Bool-cases, inl, inr, ok, err,
}
use sandbox_kit_spec.Version.Order.{compare_versions}
use sandbox_kit_spec.Version.Order.Flip.{compare_versions_self}
use sandbox_kit_spec.Version.Error.{ConstraintOp, op_gte, op_gt, op_lte, op_lt, op_eq, Error}
use sandbox_kit_spec.Version.Constraint.{
  Constraint, op_holds, constraint_holds, all_hold, is_pin, Limits, narrow_lo, narrow_hi, narrow_op,
  narrow, floor, lo_op, hi_op, effective_lo, check_hi, check_range, is_tighter,
}
use sandbox_kit_spec.Version.Constraint.Coherent.{
  IsPoint, HavePoints, coherent, compare_versions-coherent, next-ge, next-IsPoint, zero-IsPoint,
  zero-least,
}

abbrev above : Text → Bool → Text → Bool
above lo exclusive w = op_holds (lo_op exclusive) (compare_versions w lo)

abbrev below : Option (Text × Bool) → Text → Bool
below none w = true
below (some (hi, exclusive)) w = op_holds (hi_op exclusive) (compare_versions w hi)

-- w lies within the limits.
abbrev pub is_within : Limits → Text → Bool
is_within r w = above r.lo_version r.lo_exclusive w && below r.hi w

abbrev HiIsPoint : Option (Text × Bool) → Type 0
HiIsPoint none = Unit
HiIsPoint (some (hi, exclusive)) = IsPoint hi

abbrev pub HasPoints : Limits → Type 0
HasPoints r = IsPoint r.lo_version × HiIsPoint r.hi

module _ (w : Text) (hw : IsPoint w) where
  narrow_lo-within :
      (v : Text) (e : Bool) (r : Limits)
      → IsPoint v
      → HasPoints r
      → is_within (narrow_lo v e r) w ≡ (is_within r w && op_holds (lo_op e) (compare_versions w v))
  unfolding coherent
  narrow_lo-within v e r hv (hl, hh) =
      ground (arith, compare_versions-coherent w v r.lo_version hw hv hl)

  below-tighter :
      (v : Text) (e : Bool) (hi : Option (Text × Bool))
      → IsPoint v
      → HiIsPoint hi
      → below (if is_tighter v e hi then some (v, e) else hi) w
        ≡ (below hi w && op_holds (hi_op e) (compare_versions w v))
  unfolding coherent
  below-tighter v e none hv hh = refl
  below-tighter v e (some (hi, f)) hv hh = ground (arith, compare_versions-coherent w v hi hw hv hh)

  narrow_hi-within :
      (v : Text) (e : Bool) (r : Limits)
      → IsPoint v
      → HasPoints r
      → is_within (narrow_hi v e r) w ≡ (is_within r w && op_holds (hi_op e) (compare_versions w v))
  narrow_hi-within v e r hv (hl, hh) = elim (Bool-cases (is_tighter v e r.hi)) [
    | inl t ↦ rw t (ground (arith, below-tighter v e r.hi hv hh))
    | inr t ↦ rw t (ground (arith, below-tighter v e r.hi hv hh))
  ]

  narrow_op-within :
      (op : ConstraintOp) (v : Text) (r : Limits)
      → is_pin op ≡ false
      → IsPoint v
      → HasPoints r
      → is_within (narrow_op op v r) w ≡ (is_within r w && op_holds op (compare_versions w v))
  narrow_op-within op_gte v r p hv hr = narrow_lo-within v false r hv hr
  narrow_op-within op_gt v r p hv hr = narrow_lo-within v true r hv hr
  narrow_op-within op_lte v r p hv hr = narrow_hi-within v false r hv hr
  narrow_op-within op_lt v r p hv hr = narrow_hi-within v true r hv hr
  narrow_op-within op_eq v r p hv hr = cc

narrow_lo-HasPoints :
    (v : Text) (e : Bool) (r : Limits) → IsPoint v → HasPoints r → HasPoints (narrow_lo v e r)
narrow_lo-HasPoints v e r hv hr = ground arith

narrow_hi-HasPoints :
    (v : Text) (e : Bool) (r : Limits) → IsPoint v → HasPoints r → HasPoints (narrow_hi v e r)
narrow_hi-HasPoints v e r hv hr = elim (Bool-cases (is_tighter v e r.hi)) [
  | inl t ↦ rw t (hr.0, hv)
  | inr t ↦ rw t hr
]

narrow_op-HasPoints :
    (op : ConstraintOp) (v : Text) (r : Limits)
    → IsPoint v
    → HasPoints r
    → HasPoints (narrow_op op v r)
narrow_op-HasPoints op_gte v r hv hr = narrow_lo-HasPoints v false r hv hr
narrow_op-HasPoints op_gt v r hv hr = narrow_lo-HasPoints v true r hv hr
narrow_op-HasPoints op_lte v r hv hr = narrow_hi-HasPoints v false r hv hr
narrow_op-HasPoints op_lt v r hv hr = narrow_hi-HasPoints v true r hv hr
narrow_op-HasPoints op_eq v r hv hr = hr

pub narrow-HasPoints :
    (cs : List Constraint) (r : Limits) → HavePoints cs → HasPoints r → HasPoints (narrow r cs)
unfolding narrow
narrow-HasPoints [] r h hr = hr
narrow-HasPoints (c ∷ cs) r h hr =
    narrow-HasPoints cs (narrow_op c.op c.version r) h.1
      (narrow_op-HasPoints c.op c.version r h.0 hr)

abbrev pub HasNoPin : List Constraint → Type 0
HasNoPin cs = All (λ c. is_pin c.op ≡ false) cs

and_assoc : (a b c : Bool) → ((a && b) && c) ≡ (a && (b && c))
and_assoc a b c = ground arith

-- The loop: the versions within the limits are those that were before and meet every constraint.
pub narrow-within :
    (w : Text) (cs : List Constraint) (r : Limits)
    → IsPoint w
    → HavePoints cs
    → HasNoPin cs
    → HasPoints r
    → is_within (narrow r cs) w ≡ (is_within r w && all_hold w cs)
unfolding narrow all_hold constraint_holds
narrow-within w [] r hw h p hr = ground arith
narrow-within w (c ∷ cs) r hw h p hr =
    narrow-within w cs (narrow_op c.op c.version r) hw h.1 p.1
      (narrow_op-HasPoints c.op c.version r h.0 hr)
    ∙ ap (λ b. b && all_hold w cs) (narrow_op-within w hw c.op c.version r p.0 h.0 hr)
    ∙ and_assoc (is_within r w) (op_holds c.op (compare_versions w c.version)) (all_hold w cs)

pub floor-HasPoints : HasPoints floor
floor-HasPoints = (zero-IsPoint, tt)

pub floor-within : (w : Text) → IsPoint w → is_within floor w ≡ true
floor-within w h = rw (zero-least w h)

pub effective_lo-IsPoint : (r : Limits) → HasPoints r → IsPoint (effective_lo r)
unfolding effective_lo
effective_lo-IsPoint r hr = elim (Bool-cases r.lo_exclusive) [
  | inl e ↦ rw e (next-IsPoint r.lo_version hr.0)
  | inr e ↦ rw e hr.0
]

-- The lower bound admits effective_lo and what is above it.
effective_lo-above :
    (r : Limits) (w : Text)
    → HasPoints r
    → IsPoint w
    → above r.lo_version r.lo_exclusive w ≡ is_ge (compare_versions w (effective_lo r))
unfolding effective_lo
effective_lo-above r w hr hw = elim (Bool-cases r.lo_exclusive) [
  | inl e ↦ rw e (sym (next-ge r.lo_version w hr.0.0 hw.0))
  | inr e ↦ rw e
]

effective_lo-within :
    (r : Limits) (hi : Option (Text × Bool))
    → check_hi r hi ≡ ok tt
    → below hi (effective_lo r) ≡ true
effective_lo-within r none h = refl
effective_lo-within r (some (hi, e)) h = ground arith

-- Where the check passes, effective_lo lies within the limits.
pub check_range-ok :
    (r : Limits) → HasPoints r → check_range r ≡ ok tt → is_within r (effective_lo r) ≡ true
unfolding check_range
check_range-ok r hr h = rw (
  effective_lo-above r (effective_lo r) hr (effective_lo-IsPoint r hr),
  compare_versions_self (effective_lo r),
  effective_lo-within r r.hi h,
)

crossed-below :
    (r : Limits) (hi : Option (Text × Bool)) (w : Text) {e : Error}
    → IsPoint (effective_lo r)
    → HiIsPoint hi
    → IsPoint w
    → check_hi r hi ≡ err e
    → (is_ge (compare_versions w (effective_lo r)) && below hi w) ≡ false
unfolding coherent
crossed-below r none w hl hh hw h = cc
crossed-below r (some (hi, f)) w hl hh hw h =
    ground (arith, compare_versions-coherent w (effective_lo r) hi hw hl hh)

-- Where it fails, nothing does.
pub check_range-err :
    (r : Limits) (w : Text) {e : Error}
    → HasPoints r
    → IsPoint w
    → check_range r ≡ err e
    → is_within r w ≡ false
unfolding check_range
check_range-err r w hr hw h =
    rw (effective_lo-above r w hr hw) (crossed-below r r.hi w (effective_lo-IsPoint r hr) hr.1 hw h)
