-- ===== src/Version/Constraint.antt =====
-- Constraints of spec/version.go: constraintHolds, Satisfies, simplifyConstraints and
-- checkConstraintsSatisfiable.
pub mod Coherent
pub mod Range
pub mod Pins
pub mod Satisfiable
pub mod Rewriting
pub mod Tightest
pub mod Simplify
pub mod Refused
use sandbox_kit_spec.Base.{
  ℕ, Ordering, Bool, true, false, not, ◌&&◌, ◌||◌, Option, none, some, List, [], ◌∷◌, ◌++◌, map,
  all, Text, codes, text_eq, cut_suffix, if◌then◌else◌, is_lt, is_le, is_eq, is_ge, is_gt, Result,
  ok, err, ◌>>=◌,
}
use sandbox_kit_spec.Version.Order.{compare_versions, next_version, version_successor_suffix}
use sandbox_kit_spec.Version.Error.{
  ConstraintOp, op_gte, op_gt, op_lte, op_lt, op_eq, Error, two_pins, pin_conflict, crossed_bounds,
}

-- `version` is empty where the provide is unversioned.
pub record Provide : Type 0 where
  pub name : Text
  pub version : Text

pub record Constraint : Type 0 where
  pub op : ConstraintOp
  pub version : Text

pub record Require : Type 0 where
  pub name : Text
  pub constraints : List Constraint

abbrev pub op_holds : ConstraintOp → Ordering → Bool
op_holds op_gte cmp = is_ge cmp
op_holds op_gt cmp = is_gt cmp
op_holds op_lte cmp = is_le cmp
op_holds op_lt cmp = is_lt cmp
op_holds op_eq cmp = is_eq cmp

unfoldable pub constraint_holds : Text → Constraint → Bool
unfolding compare_versions
constraint_holds version c = op_holds c.op (compare_versions version c.version)

-- The loop of Satisfies.
unfoldable pub all_hold : Text → List Constraint → Bool
unfolding constraint_holds
all_hold version [] = true
all_hold version (c ∷ cs) = constraint_holds version c && all_hold version cs

-- An unversioned provide meets no constraint.
abbrev pub versioned_holds : Text → List Constraint → Bool
versioned_holds [] cs = false
versioned_holds (v ∷ vs) cs = all_hold (v ∷ vs) cs

abbrev constraints_hold : Text → List Constraint → Bool
constraints_hold version [] = true
constraints_hold version (c ∷ cs) = versioned_holds version (c ∷ cs)

unfoldable pub satisfies : Provide → Require → Bool
unfolding all_hold text_eq
satisfies p r = text_eq p.name r.name && constraints_hold p.version r.constraints

abbrev pub is_pin : ConstraintOp → Bool
is_pin op_eq = true
is_pin _ = false

-- simplifyConstraints: its first loop, for a pin
unfoldable pub first_pin : List Constraint → Option Constraint
first_pin [] = none
first_pin (c ∷ cs) = let rest = first_pin cs in if is_pin c.op then some c else rest

-- its second loop: exclusive bounds as inclusive ones
abbrev inclusive_below : Text → Option Text → Constraint
inclusive_below v (some x) = record { op = op_lte; version = x }
inclusive_below v none = record { op = op_lt; version = v }

abbrev pub normalize_op : ConstraintOp → Text → Constraint
normalize_op op_gt v = record { op = op_gte; version = next_version v }
normalize_op op_lt v = inclusive_below v (cut_suffix version_successor_suffix v)
normalize_op op v = record { op = op; version = v }

unfoldable pub normalize_constraint : Constraint → Constraint
unfolding next_version cut_suffix
normalize_constraint c = normalize_op c.op c.version

-- its third loop: the tightest bound on each side
pub record Bounds : Type 0 where
  pub lo : Option Constraint
  pub hi : Option Constraint

abbrev pub is_exclusive : ConstraintOp → Bool
is_exclusive op_gt = true
is_exclusive op_lt = true
is_exclusive _ = false

abbrev pub raise : Constraint → Option Constraint → Option Constraint
raise c none = some c
raise c (some lo) =
    let cmp = compare_versions c.version lo.version in
    if is_gt cmp || (is_eq cmp && is_exclusive c.op) then some c else some lo

abbrev pub lower : Constraint → Option Constraint → Option Constraint
lower c none = some c
lower c (some hi) =
    let cmp = compare_versions c.version hi.version in
    if is_lt cmp || (is_eq cmp && is_exclusive c.op) then some c else some hi

abbrev pub tighten_op : ConstraintOp → Constraint → Bounds → Bounds
tighten_op op_gte c b = record b { lo = raise c b.lo }
tighten_op op_gt c b = record b { lo = raise c b.lo }
tighten_op op_lte c b = record b { hi = lower c b.hi }
tighten_op op_lt c b = record b { hi = lower c b.hi }
tighten_op op_eq c b = b

unfoldable pub tightest : Bounds → List Constraint → Bounds
tightest b [] = b
tightest b (c ∷ cs) = tightest (tighten_op c.op c b) cs

abbrev pub is_gte : ConstraintOp → Bool
is_gte op_gte = true
is_gte _ = false

abbrev pub is_lte : ConstraintOp → Bool
is_lte op_lte = true
is_lte _ = false

-- its end: bounds that meet are a pin
abbrev pub from_bounds : Option Constraint → Option Constraint → List Constraint
from_bounds none none = []
from_bounds (some lo) none = lo ∷ []
from_bounds none (some hi) = hi ∷ []
from_bounds (some lo) (some hi) =
    if is_gte lo.op && is_lte hi.op && is_eq (compare_versions lo.version hi.version)
    then record { op = op_eq; version = lo.version } ∷ []
    else lo ∷ hi ∷ []

abbrev pub no_bounds : Bounds
no_bounds = record { lo = none; hi = none }

abbrev pub simplify_bounds : List Constraint → List Constraint
simplify_bounds cs =
    let b = tightest no_bounds (map normalize_constraint cs) in from_bounds b.lo b.hi

unfoldable pub simplify_constraints : List Constraint → List Constraint
unfolding first_pin normalize_constraint tightest compare_versions
simplify_constraints cs = elim (first_pin cs) [ some c ↦ c ∷ [] | none ↦ simplify_bounds cs ]

-- checkConstraintsSatisfiable: its first loop; the pin is the last one
abbrev pub clashes : Option Text → Text → Bool
clashes none v = false
clashes (some pin) v = not (is_eq (compare_versions pin v))

abbrev pub pin_text : Option Text → Text
pin_text none = []
pin_text (some pin) = pin

unfoldable pub collect_pin : Option Text → List Constraint → Result Error (Option Text)
collect_pin pin [] = ok pin
collect_pin pin (c ∷ cs) =
    let skipped = collect_pin pin cs in
    let pinned = collect_pin (some c.version) cs in
    if not (is_pin c.op)
    then skipped
    else if clashes pin c.version
    then err (two_pins (pin_text pin) c.version)
    else pinned

-- its second loop
unfoldable pub check_pin : Text → List Constraint → Result Error (Unit {0})
unfolding constraint_holds
check_pin pin [] = ok tt
check_pin pin (c ∷ cs) =
    let rest = check_pin pin cs in
    if constraint_holds pin c then rest else err (pin_conflict pin c.op c.version)

-- its third loop; a lower bound is always set, `hi` may be unset
pub record Limits : Type 0 where
  pub lo_version : Text
  pub lo_exclusive : Bool
  pub hi : Option (Text × Bool)

abbrev pub narrow_lo : Text → Bool → Limits → Limits
narrow_lo v exclusive r =
    let cmp = compare_versions v r.lo_version in
    if is_gt cmp || (is_eq cmp && exclusive && not r.lo_exclusive)
    then record r { lo_version = v; lo_exclusive = exclusive }
    else r

abbrev pub is_tighter : Text → Bool → Option (Text × Bool) → Bool
is_tighter v exclusive none = true
is_tighter v exclusive (some (hi_version, hi_exclusive)) =
    let cmp = compare_versions v hi_version in
    is_lt cmp || (is_eq cmp && exclusive && not hi_exclusive)

abbrev pub narrow_hi : Text → Bool → Limits → Limits
narrow_hi v exclusive r =
    if is_tighter v exclusive r.hi then record r { hi = some (v, exclusive) } else r

abbrev pub narrow_op : ConstraintOp → Text → Limits → Limits
narrow_op op_gte v r = narrow_lo v false r
narrow_op op_gt v r = narrow_lo v true r
narrow_op op_lte v r = narrow_hi v false r
narrow_op op_lt v r = narrow_hi v true r
narrow_op op_eq v r = r

unfoldable pub narrow : Limits → List Constraint → Limits
unfolding compare_versions
narrow r [] = r
narrow r (c ∷ cs) = narrow (narrow_op c.op c.version r) cs

-- The grammar's own floor.
abbrev pub floor : Limits
floor = record { lo_version = codes "0"; lo_exclusive = false; hi = none }

abbrev pub lo_op : Bool → ConstraintOp
lo_op exclusive = if exclusive then op_gt else op_gte

abbrev pub hi_op : Bool → ConstraintOp
hi_op exclusive = if exclusive then op_lt else op_lte

-- The least version that the lower bound admits.
unfoldable pub effective_lo : Limits → Text
unfolding next_version
effective_lo r = if r.lo_exclusive then next_version r.lo_version else r.lo_version

abbrev pub check_hi : Limits → Option (Text × Bool) → Result Error (Unit {0})
check_hi r none = ok tt
check_hi r (some (hi_version, hi_exclusive)) =
    let cmp = compare_versions (effective_lo r) hi_version in
    if is_gt cmp || (is_eq cmp && hi_exclusive)
    then err (crossed_bounds (lo_op r.lo_exclusive) r.lo_version (hi_op hi_exclusive) hi_version)
    else ok tt

unfoldable pub check_range : Limits → Result Error (Unit {0})
unfolding effective_lo compare_versions
check_range r = check_hi r r.hi

abbrev pub check_pinned : List Constraint → Option Text → Result Error (Unit {0})
check_pinned cs (some pin) = check_pin pin cs
check_pinned cs none = check_range (narrow floor cs)

unfoldable pub check_constraints_satisfiable : List Constraint → Result Error (Unit {0})
unfolding collect_pin check_pin narrow check_range
check_constraints_satisfiable cs = collect_pin none cs >>= check_pinned cs
