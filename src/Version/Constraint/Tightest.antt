-- ===== src/Version/Constraint/Tightest.antt =====
-- The third loop of simplifyConstraints keeps the tightest bound on each side.
use sandbox_kit_spec.Base.{
  ◌≡◌, refl, sym, ap, ◌∙◌, Bool, true, false, ◌&&◌, List, [], ◌∷◌, Option, none, some, Text, arith,
}
use sandbox_kit_spec.Version.Order.{compare_versions}
use sandbox_kit_spec.Version.Error.{ConstraintOp, op_gte, op_gt, op_lte, op_lt, op_eq}
use sandbox_kit_spec.Version.Constraint.{
  Constraint, op_holds, constraint_holds, all_hold, is_pin, Bounds, raise, lower, tighten_op,
  tightest, from_bounds,
}
use sandbox_kit_spec.Version.Constraint.Coherent.{
  IsPoint, HavePoints, coherent, compare_versions-coherent,
}
use sandbox_kit_spec.Version.Constraint.Range.{HasNoPin}

abbrev is_lower_op : ConstraintOp → Bool
is_lower_op op_gte = true
is_lower_op op_gt = true
is_lower_op _ = false

abbrev is_upper_op : ConstraintOp → Bool
is_upper_op op_lte = true
is_upper_op op_lt = true
is_upper_op _ = false

abbrev holds : Option Constraint → Text → Bool
holds none w = true
holds (some c) w = op_holds c.op (compare_versions w c.version)

abbrev Bounded : (ConstraintOp → Bool) → Option Constraint → Type 0
Bounded side none = Unit
Bounded side (some c) = IsPoint c.version × (side c.op ≡ true)

abbrev pub AreBounds : Bounds → Type 0
AreBounds b = Bounded is_lower_op b.lo × Bounded is_upper_op b.hi

abbrev pub bounds_hold : Bounds → Text → Bool
bounds_hold b w = holds b.lo w && holds b.hi w

module _ (w : Text) (hw : IsPoint w) where
  raise-holds :
      (c : Constraint) (lo : Option Constraint)
      → Bounded is_lower_op (some c)
      → Bounded is_lower_op lo
      → holds (raise c lo) w ≡ (holds lo w && holds (some c) w)
  unfolding coherent
  raise-holds c none hc hl = refl
  raise-holds c (some lo) hc hl =
      ground (arith, compare_versions-coherent w c.version lo.version hw hc.0 hl.0)

  lower-holds :
      (c : Constraint) (hi : Option Constraint)
      → Bounded is_upper_op (some c)
      → Bounded is_upper_op hi
      → holds (lower c hi) w ≡ (holds hi w && holds (some c) w)
  unfolding coherent
  lower-holds c none hc hh = refl
  lower-holds c (some hi) hc hh =
      ground (arith, compare_versions-coherent w c.version hi.version hw hc.0 hh.0)

raise-Bounded :
    (c : Constraint) (lo : Option Constraint)
    → Bounded is_lower_op (some c)
    → Bounded is_lower_op lo
    → Bounded is_lower_op (raise c lo)
raise-Bounded c none hc hl = hc
raise-Bounded c (some lo) hc hl = ground arith

lower-Bounded :
    (c : Constraint) (hi : Option Constraint)
    → Bounded is_upper_op (some c)
    → Bounded is_upper_op hi
    → Bounded is_upper_op (lower c hi)
lower-Bounded c none hc hh = hc
lower-Bounded c (some hi) hc hh = ground arith

and_right : (a b c : Bool) → ((a && c) && b) ≡ ((a && b) && c)
and_right a b c = ground arith

and_assoc : (a b c : Bool) → ((a && b) && c) ≡ (a && (b && c))
and_assoc a b c = ground arith

-- One round: the bounds stay bounds, and say what they said and the constraint.
abbrev IsRound : Bounds → Constraint → Bounds → Type 0
IsRound b c b' =
    AreBounds b'
    × ((w : Text)
        → IsPoint w
        → bounds_hold b' w ≡ (bounds_hold b w && op_holds c.op (compare_versions w c.version)))

raise-IsRound :
    (c : Constraint) (b : Bounds)
    → IsPoint c.version
    → is_lower_op c.op ≡ true
    → AreBounds b
    → IsRound b c (record b { lo = raise c b.lo })
raise-IsRound c b h k hb = (
  (raise-Bounded c b.lo (h, k) hb.0, hb.1),
  λ w hw.
      ap (λ r. r && holds b.hi w) (raise-holds w hw c b.lo (h, k) hb.0)
      ∙ and_right (holds b.lo w) (holds b.hi w) (holds (some c) w),
)

lower-IsRound :
    (c : Constraint) (b : Bounds)
    → IsPoint c.version
    → is_upper_op c.op ≡ true
    → AreBounds b
    → IsRound b c (record b { hi = lower c b.hi })
lower-IsRound c b h k hb = (
  (hb.0, lower-Bounded c b.hi (h, k) hb.1),
  λ w hw.
      ap (λ r. holds b.lo w && r) (lower-holds w hw c b.hi (h, k) hb.1)
      ∙ sym (and_assoc (holds b.lo w) (holds b.hi w) (holds (some c) w)),
)

tighten-IsRound :
    (op : ConstraintOp) (c : Constraint) (b : Bounds)
    → op ≡ c.op
    → is_pin op ≡ false
    → IsPoint c.version
    → AreBounds b
    → IsRound b c (tighten_op op c b)
tighten-IsRound op_gte c b e p h hb = raise-IsRound c b h (rw (← e)) hb
tighten-IsRound op_gt c b e p h hb = raise-IsRound c b h (rw (← e)) hb
tighten-IsRound op_lte c b e p h hb = lower-IsRound c b h (rw (← e)) hb
tighten-IsRound op_lt c b e p h hb = lower-IsRound c b h (rw (← e)) hb
tighten-IsRound op_eq c b e p h hb = cc

-- The loop: the bounds that are left say all that the constraints say.
pub tightest-holds :
    (cs : List Constraint) (b : Bounds)
    → HavePoints cs
    → HasNoPin cs
    → AreBounds b
    → AreBounds (tightest b cs)
      × ((w : Text)
          → IsPoint w
          → bounds_hold (tightest b cs) w ≡ (bounds_hold b w && all_hold w cs))
unfolding tightest all_hold constraint_holds
tightest-holds [] b h p hb = (hb, λ w hw. ground arith)
tightest-holds (c ∷ cs) b h p hb =
    let round = tighten-IsRound c.op c b refl p.0 h.0 hb in
    let rest = tightest-holds cs (tighten_op c.op c b) h.1 p.1 round.0 in
    (
      rest.0,
      λ w hw.
          rest.1 w hw
          ∙ ap (λ r. r && all_hold w cs) (round.1 w hw)
          ∙ and_assoc (bounds_hold b w) (op_holds c.op (compare_versions w c.version))
              (all_hold w cs),
    )

-- Bounds that meet say what a pin says.
pub from_bounds-holds :
    (lo hi : Option Constraint) (w : Text)
    → Bounded is_lower_op lo
    → Bounded is_upper_op hi
    → IsPoint w
    → all_hold w (from_bounds lo hi) ≡ (holds lo w && holds hi w)
unfolding all_hold constraint_holds coherent
from_bounds-holds none none w hl hh hw = refl
from_bounds-holds (some lo) none w hl hh hw = ground arith
from_bounds-holds none (some hi) w hl hh hw = ground arith
from_bounds-holds (some lo) (some hi) w hl hh hw =
    ground (arith, compare_versions-coherent w lo.version hi.version hw hl.0 hh.0)
