-- ===== src/Version/Constraint/Pins.antt =====
-- The loops over the pins, "= version": which pin is kept, and what a refusal means.
use sandbox_kit_spec.Base.{
  Ordering, ◌≡◌, refl, Bool, true, false, ◌&&◌, List, [], ◌∷◌, Option, none, some, Text, is_eq,
  arith, ok, err,
}
use sandbox_kit_spec.Version.Order.{compare_versions}
use sandbox_kit_spec.Version.Error.{ConstraintOp, Error}
use sandbox_kit_spec.Version.Constraint.{
  Constraint, op_holds, constraint_holds, all_hold, is_pin, clashes, collect_pin, check_pin,
}
use sandbox_kit_spec.Version.Constraint.Coherent.{
  IsPoint, HavePoints, coherent, compare_versions-coherent,
}
use sandbox_kit_spec.Version.Constraint.Range.{HasNoPin}

-- w is the version that is pinned so far.
abbrev pub meets : Option Text → Text → Bool
meets none w = true
meets (some pin) w = is_eq (compare_versions w pin)

abbrev pub PinIsPoint : Option Text → Type 0
PinIsPoint none = Unit
PinIsPoint (some pin) = IsPoint pin

collect_pin-keeps : (cs : List Constraint) (pin : Text) → ¬ (collect_pin (some pin) cs ≡ ok none)
unfolding collect_pin
collect_pin-keeps [] pin h = cc
collect_pin-keeps (c ∷ cs) pin h =
    ground (arith, collect_pin-keeps cs pin, collect_pin-keeps cs c.version)

pub collect_pin-none : (cs : List Constraint) → collect_pin none cs ≡ ok none → HasNoPin cs
unfolding collect_pin
collect_pin-none [] h = tt
collect_pin-none (c ∷ cs) h = ground (arith, collect_pin-none cs, collect_pin-keeps cs c.version)

pub op_eq_of_is_pin :
    (op : ConstraintOp) (o : Ordering) → is_pin op ≡ true → op_holds op o ≡ is_eq o
op_eq_of_is_pin op o h = ground arith

pub collect_pin-IsPoint :
    (cs : List Constraint) (acc : Option Text) {pin : Text}
    → HavePoints cs
    → PinIsPoint acc
    → collect_pin acc cs ≡ ok (some pin)
    → IsPoint pin
unfolding collect_pin
collect_pin-IsPoint [] none h k e = cc
collect_pin-IsPoint [] (some pin) h k e = ground arith
collect_pin-IsPoint (c ∷ cs) acc {pin} h k e = ground (
  arith,
  collect_pin-IsPoint cs acc {pin = pin} h.1 k,
  collect_pin-IsPoint cs (some c.version) {pin = pin} h.1 h.0,
)

-- A version that meets the pin so far and the constraints is the version that is pinned.
pub collect_pin-meets :
    (w : Text) (cs : List Constraint) (acc : Option Text) {pin : Text}
    → collect_pin acc cs ≡ ok (some pin)
    → (meets acc w && all_hold w cs) ≡ true
    → is_eq (compare_versions w pin) ≡ true
unfolding collect_pin all_hold constraint_holds
collect_pin-meets w [] none e h = cc
collect_pin-meets w [] (some pin) e h = ground arith
collect_pin-meets w (c ∷ cs) acc {pin} e h = ground (
  arith,
  collect_pin-meets w cs acc {pin = pin},
  collect_pin-meets w cs (some c.version) {pin = pin},
  op_eq_of_is_pin c.op (compare_versions w c.version),
)

clash-false :
    (w : Text) (acc : Option Text) (v : Text)
    → IsPoint w
    → PinIsPoint acc
    → IsPoint v
    → clashes acc v ≡ true
    → (meets acc w && is_eq (compare_versions w v)) ≡ false
unfolding coherent
clash-false w none v hw k hv h = cc
clash-false w (some pin) v hw k hv h = ground (arith, compare_versions-coherent w pin v hw k hv)

-- Two pins at different versions: nothing meets both.
pub collect_pin-err :
    (w : Text) (cs : List Constraint) (acc : Option Text) {e : Error}
    → IsPoint w
    → HavePoints cs
    → PinIsPoint acc
    → collect_pin acc cs ≡ err e
    → (meets acc w && all_hold w cs) ≡ false
unfolding collect_pin all_hold constraint_holds
collect_pin-err w [] acc hw h k e = cc
collect_pin-err w (c ∷ cs) acc {e = x} hw h k e = ground (
  arith,
  collect_pin-err w cs acc {e = x} hw h.1 k,
  collect_pin-err w cs (some c.version) {e = x} hw h.1 h.0,
  clash-false w acc c.version hw k h.0,
  op_eq_of_is_pin c.op (compare_versions w c.version),
)

pub check_pin-ok :
    (pin : Text) (cs : List Constraint) → check_pin pin cs ≡ ok tt → all_hold pin cs ≡ true
unfolding check_pin all_hold
check_pin-ok pin [] h = refl
check_pin-ok pin (c ∷ cs) h = ground (arith, check_pin-ok pin cs)

op_holds-same :
    (op : ConstraintOp) (p q r : Ordering)
    → coherent p q r ≡ true
    → is_eq p ≡ true
    → op_holds op q ≡ op_holds op r
unfolding coherent
op_holds-same op p q r h e = ground arith

-- Versions that compare equal meet the same constraints.
pub constraint_holds-same :
    (w pin : Text) (c : Constraint)
    → IsPoint w
    → IsPoint pin
    → IsPoint c.version
    → is_eq (compare_versions w pin) ≡ true
    → constraint_holds pin c ≡ constraint_holds w c
unfolding constraint_holds
constraint_holds-same w pin c hw hp hc e =
    op_holds-same c.op _ _ _ (compare_versions-coherent w pin c.version hw hp hc) e

pub all_hold-same :
    (w pin : Text) (cs : List Constraint)
    → IsPoint w
    → IsPoint pin
    → HavePoints cs
    → is_eq (compare_versions w pin) ≡ true
    → all_hold pin cs ≡ all_hold w cs
unfolding all_hold
all_hold-same w pin [] hw hp h e = refl
all_hold-same w pin (c ∷ cs) hw hp h e =
    rw (constraint_holds-same w pin c hw hp h.0 e, all_hold-same w pin cs hw hp h.1 e)

pub check_pin-err :
    (pin : Text) (cs : List Constraint) {e : Error}
    → check_pin pin cs ≡ err e
    → all_hold pin cs ≡ false
unfolding check_pin all_hold
check_pin-err pin [] h = cc
check_pin-err pin (c ∷ cs) {e} h = ground (arith, check_pin-err pin cs {e = e})
