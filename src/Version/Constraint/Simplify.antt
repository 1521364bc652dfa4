-- ===== src/Version/Constraint/Simplify.antt =====
-- simplifyConstraints keeps what the constraints say.
use sandbox_kit_spec.Base.{
  ◌≡◌, refl, sym, ◌∙◌, Bool, true, ◌&&◌, List, [], ◌∷◌, Option, none, some, map, Text, is_eq, arith,
  Bool-cases, &&-eq-true, Ordering, inl, inr, ok, bind-ok,
}
use sandbox_kit_spec.Version.Order.{compare_versions}
use sandbox_kit_spec.Version.Constraint.{
  Constraint, op_holds, constraint_holds, all_hold, is_pin, first_pin, normalize_constraint,
  no_bounds, tightest, simplify_bounds, simplify_constraints, collect_pin, check_pinned, check_pin,
  check_constraints_satisfiable,
}
use sandbox_kit_spec.Version.Constraint.Coherent.{
  IsPoint, HavePoints, coherent, compare_versions-coherent,
}
use sandbox_kit_spec.Version.Constraint.Range.{HasNoPin}
use sandbox_kit_spec.Version.Constraint.Pins.{
  collect_pin-none, collect_pin-IsPoint, check_pin-ok, all_hold-same, op_eq_of_is_pin,
}
use sandbox_kit_spec.Version.Constraint.Rewriting.{normalize-HavePoints, normalize-all_hold}
use sandbox_kit_spec.Version.Constraint.Tightest.{tightest-holds, from_bounds-holds}

simplify_bounds-all_hold :
    (w : Text) (cs : List Constraint)
    → IsPoint w
    → HasNoPin cs
    → HavePoints cs
    → all_hold w (simplify_bounds cs) ≡ all_hold w cs
simplify_bounds-all_hold w cs hw p h =
    let ds = map normalize_constraint cs in
    let good = normalize-HavePoints cs p h in
    let loop = tightest-holds ds no_bounds good.1 good.0 (tt, tt) in
    let b = tightest no_bounds ds in
    from_bounds-holds b.lo b.hi w loop.0.0 loop.0.1 hw
    ∙ loop.1 w hw
    ∙ normalize-all_hold w cs hw p h

first_pin-none : (cs : List Constraint) → first_pin cs ≡ none → HasNoPin cs
unfolding first_pin
first_pin-none [] h = tt
first_pin-none (c ∷ cs) h = ground (arith, first_pin-none cs)

none_of_HasNoPin : (cs : List Constraint) → HasNoPin cs → first_pin cs ≡ none
unfolding first_pin
none_of_HasNoPin [] h = refl
none_of_HasNoPin (c ∷ cs) h = ground (arith, none_of_HasNoPin cs)

first_pin-some :
    (w : Text) (cs : List Constraint) (c : Constraint)
    → first_pin cs ≡ some c
    → HavePoints cs
    → (is_pin c.op ≡ true)
      × IsPoint c.version
      × ((all_hold w cs ≡ true) → constraint_holds w c ≡ true)
unfolding first_pin all_hold
first_pin-some w [] c h k = cc
first_pin-some w (d ∷ ds) c h k = elim (Bool-cases (is_pin d.op)) [
  | inl e ↦
      let same : d ≡ c = ground arith in
      rw (← same) (e, k.0, λ a. (&&-eq-true (constraint_holds w d) (all_hold w ds) a).0)
  | inr e ↦
      let (pin, point, met) = first_pin-some w ds c (ground arith) k.1 in
      (pin, point, λ a. met (&&-eq-true (constraint_holds w d) (all_hold w ds) a).1)
]

same_pin : (p q r : Ordering) → coherent p q r ≡ true → is_eq q ≡ true → is_eq p ≡ is_eq r
unfolding coherent
same_pin p q r h e = ground arith

-- The first pin says all that the constraints say, where the last pin meets them all.
pin-all_hold :
    (w pin : Text) (cs : List Constraint) (c : Constraint)
    → IsPoint w
    → IsPoint pin
    → HavePoints cs
    → first_pin cs ≡ some c
    → check_pin pin cs ≡ ok tt
    → all_hold w (c ∷ []) ≡ all_hold w cs
unfolding all_hold constraint_holds
pin-all_hold w pin cs c hw hp h first checked =
    let met = check_pin-ok pin cs checked in
    let (is_a_pin, point, here) = first_pin-some pin cs c first h in
    let (_, _, there) = first_pin-some w cs c first h in
    let at_pin : op_holds c.op (compare_versions pin c.version) ≡ true =
      unfold constraint_holds in here met in
    let eq_op = λ (o : Ordering). op_eq_of_is_pin c.op o is_a_pin in
    let bridge : is_eq (compare_versions w pin) ≡ is_eq (compare_versions w c.version) =
      same_pin _ _ _ (compare_versions-coherent w pin c.version hw hp point)
        (sym (eq_op (compare_versions pin c.version)) ∙ at_pin) in
    rw (eq_op (compare_versions w c.version), ← bridge)
      (same_of (is_eq (compare_versions w pin)) (all_hold w cs)
        (λ e. sym (all_hold-same w pin cs hw hp h e) ∙ met)
        (λ a. bridge ∙ sym (eq_op (compare_versions w c.version)) ∙ there a))
  where
    same_of : (a b : Bool) → (a ≡ true → b ≡ true) → (b ≡ true → a ≡ true) → (a && true) ≡ b
    same_of a b f g = ground arith

-- A simplified set of constraints admits the versions that the set admits, for a set that passes
-- the check, where the version and those of the set have segments that are digit strings or the
-- mark "-".
pub simplify_constraints-all_hold :
    (w : Text) (cs : List Constraint)
    → IsPoint w
    → HavePoints cs
    → check_constraints_satisfiable cs ≡ ok tt
    → all_hold w (simplify_constraints cs) ≡ all_hold w cs
unfolding simplify_constraints check_constraints_satisfiable
simplify_constraints-all_hold w cs hw h checked =
    let (pin, collected, passed) = bind-ok (collect_pin none cs) (check_pinned cs) checked in
    go (first_pin cs) refl pin collected passed
  where
    chosen : Option Constraint → List Constraint
    chosen r = elim r [ some c ↦ c ∷ [] | none ↦ simplify_bounds cs ]

    go :
        (r : Option Constraint)
        → first_pin cs ≡ r
        → (pin : Option Text) → collect_pin none cs ≡ ok pin
        → check_pinned cs pin ≡ ok tt
        → all_hold w (chosen r) ≡ all_hold w cs
    go none e pin collected passed = simplify_bounds-all_hold w cs hw (first_pin-none cs e) h
    go (some c) e (some pin) collected passed =
        pin-all_hold w pin cs c hw (collect_pin-IsPoint cs none h tt collected) h e passed
    go (some c) e none collected passed = cc (none_of_HasNoPin cs (collect_pin-none cs collected))
