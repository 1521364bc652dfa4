-- ===== src/Version/Require/Accepted.antt =====
-- What ParseRequire guarantees of an entry that it accepts, and that it always ends.
use sandbox_kit_spec.Base.{
  ◌≡◌, ◌≢◌, refl, Bool, true, Option, none, some, List, [], ◌∷◌, length, Text, trim_space, arith,
  inr, Result, ok-injective, ok, err, ◌>>◌, bind-ok, is_ok, subst, ◌⊎◌,
}
use sandbox_kit_spec.Version.Error.{Error, out_of_fuel, requires_entry}
use sandbox_kit_spec.Version.Name.{
  check_capability_name, valid_capability_name, normalize_capability_name,
}
use sandbox_kit_spec.Version.Name.Normal.{normalize-valid}
use sandbox_kit_spec.Version.Constraint.{
  Constraint, Require, Limits, collect_pin, check_pin, check_pinned, check_range, check_hi, narrow,
  floor, check_constraints_satisfiable,
}
use sandbox_kit_spec.Version.Require.{
  wrap, nonempty, parse_loop, parse_constraints, split_require_name, with_constraints,
  parse_trimmed, parse_require,
}
use sandbox_kit_spec.Version.Require.Fuel.{Ends, Ends-bind, HaveVersions, parse_loop-Ends}

-- No error of the check is the model's own.
collect_pin-Ends :
    (acc : Option Text) (cs : List Constraint) → Ends (λ _. Unit) (collect_pin acc cs)
unfolding collect_pin
collect_pin-Ends acc [] = tt
collect_pin-Ends acc (c ∷ cs) =
    ground (arith, collect_pin-Ends acc cs, collect_pin-Ends (some c.version) cs)

check_pin-Ends : (pin : Text) (cs : List Constraint) → Ends (λ _. Unit) (check_pin pin cs)
unfolding check_pin
check_pin-Ends pin [] = tt
check_pin-Ends pin (c ∷ cs) = ground (arith, check_pin-Ends pin cs)

check_hi-Ends : (r : Limits) (hi : Option (Text × Bool)) → Ends (λ _. Unit) (check_hi r hi)
check_hi-Ends r none = tt
check_hi-Ends r (some (hi, exclusive)) = ground arith

check_range-Ends : (r : Limits) → Ends (λ _. Unit) (check_range r)
unfolding check_range
check_range-Ends r = check_hi-Ends r r.hi

check_pinned-Ends :
    (cs : List Constraint) (pin : Option Text) → Ends (λ _. Unit) (check_pinned cs pin)
check_pinned-Ends cs (some pin) = check_pin-Ends pin cs
check_pinned-Ends cs none = check_range-Ends (narrow floor cs)

check-Ends : (cs : List Constraint) → Ends (λ _. Unit) (check_constraints_satisfiable cs)
unfolding check_constraints_satisfiable
check-Ends cs =
    Ends-bind (λ _. Unit) (λ _. Unit) (collect_pin none cs) _ (collect_pin-Ends none cs)
      λ pin _. check_pinned-Ends cs pin

-- A parsed list: it is not empty, its versions are versions, and it passes the check.
abbrev pub IsAccepted : List Constraint → Type 0
IsAccepted cs = (cs ≢ []) × HaveVersions cs × (check_constraints_satisfiable cs ≡ ok tt)

nonempty-Ends : (cs : List Constraint) → HaveVersions cs → Ends IsAccepted (nonempty cs)
nonempty-Ends [] h = tt
nonempty-Ends (c ∷ cs) h = go (check_constraints_satisfiable (c ∷ cs)) refl (check-Ends (c ∷ cs))
  where
    go :
        (r : Result Error (Unit {0}))
        → check_constraints_satisfiable (c ∷ cs) ≡ r
        → Ends (λ _. Unit) r
        → Ends IsAccepted (r >> ok (c ∷ cs))
    go (ok tt) e k = (λ f. cc, h, e)
    go (err out_of_fuel) e k = k
    go (err _) e k = ground arith

-- For every text parseConstraints ends, with one of the source's errors or with constraints that
-- are not empty, name versions, and pass checkConstraintsSatisfiable.
pub parse_constraints-Ends : (s : Text) → Ends IsAccepted (parse_constraints s)
unfolding parse_constraints
parse_constraints-Ends s =
    Ends-bind HaveVersions IsAccepted (parse_loop (length s) s []) _
      (parse_loop-Ends (length s) s [] (omega arith) tt) nonempty-Ends

Ends-ok {ℓ} : {A : Type ℓ} (P : A → Type 0) (r : Result Error A) {a : A} → Ends P r → r ≡ ok a → P a
Ends-ok P r {a} h e = subst (Ends P) e h

wrap-ok {ℓ} :
    {A : Type ℓ} (f : Error → Error) (r : Result Error A) {a : A} → wrap f r ≡ ok a → r ≡ ok a
wrap-ok f (ok a) h = h
wrap-ok f (err e) h = cc

valid_of_check :
    (name : Text) → check_capability_name name ≡ ok tt → valid_capability_name name ≡ true
unfolding valid_capability_name
valid_of_check name h = rw (h, is_ok)

-- An accepted entry: a valid name in its normalized form, and constraints that were accepted.
abbrev pub IsRequire : Require → Type 0
IsRequire r =
    (valid_capability_name r.name ≡ true) × ((r.constraints ≡ []) ⊎ IsAccepted r.constraints)

with_constraints-IsRequire :
    (name rest : Text) {r : Require}
    → valid_capability_name name ≡ true
    → with_constraints name rest ≡ ok r
    → IsRequire r
with_constraints-IsRequire name [] h e = ground arith
with_constraints-IsRequire name (c ∷ rest) h e =
    let (cs, parsed, same) = bind-ok (parse_constraints (c ∷ rest)) _ e in
    let accepted = Ends-ok IsAccepted _ (parse_constraints-Ends (c ∷ rest)) parsed in
    subst IsRequire (ok-injective same) (h, inr accepted)

-- What ParseRequire accepts has a valid normalized name, and either no constraints or constraints
-- that name versions and pass the check.
pub parse_require-IsRequire : (s : Text) (r : Require) → parse_require s ≡ ok r → IsRequire r
unfolding parse_require
parse_require-IsRequire s r h =
    let trimmed = trim_space s in
    let ((name, rest), parts, later) =
      bind-ok (split_require_name trimmed) _
        (wrap-ok (requires_entry trimmed) (parse_trimmed trimmed) h) in
    let (_, named, last) = bind-ok (check_capability_name name) _ later in
    with_constraints-IsRequire (normalize_capability_name name) rest
      (normalize-valid name (valid_of_check name named)) last
