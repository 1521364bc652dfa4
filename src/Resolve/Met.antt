-- ===== src/Resolve/Met.antt =====
-- What the checks of resolve/resolve.go between units amount to: an entry is met, is met if
-- anything is there to meet it, or names nothing that another unit provides.
use sandbox_kit_spec.Base.{
  ◌≡◌, refl, ap₂, ◌∙◌, Bool, true, false, not, ◌&&◌, ◌||◌, Option, none, some, List, [], ◌∷◌, all,
  any, is_empty, is_empty-append, filter, Text, text_eq, Result, ok, err, arith,
}
use sandbox_kit_spec.Version.Error.{Error}
use sandbox_kit_spec.Version.Name.{normalize_capability_name}
use sandbox_kit_spec.Version.Constraint.{Require, satisfies}
use sandbox_kit_spec.Version.Require.{parse_require}
use sandbox_kit_spec.Resolve.Kit.{Kit, Provider}
use sandbox_kit_spec.Resolve.Provides.{
  provides_named, others_providing, first_satisfying, satisfied_by,
}
use sandbox_kit_spec.Resolve.Check.{
  check_parsed_require, check_require_entries, check_requires, check_parsed_integrate,
  check_integrate_entries, check_integrates, conflicts_with, check_conflict_entries,
  check_conflicts, require_problem, integrate_problem,
}
use sandbox_kit_spec.Resolve.Order.{same}

abbrev pub is_some {ℓ} : {A : Type ℓ} → Option A → Bool
is_some none = false
is_some (some a) = true

-- Another unit provides the name.
abbrev pub offered_to : Kit → Text → Provider → Bool
offered_to u name c = text_eq c.provide.name name && not (same c.kit u)

abbrev pub meets_one : Kit → Require → Provider → Bool
meets_one u r c = offered_to u r.name c && satisfies c.provide r

abbrev pub is_met : List Provider → Kit → Result Error Require → Bool
is_met ps u (err e) = false
is_met ps u (ok r) = any (meets_one u r) ps

abbrev pub is_met_or_absent : List Provider → Kit → Result Error Require → Bool
is_met_or_absent ps u (err e) = false
is_met_or_absent ps u (ok r) = not (any (offered_to u r.name) ps) || any (meets_one u r) ps

-- Each entry of requires parses and is met by another unit.
abbrev pub requires_met : List Provider → Kit → Bool
requires_met ps u = all (λ s. is_met ps u (parse_require s)) u.descriptor.requires

-- Each entry of integrates parses, and is met if another unit provides its name.
abbrev pub integrates_met : List Provider → Kit → Bool
integrates_met ps u = all (λ s. is_met_or_absent ps u (parse_require s)) u.descriptor.integrates

-- No other unit provides a name that conflicts.
abbrev pub conflicts_absent : List Provider → Kit → Bool
conflicts_absent ps u =
    all (λ name. not (any (offered_to u (normalize_capability_name name)) ps))
      u.descriptor.conflicts

pub satisfied_by-meets :
    (r : Require) (ps : List Provider) (u : Kit)
    → is_some (satisfied_by r ps u) ≡ any (meets_one u r) ps
unfolding satisfied_by first_satisfying provides_named filter
satisfied_by-meets r [] u = refl
satisfied_by-meets r (p ∷ ps) u = ground (arith, satisfied_by-meets r ps u)

others_providing-empty :
    (name : Text) (ps : List Provider) (u : Kit)
    → is_empty (others_providing name ps u) ≡ not (any (offered_to u name) ps)
unfolding others_providing provides_named filter
others_providing-empty name [] u = refl
others_providing-empty name (p ∷ ps) u = ground (arith, others_providing-empty name ps u)

conflicts_with-empty :
    (u : Kit) (name key : Text) (ps : List Provider)
    → is_empty (conflicts_with u name (provides_named key ps)) ≡ not (any (offered_to u key) ps)
unfolding conflicts_with provides_named filter
conflicts_with-empty u name key [] = refl
conflicts_with-empty u name key (p ∷ ps) = ground (arith, conflicts_with-empty u name key ps)

require_problem-empty :
    (u : Kit) (s : Text) (r : Require) (cs : List Provider) (p : Option Kit)
    → is_empty (require_problem u s r cs p) ≡ is_some p
require_problem-empty u s r cs none = refl
require_problem-empty u s r cs (some p) = refl

integrate_problem-empty :
    (u : Kit) (s : Text) (cs : List Provider) (p : Option Kit)
    → is_empty (integrate_problem u s cs p) ≡ (is_empty cs || is_some p)
integrate_problem-empty u s [] p = refl
integrate_problem-empty u s (c ∷ cs) none = refl
integrate_problem-empty u s (c ∷ cs) (some p) = refl

require-empty :
    (ps : List Provider) (u : Kit) (s : Text) (parsed : Result Error Require)
    → is_empty (check_parsed_require ps u s parsed) ≡ is_met ps u parsed
require-empty ps u s (err e) = refl
require-empty ps u s (ok r) =
    require_problem-empty u s r (provides_named r.name ps) (satisfied_by r ps u)
    ∙ satisfied_by-meets r ps u

integrate-empty :
    (ps : List Provider) (u : Kit) (s : Text) (parsed : Result Error Require)
    → is_empty (check_parsed_integrate ps u s parsed) ≡ is_met_or_absent ps u parsed
integrate-empty ps u s (err e) = refl
integrate-empty ps u s (ok r) =
    integrate_problem-empty u s (others_providing r.name ps u) (satisfied_by r ps u)
    ∙ ap₂ ◌||◌ (others_providing-empty r.name ps u) (satisfied_by-meets r ps u)

require_entries-empty :
    (ps : List Provider) (u : Kit) (ss : List Text)
    → is_empty (check_require_entries ps u ss) ≡ all (λ s. is_met ps u (parse_require s)) ss
unfolding check_require_entries
require_entries-empty ps u [] = refl
require_entries-empty ps u (s ∷ ss) =
    is_empty-append (check_parsed_require ps u s (parse_require s)) (check_require_entries ps u ss)
    ∙ ap₂ ◌&&◌ (require-empty ps u s (parse_require s)) (require_entries-empty ps u ss)

integrate_entries-empty :
    (ps : List Provider) (u : Kit) (ss : List Text)
    → is_empty (check_integrate_entries ps u ss)
      ≡ all (λ s. is_met_or_absent ps u (parse_require s)) ss
unfolding check_integrate_entries
integrate_entries-empty ps u [] = refl
integrate_entries-empty ps u (s ∷ ss) =
    is_empty-append (check_parsed_integrate ps u s (parse_require s))
      (check_integrate_entries ps u ss)
    ∙ ap₂ ◌&&◌ (integrate-empty ps u s (parse_require s)) (integrate_entries-empty ps u ss)

conflict_entries-empty :
    (ps : List Provider) (u : Kit) (names : List Text)
    → is_empty (check_conflict_entries ps u names)
      ≡ all (λ name. not (any (offered_to u (normalize_capability_name name)) ps)) names
unfolding check_conflict_entries
conflict_entries-empty ps u [] = refl
conflict_entries-empty ps u (name ∷ names) =
    is_empty-append (conflicts_with u name (provides_named (normalize_capability_name name) ps))
      (check_conflict_entries ps u names)
    ∙ ap₂ ◌&&◌ (conflicts_with-empty u name (normalize_capability_name name) ps)
        (conflict_entries-empty ps u names)

pub check_requires-empty :
    (ps : List Provider) (us : List Kit)
    → is_empty (check_requires ps us) ≡ all (requires_met ps) us
unfolding check_requires
check_requires-empty ps [] = refl
check_requires-empty ps (u ∷ us) =
    is_empty-append (check_require_entries ps u u.descriptor.requires) (check_requires ps us)
    ∙ ap₂ ◌&&◌ (require_entries-empty ps u u.descriptor.requires) (check_requires-empty ps us)

pub check_integrates-empty :
    (ps : List Provider) (us : List Kit)
    → is_empty (check_integrates ps us) ≡ all (integrates_met ps) us
unfolding check_integrates
check_integrates-empty ps [] = refl
check_integrates-empty ps (u ∷ us) =
    is_empty-append (check_integrate_entries ps u u.descriptor.integrates) (check_integrates ps us)
    ∙ ap₂ ◌&&◌ (integrate_entries-empty ps u u.descriptor.integrates) (check_integrates-empty ps us)

pub check_conflicts-empty :
    (ps : List Provider) (us : List Kit)
    → is_empty (check_conflicts ps us) ≡ all (conflicts_absent ps) us
unfolding check_conflicts
check_conflicts-empty ps [] = refl
check_conflicts-empty ps (u ∷ us) =
    is_empty-append (check_conflict_entries ps u u.descriptor.conflicts) (check_conflicts ps us)
    ∙ ap₂ ◌&&◌ (conflict_entries-empty ps u u.descriptor.conflicts) (check_conflicts-empty ps us)
