-- ===== src/Resolve/Check.antt =====
-- The checks of resolve/resolve.go on what the units say of each other: checkRequires,
-- checkIntegrates, checkConflicts, and the groups that are left.
use sandbox_kit_spec.Base.{
  ℕ, suc, Option, none, some, List, [], ◌∷◌, ◌++◌, Text, if◌then◌else◌, Result, ok, err,
}
use sandbox_kit_spec.Version.Error.{Error}
use sandbox_kit_spec.Version.Name.{normalize_capability_name}
use sandbox_kit_spec.Version.Constraint.{Require}
use sandbox_kit_spec.Version.Require.{parse_require}
use sandbox_kit_spec.Resolve.Kit.{Kit, Provider, Capability, group, credential, ordinary}
use sandbox_kit_spec.Resolve.Problem.{
  Problem, bad_entry, groups_left, nothing_provides, only_offers, integrates_offers, conflict,
}
use sandbox_kit_spec.Resolve.Provides.{provides_named, others_providing, satisfied_by}
use sandbox_kit_spec.Resolve.Order.{same}

abbrev pub unmet : Kit → Text → Require → List Provider → Problem
unmet u s r [] = nothing_provides u.reference s r.name
unmet u s r (c ∷ cs) = only_offers u.reference s (c ∷ cs)

abbrev pub require_problem : Kit → Text → Require → List Provider → Option Kit → List Problem
require_problem u s r candidates (some p) = []
require_problem u s r candidates none = unmet u s r candidates ∷ []

abbrev pub check_parsed_require : List Provider → Kit → Text → Result Error Require → List Problem
check_parsed_require ps u s (err e) = bad_entry u.reference e ∷ []
check_parsed_require ps u s (ok r) =
    require_problem u s r (provides_named r.name ps) (satisfied_by r ps u)

unfoldable pub check_require_entries : List Provider → Kit → List Text → List Problem
unfolding parse_require provides_named satisfied_by
check_require_entries ps u [] = []
check_require_entries ps u (s ∷ ss) =
    check_parsed_require ps u s (parse_require s) ++ check_require_entries ps u ss

unfoldable pub check_requires : List Provider → List Kit → List Problem
unfolding check_require_entries
check_requires ps [] = []
check_requires ps (u ∷ us) =
    check_require_entries ps u u.descriptor.requires ++ check_requires ps us

abbrev pub integrate_problem : Kit → Text → List Provider → Option Kit → List Problem
integrate_problem u s [] p = []
integrate_problem u s (c ∷ cs) (some p) = []
integrate_problem u s (c ∷ cs) none = integrates_offers u.reference s (c ∷ cs) ∷ []

abbrev pub check_parsed_integrate : List Provider → Kit → Text → Result Error Require → List Problem
check_parsed_integrate ps u s (err e) = bad_entry u.reference e ∷ []
check_parsed_integrate ps u s (ok r) =
    integrate_problem u s (others_providing r.name ps u) (satisfied_by r ps u)

unfoldable pub check_integrate_entries : List Provider → Kit → List Text → List Problem
unfolding parse_require others_providing satisfied_by
check_integrate_entries ps u [] = []
check_integrate_entries ps u (s ∷ ss) =
    check_parsed_integrate ps u s (parse_require s) ++ check_integrate_entries ps u ss

unfoldable pub check_integrates : List Provider → List Kit → List Problem
unfolding check_integrate_entries
check_integrates ps [] = []
check_integrates ps (u ∷ us) =
    check_integrate_entries ps u u.descriptor.integrates ++ check_integrates ps us

-- The providers of a name in conflict.
unfoldable pub conflicts_with : Kit → Text → List Provider → List Problem
conflicts_with u name [] = []
conflicts_with u name (c ∷ cs) =
    let rest = conflicts_with u name cs in
    if same c.kit u then rest else conflict u.reference name c.kit.reference ∷ rest

unfoldable pub check_conflict_entries : List Provider → Kit → List Text → List Problem
unfolding conflicts_with provides_named normalize_capability_name
check_conflict_entries ps u [] = []
check_conflict_entries ps u (name ∷ names) =
    conflicts_with u name (provides_named (normalize_capability_name name) ps)
    ++ check_conflict_entries ps u names

unfoldable pub check_conflicts : List Provider → List Kit → List Problem
unfolding check_conflict_entries
check_conflicts ps [] = []
check_conflicts ps (u ∷ us) =
    check_conflict_entries ps u u.descriptor.conflicts ++ check_conflicts ps us

-- Groups must be selected before the capabilities are judged.
unfoldable pub check_groups_of : Text → ℕ → List Capability → List Problem
check_groups_of ref i [] = []
check_groups_of ref i (group ∷ cs) = groups_left ref i ∷ check_groups_of ref (suc i) cs
check_groups_of ref i (credential c ∷ cs) = check_groups_of ref (suc i) cs
check_groups_of ref i (ordinary ∷ cs) = check_groups_of ref (suc i) cs

unfoldable pub check_groups : List Kit → List Problem
unfolding check_groups_of
check_groups [] = []
check_groups (u ∷ us) = check_groups_of u.reference 0 u.descriptor.capabilities ++ check_groups us
