-- ===== src/Resolve/Provides.antt =====
-- The index of what a set provides, of resolve/resolve.go: providesIndex, satisfiedBy,
-- othersProviding. The map from a name to its providers is the list of all of them, in the order
-- in which the code adds them; the entry of a name is what the list has under it.
use sandbox_kit_spec.Base.{
  not, Option, none, some, List, [], ◌∷◌, ◌++◌, Text, text_eq, filter, if◌then◌else◌, Result, ok,
  err,
}
use sandbox_kit_spec.Version.Error.{Error}
use sandbox_kit_spec.Version.Constraint.{Provide, Require, satisfies}
use sandbox_kit_spec.Version.Require.{parse_provide}
use sandbox_kit_spec.Resolve.Kit.{Kit, Provider}
use sandbox_kit_spec.Resolve.Reference.{version_from_reference, or_version}
use sandbox_kit_spec.Resolve.Problem.{Problem, bad_entry}
use sandbox_kit_spec.Resolve.Order.{same}

pub record Index : Type 0 where
  pub providers : List Provider
  pub problems : List Problem

abbrev pub joined : Index → Index → Index
joined i j = record { providers = i.providers ++ j.providers; problems = i.problems ++ j.problems }

abbrev pub no_index : Index
no_index = record { providers = []; problems = [] }

-- An explicit version of the entry wins over the fallback.
abbrev pub index_entry : Kit → Text → Result Error Provide → Index
index_entry u fallback (err e) = record { providers = []; problems = bad_entry u.reference e ∷ [] }
index_entry u fallback (ok p) =
    let provide = record p { version = or_version p.version fallback } in
    record { providers = record { kit = u; provide = provide } ∷ []; problems = [] }

unfoldable pub index_entries : Kit → Text → List Text → Index
unfolding parse_provide
index_entries u fallback [] = no_index
index_entries u fallback (s ∷ ss) =
    joined (index_entry u fallback (parse_provide s)) (index_entries u fallback ss)

unfoldable pub fallback_version : Kit → Text
unfolding version_from_reference
fallback_version u = or_version (version_from_reference u.reference) u.descriptor.version

unfoldable pub provides_index : List Kit → Index
unfolding fallback_version index_entries
provides_index [] = no_index
provides_index (u ∷ us) =
    joined (index_entries u (fallback_version u) u.descriptor.provides) (provides_index us)

-- provides[name]
unfoldable pub provides_named : Text → List Provider → List Provider
unfolding text_eq filter
provides_named name ps = filter (λ (p : Provider). text_eq p.provide.name name) ps

unfoldable pub others_providing : Text → List Provider → Kit → List Provider
unfolding provides_named filter
others_providing name ps self =
    filter (λ (c : Provider). not (same c.kit self)) (provides_named name ps)

-- The loop of satisfiedBy over the providers of the name.
unfoldable pub first_satisfying : Require → Kit → List Provider → Option Kit
unfolding satisfies
first_satisfying r self [] = none
first_satisfying r self (c ∷ cs) =
    let rest = first_satisfying r self cs in
    if same c.kit self then rest else if satisfies c.provide r then some c.kit else rest

unfoldable pub satisfied_by : Require → List Provider → Kit → Option Kit
unfolding provides_named first_satisfying
satisfied_by r ps self = first_satisfying r self (provides_named r.name ps)
