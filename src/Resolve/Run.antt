-- ===== src/Resolve/Run.antt =====
-- The entry points of resolve/resolve.go: resolve, Resolve, ResolvePartial, Dependencies, and the
-- two orders of a Resolution.
use sandbox_kit_spec.Base.{
  Bool, true, false, not, Option, none, some, List, [], ◌∷◌, ◌++◌, Text, filter, if◌then◌else◌,
  Result, ok, err, ◌>>=◌, ◌>>◌,
}
use sandbox_kit_spec.Version.Error.{Error}
use sandbox_kit_spec.Version.Constraint.{Require}
use sandbox_kit_spec.Version.Require.{parse_require}
use sandbox_kit_spec.Resolve.Kit.{Kit, Consumed, Descriptor, Provider}
use sandbox_kit_spec.Resolve.Problem.{Problem}
use sandbox_kit_spec.Resolve.Provides.{provides_index, satisfied_by}
use sandbox_kit_spec.Resolve.Owners.{
  check_one_workload, check_one_provider_per_name, check_one_credential_owner,
}
use sandbox_kit_spec.Resolve.Check.{check_groups, check_requires, check_integrates, check_conflicts}
use sandbox_kit_spec.Resolve.Order.{Edge, same, has, OrderError, order_edges}

abbrev pub met_by : List Provider → Kit → Result Error Require → Option Kit
met_by ps u (err e) = none
met_by ps u (ok r) = satisfied_by r ps u

-- The provider of an entry, if it is not among the unit's dependencies yet.
abbrev pub new_dependency : List Kit → Option Kit → List Kit
new_dependency deps none = []
new_dependency deps (some p) = if has deps p then [] else p ∷ []

abbrev pub edges_to : Kit → List Kit → List Edge
edges_to u [] = []
edges_to u (p ∷ ps) = record { provider = p; dependent = u } ∷ edges_to u ps

unfoldable pub entry_edges : List Provider → Kit → List Kit → List Text → List Edge
unfolding parse_require satisfied_by has
entry_edges ps u deps [] = []
entry_edges ps u deps (s ∷ ss) =
    let new = new_dependency deps (met_by ps u (parse_require s)) in
    edges_to u new ++ entry_edges ps u (new ++ deps) ss

unfoldable pub edges : List Provider → List Kit → List Edge
unfolding entry_edges
edges ps [] = []
edges ps (u ∷ us) =
    entry_edges ps u [] (u.descriptor.requires ++ u.descriptor.integrates) ++ edges ps us

unfoldable pub order : List Kit → List Provider → Result OrderError (List Kit)
unfolding edges order_edges
order us ps = order_edges us (edges ps us)

pub data ResolveError : Type 0 where
  empty_set : ResolveError
  no_descriptor : Text → ResolveError
  incoherent : List Problem → ResolveError
  unordered : OrderError → ResolveError

pub record Resolution : Type 0 where
  pub workload : Option Kit
  pub mixins : List Kit
  pub topological : List Kit

abbrev pub describe : Consumed → Option Descriptor → Result ResolveError Kit
describe c none = err (no_descriptor c.reference)
describe c (some d) =
    ok (record { address = c.address; reference = c.reference; digest = c.digest; descriptor = d })

-- The loop that looks for a unit without a descriptor.
unfoldable pub described : List Consumed → Result ResolveError (List Kit)
described [] = ok []
described (c ∷ cs) = do u ← describe c c.descriptor; us ← described cs; ok (u ∷ us)

abbrev pub is_base : Option Kit → Kit → Bool
is_base none u = false
is_base (some w) u = same u w

abbrev pub without_base : Option Kit → List Kit → List Kit
without_base w us = filter (λ u. not (is_base w u)) us

abbrev pub wrap_order {ℓ} : {A : Type ℓ} → Result OrderError A → Result ResolveError A
wrap_order (ok a) = ok a
wrap_order (err e) = err (unordered e)

abbrev pub check_coherent : List Problem → Result ResolveError (Unit {0})
check_coherent [] = ok tt
check_coherent (p ∷ ps) = err (incoherent (p ∷ ps))

abbrev pub check_nonempty : List Consumed → Result ResolveError (Unit {0})
check_nonempty [] = err empty_set
check_nonempty (c ∷ cs) = ok tt

-- Every problem of the set, in the order of the checks.
unfoldable pub set_problems : Bool → Bool → List Kit → List Problem
unfolding check_one_workload provides_index check_one_provider_per_name check_groups
    check_one_credential_owner check_requires check_integrates check_conflicts
set_problems partial capabilities us =
    let index = provides_index us in
    (check_one_workload partial us).problems
    ++ (index.problems
        ++ (check_one_provider_per_name index.providers
            ++ ((if capabilities then check_groups us ++ check_one_credential_owner us else [])
                ++ (check_requires index.providers us
                    ++ (check_integrates index.providers us
                        ++ check_conflicts index.providers us)))))

unfoldable pub resolve_units : Bool → Bool → List Kit → Result ResolveError Resolution
unfolding set_problems check_one_workload provides_index order filter
resolve_units partial capabilities us =
    let workload = (check_one_workload partial us).workload in
    check_coherent (set_problems partial capabilities us) >> (do
      ordered ← wrap_order (order us (provides_index us).providers)
      ok (record {
        workload = workload;
        mixins = without_base workload ordered;
        topological = ordered;
      }))

unfoldable pub resolve : List Consumed → Bool → Bool → Result ResolveError Resolution
unfolding described resolve_units
resolve cs partial capabilities =
    check_nonempty cs >> (do us ← described cs; resolve_units partial capabilities us)

-- Resolve
abbrev pub resolve_set : List Consumed → Result ResolveError Resolution
resolve_set cs = resolve cs false true

abbrev pub resolve_partial : List Consumed → Result ResolveError Resolution
resolve_partial cs = resolve cs true true

abbrev pub dependencies : List Consumed → Bool → Result ResolveError Resolution
dependencies cs partial = resolve cs partial false

-- Ordered
unfoldable pub composed : Resolution → List Kit
composed r = elim r.workload [ none ↦ r.mixins | some w ↦ w ∷ r.mixins ]
