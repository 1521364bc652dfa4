-- ===== src/Resolve/Owners.antt =====
-- The checks of resolve/resolve.go that something has one owner in the set: checkOneWorkload,
-- checkOneProviderPerName, checkOneCredentialOwner.
use sandbox_kit_spec.Base.{
  has_text, Bool, false, ◌&&◌, ◌||◌, Option, none, some, List, [], ◌∷◌, ◌++◌, map, length, filter,
  Text, text_eq, compare_text, sort_texts, Ordering, or_else, is_gt, ltb, if◌then◌else◌,
}
use sandbox_kit_spec.Resolve.Kit.{
  Kit, Provider, Credential, Capability, group, credential, ordinary, is_workload,
}
use sandbox_kit_spec.Resolve.Problem.{
  Problem, many_workloads, no_workload, many_owners, many_credentials,
}
use sandbox_kit_spec.Resolve.Provides.{provides_named}
use sandbox_kit_spec.Resolve.Order.{has}

pub record Found : Type 0 where
  pub workload : Option Kit
  pub problems : List Problem

abbrev pub keep_first : Option Kit → Kit → Option Kit
keep_first none u = some u
keep_first (some first) u = some first

abbrev pub second_workload : Option Kit → Kit → List Problem
second_workload none u = []
second_workload (some first) u = many_workloads first.reference u.reference ∷ []

unfoldable pub find_workload : Option Kit → List Kit → Found
unfolding is_workload
find_workload w [] = record { workload = w; problems = [] }
find_workload w (u ∷ us) =
    let base = if is_workload u then keep_first w u else w in
    let found = find_workload base us in
    record found {
      problems = (if is_workload u then second_workload w u else []) ++ found.problems;
    }

abbrev pub missing_workload : Bool → Option Kit → List Problem
missing_workload partial none = if partial then [] else no_workload ∷ []
missing_workload partial (some u) = []

unfoldable pub check_one_workload : Bool → List Kit → Found
unfolding find_workload
check_one_workload partial us =
    let found = find_workload none us in
    record found { problems = found.problems ++ missing_workload partial found.workload }

-- The first provide of every kit.
unfoldable pub first_offers : List Kit → List Provider → List Provider
unfolding has
first_offers seen [] = []
first_offers seen (p ∷ ps) =
    let repeated = has seen p.kit in
    let rest = first_offers (if repeated then seen else p.kit ∷ seen) ps in
    if repeated then rest else p ∷ rest

unfoldable pub offers : Text → List Provider → List Provider
unfolding provides_named first_offers
offers name ps = first_offers [] (provides_named name ps)

-- The keys of the index.
unfoldable pub provided_names : List Text → List Provider → List Text
unfolding has_text
provided_names seen [] = []
provided_names seen (p ∷ ps) =
    let name = p.provide.name in
    let repeated = has_text seen name in
    let rest = provided_names (if repeated then seen else name ∷ seen) ps in
    if repeated then rest else name ∷ rest

unfoldable pub is_contested : List Provider → Text → Bool
unfolding offers
is_contested ps name = ltb 1 (length (offers name ps))

unfoldable pub check_one_provider_per_name : List Provider → List Problem
unfolding is_contested offers provided_names sort_texts filter
check_one_provider_per_name ps =
    map (λ name. many_owners name (offers name ps))
      (sort_texts (filter (is_contested ps) (provided_names [] ps)))

-- A unit that declares a credential for a phase.
pub record Owner : Type 0 where
  pub service : Text
  pub phase : Text
  pub reference : Text

abbrev pub cons_credential : Option Credential → Option (List Credential) → Option (List Credential)
cons_credential (some c) (some cs) = some (c ∷ cs)
cons_credential _ _ = none

-- spec.CredentialsOf
unfoldable pub credentials_of : List Capability → Option (List Credential)
credentials_of [] = some []
credentials_of (group ∷ cs) = credentials_of cs
credentials_of (ordinary ∷ cs) = credentials_of cs
credentials_of (credential c ∷ cs) = cons_credential c (credentials_of cs)

abbrev pub phase_owners : Text → Credential → List Owner
phase_owners ref c =
    map (λ phase. record { service = c.service; phase = phase; reference = ref }) c.phase

unfoldable pub credential_owners : Text → List Credential → List Owner
credential_owners ref [] = []
credential_owners ref (c ∷ cs) = phase_owners ref c ++ credential_owners ref cs

abbrev pub unit_owners : Text → Option (List Credential) → List Owner
unit_owners ref none = []
unit_owners ref (some cs) = credential_owners ref cs

unfoldable pub all_owners : List Kit → List Owner
unfolding credentials_of credential_owners
all_owners [] = []
all_owners (u ∷ us) =
    unit_owners u.reference (credentials_of u.descriptor.capabilities) ++ all_owners us

abbrev pub same_key : Owner → Owner → Bool
same_key o k = text_eq o.service k.service && text_eq o.phase k.phase

unfoldable pub owners_of : Owner → List Owner → List Owner
unfolding filter
owners_of k os = filter (λ (o : Owner). same_key o k) os

unfoldable pub has_key : List Owner → Owner → Bool
unfolding text_eq
has_key [] k = false
has_key (o ∷ os) k = same_key o k || has_key os k

-- The keys of the map of owners, each by the first owner under it.
unfoldable pub credential_keys : List Owner → List Owner → List Owner
unfolding has_key
credential_keys seen [] = []
credential_keys seen (o ∷ os) =
    let repeated = has_key seen o in
    let rest = credential_keys (if repeated then seen else o ∷ seen) os in
    if repeated then rest else o ∷ rest

-- sort.Slice by service, then phase
abbrev pub compare_keys : Owner → Owner → Ordering
compare_keys j k = or_else (compare_text j.service k.service) (compare_text j.phase k.phase)

unfoldable pub insert_key : Owner → List Owner → List Owner
unfolding compare_text
insert_key k [] = k ∷ []
insert_key k (o ∷ os) =
    let rest = insert_key k os in if is_gt (compare_keys k o) then o ∷ rest else k ∷ o ∷ os

unfoldable pub sort_keys : List Owner → List Owner
unfolding insert_key
sort_keys [] = []
sort_keys (k ∷ ks) = insert_key k (sort_keys ks)

unfoldable pub check_one_credential_owner : List Kit → List Problem
unfolding all_owners credential_keys owners_of sort_keys filter
check_one_credential_owner us =
    let os = all_owners us in
    map
      (λ (k : Owner).
        many_credentials k.service k.phase (map (λ (o : Owner). o.reference) (owners_of k os)))
      (sort_keys (filter (λ (k : Owner). ltb 1 (length (owners_of k os))) (credential_keys [] os)))
