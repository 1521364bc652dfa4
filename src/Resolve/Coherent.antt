-- ===== src/Resolve/Coherent.antt =====
-- When a set is coherent for `resolve` of resolve/resolve.go, said without its maps and loops.
use sandbox_kit_spec.Base.{
  ◌≡◌, refl, ap₂, ◌∙◌, Bool, true, false, ◌&&◌, List, [], ◌++◌, all, is_empty, is_empty-append,
  if◌then◌else◌,
}
use sandbox_kit_spec.Resolve.Kit.{Kit}
use sandbox_kit_spec.Resolve.Provides.{provides_index}
use sandbox_kit_spec.Resolve.Owners.{check_one_credential_owner}
use sandbox_kit_spec.Resolve.Check.{check_groups}
use sandbox_kit_spec.Resolve.Met.{
  requires_met, integrates_met, conflicts_absent, check_requires-empty, check_integrates-empty,
  check_conflicts-empty,
}
use sandbox_kit_spec.Resolve.Single.{
  one_workload, provides_parse, all_selected, check_one_workload-empty, provides_index-empty,
  check_groups-empty,
}
use sandbox_kit_spec.Resolve.Unshared.{
  names_unshared, credentials_unshared, check_one_provider_per_name-empty,
  check_one_credential_owner-empty,
}
use sandbox_kit_spec.Resolve.Run.{set_problems}

-- The capabilities are selected, and each credential is declared once.
abbrev pub capabilities_coherent : Bool → List Kit → Bool
capabilities_coherent capabilities us =
    if capabilities then all all_selected us && credentials_unshared us else true

abbrev pub coherent : Bool → Bool → List Kit → Bool
coherent partial capabilities us =
    let ps = (provides_index us).providers in
    one_workload partial us
    && (all provides_parse us
        && (names_unshared ps
            && (capabilities_coherent capabilities us
                && (all (requires_met ps) us
                    && (all (integrates_met ps) us && all (conflicts_absent ps) us)))))

capability_problems-empty :
    (capabilities : Bool) (us : List Kit)
    → is_empty (if capabilities then check_groups us ++ check_one_credential_owner us else [])
      ≡ capabilities_coherent capabilities us
capability_problems-empty true us =
    is_empty-append (check_groups us) (check_one_credential_owner us)
    ∙ ap₂ ◌&&◌ (check_groups-empty us) (check_one_credential_owner-empty us)
capability_problems-empty false us = refl

is_empty-chain {ℓ} :
    {A : Type ℓ} (xs ys : List A) {b c : Bool}
    → is_empty xs ≡ b
    → is_empty ys ≡ c
    → is_empty (xs ++ ys) ≡ (b && c)
is_empty-chain xs ys h k = is_empty-append xs ys ∙ ap₂ ◌&&◌ h k

-- For every set of described units: `resolve` finds no problem in it if and only if it is
-- coherent. That is: it has one workload (or none, where it may be partial); each entry of provides
-- parses; providers of one name are of one unit; if capabilities are judged, none is a group and no
-- two declare a credential for the same service and phase; each entry of requires parses, and
-- another unit's provide satisfies it; each entry of integrates parses, and another unit's provide
-- satisfies it if any other unit provides its name; and no unit provides a name that another one
-- conflicts with.
pub set_problems-coherent :
    (partial capabilities : Bool) (us : List Kit)
    → is_empty (set_problems partial capabilities us) ≡ coherent partial capabilities us
unfolding set_problems
set_problems-coherent partial capabilities us =
    let ps = (provides_index us).providers in
    is_empty-chain _ _ (check_one_workload-empty partial us) (
      is_empty-chain _ _ (provides_index-empty us) (
        is_empty-chain _ _ (check_one_provider_per_name-empty ps) (
          is_empty-chain _ _ (capability_problems-empty capabilities us) (
            is_empty-chain _ _ (check_requires-empty ps us)
              (is_empty-chain _ _ (check_integrates-empty ps us) (check_conflicts-empty ps us))))))
