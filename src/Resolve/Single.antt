-- ===== src/Resolve/Single.antt =====
-- What the checks of resolve/resolve.go on owners amount to.
use sandbox_kit_spec.Base.{
  ℕ, suc, ◌≡◌, refl, ap, ap₂, ◌∙◌, Bool, true, false, ◌&&◌, ◌||◌, Option, none, some, List, [], ◌∷◌,
  all, is_empty, is_empty-append, Text, ltb, leb, ◌==◌, if◌then◌else◌, Result, ok, err, is_ok,
  arith, Bool-cases, inl, inr,
}
use sandbox_kit_spec.Version.Error.{Error}
use sandbox_kit_spec.Version.Constraint.{Provide}
use sandbox_kit_spec.Version.Require.{parse_provide}
use sandbox_kit_spec.Resolve.Kit.{Kit, Capability, group, credential, ordinary, is_workload}
use sandbox_kit_spec.Resolve.Provides.{index_entry, index_entries, fallback_version, provides_index}
use sandbox_kit_spec.Resolve.Owners.{find_workload, check_one_workload, missing_workload}
use sandbox_kit_spec.Resolve.Check.{check_groups_of, check_groups}
use sandbox_kit_spec.Resolve.Met.{is_some}

unfoldable pub workloads : List Kit → ℕ
workloads [] = 0
workloads (u ∷ us) = let rest = workloads us in if is_workload u then suc rest else rest

-- One workload, or none where the set may be partial.
abbrev pub one_workload : Bool → List Kit → Bool
one_workload partial us = leb (workloads us) 1 && (partial || ltb 0 (workloads us))

-- What the loop finds behind a first workload.
pub find_workload-first :
    (first : Kit) (us : List Kit)
    → (is_empty (find_workload (some first) us).problems ≡ (workloads us == 0))
      × ((find_workload (some first) us).workload ≡ some first)
unfolding find_workload workloads
find_workload-first first [] = (refl, refl)
find_workload-first first (u ∷ us) = elim (Bool-cases (is_workload u)) [
  | inl e ↦ rw e (ground arith, (find_workload-first first us).1)
  | inr e ↦ rw e (find_workload-first first us)
]

pub find_workload-none :
    (us : List Kit)
    → (is_empty (find_workload none us).problems ≡ leb (workloads us) 1)
      × (is_some (find_workload none us).workload ≡ ltb 0 (workloads us))
unfolding find_workload workloads
find_workload-none [] = (refl, refl)
find_workload-none (u ∷ us) = elim (Bool-cases (is_workload u)) [
  | inl e ↦ rw e (
    ground (arith, (find_workload-first u us).0),
    rw ((find_workload-first u us).1) (ground arith),
  )
  | inr e ↦ rw e (find_workload-none us)
]

missing_workload-empty :
    (partial : Bool) (w : Option Kit)
    → is_empty (missing_workload partial w) ≡ (partial || is_some w)
missing_workload-empty true none = refl
missing_workload-empty false none = refl
missing_workload-empty true (some u) = refl
missing_workload-empty false (some u) = refl

pub check_one_workload-empty :
    (partial : Bool) (us : List Kit)
    → is_empty (check_one_workload partial us).problems ≡ one_workload partial us
unfolding check_one_workload
check_one_workload-empty partial us =
    is_empty-append (find_workload none us).problems
      (missing_workload partial (find_workload none us).workload)
    ∙ ap₂ ◌&&◌ (find_workload-none us).0 (
        missing_workload-empty partial (find_workload none us).workload
        ∙ ap (λ b. partial || b) (find_workload-none us).1)

-- The entries of provides parse.
abbrev pub provides_parse : Kit → Bool
provides_parse u = all (λ s. is_ok (parse_provide s)) u.descriptor.provides

index_entry-empty :
    (u : Kit) (fallback : Text) (parsed : Result Error Provide)
    → is_empty (index_entry u fallback parsed).problems ≡ is_ok parsed
index_entry-empty u fallback (err e) = refl
index_entry-empty u fallback (ok p) = refl

index_entries-empty :
    (u : Kit) (fallback : Text) (ss : List Text)
    → is_empty (index_entries u fallback ss).problems ≡ all (λ s. is_ok (parse_provide s)) ss
unfolding index_entries
index_entries-empty u fallback [] = refl
index_entries-empty u fallback (s ∷ ss) =
    is_empty-append (index_entry u fallback (parse_provide s)).problems
      (index_entries u fallback ss).problems
    ∙ ap₂ ◌&&◌ (index_entry-empty u fallback (parse_provide s)) (index_entries-empty u fallback ss)

pub provides_index-empty :
    (us : List Kit) → is_empty (provides_index us).problems ≡ all provides_parse us
unfolding provides_index
provides_index-empty [] = refl
provides_index-empty (u ∷ us) =
    is_empty-append (index_entries u (fallback_version u) u.descriptor.provides).problems
      (provides_index us).problems
    ∙ ap₂ ◌&&◌ (index_entries-empty u (fallback_version u) u.descriptor.provides)
        (provides_index-empty us)

abbrev pub is_selected : Capability → Bool
is_selected group = false
is_selected (credential c) = true
is_selected ordinary = true

abbrev pub all_selected : Kit → Bool
all_selected u = all is_selected u.descriptor.capabilities

check_groups_of-empty :
    (ref : Text) (i : ℕ) (cs : List Capability)
    → is_empty (check_groups_of ref i cs) ≡ all is_selected cs
unfolding check_groups_of
check_groups_of-empty ref i [] = refl
check_groups_of-empty ref i (group ∷ cs) = refl
check_groups_of-empty ref i (credential c ∷ cs) = check_groups_of-empty ref (suc i) cs
check_groups_of-empty ref i (ordinary ∷ cs) = check_groups_of-empty ref (suc i) cs

pub check_groups-empty : (us : List Kit) → is_empty (check_groups us) ≡ all all_selected us
unfolding check_groups
check_groups-empty [] = refl
check_groups-empty (u ∷ us) =
    is_empty-append (check_groups_of u.reference 0 u.descriptor.capabilities) (check_groups us)
    ∙ ap₂ ◌&&◌ (check_groups_of-empty u.reference 0 u.descriptor.capabilities)
        (check_groups-empty us)
