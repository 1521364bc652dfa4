-- ===== src/Resolve/Layers.antt =====
-- Ordered of resolve/resolve.go: the order in which a set's content lands, the workload first.
use sandbox_kit_spec.Base.{
  suc, ◌≡◌, refl, ap, subst, ◌∙◌, Bool, true, false, not, ◌&&◌, ◌||◌, none, some, List, [], ◌∷◌,
  length, all, filter, Option-cases, leb, ==_iff, ok, arith, Bool-cases, inl, inr,
}
use sandbox_kit_spec.Resolve.Kit.{Kit, is_workload}
use sandbox_kit_spec.Resolve.Owners.{find_workload, check_one_workload}
use sandbox_kit_spec.Resolve.Order.{same, has}
use sandbox_kit_spec.Resolve.Order.Members.{distinct, has-address, has_self}
use sandbox_kit_spec.Resolve.Run.{Resolution, without_base, composed, resolve_units}
use sandbox_kit_spec.Resolve.Single.{
  workloads, one_workload, find_workload-first, find_workload-none,
}
use sandbox_kit_spec.Resolve.Sound.{resolve_units-IsResolved}

without_base-has :
    (w : Kit) (os : List Kit) (u : Kit)
    → has (without_base (some w) os) u ≡ (has os u && not (same w u))
unfolding filter has
without_base-has w [] u = refl
without_base-has w (o ∷ os) u = ground (
  arith,
  without_base-has w os u,
  ==_iff w.address o.address,
  ==_iff w.address u.address,
  ==_iff o.address u.address,
)

without_base-distinct :
    (w : Kit) (os : List Kit) → distinct os ≡ true → distinct (without_base (some w) os) ≡ true
unfolding filter
without_base-distinct w [] h = refl
without_base-distinct w (o ∷ os) h =
    ground (arith, without_base-distinct w os, without_base-has w os o)

without_base-absent : (w : Kit) (os : List Kit) → has os w ≡ false → without_base (some w) os ≡ os
unfolding filter has
without_base-absent w [] h = refl
without_base-absent w (o ∷ os) h =
    ground (arith, without_base-absent w os, ==_iff w.address o.address)

without_base-length :
    (w : Kit) (os : List Kit)
    → distinct os ≡ true
    → has os w ≡ true
    → length os ≡ suc (length (without_base (some w) os))
unfolding filter has
without_base-length w [] h k = cc
without_base-length w (o ∷ os) h k = elim (Bool-cases (same w o)) [
  | inl e ↦
      let absent : has os w ≡ false =
        has-address os w o ((==_iff w.address o.address).0 e) ∙ ground arith in
      ground (arith, ap length (without_base-absent w os absent))
  | inr e ↦ ground (arith, without_base-length w os, ==_iff w.address o.address)
]

-- The workload that the loop finds is one of the units, and is a workload.
found_workload :
    (us : List Kit) (w : Kit)
    → (find_workload none us).workload ≡ some w
    → (has us w ≡ true) × (is_workload w ≡ true)
unfolding find_workload has
found_workload [] w h = cc
found_workload (u ∷ us) w h = elim (Bool-cases (is_workload u)) [
  | inl e ↦
      let mine : u ≡ w = ground (arith, (find_workload-first u us).1) in
      subst (λ k. (has (u ∷ us) k ≡ true) × (is_workload k ≡ true)) mine (has_self u us, e)
  | inr e ↦ let later = found_workload us w (ground arith) in (ground (arith, later.0), later.1)
]

-- No unit but the one is a workload.
abbrev pub is_only : Kit → List Kit → Bool
is_only w us = all (λ (u : Kit). same w u || not (is_workload u)) us

none_left : (w : Kit) (us : List Kit) → workloads us ≡ 0 → is_only w us ≡ true
unfolding workloads
none_left w [] h = refl
none_left w (u ∷ us) h = ground (arith, none_left w us)

found-is_only :
    (us : List Kit) (w : Kit)
    → leb (workloads us) 1 ≡ true
    → (find_workload none us).workload ≡ some w
    → is_only w us ≡ true
unfolding find_workload workloads has
found-is_only [] w c h = refl
found-is_only (u ∷ us) w c h = elim (Bool-cases (is_workload u)) [
  | inl e ↦
      let mine : u ≡ w = ground (arith, (find_workload-first u us).1) in
      ground (arith, ap (λ (k : Kit). k.address) mine, none_left w us)
  | inr e ↦ ground (arith, found-is_only us w)
]

-- A workload and the mixins on it, every unit of the set once.
abbrev pub IsLayered : List Kit → Resolution → Kit → Type 0
IsLayered us r w =
    (composed r ≡ w ∷ r.mixins)
    × (is_workload w ≡ true)
    × (is_only w us ≡ true)
    × (distinct (composed r) ≡ true)
    × (length (composed r) ≡ length us)
    × ((u : Kit) → has us u ≡ true → has (composed r) u ≡ true)

the_workload :
    (us : List Kit)
    → one_workload false us ≡ true
    → (w : Kit) × ((check_one_workload false us).workload ≡ some w)
      × ((find_workload none us).workload ≡ some w)
unfolding check_one_workload
the_workload us h = elim (Option-cases (find_workload none us).workload) [
  | inl e ↦ absurd (ground (arith, (find_workload-none us).1, e))
  | inr e ↦ (e.0, e.1, e.1)
]

distinct_cons :
    (w : Kit) (os : List Kit) → has os w ≡ false → distinct os ≡ true → distinct (w ∷ os) ≡ true
distinct_cons w os h k = ground arith

excluded_one : (w : Kit) (b : Bool) → (b && not (same w w)) ≡ false
excluded_one w b = ground arith

layered_lem :
    (us : List Kit) (r : Resolution) (w : Kit)
    → r.workload ≡ some w
    → r.mixins ≡ without_base (some w) r.topological
    → is_workload w ≡ true
    → is_only w us ≡ true
    → has us w ≡ true
    → distinct r.topological ≡ true
    → length r.topological ≡ length us
    → ((u : Kit) → has us u ≡ true → has r.topological u ≡ true)
    → IsLayered us r w
unfolding composed has
layered_lem us r w e m i o h d l c = (
  rw e refl,
  i,
  o,
  rw (e, m)
      (distinct_cons w (without_base (some w) r.topological)
        (without_base-has w r.topological w ∙ excluded_one w (has r.topological w))
        (without_base-distinct w r.topological d)),
  rw (e, m) (ground (arith, without_base-length w r.topological d (c w h), l)),
  λ u k. rw (e, m) (ground (arith, without_base-has w r.topological u, c u k)),
)

-- For distinct units that `resolve` resolves as a set that has to run: the layers that Ordered
-- returns are a workload and then the mixins; no other unit of the set is a workload; and every
-- unit of the set is a layer once.
pub resolve_units-IsLayered :
    (capabilities : Bool) (us : List Kit) (r : Resolution)
    → distinct us ≡ true
    → resolve_units false capabilities us ≡ ok r
    → (w : Kit) × IsLayered us r w
resolve_units-IsLayered capabilities us r once h =
    let resolved = resolve_units-IsResolved false capabilities us r once h in
    let base = the_workload us (ground (arith, resolved.0)) in
    let found = found_workload us base.0 base.2 in
    let workload : r.workload ≡ some base.0 = resolved.3 ∙ base.1 in
    (
      base.0,
      layered_lem us r base.0 workload
          (resolved.4 ∙ ap (λ k. without_base k r.topological) workload) found.1
          (found-is_only us base.0 (ground (arith, resolved.0)) base.2) found.0 resolved.1.1
          resolved.1.2 resolved.1.3,
    )
