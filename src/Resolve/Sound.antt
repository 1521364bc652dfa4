-- ===== src/Resolve/Sound.antt =====
-- What `resolve` of resolve/resolve.go promises of the resolution that it returns, and what it says
-- of the sets that it refuses.
use sandbox_kit_spec.Base.{
  ℕ, ◌≡◌, ◌⊎◌, refl, sym, ap, subst, ◌∙◌, Bool, true, false, List, [], ◌∷◌, All, is_empty, Text,
  sort_texts, if◌then◌else◌, ◌==◌, ==_iff, Result, ok, err, ◌>>=◌, ◌>>◌, bind-ok, ok-injective,
  err-injective, arith, Bool-cases, inl, inr,
}
use sandbox_kit_spec.Resolve.Kit.{Kit, Provider}
use sandbox_kit_spec.Resolve.Problem.{Problem}
use sandbox_kit_spec.Resolve.Provides.{provides_index}
use sandbox_kit_spec.Resolve.Owners.{check_one_workload}
use sandbox_kit_spec.Resolve.Order.{Edge, has, references, OrderError, cycle}
use sandbox_kit_spec.Resolve.Order.Members.{distinct, has-address, has_self}
use sandbox_kit_spec.Resolve.Order.Choice.{Named}
use sandbox_kit_spec.Resolve.Order.Composed.{
  InOrder, IsStuck, order_edges-InOrder, order_edges-IsStuck,
}
use sandbox_kit_spec.Resolve.Run.{
  edges, order, ResolveError, incoherent, unordered, Resolution, without_base, wrap_order,
  check_coherent, set_problems, resolve_units,
}
use sandbox_kit_spec.Resolve.Coherent.{coherent, set_problems-coherent}
use sandbox_kit_spec.Resolve.Edges.{provides_index-Provided, edges-ends}
use sandbox_kit_spec.Resolve.Precede.{providers_first, edges-providers_first}

-- The reference of the unit at an address.
unfoldable reference_at : List Kit → ℕ → Text
reference_at [] a = []
reference_at (u ∷ us) a =
    let rest = reference_at us a in if u.address == a then u.reference else rest

behind :
    (v : Kit) (all_units vs : List Kit)
    → has all_units v ≡ false
    → All (Named (reference_at all_units) all_units) vs
    → All (Named (reference_at (v ∷ all_units)) (v ∷ all_units)) vs
unfolding has reference_at
behind v us [] f h = tt
behind v us (u ∷ vs) f h =
    let apart : (v.address == u.address) ≡ false =
      ground (arith, has-address us v u, h.0.0, ==_iff v.address u.address) in
    ((ground (arith, h.0.0), h.0.1 ∙ rw apart refl), behind v us vs f h.1)

-- Distinct units are under the references of their addresses.
Named-distinct : (us : List Kit) → distinct us ≡ true → All (Named (reference_at us) us) us
Named-distinct [] d = tt
Named-distinct (u ∷ us) d = (
  (has_self u us, unfold reference_at in ground arith),
  behind u us us (ground arith) (Named-distinct us (ground arith)),
)

weaken_has :
    (us : List Kit) (ref : ℕ → Text) (es : List Edge)
    → All (λ (e : Edge). Named ref us e.provider) es
    → All (λ (e : Edge). has us e.provider ≡ true) es
weaken_has us ref [] h = tt
weaken_has us ref (e ∷ es) h = (h.0.0, weaken_has us ref es h.1)

module _ (us : List Kit) (once : distinct us ≡ true) where
  abbrev providers : List Provider
  providers = (provides_index us).providers

  ends :
      All (λ (e : Edge). Named (reference_at us) us e.provider) (edges providers us)
      × All (λ (e : Edge). Named (reference_at us) us e.dependent) (edges providers us)
  ends =
      edges-ends (Named (reference_at us) us) providers us
        (provides_index-Provided (Named (reference_at us) us) us (Named-distinct us once))
        (Named-distinct us once)

  order-InOrder : (os : List Kit) → order us providers ≡ ok os → InOrder us (edges providers us) os
  unfolding order
  order-InOrder os h =
      order_edges-InOrder (reference_at us) us (edges providers us) once (Named-distinct us once)
        ends.1 os h

  order-IsStuck :
      (reason : OrderError)
      → order us providers ≡ err reason
      → (stuck : List Kit) × (reason ≡ cycle (sort_texts (references stuck)))
        × IsStuck us (edges providers us) stuck
  unfolding order
  order-IsStuck reason h =
      order_edges-IsStuck (reference_at us) us (edges providers us) once (Named-distinct us once)
        ends.1 (weaken_has us (reference_at us) (edges providers us) ends.0) reason h

check_coherent-ok :
    (ps : List Problem) (done : Unit {0}) → check_coherent ps ≡ ok done → is_empty ps ≡ true
check_coherent-ok [] done h = refl
check_coherent-ok (p ∷ ps) done h = cc

wrap_order-ok :
    (r : Result OrderError (List Kit)) (os : List Kit) → wrap_order r ≡ ok os → r ≡ ok os
wrap_order-ok (ok a) os h = ground arith
wrap_order-ok (err e) os h = cc

-- What a resolution of the units has to be.
abbrev pub IsResolved : Bool → Bool → List Kit → Resolution → Type 0
IsResolved partial capabilities us r =
    let ps = (provides_index us).providers in
    (coherent partial capabilities us ≡ true)
    × InOrder us (edges ps us) r.topological
    × (providers_first ps us r.topological ≡ true)
    × (r.workload ≡ (check_one_workload partial us).workload)
    × (r.mixins ≡ without_base r.workload r.topological)

-- For distinct units that `resolve` resolves: the set is coherent; the derived order has every unit
-- once, each being the one with the smallest reference among those that are not placed before it
-- and whose providers all are; a unit stands behind the provider that meets an entry of its
-- requires or integrates; and the mixins are that order without the workload.
pub resolve_units-IsResolved :
    (partial capabilities : Bool) (us : List Kit) (r : Resolution)
    → distinct us ≡ true
    → resolve_units partial capabilities us ≡ ok r
    → IsResolved partial capabilities us r
unfolding resolve_units
resolve_units-IsResolved partial capabilities us r once h =
    let checked = bind-ok (check_coherent (set_problems partial capabilities us)) _ h in
    let sorted = bind-ok (wrap_order (order us (provides_index us).providers)) _ checked.2 in
    let os = sorted.0 in
    let placed =
      order-InOrder us once os
        (wrap_order-ok (order us (provides_index us).providers) os sorted.1) in
    subst (IsResolved partial capabilities us) (ok-injective sorted.2) (
      sym (set_problems-coherent partial capabilities us) ∙ check_coherent-ok _ checked.0 checked.1,
      placed,
      edges-providers_first (provides_index us).providers us os placed.0,
      refl,
      refl,
    )

-- Why the units are not resolved.
abbrev pub IsRefused : Bool → Bool → List Kit → ResolveError → Type 0
IsRefused partial capabilities us e =
    ((coherent partial capabilities us ≡ false)
      × (e ≡ incoherent (set_problems partial capabilities us)))
    ⊎ ((coherent partial capabilities us ≡ true)
        × ((stuck : List Kit) × (e ≡ unordered (cycle (sort_texts (references stuck))))
            × IsStuck us (edges (provides_index us).providers us) stuck))

incoherent_lem :
    (ps : List Problem) (e : ResolveError) (next : Result ResolveError Resolution)
    → is_empty ps ≡ false
    → (check_coherent ps >> next) ≡ err e
    → e ≡ incoherent ps
incoherent_lem [] e next f h = cc
incoherent_lem (p ∷ ps) e next f h = sym (err-injective h)

ordered_next :
    (ps : List Problem) (e : ResolveError) (next : Result ResolveError Resolution)
    → is_empty ps ≡ true
    → (check_coherent ps >> next) ≡ err e
    → next ≡ err e
ordered_next [] e next f h = h
ordered_next (p ∷ ps) e next f h = cc

wrap_order-err :
    (r : Result OrderError (List Kit)) (e : ResolveError) (f : List Kit → Resolution)
    → (wrap_order r >>= (λ os. ok (f os))) ≡ err e
    → (reason : OrderError) × (r ≡ err reason) × (e ≡ unordered reason)
wrap_order-err (ok a) e f h = cc
wrap_order-err (err reason) e f h = (reason, refl, sym (err-injective h))

-- For distinct units that `resolve` refuses: the set is not coherent, and all its problems are
-- reported; or it is coherent, and the references reported are those of a non-empty list of units of
-- the set, each of which requires or integrates with a unit of that list. In particular the sort
-- does not run out of fuel.
pub resolve_units-IsRefused :
    (partial capabilities : Bool) (us : List Kit) (e : ResolveError)
    → distinct us ≡ true
    → resolve_units partial capabilities us ≡ err e
    → IsRefused partial capabilities us e
unfolding resolve_units
resolve_units-IsRefused partial capabilities us e once h =
    let same_test = set_problems-coherent partial capabilities us in
    elim (Bool-cases (coherent partial capabilities us)) [
      | inl c ↦
          let failed =
            wrap_order-err (order us (provides_index us).providers) e _
              (ordered_next (set_problems partial capabilities us) e _ (same_test ∙ c) h) in
          let stuck = order-IsStuck us once failed.0 failed.1 in
          inr (c, (stuck.0, failed.2 ∙ ap unordered stuck.1, stuck.2))
      | inr c ↦ inl (c, incoherent_lem (set_problems partial capabilities us) e _ (same_test ∙ c) h)
    ]
