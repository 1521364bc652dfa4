-- ===== src/Resolve/Precede.antt =====
-- Providers before the units that need them: what the edges of `order` in resolve/resolve.go make of
-- a composition order.
use sandbox_kit_spec.Base.{
  ◌<◌, ◌≡◌, refl, ap, ap₂, ◌∙◌, Bool, true, false, ◌&&◌, ◌||◌, Option, none, some, List, [], ◌∷◌,
  ◌++◌, all, any, all-cong, all-implies, any-append, Text, if◌then◌else◌, ==_iff, arith, Bool-cases,
  inl, inr,
}
use sandbox_kit_spec.Version.Require.{parse_require}
use sandbox_kit_spec.Resolve.Kit.{Kit, Provider}
use sandbox_kit_spec.Resolve.Order.{Edge, same, has}
use sandbox_kit_spec.Resolve.Order.Members.{has-append, has-address}
use sandbox_kit_spec.Resolve.Order.Pending.{pending}
use sandbox_kit_spec.Resolve.Order.Choice.{is_composition}
use sandbox_kit_spec.Resolve.Run.{met_by, new_dependency, edges_to, entry_edges, edges}

abbrev pub has_edge : List Edge → Kit → Kit → Bool
has_edge es p u = any (λ (e : Edge). same e.provider p && same e.dependent u) es

-- Read from the front, the units have p before they have u.
unfoldable pub provider_first : Kit → Kit → List Kit → Bool
provider_first p u [] = true
provider_first p u (v ∷ vs) =
    let rest = provider_first p u vs in if same v u then false else if same v p then true else rest

abbrev pub follows : List Kit → Kit → Option Kit → Bool
follows os u none = true
follows os u (some p) = provider_first p u os

abbrev entries : Kit → List Text
entries u = u.descriptor.requires ++ u.descriptor.integrates

-- Every unit stands behind the provider of each of its entries.
abbrev pub providers_first : List Provider → List Kit → List Kit → Bool
providers_first ps us os =
    all (λ (u : Kit). all (λ s. follows os u (met_by ps u (parse_require s))) (entries u)) us

pending-has_edge :
    (es : List Edge) (placed : List Kit) (p u : Kit)
    → has_edge es p u ≡ true
    → has placed p ≡ false
    → 0 < pending es placed u.address
unfolding pending
pending-has_edge [] placed p u h k = cc
pending-has_edge (e ∷ es) placed p u h k =
    elim (Bool-cases (same e.provider p && same e.dependent u)) [
      | inl f ↦
          let a : has placed e.provider ≡ has placed p =
            has-address placed e.provider p
              ((==_iff e.provider.address p.address).0 (ground arith)) in
          ground (arith, a)
      | inr f ↦ ground (arith, pending-has_edge es placed p u (ground arith) k)
    ]

is_composition-provider_first :
    (us : List Kit) (es : List Edge) (placed os : List Kit) (p u : Kit)
    → is_composition us es placed os ≡ true
    → has_edge es p u ≡ true
    → has placed p ≡ false
    → provider_first p u os ≡ true
unfolding is_composition provider_first
is_composition-provider_first us es placed [] p u c h k = refl
is_composition-provider_first us es placed (v ∷ vs) p u c h k = elim (Bool-cases (same v u)) [
  | inl e ↦
      let a : v.address ≡ u.address = (==_iff v.address u.address).0 e in
      let free : pending es placed v.address ≡ 0 =
        (==_iff (pending es placed v.address) 0).0 (ground arith) in
      let some_left = pending-has_edge es placed p u h k in
      absurd (ground (arith, ap (pending es placed) a))
  | inr e ↦ elim (Bool-cases (same v p)) [
    | inl f ↦ ground arith
    | inr f ↦ ground (
      arith,
      is_composition-provider_first us es (placed ++ v ∷ []) vs p u (ground arith) h
          (unfold has in ground (arith, has-append placed (v ∷ []) p)),
    )
  ]
]

-- An entry whose provider is a known dependency or has an edge.
abbrev is_covered : List Kit → List Edge → Kit → Option Kit → Bool
is_covered deps es u none = true
is_covered deps es u (some p) = has deps p || has_edge es p u

edges_to-has_edge : (u : Kit) (ps : List Kit) (p : Kit) → has_edge (edges_to u ps) p u ≡ has ps p
unfolding has
edges_to-has_edge u [] p = refl
edges_to-has_edge u (q ∷ ps) p = ground (arith, edges_to-has_edge u ps p)

is_covered-shift :
    (deps new : List Kit) (es : List Edge) (u : Kit) (found : Option Kit)
    → is_covered deps (edges_to u new ++ es) u found ≡ is_covered (new ++ deps) es u found
is_covered-shift deps new es u none = refl
is_covered-shift deps new es u (some p) = ground (
  arith,
  any-append (λ (e : Edge). same e.provider p && same e.dependent u) (edges_to u new) es,
  edges_to-has_edge u new p,
  has-append new deps p,
)

new_dependency-has :
    (deps : List Kit) (es : List Edge) (u : Kit) (found : Option Kit)
    → is_covered (new_dependency deps found ++ deps) es u found ≡ true
unfolding has
new_dependency-has deps es u none = refl
new_dependency-has deps es u (some p) = elim (Bool-cases (has deps p)) [
  | inl e ↦ rw e (rw e refl)
  | inr e ↦ rw e (ground arith)
]

entry_edges-is_covered :
    (ps : List Provider) (u : Kit) (deps : List Kit) (ss : List Text)
    → all (λ s. is_covered deps (entry_edges ps u deps ss) u (met_by ps u (parse_require s))) ss
      ≡ true
unfolding entry_edges
entry_edges-is_covered ps u deps [] = refl
entry_edges-is_covered ps u deps (s ∷ ss) =
    let found = met_by ps u (parse_require s) in
    let new = new_dependency deps found in
    let rest = entry_edges ps u (new ++ deps) ss in
    ap₂ ◌&&◌ (is_covered-shift deps new rest u found ∙ new_dependency-has deps rest u found) (
      all-cong _ _ (λ t. is_covered-shift deps new rest u (met_by ps u (parse_require t))) ss
      ∙ entry_edges-is_covered ps u (new ++ deps) ss)

-- Each entry that another unit satisfies has its edge.
abbrev has_edges : List Provider → List Edge → Kit → Bool
has_edges ps es u = all (λ s. is_covered [] es u (met_by ps u (parse_require s))) (entries u)

is_covered-append :
    (xs es : List Edge) (u : Kit) (found : Option Kit)
    → (is_covered [] xs u found || is_covered [] es u found) ≡ true
    → is_covered [] (xs ++ es) u found ≡ true
is_covered-append xs es u none h = refl
is_covered-append xs es u (some p) h =
    ground (arith, any-append (λ (e : Edge). same e.provider p && same e.dependent u) xs es)

edges-has_edges : (ps : List Provider) (us : List Kit) → all (has_edges ps (edges ps us)) us ≡ true
unfolding edges
edges-has_edges ps [] = refl
edges-has_edges ps (u ∷ us) =
    let mine = entry_edges ps u [] (entries u) in
    let rest = edges ps us in
    ap₂ ◌&&◌
      (all-implies _ _ (entries u)
        (λ s h. is_covered-append mine rest u (met_by ps u (parse_require s)) (ground (arith, h)))
        (entry_edges-is_covered ps u [] (entries u)))
      (all-implies _ _ us
        (λ v h.
          all-implies _ _ (entries v)
            (λ s k.
              is_covered-append mine rest v (met_by ps v (parse_require s)) (ground (arith, k)))
            h)
        (edges-has_edges ps us))

covered-follows :
    (us : List Kit) (es : List Edge) (os : List Kit) (u : Kit) (found : Option Kit)
    → is_composition us es [] os ≡ true
    → is_covered [] es u found ≡ true
    → follows os u found ≡ true
unfolding has
covered-follows us es os u none c h = refl
covered-follows us es os u (some p) c h = is_composition-provider_first us es [] os p u c h refl

pub edges-providers_first :
    (ps : List Provider) (us os : List Kit)
    → is_composition us (edges ps us) [] os ≡ true
    → providers_first ps us os ≡ true
edges-providers_first ps us os c =
    all-implies _ _ us
      (λ u h.
        all-implies _ _ (entries u)
          (λ s k. covered-follows us (edges ps us) os u (met_by ps u (parse_require s)) c k) h)
      (edges-has_edges ps us)
