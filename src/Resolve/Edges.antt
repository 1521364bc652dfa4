-- ===== src/Resolve/Edges.antt =====
-- The edges that `order` of resolve/resolve.go sorts by: they stay among the units, and there is one
-- for every entry that another unit satisfies.
use sandbox_kit_spec.Base.{
  ◌≡◌, refl, sym, ap, subst, ◌∙◌, false, not, ◌&&◌, Option, none, some, List, [], ◌∷◌, ◌++◌, All,
  All-append, Text, text_eq, filter, Result, ok, err, arith, Bool-cases, inl, inr,
}
use sandbox_kit_spec.Version.Error.{Error}
use sandbox_kit_spec.Version.Constraint.{Provide, Require, satisfies}
use sandbox_kit_spec.Version.Require.{parse_provide, parse_require}
use sandbox_kit_spec.Resolve.Kit.{Kit, Provider}
use sandbox_kit_spec.Resolve.Provides.{
  index_entry, index_entries, fallback_version, provides_index, provides_named, first_satisfying,
  satisfied_by,
}
use sandbox_kit_spec.Resolve.Order.{Edge, same, has}
use sandbox_kit_spec.Resolve.Run.{met_by, new_dependency, edges_to, entry_edges, edges}

module _ (P : Kit → Type 0) where
  abbrev Provided : List Provider → Type 0
  Provided ps = All (λ (p : Provider). P p.kit) ps

  index_entry-Provided :
      (u : Kit) (fallback : Text) (parsed : Result Error Provide)
      → P u
      → Provided (index_entry u fallback parsed).providers
  index_entry-Provided u fallback (err e) h = tt
  index_entry-Provided u fallback (ok p) h = (h, tt)

  index_entries-Provided :
      (u : Kit) (fallback : Text) (ss : List Text)
      → P u
      → Provided (index_entries u fallback ss).providers
  unfolding index_entries
  index_entries-Provided u fallback [] h = tt
  index_entries-Provided u fallback (s ∷ ss) h =
      All-append (λ (p : Provider). P p.kit) (index_entry u fallback (parse_provide s)).providers
        (index_entries u fallback ss).providers
        (index_entry-Provided u fallback (parse_provide s) h)
        (index_entries-Provided u fallback ss h)

  pub provides_index-Provided : (us : List Kit) → All P us → Provided (provides_index us).providers
  unfolding provides_index
  provides_index-Provided [] h = tt
  provides_index-Provided (u ∷ us) h =
      All-append (λ (p : Provider). P p.kit)
        (index_entries u (fallback_version u) u.descriptor.provides).providers
        (provides_index us).providers
        (index_entries-Provided u (fallback_version u) u.descriptor.provides h.0)
        (provides_index-Provided us h.1)

  satisfied_by-Provided :
      (r : Require) (ps : List Provider) (u : Kit)
      → Provided ps
      → (p : Kit) → satisfied_by r ps u ≡ some p
      → P p × (same p u ≡ false)
  unfolding satisfied_by first_satisfying provides_named filter
  satisfied_by-Provided r [] u h p e = cc
  satisfied_by-Provided r (c ∷ ps) u h p e =
      elim (Bool-cases
        (text_eq c.provide.name r.name && (not (same c.kit u) && satisfies c.provide r))) [
          | inl t ↦
              let f : c.kit ≡ p = ground arith in
              let g : same c.kit u ≡ false = ground arith in
              (subst P f h.0, ap (λ k. same k u) (sym f) ∙ g)
          | inr t ↦ satisfied_by-Provided r ps u h.1 p (ground arith)
        ]

  met_by-Provided :
      (ps : List Provider) (u : Kit) (parsed : Result Error Require)
      → Provided ps
      → (p : Kit) → met_by ps u parsed ≡ some p
      → P p × (same p u ≡ false)
  met_by-Provided ps u (err e) h p m = cc
  met_by-Provided ps u (ok r) h p m = satisfied_by-Provided r ps u h p m

  abbrev EdgeOf : Kit → Edge → Type 0
  EdgeOf u e = P e.provider × (e.dependent ≡ u)

  new_dependency-EdgeOf :
      (u : Kit) (deps : List Kit) (found : Option Kit)
      → ((p : Kit) → found ≡ some p → P p)
      → All (EdgeOf u) (edges_to u (new_dependency deps found))
  new_dependency-EdgeOf u deps none h = tt
  new_dependency-EdgeOf u deps (some p) h = elim (Bool-cases (has deps p)) [
    | inl e ↦ rw e tt
    | inr e ↦ rw e ((h p refl, refl), tt)
  ]

  entry_edges-EdgeOf :
      (ps : List Provider) (u : Kit) (deps : List Kit) (ss : List Text)
      → Provided ps
      → All (EdgeOf u) (entry_edges ps u deps ss)
  unfolding entry_edges
  entry_edges-EdgeOf ps u deps [] h = tt
  entry_edges-EdgeOf ps u deps (s ∷ ss) h =
      let new = new_dependency deps (met_by ps u (parse_require s)) in
      All-append (EdgeOf u) (edges_to u new) (entry_edges ps u (new ++ deps) ss)
        (new_dependency-EdgeOf u deps (met_by ps u (parse_require s))
          (λ p m. (met_by-Provided ps u (parse_require s) h p m).0))
        (entry_edges-EdgeOf ps u (new ++ deps) ss h)

  from_EdgeOf :
      (u : Kit) (es : List Edge)
      → P u
      → All (EdgeOf u) es
      → All (λ (e : Edge). P e.provider) es × All (λ (e : Edge). P e.dependent) es
  from_EdgeOf u [] h k = (tt, tt)
  from_EdgeOf u (e ∷ es) h k =
      let rest = from_EdgeOf u es h k.1 in ((k.0.0, rest.0), (subst P (sym k.0.1) h, rest.1))

  -- Both ends of an edge are units of the set.
  pub edges-ends :
      (ps : List Provider) (us : List Kit)
      → Provided ps
      → All P us
      → All (λ (e : Edge). P e.provider) (edges ps us)
        × All (λ (e : Edge). P e.dependent) (edges ps us)
  unfolding edges
  edges-ends ps [] h k = (tt, tt)
  edges-ends ps (u ∷ us) h k =
      let mine = entry_edges ps u [] (u.descriptor.requires ++ u.descriptor.integrates) in
      let first =
        from_EdgeOf u mine k.0
          (entry_edges-EdgeOf ps u [] (u.descriptor.requires ++ u.descriptor.integrates) h) in
      let rest = edges-ends ps us h k.1 in
      (
        All-append (λ (e : Edge). P e.provider) mine (edges ps us) first.0 rest.0,
        All-append (λ (e : Edge). P e.dependent) mine (edges ps us) first.1 rest.1,
      )
