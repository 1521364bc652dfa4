-- ===== src/Resolve/Order/Composed.antt =====
-- What `order` of resolve/resolve.go answers, over the edges of the set.
use sandbox_kit_spec.Base.{
  ℕ, suc, ◌<◌, ◌≡◌, ◌≢◌, refl, sym, ap, subst, ◌∙◌, true, false, ◌&&◌, ◌||◌, ◌⊎◌, some, List, [],
  ◌∷◌, All, length, Text, sort_texts, ltb, ok, err, ◌==◌, ==_iff, arith, Bool-cases, inl, inr,
}
use sandbox_kit_spec.Resolve.Kit.{Kit}
use sandbox_kit_spec.Resolve.Order.{
  Edge, has, Degrees, indegree, Queue, Sorted, sort_loop, sources, blocked, references, finish,
  order_edges, OrderError, cycle,
}
use sandbox_kit_spec.Resolve.Order.Members.{distinct, has_self}
use sandbox_kit_spec.Resolve.Order.Pending.{indegree-pending, pending-edge, occurrences}
use sandbox_kit_spec.Resolve.Order.Choice.{
  is_composition, remaining, remaining-nil, remaining-zero, Named,
}
use sandbox_kit_spec.Resolve.Order.Loop.{IsRound, sort_loop-Ends}

module _ {ℓ} (P : Kit → Type ℓ) where
  sources-All : (deg : Degrees) (us : List Kit) → All P us → All P (sources deg us)
  unfolding sources
  sources-All deg [] h = tt
  sources-All deg (u ∷ us) h = elim (Bool-cases (deg u.address == 0)) [
    | inl e ↦ rw e (h.0, sources-All deg us h.1)
    | inr e ↦ rw e (sources-All deg us h.1)
  ]

sources-free :
    (deg : Degrees) (us : List Kit) → All (λ (u : Kit). deg u.address ≡ 0) (sources deg us)
unfolding sources
sources-free deg [] = tt
sources-free deg (u ∷ us) = elim (Bool-cases (deg u.address == 0)) [
  | inl e ↦ rw e ((==_iff (deg u.address) 0).0 e, sources-free deg us)
  | inr e ↦ rw e (sources-free deg us)
]

fresh_units : (us : List Kit) → All (λ (u : Kit). has [] u ≡ false) us
unfolding has
fresh_units [] = tt
fresh_units (u ∷ us) = (refl, fresh_units us)

sources-has :
    (deg : Degrees) (us : List Kit) (v : Kit)
    → has (sources deg us) v ≡ (has us v && (deg v.address == 0))
unfolding sources has
sources-has deg [] v = refl
sources-has deg (u ∷ us) v =
    ground (arith, sources-has deg us v, ==_iff u.address v.address, ap deg)

sources-distinct :
    (deg : Degrees) (us : List Kit) → distinct us ≡ true → distinct (sources deg us) ≡ true
unfolding sources
sources-distinct deg [] h = refl
sources-distinct deg (u ∷ us) h = ground (arith, sources-distinct deg us, sources-has deg us u)

blocked-has :
    (deg : Degrees) (us : List Kit) (v : Kit)
    → has (blocked deg us) v ≡ (has us v && ltb 0 (deg v.address))
unfolding blocked has
blocked-has deg [] v = refl
blocked-has deg (u ∷ us) v =
    ground (arith, blocked-has deg us v, ==_iff u.address v.address, ap deg)

-- Every unit of the set stands once, in composition order.
abbrev pub InOrder : List Kit → List Edge → List Kit → Type 0
InOrder us es os =
    (is_composition us es [] os ≡ true)
    × (distinct os ≡ true)
    × (length os ≡ length us)
    × ((u : Kit) → has us u ≡ true → has os u ≡ true)

-- There are units among the stuck ones, and each depends on one of them.
abbrev pub IsStuck : List Kit → List Edge → List Kit → Type 0
IsStuck us es stuck =
    (0 < length stuck)
    × All
        (λ (u : Kit).
          (has us u ≡ true)
          × ((e : Edge) × (has stuck e.provider ≡ true) × (e.dependent.address ≡ u.address)))
        stuck

finish-ok :
    (us : List Kit) (s : Sorted) (os : List Kit)
    → finish us (some s) ≡ ok os
    → (s.ordered ≡ os) × (length s.ordered ≡ length us)
finish-ok us s os h = elim (Bool-cases (length s.ordered == length us)) [
  | inl e ↦ (ground arith, (==_iff (length s.ordered) (length us)).0 e)
  | inr e ↦ absurd (ground arith)
]

finish-err :
    (us : List Kit) (s : Sorted) (reason : OrderError)
    → finish us (some s) ≡ err reason
    → (reason ≡ cycle (sort_texts (references (blocked s.degrees us))))
      × (length s.ordered ≢ length us)
finish-err us s reason h = elim (Bool-cases (length s.ordered == length us)) [
  | inl e ↦ absurd (ground arith)
  | inr e ↦ (ground arith, ground (arith, ==_iff (length s.ordered) (length us)))
]

-- Where no unit is blocked, every unit is placed.
none_blocked :
    (deg : Degrees) (placed us : List Kit)
    → ((u : Kit) → has us u ≡ true → (has placed u ≡ true) ⊎ (0 < deg u.address))
    → length (blocked deg us) ≡ 0
    → remaining us placed ≡ 0
unfolding blocked has remaining
none_blocked deg placed [] h z = refl
none_blocked deg placed (u ∷ us) h z =
    let later : (v : Kit) → has us v ≡ true → (has placed v ≡ true) ⊎ (0 < deg v.address) =
      λ v k. h v (ground (arith, k)) in
    elim (h u (unfold has in has_self u us)) [
      | inl p ↦ ground (arith, none_blocked deg placed us later)
      | inr d ↦ absurd (ground arith)
    ]

module _ (ref : ℕ → Text) (us : List Kit) (es : List Edge) (once : distinct us ≡ true)
    (named : All (Named ref us) us)
    (targets : All (λ (e : Edge). Named ref us e.dependent) es) where
  abbrev start : Queue
  start = record { degrees = indegree es; ready = sources (indegree es) us }

  start-IsRound : IsRound ref us es once named targets start []
  unfolding occurrences is_composition has
  start-IsRound = record {
    queue = record {
      counted = λ a. omega (arith, indegree-pending es a);
      ready_free = sources-free (indegree es) us;
      placed_free = tt;
      ready_distinct = sources-distinct (indegree es) us once;
      ready_new = fresh_units (sources (indegree es) us);
      ready_inside = sources-All (Named ref us) (indegree es) us named;
      covered = λ u h. ground (arith, sources-has (indegree es) us u);
    };
    composed = refl;
    total = omega (arith, remaining-nil us);
    apart = refl;
  }

  abbrev Answers : Type 0
  Answers =
      (s : Sorted) × (sort_loop (suc (length us)) es start [] ≡ some s)
      × IsRound ref us es once named targets (record { degrees = s.degrees; ready = [] }) s.ordered

  run : Answers
  run =
      sort_loop-Ends ref us es once named targets (suc (length us)) start [] start-IsRound
        (omega (arith, remaining-nil us))

  order_edges-finish : order_edges us es ≡ finish us (some run.0)
  unfolding order_edges
  order_edges-finish = ap (finish us) run.1

  -- A unit is placed, or is among the blocked ones.
  placed_or_blocked :
      (u : Kit) → has us u ≡ true → (has run.0.ordered u || has (blocked run.0.degrees us) u) ≡ true
  unfolding has
  placed_or_blocked u h = ground (arith, run.2.queue.covered u h, blocked-has run.0.degrees us u)

  ordered-InOrder : length run.0.ordered ≡ length us → InOrder us es run.0.ordered
  ordered-InOrder h = (
    run.2.composed,
    run.2.apart,
    h,
    λ u. remaining-zero us run.0.ordered u (omega (arith, run.2.total)),
  )

  ordered_lem : (os : List Kit) → order_edges us es ≡ ok os → InOrder us es os
  ordered_lem os h =
      let f = finish-ok us run.0 os (sym order_edges-finish ∙ h) in
      subst (InOrder us es) f.0 (ordered-InOrder f.1)

  -- A blocked unit has a provider that is blocked.
  blocked_one :
      All (λ (e : Edge). has us e.provider ≡ true) es
      → (u : Kit) → has us u ≡ true
      → 0 < run.0.degrees u.address
      → (e : Edge) × (has (blocked run.0.degrees us) e.provider ≡ true)
        × (e.dependent.address ≡ u.address)
  unfolding occurrences
  blocked_one inside u h pos =
      let counted = run.2.queue.counted u.address in
      let found =
        pending-edge (λ e. has us e.provider ≡ true) es run.0.ordered u.address inside
          (omega arith) in
      (found.0, ground (arith, placed_or_blocked found.0.provider found.1, found.2), found.3)

  blocked_each :
      All (λ (e : Edge). has us e.provider ≡ true) es
      → (vs : List Kit) → ((v : Kit) → has vs v ≡ true → has us v ≡ true)
      → All
          (λ (u : Kit).
            (has us u ≡ true)
            × ((e : Edge) × (has (blocked run.0.degrees us) e.provider ≡ true)
                × (e.dependent.address ≡ u.address)))
          (blocked run.0.degrees vs)
  unfolding blocked has
  blocked_each inside [] sub = tt
  blocked_each inside (v ∷ vs) sub =
      let rest = blocked_each inside vs (λ w k. sub w (ground (arith, k))) in
      let mine : has us v ≡ true = sub v (has_self v vs) in
      elim (Bool-cases (ltb 0 (run.0.degrees v.address))) [
        | inl e ↦ rw e ((mine, blocked_one inside v mine (ground arith)), rest)
        | inr e ↦ rw e rest
      ]

  stuck_lem :
      All (λ (e : Edge). has us e.provider ≡ true) es
      → (reason : OrderError) → order_edges us es ≡ err reason
      → (stuck : List Kit) × (reason ≡ cycle (sort_texts (references stuck))) × IsStuck us es stuck
  unfolding has
  stuck_lem inside reason h =
      let f = finish-err us run.0 reason (sym order_edges-finish ∙ h) in
      (
        blocked run.0.degrees us,
        f.0,
        (
          ground (
            arith,
            f.1,
            run.2.total,
            none_blocked run.0.degrees run.0.ordered us
                (λ u k. ground (arith, run.2.queue.covered u k)),
          ),
          blocked_each inside us (λ v k. k),
        ),
      )

-- Over distinct units whose edges stay among them, each under the reference that belongs to its
-- address: a list of units that `order` answers has every unit of the set once, and each unit in
-- it is the one with the smallest reference among those that are not placed before it and whose
-- providers all are.
pub order_edges-InOrder :
    (ref : ℕ → Text) (us : List Kit) (es : List Edge)
    → distinct us ≡ true
    → All (Named ref us) us
    → All (λ (e : Edge). Named ref us e.dependent) es
    → (os : List Kit) → order_edges us es ≡ ok os
    → InOrder us es os
order_edges-InOrder = ordered_lem

-- Under the same conditions, with the providers among the units too: the only error of `order` is
-- a cycle (the loop does not run out of fuel), and the references it names are those of a non-empty
-- list of units of the set, each of which has an edge from a unit of that list.
pub order_edges-IsStuck :
    (ref : ℕ → Text) (us : List Kit) (es : List Edge)
    → distinct us ≡ true
    → All (Named ref us) us
    → All (λ (e : Edge). Named ref us e.dependent) es
    → All (λ (e : Edge). has us e.provider ≡ true) es
    → (reason : OrderError) → order_edges us es ≡ err reason
    → (stuck : List Kit) × (reason ≡ cycle (sort_texts (references stuck))) × IsStuck us es stuck
order_edges-IsStuck = stuck_lem
