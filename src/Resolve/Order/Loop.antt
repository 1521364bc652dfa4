-- ===== src/Resolve/Order/Loop.antt =====
-- The main loop keeps the composition order, and ends within its fuel.
use sandbox_kit_spec.Base.{
  ℕ, zero, suc, ◌+◌, ◌<◌, ◌≡◌, refl, true, false, ◌||◌, ◌⊎◌, Option, some, List, [], ◌∷◌, ◌++◌, All,
  All-append, length, length-append, Text, ==_iff, arith,
}
use sandbox_kit_spec.Resolve.Kit.{Kit}
use sandbox_kit_spec.Resolve.Order.{
  Edge, has, dependents, Degrees, Queue, release, Sorted, advance, sort_loop, sort_kits,
}
use sandbox_kit_spec.Resolve.Order.Members.{
  distinct, distinct_snoc, has-append, sort-All, sort-has, sort-distinct,
}
use sandbox_kit_spec.Resolve.Order.Pending.{pending, pending-place, occurrences, dependents-All}
use sandbox_kit_spec.Resolve.Order.Release.{IsQueue, release-IsQueue}
use sandbox_kit_spec.Resolve.Order.Choice.{
  goes_next, is_composition, is_composition_snoc, HeadLeast, sort-HeadLeast, remaining,
  remaining-place, Named, is_least-head,
}

module _ (ref : ℕ → Text) (us : List Kit) (es : List Edge) (once : distinct us ≡ true)
    (named : All (Named ref us) us)
    (targets : All (λ (e : Edge). Named ref us e.dependent) es) where
  abbrev Queued : List Kit → List Kit → Queue → Type 0
  Queued placed rest q = IsQueue (Named ref us) us placed (pending es placed) rest q

  -- What holds of the queue and of the units that are ordered before each round.
  pub record IsRound (q : Queue) (ordered : List Kit) : Type 0 where
    pub queue : IsQueue (Named ref us) us ordered (pending es ordered) [] q
    pub composed : is_composition us es [] ordered ≡ true
    pub total : length ordered + remaining us ordered ≡ length us
    pub apart : distinct ordered ≡ true

  sorted-Queued :
      (ordered : List Kit) (q : Queue)
      → Queued ordered [] q
      → Queued ordered [] (record q { ready = sort_kits q.ready })
  sorted-Queued ordered q i = record {
    counted = i.counted;
    ready_free = sort-All (λ (u : Kit). q.degrees u.address ≡ 0) q.ready i.ready_free;
    placed_free = i.placed_free;
    ready_distinct = sort-distinct q.ready i.ready_distinct;
    ready_new = sort-All (λ (u : Kit). has ordered u ≡ false) q.ready i.ready_new;
    ready_inside = sort-All (Named ref us) q.ready i.ready_inside;
    covered = λ u h. ground (arith, i.covered u h, sort-has q.ready u);
  }

  still_new :
      (ordered : List Kit) (next : Kit) (rest : List Kit)
      → has rest next ≡ false
      → All (λ (u : Kit). has ordered u ≡ false) rest
      → All (λ (u : Kit). has (ordered ++ next ∷ []) u ≡ false) rest
  unfolding has
  still_new ordered next [] h k = tt
  still_new ordered next (u ∷ rest) h k = (
    ground (
      arith,
      has-append ordered (next ∷ []) u,
      ==_iff next.address u.address,
      ==_iff u.address next.address,
    ),
    still_new ordered next rest (ground arith) k.1,
  )

  taken-Queued :
      (ordered : List Kit) (deg : Degrees) (next : Kit) (rest : List Kit)
      → Queued ordered [] (record { degrees = deg; ready = next ∷ rest })
      → Queued (ordered ++ next ∷ []) (dependents es next) (record { degrees = deg; ready = rest })
  unfolding occurrences has
  taken-Queued ordered deg next rest i = record {
    counted = λ a. omega (arith, i.counted a, pending-place es ordered next a i.ready_new.0);
    ready_free = i.ready_free.1;
    placed_free =
        All-append (λ (u : Kit). deg u.address ≡ 0) ordered (next ∷ []) i.placed_free
          (i.ready_free.0, tt);
    ready_distinct = ground (arith, i.ready_distinct);
    ready_new = still_new ordered next rest (ground (arith, i.ready_distinct)) i.ready_new.1;
    ready_inside = i.ready_inside.1;
    covered = λ u h. ground (arith, i.covered u h, has-append ordered (next ∷ []) u);
  }

  free_or_pending :
      (ordered : List Kit) (deg : Degrees) (ready : List Kit)
      → Queued ordered [] (record { degrees = deg; ready = ready })
      → (u : Kit) → has us u ≡ true
      → ((has ready u || has ordered u) ≡ true) ⊎ (0 < pending es ordered u.address)
  unfolding occurrences
  free_or_pending ordered deg ready i u h = ground (arith, i.covered u h, i.counted u.address)

  next-goes_next :
      (ordered : List Kit) (deg : Degrees) (next : Kit) (rest : List Kit)
      → Queued ordered [] (record { degrees = deg; ready = next ∷ rest })
      → HeadLeast (next ∷ rest)
      → goes_next us es ordered next ≡ true
  unfolding occurrences
  next-goes_next ordered deg next rest i l = ground (
    arith,
    i.ready_new.0,
    i.ready_inside.0.0,
    i.counted next.address,
    i.ready_free.0,
    ==_iff (pending es ordered next.address) 0,
    is_least-head ref us es ordered rest next i.ready_inside l
        (free_or_pending ordered deg (next ∷ rest) i) us named,
  )

  take-IsRound :
      (ordered : List Kit) (deg : Degrees) (next : Kit) (rest : List Kit)
      → Queued ordered [] (record { degrees = deg; ready = next ∷ rest })
      → HeadLeast (next ∷ rest)
      → is_composition us es [] ordered ≡ true
      → length ordered + remaining us ordered ≡ length us
      → distinct ordered ≡ true
      → IsRound
          (release (dependents es next) (record { degrees = deg; ready = rest }))
          (ordered ++ next ∷ [])
  take-IsRound ordered deg next rest i l c t d = record {
    queue =
        release-IsQueue (Named ref us) us (ordered ++ next ∷ []) (pending es (ordered ++ next ∷ []))
          (dependents es next) (record { degrees = deg; ready = rest })
          (dependents-All (Named ref us) es next targets) (taken-Queued ordered deg next rest i);
    composed = ground (
      arith,
      is_composition_snoc us es [] ordered next,
      next-goes_next ordered deg next rest i l,
    );
    total = omega (
      arith,
      length-append ordered (next ∷ []),
      remaining-place us ordered next once i.ready_inside.0.0 i.ready_new.0,
    );
    apart = distinct_snoc ordered next d i.ready_new.0;
  }

  -- The loop ends with an empty queue.
  abbrev Ends : Option Sorted → Type 0
  Ends r =
      (s : Sorted) × (r ≡ some s) × IsRound (record { degrees = s.degrees; ready = [] }) s.ordered

  advance-Ends :
      (loop : Queue → List Kit → Option Sorted) (ordered : List Kit) (deg : Degrees)
      (ready : List Kit) (bound : ℕ)
      → ((q : Queue) (o : List Kit) → IsRound q o → remaining us o < bound → Ends (loop q o))
      → Queued ordered [] (record { degrees = deg; ready = ready })
      → HeadLeast ready
      → is_composition us es [] ordered ≡ true
      → length ordered + remaining us ordered ≡ length us
      → distinct ordered ≡ true
      → remaining us ordered < suc bound
      → Ends (advance loop es deg ready ordered)
  advance-Ends loop ordered deg [] bound goes i l c t d f = (
    record { degrees = deg; ordered = ordered },
    refl,
    record { queue = i; composed = c; total = t; apart = d },
  )
  advance-Ends loop ordered deg (next ∷ rest) bound goes i l c t d f =
      goes (release (dependents es next) (record { degrees = deg; ready = rest }))
        (ordered ++ next ∷ []) (take-IsRound ordered deg next rest i l c t d)
        (omega (arith, remaining-place us ordered next once i.ready_inside.0.0 i.ready_new.0))

  pub sort_loop-Ends :
      (fuel : ℕ) (q : Queue) (ordered : List Kit)
      → IsRound q ordered
      → remaining us ordered < fuel
      → Ends (sort_loop fuel es q ordered)
  unfolding sort_loop
  sort_loop-Ends zero q ordered r f = absurd (omega arith)
  sort_loop-Ends (suc fuel) q ordered r f =
      advance-Ends (λ q' o. sort_loop fuel es q' o) ordered q.degrees (sort_kits q.ready) fuel
        (λ q' o. sort_loop-Ends fuel q' o) (sorted-Queued ordered q r.queue)
        (sort-HeadLeast q.ready) r.composed r.total r.apart f
