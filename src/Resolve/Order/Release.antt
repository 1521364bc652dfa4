-- ===== src/Resolve/Order/Release.antt =====
-- The loop over the dependents of the unit that was taken keeps the queue right.
use sandbox_kit_spec.Base.{
  ℕ, ◌+◌, ◌<◌, ◌≡◌, refl, ap, ◌∙◌, Bool, true, false, ◌&&◌, ◌||◌, ◌⊎◌, List, [], ◌∷◌, ◌++◌, All,
  All-append, if◌then◌else◌, ◌==◌, ==_iff, arith, Bool-cases, inl, inr,
}
use sandbox_kit_spec.Resolve.Kit.{Kit}
use sandbox_kit_spec.Resolve.Order.{same, has, Degrees, decrement, Queue, release_one, release}
use sandbox_kit_spec.Resolve.Order.Members.{distinct, has-append, All-has, distinct_snoc}
use sandbox_kit_spec.Resolve.Order.Pending.{occurrences}

-- With a property P of the units in the queue, over the units `us` and the placed ones, with `pend` for the pending providers at an address and
-- `rest` for the dependents that are still to be counted down.
pub record IsQueue (P : Kit → Type 0) (us placed : List Kit) (pend : Degrees) (rest : List Kit)
    (q : Queue) : Type 0 where
  pub counted : (a : ℕ) → q.degrees a ≡ pend a + occurrences rest a
  pub ready_free : All (λ (u : Kit). q.degrees u.address ≡ 0) q.ready
  pub placed_free : All (λ (u : Kit). q.degrees u.address ≡ 0) placed
  pub ready_distinct : distinct q.ready ≡ true
  pub ready_new : All (λ (u : Kit). has placed u ≡ false) q.ready
  pub ready_inside : All P q.ready
  pub covered :
      (u : Kit)
      → has us u ≡ true
      → ((has q.ready u || has placed u) ≡ true) ⊎ (0 < q.degrees u.address)

decrement-zero : (deg : Degrees) (d u : Kit) → deg u.address ≡ 0 → decrement deg d u.address ≡ 0
decrement-zero deg d u h = ground arith

decrement-All :
    (deg : Degrees) (d : Kit) (us : List Kit)
    → All (λ (u : Kit). deg u.address ≡ 0) us
    → All (λ (u : Kit). decrement deg d u.address ≡ 0) us
decrement-All deg d [] h = tt
decrement-All deg d (u ∷ us) h = (decrement-zero deg d u h.0, decrement-All deg d us h.1)

occurrences_head : (d : Kit) (ds : List Kit) → 0 < occurrences (d ∷ ds) d.address
unfolding occurrences
occurrences_head d ds = ground arith

counted-step :
    (deg pend : Degrees) (d : Kit) (ds : List Kit) (a : ℕ)
    → deg a ≡ pend a + occurrences (d ∷ ds) a
    → decrement deg d a ≡ pend a + occurrences ds a
unfolding occurrences
counted-step deg pend d ds a h = ground arith

-- A unit with degree above 0 is none of those with degree 0.
not_free :
    (deg : Degrees) (us : List Kit) (d : Kit)
    → All (λ (u : Kit). deg u.address ≡ 0) us
    → 0 < deg d.address
    → has us d ≡ false
not_free deg us d h k = elim (Bool-cases (has us d)) [
  | inl e ↦ absurd (omega (arith, All-has deg us d h e))
  | inr e ↦ e
]

push-All :
    (P : Kit → Type 0) (b : Bool) (ready : List Kit) (d : Kit)
    → All P ready
    → (b ≡ true → P d)
    → All P (if b then ready ++ d ∷ [] else ready)
push-All P true ready d h k = All-append P ready (d ∷ []) h (k refl, tt)
push-All P false ready d h k = h

push-distinct :
    (b : Bool) (ready : List Kit) (d : Kit)
    → distinct ready ≡ true
    → has ready d ≡ false
    → distinct (if b then ready ++ d ∷ [] else ready) ≡ true
push-distinct true ready d h k = distinct_snoc ready d h k
push-distinct false ready d h k = h

push-has :
    (b : Bool) (ready : List Kit) (d u : Kit)
    → has (if b then ready ++ d ∷ [] else ready) u ≡ (has ready u || (b && same d u))
push-has true ready d u =
    has-append ready (d ∷ []) u ∙ ap (λ r. has ready u || r) (unfold has in ground arith)
push-has false ready d u = ground arith

module _ {P : Kit → Type 0} {us placed : List Kit} {pend : Degrees} (d : Kit) (ds : List Kit)
    (q : Queue) (inside : P d) (inv : IsQueue P us placed pend (d ∷ ds) q) where
  positive : 0 < q.degrees d.address
  positive = omega (arith, inv.counted d.address, occurrences_head d ds)

  abbrev is_free : Queue → Bool
  is_free r = decrement r.degrees d d.address == 0

  fresh_ready : has q.ready d ≡ false
  fresh_ready = not_free q.degrees q.ready d inv.ready_free positive

  fresh_placed : has placed d ≡ false
  fresh_placed = not_free q.degrees placed d inv.placed_free positive

  covered-step :
      (u : Kit)
      → has us u ≡ true
      → ((has (release_one d q).ready u || has placed u) ≡ true)
        ⊎ (0 < (release_one d q).degrees u.address)
  covered-step u h = elim (inv.covered u h) [
    | inl old ↦ inl (ground (arith, push-has (is_free q) q.ready d u))
    | inr pos ↦ ground (
      arith,
      push-has (is_free q) q.ready d u,
      ==_iff d.address u.address,
      ==_iff u.address d.address,
    )
  ]

  release_one-IsQueue : IsQueue P us placed pend ds (release_one d q)
  release_one-IsQueue = record {
    counted = λ a. counted-step q.degrees pend d ds a (inv.counted a);
    ready_free =
        push-All (λ (u : Kit). decrement q.degrees d u.address ≡ 0) (is_free q) q.ready d
          (decrement-All q.degrees d q.ready inv.ready_free) (λ e. (==_iff _ 0).0 e);
    placed_free = decrement-All q.degrees d placed inv.placed_free;
    ready_distinct = push-distinct (is_free q) q.ready d inv.ready_distinct fresh_ready;
    ready_new =
        push-All (λ (u : Kit). has placed u ≡ false) (is_free q) q.ready d inv.ready_new
          (λ e. fresh_placed);
    ready_inside = push-All P (is_free q) q.ready d inv.ready_inside (λ e. inside);
    covered = covered-step;
  }

pub release-IsQueue :
    (P : Kit → Type 0) (us placed : List Kit) (pend : Degrees) (ds : List Kit) (q : Queue)
    → All P ds
    → IsQueue P us placed pend ds q
    → IsQueue P us placed pend [] (release ds q)
unfolding release
release-IsQueue P us placed pend [] q h inv = inv
release-IsQueue P us placed pend (d ∷ ds) q h inv =
    release-IsQueue P us placed pend ds (release_one d q) h.1 (release_one-IsQueue d ds q h.0 inv)
