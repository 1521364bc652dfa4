-- ===== src/Resolve/Order/Choice.antt =====
-- What it means that units are in composition order, and which unit the sorted queue offers.
use sandbox_kit_spec.Base.{
  ℕ, suc, ◌<◌, ◌≡◌, refl, sym, ap, ◌∙◌, Bool, true, false, not, ◌&&◌, ◌||◌, ◌⊎◌, List, [], ◌∷◌,
  ◌++◌, All, all, append_assoc, append-nil, length, Text, compare_text, flip-compare_text,
  compare_text_trans, compare_text_self, is_le, is_gt, if◌then◌else◌, ◌==◌, ==_iff, arith,
  Bool-cases, inl, inr,
}
use sandbox_kit_spec.Resolve.Kit.{Kit}
use sandbox_kit_spec.Resolve.Order.{Edge, same, has, insert_kit, sort_kits}
use sandbox_kit_spec.Resolve.Order.Members.{distinct, has-append, has-address}
use sandbox_kit_spec.Resolve.Order.Pending.{pending}

-- Every provider of u is placed.
abbrev pub is_free : List Edge → List Kit → Kit → Bool
is_free es placed u = pending es placed u.address == 0

-- No unit that is free and not placed has a smaller reference.
abbrev pub is_least : List Kit → List Edge → List Kit → Kit → Bool
is_least us es placed v =
    all
      (λ (u : Kit).
        has placed u || not (is_free es placed u) || is_le (compare_text v.reference u.reference))
      us

-- The unit that composes after the placed ones.
abbrev pub goes_next : List Kit → List Edge → List Kit → Kit → Bool
goes_next us es placed v =
    not (has placed v) && has us v && is_free es placed v && is_least us es placed v

-- The units, behind the placed ones, in composition order.
unfoldable pub is_composition : List Kit → List Edge → List Kit → List Kit → Bool
is_composition us es placed [] = true
is_composition us es placed (v ∷ vs) =
    goes_next us es placed v && is_composition us es (placed ++ v ∷ []) vs

pub is_composition_snoc :
    (us : List Kit) (es : List Edge) (placed os : List Kit) (v : Kit)
    → is_composition us es placed (os ++ v ∷ [])
      ≡ (is_composition us es placed os && goes_next us es (placed ++ os) v)
unfolding is_composition
is_composition_snoc us es placed [] v = rw append-nil (and_true (goes_next us es placed v))
  where
    and_true : (b : Bool) → (b && true) ≡ (true && b)
    and_true b = ground arith
is_composition_snoc us es placed (o ∷ os) v =
    ap (λ r. goes_next us es placed o && r) (is_composition_snoc us es (placed ++ o ∷ []) os v)
    ∙ rw (append_assoc placed (o ∷ []) os) (and_assoc (goes_next us es placed o) _ _)
  where
    and_assoc : (a b c : Bool) → (a && (b && c)) ≡ ((a && b) && c)
    and_assoc a b c = ground arith

abbrev pub Least : Kit → List Kit → Type 0
Least v us = All (λ (u : Kit). is_le (compare_text v.reference u.reference) ≡ true) us

abbrev pub HeadLeast : List Kit → Type 0
HeadLeast [] = Unit
HeadLeast (v ∷ vs) = Least v vs

Least-trans :
    (u v : Kit) (us : List Kit)
    → is_le (compare_text u.reference v.reference) ≡ true
    → Least v us
    → Least u us
Least-trans u v [] h k = tt
Least-trans u v (w ∷ ws) h k =
    (compare_text_trans u.reference v.reference w.reference h k.0, Least-trans u v ws h k.1)

-- The head of what is inserted into.
insert-Least :
    (v u : Kit) (us : List Kit)
    → is_le (compare_text v.reference u.reference) ≡ true
    → Least v us
    → Least v (insert_kit u us)
unfolding insert_kit
insert-Least v u [] h k = (h, tt)
insert-Least v u (w ∷ ws) h k = elim (Bool-cases (is_gt (compare_text u.reference w.reference))) [
  | inl e ↦ rw e (k.0, insert-Least v u ws h k.1)
  | inr e ↦ rw e (h, k)
]

insert-HeadLeast : (u : Kit) (us : List Kit) → HeadLeast us → HeadLeast (insert_kit u us)
unfolding insert_kit
insert-HeadLeast u [] h = tt
insert-HeadLeast u (v ∷ vs) h = elim (Bool-cases (is_gt (compare_text u.reference v.reference))) [
  | inl e ↦ rw e (insert-Least v u vs (ground (arith, flip-compare_text u.reference v.reference)) h)
  | inr e ↦
      let le : is_le (compare_text u.reference v.reference) ≡ true = ground arith in
      rw e (le, Least-trans u v vs le h)
]

pub sort-HeadLeast : (us : List Kit) → HeadLeast (sort_kits us)
unfolding sort_kits
sort-HeadLeast [] = tt
sort-HeadLeast (u ∷ us) = insert-HeadLeast u (sort_kits us) (sort-HeadLeast us)

-- The units that are not placed.
unfoldable pub remaining : List Kit → List Kit → ℕ
remaining [] placed = 0
remaining (u ∷ us) placed =
    let rest = remaining us placed in if has placed u then rest else suc rest

remaining-other :
    (us : List Kit) (placed : List Kit) (next : Kit)
    → has us next ≡ false
    → remaining us (placed ++ next ∷ []) ≡ remaining us placed
unfolding remaining has
remaining-other [] placed next h = refl
remaining-other (u ∷ us) placed next h = ground (
  arith,
  remaining-other us placed next,
  has-append placed (next ∷ []) u,
  ==_iff next.address u.address,
  ==_iff u.address next.address,
)

-- Placing a unit that was not placed leaves one less.
pub remaining-place :
    (us : List Kit) (placed : List Kit) (next : Kit)
    → distinct us ≡ true
    → has us next ≡ true
    → has placed next ≡ false
    → remaining us placed ≡ suc (remaining us (placed ++ next ∷ []))
unfolding remaining has
remaining-place [] placed next d h k = cc
remaining-place (u ∷ us) placed next d h k = elim (Bool-cases (same u next)) [
  | inl e ↦
      let a : u.address ≡ next.address = (==_iff u.address next.address).0 e in
      ground (
        arith,
        has-append placed (next ∷ []) u,
        has-address placed u next a,
        has-address us u next a,
        remaining-other us placed next,
        ==_iff next.address u.address,
      )
  | inr e ↦ ground (
    arith,
    has-append placed (next ∷ []) u,
    remaining-place us placed next,
    ==_iff next.address u.address,
    ==_iff u.address next.address,
  )
]

pub remaining-nil : (us : List Kit) → remaining us [] ≡ length us
unfolding remaining has
remaining-nil [] = refl
remaining-nil (u ∷ us) = ap suc (remaining-nil us)

-- Where none remains, every unit is placed.
pub remaining-zero :
    (us placed : List Kit) (u : Kit)
    → remaining us placed ≡ 0
    → has us u ≡ true
    → has placed u ≡ true
unfolding remaining has
remaining-zero [] placed u z h = cc
remaining-zero (v ∷ vs) placed u z h = elim (Bool-cases (same v u)) [
  | inl e ↦ ground (arith, has-address placed v u, ==_iff v.address u.address)
  | inr e ↦ ground (arith, remaining-zero vs placed u)
]

-- A unit of the set, under the reference that its address has.
abbrev pub Named : (ℕ → Text) → List Kit → Kit → Type 0
Named ref us u = (has us u ≡ true) × (u.reference ≡ ref u.address)

Least-has :
    (ref : ℕ → Text) (us : List Kit) (vs : List Kit) (next u : Kit)
    → All (Named ref us) vs
    → Least next vs
    → has vs u ≡ true
    → u.reference ≡ ref u.address
    → is_le (compare_text next.reference u.reference) ≡ true
unfolding has
Least-has ref us [] next u n l h e = cc
Least-has ref us (v ∷ vs) next u n l h e = elim (Bool-cases (same v u)) [
  | inl f ↦
      let a : v.address ≡ u.address = (==_iff v.address u.address).0 f in
      let r : v.reference ≡ u.reference = n.0.1 ∙ ap ref a ∙ sym e in
      ap (λ t. is_le (compare_text next.reference t)) (sym r) ∙ l.0
  | inr f ↦ Least-has ref us vs next u n.1 l.1 (ground arith) e
]

le_self : (s : Text) → is_le (compare_text s s) ≡ true
le_self s = rw (compare_text_self s) refl

-- The head of the sorted queue is the least of the free units that are not placed.
pub is_least-head :
    (ref : ℕ → Text) (us : List Kit) (es : List Edge) (placed rest : List Kit) (next : Kit)
    → All (Named ref us) (next ∷ rest)
    → HeadLeast (next ∷ rest)
    → ((u : Kit)
        → has us u ≡ true
        → ((has (next ∷ rest) u || has placed u) ≡ true) ⊎ (0 < pending es placed u.address))
    → (vs : List Kit) → All (Named ref us) vs
    → is_least vs es placed next ≡ true
is_least-head ref us es placed rest next n l c [] m = refl
is_least-head ref us es placed rest next n l c (v ∷ vs) m = elim (c v m.0.0) [
  | inl h ↦ ground (
    arith,
    is_least-head ref us es placed rest next n l c vs m.1,
    Least-has ref us (next ∷ rest) next v n (le_self next.reference, l),
    m.0.1,
  )
  | inr p ↦ ground (arith, is_least-head ref us es placed rest next n l c vs m.1)
]
