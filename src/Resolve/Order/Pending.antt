-- ===== src/Resolve/Order/Pending.antt =====
-- How many of a unit's providers are not placed yet, and what placing one unit changes.
use sandbox_kit_spec.Base.{
  ℕ, suc, ◌+◌, ◌<◌, ◌≡◌, refl, Bool, false, not, ◌&&◌, List, [], ◌∷◌, ◌++◌, All, if◌then◌else◌,
  ◌==◌, ==_iff, arith, Bool-cases, inl, inr,
}
use sandbox_kit_spec.Resolve.Kit.{Kit}
use sandbox_kit_spec.Resolve.Order.{Edge, same, has, dependents, indegree}
use sandbox_kit_spec.Resolve.Order.Members.{has-append, has-address}

one_if : Bool → ℕ
one_if b = if b then 1 else 0

-- The edges into the unit at an address whose provider is not among the placed units.
unfoldable pub pending : List Edge → List Kit → ℕ → ℕ
pending [] placed a = 0
pending (e ∷ es) placed a =
    let rest = pending es placed a in
    if (e.dependent.address == a) && not (has placed e.provider) then suc rest else rest

-- How often a unit occurs at an address.
unfoldable pub occurrences : List Kit → ℕ → ℕ
occurrences [] a = 0
occurrences (u ∷ us) a = if u.address == a then suc (occurrences us a) else occurrences us a

pub indegree-pending : (es : List Edge) (a : ℕ) → indegree es a ≡ pending es [] a
unfolding indegree pending has
indegree-pending [] a = refl
indegree-pending (e ∷ es) a = ground (arith, indegree-pending es a)

has-singleton : (u v : Kit) → has (u ∷ []) v ≡ same v u
unfolding has
has-singleton u v = ground arith

same_comm : (u v : Kit) → same u v ≡ same v u
same_comm u v = ground arith

-- Placing a unit takes it from the pending providers of its dependents.
pub pending-place :
    (es : List Edge) (placed : List Kit) (next : Kit) (a : ℕ)
    → has placed next ≡ false
    → pending es placed a ≡ pending es (placed ++ next ∷ []) a + occurrences (dependents es next) a
unfolding pending dependents occurrences
pending-place [] placed next a h = refl
pending-place (e ∷ es) placed next a h = ground (
  arith,
  pending-place es placed next a h,
  has-append placed (next ∷ []) e.provider,
  has-singleton next e.provider,
  same_comm next e.provider,
  has-address placed e.provider next,
  ==_iff e.provider.address next.address,
)

-- A unit with a pending provider has an edge from a unit that is not placed.
pub pending-edge :
    (Q : Edge → Type 0) (es : List Edge) (placed : List Kit) (a : ℕ)
    → All Q es
    → 0 < pending es placed a
    → (e : Edge) × Q e × (has placed e.provider ≡ false) × (e.dependent.address ≡ a)
unfolding pending
pending-edge Q [] placed a q h = absurd (omega arith)
pending-edge Q (e ∷ es) placed a q h =
    elim (Bool-cases ((e.dependent.address == a) && not (has placed e.provider))) [
      | inl f ↦ (e, q.0, ground arith, (==_iff e.dependent.address a).0 (ground arith))
      | inr f ↦ pending-edge Q es placed a q.1 (ground arith)
    ]

module _ (P : Kit → Type 0) where
  pub dependents-All :
      (es : List Edge) (u : Kit) → All (λ (e : Edge). P e.dependent) es → All P (dependents es u)
  unfolding dependents
  dependents-All [] u h = tt
  dependents-All (e ∷ es) u h = elim (Bool-cases (same e.provider u)) [
    | inl f ↦ rw f (h.0, dependents-All es u h.1)
    | inr f ↦ rw f (dependents-All es u h.1)
  ]
