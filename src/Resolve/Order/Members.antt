-- ===== src/Resolve/Order/Members.antt =====
-- Units by address: membership, lists without repetition, and what sorting keeps.
use sandbox_kit_spec.Base.{
  ℕ, ◌≡◌, refl, ap, ap₂, ◌∙◌, Bool, true, false, not, ◌&&◌, ◌||◌, List, [], ◌∷◌, ◌++◌, All,
  compare_text, is_gt, ◌==◌, ==_iff, arith, Bool-cases, inl, inr,
}
use sandbox_kit_spec.Resolve.Kit.{Kit}
use sandbox_kit_spec.Resolve.Order.{same, has, insert_kit, sort_kits}

abbrev pub distinct : List Kit → Bool
distinct [] = true
distinct (u ∷ us) = not (has us u) && distinct us

pub has-append : (us vs : List Kit) (w : Kit) → has (us ++ vs) w ≡ (has us w || has vs w)
unfolding has
has-append [] vs w = refl
has-append (u ∷ us) vs w = ground (arith, has-append us vs w)

-- Membership goes by the address.
pub has-address : (us : List Kit) (v w : Kit) → v.address ≡ w.address → has us v ≡ has us w
unfolding has
has-address [] v w e = refl
has-address (u ∷ us) v w e = ap₂ ◌||◌ (ap (λ a. u.address == a) e) (has-address us v w e)

pub has_self : (u : Kit) (us : List Kit) → has (u ∷ us) u ≡ true
unfolding has
has_self u us = ground arith

pub All-has :
    (deg : ℕ → ℕ) (us : List Kit) (v : Kit)
    → All (λ (u : Kit). deg u.address ≡ 0) us
    → has us v ≡ true
    → deg v.address ≡ 0
unfolding has
All-has deg [] v h k = cc
All-has deg (u ∷ us) v h k = elim (Bool-cases (same v u)) [
  | inl e ↦ let a : v.address ≡ u.address = (==_iff v.address u.address).0 e in ap deg a ∙ h.0
  | inr e ↦ All-has deg us v h.1 (ground arith)
]

pub distinct_snoc :
    (us : List Kit) (v : Kit)
    → distinct us ≡ true
    → has us v ≡ false
    → distinct (us ++ v ∷ []) ≡ true
unfolding has
distinct_snoc [] v h k = refl
distinct_snoc (u ∷ us) v h k = ground (
  arith,
  distinct_snoc us v,
  has-append us (v ∷ []) u,
  ==_iff u.address v.address,
  ==_iff v.address u.address,
)

module _ {ℓ} (P : Kit → Type ℓ) where
  insert-All : (u : Kit) (us : List Kit) → P u → All P us → All P (insert_kit u us)
  unfolding insert_kit
  insert-All u [] p h = (p, tt)
  insert-All u (v ∷ vs) p h = elim (Bool-cases (is_gt (compare_text u.reference v.reference))) [
    | inl e ↦ rw e (h.0, insert-All u vs p h.1)
    | inr e ↦ rw e (p, h)
  ]

  pub sort-All : (us : List Kit) → All P us → All P (sort_kits us)
  unfolding sort_kits
  sort-All [] h = tt
  sort-All (u ∷ us) h = insert-All u (sort_kits us) h.0 (sort-All us h.1)

insert-has : (u : Kit) (us : List Kit) (w : Kit) → has (insert_kit u us) w ≡ has (u ∷ us) w
unfolding insert_kit has
insert-has u [] w = refl
insert-has u (v ∷ vs) w = ground (arith, insert-has u vs w)

pub sort-has : (us : List Kit) (w : Kit) → has (sort_kits us) w ≡ has us w
unfolding sort_kits has
sort-has [] w = refl
sort-has (u ∷ us) w = ground (arith, insert-has u (sort_kits us) w, sort-has us w)

insert-distinct :
    (u : Kit) (us : List Kit)
    → has us u ≡ false
    → distinct us ≡ true
    → distinct (insert_kit u us) ≡ true
unfolding insert_kit has
insert-distinct u [] h k = refl
insert-distinct u (v ∷ vs) h k = ground (
  arith,
  insert-distinct u vs,
  insert-has u vs v,
  ==_iff u.address v.address,
  ==_iff v.address u.address,
)

pub sort-distinct : (us : List Kit) → distinct us ≡ true → distinct (sort_kits us) ≡ true
unfolding sort_kits
sort-distinct [] h = refl
sort-distinct (u ∷ us) h =
    ground (arith, insert-distinct u (sort_kits us), sort-has us u, sort-distinct us)
