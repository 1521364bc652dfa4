-- ===== src/Lock/Recreated.antt =====
-- resolve/lock.go: VerifyRecreate accepts the set that a lock records, and no other.
use sandbox_kit_spec.Base.{
  ℕ, suc, ◌≡◌, ◌↔◌, refl, ap, Bool, true, false, none, some, List, [], ◌∷◌, length, Text, text_eq,
  text_eq_iff, ◌==◌, ==_iff, if◌then◌else◌, arith,
}
use sandbox_kit_spec.Resolve.Kit.{Kit}
use sandbox_kit_spec.Resolve.Run.{Resolution, composed}
use sandbox_kit_spec.Lock.{
  Recorder, LockedKit, Lock, other_length, other_reference, other_digest, locked_kits, lock_from,
  verify_from, verify_recreate,
}

-- The references and the digests in their order.
unfoldable pub pins : List Kit → List (Text × Text)
pins [] = []
pins (u ∷ us) = (u.reference, u.digest) ∷ pins us

unfoldable pub locked_pins : List LockedKit → List (Text × Text)
locked_pins [] = []
locked_pins (k ∷ ks) = (k.reference, k.digest) ∷ locked_pins ks

length-pins : (us : List Kit) → length (pins us) ≡ length us
unfolding pins
length-pins [] = refl
length-pins (u ∷ us) = omega (arith, length-pins us)

length-locked_pins : (ks : List LockedKit) → length (locked_pins ks) ≡ length ks
unfolding locked_pins
length-locked_pins [] = refl
length-locked_pins (k ∷ ks) = omega (arith, length-locked_pins ks)

verify_from-pins :
    (i : ℕ) (us : List Kit) (ks : List LockedKit)
    → length us ≡ length ks
    → (verify_from i us ks ≡ none) ↔ (pins us ≡ locked_pins ks)
unfolding verify_from pins locked_pins
verify_from-pins i [] [] h = (λ e. refl, λ e. refl)
verify_from-pins i [] (k ∷ ks) h = ground arith
verify_from-pins i (u ∷ us) [] h = ground arith
verify_from-pins i (u ∷ us) (k ∷ ks) h =
    by_tests (text_eq k.reference u.reference) (text_eq k.digest u.digest)
      (text_eq_iff k.reference u.reference) (text_eq_iff k.digest u.digest)
      (verify_from-pins (suc i) us ks (omega arith))
  where
    by_tests :
        (b c : Bool)
        → (b ≡ true) ↔ (k.reference ≡ u.reference)
        → (c ≡ true) ↔ (k.digest ≡ u.digest)
        → (verify_from (suc i) us ks ≡ none) ↔ (pins us ≡ locked_pins ks)
        → ((if b
              then (if c
                  then verify_from (suc i) us ks
                  else some (other_digest u.reference u.digest k.digest))
              else some (other_reference i k.reference u.reference))
            ≡ none)
          ↔ ((u.reference, u.digest) ∷ pins us ≡ (k.reference, k.digest) ∷ locked_pins ks)
    by_tests true true e d rest = ground arith
    by_tests true false e d rest = ground arith
    by_tests false c e d rest = ground arith

-- A set recreates a lock exactly when its units, in their order, have the references and the digests
-- that the lock records.
pub verify_recreate-pins :
    (l : Lock) (r : Resolution)
    → (verify_recreate l r ≡ none) ↔ (pins (composed r) ≡ locked_pins l.kits)
unfolding verify_recreate
verify_recreate-pins l r =
    by_length (length (composed r) == length l.kits) (==_iff (length (composed r)) (length l.kits))
      (verify_from-pins 0 (composed r) l.kits)
  where
    by_length :
        (b : Bool)
        → (b ≡ true) ↔ (length (composed r) ≡ length l.kits)
        → (length (composed r) ≡ length l.kits
            → (verify_from 0 (composed r) l.kits ≡ none) ↔ (pins (composed r) ≡ locked_pins l.kits))
        → ((if b
              then verify_from 0 (composed r) l.kits
              else some (other_length (length l.kits) (length (composed r))))
            ≡ none)
          ↔ (pins (composed r) ≡ locked_pins l.kits)
    by_length true e h = h (e.0 refl)
    by_length false e h = (
      λ v. cc,
      λ v.
          ground
            (arith, ap (λ ps. length ps) v, length-pins (composed r), length-locked_pins l.kits, e),
    )

locked_pins-locked_kits :
    (rec : Recorder) (us : List Kit) → pins us ≡ locked_pins (locked_kits rec us)
unfolding pins locked_pins locked_kits
locked_pins-locked_kits rec [] = refl
locked_pins-locked_kits rec (u ∷ us) =
    ap (λ ps. (u.reference, u.digest) ∷ ps) (locked_pins-locked_kits rec us)

-- A resolution recreates the lock that records it.
pub verify_recreate-lock_from :
    (rec : Recorder) (r : Resolution) → verify_recreate (lock_from rec r) r ≡ none
unfolding lock_from
verify_recreate-lock_from rec r =
    (verify_recreate-pins (lock_from rec r) r).1 (locked_pins-locked_kits rec (composed r))
