-- ===== src/Base/Lists.antt =====
-- Lists measured by native numbers, and lists of which every element has a property.
use Prim.Native.Nat.{ℕ, suc, ◌+◌}
use mathlib.Core.Path.{◌≡◌, refl, ap₂, ◌∙◌}
use mathlib.Core.Bool.{Bool, true, false, not, ◌&&◌, ◌||◌}
use mathlib.Core.List.{List, [], ◌∷◌, ◌++◌, append_assoc}
use native.Mathlib.Omega.{arith}
use sandbox_kit_spec.Base.Tests.{if◌then◌else◌}

module _ {ℓ} {A : Type ℓ} where
  abbrev pub length : List A → ℕ
  length [] = 0
  length (x ∷ xs) = suc (length xs)

  abbrev pub all : (A → Bool) → List A → Bool
  all p [] = true
  all p (x ∷ xs) = p x && all p xs

  abbrev pub any : (A → Bool) → List A → Bool
  any p [] = false
  any p (x ∷ xs) = p x || any p xs

  unfoldable pub filter : (A → Bool) → List A → List A
  filter p [] = []
  filter p (x ∷ xs) = let rest = filter p xs in if p x then x ∷ rest else rest

  abbrev pub is_empty : List A → Bool
  is_empty [] = true
  is_empty (x ∷ xs) = false

  pub is_empty-append : (xs ys : List A) → is_empty (xs ++ ys) ≡ (is_empty xs && is_empty ys)
  is_empty-append [] ys = ground arith
  is_empty-append (x ∷ xs) ys = refl

  pub is_empty-filter : (p : A → Bool) (xs : List A) → is_empty (filter p xs) ≡ not (any p xs)
  unfolding filter
  is_empty-filter p [] = refl
  is_empty-filter p (x ∷ xs) = ground (arith, is_empty-filter p xs)

  pub length-append : (xs ys : List A) → length (xs ++ ys) ≡ length xs + length ys
  length-append [] ys = omega arith
  length-append (x ∷ xs) ys = omega (arith, length-append xs ys)

  pub all-append : (p : A → Bool) (xs ys : List A) → all p (xs ++ ys) ≡ (all p xs && all p ys)
  all-append p [] ys = refl
  all-append p (x ∷ xs) ys = ground (arith, all-append p xs ys)

  pub all-cong : (p q : A → Bool) → ((x : A) → p x ≡ q x) → (xs : List A) → all p xs ≡ all q xs
  all-cong p q e [] = refl
  all-cong p q e (x ∷ xs) = ap₂ ◌&&◌ (e x) (all-cong p q e xs)

  pub all-implies :
      (p q : A → Bool) (xs : List A)
      → ((x : A) → p x ≡ true → q x ≡ true)
      → all p xs ≡ true
      → all q xs ≡ true
  all-implies p q [] e h = refl
  all-implies p q (x ∷ xs) e h =
      ground (arith, e x (ground arith), all-implies p q xs e (ground arith))

  pub any-append : (p : A → Bool) (xs ys : List A) → any p (xs ++ ys) ≡ (any p xs || any p ys)
  any-append p [] ys = refl
  any-append p (x ∷ xs) ys = ground (arith, any-append p xs ys)

  pub not-any : (p : A → Bool) (xs : List A) → not (any p xs) ≡ all (λ x. not (p x)) xs
  not-any p [] = refl
  not-any p (x ∷ xs) = ground (arith, not-any p xs)

  -- Two tests that agree at each element of a list.
  pub all-within :
      (p q : A → Bool) (before after : List A)
      → ((left : List A) (x : A) (right : List A) → left ++ x ∷ right ≡ before ++ after → p x ≡ q x)
      → all p after ≡ all q after
  all-within p q before [] e = refl
  all-within p q before (x ∷ xs) e = ap₂ ◌&&◌ (e before x xs refl) (
      all-within p q (before ++ x ∷ []) xs
        (λ l y r h. e l y r (h ∙ append_assoc before (x ∷ []) xs)))

module _ {ℓ κ} {A : Type ℓ} (P : A → Type κ) where
  abbrev pub All : List A → Type κ
  All [] = Unit
  All (x ∷ xs) = P x × All xs

  pub All-append : (xs ys : List A) → All xs → All ys → All (xs ++ ys)
  All-append [] ys _ k = k
  All-append (x ∷ xs) ys (p, h) k = (p, All-append xs ys h k)
