-- ===== src/Base/Results.antt =====
-- Fallible code: a value, or an error of the component's own type.
use mathlib.Core.Path.{◌≡◌, refl}
use mathlib.Core.Bool.{Bool, true, false}

pub data Result {κ ℓ} (E : Type κ) (A : Type ℓ) : Type (κ ⊔ ℓ) where
  ok : A → Result E A
  err : E → Result E A

abbrev pub is_ok {κ ℓ} : {E : Type κ} {A : Type ℓ} → Result E A → Bool
is_ok (ok value) = true
is_ok (err reason) = false

infixl 5 ◌>>=◌
abbrev pub ◌>>=◌ {κ ι ℓ} :
    {E : Type κ} {A : Type ι} {B : Type ℓ} → Result E A → (A → Result E B) → Result E B
◌>>=◌ (err reason) next = err reason
◌>>=◌ (ok value) next = next value

infixl 5 ◌>>◌
abbrev pub ◌>>◌ {κ ℓ} : {E : Type κ} {B : Type ℓ} → Result E (Unit {0}) → Result E B → Result E B
first >> second = first >>= λ _. second

-- What a chain that succeeds went through.
pub bind-ok {κ ι ℓ} :
    {E : Type κ} {A : Type ι} {B : Type ℓ} (r : Result E A) (next : A → Result E B) {last : B}
    → (r >>= next) ≡ ok last
    → (value : A) × (r ≡ ok value) × (next value ≡ ok last)
bind-ok (err reason) next e = cc
bind-ok (ok value) next e = (value, refl, e)

pub ok-injective {κ ℓ} :
    {E : Type κ} {A : Type ℓ} {a b : A} → ◌≡◌ {A = Result E A} (ok a) (ok b) → a ≡ b
ok-injective e = cc

pub err-injective {κ ℓ} :
    {E : Type κ} {A : Type ℓ} {d e : E} → ◌≡◌ {A = Result E A} (err d) (err e) → d ≡ e
err-injective h = cc
