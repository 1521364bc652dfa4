-- ===== src/Base/Order.antt =====
-- Results of three-way comparisons, as Go's -1, 0 and 1.
use Prim.Native.Nat.{ℕ, compare, Ordering, lt, eq, gt}
use mathlib.Core.Path.{◌≡◌, refl}
use mathlib.Core.Logic.{◌≢◌}
use mathlib.Core.Bool.{Bool, true, false}
use native.Mathlib.Omega.{arith}

-- The first result that is not 0.
abbrev pub or_else : Ordering → Ordering → Ordering
or_else lt r = lt
or_else eq r = r
or_else gt r = gt

abbrev pub flip : Ordering → Ordering
flip lt = gt
flip eq = eq
flip gt = lt

abbrev pub is_lt : Ordering → Bool
is_lt lt = true
is_lt _ = false

abbrev pub is_eq : Ordering → Bool
is_eq eq = true
is_eq _ = false

abbrev pub is_gt : Ordering → Bool
is_gt gt = true
is_gt _ = false

abbrev pub is_le : Ordering → Bool
is_le gt = false
is_le _ = true

abbrev pub is_ge : Ordering → Bool
is_ge lt = false
is_ge _ = true

pub flip-or_else : (a b : Ordering) → flip (or_else a b) ≡ or_else (flip a) (flip b)
flip-or_else lt b = refl
flip-or_else eq b = refl
flip-or_else gt b = refl

pub flip-compare : (a b : ℕ) → compare b a ≡ flip (compare a b)
flip-compare a b = ground arith

pub compare_self : (a : ℕ) → compare a a ≡ eq
compare_self a = ground arith

pub compare-eq-eq : (a b : ℕ) → compare a b ≡ eq → a ≡ b
compare-eq-eq a b h = ground arith

pub lt≢eq : lt ≢ eq
lt≢eq h = cc
