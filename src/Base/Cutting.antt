-- ===== src/Base/Cutting.antt =====
-- Laws of cut, contains, cut_prefix and the lengths of trimmed texts.
use Prim.Native.Nat.{ℕ, ◌≤◌, ◌<◌, ◌+◌}
use mathlib.Core.Path.{◌≡◌, refl}
use mathlib.Core.Bool.{Bool, true, false}
use mathlib.Core.List.{[], ◌∷◌, ◌++◌}
use mathlib.Core.Logic.{inl, inr}
use mathlib.Core.Option.{none, some}
use native.Mathlib.Omega.{arith}
use sandbox_kit_spec.Base.Tests.{Option-cases, ==_iff}
use sandbox_kit_spec.Base.Lists.{length, any}
use sandbox_kit_spec.Base.Strings.{
  Text, cut, cut_last, contains, cut_prefix, trim_prefix, trim_left, trim_right, trim_space,
  is_space, keep_unless,
}

-- A cut finds the first separator.
pub cut-append :
    (sep : ℕ) (s t : Text) → contains sep s ≡ false → cut sep (s ++ sep ∷ t) ≡ some (s, t)
unfolding cut contains
cut-append sep [] t h = ground arith
cut-append sep (c ∷ s) t h = ground (arith, cut-append sep s t)

pub cut-none : (sep : ℕ) (s : Text) → contains sep s ≡ false → cut sep s ≡ none
unfolding cut contains
cut-none sep [] h = refl
cut-none sep (c ∷ s) h = ground (arith, cut-none sep s)

pub cut-some :
    (sep : ℕ) (s before after : Text)
    → cut sep s ≡ some (before, after)
    → (s ≡ before ++ sep ∷ after) × (contains sep before ≡ false)
unfolding cut contains
cut-some sep [] before after h = cc
cut-some sep (c ∷ s) before after h = elim (Option-cases (cut sep s)) [
  | inl e ↦ ground (arith, ==_iff c sep)
  | inr ((b, a), e) ↦ ground (arith, ==_iff c sep, cut-some sep s b a e)
]

pub contains-append_self : (c : ℕ) (s t : Text) → contains c (s ++ c ∷ t) ≡ true
unfolding contains
contains-append_self c [] t = ground arith
contains-append_self c (d ∷ s) t = ground (arith, contains-append_self c s t)

pub cut_prefix-append : (p s : Text) → cut_prefix p (p ++ s) ≡ some s
unfolding cut_prefix
cut_prefix-append [] s = refl
cut_prefix-append (c ∷ p) s = ground (arith, cut_prefix-append p s)

pub cut_prefix-some : (p s rest : Text) → cut_prefix p s ≡ some rest → s ≡ p ++ rest
unfolding cut_prefix
cut_prefix-some [] s rest h = ground arith
cut_prefix-some (c ∷ p) [] rest h = cc
cut_prefix-some (c ∷ p) (d ∷ s) rest h = ground (arith, cut_prefix-some p s rest, ==_iff c d)

pub trim_prefix-append : (p s : Text) → trim_prefix p (p ++ s) ≡ s
unfolding trim_prefix
trim_prefix-append p s = rw (cut_prefix-append p s, trim_prefix)

pub trim_prefix-none : (p s : Text) → cut_prefix p s ≡ none → trim_prefix p s ≡ s
unfolding trim_prefix
trim_prefix-none p s h = rw (h, trim_prefix)

pub trim_prefix-some : (p s rest : Text) → cut_prefix p s ≡ some rest → trim_prefix p s ≡ rest
unfolding trim_prefix
trim_prefix-some p s rest h = rw (h, trim_prefix)

pub length-trim_left : (p : ℕ → Bool) (s : Text) → length (trim_left p s) ≤ length s
unfolding trim_left
length-trim_left p [] = omega arith
length-trim_left p (c ∷ s) = ground (arith, length-trim_left p s)

length-keep_unless : (b : Bool) (c : ℕ) (s : Text) → length (keep_unless b c s) ≤ length s + 1
length-keep_unless b c [] = ground arith
length-keep_unless b c (d ∷ s) = omega arith

pub length-trim_right : (p : ℕ → Bool) (s : Text) → length (trim_right p s) ≤ length s
unfolding trim_right
length-trim_right p [] = omega arith
length-trim_right p (c ∷ s) =
    omega (arith, length-trim_right p s, length-keep_unless (p c) c (trim_right p s))

pub length-trim_space : (s : Text) → length (trim_space s) ≤ length s
unfolding trim_space
length-trim_space s =
    omega (arith, length-trim_left is_space s, length-trim_right is_space (trim_left is_space s))

pub length-cut_prefix :
    (p s rest : Text) → cut_prefix p s ≡ some rest → length p + length rest ≡ length s
unfolding cut_prefix
length-cut_prefix [] s rest h = ground arith
length-cut_prefix (c ∷ p) [] rest h = cc
length-cut_prefix (c ∷ p) (d ∷ s) rest h = ground (arith, length-cut_prefix p s rest)

pub length-cut :
    (sep : ℕ) (s before after : Text) → cut sep s ≡ some (before, after) → length after < length s
unfolding cut
length-cut sep [] before after h = cc
length-cut sep (c ∷ s) before after h = elim (Option-cases (cut sep s)) [
  | inl e ↦ ground arith
  | inr ((b, a), e) ↦ ground (arith, length-cut sep s b a e)
]

-- A cut at the last separator.
pub cut_last-none : (p : ℕ → Bool) (s : Text) → any p s ≡ false → cut_last p s ≡ none
unfolding cut_last
cut_last-none p [] h = refl
cut_last-none p (c ∷ s) h = ground (arith, cut_last-none p s)

pub cut_last-append :
    (p : ℕ → Bool) (s : Text) (c : ℕ) (t : Text)
    → p c ≡ true
    → any p t ≡ false
    → cut_last p (s ++ c ∷ t) ≡ some (s, t)
unfolding cut_last
cut_last-append p [] c t h k = ground (arith, cut_last-none p t k)
cut_last-append p (d ∷ s) c t h k = ground (arith, cut_last-append p s c t h k)
