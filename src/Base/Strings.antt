-- ===== src/Base/Strings.antt =====
-- Texts as lists of code points, with what the code uses of Go's package strings.
use Prim.Native.Nat.{ℕ, compare, Ordering, lt, eq, gt}
use Prim.Native.Char.{code}
use Prim.Native.String.{String}
use mathlib.Core.Path.{◌≡◌, refl}
use mathlib.Core.Logic.{◌↔◌}
use mathlib.Core.Bool.{Bool, true, false, ◌&&◌, ◌||◌}
use mathlib.Core.Option.{Option, none, some}
use mathlib.Core.List.{List, [], ◌∷◌, ◌++◌}
use native.Mathlib.Omega.{arith}
use sandbox_kit_spec.Base.Tests.{leb, ◌==◌, if◌then◌else◌}
use sandbox_kit_spec.Base.Order.{
  or_else, flip, flip-or_else, flip-compare, compare_self, is_gt, is_le,
}

abbrev pub Text : Type 0
Text = List ℕ

-- The code points of a literal.
abbrev pub codes : String → Text
codes String.[] = []
codes (String.◌∷◌ c s) = code c ∷ codes s

-- Comparison of texts: bytewise order in Go, which UTF-8 keeps for code points.
unfoldable pub compare_text : Text → Text → Ordering
compare_text [] [] = eq
compare_text [] (b ∷ t) = lt
compare_text (a ∷ s) [] = gt
compare_text (a ∷ s) (b ∷ t) = or_else (compare a b) (compare_text s t)

unfoldable pub text_eq : Text → Text → Bool
text_eq [] [] = true
text_eq [] (b ∷ t) = false
text_eq (a ∷ s) [] = false
text_eq (a ∷ s) (b ∷ t) = a == b && text_eq s t

-- unicode.IsSpace
unfoldable pub is_space : ℕ → Bool
is_space c =
    (leb 9 c && leb c 13)
    || (c == 32)
    || (c == 0x85)
    || (c == 0xa0)
    || (c == 0x1680)
    || (leb 0x2000 c && leb c 0x200a)
    || (leb 0x2028 c && leb c 0x2029)
    || (c == 0x202f)
    || (c == 0x205f)
    || (c == 0x3000)

-- strings.TrimLeftFunc
unfoldable pub trim_left : (ℕ → Bool) → Text → Text
trim_left p [] = []
trim_left p (c ∷ s) = let rest = trim_left p s in if p c then rest else c ∷ s

-- strings.TrimRightFunc
abbrev pub keep_unless : Bool → ℕ → Text → Text
keep_unless b c [] = if b then [] else c ∷ []
keep_unless b c (d ∷ s) = c ∷ d ∷ s

unfoldable pub trim_right : (ℕ → Bool) → Text → Text
trim_right p [] = []
trim_right p (c ∷ s) = keep_unless (p c) c (trim_right p s)

-- strings.TrimSpace
unfoldable pub trim_space : Text → Text
unfolding trim_left trim_right is_space
trim_space s = trim_right is_space (trim_left is_space s)

-- strings.Cut at a one-character separator: what stands before and after its first occurrence.
unfoldable pub cut : ℕ → Text → Option (Text × Text)
cut sep [] = none
cut sep (c ∷ s) =
    if c == sep
    then some ([], s)
    else elim (cut sep s) [ none ↦ none | some (before, after) ↦ some (c ∷ before, after) ]

-- The same at the last occurrence of a character of which `p` holds: strings.LastIndex.
unfoldable pub cut_last : (ℕ → Bool) → Text → Option (Text × Text)
cut_last p [] = none
cut_last p (c ∷ s) = elim (cut_last p s) [
  | some (before, after) ↦ some (c ∷ before, after)
  | none ↦ if p c then some ([], s) else none
]

-- strings.Split at a one-character separator.
abbrev pub push_head : ℕ → List Text → List Text
push_head c [] = (c ∷ []) ∷ []
push_head c (seg ∷ segs) = (c ∷ seg) ∷ segs

unfoldable pub split : ℕ → Text → List Text
split sep [] = [] ∷ []
split sep (c ∷ s) = let rest = split sep s in if c == sep then [] ∷ rest else push_head c rest

-- strings.Join
unfoldable pub join : Text → List Text → Text
join sep [] = []
join sep (s ∷ []) = s
join sep (s ∷ t ∷ ts) = s ++ (sep ++ join sep (t ∷ ts))

-- strings.CutPrefix
unfoldable pub cut_prefix : Text → Text → Option Text
cut_prefix [] s = some s
cut_prefix (p ∷ ps) [] = none
cut_prefix (p ∷ ps) (c ∷ s) = if p == c then cut_prefix ps s else none

-- strings.TrimPrefix
unfoldable pub trim_prefix : Text → Text → Text
unfolding cut_prefix
trim_prefix p s = elim (cut_prefix p s) [ none ↦ s | some rest ↦ rest ]

-- strings.CutSuffix
unfoldable pub cut_suffix : Text → Text → Option Text
unfolding text_eq
cut_suffix p [] = if text_eq p [] then some [] else none
cut_suffix p (c ∷ s) =
    if text_eq p (c ∷ s)
    then some []
    else elim (cut_suffix p s) [ none ↦ none | some before ↦ some (c ∷ before) ]

-- strings.Contains of a character
unfoldable pub contains : ℕ → Text → Bool
contains c [] = false
contains c (d ∷ s) = d == c || contains c s

unfoldable pub is_digit : ℕ → Bool
is_digit c = leb b'0' c && leb c b'9'

unfoldable pub is_lower : ℕ → Bool
is_lower c = leb b'a' c && leb c b'z'

unfoldable pub is_upper : ℕ → Bool
is_upper c = leb b'A' c && leb c b'Z'

-- A set of texts, as a list.
unfoldable pub has_text : List Text → Text → Bool
unfolding text_eq
has_text [] t = false
has_text (s ∷ ss) t = text_eq s t || has_text ss t

-- Each text once, at its first place.
unfoldable pub unique : List Text → List Text → List Text
unfolding has_text
unique seen [] = []
unique seen (s ∷ ss) =
    let repeated = has_text seen s in
    let rest = unique (if repeated then seen else s ∷ seen) ss in
    if repeated then rest else s ∷ rest

-- strings.HasPrefix, strings.HasSuffix
unfoldable pub has_prefix : Text → Text → Bool
has_prefix [] s = true
has_prefix (p ∷ ps) [] = false
has_prefix (p ∷ ps) (c ∷ s) = (p == c) && has_prefix ps s

unfoldable pub has_suffix : Text → Text → Bool
unfolding text_eq
has_suffix p [] = text_eq p []
has_suffix p (c ∷ s) = text_eq p (c ∷ s) || has_suffix p s

abbrev insert_unless : Bool → Text → Text → List Text → List Text → List Text
insert_unless b s t ts rest = if b then t ∷ rest else s ∷ t ∷ ts

-- sort.Strings, as an insertion sort
unfoldable pub insert_text : Text → List Text → List Text
unfolding compare_text
insert_text s [] = s ∷ []
insert_text s (t ∷ ts) = insert_unless (is_gt (compare_text s t)) s t ts (insert_text s ts)

unfoldable pub sort_texts : List Text → List Text
unfolding insert_text
sort_texts [] = []
sort_texts (s ∷ ss) = insert_text s (sort_texts ss)

pub flip-compare_text : (s t : Text) → compare_text t s ≡ flip (compare_text s t)
unfolding compare_text
flip-compare_text [] [] = refl
flip-compare_text [] (b ∷ t) = refl
flip-compare_text (a ∷ s) [] = refl
flip-compare_text (a ∷ s) (b ∷ t) = rw (flip-compare a b, flip-compare_text s t, ← flip-or_else)

pub compare_text_self : (s : Text) → compare_text s s ≡ eq
unfolding compare_text
compare_text_self [] = refl
compare_text_self (a ∷ s) = rw (compare_self a, compare_text_self s)

pub compare_text-eq-eq : (s t : Text) → compare_text s t ≡ eq → s ≡ t
unfolding compare_text
compare_text-eq-eq [] [] h = refl
compare_text-eq-eq [] (b ∷ t) h = cc
compare_text-eq-eq (a ∷ s) [] h = cc
compare_text-eq-eq (a ∷ s) (b ∷ t) h = ground (arith, compare_text-eq-eq s t)

pub text_eq_iff : (s t : Text) → (text_eq s t ≡ true) ↔ (s ≡ t)
unfolding text_eq
text_eq_iff [] [] = ground arith
text_eq_iff [] (b ∷ t) = ground arith
text_eq_iff (a ∷ s) [] = ground arith
text_eq_iff (a ∷ s) (b ∷ t) = ground (arith, text_eq_iff s t)

pub compare_text_trans :
    (s t u : Text)
    → is_le (compare_text s t) ≡ true
    → is_le (compare_text t u) ≡ true
    → is_le (compare_text s u) ≡ true
unfolding compare_text
compare_text_trans [] t [] h k = refl
compare_text_trans [] t (c ∷ u) h k = refl
compare_text_trans (a ∷ s) [] u h k = cc
compare_text_trans (a ∷ s) (b ∷ t) [] h k = cc
compare_text_trans (a ∷ s) (b ∷ t) (c ∷ u) h k = ground (arith, compare_text_trans s t u)
