-- ===== src/Base/Splitting.antt =====
-- Laws of split, join and trim_space.
use mathlib.Core.Path.{◌≡◌, refl, ap, ◌∙◌}
use mathlib.Core.Logic.{◌≢◌}
use mathlib.Core.Bool.{Bool, true, false, not}
use mathlib.Core.List.{List, [], ◌∷◌, ◌++◌}
use Prim.Native.Nat.{ℕ}
use native.Mathlib.Omega.{arith}
use sandbox_kit_spec.Base.Tests.{◌==◌, if◌then◌else◌}
use sandbox_kit_spec.Base.Lists.{All, all, all-append}
use sandbox_kit_spec.Base.Strings.{
  Text, split, push_head, join, contains, trim_left, trim_right, trim_space, is_space,
}

-- The pieces of a split have no separator.
pub split-no_sep : (sep : ℕ) (s : Text) → All (λ t. contains sep t ≡ false) (split sep s)
unfolding split contains
split-no_sep sep [] = (refl, tt)
split-no_sep sep (c ∷ s) = push (split sep s) (split-no_sep sep s)
  where
    push :
        (segs : List Text)
        → All (λ t. contains sep t ≡ false) segs
        → All (λ t. contains sep t ≡ false) (if c == sep then [] ∷ segs else push_head c segs)
    push [] h = ground arith
    push (t ∷ ts) h = ground arith

pub join-push_head :
    (sep : Text) (c : ℕ) (segs : List Text)
    → segs ≢ []
    → join sep (push_head c segs) ≡ c ∷ join sep segs
unfolding join
join-push_head sep c [] h = absurd (h refl)
join-push_head sep c (t ∷ []) h = refl
join-push_head sep c (t ∷ u ∷ us) h = refl

push_head-ne-nil : (c : ℕ) (segs : List Text) → push_head c segs ≢ []
push_head-ne-nil c [] h = cc
push_head-ne-nil c (t ∷ ts) h = cc

pub split-ne-nil : (sep : ℕ) (s : Text) → split sep s ≢ []
unfolding split
split-ne-nil sep [] = λ h. cc
split-ne-nil sep (c ∷ s) = ground (arith, push_head-ne-nil c (split sep s))

join-nil_cons :
    (sep : Text) (segs : List Text) → segs ≢ [] → join sep ([] ∷ segs) ≡ sep ++ join sep segs
unfolding join
join-nil_cons sep [] h = absurd (h refl)
join-nil_cons sep (t ∷ ts) h = refl

-- Joining the pieces gives the text back.
pub join-split : (sep : ℕ) (s : Text) → join (sep ∷ []) (split sep s) ≡ s
unfolding split
join-split sep [] = unfold join in refl
join-split sep (c ∷ s) = ground (
  arith,
  join-split sep s,
  join-nil_cons (sep ∷ []) (split sep s) (split-ne-nil sep s),
  join-push_head (sep ∷ []) c (split sep s) (split-ne-nil sep s),
)

split-plain : (sep : ℕ) (t : Text) → contains sep t ≡ false → split sep t ≡ t ∷ []
unfolding split contains
split-plain sep [] h = refl
split-plain sep (c ∷ t) h = ground (arith, split-plain sep t)

-- A text is cut at each separator.
pub split-append : (sep : ℕ) (s t : Text) → split sep (s ++ sep ∷ t) ≡ split sep s ++ split sep t
unfolding split
split-append sep [] t = ground arith
split-append sep (c ∷ s) t = step (split sep s) (split-append sep s t) (split-ne-nil sep s)
  where
    step :
        (segs : List Text)
        → split sep (s ++ sep ∷ t) ≡ segs ++ split sep t
        → segs ≢ []
        → (if c == sep
            then [] ∷ split sep (s ++ sep ∷ t)
            else push_head c (split sep (s ++ sep ∷ t)))
          ≡ (if c == sep then [] ∷ segs else push_head c segs) ++ split sep t
    step [] e h = absurd (h refl)
    step (u ∷ us) e h = ground arith

-- Splitting what was joined gives the pieces back.
pub split-join :
    (sep : ℕ) (segs : List Text)
    → segs ≢ []
    → All (λ t. contains sep t ≡ false) segs
    → split sep (join (sep ∷ []) segs) ≡ segs
unfolding join
split-join sep [] h k = absurd (h refl)
split-join sep (t ∷ []) h k = split-plain sep t k.0
split-join sep (t ∷ u ∷ us) h k =
    split-append sep t (join (sep ∷ []) (u ∷ us))
    ∙ rw (split-plain sep t k.0) (ap (λ r. t ∷ r) (split-join sep (u ∷ us) (λ e. cc) k.1))

pub all-join :
    (p : ℕ → Bool) (sep : ℕ) (segs : List Text)
    → p sep ≡ true
    → All (λ t. all p t ≡ true) segs
    → all p (join (sep ∷ []) segs) ≡ true
unfolding join
all-join p sep [] h k = refl
all-join p sep (t ∷ []) h k = k.0
all-join p sep (t ∷ u ∷ us) h k =
    rw (all-append p t (sep ∷ join (sep ∷ []) (u ∷ us)))
      (ground (arith, all-join p sep (u ∷ us) h k.1))

trim_left-id : (p : ℕ → Bool) (s : Text) → all (λ c. not (p c)) s ≡ true → trim_left p s ≡ s
unfolding trim_left
trim_left-id p [] h = refl
trim_left-id p (c ∷ s) h = ground arith

trim_right-id : (p : ℕ → Bool) (s : Text) → all (λ c. not (p c)) s ≡ true → trim_right p s ≡ s
unfolding trim_right
trim_right-id p [] h = refl
trim_right-id p (c ∷ []) h = ground arith
trim_right-id p (c ∷ d ∷ s) h = rw (trim_right-id p (d ∷ s) (ground arith)) refl

abbrev pub HasNoSpace : Text → Type 0
HasNoSpace s = all (λ c. not (is_space c)) s ≡ true

-- A text without white space is left as it is.
pub trim_space-id : (s : Text) → HasNoSpace s → trim_space s ≡ s
unfolding trim_space
trim_space-id s h =
    ap (trim_right is_space) (trim_left-id is_space s h) ∙ trim_right-id is_space s h
