-- ===== src/Version/Constraint/Rewriting.antt =====
-- The second loop of simplifyConstraints writes each exclusive bound as the inclusive one it equals.
use sandbox_kit_spec.Base.{
  Ordering, ◌≡◌, refl, sym, ap, ap₂, ◌∙◌, true, false, not, ◌&&◌, ◌≢◌, List, [], ◌∷◌, ◌++◌, Option,
  none, some, map, All, all, Text, split, text_eq_iff, cut_suffix, is_le, is_ge, is_lt, is_gt,
  arith, Option-cases, inl, inr,
}
use sandbox_kit_spec.Base.Splitting.{split-append, split-ne-nil}
use sandbox_kit_spec.Version.Order.{
  compare_versions, split_version, next_version, version_successor_suffix, version_pattern,
  are_segments, is_segment,
}
use sandbox_kit_spec.Version.Order.Linear.{is_linear_segment}
use sandbox_kit_spec.Version.Order.Valid.{IsVersionText, split-next}
use sandbox_kit_spec.Version.Error.{ConstraintOp, op_gte, op_gt, op_lte, op_lt, op_eq}
use sandbox_kit_spec.Version.Constraint.{
  Constraint, op_holds, constraint_holds, all_hold, is_pin, normalize_op, inclusive_below,
  normalize_constraint,
}
use sandbox_kit_spec.Version.Constraint.Coherent.{IsPoint, HavePoints, next-ge, next-IsPoint}
use sandbox_kit_spec.Version.Constraint.Range.{HasNoPin}

-- A text that ends with p is p behind what cut_suffix leaves.
cut_suffix-append : (p s x : Text) → cut_suffix p s ≡ some x → s ≡ x ++ p
unfolding cut_suffix
cut_suffix-append p [] x h = ground (arith, text_eq_iff p [])
cut_suffix-append p (c ∷ s) x h = elim (Option-cases (cut_suffix p s)) [
  | inl e ↦ ground (arith, text_eq_iff p (c ∷ s))
  | inr (before, e) ↦ ground (arith, text_eq_iff p (c ∷ s), cut_suffix-append p s before e)
]

are_segments-init :
    (ss : List Text) (x : Text)
    → ss ≢ []
    → are_segments (ss ++ x ∷ []) ≡ true
    → are_segments ss ≡ true
are_segments-init [] x h k = absurd (h refl)
are_segments-init (s ∷ ss) x h k = ground (arith, go ss)
  where
    go : (ts : List Text) → all is_segment (ts ++ x ∷ []) ≡ true → all is_segment ts ≡ true
    go [] e = refl
    go (t ∷ ts) e = ground (arith, go ts)

All-init : (P : Text → Type 0) (ss ts : List Text) → All P (ss ++ ts) → All P ss
All-init P [] ts h = tt
All-init P (s ∷ ss) ts h = (h.0, All-init P ss ts h.1)

-- What has a next version that is a version is one.
of_next-IsPoint : (x : Text) → IsPoint (next_version x) → IsPoint x
unfolding version_pattern next_version
of_next-IsPoint x (h, k) =
    let valid : IsVersionText x =
      are_segments-init (split b'.' x) (b'-' ∷ []) (split-ne-nil b'.' x)
        (rw (split-append b'.' x (b'-' ∷ [])) at h) in
    (
      valid,
      All-init (λ s. is_linear_segment s ≡ true) (split_version x) ((b'-' ∷ []) ∷ [])
          (rw (split-next x valid) at k),
    )

le-not_gt : (o : Ordering) → is_le o ≡ not (is_gt o)
le-not_gt o = ground arith

lt-not_ge : (o : Ordering) → is_lt o ≡ not (is_ge o)
lt-not_ge o = ground arith

-- "< next(x)" says "<= x".
lt-next :
    (w x : Text)
    → IsPoint w
    → IsPoint x
    → is_lt (compare_versions w (next_version x)) ≡ is_le (compare_versions w x)
lt-next w x hw hx =
    lt-not_ge (compare_versions w (next_version x))
    ∙ ap not (next-ge x w hx.0 hw.0)
    ∙ sym (le-not_gt (compare_versions w x))

-- A rewritten bound: it is no pin, its version is linear, and it says the same.
abbrev IsRewriting : ConstraintOp → Text → Constraint → Type 0
IsRewriting op v c =
    (is_pin c.op ≡ false)
    × IsPoint c.version
    × ((w : Text) → IsPoint w → constraint_holds w c ≡ op_holds op (compare_versions w v))

below-IsRewriting :
    (v : Text) (o : Option Text)
    → cut_suffix version_successor_suffix v ≡ o
    → IsPoint v
    → IsRewriting op_lt v (inclusive_below v o)
unfolding constraint_holds
below-IsRewriting v none e h = (refl, h, λ w hw. refl)
below-IsRewriting v (some x) e h =
    let same : v ≡ next_version x =
      cut_suffix-append version_successor_suffix v x e ∙ (unfold next_version in refl) in
    let point : IsPoint x = of_next-IsPoint x (rw same at h) in
    (refl, point, λ w hw. rw same (sym (lt-next w x hw point)))

normalize_op-IsRewriting :
    (op : ConstraintOp) (v : Text)
    → is_pin op ≡ false
    → IsPoint v
    → IsRewriting op v (normalize_op op v)
unfolding constraint_holds
normalize_op-IsRewriting op_gt v p h = (refl, next-IsPoint v h, λ w hw. next-ge v w h.0 hw.0)
normalize_op-IsRewriting op_lt v p h =
    below-IsRewriting v (cut_suffix version_successor_suffix v) refl h
normalize_op-IsRewriting op_gte v p h = (refl, h, λ w hw. refl)
normalize_op-IsRewriting op_lte v p h = (refl, h, λ w hw. refl)
normalize_op-IsRewriting op_eq v p h = cc

normalize-keeps :
    (c : Constraint)
    → is_pin c.op ≡ false
    → IsPoint c.version
    → IsRewriting c.op c.version (normalize_constraint c)
unfolding normalize_constraint
normalize-keeps c p h = normalize_op-IsRewriting c.op c.version p h

pub normalize-HavePoints :
    (cs : List Constraint)
    → HasNoPin cs
    → HavePoints cs
    → HasNoPin (map normalize_constraint cs) × HavePoints (map normalize_constraint cs)
normalize-HavePoints [] p h = (tt, tt)
normalize-HavePoints (c ∷ cs) p h =
    let k = normalize-keeps c p.0 h.0 in
    let rest = normalize-HavePoints cs p.1 h.1 in ((k.0, rest.0), (k.1, rest.1))

pub normalize-all_hold :
    (w : Text) (cs : List Constraint)
    → IsPoint w
    → HasNoPin cs
    → HavePoints cs
    → all_hold w (map normalize_constraint cs) ≡ all_hold w cs
unfolding all_hold
normalize-all_hold w [] hw p h = refl
normalize-all_hold w (c ∷ cs) hw p h =
    let k = normalize-keeps c p.0 h.0 in
    ap₂ ◌&&◌ (k.2 w hw ∙ (unfold constraint_holds in refl)) (normalize-all_hold w cs hw p.1 h.1)
