-- ===== src/Version/Require/Fuel.antt =====
-- The loop of parseConstraints ends: each round leaves a shorter text, so that the length of the
-- text is fuel enough.
use sandbox_kit_spec.Base.{
  ℕ, zero, suc, ◌≤◌, ◌<◌, ◌≡◌, refl, Option, none, some, List, [], ◌∷◌, ◌++◌, length, Text, codes,
  cut, cut_prefix, trim_space, All, All-append, arith, Option-cases, inl, inr, Result, ok, err,
  ◌>>=◌,
}
use sandbox_kit_spec.Base.Cutting.{length-trim_space, length-cut_prefix, length-cut}
use sandbox_kit_spec.Version.Order.{parse_version}
use sandbox_kit_spec.Version.Order.Valid.{IsVersionText, parse_version-IsVersionText}
use sandbox_kit_spec.Version.Error.{
  ConstraintOp, op_gte, op_gt, op_lte, op_lt, op_eq, Error, out_of_fuel, constraint_version,
  trailing_comma,
}
use sandbox_kit_spec.Version.Constraint.{Constraint}
use sandbox_kit_spec.Version.Require.{
  read_version, wrap, try_op, switch_op, cut_constraint_op, before_comma, after_comma,
  require_version, parse_constraint, continue, parse_loop,
}

-- An outcome of the source: not the model's own error, and a value of which P holds.
abbrev pub Ends {ℓ} : {A : Type ℓ} → (A → Type 0) → Result Error A → Type 0
Ends P (err out_of_fuel) = ⊥
Ends P (err _) = Unit
Ends P (ok value) = P value

-- A step that ends well, and is followed by one that does.
pub Ends-bind {κ ℓ} :
    {A : Type κ} {B : Type ℓ} (P : A → Type 0) (Q : B → Type 0) (step : Result Error A)
    (next : A → Result Error B)
    → Ends P step
    → ((value : A) → P value → Ends Q (next value))
    → Ends Q (step >>= next)
Ends-bind P Q (err out_of_fuel) next ended later = ended
Ends-bind P Q (err _) next ended later = ground arith
Ends-bind P Q (ok value) next ended later = later value ended

abbrev Shorter : Text → ConstraintOp × Text → Type 0
Shorter s (op, rest) = length rest < length s

try_op-Ends :
    (symbol : Text) (op : ConstraintOp) (s : Text) (other : Result Error (ConstraintOp × Text))
    → 0 < length symbol
    → Ends (Shorter s) other
    → Ends (Shorter s) (try_op symbol op s other)
try_op-Ends symbol op s other h k = elim (Option-cases (cut_prefix symbol s)) [
  | inl e ↦ rw (e, Ends) k
  | inr (rest, e) ↦
      rw (e, Ends) (omega (arith, length-cut_prefix symbol s rest e, length-trim_space rest))
]

switch_op-Ends : (s : Text) → Ends (Shorter s) (switch_op s)
switch_op-Ends s = try_op-Ends (codes ">=") op_gte s _ (omega arith) (
    try_op-Ends (codes "<=") op_lte s _ (omega arith) (
      try_op-Ends (codes ">") op_gt s _ (omega arith) (
        try_op-Ends (codes "<") op_lt s _ (omega arith)
          (try_op-Ends (codes "=") op_eq s _ (omega arith) tt))))

Shorter-trim :
    (s : Text) (r : Result Error (ConstraintOp × Text))
    → Ends (Shorter (trim_space s)) r
    → Ends (Shorter s) r
Shorter-trim s (ok (op, rest)) h = omega (arith, length-trim_space s)
Shorter-trim s (err out_of_fuel) h = h
Shorter-trim s (err _) h = ground arith

cut_constraint_op-Ends : (s : Text) → Ends (Shorter s) (cut_constraint_op s)
unfolding cut_constraint_op
cut_constraint_op-Ends s = Shorter-trim s (switch_op (trim_space s)) (switch_op-Ends (trim_space s))

read_version-Ends : (v : Text) → Ends IsVersionText (read_version v)
unfolding read_version
read_version-Ends v = elim (Option-cases (parse_version v)) [
  | inl e ↦ rw (e, read_version) tt
  | inr (w, e) ↦ rw (e, read_version) (parse_version-IsVersionText v e)
]

wrap-Ends :
    (op : ConstraintOp) (r : Result Error Text)
    → Ends IsVersionText r
    → Ends IsVersionText (wrap (constraint_version op) r)
wrap-Ends op (ok v) h = h
wrap-Ends op (err e) h = tt

require_version-Ends : (op : ConstraintOp) (v : Text) → Ends IsVersionText (require_version op v)
require_version-Ends op [] = tt
require_version-Ends op (c ∷ v) = wrap-Ends op (read_version (c ∷ v)) (read_version-Ends (c ∷ v))

abbrev NextShorter : Text → Option Text → Type 0
NextShorter s none = Unit
NextShorter s (some next) = length next < length s

after_comma-shorter :
    (s : Text) (o : Option (Text × Text)) → cut b',' s ≡ o → NextShorter s (after_comma o)
after_comma-shorter s none e = tt
after_comma-shorter s (some (v, next)) e = length-cut b',' s v next e

NextShorter-lt :
    (s t : Text) (o : Option Text) → length t < length s → NextShorter t o → NextShorter s o
NextShorter-lt s t none h k = tt
NextShorter-lt s t (some next) h k = omega arith

-- A constraint that is parsed has a version, and what follows its comma is shorter.
abbrev Parsed : Text → Constraint × Option Text → Type 0
Parsed s (c, next) = IsVersionText c.version × NextShorter s next

parse_constraint-Ends : (s : Text) → Ends (Parsed s) (parse_constraint s)
unfolding parse_constraint
parse_constraint-Ends s =
    Ends-bind (Shorter s) (Parsed s) (cut_constraint_op s) _ (cut_constraint_op-Ends s)
      λ (op, after_op) shorter.
        let version = trim_space (before_comma after_op (cut b',' after_op)) in
        Ends-bind IsVersionText (Parsed s) (require_version op version) _
          (require_version-Ends op version)
          λ v valid. (
            valid,
            NextShorter-lt s after_op (after_comma (cut b',' after_op)) shorter
                (after_comma-shorter after_op (cut b',' after_op) refl),
          )

abbrev pub HaveVersions : List Constraint → Type 0
HaveVersions cs = All (λ c. IsVersionText c.version) cs

abbrev Loop : Type 0
Loop = Text → List Constraint → Result Error (List Constraint)

continue-Ends :
    (n : ℕ) (loop : Loop) (out : List Constraint) (s : Text) (next : Option Text)
    → ((t : Text) → length t ≤ n → Ends HaveVersions (loop t out))
    → HaveVersions out
    → NextShorter s next
    → length s ≤ suc n
    → Ends HaveVersions (continue loop out next)
continue-Ends n loop out s none ih h k l = h
continue-Ends n loop out s (some next) ih h k l =
    go (trim_space next) (omega (arith, length-trim_space next))
  where
    go :
        (t : Text)
        → length t ≤ n
        → Ends HaveVersions (elim t [ [] ↦ err trailing_comma | c ∷ u ↦ loop (c ∷ u) out ])
    go [] m = tt
    go (c ∷ t) m = ih (c ∷ t) m

pub parse_loop-Ends :
    (fuel : ℕ) (s : Text) (out : List Constraint)
    → length s ≤ fuel
    → HaveVersions out
    → Ends HaveVersions (parse_loop fuel s out)
unfolding parse_loop
parse_loop-Ends fuel [] out h k = k
parse_loop-Ends zero (c ∷ s) out h k = absurd (omega arith)
parse_loop-Ends (suc fuel) (c ∷ s) out h k =
    Ends-bind (Parsed (c ∷ s)) HaveVersions (parse_constraint (c ∷ s)) _
      (parse_constraint-Ends (c ∷ s))
      λ (constraint, next) (valid, shorter).
        let more = All-append (λ d. IsVersionText d.version) out (constraint ∷ []) k (valid, tt) in
        continue-Ends fuel (parse_loop fuel) (out ++ constraint ∷ []) (c ∷ s) next
          (λ t l. parse_loop-Ends fuel t (out ++ constraint ∷ []) l more) more shorter h
