-- ===== src/Version/Require.antt =====
-- Parsing of spec/version.go: ParseProvide, ParseRequire, splitRequireName, parseConstraints,
-- cutConstraintOp, and the rendering CanonicalRequire.
pub mod Fuel
pub mod Accepted
use sandbox_kit_spec.Base.{
  ℕ, zero, suc, Bool, ◌||◌, Option, none, some, List, [], ◌∷◌, ◌++◌, map, length, Text, codes, cut,
  cut_prefix, trim_space, join, sort_texts, ◌==◌, if◌then◌else◌, Result, ok, err, ◌>>=◌, ◌>>◌,
}
use sandbox_kit_spec.Version.Order.{parse_version, canonical_version}
use sandbox_kit_spec.Version.Error.{
  ConstraintOp, op_gte, op_gt, op_lte, op_lt, op_eq, Error, invalid_version, missing_name,
  missing_operator, missing_version, constraint_version, trailing_comma, empty_constraints,
  provides_entry, requires_entry, out_of_fuel,
}
use sandbox_kit_spec.Version.Name.{check_capability_name, normalize_capability_name}
use sandbox_kit_spec.Version.Constraint.{
  Provide, Constraint, Require, simplify_constraints, check_constraints_satisfiable,
}

-- parseVersion with its error
unfoldable pub read_version : Text → Result Error Text
unfolding parse_version
read_version v = elim (parse_version v) [
  | some w ↦ ok w
  | none ↦ err (invalid_version (trim_space v))
]

-- fmt.Errorf("...: %w", err)
abbrev pub wrap {ℓ} : {A : Type ℓ} → (Error → Error) → Result Error A → Result Error A
wrap f (ok a) = ok a
wrap f (err e) = err (f e)

abbrev pub read_provide_version : Option Text → Result Error Text
read_provide_version none = ok []
read_provide_version (some v) = do w ← read_version v; ok v

abbrev pub name_part : Text → Option (Text × Text) → Text
name_part s none = s
name_part s (some (name, version)) = name

abbrev pub version_part : Option (Text × Text) → Option Text
version_part none = none
version_part (some (name, version)) = some version

-- ParseProvide: the version is kept as it is spelled.
unfoldable pub parse_provide : Text → Result Error Provide
unfolding trim_space cut check_capability_name normalize_capability_name read_version
parse_provide s =
    let trimmed = trim_space s in
    let parts = cut b'@' trimmed in
    let name = name_part trimmed parts in
    wrap (provides_entry s) (
      check_capability_name name >> (do
        version ← read_provide_version (version_part parts)
        ok (record { name = normalize_capability_name name; version = version })))

abbrev pub is_operator : ℕ → Bool
is_operator c = (c == b'>') || (c == b'<') || (c == b'=')

-- What stands before the first operator, and what begins with it.
unfoldable pub cut_operator : Text → Option (Text × Text)
cut_operator [] = none
cut_operator (c ∷ s) =
    if is_operator c
    then some ([], c ∷ s)
    else elim (cut_operator s) [ none ↦ none | some (name, rest) ↦ some (c ∷ name, rest) ]

abbrev pub named : Text → Text → Result Error (Text × Text)
named [] rest = err missing_name
named (c ∷ name) rest = ok (c ∷ name, rest)

unfoldable pub split_require_name : Text → Result Error (Text × Text)
unfolding cut_operator trim_space
split_require_name s = elim (cut_operator s) [
  | none ↦ ok (trim_space s, [])
  | some (name, rest) ↦ named (trim_space name) (trim_space rest)
]

abbrev pub try_op :
    Text
    → ConstraintOp
    → Text
    → Result Error (ConstraintOp × Text)
    → Result Error (ConstraintOp × Text)
try_op symbol op s other = elim (cut_prefix symbol s) [
  | some rest ↦ ok (op, trim_space rest)
  | none ↦ other
]

-- The switch of cutConstraintOp, in its order.
abbrev pub switch_op : Text → Result Error (ConstraintOp × Text)
switch_op s = try_op (codes ">=") op_gte s (
    try_op (codes "<=") op_lte s (
      try_op (codes ">") op_gt s
        (try_op (codes "<") op_lt s (try_op (codes "=") op_eq s (err (missing_operator s))))))

unfoldable pub cut_constraint_op : Text → Result Error (ConstraintOp × Text)
unfolding trim_space cut_prefix
cut_constraint_op s = switch_op (trim_space s)

abbrev pub before_comma : Text → Option (Text × Text) → Text
before_comma s none = s
before_comma s (some (v, next)) = v

abbrev pub after_comma : Option (Text × Text) → Option Text
after_comma none = none
after_comma (some (v, next)) = some next

abbrev pub require_version : ConstraintOp → Text → Result Error Text
require_version op [] = err (missing_version op)
require_version op (c ∷ v) = wrap (constraint_version op) (read_version (c ∷ v))

-- One round of the loop of parseConstraints: the constraint, and what follows the comma.
unfoldable pub parse_constraint : Text → Result Error (Constraint × Option Text)
unfolding cut_constraint_op cut trim_space read_version
parse_constraint s = do
  (op, after_op) ← cut_constraint_op s
  let parts = cut b',' after_op
  version ← require_version op (trim_space (before_comma after_op parts))
  ok (record { op = op; version = version }, after_comma parts)

-- The rest of the round: stop without a comma, refuse a trailing one.
abbrev pub continue :
    (Text → List Constraint → Result Error (List Constraint))
    → List Constraint
    → Option Text
    → Result Error (List Constraint)
continue loop out none = ok out
continue loop out (some next) = elim (trim_space next) [
  | [] ↦ err trailing_comma
  | c ∷ s ↦ loop (c ∷ s) out
]

unfoldable pub parse_loop : ℕ → Text → List Constraint → Result Error (List Constraint)
unfolding parse_constraint trim_space
parse_loop fuel [] out = ok out
parse_loop zero (c ∷ s) out = err out_of_fuel
parse_loop (suc fuel) (c ∷ s) out = do
  (constraint, next) ← parse_constraint (c ∷ s)
  continue (parse_loop fuel) (out ++ constraint ∷ []) next

abbrev pub nonempty : List Constraint → Result Error (List Constraint)
nonempty [] = err empty_constraints
nonempty (c ∷ cs) = check_constraints_satisfiable (c ∷ cs) >> ok (c ∷ cs)

-- The loop takes a character of the text or more each round.
unfoldable pub parse_constraints : Text → Result Error (List Constraint)
unfolding parse_loop check_constraints_satisfiable
parse_constraints s = parse_loop (length s) s [] >>= nonempty

abbrev pub with_constraints : Text → Text → Result Error Require
with_constraints name [] = ok (record { name = name; constraints = [] })
with_constraints name (c ∷ rest) = do
  constraints ← parse_constraints (c ∷ rest)
  ok (record { name = name; constraints = constraints })

-- ParseRequire
abbrev pub parse_trimmed : Text → Result Error Require
parse_trimmed s = do
  (name, rest) ← split_require_name s
  check_capability_name name >> with_constraints (normalize_capability_name name) rest

unfoldable pub parse_require : Text → Result Error Require
unfolding trim_space split_require_name check_capability_name normalize_capability_name
    parse_constraints
parse_require s =
    let trimmed = trim_space s in wrap (requires_entry trimmed) (parse_trimmed trimmed)

abbrev pub op_text : ConstraintOp → Text
op_text op_gte = codes ">="
op_text op_gt = codes ">"
op_text op_lte = codes "<="
op_text op_lt = codes "<"
op_text op_eq = codes "="

abbrev pub render_constraint : Constraint → Text
render_constraint c = op_text c.op ++ canonical_version c.version

-- CanonicalRequire
unfoldable pub canonical_require : Require → Text
unfolding simplify_constraints canonical_version sort_texts join
canonical_require r =
    r.name
    ++ (b' '
        ∷ join (codes ",")
            (sort_texts (map render_constraint (simplify_constraints r.constraints))))
