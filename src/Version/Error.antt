-- ===== src/Version/Error.antt =====
-- The comparison operators of spec/version.go, and its errors as values: one constructor for each
-- message, with what the message shows.
use sandbox_kit_spec.Base.{ℕ, Text}

-- ConstraintOp: ">=", ">", "<=", "<" and "=".
pub data ConstraintOp : Type 0 where
  op_gte op_gt op_lte op_lt op_eq : ConstraintOp

pub data Error : Type 0 where
  invalid_name : Text → Error
  long_namespace : Text → ℕ → Error
  bad_label : Text → Text → Text → Error
  single_label : Text → Text → Text → Error
  invalid_version : Text → Error
  missing_name : Error
  missing_operator : Text → Error
  missing_version : ConstraintOp → Error
  constraint_version : ConstraintOp → Error → Error
  trailing_comma : Error
  empty_constraints : Error
  two_pins : Text → Text → Error
  pin_conflict : Text → ConstraintOp → Text → Error
  crossed_bounds : ConstraintOp → Text → ConstraintOp → Text → Error
  provides_entry : Text → Error → Error
  requires_entry : Text → Error → Error
  out_of_fuel : Error
