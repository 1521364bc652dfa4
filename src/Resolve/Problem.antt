-- ===== src/Resolve/Problem.antt =====
-- What resolve/resolve.go reports of a set, one constructor for each message, with what the message
-- shows.
use sandbox_kit_spec.Base.{ℕ, Text, List}
use sandbox_kit_spec.Version.Error.{Error}
use sandbox_kit_spec.Resolve.Kit.{Provider}

pub data Problem : Type 0 where
  many_workloads : Text → Text → Problem
  no_workload : Problem
  bad_entry : Text → Error → Problem
  many_owners : Text → List Provider → Problem
  groups_left : Text → ℕ → Problem
  many_credentials : Text → Text → List Text → Problem
  nothing_provides : Text → Text → Text → Problem
  only_offers : Text → Text → List Provider → Problem
  integrates_offers : Text → Text → List Provider → Problem
  conflict : Text → Text → Text → Problem
