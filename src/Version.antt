-- ===== src/Version.antt =====
-- spec/version.go: capability names, versions and their order, constraints, provides and requires.
pub mod Order
pub mod Error
pub mod Name
pub mod Constraint
pub mod Require
pub mod Package
pub mod Tag
mod Tests
