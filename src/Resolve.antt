-- ===== src/Resolve.antt =====
-- resolve/resolve.go: whether a set of kits is coherent, and the order in which it composes.
pub mod Kit
pub mod Reference
pub mod Tagged
pub mod Problem
pub mod Provides
pub mod Owners
pub mod Check
pub mod Order
pub mod Met
pub mod Single
pub mod Unshared
pub mod Run
pub mod Coherent
pub mod Edges
pub mod Precede
pub mod Sound
pub mod Layers
pub mod Tests
