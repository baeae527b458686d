-- ===== src/Plan.antt =====
-- src/core/plan.rs: the action plan, its canonical form and the checks before it is carried out.
mod Types
mod Hex
mod Suffix
mod Ids
mod Roots
mod Conflicts
mod Canonical
mod Invariants
mod Verify
mod Load
pub mod Codec
pub mod Joined
pub mod Undo
pub mod Framing
pub mod Identified
pub mod Targets
pub mod Legal
pub mod AnyOrder
pub mod Derived
pub mod Determined
pub mod Kept
pub mod Referenced
pub mod Fresh
pub mod Stored
mod Examples
mod PathExamples
unfoldable pub use Types.*
unfoldable pub use Hex.*
unfoldable pub use Suffix.*
unfoldable pub use Ids.*
unfoldable pub use Roots.*
unfoldable pub use Conflicts.*
unfoldable pub use Canonical.*
unfoldable pub use Invariants.*
unfoldable pub use Verify.*
unfoldable pub use Load.*
