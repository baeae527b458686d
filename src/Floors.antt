-- ===== src/Floors.antt =====
-- src/core/floors.rs: every content group against a minimum number of copies.
mod Types
mod Evaluate
pub mod Verdicts
pub mod Totals
pub mod Counts
mod Examples
unfoldable pub use Types.*
unfoldable pub use Evaluate.*
