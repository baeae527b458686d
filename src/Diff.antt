-- ===== src/Diff.antt =====
-- src/core/diff.rs: the comparison of two snapshots.
mod Types
mod Rows
mod Compare
mod Report
mod Runs
mod Unique
mod Visible
mod Steps
pub mod Totals
pub mod Shown
pub mod Evidence
pub mod Examples
unfoldable pub use Types.*
unfoldable pub use Rows.*
unfoldable pub use Compare.*
unfoldable pub use Report.*
