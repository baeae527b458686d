-- ===== src/Coverage.antt =====
-- src/core/coverage.rs: which byte-identical content lives in which sources.
mod Types
mod Rows
mod Scan
mod Grouping
pub mod Partition
mod Latest
mod Described
mod Copies
mod Unknown
mod Scanned
mod Distinct
pub mod Presences
pub mod Total
mod Examples
pub use Types.*
unfoldable pub use Rows.*
unfoldable pub use Scan.*
unfoldable pub use Grouping.*
