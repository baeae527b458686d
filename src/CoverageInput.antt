-- ===== src/CoverageInput.antt =====
-- src/core/coverage_input.rs: from the registry and the indexes to the sources of the coverage
-- engine.
mod Notes
mod Types
mod Readable
mod Mapped
mod Built
pub use Types.*
unfoldable pub use Notes.*
unfoldable pub use Readable.*
unfoldable pub use Mapped.*
unfoldable pub use Built.*
pub mod Trust
pub mod Fits
pub mod Feeds
pub mod Examples
