-- ===== src/Dedup.antt =====
-- src/core/dedup.rs: which member of a duplicate group is kept, and what may be reclaimed.
mod Types
mod Markers
mod Keep
mod Assemble
mod Order
mod Near
mod UnionFind
mod Gather
mod Report
mod Run
unfoldable pub use Types.*
unfoldable pub use Markers.*
unfoldable pub use Keep.*
unfoldable pub use Assemble.*
unfoldable pub use Order.*
unfoldable pub use Near.*
unfoldable pub use UnionFind.*
unfoldable pub use Gather.*
unfoldable pub use Report.*
unfoldable pub use Run.*
mod Best
pub mod Keeper
pub mod Reclaim
mod Searched
pub mod Recall
pub mod Sound
mod Roots
mod Forest
mod Clusters
mod Parted
pub mod Linked
pub mod Connected
mod Examples
mod NearExamples
pub mod Gathered
pub mod Safe
pub mod Totals
pub mod Cut
pub mod Returns
mod RunExamples
