-- ===== src/CoverageReport.antt =====
-- src/core/coverage_report.rs: the coverage report: which sources it is about, what it shows of
-- them, and the whole run.
mod Scope
mod Document
mod Words
mod Filter
mod Report
mod Run
unfoldable pub use Scope.*
unfoldable pub use Document.*
unfoldable pub use Words.*
unfoldable pub use Filter.*
unfoldable pub use Report.*
unfoldable pub use Run.*
pub mod Collected
pub mod Narrowed
pub mod Trusted
pub mod Resolved
mod Examples
mod ReportExamples
mod RunExamples
