-- ===== src/Types.antt =====
-- internal/types: the data of the issue tracker and its validation.
pub mod Status
pub mod CustomStatus
pub mod IssueType
pub mod DependencyType
pub mod Issue
pub mod Filters
