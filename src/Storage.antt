-- ===== src/Storage.antt =====
-- internal/storage/issueops: the operations on the issue database.
pub mod Tables
pub mod Dependencies
pub mod Lifecycle
pub mod Blocked
pub mod MergeSlot
pub mod Store
pub mod Config
pub mod Numbering
pub mod Creation
pub mod Promotion
pub mod Epics
pub mod Labels
pub mod Filters
pub mod Search
pub mod Ready
pub mod BlockedIssues
pub mod Tree
pub mod Listings
pub mod Metadata
pub mod Cycles
pub mod Deletion
