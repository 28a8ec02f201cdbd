-- ===== src/Ids.antt =====
-- The identifiers of issues: internal/idgen and internal/utils/issue_id.go, and the search for a free
-- identifier in internal/storage/issueops/helpers.go.
pub mod Hash
pub mod Encoding
pub mod Prefix
pub mod Free
pub mod Hierarchy
