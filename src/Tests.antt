-- ===== src/Tests.antt =====
-- The theorems at concrete inputs.
mod Samples
mod Dependencies
mod Lifecycle
mod Blocked
mod Ids
mod MergeSlot
mod Types
mod Deletion
mod Creation
mod Epics
mod Cycles
mod Metadata
mod Labels
mod Template
mod Tree
mod Routing
mod Ready
mod BlockedIssues
