-- ===== src/Lib.antt =====
-- The core of bd, an issue tracker over a Dolt database, in cubical type theory.
--
-- The program keeps issues and their dependencies in the tables of a database. Each command of
-- cmd/bd runs operations of internal/storage/issueops inside one transaction. An operation here is a
-- function of the tables that it reads and of the time, and returns the tables that it leaves, or an
-- error. The parts, and the files that model them:
--
-- Types/Issue, Types/Status, Types/IssueType, Types/DependencyType: internal/types/types.go, the issue
--   with its validation (ValidateWithCustom, ValidateForImport, SetDefaults), the statuses and types.
-- Types/CustomStatus: internal/types/types.go, ParseCustomStatusConfig and the lookups on its result.
-- Storage/Tables: the tables, and internal/storage/issueops/wisp_routing.go and get_issue.go: an issue
--   lives among the issues or among the wisps, and its edges and events go to the matching tables.
-- Storage/Dependencies: internal/storage/issueops/dependencies.go, AddDependencyInTx with its search
--   for cycles, and RemoveDependencyInTx.
-- Storage/Lifecycle: internal/storage/issueops/update.go, with claim.go in Storage/Lifecycle/Claiming and
--   close.go in Storage/Lifecycle/Closing.
-- Types/Filters: internal/types/types.go, IssueFilter and WorkFilter.
-- Storage/Blocked: internal/storage/issueops/blocked.go, ComputeBlockedIDsInTx. Storage/Blocked/Checks:
--   IsBlockedInTx and GetNewlyUnblockedByCloseInTx of dependency_queries.go.
-- Storage/MergeSlot: internal/storage/merge_slot.go, a lock that is kept in an issue and that uses the
--   update of Storage/Lifecycle.
-- Storage/Store, Storage/Config: the tables of labels, comments, counters and configuration, and what
--   internal/storage/issueops/config_metadata.go, config_helpers.go and helpers.go read of the latter.
-- Storage/Creation: internal/storage/issueops/create.go, CreateIssueInTx and CreateIssuesInTx, with the
--   insertion of helpers.go. Storage/Numbering: child_id.go, GetNextChildIDTx, and the counters of
--   helpers.go that the creation may take identifiers from.
-- Storage/Deletion: internal/storage/issueops/delete.go, DeleteIssueInTx and DeleteIssuesInTx.
-- Storage/Promotion: internal/storage/issueops/promote.go, over the creation and the deletion.
-- Storage/Epics: internal/storage/issueops/epic_closure.go, GetEpicsEligibleForClosureInTx.
-- Storage/Cycles: internal/storage/issueops/cycles.go, DetectCyclesInTx.
-- Storage/Listings: the queries of internal/storage/issueops/dependencies.go that list the dependencies of
--   an issue, and the blocking information, records and counts of dependency_queries.go. Storage/Tree:
--   dependency_tree.go, GetDependencyTreeInTx.
-- Storage/Ready: internal/storage/issueops/ready_work.go, GetReadyWorkInTx, over Storage/Blocked.
-- Storage/BlockedIssues: GetBlockedIssuesInTx of internal/storage/issueops/blocked.go, the listing beside it.
-- Storage/Filters, Storage/Search: filters.go and search.go of internal/storage/issueops,
--   SearchIssuesInTx with the clauses of its filter as tests of a row.
-- Storage/Labels: internal/storage/issueops/labels.go.
-- Storage/Metadata: internal/storage/metadata.go, ValidateMetadataSchema, with ParseFieldSchema and
--   ValidateMetadataIfConfigured of internal/storage/issueops/helpers.go.
-- Ids: internal/idgen/hash.go, the search for a free identifier of GenerateIssueIDInTable in
--   internal/storage/issueops/helpers.go, ExtractIssuePrefix of internal/utils/issue_id.go, and the
--   hierarchical identifiers of internal/types/id_generator.go.
-- Validation: internal/validation/issue.go, the validators that run before a change.
-- Validation/Bead: internal/validation/bead.go. Routing: internal/routing/routing.go.
-- Validation/Template: internal/validation/template.go, with RequiredSections of internal/types/types.go.
-- Prelude: texts, lists and tests that these share. Tests: the theorems at concrete inputs.
--
-- Conventions. A Go string is the list of its bytes, and the case and space functions are those on
-- ASCII. Instants are numbers. A nil pointer and a missing row are `none`. A table is the list of its
-- rows, and a query that finds no row is told apart from other database errors, which abort the
-- transaction or are passed over, and are left out. The order of a Go map is arbitrary; where a map only serves as a set,
-- a list without repetition stands for it. Functions of other packages are parameters: json.Valid,
-- json.Marshal, json.Unmarshal, url.Parse, the functions of the database on JSON, the commands of Git, fmt.Sscanf, strconv.Atoi and sha256.Sum256; what is relied on of them is a named hypothesis.
--
-- Bounds and fuel. The search for cycles goes 1000 levels deep, as the recursive query of the program
-- does, and refuses what is deeper. The batches of a query run on the length of the list as fuel,
-- which is enough since no batch is empty. The base-36 loop runs on the number itself, which is enough
-- since the number shrinks by each division. The search for dependents runs in as many rounds as there
-- are ids and rows of dependencies. The depth-first search that lists cycles goes as deep as there are
-- ends of edges, which is enough since it never enters a node twice. The
-- dependency tree goes as deep as the caller asks. The identifiers are searched over the lengths up to 8 and
-- ten nonces each. Numbers that the program keeps in machine integers (counts, priorities, times) stay
-- far from their bounds and are not wrapped.
--
-- Not modelled: the content hash and the adaptive length of identifiers, which is computed in floating
-- point; statistics and other queries whose content is SQL; the Dolt engine and its versions, and of its
-- schema all but the columns, keys and foreign keys that the operations rely on; configuration files,
-- Git, hooks, locks and the command line.
mod Prelude
pub mod Types
pub mod Validation
pub mod Routing
pub mod Ids
pub mod Storage
mod Tests
