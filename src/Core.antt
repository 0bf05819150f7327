-- ===== src/Core.antt =====
-- The business logic of the web side: internal/aclweb/core.
pub mod Alloc
pub mod Diff
pub mod SideBySide
pub mod Artifacts
pub mod Verify
pub mod Request
pub mod Binding
pub mod Rows
pub mod Spawn
pub mod PlanFile
pub mod Service
pub mod Submit
pub mod Deletion
pub mod Settle
pub mod Dispatch
pub mod Reconcile
pub mod Life
pub mod History
