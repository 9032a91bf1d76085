-- ===== src/Hos.antt =====
-- api/app/services/hos_version_control.py: commits, branches, differences, merges and conflicts.
pub mod Lca
pub mod Diff
pub mod Merge
pub mod Commits
pub mod Writing
pub mod Merges
pub mod Merging
pub mod Comparing
