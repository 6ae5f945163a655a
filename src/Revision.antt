-- ===== src/Revision.antt =====
-- canary-agent-revision/src: the specification of an agent under revision control, with branches, differences
-- and merges.
pub mod Error
pub mod Ids
pub mod Spec
pub mod Diff
pub mod Merge
pub mod Commit
pub mod Store
pub mod Controller
