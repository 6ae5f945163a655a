-- ===== src/Revision/Store.antt =====
-- `RevisionStore` of canary-agent-revision/src/store.rs: a store's methods on a world that it shares.
use canary_agent.Prelude.{Option, some, Bool, true, ◌≡◌, ◌≢◌}
use canary_agent.Prelude.Result.{Result, ok}
use canary_agent.Prelude.Exec.{Exec}
use canary_agent.Revision.Error.{RevisionError}
use canary_agent.Revision.Ids.{BranchRef, RevisionId}
use canary_agent.Revision.Commit.{AgentRevision}

pub record RevisionStore (W : Type 0) : Type 0 where
  pub load_revision : RevisionId → Exec RevisionError W (Option AgentRevision)
  pub save_revision : AgentRevision → Exec RevisionError W Unit
  pub branch_head : BranchRef → Exec RevisionError W (Option RevisionId)
  pub compare_and_set_branch :
      BranchRef → Option RevisionId → RevisionId → Exec RevisionError W Bool

-- A lawful store: its reads neither fail nor change it, which the trait itself leaves open; a save may fail, and revisions are
-- immutable; a compare and swap may fail, and a branch moves only from the head that was expected.
pub record IsRevisionStore {W : Type 0} (store : RevisionStore W) : Type 0 where
  pub objects : W → RevisionId → Option AgentRevision
  pub heads : W → BranchRef → Option RevisionId
  pub loads : (w : W) (id : RevisionId) → store.load_revision id w ≡ (ok (objects w id), w)
  pub reads : (w : W) (branch : BranchRef) → store.branch_head branch w ≡ (ok (heads w branch), w)
  pub saved :
      (w : W) (revision : AgentRevision) (result : Result RevisionError Unit) (w' : W)
      → store.save_revision revision w ≡ (result, w')
      → (result ≡ ok tt → objects w' revision.revision_id ≡ some revision)
        × ((id : RevisionId) (old : AgentRevision)
            → objects w id ≡ some old
            → objects w' id ≡ some old)
        × ((branch : BranchRef) → heads w' branch ≡ heads w branch)
  pub moved :
      (w : W) (branch : BranchRef) (expected : Option RevisionId) (next : RevisionId) (w' : W)
      → store.compare_and_set_branch branch expected next w ≡ (ok true, w')
      → (heads w branch ≡ expected)
        × (heads w' branch ≡ some next)
        × ((other : BranchRef) → other ≢ branch → heads w' other ≡ heads w other)
        × ((id : RevisionId) → objects w' id ≡ objects w id)
  pub refused :
      (w : W) (branch : BranchRef) (expected : Option RevisionId) (next : RevisionId)
      (result : Result RevisionError Bool) (w' : W)
      → store.compare_and_set_branch branch expected next w ≡ (result, w')
      → result ≢ ok true
      → (other : BranchRef) → heads w' other ≡ heads w other
