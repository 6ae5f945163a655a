-- ===== src/Revision/Controller/Unmoved.antt =====
-- The operations of canary-agent-revision/src/controller.rs that move a branch, where they fail.
use canary_agent.Prelude.{
  ℕ, Bool, true, false, Option, none, some, ◌≡◌, refl, ◌==◌, is_some, if◌then◌else◌,
}
use canary_agent.Prelude.Result.{Result, ok, err}
use canary_agent.Prelude.Exec.{Exec, ◌>>=◌, pure, raise, continue}
use canary_agent.Prelude.Atomic.{
  Same, Quiet, AllOrNothing, >>=-AllOrNothing, >>=-pure-AllOrNothing, Quiet-AllOrNothing,
  lift-Quiet, test-Quiet,
}
use canary_agent.Revision.Error.{RevisionError}
use canary_agent.Revision.Ids.{BranchRef, RevisionId}
use canary_agent.Revision.Spec.{AgentSpec}
use canary_agent.Revision.Commit.{AgentRevision, CommitMessage, Formats}
use canary_agent.Revision.Merge.{SpecFormat, is_clean}
use canary_agent.Revision.Store.{RevisionStore, IsRevisionStore}
use canary_agent.Revision.Controller.Reads.{
  head-Quiet, load_revision-Quiet, branch_head-Quiet, prepare_merge-Quiet,
}
use canary_agent.Revision.Controller.{
  within, publish, commit, validate_branch_pair, create_branch, commit_merge, merge,
}

module _ {W : Type 0} {store : RevisionStore W} (laws : IsRevisionStore store) where
  save-Quiet : (r : AgentRevision) → Quiet laws.heads (store.save_revision r)
  save-Quiet r = record { quiet = λ w. (laws.saved w r _ _ refl).2 }

  moving-AllOrNothing :
      {A : Type 0} (branch : BranchRef) (expected : Option RevisionId) (next : RevisionId) (a : A)
      (e : RevisionError)
      → AllOrNothing laws.heads (
          store.compare_and_set_branch branch expected next >>= λ moved.
          if moved then pure a else raise e)
  unfolding ◌>>=◌
  moving-AllOrNothing {A} branch expected next a e = record {
    nothing = λ w e' h. by_case w (store.compare_and_set_branch branch expected next w) e' refl h;
  }
    where
      by_case :
          (w : W) (p : Result RevisionError Bool × W) (e' : RevisionError)
          → store.compare_and_set_branch branch expected next w ≡ p
          → (continue p.0 (λ moved. if moved then pure a else raise e) p.1).0 ≡ err e'
          → Same laws.heads w (continue p.0 (λ moved. if moved then pure a else raise e) p.1).1
      by_case w (ok true, w') e' run h = cc
      by_case w (ok false, w') e' run h =
          laws.refused w branch expected next (ok false) w' run (λ p. cc)
      by_case w (err x, w') e' run h = laws.refused w branch expected next (err x) w' run (λ p. cc)

  publish-AllOrNothing :
      (branch : BranchRef) (head : Option RevisionId) (revision : AgentRevision)
      → AllOrNothing laws.heads (publish store branch head revision)
  unfolding publish
  publish-AllOrNothing branch head revision =
      >>=-AllOrNothing _ _ (save-Quiet revision)
        (λ _. moving-AllOrNothing branch head revision.revision_id revision _)

  commit-AllOrNothing :
      (formats : Formats) (branch : BranchRef) (spec : AgentSpec) (message : CommitMessage)
      → AllOrNothing laws.heads (commit store formats branch spec message)
  unfolding commit
  commit-AllOrNothing formats branch spec message =
      >>=-AllOrNothing _ _ (test-Quiet (branch.agent_id == spec.agent_id) (ok tt) _) λ _.
        >>=-AllOrNothing _ _ (head-Quiet laws branch) λ head.
          >>=-AllOrNothing _ _ (lift-Quiet _) λ revision. publish-AllOrNothing branch head revision

  commit_merge-AllOrNothing :
      (formats : Formats) (target : BranchRef) (source : RevisionId) (spec : AgentSpec)
      (message : CommitMessage)
      → AllOrNothing laws.heads (commit_merge store formats target source spec message)
  unfolding commit_merge
  commit_merge-AllOrNothing formats target source spec message =
      >>=-AllOrNothing _ _ (branch_head-Quiet laws target) λ head.
        >>=-AllOrNothing _ _ (test-Quiet (spec.agent_id == target.agent_id) (ok tt) _) λ _.
          >>=-AllOrNothing _ _ (load_revision-Quiet laws source) λ revision.
            >>=-AllOrNothing _ _ (test-Quiet (revision.agent_id == target.agent_id) (ok tt) _) λ _.
              >>=-AllOrNothing _ _ (lift-Quiet _)
                λ merged. publish-AllOrNothing target (some head) merged

  create_branch-AllOrNothing :
      (source target : BranchRef) → AllOrNothing laws.heads (create_branch store source target)
  unfolding create_branch validate_branch_pair
  create_branch-AllOrNothing source target =
      >>=-AllOrNothing _ _ (test-Quiet (source.agent_id == target.agent_id) (ok tt) _) λ _.
        >>=-AllOrNothing _ _ (branch_head-Quiet laws source) λ source_head.
          >>=-AllOrNothing _ _ (head-Quiet laws target) λ target_head.
            >>=-AllOrNothing _ _ (test-Quiet (is_some target_head) _ (ok tt))
              λ _. moving-AllOrNothing target none source_head source_head _

  within-AllOrNothing :
      {A B : Type 0} (o : Option A) (f : A → Exec RevisionError W (Option B))
      → ((a : A) → AllOrNothing laws.heads (f a))
      → AllOrNothing laws.heads (within o f)
  within-AllOrNothing none f each = Quiet-AllOrNothing _ (lift-Quiet _)
  within-AllOrNothing (some a) f each = each a

  merge-AllOrNothing :
      (format : SpecFormat) (formats : Formats) (fuel : ℕ) (source target : BranchRef)
      (message : CommitMessage)
      → AllOrNothing laws.heads (merge store format formats fuel source target message)
  unfolding merge
  merge-AllOrNothing format formats fuel source target message =
      >>=-AllOrNothing _ _ (prepare_merge-Quiet laws format fuel source target) λ result.
        within-AllOrNothing result _ λ result.
          >>=-AllOrNothing _ _ (test-Quiet (is_clean result) (ok tt) _) λ _.
            >>=-AllOrNothing _ _ (lift-Quiet _) λ spec.
              >>=-pure-AllOrNothing (commit_merge store formats target result.theirs spec message)
                some (commit_merge-AllOrNothing formats target result.theirs spec message)

  -- In a lawful store, a commit, the creation of a branch and a merge that give an
  -- error leave every branch at the head that it had.
  pub changes-AllOrNothing :
      (format : SpecFormat) (formats : Formats) (fuel : ℕ) (source target : BranchRef)
      (spec : AgentSpec) (message : CommitMessage)
      → AllOrNothing laws.heads (commit store formats target spec message)
        × AllOrNothing laws.heads (create_branch store source target)
        × AllOrNothing laws.heads (merge store format formats fuel source target message)
  changes-AllOrNothing format formats fuel source target spec message = (
    commit-AllOrNothing formats target spec message,
    create_branch-AllOrNothing source target,
    merge-AllOrNothing format formats fuel source target message,
  )
