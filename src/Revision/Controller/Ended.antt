-- ===== src/Revision/Controller/Ended.antt =====
-- `log` of canary-agent-revision/src/controller.rs on what the controller leaves in a store.
use canary_agent.Prelude.{ℕ, suc, ◌≤◌, Option, none, some, List, [], ◌∷◌, ◌≡◌, sym, ◌∙◌, ap, arith}
use canary_agent.Prelude.Result.{ok}
use canary_agent.Prelude.Exec.{goes}
use canary_agent.Revision.Ids.{BranchRef, BranchRef-discrete, RevisionId}
use canary_agent.Revision.Spec.{AgentSpec}
use canary_agent.Revision.Commit.{AgentRevision, CommitMessage, Formats}
use canary_agent.Revision.Merge.{SpecFormat}
use canary_agent.Revision.Store.{RevisionStore, IsRevisionStore}
use canary_agent.Revision.Controller.{
  branch_head, commit, create_branch, commit_merge, merge, log, log_from, first,
}
use canary_agent.Revision.Controller.History.{Advanced, commit-Advanced, branch_head-held}
use canary_agent.Revision.Controller.Logged.{Keeps, log_step, log_from-kept, first-option_list}
use canary_agent.Revision.Controller.Branched.{Branched, create_branch-Branched, merge-commit_merge}
use canary_agent.Revision.Controller.Merged.{commit_merge-IsMergeCommit}

module _ {W : Type 0} {store : RevisionStore W} (laws : IsRevisionStore store) where
  -- A store that has come to `w` from one without branches, where `n` revisions were put before the
  -- head of a branch by commits, merges and commits of merges, and other branches were created at the
  -- head of a branch. `unmoved` is any step that moves no branch and keeps what is held, such as a save.
  pub data IsReached (formats : Formats) : ℕ → W → Type 0 where
    start : (w : W) → ((branch : BranchRef) → laws.heads w branch ≡ none) → IsReached formats 0 w
    committed :
        (n : ℕ) (w w' : W) (branch : BranchRef) (spec : AgentSpec) (message : CommitMessage)
        (revision : AgentRevision)
        → IsReached formats n w
        → commit store formats branch spec message w ≡ (ok revision, w')
        → IsReached formats (suc n) w'
    merge_committed :
        (n : ℕ) (w w' : W) (target : BranchRef) (source : RevisionId) (spec : AgentSpec)
        (message : CommitMessage) (revision : AgentRevision)
        → IsReached formats n w
        → commit_merge store formats target source spec message w ≡ (ok revision, w')
        → IsReached formats (suc n) w'
    merged :
        (n : ℕ) (w w' : W) (format : SpecFormat) (fuel : ℕ) (source target : BranchRef)
        (message : CommitMessage) (revision : AgentRevision)
        → IsReached formats n w
        → merge store format formats fuel source target message w ≡ (ok (some revision), w')
        → IsReached formats (suc n) w'
    branched :
        (n : ℕ) (w w' : W) (source target : BranchRef) (id : RevisionId)
        → IsReached formats n w
        → create_branch store source target w ≡ (ok id, w')
        → IsReached formats n w'
    unmoved :
        (n : ℕ) (w w' : W)
        → IsReached formats n w
        → Keeps laws w w'
        → ((branch : BranchRef) → laws.heads w' branch ≡ laws.heads w branch)
        → IsReached formats n w'

  -- The log of every branch ends within `n` rounds.
  pub record Ended (n : ℕ) (w : W) : Type 0 where
    pub ended :
        (branch : BranchRef)
        → (history : List AgentRevision) × (log_from store n (laws.heads w branch) w
            ≡ (ok (some history), w))

  -- The log behind a head that a branch had before.
  log_later :
      (w w' : W) (n m : ℕ)
      → Keeps laws w w'
      → n ≤ m
      → Ended n w
      → (branch : BranchRef) (head : Option RevisionId) → laws.heads w branch ≡ head
      → (history : List AgentRevision) × (log_from store m head w' ≡ (ok (some history), w'))
  log_later w w' n m keeps le e branch head at_head =
      let (history, logged) = e.ended branch in
      (
        history,
        log_from-kept laws w w' keeps n m le head
            (ap (λ o. log_from store n o w) (sym at_head) ∙ logged),
      )

  Advanced-Ended :
      (w w' : W) (n : ℕ) (branch : BranchRef) (head : Option RevisionId) (revision : AgentRevision)
      → Advanced laws w w' branch head revision
      → first revision.parents ≡ head
      → Ended n w
      → Ended (suc n) w'
  Advanced-Ended w w' n branch head revision moved parent e = record {
    ended = λ b. elim (BranchRef-discrete b branch) [
      | yes here ↦ on_top b here
      | no apart ↦
          log_later w w' n (suc n) moved.keeps (omega arith) e b _ (sym (moved.others b apart))
    ];
  }
    where
      on_top :
          (b : BranchRef)
          → b ≡ branch
          → (history : List AgentRevision) × (log_from store (suc n) (laws.heads w' b) w'
              ≡ (ok (some history), w'))
      on_top b here =
          let (history, logged) =
            log_later w w' n n moved.keeps (omega arith) e branch (first revision.parents)
              (moved.from_head ∙ sym parent) in
          let at_head = ap (laws.heads w') here ∙ moved.to_revision in
          (
            revision ∷ history,
            ap (λ o. log_from store (suc n) o w') at_head
                ∙ log_step laws w' n revision.revision_id moved.holds logged,
          )

  Branched-Ended :
      (w w' : W) (n : ℕ) (source target : BranchRef) (id : RevisionId)
      → Branched laws w w' source target id
      → Ended n w
      → Ended n w'
  Branched-Ended w w' n source target id made e = record {
    ended = λ b. elim (BranchRef-discrete b target) [
      | yes here ↦
          log_later w w' n n made.keeps (omega arith) e source _
            (made.at_source ∙ sym (ap (laws.heads w') here ∙ made.at_target))
      | no apart ↦ log_later w w' n n made.keeps (omega arith) e b _ (sym (made.others b apart))
    ];
  }

  module _ (formats : Formats) where
    commit-Ended :
        (n : ℕ) (w w' : W) (branch : BranchRef) (spec : AgentSpec) (message : CommitMessage)
        (revision : AgentRevision)
        → Ended n w
        → commit store formats branch spec message w ≡ (ok revision, w')
        → Ended (suc n) w'
    commit-Ended n w w' branch spec message revision e run =
        let (records, advanced) = commit-Advanced laws formats branch spec message w run in
        Advanced-Ended w w' n branch _ revision advanced
          (ap first records.of_parents ∙ first-option_list (laws.heads w branch)) e

    commit_merge-Ended :
        (n : ℕ) (w w' : W) (target : BranchRef) (source : RevisionId) (spec : AgentSpec)
        (message : CommitMessage) (revision : AgentRevision)
        → Ended n w
        → commit_merge store formats target source spec message w ≡ (ok revision, w')
        → Ended (suc n) w'
    commit_merge-Ended n w w' target source spec message revision e run =
        let m = commit_merge-IsMergeCommit laws formats target source spec message w run in
        Advanced-Ended w w' n target _ revision m.advanced (ap first m.records.of_parents) e

    pub IsReached-Ended : {n : ℕ} {w : W} → IsReached formats n w → Ended n w
    unfolding log_from
    IsReached-Ended (start w empty) = record {
      ended = λ b. ([], ap (λ o. log_from store 0 o w) (empty b));
    }
    IsReached-Ended (committed n w w' branch spec message revision reached run) =
        commit-Ended n w w' branch spec message revision (IsReached-Ended reached) run
    IsReached-Ended (merge_committed n w w' target source spec message revision reached run) =
        commit_merge-Ended n w w' target source spec message revision (IsReached-Ended reached) run
    IsReached-Ended (merged n w w' format fuel source target message revision reached run) =
        let (theirs, spec, made) =
          merge-commit_merge laws format formats fuel source target message w run in
        commit_merge-Ended n w w' target theirs spec message revision (IsReached-Ended reached) made
    IsReached-Ended (branched n w w' source target id reached run) =
        Branched-Ended w w' n source target id (create_branch-Branched laws source target w run)
          (IsReached-Ended reached)
    IsReached-Ended (unmoved n w w' reached keeps still) = record {
      ended =
          λ b. log_later w w' n n keeps (omega arith) (IsReached-Ended reached) b _ (sym (still b));
    }

    -- In a lawful store that came from one without branches by commits, merges, commits of merges, new
    -- branches, and steps that move no branch and keep what is held, the log of every branch ends, within
    -- as many rounds as `n`, the number of commits and merges; and after a commit that succeeds, the log
    -- of its branch ends on one round more and is the new revision before the log of the old head, which
    -- is empty where the branch had no head.
    pub log-commit :
        (branch : BranchRef) (spec : AgentSpec) (message : CommitMessage) (n : ℕ) (w : W)
        {revision : AgentRevision} {w' : W}
        → IsReached formats n w
        → commit store formats branch spec message w ≡ (ok revision, w')
        → Ended n w
          × ((history : List AgentRevision) × (log_from store n (laws.heads w branch) w
                ≡ (ok (some history), w))
              × (log store (suc n) branch w' ≡ (ok (some (revision ∷ history)), w')))
    unfolding log
    log-commit branch spec message n w {revision} {w'} reached run =
        let e = IsReached-Ended reached in
        let (history, logged) = e.ended branch in
        let (records, moved) = commit-Advanced laws formats branch spec message w run in
        let parent = ap first records.of_parents ∙ first-option_list (laws.heads w branch) in
        let behind =
          ap (λ o. log_from store n o w') parent
          ∙ log_from-kept laws w w' moved.keeps n n (omega arith) (laws.heads w branch) logged in
        (
          e,
          (
            history,
            logged,
            goes (branch_head store branch) _ (branch_head-held laws w' branch moved.to_revision)
                (log_step laws w' n revision.revision_id moved.holds behind),
          ),
        )
