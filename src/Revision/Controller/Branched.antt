-- ===== src/Revision/Controller/Branched.antt =====
-- What `create_branch` and `merge` of canary-agent-revision/src/controller.rs do where they succeed.
use canary_agent.Prelude.{
  ℕ, Bool, true, false, Option, none, some, ◌≡◌, ◌≢◌, sym, ◌∙◌, ap, ◌==◌, is_some, if◌then◌else◌,
}
use canary_agent.Prelude.Result.{Result, ok, ok_or, ok_inj}
use canary_agent.Prelude.Exec.{pure, raise, lift, from_bind, ◌>>=◌}
use canary_agent.Revision.Error.{RevisionError}
use canary_agent.Revision.Ids.{BranchRef, RevisionId}
use canary_agent.Revision.Spec.{AgentSpec}
use canary_agent.Revision.Commit.{AgentRevision, CommitMessage, Formats}
use canary_agent.Revision.Merge.{SpecFormat, MergeResult, is_clean}
use canary_agent.Revision.Store.{RevisionStore, IsRevisionStore}
use canary_agent.Revision.Controller.{
  within, branch_head, create_branch, validate_branch_pair, prepare_merge, commit_merge, merge,
}
use canary_agent.Revision.Controller.History.{unless_raised}
use canary_agent.Revision.Controller.Logged.{Keeps}
use canary_agent.Revision.Controller.Merged.{from_head}
use canary_agent.Revision.Controller.Reads.{prepare_merge-Quiet}

module _ {W : Type 0} {store : RevisionStore W} (laws : IsRevisionStore store) where
  -- What a branch that was created starts at.
  pub record Branched (w w' : W) (source target : BranchRef) (id : RevisionId) : Type 0 where
    pub at_source : laws.heads w source ≡ some id
    pub at_target : laws.heads w' target ≡ some id
    pub keeps : Keeps laws w w'
    pub others : (b : BranchRef) → b ≢ target → laws.heads w' b ≡ laws.heads w b

  pub create_branch-Branched :
      (source target : BranchRef) (w : W) {id : RevisionId} {w' : W}
      → create_branch store source target w ≡ (ok id, w')
      → Branched w w' source target id
  unfolding create_branch validate_branch_pair
  create_branch-Branched source target w {id} {w'} h =
      from_bind (if source.agent_id == target.agent_id then pure tt else raise _) _ w h
        λ _ v1 checked next. from_bind (branch_head store source) _ v1 next λ head v2 read next.
          from_bind (store.branch_head target) _ v2 next λ taken v3 looked next.
            from_bind (if is_some taken then raise _ else pure tt) _ v3 next λ _ v4 free next.
              from_bind (store.compare_and_set_branch target none head) _ v4 next
                λ created v5 run last. from_head laws v1 source read λ at_source same2.
                  let same1 : v1 ≡ w =
                    unless_raised laws (source.agent_id == target.agent_id) _ w checked in
                  let same3 : v2 ≡ v3 = ap (λ p. p.1) (sym (laws.reads v2 target) ∙ looked) in
                  let same4 : v4 ≡ v3 = free_same taken _ free in
                  let all : v4 ≡ w = same4 ∙ sym same3 ∙ sym same2 ∙ same1 in
                  by_case created head v5 _ (ap (λ x. laws.heads x source) (sym same1) ∙ at_source)
                    (ap (store.compare_and_set_branch target none head) (sym all) ∙ run) last
    where
      free_same :
          {v3 v4 : W} (taken : Option RevisionId) (e : RevisionError)
          → (if is_some taken then raise e else pure tt) v3 ≡ (ok tt, v4)
          → v4 ≡ v3
      free_same none e free = sym (ap (λ p. p.1) free)
      free_same (some _) e free = cc

      by_case :
          (created : Bool) (head : RevisionId) (v5 : W) (e : RevisionError)
          → laws.heads w source ≡ some head
          → store.compare_and_set_branch target none head w ≡ (ok created, v5)
          → (if created then pure head else raise e) v5 ≡ (ok id, w')
          → Branched w w' source target id
      by_case false head v5 e at_source run last = cc
      by_case true head v5 e at_source run last =
          let is : head ≡ id = ok_inj (ap (λ p. p.0) last) in
          let here : v5 ≡ w' = ap (λ p. p.1) last in
          let (was, now, others, same) =
            laws.moved w target none head w' (run ∙ ap (λ x. (ok true, x)) here) in
          record {
            at_source = at_source ∙ ap some is;
            at_target = now ∙ ap some is;
            keeps = λ i old held. same i ∙ held;
            others = others;
          }

  -- A merge that gives a revision ends with the commit of a merge.
  pub merge-commit_merge :
      (format : SpecFormat) (formats : Formats) (fuel : ℕ) (source target : BranchRef)
      (message : CommitMessage) (w : W) {revision : AgentRevision} {w' : W}
      → merge store format formats fuel source target message w ≡ (ok (some revision), w')
      → (theirs : RevisionId) × (spec : AgentSpec) × (commit_merge store formats target theirs spec
            message w
          ≡ (ok revision, w'))
  unfolding merge
  merge-commit_merge format formats fuel source target message w {revision} {w'} h =
      from_bind (prepare_merge store format fuel source target) _ w h λ result v prepared next.
        let quiet = prepare_merge-Quiet laws {view = λ w (_ : Unit). w} format fuel source target in
        by_case result v _ (sym (ap (λ p. p.1) prepared) ∙ quiet.quiet w tt) next
    where
      done :
          (made : AgentRevision) (v3 : W)
          → pure {E = RevisionError} (some made) v3 ≡ (ok (some revision), w')
          → ◌≡◌ {A = Result RevisionError AgentRevision × W} (ok made, v3) (ok revision, w')
      done made v3 last = cc

      by_case :
          (result : Option MergeResult) (v : W) (e : MergeResult → RevisionError)
          → v ≡ w
          → within result
              (λ result. (if is_clean result then pure tt else raise (e result)) >>= λ _.
                lift (ok_or result.spec (RevisionError.invalid_spec "clean merge spec")) >>= λ spec.
                commit_merge store formats target result.theirs spec message >>= λ revision.
                pure (some revision))
              v
            ≡ (ok (some revision), w')
          → (theirs : RevisionId) × (spec : AgentSpec) × (commit_merge store formats target theirs
                spec message w
              ≡ (ok revision, w'))
      by_case none v e same next = cc
      by_case (some result) v e same next =
          from_bind (if is_clean result then pure tt else raise (e result)) _ v next
            λ _ v1 checked next.
              from_bind (lift (ok_or result.spec (RevisionError.invalid_spec "clean merge spec"))) _
                v1 next
                λ spec v2 lifted next.
                  from_bind (commit_merge store formats target result.theirs spec message) _ v2 next
                    λ made v3 run last.
                      let at_w : v2 ≡ w =
                        sym (ap (λ p. p.1) lifted)
                        ∙ unless_raised laws (is_clean result) _ v checked
                        ∙ same in
                      (
                        result.theirs,
                        spec,
                        ap (commit_merge store formats target result.theirs spec message) (sym at_w)
                            ∙ run
                            ∙ done made v3 last,
                      )
