-- ===== src/Revision/Controller/Merged.antt =====
-- `commit_merge` of canary-agent-revision/src/controller.rs.
use mathlib.Core.Path.{subst}
use canary_agent.Prelude.{Option, none, some, [], ◌∷◌, ◌≡◌, sym, ◌∙◌, ap, ◌==◌, if◌then◌else◌}
use canary_agent.Prelude.Result.{ok, ok_or, ok_inj}
use canary_agent.Prelude.Exec.{pure, raise, lift, from_bind}
use canary_agent.Revision.Error.{RevisionError}
use canary_agent.Revision.Ids.{BranchRef, RevisionId}
use canary_agent.Revision.Spec.{AgentSpec}
use canary_agent.Revision.Commit.{AgentRevision, CommitMessage, Formats, commit_revision}
use canary_agent.Revision.Store.{RevisionStore, IsRevisionStore}
use canary_agent.Revision.Controller.{branch_head, load_revision, commit_merge, no_metadata}
use canary_agent.Revision.Controller.History.{
  Records, commit_revision-Records, Advanced, publish-Advanced, unless_raised, from_load,
}

module _ {W : Type 0} {store : RevisionStore W} (laws : IsRevisionStore store) where
  -- What a merge that was committed recorded, over the head that the target had then.
  pub record IsMergeCommit (w w' : W) (target : BranchRef) (source : RevisionId) (spec : AgentSpec)
      (message : CommitMessage) (revision : AgentRevision) : Type 0 where
    pub head : RevisionId
    pub merged : AgentRevision
    pub holds_source : laws.objects w source ≡ some merged
    pub records : Records spec (head ∷ source ∷ []) message revision
    pub advanced : Advanced laws w w' target (some head) revision

  pub from_head {ℓ} :
      {P : Type ℓ} (w : W) (branch : BranchRef) {id : RevisionId} {u : W}
      → branch_head store branch w ≡ (ok id, u)
      → (laws.heads w branch ≡ some id → w ≡ u → P)
      → P
  unfolding branch_head
  from_head {P} w branch {id} {u} h k = from_bind (store.branch_head branch) _ w h λ o v read last.
      let here = sym (laws.reads w branch) ∙ read in
      by_case _ o (ok_inj (ap (λ p. p.0) here)) (ap (λ p. p.1) here) last
    where
      by_case :
          {v : W} (e : RevisionError) (o : Option RevisionId)
          → laws.heads w branch ≡ o
          → w ≡ v
          → lift {E = RevisionError} (ok_or o e) v ≡ (ok id, u)
          → P
      by_case e none held same last = cc
      by_case e (some r) held same last =
          k (held ∙ ap some (ok_inj (ap (λ p. p.0) last))) (same ∙ ap (λ p. p.1) last)

  -- In a lawful store, a commit of a merge that succeeds makes a revision of the given specification, whatever
  -- that is, whose parents are the head that the target has when the commit begins and the source, which is
  -- held, and moves the target, and no other branch, from that head to it.
  pub commit_merge-IsMergeCommit :
      (formats : Formats) (target : BranchRef) (source : RevisionId) (spec : AgentSpec)
      (message : CommitMessage) (w : W) {revision : AgentRevision} {w' : W}
      → commit_merge store formats target source spec message w ≡ (ok revision, w')
      → IsMergeCommit w w' target source spec message revision
  unfolding commit_merge
  commit_merge-IsMergeCommit formats target source spec message w {revision} {w'} h =
      from_bind (branch_head store target) _ w h λ head v1 read next.
        from_bind (if spec.agent_id == target.agent_id then pure tt else raise _) _ v1 next
          λ _ v2 checked next.
            from_bind (load_revision store source) _ v2 next λ merged v3 loaded next.
              from_bind (if merged.agent_id == target.agent_id then pure tt else raise _) _ v3 next
                λ _ v4 again next.
                  from_bind
                    (lift (commit_revision formats spec (head ∷ source ∷ []) message no_metadata)) _
                    v4 next
                    λ made v5 lifted last. from_head w target read λ at_head same1.
                      from_load laws v2 source loaded λ held same3.
                        let same2 : v2 ≡ w =
                          unless_raised laws (spec.agent_id == target.agent_id) _ v1 checked
                          ∙ sym same1 in
                        let same4 =
                          unless_raised laws (merged.agent_id == target.agent_id) _ v3 again in
                        let same5 : v5 ≡ w =
                          sym (ap (λ p. p.1) lifted) ∙ same4 ∙ sym same3 ∙ same2 in
                        let (is_made, advanced) =
                          publish-Advanced laws target (some head) made v5 last in
                        let records =
                          commit_revision-Records formats spec (head ∷ source ∷ []) message
                            no_metadata (ap (λ p. p.0) lifted) in
                        record {
                          head = head;
                          merged = merged;
                          holds_source = ap (λ x. laws.objects x source) (sym same2) ∙ held;
                          records =
                              subst (Records spec (head ∷ source ∷ []) message) (sym is_made)
                                records;
                          advanced = subst (Advanced laws w w' target (some head)) (sym is_made) (
                              subst (λ x. Advanced laws x w' target (some head) made) same5
                                advanced);
                        }
