-- ===== src/Revision/Controller/History.antt =====
-- What `commit` of canary-agent-revision/src/controller.rs does to a branch.
use mathlib.Core.Path.{subst}
use canary_agent.Prelude.{
  Bool, true, false, Option, none, some, List, ◌≡◌, ◌≢◌, refl, sym, ◌∙◌, ap, ◌==◌, if◌then◌else◌,
}
use canary_agent.Prelude.Result.{ok, ok_or, >>=-eq-ok, ok_inj}
use canary_agent.Prelude.Exec.{◌>>=◌, pure, raise, lift, from_bind}
use canary_agent.Revision.Error.{RevisionError, serialized}
use canary_agent.Revision.Ids.{BranchRef, RevisionId}
use canary_agent.Revision.Spec.{AgentSpec, validate, digest}
use canary_agent.Revision.Commit.{
  AgentRevision, CommitMessage, RevisionIdentity, RevisionMetadata, Formats, identified,
  validate_parents, commit_revision,
}
use canary_agent.Revision.Store.{RevisionStore, IsRevisionStore}
use canary_agent.Revision.Controller.{
  branch_head, load_revision, publish, commit, option_list, no_metadata,
}

-- A revision of a specification with its parents and its message.
pub record Records (spec : AgentSpec) (parents : List RevisionId) (message : CommitMessage)
    (revision : AgentRevision) : Type 0 where
  pub of_spec : revision.spec ≡ spec
  pub of_agent : revision.agent_id ≡ spec.agent_id
  pub of_parents : revision.parents ≡ parents
  pub of_message : revision.message ≡ message

identified-Records :
    (formats : Formats) (spec : AgentSpec) (identity : RevisionIdentity) {revision : AgentRevision}
    → identified formats spec identity ≡ ok revision
    → Records spec identity.parents identity.message revision
unfolding identified
identified-Records formats spec identity h =
    let (_, _, made) = >>=-eq-ok (serialized (formats.identity_to_vec identity)) _ h in
    let e = ok_inj made in
    record {
      of_spec = sym (ap (λ r. r.spec) e);
      of_agent = sym (ap (λ r. r.agent_id) e);
      of_parents = sym (ap (λ r. r.parents) e);
      of_message = sym (ap (λ r. r.message) e);
    }

pub commit_revision-Records :
    (formats : Formats) (spec : AgentSpec) (parents : List RevisionId) (message : CommitMessage)
    (metadata : RevisionMetadata) {revision : AgentRevision}
    → commit_revision formats spec parents message metadata ≡ ok revision
    → Records spec parents message revision
unfolding commit_revision
commit_revision-Records formats spec parents message metadata h =
    let (_, _, h1) = >>=-eq-ok (validate spec) _ h in
    let (_, _, h2) = >>=-eq-ok (validate_parents parents) _ h1 in
    let (_, _, h3) = >>=-eq-ok (digest formats.sha256 formats.spec_to_vec spec) _ h2 in
    identified-Records formats spec _ h3

module _ {W : Type 0} {store : RevisionStore W} (laws : IsRevisionStore store) where
  -- From `w` to `w'` the branch moved from its head to a revision that is now held, and nothing else moved.
  pub record Advanced (w w' : W) (branch : BranchRef) (head : Option RevisionId)
      (revision : AgentRevision) : Type 0 where
    pub from_head : laws.heads w branch ≡ head
    pub to_revision : laws.heads w' branch ≡ some revision.revision_id
    pub holds : laws.objects w' revision.revision_id ≡ some revision
    pub keeps :
        (id : RevisionId) (old : AgentRevision)
        → laws.objects w id ≡ some old
        → laws.objects w' id ≡ some old
    pub others : (other : BranchRef) → other ≢ branch → laws.heads w' other ≡ laws.heads w other

  pub publish-Advanced :
      (branch : BranchRef) (head : Option RevisionId) (revision : AgentRevision) (w : W)
      {result : AgentRevision} {w' : W}
      → publish store branch head revision w ≡ (ok result, w')
      → (result ≡ revision) × Advanced w w' branch head revision
  unfolding publish
  publish-Advanced branch head revision w {result} {w'} h =
      from_bind (store.save_revision revision) _ w h λ _ v saved next.
        from_bind (store.compare_and_set_branch branch head revision.revision_id) _ v next
          λ moved u run last. by_case moved _ v u saved run last
    where
      by_case :
          (moved : Bool) (e : RevisionError) (v u : W)
          → store.save_revision revision w ≡ (ok tt, v)
          → store.compare_and_set_branch branch head revision.revision_id v ≡ (ok moved, u)
          → (if moved then pure revision else raise e) u ≡ (ok result, w')
          → (result ≡ revision) × Advanced w w' branch head revision
      by_case true e v u saved run last =
          let (fresh, kept, still) = laws.saved w revision (ok tt) v saved in
          let (was, now, others, same) = laws.moved v branch head revision.revision_id u run in
          let here : u ≡ w' = ap (λ p. p.1) last in
          let result_is : revision ≡ result = ok_inj (ap (λ p. p.0) last) in
          (
            sym result_is,
            subst (λ x. Advanced w x branch head revision) here
                (record {
                  from_head = sym (still branch) ∙ was;
                  to_revision = now;
                  holds = same revision.revision_id ∙ fresh refl;
                  keeps = λ id old e. same id ∙ kept id old e;
                  others = λ other apart. others other apart ∙ still other;
                }),
          )
      by_case false e v u saved run last = cc

  pub unless_raised :
      (b : Bool) (e : RevisionError) (w : W) {x : Unit} {v : W}
      → (if b then pure tt else raise e) w ≡ (ok x, v)
      → v ≡ w
  unless_raised true e w h = sym (ap (λ p. p.1) h)
  unless_raised false e w h = cc

  -- In a lawful store, a commit that succeeds makes a revision of the specification, whose parent is the head that the branch had,
  -- and moves the branch to it: the revision is held, those held before stay, and no other branch moves.
  pub commit-Advanced :
      (formats : Formats) (branch : BranchRef) (spec : AgentSpec) (message : CommitMessage) (w : W)
      {revision : AgentRevision} {w' : W}
      → commit store formats branch spec message w ≡ (ok revision, w')
      → Records spec (option_list (laws.heads w branch)) message revision
        × Advanced w w' branch (laws.heads w branch) revision
  unfolding commit
  commit-Advanced formats branch spec message w {revision} {w'} h =
      from_bind (if branch.agent_id == spec.agent_id then pure tt else raise _) _ w h
        λ _ v checked next. from_bind (store.branch_head branch) _ v next λ head u read next.
          from_bind (lift (commit_revision formats spec (option_list head) message no_metadata)) _ u
            next
            λ made t lifted last.
              let at_w : v ≡ w = unless_raised (branch.agent_id == spec.agent_id) _ w checked in
              let heads = sym (laws.reads v branch) ∙ read in
              let at_t : t ≡ w = sym (ap (λ p. p.1) heads ∙ ap (λ p. p.1) lifted) ∙ at_w in
              let at_head : head ≡ laws.heads w branch =
                sym (ok_inj (ap (λ p. p.0) heads)) ∙ ap (λ x. laws.heads x branch) at_w in
              let (is_made, advanced) = publish-Advanced branch head made t last in
              let records =
                commit_revision-Records formats spec (option_list head) message no_metadata
                  (ap (λ p. p.0) lifted) in
              (
                subst (λ o. Records spec (option_list o) message revision) at_head
                    (subst (Records spec (option_list head) message) (sym is_made) records),
                subst (λ o. Advanced w w' branch o revision) at_head
                    (subst (Advanced w w' branch head) (sym is_made)
                      (subst (λ x. Advanced x w' branch head made) at_t advanced)),
              )

  pub load_revision-held :
      (w : W) (id : RevisionId) {revision : AgentRevision}
      → laws.objects w id ≡ some revision
      → load_revision store id w ≡ (ok revision, w)
  unfolding load_revision ◌>>=◌
  load_revision-held w id h = rw (laws.loads w id, h) refl

  pub branch_head-held :
      (w : W) (branch : BranchRef) {id : RevisionId}
      → laws.heads w branch ≡ some id
      → branch_head store branch w ≡ (ok id, w)
  unfolding branch_head ◌>>=◌
  branch_head-held w branch h = rw (laws.reads w branch, h) refl

  pub from_load {ℓ} :
      {P : Type ℓ} (w : W) (id : RevisionId) {revision : AgentRevision} {u : W}
      → load_revision store id w ≡ (ok revision, u)
      → (laws.objects w id ≡ some revision → w ≡ u → P)
      → P
  unfolding load_revision
  from_load {P} w id {revision} {u} h k = from_bind (store.load_revision id) _ w h λ o v read last.
      let here = sym (laws.loads w id) ∙ read in
      by_case _ o (ok_inj (ap (λ p. p.0) here)) (ap (λ p. p.1) here) last
    where
      by_case :
          {v : W} (e : RevisionError) (o : Option AgentRevision)
          → laws.objects w id ≡ o
          → w ≡ v
          → lift {E = RevisionError} (ok_or o e) v ≡ (ok revision, u)
          → P
      by_case e none held same last = cc
      by_case e (some r) held same last =
          k (held ∙ ap some (ok_inj (ap (λ p. p.0) last))) (same ∙ ap (λ p. p.1) last)
