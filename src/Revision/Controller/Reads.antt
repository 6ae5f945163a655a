-- ===== src/Revision/Controller/Reads.antt =====
-- The methods of canary-agent-revision/src/controller.rs that only read keep every view of a lawful store.
use canary_agent.Prelude.{ℕ, zero, suc, Option, none, some, List, [], ◌∷◌, ◌++◌, ap, ◌==◌}
use canary_agent.Prelude.Result.{ok}
use canary_agent.Prelude.Exec.{Exec}
use canary_agent.Prelude.Atomic.{Quiet, >>=-Quiet, lift-Quiet, test-Quiet}
use canary_agent.Prelude.TreeMap.{TreeMap, lookup, insert}
use canary_agent.Revision.Error.{RevisionError}
use canary_agent.Revision.Ids.{BranchRef, RevisionId}
use canary_agent.Revision.Merge.{SpecFormat, MergeResult}
use canary_agent.Revision.Store.{RevisionStore, IsRevisionStore}
use canary_agent.Revision.Controller.{
  within, branch_head, load_revision, validate_branch_pair, collect_from, collect_ancestors,
  find_merge_base, prepare_merge, unless_seen, parents_at, further,
}

module _ {W K V : Type 0} {store : RevisionStore W} (laws : IsRevisionStore store)
    {view : W → K → V} where
  pub load-Quiet : (id : RevisionId) → Quiet view (store.load_revision id)
  load-Quiet id = record { quiet = λ w k. ap (λ p. view p.1 k) (laws.loads w id) }

  pub head-Quiet : (b : BranchRef) → Quiet view (store.branch_head b)
  head-Quiet b = record { quiet = λ w k. ap (λ p. view p.1 k) (laws.reads w b) }

  pub load_revision-Quiet : (id : RevisionId) → Quiet view (load_revision store id)
  unfolding load_revision
  load_revision-Quiet id = >>=-Quiet _ _ (load-Quiet id) (λ o. lift-Quiet _)

  pub branch_head-Quiet : (b : BranchRef) → Quiet view (branch_head store b)
  unfolding branch_head
  branch_head-Quiet b = >>=-Quiet _ _ (head-Quiet b) (λ o. lift-Quiet _)

  collect_from-Quiet :
      (fuel : ℕ) (distances : TreeMap ℕ) (queue : List (RevisionId × ℕ))
      → Quiet view (collect_from store fuel distances queue)
  unfolding collect_from
  collect_from-Quiet fuel distances [] = lift-Quiet _
  collect_from-Quiet zero distances (e ∷ queue) = lift-Quiet _
  collect_from-Quiet (suc fuel) distances ((id, d) ∷ queue) =
      unless_seen-Quiet (lookup id distances) (collect_from-Quiet fuel distances queue) (
        >>=-Quiet _ _ (load_revision-Quiet id) λ revision.
          collect_from-Quiet fuel (insert id d distances)
            (queue ++ parents_at (further d) revision.parents))
    where
      unless_seen-Quiet :
          {A : Type 0} {skip visit : Exec RevisionError W A} (seen : Option ℕ)
          → Quiet view skip
          → Quiet view visit
          → Quiet view (unless_seen seen skip visit)
      unless_seen-Quiet none skip visit = visit
      unless_seen-Quiet (some d) skip visit = skip

  within-Quiet :
      {A B : Type 0} (o : Option A) (f : A → Exec RevisionError W (Option B))
      → ((a : A) → Quiet view (f a))
      → Quiet view (within o f)
  within-Quiet none f each = lift-Quiet _
  within-Quiet (some a) f each = each a

  find_merge_base-Quiet :
      (fuel : ℕ) (ours theirs : RevisionId) → Quiet view (find_merge_base store fuel ours theirs)
  unfolding find_merge_base collect_ancestors
  find_merge_base-Quiet fuel ours theirs =
      >>=-Quiet _ _ (collect_from-Quiet fuel [] ((ours, 0) ∷ [])) λ ours_map.
        within-Quiet ours_map _ λ ours_map.
          >>=-Quiet _ _ (collect_from-Quiet fuel [] ((theirs, 0) ∷ [])) λ theirs_map.
            within-Quiet theirs_map _ λ theirs_map.
              >>=-Quiet {A = RevisionId} _ _ (lift-Quiet _) λ base. lift-Quiet (ok (some base))

  pub prepare_merge-Quiet :
      (format : SpecFormat) (fuel : ℕ) (source target : BranchRef)
      → Quiet view (prepare_merge store format fuel source target)
  unfolding prepare_merge validate_branch_pair
  prepare_merge-Quiet format fuel source target =
      >>=-Quiet _ _ (test-Quiet (source.agent_id == target.agent_id) (ok tt) _) λ _.
        >>=-Quiet _ _ (branch_head-Quiet source) λ source_head.
          >>=-Quiet _ _ (branch_head-Quiet target) λ target_head.
            >>=-Quiet _ _ (test-Quiet (source_head == target_head) _ (ok tt)) λ _.
              >>=-Quiet _ _ (find_merge_base-Quiet fuel target_head source_head) λ base.
                within-Quiet base _ λ base. >>=-Quiet _ _ (load_revision-Quiet target_head) λ ours.
                  >>=-Quiet _ _ (load_revision-Quiet source_head) λ theirs.
                    >>=-Quiet _ _ (load_revision-Quiet base) λ base_revision.
                      >>=-Quiet {A = MergeResult} _ _ (lift-Quiet _)
                        λ result. lift-Quiet (ok (some result))
