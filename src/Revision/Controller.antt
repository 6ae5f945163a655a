-- ===== src/Revision/Controller.antt =====
-- canary-agent-revision/src/controller.rs. The two loops count their rounds down
-- from `fuel` and give none when it is used up.
pub mod Ancestors
pub mod Branched
pub mod Collected
pub mod Ended
pub mod History
pub mod Logged
pub mod Merged
pub mod Reads
pub mod Unmoved
use canary_agent.Prelude.{
  ℕ, zero, suc, ◌+◌, min, ◌-◌, ◌^◌, String, Bool, true, false, not, ◌&&◌, Option, none, some, List,
  [], ◌∷◌, ◌++◌, map, ◌==◌, is_some, concat, if◌then◌else◌,
}
use canary_agent.Prelude.Result.{Result, ok, err, ok_or}
use canary_agent.Prelude.Exec.{Exec, ◌>>=◌, ◌>>◌, pure, raise, lift}
use canary_agent.Prelude.TreeMap.{TreeMap, lookup, insert}
use canary_agent.Revision.Error.{RevisionError}
use canary_agent.Revision.Ids.{AgentId, BranchRef, RevisionId, branch_to_string}
use canary_agent.Revision.Spec.{AgentSpec}
use canary_agent.Revision.Diff.{AgentDiff}
use canary_agent.Revision.Commit.{
  AgentRevision, CommitMessage, RevisionMetadata, Formats, commit_revision, diff_revisions,
}
use canary_agent.Revision.Merge.{MergeResult, MergeConflict, SpecFormat, merge_specs, is_clean}
use canary_agent.Revision.Merge.Base.{choose_merge_base}
use canary_agent.Revision.Store.{RevisionStore}

pub record AgentCheckout : Type 0 where
  pub branch : BranchRef
  pub revision : AgentRevision

abbrev pub no_metadata : RevisionMetadata
no_metadata = record { author = none; created_at = none }

abbrev pub option_list : Option RevisionId → List RevisionId
option_list none = []
option_list (some id) = id ∷ []

abbrev pub first : List RevisionId → Option RevisionId
first [] = none
first (id ∷ ids) = some id

-- `.await?.ok_or_else(…)`
abbrev pub found :
    {W A : Type 0} → Exec RevisionError W (Option A) → RevisionError → Exec RevisionError W A
found m e = m >>= λ found. lift (ok_or found e)

-- A loop's result, where it had rounds enough.
abbrev pub within :
    {W A B : Type 0}
    → Option A
    → (A → Exec RevisionError W (Option B))
    → Exec RevisionError W (Option B)
within none f = pure none
within (some a) f = f a

abbrev pub cons_to : AgentRevision → Option (List AgentRevision) → Option (List AgentRevision)
cons_to revision none = none
cons_to revision (some revisions) = some (revision ∷ revisions)

-- The test of `contains_key`: what follows where there is a distance, and where there is none.
abbrev pub unless_seen : {R : Type 0} → Option ℕ → R → R → R
unless_seen (some distance) skip visit = skip
unless_seen none skip visit = visit

-- `saturating_add(1)` of a usize
unfoldable pub further : ℕ → ℕ
further distance = min (distance + 1) (2 ^ 64 - 1)

abbrev pub parents_at : ℕ → List RevisionId → List (RevisionId × ℕ)
parents_at distance = map (λ parent. (parent, distance))

module _ {W : Type 0} (store : RevisionStore W) where
  unfoldable pub branch_head : BranchRef → Exec RevisionError W RevisionId
  unfolding branch_to_string
  branch_head branch =
      found (store.branch_head branch) (RevisionError.branch_not_found (branch_to_string branch))

  unfoldable pub load_revision : RevisionId → Exec RevisionError W AgentRevision
  load_revision id = found (store.load_revision id) (RevisionError.revision_not_found id)

  -- What `commit` and `commit_merge` end with: the revision is saved and the branch moved to it.
  unfoldable pub publish :
      BranchRef → Option RevisionId → AgentRevision → Exec RevisionError W AgentRevision
  unfolding ◌>>=◌ branch_to_string
  publish branch head revision = do
    store.save_revision revision
    moved ← store.compare_and_set_branch branch head revision.revision_id
    if moved
        then pure revision
        else raise (RevisionError.concurrent_update (branch_to_string branch))

  unfoldable pub commit :
      Formats → BranchRef → AgentSpec → CommitMessage → Exec RevisionError W AgentRevision
  unfolding ◌>>=◌ publish commit_revision concat
  commit formats branch spec message = do
    if branch.agent_id == spec.agent_id
        then pure tt
        else raise (
            RevisionError.invalid_spec (
              concat (
                "branch " ∷ branch.name ∷ " belongs to " ∷ branch.agent_id
                ∷ ", but spec belongs to " ∷ spec.agent_id ∷ [])))
    head ← store.branch_head branch
    revision ← lift (commit_revision formats spec (option_list head) message no_metadata)
    publish branch head revision

  unfoldable pub validate_branch_pair : BranchRef → BranchRef → Exec RevisionError W Unit
  validate_branch_pair source target =
      if source.agent_id == target.agent_id
      then pure tt
      else raise
          (RevisionError.invalid_branch "source and target branches belong to different agents")

  unfoldable pub create_branch : BranchRef → BranchRef → Exec RevisionError W RevisionId
  unfolding ◌>>=◌ validate_branch_pair branch_head branch_to_string
  create_branch source target = do
    validate_branch_pair source target
    source_head ← branch_head source
    target_head ← store.branch_head target
    let exists : RevisionError = RevisionError.branch_already_exists (branch_to_string target)
    if is_some target_head then raise exists else pure tt
    created ← store.compare_and_set_branch target none source_head
    if created then pure source_head else raise exists

  unfoldable pub checkout : BranchRef → Exec RevisionError W AgentCheckout
  unfolding ◌>>=◌ branch_head load_revision
  checkout branch = do
    revision_id ← branch_head branch
    revision ← load_revision revision_id
    pure (record { branch = branch; revision = revision })

  unfoldable pub diff : RevisionId → RevisionId → Exec RevisionError W AgentDiff
  unfolding ◌>>=◌ load_revision diff_revisions
  diff before after = do
    before ← load_revision before
    after ← load_revision after
    lift (diff_revisions before after)

  unfoldable pub log_from :
      ℕ → Option RevisionId → Exec RevisionError W (Option (List AgentRevision))
  unfolding ◌>>=◌ load_revision
  log_from fuel none = pure (some [])
  log_from zero (some id) = pure none
  log_from (suc fuel) (some id) = do
    revision ← load_revision id
    history ← log_from fuel (first revision.parents)
    pure (cons_to revision history)

  unfoldable pub log : ℕ → BranchRef → Exec RevisionError W (Option (List AgentRevision))
  unfolding ◌>>=◌ branch_head log_from
  log fuel branch = do head ← branch_head branch; log_from fuel (some head)

  unfoldable pub collect_from :
      ℕ → TreeMap ℕ → List (RevisionId × ℕ) → Exec RevisionError W (Option (TreeMap ℕ))
  unfolding ◌>>=◌ load_revision lookup insert further
  collect_from fuel distances [] = pure (some distances)
  collect_from zero distances (next ∷ queue) = pure none
  collect_from (suc fuel) distances ((id, distance) ∷ queue) =
      unless_seen (lookup id distances) (collect_from fuel distances queue) do
        revision ← load_revision id
        collect_from fuel (insert id distance distances)
            (queue ++ parents_at (further distance) revision.parents)

  unfoldable pub collect_ancestors : ℕ → RevisionId → Exec RevisionError W (Option (TreeMap ℕ))
  unfolding collect_from
  collect_ancestors fuel start = collect_from fuel [] ((start, 0) ∷ [])

  unfoldable pub find_merge_base :
      ℕ → RevisionId → RevisionId → Exec RevisionError W (Option RevisionId)
  unfolding ◌>>=◌ collect_ancestors choose_merge_base insert concat
  find_merge_base fuel ours theirs = do
    ours_ancestors ← collect_ancestors fuel ours
    within ours_ancestors λ ours_ancestors. do
      theirs_ancestors ← collect_ancestors fuel theirs
      within theirs_ancestors λ theirs_ancestors. do
        let ancestors : TreeMap (TreeMap ℕ) =
            insert theirs theirs_ancestors (insert ours ours_ancestors [])
        let missing : RevisionError =
            RevisionError.no_common_ancestor (concat (ours ∷ " and " ∷ theirs ∷ []))
        base ← lift (ok_or (choose_merge_base ours theirs ancestors) missing)
        pure (some base)

  unfoldable pub load_each : List RevisionId → Exec RevisionError W (List AgentRevision)
  unfolding ◌>>=◌ load_revision
  load_each [] = pure []
  load_each (id ∷ ids) = do
    revision ← load_revision id
    revisions ← load_each ids
    pure (revision ∷ revisions)

  unfoldable pub parents : RevisionId → Exec RevisionError W (List AgentRevision)
  unfolding ◌>>=◌ load_revision load_each
  parents id = do revision ← load_revision id; load_each revision.parents

  unfoldable pub prepare_merge :
      SpecFormat → ℕ → BranchRef → BranchRef → Exec RevisionError W (Option MergeResult)
  unfolding ◌>>=◌ validate_branch_pair branch_head branch_to_string find_merge_base load_revision
      merge_specs
  prepare_merge format fuel source target = do
    validate_branch_pair source target
    source_head ← branch_head source
    target_head ← branch_head target
    if source_head == target_head
        then raise (RevisionError.nothing_to_merge (branch_to_string source))
        else pure tt
    base ← find_merge_base fuel target_head source_head
    within base λ base. do
      ours ← load_revision target_head
      theirs ← load_revision source_head
      base_revision ← load_revision base
      result ←
          lift (
            merge_specs format base target_head source_head base_revision.spec ours.spec
              theirs.spec)
      pure (some result)

  unfoldable pub commit_merge :
      Formats
      → BranchRef
      → RevisionId
      → AgentSpec
      → CommitMessage
      → Exec RevisionError W AgentRevision
  unfolding ◌>>=◌ branch_head load_revision publish commit_revision concat
  commit_merge formats target source_revision spec message = do
    target_head ← branch_head target
    if spec.agent_id == target.agent_id
        then pure tt
        else raise (
            RevisionError.invalid_spec (
              concat (
                "merge spec belongs to " ∷ spec.agent_id ∷ ", but target branch belongs to "
                ∷ target.agent_id ∷ [])))
    source ← load_revision source_revision
    if source.agent_id == target.agent_id
        then pure tt
        else raise (RevisionError.invalid_spec "merge source belongs to a different agent")
    revision ←
        lift (commit_revision formats spec (target_head ∷ source_revision ∷ []) message no_metadata)
    publish target (some target_head) revision

  -- The panic of `expect("clean merge spec")` is an error here.
  unfoldable pub merge :
      SpecFormat
      → Formats
      → ℕ
      → BranchRef
      → BranchRef
      → CommitMessage
      → Exec RevisionError W (Option AgentRevision)
  unfolding ◌>>=◌ prepare_merge is_clean commit_merge
  merge format formats fuel source target message = do
    result ← prepare_merge format fuel source target
    within result λ result. do
      if is_clean result
          then pure tt
          else raise
              (RevisionError.merge_conflicts (map (λ conflict. conflict.path) result.conflicts))
      spec ← lift (ok_or result.spec (RevisionError.invalid_spec "clean merge spec"))
      revision ← commit_merge formats target result.theirs spec message
      pure (some revision)
