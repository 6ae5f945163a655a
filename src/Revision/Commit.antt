-- ===== src/Revision/Commit.antt =====
-- canary-agent-revision/src/revision.rs: revisions and their identity. SHA-256 and serde's writers are parameters.
use canary_agent.Prelude.{String, Option, none, List, [], ◌∷◌, if◌then◌else◌, ◌||◌, contains_char}
use canary_agent.Prelude.TreeMap.{contains}
use canary_agent.Prelude.Result.{Result, ok, err, ◌>>=◌, ◌>>◌}
use canary_agent.Revision.Error.{Revised, RevisionError, serialized}
use canary_agent.Revision.Ids.{AgentId, RevisionId, SpecDigest, is_blank}
use canary_agent.Revision.Spec.{AgentSpec, Bytes, digest, sha256_text, validate}
use canary_agent.Revision.Diff.{AgentDiff, diff_specs}

pub record CommitMessage : Type 0 where
  pub subject : String
  pub body : Option String

unfoldable pub with_body : String → Option String → Revised CommitMessage
unfolding is_blank contains_char
with_body subject body =
    if is_blank subject
    then err (RevisionError.invalid_commit_message "subject is empty")
    else if contains_char 0x0A subject || contains_char 0x0D subject
    then err (RevisionError.invalid_commit_message "subject must be a single line")
    else ok (record { subject = subject; body = body })

unfoldable pub new_message : String → Revised CommitMessage
unfolding with_body
new_message subject = with_body subject none

pub record RevisionMetadata : Type 0 where
  pub author : Option String
  pub created_at : Option String

pub record AgentRevision : Type 0 where
  pub revision_id : RevisionId
  pub agent_id : AgentId
  pub spec_digest : SpecDigest
  pub spec : AgentSpec
  pub parents : List RevisionId
  pub message : CommitMessage
  pub metadata : RevisionMetadata

pub record RevisionIdentity : Type 0 where
  pub agent_id : AgentId
  pub spec_digest : SpecDigest
  pub parents : List RevisionId
  pub message : CommitMessage
  pub metadata : RevisionMetadata

-- The loop of `validate_parents`, with the parents that it has seen.
unfoldable pub validate_parents_from : List RevisionId → List RevisionId → Revised Unit
unfolding is_blank contains
validate_parents_from unique [] = ok tt
validate_parents_from unique (parent ∷ parents) =
    let rest = validate_parents_from (parent ∷ unique) parents in
    if is_blank parent
    then err (RevisionError.invalid_spec "parent revision ID is empty")
    else if contains parent unique
    then err (RevisionError.invalid_spec "duplicate parent revision ID")
    else rest

unfoldable pub validate_parents : List RevisionId → Revised Unit
unfolding validate_parents_from
validate_parents parents = validate_parents_from [] parents

pub record Formats : Type 0 where
  pub sha256 : Bytes → Bytes
  pub spec_to_vec : AgentSpec → Result String Bytes
  pub identity_to_vec : RevisionIdentity → Result String Bytes

-- The revision with the id that its identity has.
unfoldable pub identified : Formats → AgentSpec → RevisionIdentity → Revised AgentRevision
unfolding sha256_text serialized
identified formats spec identity = do
  bytes ← serialized (formats.identity_to_vec identity)
  ok (record {
    revision_id = sha256_text formats.sha256 bytes;
    agent_id = spec.agent_id;
    spec_digest = identity.spec_digest;
    spec = spec;
    parents = identity.parents;
    message = identity.message;
    metadata = identity.metadata;
  })

unfoldable pub commit_revision :
    Formats → AgentSpec → List RevisionId → CommitMessage → RevisionMetadata → Revised AgentRevision
unfolding validate validate_parents digest identified
commit_revision formats spec parents message metadata = do
  validate spec
  validate_parents parents
  spec_digest ← digest formats.sha256 formats.spec_to_vec spec
  identified formats spec (record {
    agent_id = spec.agent_id;
    spec_digest = spec_digest;
    parents = parents;
    message = message;
    metadata = metadata;
  })

unfoldable pub diff_revisions : AgentRevision → AgentRevision → Revised AgentDiff
unfolding diff_specs
diff_revisions revision other = diff_specs revision.spec other.spec
