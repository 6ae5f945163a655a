-- ===== src/Revision/Ids.antt =====
-- canary-agent-revision/src/ids.rs. The newtypes over a text, which serde writes as that text, are the text.
use canary_agent.Prelude.{String, Bool, ◌||◌, ◌==◌, [], ◌∷◌, if◌then◌else◌}
use canary_agent.Prelude.{concat, trim, contains_char}
use canary_agent.Prelude.Equality.{String-discrete}
use canary_agent.Prelude.Result.{ok, err, ◌>>◌}
use canary_agent.Revision.Error.{Revised, RevisionError}

abbrev pub AgentId : Type 0
AgentId = String

abbrev pub BranchName : Type 0
BranchName = String

abbrev pub RevisionId : Type 0
RevisionId = String

abbrev pub SpecDigest : Type 0
SpecDigest = String

pub record BranchRef : Type 0 where
  pub agent_id : AgentId
  pub name : BranchName

unfoldable pub BranchRef-discrete : Discrete BranchRef
BranchRef-discrete = hlevel String-discrete

unfoldable pub branch_to_string : BranchRef → String
unfolding concat
branch_to_string branch = concat (branch.agent_id ∷ "/" ∷ branch.name ∷ [])

-- `value.trim().is_empty()`
unfoldable pub is_blank : String → Bool
unfolding trim
is_blank value = trim value == ""

-- '/' and '\\'
is_reserved : String → Bool
unfolding contains_char
is_reserved value =
    value == "." || value == ".." || contains_char 0x2F value || contains_char 0x5C value

unfoldable pub validate_component : String → String → Revised Unit
unfolding is_blank is_reserved concat
validate_component kind value =
    if is_blank value
    then err (RevisionError.invalid_branch (concat (kind ∷ " is empty" ∷ [])))
    else if is_reserved value
    then err (
        RevisionError.invalid_branch
          (concat (kind ∷ " contains a path separator or reserved component" ∷ [])))
    else ok tt

unfoldable pub new_agent_id : String → Revised AgentId
unfolding validate_component
new_agent_id value = do validate_component "agent id" value; ok value

unfoldable pub new_branch_name : String → Revised BranchName
unfolding validate_component
new_branch_name value = do validate_component "branch name" value; ok value

abbrev pub branch_ref : AgentId → BranchName → BranchRef
branch_ref agent_id name = record { agent_id = agent_id; name = name }
