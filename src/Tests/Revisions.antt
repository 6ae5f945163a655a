-- ===== src/Tests/Revisions.antt =====
-- An agent with two revisions, for canary-agent-revision/src.
use mathlib.Core.List.{Memᴰ}
use canary_agent.Prelude.{
  ℕ, String, true, false, Option, none, some, List, [], ◌∷◌, ◌≡◌, refl, ap, ◌↔◌, ◌==◌, All,
  if◌then◌else◌, arith,
}
use canary_agent.Prelude.Result.{ok, err}
use canary_agent.Prelude.TreeMap
use canary_agent.Prelude.TreeMap.{TreeMap}
use canary_agent.Kernel.Value.{Value, Value-discrete, null, string, object, field, end_fields}
use canary_agent.Revision.Ids.{BranchRef, BranchRef-discrete, RevisionId}
use native.Mathlib.Decide.{ℕ_discrete}
use canary_agent.Prelude.Equality.{String-discrete}
use canary_agent.Revision.Spec.{
  AgentSpec, ToolSpec, ModelSpec-discrete, PromptSpec-discrete, ToolSpec-discrete,
  RuntimePolicySpec-discrete, AgentBuildRef-discrete, ToolInterfaceSpec-discrete,
}
use canary_agent.Revision.Diff.{diff_tools, between, is_empty_diff, AgentDiff}
use canary_agent.Revision.Diff.Changes.{apply_changes, lookup-diff_tools}
use canary_agent.Revision.Diff.Empty.{Agree, is_empty-between}
use canary_agent.Revision.Merge.{merge_value, SpecFormat, OptionValue-discrete}
use canary_agent.Revision.Merge.Paths.{IsMerge}
use canary_agent.Revision.Merge.Objects.{merge_value-IsMerge}
use canary_agent.Revision.Merge.Base.{choose_merge_base}
use canary_agent.Revision.Merge.Base.Nearest.{IsBase, IsNearest, choose_merge_base-IsBase}
use canary_agent.Revision.Commit.{AgentRevision, CommitMessage, Formats}
use canary_agent.Revision.Controller.{
  commit_merge, commit, create_branch, merge, log, log_from, collect_ancestors,
}
use canary_agent.Revision.Controller.Ancestors.{Reads, IsHistory, IsAncestry, edges}
use canary_agent.Revision.Controller.Collected.{collect_ancestors-IsAncestry}
use canary_agent.Revision.Controller.Unmoved.{changes-AllOrNothing}
use canary_agent.Prelude.Atomic.{AllOrNothing}
use canary_agent.Revision.Controller.Merged.{IsMergeCommit, commit_merge-IsMergeCommit}
use canary_agent.Revision.Controller.History.{Records, Advanced, commit-Advanced}
use canary_agent.Revision.Controller.Ended.{IsReached, start, committed, Ended, log-commit}
use canary_agent.Tests.Memory.{Memory, Head-discrete, memory_store, memory_store-IsRevisionStore}

abbrev tool : String → ToolSpec
tool name = record {
  interface = record { name = name; description = ""; parameters = null; output_schema = null };
  configuration = string "on";
}

abbrev spec : AgentSpec
spec = record {
  agent_id = "agent";
  model = record { fqn = "model"; settings = null };
  prompts = record { system = "be brief"; templates = [] };
  tools = ("search", tool "search") ∷ [];
  runtime = record {
    allow_empty_response = false;
    context_builder = record { fqn = "builder"; configuration = null };
    hooks = [];
    turn_execution_limits = record { max_model_iterations = 8; max_function_calls = 4 };
  };
  build = record { id = "build" };
}

abbrev tools_before : TreeMap ToolSpec
tools_before = ("edit", tool "edit") ∷ ("search", tool "old") ∷ []

abbrev tools_after : TreeMap ToolSpec
tools_after = ("run", tool "run") ∷ ("search", tool "search") ∷ []

lookup-diff_tools_example :
    TreeMap.lookup "search" (apply_changes (diff_tools tools_before tools_after) tools_before)
    ≡ some (tool "search")
unfolding TreeMap.lookup
lookup-diff_tools_example = lookup-diff_tools tools_before tools_after "search"

abbrev no_difference : AgentDiff
no_difference = record {
  agent_id = none;
  model = none;
  prompts = none;
  tools = [];
  runtime = none;
  build = none;
}

no_change : between spec spec ≡ ok no_difference
unfolding between String-discrete ModelSpec-discrete PromptSpec-discrete ToolSpec-discrete
    RuntimePolicySpec-discrete AgentBuildRef-discrete Value-discrete ToolInterfaceSpec-discrete
    ℕ_discrete
no_change = refl

is_empty-between_example : (is_empty_diff no_difference ≡ true) ↔ Agree spec spec
is_empty-between_example = is_empty-between spec spec no_change

abbrev pair : Value → Value → Option Value
pair a b = some (object (field "a" a (field "b" b end_fields)))

merge_value-IsMerge_example :
    IsMerge
      (pair null null)
      (pair (string "ours") null)
      (pair null (string "theirs"))
      "$"
      (merge_value (pair null null) (pair (string "ours") null) (pair null (string "theirs")) "$")
merge_value-IsMerge_example =
    merge_value-IsMerge (pair null null) (pair (string "ours") null) (pair null (string "theirs"))
      "$"

merged :
    merge_value (pair null null) (pair (string "ours") null) (pair null (string "theirs")) "$"
    ≡ (pair (string "ours") (string "theirs"), [])
unfolding merge_value OptionValue-discrete Value-discrete String-discrete ℕ_discrete
merged = refl

abbrev ours_map : TreeMap ℕ
ours_map = ("ours", 0) ∷ ("root", 1) ∷ []

abbrev theirs_map : TreeMap ℕ
theirs_map = ("root", 1) ∷ ("theirs", 0) ∷ []

abbrev ancestors : TreeMap (TreeMap ℕ)
ancestors = ("ours", ours_map) ∷ ("theirs", theirs_map) ∷ []

choose_merge_base-IsBase_example : IsNearest ours_map theirs_map "root"
unfolding IsBase choose_merge_base TreeMap.lookup
choose_merge_base-IsBase_example = choose_merge_base-IsBase "ours" "theirs" ancestors refl refl

-- Writers that tell the two commits apart.
abbrev formats : Formats
formats = record {
  sha256 = λ bytes. bytes;
  spec_to_vec = λ spec. ok (16 ∷ []);
  identity_to_vec = λ identity. ok (
      if identity.message.subject == "first"
      then 1 ∷ []
      else if identity.message.subject == "second"
      then 2 ∷ []
      else 3 ∷ []);
}

abbrev main : BranchRef
main = record { agent_id = "agent"; name = "main" }

abbrev message : String → CommitMessage
message subject = record { subject = subject; body = none }

abbrev empty_memory : Memory
empty_memory = record { objects = λ id. none; heads = λ branch. none }

abbrev revision : String → List RevisionId → String → AgentRevision
revision id parents subject = record {
  revision_id = id;
  agent_id = "agent";
  spec_digest = "sha256:10";
  spec = spec;
  parents = parents;
  message = message subject;
  metadata = record { author = none; created_at = none };
}

abbrev first_revision : AgentRevision
first_revision = revision "sha256:01" [] "first"

abbrev second_revision : AgentRevision
second_revision = revision "sha256:02" ("sha256:01" ∷ []) "second"

-- The memory after one commit and after two.
unfoldable after_first : Memory
after_first = (commit memory_store formats main spec (message "first") empty_memory).1

unfoldable after_second : Memory
after_second = (commit memory_store formats main spec (message "second") after_first).1

first_committed :
    commit memory_store formats main spec (message "first") empty_memory
    ≡ (ok first_revision, after_first)
unfolding after_first commit memory_store Head-discrete
first_committed = refl

second_committed :
    commit memory_store formats main spec (message "second") after_first
    ≡ (ok second_revision, after_second)
unfolding after_first after_second commit memory_store Head-discrete BranchRef-discrete
    String-discrete
second_committed = refl

first_reached : IsReached memory_store-IsRevisionStore formats 1 after_first
unfolding memory_store-IsRevisionStore
first_reached =
    committed 0 empty_memory after_first main spec (message "first") first_revision
      (start empty_memory (λ branch. refl)) first_committed

log-commit_example :
    Ended memory_store-IsRevisionStore 1 after_first
    × ((history : List AgentRevision) × (log_from memory_store 1
            (memory_store-IsRevisionStore.heads after_first main)
            after_first
          ≡ (ok (some history), after_first))
        × (log memory_store 2 main after_second
            ≡ (ok (some (second_revision ∷ history)), after_second)))
log-commit_example =
    log-commit memory_store-IsRevisionStore formats main spec (message "second") 1 after_first
      first_reached second_committed

commit-Advanced_example :
    Records spec ("sha256:01" ∷ []) (message "second") second_revision
    × Advanced memory_store-IsRevisionStore after_first after_second main
        (some "sha256:01")
        second_revision
unfolding after_first commit memory_store memory_store-IsRevisionStore Head-discrete
    BranchRef-discrete String-discrete
commit-Advanced_example =
    commit-Advanced memory_store-IsRevisionStore formats main spec (message "second") after_first
      second_committed

abbrev spec_format : SpecFormat
spec_format = record { to_value = λ spec. err "unsupported"; from_value = λ value. ok spec }

abbrev release : BranchRef
release = record { agent_id = "agent"; name = "release" }

changes-AllOrNothing_example :
    AllOrNothing memory_store-IsRevisionStore.heads
      (commit memory_store formats main spec (message "third"))
    × AllOrNothing memory_store-IsRevisionStore.heads (create_branch memory_store release main)
    × AllOrNothing memory_store-IsRevisionStore.heads
        (merge memory_store spec_format formats 8 release main (message "third"))
changes-AllOrNothing_example =
    changes-AllOrNothing memory_store-IsRevisionStore spec_format formats 8 release main spec
      (message "third")

abbrev held : RevisionId → Option AgentRevision
held id =
    if id == "sha256:02"
    then some second_revision
    else if id == "sha256:01"
    then some first_revision
    else none

abbrev two_revisions : Memory
two_revisions = record { objects = held; heads = λ branch. none }

abbrev ids : List RevisionId
ids = "sha256:02" ∷ "sha256:01" ∷ []

reads : Reads memory_store two_revisions held
unfolding Reads memory_store
reads id = refl

held_each :
    (id : RevisionId)
    → Memᴰ id ids
    → (revision : AgentRevision) × (held id ≡ some revision)
      × All (λ parent. Memᴰ parent ids) revision.parents
held_each id (Memᴰ.head e) = (second_revision, ap held e, (Memᴰ.tail (Memᴰ.head refl), tt))
held_each id (Memᴰ.tail (Memᴰ.head e)) = (first_revision, ap held e, tt)
held_each id (Memᴰ.tail (Memᴰ.tail later)) = elim later [ ]

history : IsHistory held ids
history = record { holds = held_each }

collect_ancestors-IsAncestry_example :
    (found : TreeMap ℕ) × (collect_ancestors memory_store 2 "sha256:02" two_revisions
      ≡ (ok (some found), two_revisions))
    × IsAncestry held "sha256:02" found
unfolding edges
collect_ancestors-IsAncestry_example =
    collect_ancestors-IsAncestry memory_store two_revisions held ids "sha256:02" 2 reads history
      (Memᴰ.head refl) (omega arith)

-- Two heads that a merge joins.
abbrev two_heads : Memory
two_heads = record two_revisions {
  heads = λ branch. if branch.name == "main" then some "sha256:01" else some "sha256:02";
}

abbrev joined : AgentRevision
joined = revision "sha256:03" ("sha256:01" ∷ "sha256:02" ∷ []) "join"

unfoldable after_join : Memory
after_join = (commit_merge memory_store formats main "sha256:02" spec (message "join") two_heads).1

merge_committed :
    commit_merge memory_store formats main "sha256:02" spec (message "join") two_heads
    ≡ (ok joined, after_join)
unfolding after_join commit_merge memory_store Head-discrete BranchRef-discrete String-discrete
merge_committed = refl

commit_merge-IsMergeCommit_example :
    IsMergeCommit memory_store-IsRevisionStore two_heads after_join main "sha256:02" spec
      (message "join")
      joined
commit_merge-IsMergeCommit_example =
    commit_merge-IsMergeCommit memory_store-IsRevisionStore formats main "sha256:02" spec
      (message "join") two_heads merge_committed
