-- ===== src/Revision/Diff.antt =====
-- canary-agent-revision/src/diff.rs, and `AgentSpec::diff`.
pub mod Changes
pub mod Empty
use canary_agent.Prelude.{
  String, Bool, true, false, ◌&&◌, Option, none, some, List, [], ◌∷◌, ◌++◌, is_empty, if◌then◌else◌,
}
use canary_agent.Prelude.Equality.{same, String-discrete}
use canary_agent.Prelude.TreeMap.{TreeMap, lookup, keys, sorted_keys}
use canary_agent.Prelude.Result.{ok, ◌>>=◌, ◌>>◌}
use canary_agent.Kernel.Value.{Value, Value-discrete}
use canary_agent.Revision.Error.{Revised}
use canary_agent.Revision.Ids.{AgentId}
use canary_agent.Revision.Spec.{
  AgentSpec, ModelSpec, PromptSpec, ToolSpec, ToolInterfaceSpec, RuntimePolicySpec, AgentBuildRef,
  ModelSpec-discrete, PromptSpec-discrete, ToolInterfaceSpec-discrete, ToolSpec-discrete,
  RuntimePolicySpec-discrete, AgentBuildRef-discrete, validate,
}

pub record ValueChange (T : Type 0) : Type 0 where
  pub before : T
  pub after : T

pub record ToolDiff : Type 0 where
  pub interface : Option (ValueChange ToolInterfaceSpec)
  pub configuration : Option (ValueChange Value)

pub data ToolChange : Type 0 where
  added removed : String → ToolSpec → ToolChange
  modified : String → ToolDiff → ToolChange

pub record AgentDiff : Type 0 where
  pub agent_id : Option (ValueChange AgentId)
  pub model : Option (ValueChange ModelSpec)
  pub prompts : Option (ValueChange PromptSpec)
  pub tools : List ToolChange
  pub runtime : Option (ValueChange RuntimePolicySpec)
  pub build : Option (ValueChange AgentBuildRef)

abbrev pub is_none {ℓ} : {A : Type ℓ} → Option A → Bool
is_none none = true
is_none (some a) = false

unfoldable pub is_empty_diff : AgentDiff → Bool
is_empty_diff diff =
    is_none diff.agent_id
    && is_none diff.model
    && is_none diff.prompts
    && is_empty diff.tools
    && is_none diff.runtime
    && is_none diff.build

unfoldable pub is_empty_tool_diff : ToolDiff → Bool
is_empty_tool_diff diff = is_none diff.interface && is_none diff.configuration

unfoldable pub changed : {T : Type 0} → Discrete T → T → T → Option (ValueChange T)
unfolding same
changed eq before after =
    if same eq before after then none else some (record { before = before; after = after })

unfoldable pub diff_tool : ToolSpec → ToolSpec → ToolDiff
unfolding changed
diff_tool before after = record {
  interface = changed ToolInterfaceSpec-discrete before.interface after.interface;
  configuration = changed Value-discrete before.configuration after.configuration;
}

-- The closure of `filter_map`.
unfoldable pub tool_change : String → Option ToolSpec → Option ToolSpec → Option ToolChange
unfolding same diff_tool
tool_change name none none = none
tool_change name none (some tool) = some (added name tool)
tool_change name (some tool) none = some (removed name tool)
tool_change name (some before) (some after) =
    if same ToolSpec-discrete before after
    then none
    else some (modified name (diff_tool before after))

abbrev pub push_some {ℓ} : {A : Type ℓ} → Option A → List A → List A
push_some none xs = xs
push_some (some x) xs = x ∷ xs

unfoldable pub changes_at : TreeMap ToolSpec → TreeMap ToolSpec → List String → List ToolChange
unfolding tool_change lookup
changes_at before after [] = []
changes_at before after (name ∷ names) =
    push_some (tool_change name (lookup name before) (lookup name after))
      (changes_at before after names)

unfoldable pub diff_tools : TreeMap ToolSpec → TreeMap ToolSpec → List ToolChange
unfolding changes_at sorted_keys
diff_tools before after = changes_at before after (sorted_keys (keys before ++ keys after))

unfoldable pub between : AgentSpec → AgentSpec → Revised AgentDiff
unfolding changed diff_tools
between before after = ok (record {
  agent_id = changed String-discrete before.agent_id after.agent_id;
  model = changed ModelSpec-discrete before.model after.model;
  prompts = changed PromptSpec-discrete before.prompts after.prompts;
  tools = diff_tools before.tools after.tools;
  runtime = changed RuntimePolicySpec-discrete before.runtime after.runtime;
  build = changed AgentBuildRef-discrete before.build after.build;
})

unfoldable pub diff_specs : AgentSpec → AgentSpec → Revised AgentDiff
unfolding validate between
diff_specs spec other = do validate spec; validate other; between spec other
