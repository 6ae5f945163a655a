-- ===== src/Revision/Spec.antt =====
-- canary-agent-revision/src/spec.rs: what a revision pins down about an agent.
use native.Mathlib.Decide.{ℕ_discrete}
use canary_agent.Prelude.{ℕ, String, Bool, ◌==◌, List, [], ◌∷◌, if◌then◌else◌, concat, hex}
use canary_agent.Prelude.Equality.{String-discrete}
use canary_agent.Prelude.TreeMap.{TreeMap}
use canary_agent.Prelude.Result.{Result, ok, err, ◌>>=◌, ◌>>◌}
use canary_agent.Kernel.Value.{Value, Value-discrete}
use canary_agent.Revision.Error.{Revised, RevisionError, serialized, to_string}
use canary_agent.Revision.Ids.{AgentId, SpecDigest, is_blank, validate_component}

pub record ComponentRef : Type 0 where
  pub fqn : String
  pub configuration : Value

pub record ModelSpec : Type 0 where
  pub fqn : String
  pub settings : Value

pub record PromptSpec : Type 0 where
  pub system : String
  pub templates : TreeMap String

pub record ToolInterfaceSpec : Type 0 where
  pub name : String
  pub description : String
  pub parameters : Value
  pub output_schema : Value

pub record AgentBuildRef : Type 0 where
  pub id : String

pub record ToolSpec : Type 0 where
  pub interface : ToolInterfaceSpec
  pub configuration : Value

pub record TurnExecutionLimitsSpec : Type 0 where
  pub max_model_iterations : ℕ
  pub max_function_calls : ℕ

pub record RuntimePolicySpec : Type 0 where
  pub allow_empty_response : Bool
  pub context_builder : ComponentRef
  pub hooks : List ComponentRef
  pub turn_execution_limits : TurnExecutionLimitsSpec

pub record AgentSpec : Type 0 where
  pub agent_id : AgentId
  pub model : ModelSpec
  pub prompts : PromptSpec
  pub tools : TreeMap ToolSpec
  pub runtime : RuntimePolicySpec
  pub build : AgentBuildRef

-- The derived `PartialEq`.
unfoldable pub ModelSpec-discrete : Discrete ModelSpec
ModelSpec-discrete = hlevel (String-discrete, Value-discrete)

unfoldable pub PromptSpec-discrete : Discrete PromptSpec
PromptSpec-discrete = hlevel String-discrete

unfoldable pub ToolInterfaceSpec-discrete : Discrete ToolInterfaceSpec
ToolInterfaceSpec-discrete = hlevel (String-discrete, Value-discrete)

unfoldable pub ToolSpec-discrete : Discrete ToolSpec
ToolSpec-discrete = hlevel (ToolInterfaceSpec-discrete, Value-discrete)

unfoldable pub RuntimePolicySpec-discrete : Discrete RuntimePolicySpec
RuntimePolicySpec-discrete = hlevel (ℕ_discrete, String-discrete, Value-discrete)

unfoldable pub AgentBuildRef-discrete : Discrete AgentBuildRef
AgentBuildRef-discrete = hlevel String-discrete

validate_text : String → String → Revised Unit
unfolding is_blank
validate_text value message =
    if is_blank value then err (RevisionError.invalid_spec message) else ok tt

unfoldable pub validate_ref : ComponentRef → Revised Unit
unfolding validate_text
validate_ref component = validate_text component.fqn "component FQN is empty"

unfoldable pub new_ref : String → Value → Revised ComponentRef
unfolding validate_ref
new_ref fqn configuration = do
  let component : ComponentRef = record { fqn = fqn; configuration = configuration }
  validate_ref component
  ok component

unfoldable pub validate_model : ModelSpec → Revised Unit
unfolding validate_text
validate_model model = validate_text model.fqn "model provider and model are required"

validate_templates : TreeMap String → Revised Unit
unfolding validate_text
validate_templates [] = ok tt
validate_templates ((name, _) ∷ templates) = do
  validate_text name "prompt extension name is empty"
  validate_templates templates

unfoldable pub validate_prompts : PromptSpec → Revised Unit
unfolding validate_templates
validate_prompts prompts = validate_templates prompts.templates

unfoldable pub validate_build : AgentBuildRef → Revised Unit
unfolding validate_text
validate_build build = validate_text build.id "agent build id is empty"

unfoldable pub validate_interface : ToolInterfaceSpec → Revised Unit
unfolding validate_text
validate_interface interface = validate_text interface.name "tool name is empty"

unfoldable pub validate_tool : String → ToolSpec → Revised Unit
unfolding validate_interface concat
validate_tool expected_name tool = do
  validate_interface tool.interface
  let message = concat (
      "tool map key " ∷ expected_name ∷ " does not match interface name " ∷ tool.interface.name
      ∷ [])
  if tool.interface.name == expected_name then ok tt else err (RevisionError.invalid_spec message)

validate_tools : TreeMap ToolSpec → Revised Unit
unfolding validate_tool
validate_tools [] = ok tt
validate_tools ((name, tool) ∷ tools) = do validate_tool name tool; validate_tools tools

validate_hooks : List ComponentRef → Revised Unit
unfolding validate_ref
validate_hooks [] = ok tt
validate_hooks (hook ∷ hooks) = do validate_ref hook; validate_hooks hooks

unfoldable pub validate_runtime : RuntimePolicySpec → Revised Unit
unfolding validate_ref validate_hooks
validate_runtime runtime = do validate_ref runtime.context_builder; validate_hooks runtime.hooks

validate_agent_id : AgentId → Revised Unit
unfolding validate_component to_string
validate_agent_id id = elim (validate_component "agent id" id) [
  | ok _ ↦ ok tt
  | err error ↦ err (RevisionError.invalid_spec (to_string error))
]

unfoldable pub validate : AgentSpec → Revised Unit
unfolding validate_agent_id validate_model validate_prompts validate_tools validate_runtime
    validate_build
validate spec = do
  validate_agent_id spec.agent_id
  validate_model spec.model
  validate_prompts spec.prompts
  validate_tools spec.tools
  validate_runtime spec.runtime
  validate_build spec.build

-- Bytes, each below 256.
abbrev pub Bytes : Type 0
Bytes = List ℕ

-- `Sha256::digest` and the text that is made of it.
unfoldable pub sha256_text : (Bytes → Bytes) → Bytes → String
unfolding concat hex
sha256_text sha256 bytes = concat ("sha256:" ∷ hex (sha256 bytes) ∷ [])

unfoldable pub digest :
    (Bytes → Bytes) → (AgentSpec → Result String Bytes) → AgentSpec → Revised SpecDigest
unfolding validate serialized sha256_text
digest sha256 to_vec spec = do
  validate spec
  bytes ← serialized (to_vec spec)
  ok (sha256_text sha256 bytes)
