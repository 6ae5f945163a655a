-- ===== src/Kernel/Model.antt =====
-- canary-agent-kernel/src/model.rs, and the chat messages of projection.rs: what a model is sent
-- and what it answers.
use canary_agent.Prelude.{String, Option, List}
use canary_agent.Kernel.Value.{Value}
use canary_agent.Kernel.Events.{ModelFunctionCall, ModelContinuation, TokenUsage}

pub data ChatMessage : Type 0 where
  system : String → ChatMessage
  user : String → ChatMessage
  assistant : Option ModelContinuation → Option String → List ModelFunctionCall → ChatMessage
  tool : String → String → Value → ChatMessage

pub record FunctionSpec : Type 0 where
  pub name : String
  pub description : String
  pub parameters : Value

pub record ModelRequest : Type 0 where
  pub messages : List ChatMessage
  pub functions : List FunctionSpec

pub data ModelResponse : Type 0 where
  assistant : Option ModelContinuation → Option String → List ModelFunctionCall → ModelResponse
  assistant_message : String → ModelResponse
  function_calls : List ModelFunctionCall → ModelResponse

pub data ModelStreamEvent : Type 0 where
  output_progress : ModelStreamEvent
  assistant_delta : String → ModelStreamEvent
  token_usage : TokenUsage → ModelStreamEvent
