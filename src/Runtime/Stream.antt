-- ===== src/Runtime/Stream.antt =====
-- What a turn shows to the outside: the outcome and the stream events of
-- canary-agent-runtime/src/agent_loop.rs, the trace of trace.rs and the metrics of metrics.rs.
use canary_agent.Prelude.{ℕ, String, Option, List}
use canary_agent.Kernel.Value.{Value}
use canary_agent.Kernel.Events.{ModelFunctionCall, Suspension, TokenUsage, ToolResult}

pub data TurnOutcome : Type 0 where
  completed_without_message : TurnOutcome
  assistant_message : String → TurnOutcome
  suspended : Suspension → TurnOutcome
  failed : String → TurnOutcome
  aborted : String → TurnOutcome

pub data TurnStateEvent : Type 0 where
  turn_started : String → String → TurnStateEvent
  function_calls_requested : List ModelFunctionCall → TurnStateEvent
  function_started function_completed : String → String → TurnStateEvent
  function_failed : String → String → String → TurnStateEvent
  suspended : Suspension → TurnStateEvent
  turn_finished : TurnOutcome → TurnStateEvent
  turn_failed turn_aborted : String → TurnStateEvent
  turn_token_usage : TokenUsage → TurnStateEvent

pub data TurnModelEvent : Type 0 where
  request_started : ℕ → TurnModelEvent
  assistant_response : Option String → List ModelFunctionCall → TurnModelEvent
  assistant_delta : String → TurnModelEvent

pub data FunctionHookPhase : Type 0 where
  before_call after_call : FunctionHookPhase

pub record FunctionHookEvent : Type 0 where
  pub phase : FunctionHookPhase
  pub hook_fqn : String
  pub call_id : String
  pub name : String
  pub message : String
  pub metadata : Value

pub data TurnStreamEvent : Type 0 where
  state : TurnStateEvent → TurnStreamEvent
  model : TurnModelEvent → TurnStreamEvent
  function_hook : FunctionHookEvent → TurnStreamEvent

pub data FunctionRecoveryPolicy : Type 0 where
  idempotent non_idempotent : FunctionRecoveryPolicy

pub data TraceTurnStatus : Type 0 where
  completed suspended failed aborted : TraceTurnStatus

pub data TraceEventKind : Type 0 where
  user_input : String → Option String → TraceEventKind
  model_response : Option String → List ModelFunctionCall → TraceEventKind
  function_call : String → String → Value → TraceEventKind
  recovery_started : String → String → ℕ → FunctionRecoveryPolicy → TraceEventKind
  tool_output : String → String → ToolResult → TraceEventKind
  suspension_created : Suspension → TraceEventKind
  turn_finished : TraceTurnStatus → TraceEventKind

pub record TraceEvent : Type 0 where
  pub thread_id : String
  pub turn_id : String
  pub sequence : ℕ
  pub occurred_at : String
  pub kind : TraceEventKind

pub data MetricStatus : Type 0 where
  completed suspended failed aborted : MetricStatus

pub data FunctionCallOutcome : Type 0 where
  completed suspended failed aborted : FunctionCallOutcome

pub data FunctionCallSkipReason : Type 0 where
  max_calls_per_turn previous_function_suspended : FunctionCallSkipReason
  non_idempotent_recovery turn_aborted : FunctionCallSkipReason

-- Durations, and the metrics that are durations alone, are not modelled.
pub data RuntimeMetric : Type 0 where
  turn_finished : MetricStatus → ℕ → RuntimeMetric
  model_request_finished : MetricStatus → RuntimeMetric
  function_call_finished : String → FunctionCallOutcome → RuntimeMetric
  function_call_skipped : String → FunctionCallSkipReason → RuntimeMetric
  token_usage : TokenUsage → RuntimeMetric
