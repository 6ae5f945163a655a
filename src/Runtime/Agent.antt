-- ===== src/Runtime/Agent.antt =====
-- canary-agent-runtime/src/agent_loop.rs: the agent, the state of a turn that runs, and the small
-- operations that the loop is made of. The objects behind the agent's traits act on a world `W`.
pub mod Calls
pub mod Run
pub mod Recovery
pub mod Entry
pub mod View
pub mod Rules
pub mod Transcript
pub mod Rounds
pub mod Outcome
pub mod Outputs
pub mod Answered
pub mod Responses
pub mod Recovered
pub mod Streaming
pub mod Refused
pub mod TurnLoop
use canary_agent.Prelude.{
  ℕ, ◌+◌, ◌%◌, ◌^◌, String, Bool, true, false, Option, none, some, List, [], ◌∷◌, ◌++◌,
  if◌then◌else◌, map, drop,
}
use mathlib.Core.List.{reverse}
use canary_agent.Prelude.Result.{ok, err}
use canary_agent.Kernel.Value.{Value, Fields, object, string, field, end_fields}
use canary_agent.Kernel.Clock.{Clock, Timed, new_id, now_timestamp}
use canary_agent.Kernel.Clock
use canary_agent.Kernel.Events.{
  Thread, Turn, TurnItem, TurnItemSource, TurnItemKind, TurnStatus, TokenUsage, ModelFunctionCall,
  ToolResult, turn_failed, turn_aborted, tool_output, new_item, push_item, turn_mut, add_assign,
  is_zero, saturating_add,
}
use canary_agent.Kernel.Events
use canary_agent.Kernel.Model.{
  FunctionSpec, ModelRequest, ModelResponse, ModelStreamEvent, output_progress, assistant_delta,
  token_usage,
}
use canary_agent.Kernel.Projection.{ThreadProjection, from_thread}
use canary_agent.Runtime.Error.{AgentError, Result, turn_not_found, to_string}
use canary_agent.Runtime.Exec.{Exec, pure, gets, modify, ◌>>=◌, ◌>>◌}
use canary_agent.Runtime.Stream.{
  TurnStreamEvent, TurnStateEvent, TurnModelEvent, TraceEvent, TraceEventKind, RuntimeMetric,
  FunctionRecoveryPolicy, FunctionHookEvent, after_call, function_hook,
}
use canary_agent.Runtime.Stream
use canary_agent.Runtime.Context.{ContextBuildInput, ContextBuildOutput, ThreadContextCache}
use canary_agent.Runtime.Functions.{FunctionContext, FunctionExecution}

pub record TurnExecutionLimits : Type 0 where
  pub max_model_iterations : ℕ
  pub max_function_calls : ℕ

pub record AgentConfig : Type 0 where
  pub allow_empty_response : Bool
  pub agent_id : String
  pub turn_execution_limits : TurnExecutionLimits
  pub system_prompt : String

pub record FunctionCallHookContext : Type 0 where
  pub thread_id : String
  pub turn_id : String
  pub call_id : String
  pub name : String
  pub arguments : Value
  pub projection : ThreadProjection

pub data FunctionCallHookResult : Type 0 where
  completed : Value → FunctionCallHookResult
  suspended : Events.Suspension → Value → FunctionCallHookResult
  failed : String → FunctionCallHookResult

-- `dyn FunctionCallHook`: what a hook emits comes back as a list.
pub record FunctionCallHook (W : Type 0) : Type 0 where
  pub fqn : String
  pub before_call : FunctionCallHookContext → W → Result Unit × List TurnStreamEvent × W
  pub after_call :
      FunctionCallHookContext → FunctionCallHookResult → W → Result Unit × List TurnStreamEvent × W

-- `LeaseFence`, the token that the store is given with a commit.
pub record LeaseFence : Type 0 where
  pub bytes : List ℕ

-- The configuration, and the trait objects by their methods. A step that can be aborted gives
-- `none` when the abort signal comes before its result; `is_cancelled` reads that signal.
pub record Agent (W : Type 0) : Type 0 where
  pub config : AgentConfig
  pub load : String → W → Result Thread × W
  pub compare_and_commit : Thread → LeaseFence → W → Result Thread × W
  pub load_context_cache : String → W → Result (Option ThreadContextCache) × W
  pub save_context_cache : ThreadContextCache → W → Result ThreadContextCache × W
  pub build_context : ContextBuildInput → W → Result ContextBuildOutput × W
  pub stream_complete : ModelRequest → W → Option (Result ModelResponse) × List ModelStreamEvent × W
  pub functions : List FunctionSpec
  pub recovery_policy : String → Result FunctionRecoveryPolicy
  pub call : String → Value → FunctionContext → W → Option (Result FunctionExecution) × W
  pub function_call_hooks : List (FunctionCallHook W)
  pub is_cancelled : W → Bool

-- The world, the process-wide clock, the local variables of a turn that runs, and what it has
-- emitted, traced and measured so far, oldest first.
pub record State (W : Type 0) : Type 0 where
  pub world : W
  pub clock : Clock
  pub thread : Thread
  pub turn_token_usage : TokenUsage
  pub function_call_count : ℕ
  pub trace_sequence : ℕ
  pub events : List TurnStreamEvent
  pub traces : List TraceEvent
  pub metrics : List RuntimeMetric

abbrev pub NewItem : Type 0
NewItem = TurnItemSource × TurnItemKind

unfoldable pub new_items : List NewItem → Timed (List TurnItem)
new_items [] c = ([], c)
new_items ((source, kind) ∷ rest) c =
    let (item, c') = new_item source kind c in
    let (items, c'') = new_items rest c' in (item ∷ items, c'')

unfoldable pub push_all : List TurnItem → Turn → Timed Turn
push_all [] turn c = (turn, c)
push_all (item ∷ items) turn c = let (turn', c') = push_item turn item c in push_all items turn' c'

abbrev pub aborted_by_caller : String
aborted_by_caller = "turn aborted by caller"

abbrev pub output_item : ModelFunctionCall → ToolResult → NewItem
output_item call result = (TurnItemSource.tool, tool_output call.call_id call.name result)

abbrev pub not_recorded : String
not_recorded = "function execution aborted before a result was recorded"

module _ {W : Type 0} where
  abbrev pub emit : TurnStreamEvent → Exec (State W) Unit
  emit e = modify (λ s. record s { events = s.events ++ e ∷ [] })

  abbrev pub emit_state : TurnStateEvent → Exec (State W) Unit
  emit_state e = emit (TurnStreamEvent.state e)

  abbrev pub record_metric : RuntimeMetric → Exec (State W) Unit
  record_metric m = modify (λ s. record s { metrics = s.metrics ++ m ∷ [] })

  unfoldable pub record_trace : String → String → TraceEventKind → Exec (State W) Unit
  record_trace thread_id turn_id kind s =
      let sequence = saturating_add s.trace_sequence 1 in
      let (now, clock) = now_timestamp s.clock in
      (
        ok tt,
        record s {
          clock = clock;
          trace_sequence = sequence;
          traces =
              s.traces
              ++ record {
                thread_id = thread_id;
                turn_id = turn_id;
                sequence = sequence;
                occurred_at = now;
                kind = kind;
              }
                ∷ [];
        },
      )

  unfoldable pub fresh_id : String → Exec (State W) String
  fresh_id prefix s = let (id, clock) = new_id prefix s.clock in (ok id, record s { clock = clock })

  -- a change of the turn with this id
  unfoldable pub on_turn : String → (Turn → Timed Turn) → Exec (State W) Unit
  on_turn turn_id f s = elim (turn_mut turn_id f s.thread.turns s.clock) [
    | none ↦ (err (turn_not_found turn_id), s)
    | some (turns, clock) ↦
        (ok tt, record s { thread = record s.thread { turns = turns }; clock = clock })
  ]

  unfoldable pub push_turn_items : String → List NewItem → Exec (State W) Unit
  unfolding on_turn
  push_turn_items turn_id items s =
      let (made, clock) = new_items items s.clock in
      on_turn turn_id (push_all made) (record s { clock = clock })

  unfoldable pub set_turn_status : String → TurnStatus → Exec (State W) Unit
  unfolding on_turn
  set_turn_status turn_id status = on_turn turn_id (λ t. Events.set_status t status)

  unfoldable pub fail_turn : String → String → Exec (State W) Unit
  fail_turn turn_id error = do
    push_turn_items turn_id ((TurnItemSource.runtime, turn_failed error) ∷ [])
    set_turn_status turn_id TurnStatus.failed

  unfoldable pub abort_turn : String → String → Exec (State W) Unit
  abort_turn turn_id reason = do
    push_turn_items turn_id ((TurnItemSource.runtime, turn_aborted reason) ∷ [])
    set_turn_status turn_id TurnStatus.aborted

  unfoldable pub append_aborted_function_outputs :
      String → List ModelFunctionCall → ℕ → Exec (State W) Unit
  append_aborted_function_outputs turn_id calls first_unfinished = push_turn_items turn_id (
      map (λ call. output_item call (ToolResult.aborted not_recorded))
        (drop first_unfinished calls))

  unfoldable pub apply_turn_token_usage : TokenUsage → Exec (State W) Unit
  apply_turn_token_usage usage s = if is_zero usage then (ok tt, s) else (
    ok tt,
    record s { thread = record s.thread { token_usage = add_assign s.thread.token_usage usage } },
  )

  unfoldable pub emit_turn_token_usage : TokenUsage → Exec (State W) Unit
  emit_turn_token_usage usage =
      if is_zero usage then pure tt else emit_state (TurnStateEvent.turn_token_usage usage)

  -- the model's stream handler; what it measures is durations only
  unfoldable pub handle_stream_event : State W → ModelStreamEvent → State W
  handle_stream_event s output_progress = s
  handle_stream_event s (assistant_delta text) = record s {
    events = s.events ++ TurnStreamEvent.model (TurnModelEvent.assistant_delta text) ∷ [];
  }
  handle_stream_event s (token_usage usage) = record s {
    turn_token_usage = add_assign s.turn_token_usage usage;
  }

  unfoldable pub handle_stream : List ModelStreamEvent → State W → State W
  unfolding handle_stream_event
  handle_stream [] s = s
  handle_stream (e ∷ es) s = handle_stream es (handle_stream_event s e)

  abbrev pub committed : Result Thread → W → Exec (State W) Unit
  committed (ok thread) w s = (ok tt, record s { thread = thread; world = w })
  committed (err e) w s = (err e, record s { world = w })

  -- a step without a result was overtaken by the abort signal
  unfoldable pub or_abort :
      {A : Type 0} → String → Option (Result A) → Exec (State W) (Option (Result A))
  or_abort turn_id (some r) = pure (some r)
  or_abort turn_id none = do abort_turn turn_id aborted_by_caller; pure none

module _ {W : Type 0} (agent : Agent W) where
  -- the thread comes back as the store has it
  unfoldable pub commit_thread : LeaseFence → Exec (State W) Unit
  commit_thread fence s =
      let (r, w) = agent.compare_and_commit s.thread fence s.world in committed r w s

  -- nothing is begun after the abort signal
  unfoldable pub await_step_or_abort :
      {A : Type 0}
      → String
      → Exec (State W) (Option (Result A))
      → Exec (State W) (Option (Result A))
  unfolding or_abort
  await_step_or_abort turn_id step = do
    cancelled ← gets (λ s. agent.is_cancelled s.world)
    if cancelled then or_abort turn_id none else do outcome ← step; or_abort turn_id outcome

  unfoldable pub call_function :
      ModelFunctionCall → FunctionContext → Exec (State W) (Option (Result FunctionExecution))
  call_function call context s =
      let (r, w) = agent.call call.name call.arguments context s.world in
      (ok r, record s { world = w })

  unfoldable pub call_model : ModelRequest → Exec (State W) (Option (Result ModelResponse))
  unfolding handle_stream
  call_model request s =
      let (r, streamed, w) = agent.stream_complete request s.world in
      (ok r, handle_stream streamed (record s { world = w }))
