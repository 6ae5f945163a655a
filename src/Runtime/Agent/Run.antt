-- ===== src/Runtime/Agent/Run.antt =====
-- `run_turn_internal` of canary-agent-runtime/src/agent_loop.rs.
use canary_agent.Prelude.{
  ℕ, zero, suc, ◌+◌, String, Bool, true, false, Option, none, some, List, [], ◌∷◌, ◌++◌,
  if◌then◌else◌, not, ◌&&◌, is_empty, ◌==◌,
}
use mathlib.Core.Option.{get_or}
use canary_agent.Prelude.Result.{ok, err}
use canary_agent.Kernel.Value.{Value}
use canary_agent.Kernel.Events.{
  Thread, TurnItemSource, ModelFunctionCall, ModelContinuation, TurnStatus, user_input,
  model_response, new_thread, new_turn, new_item, push_item, no_usage,
}
use canary_agent.Kernel.Model.{
  ModelRequest, ModelResponse, assistant, assistant_message, function_calls,
}
use canary_agent.Kernel.Projection.{from_thread}
use canary_agent.Runtime.Error.{
  Result, to_string, thread_not_found, suspended_turn, turn_not_found, max_iterations,
}
use canary_agent.Runtime.Exec.{Exec, pure, raise, gets, modify, ◌>>=◌, ◌>>◌}
use canary_agent.Runtime.Stream.{
  TurnOutcome, TurnStreamEvent, TurnStateEvent, TurnModelEvent, TraceEventKind, TraceTurnStatus,
  MetricStatus, model_request_finished, turn_finished, token_usage,
}
use canary_agent.Runtime.Context.{ContextBuildOutput, ThreadContextCache}
use canary_agent.Runtime.Agent.{
  Agent, State, LeaseFence, emit, emit_state, record_metric, record_trace, push_turn_items,
  set_turn_status, fail_turn, aborted_by_caller, commit_thread, await_step_or_abort, call_model,
  apply_turn_token_usage, emit_turn_token_usage,
}
use canary_agent.Runtime.Agent.Calls.{run_calls}
use canary_agent.Runtime.Agent.Recovery.{recover_pending_function_calls}

abbrev pub no_response : String
no_response = "model returned neither assistant text nor function calls"

unfoldable pub response_status : Option (Result ModelResponse) → MetricStatus
response_status none = MetricStatus.aborted
response_status (some (ok _)) = MetricStatus.completed
response_status (some (err _)) = MetricStatus.failed

-- an `Assistant` response, which the two older forms are normalised to
pub record Assistant : Type 0 where
  pub continuation : Option ModelContinuation
  pub text : Option String
  pub function_calls : List ModelFunctionCall

unfoldable pub normalize : ModelResponse → Assistant
normalize (assistant_message text) = record {
  continuation = none;
  text = some text;
  function_calls = [];
}
normalize (function_calls calls) = record {
  continuation = none;
  text = none;
  function_calls = calls;
}
normalize (assistant continuation text calls) = record {
  continuation = continuation;
  text = text;
  function_calls = calls;
}

abbrev blank : Option String → Bool
blank none = true
blank (some text) = text == ""

unfoldable pub is_blank : Assistant → Bool
is_blank r = blank r.text && is_empty r.function_calls

unfoldable pub trace_status : TurnOutcome → TraceTurnStatus
trace_status (TurnOutcome.assistant_message _) = TraceTurnStatus.completed
trace_status TurnOutcome.completed_without_message = TraceTurnStatus.completed
trace_status (TurnOutcome.suspended _) = TraceTurnStatus.suspended
trace_status (TurnOutcome.failed _) = TraceTurnStatus.failed
trace_status (TurnOutcome.aborted _) = TraceTurnStatus.aborted

unfoldable pub metric_status : TurnOutcome → MetricStatus
metric_status (TurnOutcome.assistant_message _) = MetricStatus.completed
metric_status TurnOutcome.completed_without_message = MetricStatus.completed
metric_status (TurnOutcome.suspended _) = MetricStatus.suspended
metric_status (TurnOutcome.failed _) = MetricStatus.failed
metric_status (TurnOutcome.aborted _) = MetricStatus.aborted

module _ {W : Type 0} (agent : Agent W) (fence : LeaseFence) (thread_id : String) where
  abbrev commit : Exec (State W) Unit
  commit = commit_thread agent fence

  unfoldable pub with_metadata : Thread → Option Value → Thread
  with_metadata thread none = thread
  with_metadata thread (some metadata) = record thread { metadata = metadata }

  -- only an error that says that there is no such thread makes a new one
  unfoldable pub or_new : Option Value → Result Thread → Exec (State W) Unit
  unfolding with_metadata
  or_new metadata (ok thread) s = (ok tt, record s { thread = thread })
  or_new metadata (err (thread_not_found _)) s =
      let (thread, clock) = new_thread thread_id s.clock in
      (ok tt, record s { thread = with_metadata thread metadata; clock = clock })
  or_new metadata (err e) s = (err e, s)

  -- the thread from the store, or a new one with the metadata
  unfoldable pub load_thread : Option Value → Exec (State W) Unit
  unfolding or_new
  load_thread metadata s =
      let (r, w) = agent.load thread_id s.world in or_new metadata r (record s { world = w })

  -- `if let Some(pending) = ...pending_suspension { return Err(...) }`
  unfoldable pub refuse_if_suspended : Exec (State W) Unit
  refuse_if_suspended s = elim (from_thread s.thread).pending_suspension [
    | none ↦ (ok tt, s)
    | some p ↦ (err (suspended_turn thread_id p.suspension.id), s)
  ]

  -- a turn with the user's input, at the end of the thread
  unfoldable pub add_turn : String → Exec (State W) String
  add_turn text s =
      let (turn, c1) = new_turn s.clock in
      let (item, c2) = new_item TurnItemSource.user (user_input text none) c1 in
      let (turn', c3) = push_item turn item c2 in
      (
        ok turn.id,
        record s { thread = record s.thread { turns = s.thread.turns ++ turn' ∷ [] }; clock = c3 },
      )

  -- the turn that is run: a new one for an input, else the one that was left running
  unfoldable pub begin_turn : Option String → Exec (State W) String
  unfolding refuse_if_suspended add_turn
  begin_turn (some text) = do
    refuse_if_suspended
    turn_id ← add_turn text
    commit
    record_trace thread_id turn_id (TraceEventKind.user_input text none)
    pure turn_id
  begin_turn none = do
    refuse_if_suspended
    active ← gets (λ s. (from_thread s.thread).active_turn_id)
    elim active [ none ↦ raise (turn_not_found thread_id) | some turn_id ↦ pure turn_id ]

  unfoldable pub load_cache : Exec (State W) (Option ThreadContextCache)
  load_cache s =
      let (r, w) = agent.load_context_cache thread_id s.world in (r, record s { world = w })

  unfoldable pub build_context : Option ThreadContextCache → Exec (State W) ContextBuildOutput
  build_context cached s =
      let (r, w) =
        agent.build_context
          (record {
            thread_id = thread_id;
            thread_revision = s.thread.revision;
            projection = from_thread s.thread;
            system_prompt = agent.config.system_prompt;
            cached_context = cached;
          })
          s.world in
      (r, record s { world = w })

  unfoldable pub save_cache : Option ThreadContextCache → Exec (State W) Unit
  save_cache none s = (ok tt, s)
  save_cache (some cache) s =
      let (r, w) = agent.save_context_cache cache s.world in
      (elim r [ ok _ ↦ ok tt | err e ↦ err e ], record s { world = w })

  -- the cache, the context and the request that it makes
  unfoldable pub model_request : Exec (State W) ModelRequest
  unfolding load_cache build_context save_cache
  model_request = do
    cached ← load_cache
    context ← build_context cached
    save_cache context.cache
    pure (record { messages = context.messages; functions = agent.functions })

  abbrev pub stop : String → String → Exec (State W) (Option TurnOutcome)
  stop turn_id error = do fail_turn turn_id error; pure (some (TurnOutcome.failed error))

  -- a response with no calls ends the turn
  unfoldable pub complete_turn : String → Assistant → Exec (State W) (Option TurnOutcome)
  complete_turn turn_id r = do
    set_turn_status turn_id TurnStatus.completed
    commit
    record_trace thread_id turn_id (TraceEventKind.model_response r.text r.function_calls)
    pure (
        some (
          if is_blank r
          then TurnOutcome.completed_without_message
          else TurnOutcome.assistant_message (get_or r.text "")))

  unfoldable pub request_calls : String → Assistant → Exec (State W) (Option TurnOutcome)
  request_calls turn_id r = do
    emit_state (TurnStateEvent.function_calls_requested r.function_calls)
    commit
    record_trace thread_id turn_id (TraceEventKind.model_response r.text r.function_calls)
    run_calls agent fence thread_id turn_id r.function_calls

  unfoldable pub accept_response : String → Assistant → Exec (State W) (Option TurnOutcome)
  unfolding complete_turn request_calls is_blank
  accept_response turn_id r =
      if is_blank r && not agent.config.allow_empty_response then stop turn_id no_response else do
        emit (TurnStreamEvent.model (TurnModelEvent.assistant_response r.text r.function_calls))
        push_turn_items turn_id
            ((TurnItemSource.model, model_response r.continuation r.text r.function_calls) ∷ [])
        if is_empty r.function_calls then complete_turn turn_id r else request_calls turn_id r

  unfoldable pub settle_response :
      String → Option (Result ModelResponse) → Exec (State W) (Option TurnOutcome)
  unfolding accept_response normalize
  settle_response turn_id none = pure (some (TurnOutcome.aborted aborted_by_caller))
  settle_response turn_id (some (err e)) = stop turn_id (to_string e)
  settle_response turn_id (some (ok r)) = accept_response turn_id (normalize r)

  -- one round of the turn loop; `some` outcome breaks out
  unfoldable pub iterate : String → ℕ → Exec (State W) (Option TurnOutcome)
  unfolding model_request settle_response response_status
  iterate turn_id iteration = do
    request ← model_request
    emit (TurnStreamEvent.model (TurnModelEvent.request_started iteration))
    response ← await_step_or_abort agent turn_id (call_model agent request)
    record_metric (model_request_finished (response_status response))
    settle_response turn_id response

  unfoldable pub out_of_iterations : String → Exec (State W) TurnOutcome
  out_of_iterations turn_id = do
    let error = to_string (max_iterations agent.config.turn_execution_limits.max_model_iterations)
    fail_turn turn_id error
    pure (TurnOutcome.failed error)

  -- the rounds that are left, the number of the next one, and the failure behind the last
  unfoldable pub turn_loop : String → ℕ → ℕ → Exec (State W) TurnOutcome
  unfolding out_of_iterations
  turn_loop turn_id zero iteration = out_of_iterations turn_id
  turn_loop turn_id (suc left) iteration = do
    outcome ← iterate turn_id iteration
    elim outcome [ some o ↦ pure o | none ↦ turn_loop turn_id left (iteration + 1) ]

  abbrev from_recovery : String → Option TurnOutcome → Exec (State W) TurnOutcome
  from_recovery turn_id (some o) = pure o
  from_recovery turn_id none =
      turn_loop turn_id agent.config.turn_execution_limits.max_model_iterations 0

  -- `'turn_loop: { ... }`
  unfoldable pub drive : String → Bool → Exec (State W) TurnOutcome
  unfolding turn_loop iterate recover_pending_function_calls
  drive turn_id false = from_recovery turn_id none
  drive turn_id true = do
    id ← gets (λ s. s.thread.id)
    outcome ← recover_pending_function_calls agent fence id turn_id
    from_recovery turn_id outcome

  unfoldable pub report_outcome : TurnOutcome → Exec (State W) Unit
  report_outcome (TurnOutcome.failed e) = emit_state (TurnStateEvent.turn_failed e)
  report_outcome (TurnOutcome.aborted reason) = emit_state (TurnStateEvent.turn_aborted reason)
  report_outcome _ = pure tt

  -- what follows the loop
  unfoldable pub finish_turn : String → TurnOutcome → Exec (State W) TurnOutcome
  unfolding report_outcome trace_status metric_status
  finish_turn turn_id outcome = do
    usage ← gets (λ s. s.turn_token_usage)
    apply_turn_token_usage usage
    record_metric (token_usage usage)
    commit
    count ← gets (λ s. s.function_call_count)
    record_metric (turn_finished (metric_status outcome) count)
    record_trace thread_id turn_id (TraceEventKind.turn_finished (trace_status outcome))
    report_outcome outcome
    emit_turn_token_usage usage
    emit_state (TurnStateEvent.turn_finished outcome)
    pure outcome

  -- the local variables at the start
  abbrev reset : ℕ → State W → State W
  reset sequence s = record s {
    turn_token_usage = no_usage;
    function_call_count = 0;
    trace_sequence = sequence;
  }

  abbrev is_none : Option String → Bool
  is_none none = true
  is_none (some _) = false

  unfoldable pub run_turn_internal : Option String → Option Value → ℕ → Exec (State W) TurnOutcome
  unfolding load_thread begin_turn drive finish_turn
  run_turn_internal user_text metadata sequence = do
    modify (reset sequence)
    load_thread metadata
    turn_id ← begin_turn user_text
    emit_state (TurnStateEvent.turn_started thread_id turn_id)
    outcome ← drive turn_id (is_none user_text)
    finish_turn turn_id outcome
