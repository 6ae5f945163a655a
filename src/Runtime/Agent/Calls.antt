-- ===== src/Runtime/Agent/Calls.antt =====
-- The loop over the function calls of one model response, in `run_turn_internal` of
-- canary-agent-runtime/src/agent_loop.rs.
use canary_agent.Prelude.{
  ℕ, zero, suc, ◌+◌, ◌-◌, min, String, Option, none, some, List, [], ◌∷◌, ◌++◌, if◌then◌else◌, map,
  drop, length, ltb, concat,
}
use mathlib.Core.List.{reverse}
use canary_agent.Prelude.Result.{ok, err}
use canary_agent.Kernel.Value.{object, string, field, end_fields}
use canary_agent.Kernel.Events.{
  TurnItemSource, ModelFunctionCall, ToolResult, TurnStatus, function_call_started,
  suspension_created,
}
use canary_agent.Kernel.Projection.{from_thread}
use canary_agent.Runtime.Error.{AgentError, Result, to_string, max_function_calls}
use canary_agent.Runtime.Exec.{Exec, pure, gets, modify, ◌>>=◌, ◌>>◌}
use canary_agent.Runtime.Stream.{
  TurnOutcome, TurnStreamEvent, TurnStateEvent, TraceEventKind, FunctionCallOutcome,
  FunctionCallSkipReason, FunctionHookPhase, function_call_finished, function_call_skipped,
}
use canary_agent.Runtime.Functions.{
  FunctionContext, FunctionExecution, completed, suspended_before_execution,
  suspended_after_execution,
}
use canary_agent.Runtime.Agent.{
  Agent, State, LeaseFence, NewItem, FunctionCallHook, FunctionCallHookContext,
  FunctionCallHookResult, emit_state, record_metric, record_trace, push_turn_items, set_turn_status,
  fail_turn, output_item, append_aborted_function_outputs, aborted_by_caller, commit_thread,
  await_step_or_abort, call_function,
}

abbrev pub previous_suspended : String
previous_suspended = "function not executed because a previous function suspended the turn"

unfoldable pub call_outcome : Option (Result FunctionExecution) → FunctionCallOutcome
call_outcome none = FunctionCallOutcome.aborted
call_outcome (some (ok (completed _))) = FunctionCallOutcome.completed
call_outcome (some (ok _)) = FunctionCallOutcome.suspended
call_outcome (some (err _)) = FunctionCallOutcome.failed

abbrev post_hook_failed : String → FunctionCallHookContext → AgentError → TurnStreamEvent
post_hook_failed fqn context e = TurnStreamEvent.function_hook (record {
  phase = FunctionHookPhase.after_call;
  hook_fqn = fqn;
  call_id = context.call_id;
  name = context.name;
  message = "post-hook failed";
  metadata = object (
      field "call_id" (string context.call_id)
        (field "error" (string (to_string e)) (field "name" (string context.name) end_fields)));
})

abbrev post_hook_report : String → FunctionCallHookContext → Result Unit → List TurnStreamEvent
post_hook_report fqn context (ok _) = []
post_hook_report fqn context (err e) = post_hook_failed fqn context e ∷ []

abbrev failure : Result Unit → Option AgentError
failure (ok _) = none
failure (err e) = some e

module _ {W : Type 0} where
  -- a loop whose body only reports
  unfoldable pub for_each : {A : Type 0} → List A → (A → Exec (State W) Unit) → Exec (State W) Unit
  for_each [] f = pure tt
  for_each (x ∷ xs) f = do f x; for_each xs f

  unfoldable pub before_hook :
      FunctionCallHook W → FunctionCallHookContext → Exec (State W) (Option AgentError)
  before_hook hook context s =
      let (r, emitted, w) = hook.before_call context s.world in
      (ok (failure r), record s { world = w; events = s.events ++ emitted })

  -- the hooks whose `before_call` passed, in order, and the error that stopped the rest
  unfoldable pub run_before_function_call_hooks :
      List (FunctionCallHook W)
      → FunctionCallHookContext
      → Exec (State W) (List (FunctionCallHook W) × Option AgentError)
  unfolding before_hook
  run_before_function_call_hooks [] context = pure ([], none)
  run_before_function_call_hooks (hook ∷ hooks) context = do
    failed ← before_hook hook context
    elim failed [
      | some e ↦ pure ([], some e)
      | none ↦ (do
        rest ← run_before_function_call_hooks hooks context
        pure (hook ∷ rest.0, rest.1))
    ]

  -- An error of a hook is reported and goes no further.
  unfoldable pub after_hook :
      FunctionCallHook W → FunctionCallHookContext → FunctionCallHookResult → State W → State W
  after_hook hook context result s =
      let (r, emitted, w) = hook.after_call context result s.world in
      record s { world = w; events = (s.events ++ emitted) ++ post_hook_report hook.fqn context r }

  unfoldable pub after_hooks :
      List (FunctionCallHook W)
      → FunctionCallHookContext
      → FunctionCallHookResult
      → Exec (State W) Unit
  unfolding after_hook
  after_hooks [] context result s = (ok tt, s)
  after_hooks (hook ∷ hooks) context result s =
      after_hooks hooks context result (after_hook hook context result s)

  -- the hooks that were entered, last one first
  unfoldable pub run_after_function_call_hooks :
      List (FunctionCallHook W)
      → FunctionCallHookContext
      → FunctionCallHookResult
      → Exec (State W) Unit
  unfolding after_hooks
  run_after_function_call_hooks entered = after_hooks (reverse entered)

module _ {W : Type 0} (agent : Agent W) (fence : LeaseFence) (thread_id turn_id : String) where
  abbrev commit : Exec (State W) Unit
  commit = commit_thread agent fence

  abbrev trace : TraceEventKind → Exec (State W) Unit
  trace = record_trace thread_id turn_id

  abbrev hook_context : ModelFunctionCall → State W → FunctionCallHookContext
  hook_context call s = record {
    thread_id = s.thread.id;
    turn_id = turn_id;
    call_id = call.call_id;
    name = call.name;
    arguments = call.arguments;
    projection = from_thread s.thread;
  }

  abbrev refreshed : FunctionCallHookContext → State W → FunctionCallHookContext
  refreshed context s = record context { projection = from_thread s.thread }

  abbrev pub function_context : ModelFunctionCall → State W → FunctionContext
  function_context call s = record {
    thread_id = s.thread.id;
    metadata = s.thread.metadata;
    turn_id = turn_id;
    call_id = call.call_id;
    projection = from_thread s.thread;
  }

  -- the call itself, unless a hook refused it
  unfoldable pub start_call :
      ModelFunctionCall → Option AgentError → Exec (State W) (Option (Result FunctionExecution))
  start_call call (some e) = pure (some (err e))
  start_call call none = do
    push_turn_items turn_id
        ((TurnItemSource.runtime, function_call_started call.call_id call.name 1) ∷ [])
    commit
    context ← gets (function_context call)
    await_step_or_abort agent turn_id (call_function agent call context)

  unfoldable pub skip_metric : FunctionCallSkipReason → ModelFunctionCall → Exec (State W) Unit
  skip_metric reason call = record_metric (function_call_skipped call.name reason)

  -- The calls behind a suspended one get an error for their output.
  abbrev suspended_rest : List ModelFunctionCall → List NewItem
  suspended_rest = map (λ call. output_item call (ToolResult.error previous_suspended))

  unfoldable pub trace_skipped : String → ModelFunctionCall → Exec (State W) Unit
  trace_skipped error call =
      trace (TraceEventKind.tool_output call.call_id call.name (ToolResult.error error))

  unfoldable pub emit_skipped : String → ModelFunctionCall → Exec (State W) Unit
  emit_skipped error call = emit_state (TurnStateEvent.function_failed call.call_id call.name error)

  abbrev trace_output : ModelFunctionCall → ToolResult → Exec (State W) Unit
  trace_output call result = trace (TraceEventKind.tool_output call.call_id call.name result)

  unfoldable pub finish_hooks :
      List (FunctionCallHook W)
      → FunctionCallHookContext
      → FunctionCallHookResult
      → Exec (State W) Unit
  unfolding run_after_function_call_hooks
  finish_hooks entered context result = do
    now ← gets (refreshed context)
    run_after_function_call_hooks entered now result

  -- `match execution`; `some` outcome breaks out of the turn
  unfoldable pub settle_call :
      ModelFunctionCall
      → List ModelFunctionCall
      → List (FunctionCallHook W)
      → FunctionCallHookContext
      → Option (Result FunctionExecution)
      → Exec (State W) (Option TurnOutcome)
  unfolding skip_metric trace_skipped emit_skipped finish_hooks for_each
  settle_call call rest entered context none = do
    for_each rest (skip_metric FunctionCallSkipReason.turn_aborted)
    append_aborted_function_outputs turn_id (call ∷ rest) 0
    pure (some (TurnOutcome.aborted aborted_by_caller))
  settle_call call rest entered context (some (ok (completed output))) = do
    push_turn_items turn_id (output_item call (ToolResult.success output) ∷ [])
    commit
    trace_output call (ToolResult.success output)
    finish_hooks entered context (FunctionCallHookResult.completed output)
    emit_state (TurnStateEvent.function_completed call.call_id call.name)
    pure none
  settle_call call rest entered context (some (ok (suspended_before_execution suspension))) = do
    for_each rest (skip_metric FunctionCallSkipReason.previous_function_suspended)
    push_turn_items turn_id
        ((TurnItemSource.runtime, suspension_created suspension) ∷ suspended_rest rest)
    set_turn_status turn_id TurnStatus.suspended
    commit
    trace (TraceEventKind.suspension_created suspension)
    for_each rest (trace_skipped previous_suspended)
    emit_state (TurnStateEvent.suspended suspension)
    for_each rest (emit_skipped previous_suspended)
    pure (some (TurnOutcome.suspended suspension))
  settle_call call rest entered context (some (ok (suspended_after_execution suspension output))) =
      do
        for_each rest (skip_metric FunctionCallSkipReason.previous_function_suspended)
        push_turn_items turn_id (
            output_item call (ToolResult.success output)
            ∷ (TurnItemSource.runtime, suspension_created suspension)
            ∷ suspended_rest rest)
        set_turn_status turn_id TurnStatus.suspended
        commit
        trace (TraceEventKind.suspension_created suspension)
        trace_output call (ToolResult.success output)
        for_each rest (trace_skipped previous_suspended)
        finish_hooks entered context (FunctionCallHookResult.suspended suspension output)
        emit_state (TurnStateEvent.function_completed call.call_id call.name)
        emit_state (TurnStateEvent.suspended suspension)
        for_each rest (emit_skipped previous_suspended)
        pure (some (TurnOutcome.suspended suspension))
  settle_call call rest entered context (some (err e)) = do
    push_turn_items turn_id (output_item call (ToolResult.error (to_string e)) ∷ [])
    commit
    trace_output call (ToolResult.error (to_string e))
    finish_hooks entered context (FunctionCallHookResult.failed (to_string e))
    emit_state (TurnStateEvent.function_failed call.call_id call.name (to_string e))
    pure none

  -- one round of the loop; `rest` is `calls.iter().skip(call_index + 1)`
  unfoldable pub execute_call :
      ModelFunctionCall → List ModelFunctionCall → Exec (State W) (Option TurnOutcome)
  unfolding start_call settle_call run_before_function_call_hooks
  execute_call call rest = do
    emit_state (TurnStateEvent.function_started call.call_id call.name)
    trace (TraceEventKind.function_call call.call_id call.name call.arguments)
    context ← gets (hook_context call)
    hooks ← run_before_function_call_hooks agent.function_call_hooks context
    execution ← start_call call hooks.1
    record_metric (function_call_finished call.name (call_outcome execution))
    settle_call call rest hooks.0 context execution

  -- the first `n` calls, up to one that breaks out
  unfoldable pub execute_calls : ℕ → List ModelFunctionCall → Exec (State W) (Option TurnOutcome)
  execute_calls zero calls = pure none
  execute_calls (suc n) [] = pure none
  execute_calls (suc n) (call ∷ rest) = do
    outcome ← execute_call call rest
    elim outcome [ some o ↦ pure (some o) | none ↦ execute_calls n rest ]

  -- the calls past the turn's limit
  unfoldable pub refuse_calls : List ModelFunctionCall → Exec (State W) (Option TurnOutcome)
  unfolding skip_metric trace_skipped emit_skipped for_each
  refuse_calls skipped = do
    let error = to_string (max_function_calls agent.config.turn_execution_limits.max_function_calls)
    let skipped_error = concat ("function call not executed because " ∷ error ∷ [])
    for_each skipped (skip_metric FunctionCallSkipReason.max_calls_per_turn)
    push_turn_items turn_id
        (map (λ call. output_item call (ToolResult.error skipped_error)) skipped)
    fail_turn turn_id error
    commit
    for_each skipped (λ call. do trace_skipped skipped_error call; emit_skipped skipped_error call)
    pure (some (TurnOutcome.failed error))

  abbrev pub after_calls :
      ℕ → List ModelFunctionCall → Option TurnOutcome → Exec (State W) (Option TurnOutcome)
  after_calls admitted calls (some o) = pure (some o)
  after_calls admitted calls none =
      if ltb admitted (length calls) then refuse_calls (drop admitted calls) else pure none

  abbrev pub admitted_count : List ModelFunctionCall → State W → ℕ
  admitted_count calls s =
      min (length calls)
        (agent.config.turn_execution_limits.max_function_calls - s.function_call_count)

  -- the calls that a response asks for
  unfoldable pub run_calls : List ModelFunctionCall → Exec (State W) (Option TurnOutcome)
  unfolding execute_call execute_calls refuse_calls
  run_calls calls = do
    admitted ← gets (admitted_count calls)
    modify (λ s. record s { function_call_count = s.function_call_count + admitted })
    outcome ← execute_calls admitted calls
    after_calls admitted calls outcome
