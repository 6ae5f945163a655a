-- ===== src/Runtime/Agent/Recovery.antt =====
-- `recover_pending_function_calls` and `pending_function_calls` of
-- canary-agent-runtime/src/agent_loop.rs.
use canary_agent.Prelude.{
  ℕ, ◌+◌, ◌-◌, ◌^◌, String, Bool, true, false, Option, none, some, List, [], ◌∷◌, if◌then◌else◌,
  map, ◌==◌, ltb,
}
use canary_agent.Prelude.Result.{ok, err}
use canary_agent.Kernel.Value.{Value, Number, object, string, bool, number, field, end_fields}
use canary_agent.Kernel.Events.{
  TurnItemKind, Turn, Thread, TurnItemSource, ModelFunctionCall, Suspension, SuspensionKind,
  ToolResult, TurnStatus, model_response, tool_output, function_call_started, suspension_created,
}
use canary_agent.Runtime.Error.{Result, to_string}
use canary_agent.Runtime.Exec.{Exec, pure, lift, gets, ◌>>=◌, ◌>>◌}
use canary_agent.Runtime.Stream.{
  TurnOutcome, TurnStateEvent, TraceEventKind, FunctionCallSkipReason, FunctionRecoveryPolicy,
  non_idempotent, function_call_finished, function_call_skipped,
}
use canary_agent.Runtime.Functions.{
  FunctionExecution, completed, suspended_before_execution, suspended_after_execution,
}
use canary_agent.Runtime.Agent.{
  Agent, State, LeaseFence, NewItem, emit_state, record_metric, record_trace, push_turn_items,
  set_turn_status, output_item, append_aborted_function_outputs, aborted_by_caller, fresh_id,
  commit_thread, await_step_or_abort, call_function,
}
use canary_agent.Runtime.Agent.Calls.{function_context, for_each, call_outcome, previous_suspended}

-- the last response that requests calls, with the items behind it
abbrev pub Requests : Type 0
Requests = List ModelFunctionCall × List TurnItemKind

unfoldable pub last_requests : List TurnItemKind → Option Requests
last_requests [] = none
last_requests (model_response c text (call ∷ calls) ∷ ks) = elim (last_requests ks) [
  | some r ↦ some r
  | none ↦ some (call ∷ calls, ks)
]
last_requests (_ ∷ ks) = last_requests ks

-- `started.get(call_id)`: the attempt that was recorded last
unfoldable pub started_attempt : String → List TurnItemKind → Option ℕ
started_attempt id [] = none
started_attempt id (function_call_started call_id name attempt ∷ ks) =
    elim (started_attempt id ks) [
      | some a ↦ some a
      | none ↦ if call_id == id then some attempt else none
    ]
started_attempt id (_ ∷ ks) = started_attempt id ks

-- `completed.contains(call_id)`
unfoldable pub is_completed : String → List TurnItemKind → Bool
is_completed id [] = false
is_completed id (tool_output call_id name result ∷ ks) =
    if call_id == id then true else is_completed id ks
is_completed id (_ ∷ ks) = is_completed id ks

abbrev pub PendingCall : Type 0
PendingCall = ModelFunctionCall × Option ℕ

unfoldable pub without_output : List TurnItemKind → List ModelFunctionCall → List PendingCall
unfolding is_completed started_attempt
without_output ks [] = []
without_output ks (call ∷ calls) =
    let rest = without_output ks calls in
    if is_completed call.call_id ks then rest else (call, started_attempt call.call_id ks) ∷ rest

unfoldable pub pending_in : Option Requests → List PendingCall
unfolding without_output
pending_in none = []
pending_in (some (calls, ks)) = without_output ks calls

-- `turns.iter().find(...)`
unfoldable pub find_turn : String → List Turn → Option Turn
find_turn id [] = none
find_turn id (t ∷ ts) = if t.id == id then some t else find_turn id ts

abbrev pub kinds : Turn → List TurnItemKind
kinds t = map (λ i. i.kind) t.items

unfoldable pub pending_function_calls : Thread → String → List PendingCall
unfolding pending_in last_requests find_turn
pending_function_calls thread turn_id = elim (find_turn turn_id thread.turns) [
  | none ↦ []
  | some t ↦ pending_in (last_requests (kinds t))
]

-- `started_attempt.unwrap_or(0).saturating_add(1)` on `u32`
unfoldable pub next_attempt : Option ℕ → ℕ
next_attempt none = 1
next_attempt (some a) = if ltb (2 ^ 32 - 1) (a + 1) then 2 ^ 32 - 1 else a + 1

unfoldable pub needs_reconciliation : Option ℕ → FunctionRecoveryPolicy → Bool
needs_reconciliation (some a) non_idempotent = true
needs_reconciliation _ _ = false

abbrev recovery_payload : ModelFunctionCall → ℕ → Value
recovery_payload call attempt = object (
    field "attempt" (number (Number.pos_int attempt)) (
      field "call_id" (string call.call_id) (
        field "deferred" (bool true) (
          field "name" (string call.name) (
            field "reason" (string "function started but no terminal output was recorded")
              (field "recovery" (bool true) end_fields))))))

module _ {W : Type 0} (agent : Agent W) (fence : LeaseFence) (thread_id turn_id : String) where
  abbrev trace : TraceEventKind → Exec (State W) Unit
  trace = record_trace thread_id turn_id

  abbrev suspension_for : ModelFunctionCall → ℕ → String → Suspension
  suspension_for call attempt id = record {
    id = id;
    kind = SuspensionKind.function_recovery;
    payload = recovery_payload call attempt;
  }

  -- the call started and left no output, and may not be repeated
  unfoldable pub suspend_for_recovery : Suspension → Exec (State W) (Option TurnOutcome)
  suspend_for_recovery suspension = do
    push_turn_items turn_id ((TurnItemSource.runtime, suspension_created suspension) ∷ [])
    set_turn_status turn_id TurnStatus.suspended
    commit_thread agent fence
    trace (TraceEventKind.suspension_created suspension)
    emit_state (TurnStateEvent.suspended suspension)
    pure (some (TurnOutcome.suspended suspension))

  abbrev pub call_of : PendingCall → ModelFunctionCall
  call_of p = p.0

  unfoldable pub skip_aborted : PendingCall → Exec (State W) Unit
  skip_aborted p =
      record_metric (function_call_skipped p.0.name FunctionCallSkipReason.turn_aborted)

  unfoldable pub skipped_output : PendingCall → NewItem
  skipped_output p = output_item p.0 (ToolResult.error previous_suspended)

  unfoldable pub suspend_recovered :
      Suspension → List PendingCall → Exec (State W) (Option TurnOutcome)
  unfolding skipped_output
  suspend_recovered suspension rest = do
    push_turn_items turn_id
        ((TurnItemSource.runtime, suspension_created suspension) ∷ map skipped_output rest)
    set_turn_status turn_id TurnStatus.suspended
    commit_thread agent fence
    trace (TraceEventKind.suspension_created suspension)
    emit_state (TurnStateEvent.suspended suspension)
    pure (some (TurnOutcome.suspended suspension))

  -- `match execution`; `some` outcome ends the turn
  unfoldable pub settle_recovered :
      ModelFunctionCall
      → List PendingCall
      → Option (Result FunctionExecution)
      → Exec (State W) (Option TurnOutcome)
  unfolding skip_aborted suspend_recovered for_each
  settle_recovered call rest none = do
    for_each rest skip_aborted
    append_aborted_function_outputs turn_id (call ∷ map call_of rest) 0
    commit_thread agent fence
    pure (some (TurnOutcome.aborted aborted_by_caller))
  settle_recovered call rest (some (ok (completed output))) = do
    push_turn_items turn_id (output_item call (ToolResult.success output) ∷ [])
    commit_thread agent fence
    trace (TraceEventKind.tool_output call.call_id call.name (ToolResult.success output))
    emit_state (TurnStateEvent.function_completed call.call_id call.name)
    pure none
  settle_recovered call rest (some (ok (suspended_before_execution suspension))) =
      suspend_recovered suspension rest
  settle_recovered call rest (some (ok (suspended_after_execution suspension output))) =
      suspend_recovered suspension rest
  settle_recovered call rest (some (err e)) = do
    push_turn_items turn_id (output_item call (ToolResult.error (to_string e)) ∷ [])
    commit_thread agent fence
    emit_state (TurnStateEvent.function_failed call.call_id call.name (to_string e))
    pure none

  -- the call is run, for the first time or once more
  unfoldable pub rerun :
      ModelFunctionCall → ℕ → List PendingCall → Exec (State W) (Option TurnOutcome)
  unfolding settle_recovered
  rerun call attempt rest = do
    push_turn_items turn_id
        ((TurnItemSource.runtime, function_call_started call.call_id call.name attempt) ∷ [])
    commit_thread agent fence
    emit_state (TurnStateEvent.function_started call.call_id call.name)
    trace (TraceEventKind.function_call call.call_id call.name call.arguments)
    context ← gets (function_context agent fence thread_id turn_id call)
    execution ← await_step_or_abort agent turn_id (call_function agent call context)
    record_metric (function_call_finished call.name (call_outcome execution))
    settle_recovered call rest execution

  -- one round of the loop over the pending calls
  unfoldable pub recover_call : PendingCall → List PendingCall → Exec (State W) (Option TurnOutcome)
  unfolding suspend_for_recovery rerun next_attempt needs_reconciliation
  recover_call (call, started) rest = do
    let attempt = next_attempt started
    policy ← lift (agent.recovery_policy call.name)
    trace (TraceEventKind.recovery_started call.call_id call.name attempt policy)
    if needs_reconciliation started policy
        then (do id ← fresh_id "suspension"; suspend_for_recovery (suspension_for call attempt id))
        else rerun call attempt rest

  unfoldable pub recover_calls : List PendingCall → Exec (State W) (Option TurnOutcome)
  recover_calls [] = pure none
  recover_calls (p ∷ rest) = do
    outcome ← recover_call p rest
    elim outcome [ some o ↦ pure (some o) | none ↦ recover_calls rest ]

  unfoldable pub recover_pending_function_calls : Exec (State W) (Option TurnOutcome)
  unfolding recover_call recover_calls pending_function_calls
  recover_pending_function_calls = do
    pending ← gets (λ s. pending_function_calls s.thread turn_id)
    recover_calls pending
