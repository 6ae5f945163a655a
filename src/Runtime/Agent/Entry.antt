-- ===== src/Runtime/Agent/Entry.antt =====
-- The ways into a turn, in canary-agent-runtime/src/agent_loop.rs: `run_turn`, `recover_turn` and
-- `resume_suspended_turn`, from where the turn is registered as active and its session lease is held.
use canary_agent.Prelude.{
  ℕ, ◌+◌, ◌%◌, ◌^◌, String, Bool, false, Option, none, some, List, [], ◌∷◌, if◌then◌else◌, ◌==◌,
  concat,
}
use mathlib.Core.Option
use canary_agent.Prelude.Result.{ok, err, ok_or}
use canary_agent.Kernel.Value.{Value, get, as_bool, as_str, as_u64}
use canary_agent.Kernel.Events.{
  Thread, TurnItemSource, TurnItemKind, TurnStatus, ModelFunctionCall, Suspension, ToolResult,
  user_input, model_response, function_call_started,
}
use canary_agent.Kernel.Projection.{PendingSuspension, from_thread}
use canary_agent.Runtime.Error.{AgentError, Result, to_string, turn_not_found, function_error}
use canary_agent.Runtime.Exec.{Exec, pure, raise, lift, gets, ◌>>=◌, ◌>>◌}
use canary_agent.Runtime.Stream.{TurnOutcome, TurnStateEvent}
use canary_agent.Runtime.Functions.{
  FunctionExecution, completed, suspended_before_execution, suspended_after_execution,
  SuspensionResolution, approve, deny, external_result,
}
use canary_agent.Runtime.Agent.{
  Agent, State, LeaseFence, emit_state, push_turn_items, set_turn_status, output_item, not_recorded,
  aborted_by_caller, commit_thread, await_step_or_abort, call_function,
}
use canary_agent.Runtime.Agent.Calls.{function_context}
use canary_agent.Runtime.Agent.Recovery.{find_turn, kinds}
use canary_agent.Runtime.Agent.Run.{run_turn_internal}

abbrev pub resume_name : String
resume_name = "resume_suspended_turn"

abbrev pub refusal : String → AgentError
refusal message = function_error resume_name message

unfoldable pub is_deferred : Suspension → Bool
is_deferred s = Option.get_or (Option.bind (get s.payload "deferred") as_bool) false

unfoldable pub suspended_call_id : Suspension → Option String
suspended_call_id s = Option.bind (get s.payload "call_id") as_str

-- `...unwrap_or(1) as u32 + 1`; the cast keeps the low 32 bits. The sum is not wrapped: it
-- overflows for one value, where a release build would wrap and a debug build would stop.
unfoldable pub resumed_attempt : Suspension → ℕ
resumed_attempt s =
    (Option.get_or (Option.bind (get s.payload "attempt") as_u64) 1 % 2 ^ 32 + 1) % 2 ^ 32

unfoldable pub find_call : String → List ModelFunctionCall → Option ModelFunctionCall
find_call id [] = none
find_call id (c ∷ cs) = if c.call_id == id then some c else find_call id cs

-- in the last response that has the call
unfoldable pub find_requested : String → List TurnItemKind → Option ModelFunctionCall
unfolding find_call
find_requested id [] = none
find_requested id (model_response c text calls ∷ ks) = elim (find_requested id ks) [
  | some call ↦ some call
  | none ↦ find_call id calls
]
find_requested id (_ ∷ ks) = find_requested id ks

unfoldable pub find_suspended_call : Thread → String → String → Option ModelFunctionCall
unfolding find_requested find_turn
find_suspended_call thread turn_id call_id =
    Option.bind (find_turn turn_id thread.turns) (λ t. find_requested call_id (kinds t))

-- What the resolution of the suspension leads to.
pub data Resumed : Type 0 where
  continues : Resumed
  ends : TurnOutcome → Resumed

module _ {W : Type 0} (agent : Agent W) (fence : LeaseFence) (thread_id : String) where
  abbrev commit : Exec (State W) Unit
  commit = commit_thread agent fence

  load : Exec (State W) Unit
  load s =
      let (r, w) = agent.load thread_id s.world in
      elim r [
        | ok thread ↦ (ok tt, record s { thread = thread; world = w })
        | err e ↦ (err e, record s { world = w })
      ]

  -- the pending suspension, if it is the one that is meant
  unfoldable pub find_suspension : String → Exec (State W) PendingSuspension
  find_suspension id = do
    projected ← gets (λ s. (from_thread s.thread).pending_suspension)
    pending ← lift (ok_or projected (turn_not_found id))
    if pending.suspension.id == id then pure pending else raise (turn_not_found id)

  -- an item that answers the suspension, and a turn that runs again
  unfoldable pub reopen : String → TurnItemSource × TurnItemKind → Exec (State W) Unit
  reopen turn_id item = do
    push_turn_items turn_id (item ∷ [])
    set_turn_status turn_id TurnStatus.running
    commit

  -- the call that the suspension holds back
  unfoldable pub suspended_call : PendingSuspension → Exec (State W) ModelFunctionCall
  suspended_call pending = do
    call_id ← lift (
        ok_or (suspended_call_id pending.suspension)
          (refusal "suspension does not identify a resumable call"))
    found ← gets (λ s. find_suspended_call s.thread pending.turn_id call_id)
    call ← lift (ok_or found (refusal "suspended function call was not found"))
    if is_deferred pending.suspension
        then pure call
        else raise (refusal "approval or denial can only resume a pre-execution suspension")

  -- A result of the approved call. One that suspends again ends the resumption with nothing
  -- recorded.
  unfoldable pub settle_resumed :
      String → ModelFunctionCall → Option (Result FunctionExecution) → Exec (State W) Resumed
  unfolding reopen
  settle_resumed turn_id call none = do
    push_turn_items turn_id (output_item call (ToolResult.aborted not_recorded) ∷ [])
    commit
    pure (ends (TurnOutcome.aborted aborted_by_caller))
  settle_resumed turn_id call (some (ok (completed output))) = do
    reopen turn_id (output_item call (ToolResult.success output))
    emit_state (TurnStateEvent.function_completed call.call_id call.name)
    pure continues
  settle_resumed turn_id call (some (ok (suspended_before_execution suspension))) =
      pure (ends (TurnOutcome.suspended suspension))
  settle_resumed turn_id call (some (ok (suspended_after_execution suspension output))) =
      pure (ends (TurnOutcome.suspended suspension))
  settle_resumed turn_id call (some (err e)) = do
    reopen turn_id (output_item call (ToolResult.error (to_string e)))
    emit_state (TurnStateEvent.function_failed call.call_id call.name (to_string e))
    pure continues

  unfoldable pub run_approved : PendingSuspension → ModelFunctionCall → Exec (State W) Resumed
  unfolding settle_resumed
  run_approved pending call = do
    before ← gets (λ s. from_thread s.thread)
    push_turn_items pending.turn_id (
        (
          TurnItemSource.runtime,
          function_call_started call.call_id call.name (resumed_attempt pending.suspension),
        )
        ∷ [])
    commit
    emit_state (TurnStateEvent.function_started call.call_id call.name)
    context ← gets (function_context agent fence thread_id pending.turn_id call)
    execution ←
        await_step_or_abort agent pending.turn_id
          (call_function agent call (record context { projection = before }))
    settle_resumed pending.turn_id call execution

  unfoldable pub deny_call : PendingSuspension → ModelFunctionCall → String → Exec (State W) Resumed
  unfolding reopen
  deny_call pending call reason = do
    let error_text = concat ("execution denied by user: " ∷ reason ∷ [])
    reopen pending.turn_id (output_item call (ToolResult.error error_text))
    emit_state (TurnStateEvent.function_failed call.call_id call.name error_text)
    pure continues

  unfoldable pub resolve :
      String → PendingSuspension → SuspensionResolution → Exec (State W) Resumed
  unfolding run_approved deny_call suspended_call
  resolve suspension_id pending (SuspensionResolution.user_input text) =
      if is_deferred pending.suspension
      then raise (refusal "a pre-execution suspension requires approval or denial")
      else do
        reopen pending.turn_id (TurnItemSource.user, user_input text (some suspension_id))
        pure continues
  resolve suspension_id pending (deny reason) = do
    call ← suspended_call pending
    deny_call pending call reason
  resolve suspension_id pending approve = do
    call ← suspended_call pending
    run_approved pending call
  resolve suspension_id pending (external_result output) = do
    call ← suspended_call pending
    raise (refusal "unsupported suspension resolution")

  after_resumed : Resumed → Exec (State W) TurnOutcome
  after_resumed (ends outcome) = pure outcome
  after_resumed continues = run_turn_internal agent fence thread_id none none 1

  unfoldable pub resume_suspended_turn : String → SuspensionResolution → Exec (State W) TurnOutcome
  unfolding load find_suspension resolve after_resumed
  resume_suspended_turn suspension_id resolution = do
    load
    pending ← find_suspension suspension_id
    resumed ← resolve suspension_id pending resolution
    after_resumed resumed

  unfoldable pub run_turn : String → Value → Exec (State W) TurnOutcome
  run_turn user_text metadata =
      run_turn_internal agent fence thread_id (some user_text) (some metadata) 0

  unfoldable pub recover_turn : Exec (State W) TurnOutcome
  recover_turn = run_turn_internal agent fence thread_id none none 0
