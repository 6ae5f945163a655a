-- ===== src/Tests/Recoveries.antt =====
-- A turn that was left with a call without an output, for recovery in canary-agent-runtime/src/agent_loop.rs.
use canary_agent.Prelude.{◌≡◌, refl, ◌⊎◌, false, Option, none, some, [], ◌∷◌, arith}
use canary_agent.Prelude.Result.{ok, err}
use canary_agent.Kernel.Value.{string}
use canary_agent.Kernel.Events.{
  Thread, Turn, TurnItem, TurnItemSource, TurnItemKind, TurnStatus, ModelFunctionCall,
  model_response, function_call_started, no_usage, initial, Suspension, SuspensionKind,
  suspension_created,
}
use canary_agent.Runtime.Error.{AgentError, Result, suspended_turn}
use canary_agent.Runtime.Stream.{TurnOutcome, FunctionRecoveryPolicy, idempotent, non_idempotent}
use canary_agent.Runtime.Functions.{completed}
use canary_agent.Runtime.Agent.{Agent, State, LeaseFence}
use canary_agent.Runtime.Agent.Recovery.{
  find_turn, pending_function_calls, recover_pending_function_calls,
}
use canary_agent.Runtime.Agent.View.{View, look, KeepsTurns}
use canary_agent.Kernel.Projection.{from_thread}
use canary_agent.Runtime.Agent.Entry.{run_turn, recover_turn}
use canary_agent.Runtime.Agent.Refused.{run_turn-refused}
use canary_agent.Runtime.Agent.TurnLoop.{recovery-pending, recovery-ended}

abbrev call : ModelFunctionCall
call = record { call_id = "c1"; name = "echo"; arguments = string "hi" }

abbrev agent : FunctionRecoveryPolicy → Agent Unit
agent policy = record {
  config = record {
    allow_empty_response = false;
    agent_id = "agent";
    turn_execution_limits = record { max_model_iterations = 3; max_function_calls = 2 };
    system_prompt = "";
  };
  load = λ id w. (err (AgentError.thread_not_found id), w);
  compare_and_commit = λ thread fence w. (ok thread, w);
  load_context_cache = λ id w. (ok none, w);
  save_context_cache = λ cache w. (ok cache, w);
  build_context =
      λ input w. (ok (record { messages = input.projection.conversation; cache = none }), w);
  stream_complete = λ request w. (none, [], w);
  functions = [];
  recovery_policy = λ name. ok policy;
  call = λ name args context w. (some (ok (completed args)), w);
  function_call_hooks = [];
  is_cancelled = λ w. false;
}

agent-KeepsTurns : (policy : FunctionRecoveryPolicy) → KeepsTurns (agent policy)
agent-KeepsTurns policy = record { at = λ thread fence w c w' e. ground arith }

abbrev fence : LeaseFence
fence = record { bytes = [] }

abbrev item : TurnItemKind → TurnItem
item kind = record { id = "i"; created_at = ""; source = TurnItemSource.model; kind = kind }

abbrev turn : Turn
turn = record {
  id = "t1";
  status = TurnStatus.running;
  items =
      item (model_response none none (call ∷ [])) ∷ item (function_call_started "c1" "echo" 1) ∷ [];
  created_at = "";
  updated_at = "";
}

abbrev start : State Unit
start = record {
  world = tt;
  clock = record { millis = λ n. n; reads = 0; counter = 0 };
  thread = record {
    schema_version = 1;
    revision = initial;
    id = "thread";
    metadata = string "";
    turns = turn ∷ [];
    token_usage = no_usage;
    created_at = "";
    updated_at = "";
  };
  turn_token_usage = no_usage;
  function_call_count = 0;
  trace_sequence = 0;
  events = [];
  traces = [];
  metrics = [];
}

abbrev view : View
view = record {
  status = TurnStatus.running;
  items = model_response none none (call ∷ []) ∷ function_call_started "c1" "echo" 1 ∷ [];
  count = 0;
}

start-view : look "t1" start ≡ some view
unfolding find_turn
start-view = refl

abbrev recovered : State Unit
recovered = (recover_pending_function_calls (agent idempotent) fence "thread" "t1" start).1

run :
    recover_pending_function_calls (agent idempotent) fence "thread" "t1" start
    ≡ (ok none, recovered)
unfolding recover_pending_function_calls canary_agent.Runtime.Exec.◌>>=◌
    canary_agent.Runtime.Agent.record_trace canary_agent.Runtime.Agent.push_turn_items
    canary_agent.Runtime.Agent.set_turn_status canary_agent.Runtime.Agent.fresh_id
    canary_agent.Kernel.Events.turn_mut canary_agent.Runtime.Agent.commit_thread
    canary_agent.Runtime.Agent.await_step_or_abort canary_agent.Runtime.Agent.call_function
    canary_agent.Runtime.Agent.push_all canary_agent.Runtime.Agent.new_items
    canary_agent.Kernel.Events.push_item
run = refl

recovery-pending_example : pending_function_calls recovered.thread "t1" ≡ []
recovery-pending_example =
    recovery-pending (agent idempotent) fence "thread" "t1" (agent-KeepsTurns idempotent) start
      recovered view start-view run

abbrev outcome_of : Result (Option TurnOutcome) → TurnOutcome
outcome_of (ok (some o)) = o
outcome_of (ok none) = TurnOutcome.completed_without_message
outcome_of (err e) = TurnOutcome.completed_without_message

abbrev outcome : TurnOutcome
outcome =
    outcome_of (recover_pending_function_calls (agent non_idempotent) fence "thread" "t1" start).0

abbrev ended : State Unit
ended = (recover_pending_function_calls (agent non_idempotent) fence "thread" "t1" start).1

run_suspended :
    recover_pending_function_calls (agent non_idempotent) fence "thread" "t1" start
    ≡ (ok (some outcome), ended)
unfolding recover_pending_function_calls canary_agent.Runtime.Exec.◌>>=◌
    canary_agent.Runtime.Agent.record_trace canary_agent.Runtime.Agent.push_turn_items
    canary_agent.Runtime.Agent.set_turn_status canary_agent.Runtime.Agent.fresh_id
    canary_agent.Kernel.Events.turn_mut canary_agent.Runtime.Agent.commit_thread
    canary_agent.Runtime.Agent.await_step_or_abort canary_agent.Runtime.Agent.call_function
    canary_agent.Runtime.Agent.push_all canary_agent.Runtime.Agent.new_items
    canary_agent.Kernel.Events.push_item
run_suspended = refl

recovery-ended_example :
    ((u : View) × (look "t1" ended ≡ some u) × (u.status ≡ TurnStatus.suspended))
    ⊎ (pending_function_calls ended.thread "t1" ≡ [])
recovery-ended_example =
    recovery-ended (agent non_idempotent) fence "thread" "t1" (agent-KeepsTurns non_idempotent)
      start ended view start-view outcome run_suspended

abbrev suspension : Suspension
suspension = record { id = "s1"; kind = SuspensionKind.human_approval; payload = string "" }

abbrev waiting : Thread
waiting = record start.thread {
  turns =
      record turn {
        status = TurnStatus.suspended;
        items = item (suspension_created suspension) ∷ [];
      }
      ∷ [];
}

abbrev waiting_agent : Agent Unit
waiting_agent = record (agent idempotent) { load = λ id w. (ok waiting, w) }

waits :
    (from_thread waiting).pending_suspension
    ≡ some (record { suspension = suspension; turn_id = "t1" })
unfolding from_thread canary_agent.Kernel.Projection.project_items
    canary_agent.Kernel.Projection.project_item
waits = refl

run_turn-refused_example :
    ((run_turn waiting_agent fence "thread" "hi" (string "") start).0
      ≡ err (suspended_turn "thread" "s1"))
    × ((run_turn waiting_agent fence "thread" "hi" (string "") start).1.world ≡ tt)
    × ((run_turn waiting_agent fence "thread" "hi" (string "") start).1.events ≡ [])
    × ((recover_turn waiting_agent fence "thread" start).0 ≡ err (suspended_turn "thread" "s1"))
    × ((recover_turn waiting_agent fence "thread" start).1.world ≡ tt)
    × ((recover_turn waiting_agent fence "thread" start).1.events ≡ [])
run_turn-refused_example =
    run_turn-refused waiting_agent fence "thread" start tt waiting
      (record { suspension = suspension; turn_id = "t1" }) refl waits "hi" (string "")
