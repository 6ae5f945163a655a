-- ===== src/Tests/Loop.antt =====
-- A turn of canary-agent-runtime/src/agent_loop.rs with one call and one answer: the world counts the responses.
use canary_agent.Prelude.{
  List, ◌++◌, min, ◌⊎◌, ◌+◌, ℕ, zero, suc, ◌≤◌, ◌≡◌, refl, false, none, some, [], ◌∷◌, arith,
}
use canary_agent.Prelude.Result.{ok, err}
use canary_agent.Kernel.Value.{string}
use canary_agent.Kernel.Clock.{Clock}
use canary_agent.Kernel.Events.{
  Thread, Turn, TurnStatus, ModelFunctionCall, Suspension, no_usage, initial, u64_max, new_thread,
  new_item, push_item, set_status,
}
use canary_agent.Kernel.Model.{
  ModelResponse, function_calls, assistant_message, ModelStreamEvent, output_progress,
  assistant_delta, token_usage,
}
use canary_agent.Runtime.Error.{AgentError}
use canary_agent.Runtime.Stream.{TurnOutcome, idempotent}
use canary_agent.Runtime.Functions.{completed}
use canary_agent.Runtime.Agent.{Agent, State, LeaseFence, handle_stream}
use canary_agent.Runtime.Agent.Streaming.{deltas, reported, handle_stream_lem}
use canary_agent.Runtime.Agent.Recovery.{find_turn, pending_function_calls}
use canary_agent.Runtime.Agent.Calls.{execute_calls}
use canary_agent.Runtime.Agent.Run.{turn_loop}
use canary_agent.Runtime.Agent.View.{View, look, KeepsTurns}
use canary_agent.Runtime.Agent.Transcript.{Looped}
use canary_agent.Runtime.Agent.Rounds.{Rounds}
use canary_agent.Runtime.Agent.Outcome.{status_of}
use canary_agent.Runtime.Agent.Responses.{count_responses}
use canary_agent.Runtime.Agent.TurnLoop.{
  execute_calls-Looped, turn_loop-Rounds, turn_loop-status, turn_loop-pending, turn_loop-responses,
}

abbrev clock : Clock
clock = record { millis = λ n. n; reads = 0; counter = 0 }

abbrev call : ModelFunctionCall
call = record { call_id = "c1"; name = "echo"; arguments = string "hi" }

abbrev respond : ℕ → ModelResponse
respond zero = function_calls (call ∷ [])
respond (suc n) = assistant_message "done"

abbrev agent : Agent ℕ
agent = record {
  config = record {
    allow_empty_response = false;
    agent_id = "agent";
    turn_execution_limits = record { max_model_iterations = 3; max_function_calls = 2 };
    system_prompt = "";
  };
  load = λ id w. (err (AgentError.thread_not_found id), w);
  compare_and_commit =
      λ thread fence w. (ok (record thread { revision = record { bytes = w ∷ [] } }), w);
  load_context_cache = λ id w. (ok none, w);
  save_context_cache = λ cache w. (ok cache, w);
  build_context =
      λ input w. (ok (record { messages = input.projection.conversation; cache = none }), w);
  stream_complete = λ request w. (some (ok (respond w)), [], suc w);
  functions = [];
  recovery_policy = λ name. ok idempotent;
  call = λ name args context w. (some (ok (completed args)), w);
  function_call_hooks = [];
  is_cancelled = λ w. false;
}

agent-KeepsTurns : KeepsTurns agent
agent-KeepsTurns = record { at = λ thread fence w c w' e. ground arith }

abbrev fence : LeaseFence
fence = record { bytes = [] }

abbrev turn : Turn
turn = record {
  id = "t1";
  status = TurnStatus.running;
  items = [];
  created_at = "";
  updated_at = "";
}

abbrev thread : Thread
thread = record {
  schema_version = 1;
  revision = initial;
  id = "thread";
  metadata = string "";
  turns = turn ∷ [];
  token_usage = no_usage;
  created_at = "";
  updated_at = "";
}

abbrev start : State ℕ
start = record {
  world = 0;
  clock = clock;
  thread = thread;
  turn_token_usage = no_usage;
  function_call_count = 0;
  trace_sequence = 0;
  events = [];
  traces = [];
  metrics = [];
}

abbrev view : View
view = record { status = TurnStatus.running; items = []; count = 0 }

start-view : look "t1" start ≡ some view
unfolding find_turn
start-view = refl

abbrev behind_calls : State ℕ
behind_calls = (execute_calls agent fence "thread" "t1" 1 (call ∷ []) start).1

run_call : execute_calls agent fence "thread" "t1" 1 (call ∷ []) start ≡ (ok none, behind_calls)
unfolding execute_calls canary_agent.Runtime.Exec.◌>>=◌ canary_agent.Runtime.Agent.Run.iterate
    canary_agent.Runtime.Agent.await_step_or_abort canary_agent.Runtime.Agent.call_model
    canary_agent.Runtime.Agent.push_turn_items canary_agent.Kernel.Events.turn_mut
    canary_agent.Runtime.Agent.commit_thread canary_agent.Runtime.Agent.record_trace
    canary_agent.Runtime.Agent.Calls.run_calls canary_agent.Runtime.Agent.push_all
    canary_agent.Runtime.Agent.new_items push_item canary_agent.Runtime.Agent.call_function
    canary_agent.Runtime.Agent.set_turn_status
run_call = refl

execute_calls-Looped_example :
    (u : View) × (look "t1" behind_calls ≡ some u) × Looped 1 (call ∷ []) view none u
execute_calls-Looped_example =
    execute_calls-Looped agent fence "thread" "t1" agent-KeepsTurns start behind_calls view
      start-view 1 (call ∷ []) none run_call

abbrev outcome : TurnOutcome
outcome = TurnOutcome.assistant_message "done"

abbrev ends : State ℕ
ends = (turn_loop agent fence "thread" "t1" 3 0 start).1

run : turn_loop agent fence "thread" "t1" 3 0 start ≡ (ok outcome, ends)
unfolding turn_loop canary_agent.Runtime.Exec.◌>>=◌ canary_agent.Runtime.Agent.Run.iterate
    canary_agent.Runtime.Agent.await_step_or_abort canary_agent.Runtime.Agent.call_model
    canary_agent.Runtime.Agent.push_turn_items canary_agent.Kernel.Events.turn_mut
    canary_agent.Runtime.Agent.commit_thread canary_agent.Runtime.Agent.record_trace
    canary_agent.Runtime.Agent.Calls.run_calls canary_agent.Runtime.Agent.push_all
    canary_agent.Runtime.Agent.new_items push_item canary_agent.Runtime.Agent.call_function
    canary_agent.Runtime.Agent.set_turn_status
run = refl

turn_loop-Rounds_example : (u : View) × (look "t1" ends ≡ some u) × Rounds 2 3 3 view outcome u
turn_loop-Rounds_example =
    turn_loop-Rounds agent fence "thread" "t1" agent-KeepsTurns start ends view start-view 3 0
      outcome run

turn_loop-status_example : (u : View) × (look "t1" ends ≡ some u) × (u.status ≡ status_of outcome)
turn_loop-status_example =
    turn_loop-status agent fence "thread" "t1" agent-KeepsTurns start ends view start-view 3 0
      outcome run

none_pending : pending_function_calls start.thread "t1" ≡ []
unfolding pending_function_calls
none_pending = refl

turn_loop-pending_example :
    ((x : Suspension) × (outcome ≡ TurnOutcome.suspended x))
    ⊎ (pending_function_calls ends.thread "t1" ≡ [])
turn_loop-pending_example =
    turn_loop-pending agent fence "thread" "t1" agent-KeepsTurns start ends view start-view 3 0
      outcome run none_pending

turn_loop-responses_example :
    (u : View) × (look "t1" ends ≡ some u)
    × (count_responses u.items ≤ count_responses view.items + 3)
turn_loop-responses_example =
    turn_loop-responses agent fence "thread" "t1" agent-KeepsTurns start ends view start-view 3 0
      outcome run

abbrev stream : List ModelStreamEvent
stream =
    output_progress
    ∷ assistant_delta "do"
    ∷ token_usage
        (record { input_tokens = 2; cached_input_tokens = 0; output_tokens = 3; total_tokens = 5 })
    ∷ assistant_delta "ne"
    ∷ []

handle_stream_lem_example :
    ((handle_stream stream start).events ≡ [] ++ deltas stream)
    × ((handle_stream stream start).turn_token_usage ≡ record {
      input_tokens = min (0 + reported (λ u. u.input_tokens) stream) u64_max;
      cached_input_tokens = min (0 + reported (λ u. u.cached_input_tokens) stream) u64_max;
      output_tokens = min (0 + reported (λ u. u.output_tokens) stream) u64_max;
      total_tokens = min (0 + reported (λ u. u.total_tokens) stream) u64_max;
    })
handle_stream_lem_example =
    handle_stream_lem stream start (omega arith) (omega arith) (omega arith) (omega arith)
