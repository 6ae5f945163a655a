-- ===== src/Tests/Calls.antt =====
-- A registry with one function, for canary-agent-runtime/src/functions.rs.
use canary_agent.Prelude.{ℕ, true, ◌≡◌, refl, none, some, [], ◌∷◌}
use canary_agent.Prelude.Result.{ok}
use canary_agent.Prelude.TreeMap
use canary_agent.Kernel.Value.{Value, string}
use canary_agent.Runtime.Error.{Result}
use canary_agent.Runtime.Stream.{idempotent}
use canary_agent.Runtime.Functions.{
  AgentFunction, FunctionContext, FunctionRegistry, completed, discard, register, unregister, new,
  call,
}
use canary_agent.Runtime.Functions.Limits.{Ran, AreValid, call-Ran}
use canary_agent.Runtime.Functions.Offered.{IsRegistry, Change, Answers, newest, call-IsOffered}

abbrev echo : AgentFunction Unit
echo = record {
  spec = record { name = "echo"; description = ""; parameters = string "" };
  output_schema = string "";
  limits = record { time_budget = record { nanos = 1000000000 }; max_output_bytes = 100 };
  recovery_policy = idempotent;
  resolve = discard;
  call = λ budget args context w. (some (ok (completed args)), w);
}

abbrev encoded_len : Value → Result ℕ
encoded_len v = ok 5

abbrev functions : FunctionRegistry Unit
functions = ("echo", echo) ∷ []

abbrev context : FunctionContext
context = record {
  thread_id = "thread";
  metadata = string "";
  turn_id = "t1";
  call_id = "c1";
  projection = record {
    conversation = [];
    pending_suspension = none;
    completed_function_results = [];
    last_assistant_message = none;
    latest_turn_id = none;
    active_turn_id = none;
  };
}

run :
    call encoded_len functions "echo" (string "hi") context tt ≡ (ok (completed (string "hi")), tt)
unfolding call TreeMap.lookup
run = refl

call-Ran_example :
    (f : AgentFunction Unit) × (TreeMap.lookup "echo" functions ≡ some f)
    × AreValid f.limits
    × Ran encoded_len f "echo" (string "hi") context tt (completed (string "hi")) tt
call-Ran_example =
    call-Ran encoded_len functions "echo" (string "hi") context tt (completed (string "hi")) run

abbrev registry : FunctionRegistry Unit
registry = (unregister "other" (register echo new)).1

call-IsOffered_example :
    Answers encoded_len registry "echo" (string "hi") context tt (some echo)
    × ((unregister "echo" registry).0 ≡ true)
unfolding newest
call-IsOffered_example =
    call-IsOffered encoded_len (Change.drop "other" ∷ Change.put echo ∷ []) registry "echo"
      (string "hi") context tt
      (IsRegistry.unregistered "other" (IsRegistry.registered echo IsRegistry.is_new))
