-- ===== src/Tests/Contexts.antt =====
-- A conversation that is cut to the budget, for canary-agent-runtime/src/context.rs.
use canary_agent.Prelude.{String, ◌≡◌, refl, Option, none, List, [], ◌∷◌, All, length, arith}
use mathlib.Core.List.{flatten}
use canary_agent.Prelude.Result.{ok}
use canary_agent.Kernel.Value.{string}
use canary_agent.Kernel.Events.{u64_max, initial}
use canary_agent.Kernel.Model.{ChatMessage, system, user, tool, assistant}
use canary_agent.Runtime.Context.{
  ContextBuilder, ContextBuildInput, ContextBuildOutput, OversizedGroupPolicy, Selection,
  tool_call_blocks, build,
}
use canary_agent.Runtime.Context.Blocks.{IsBlock, AreWhole, tool_call_blocks-IsBlock}
use canary_agent.Runtime.Context.Budget.{IsBuilt, build-IsBuilt}

abbrev messages : List ChatMessage
messages =
    user "one"
    ∷ assistant none none (record { call_id = "c1"; name = "echo"; arguments = string "" } ∷ [])
    ∷ tool "c1" "echo" (string "")
    ∷ user "two"
    ∷ []

abbrev builder : ContextBuilder Unit
builder = record {
  max_context_tokens = 4;
  summary_budget_tokens = 0;
  oversized_group_policy = OversizedGroupPolicy.fail;
  policy_version = "v";
  estimate = length;
  compactor = none;
}

abbrev input : ContextBuildInput
input = record {
  thread_id = "thread";
  thread_revision = initial;
  projection = record {
    conversation = messages;
    pending_suspension = none;
    completed_function_results = [];
    last_assistant_message = none;
    latest_turn_id = none;
    active_turn_id = none;
  };
  system_prompt = "be brief";
  cached_context = none;
}

abbrev built : ContextBuildOutput
built = record {
  messages =
      system "be brief"
      ∷ assistant none none (record { call_id = "c1"; name = "echo"; arguments = string "" } ∷ [])
      ∷ tool "c1" "echo" (string "")
      ∷ user "two"
      ∷ [];
  cache = none;
}

run : build builder input tt ≡ (ok built, tt)
unfolding build canary_agent.Runtime.Exec.◌>>=◌ canary_agent.Kernel.Events.saturating_add
    mathlib.Core.List.flatten
run = refl

tool_call_blocks-IsBlock_example :
    (flatten (tool_call_blocks messages) ≡ messages)
    × All IsBlock (tool_call_blocks messages)
    × AreWhole (tool_call_blocks messages)
tool_call_blocks-IsBlock_example = tool_call_blocks-IsBlock messages

build-IsBuilt_example :
    (s : Selection) × (summary : Option String) × IsBuilt builder input built s summary
build-IsBuilt_example = build-IsBuilt builder input tt tt built (omega arith) (omega arith) run
