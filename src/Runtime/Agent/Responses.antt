-- ===== src/Runtime/Agent/Responses.antt =====
-- How many responses of the model the rounds of canary-agent-runtime/src/agent_loop.rs add to a turn.
use canary_agent.Prelude.{
  ℕ, suc, ◌+◌, ◌≤◌, ◌≡◌, refl, Option, some, List, [], ◌∷◌, ◌++◌, drop, arith,
}
use canary_agent.Kernel.Events.{
  TurnItemKind, ModelFunctionCall, ToolResult, TurnStatus, user_input, model_response,
  function_call_started, tool_output, suspension_created, turn_failed, turn_aborted,
}
use canary_agent.Runtime.Stream.{TurnOutcome}
use canary_agent.Runtime.Agent.{not_recorded, aborted_by_caller}
use canary_agent.Runtime.Agent.View.{View}
use canary_agent.Runtime.Agent.Transcript.{
  Settled, refused, called, aborted, before, after, Ran, finished, next, Broke, here, later,
  outputs,
}
use canary_agent.Runtime.Agent.Rounds.{
  Handled, within, over, ended, admitted, over_limit, skipped_error, limit_error, Round, answered,
  silent, requested, Rounds, exhausted, last, again,
}

unfoldable pub count_responses : List TurnItemKind → ℕ
count_responses [] = 0
count_responses (model_response c text calls ∷ ks) = suc (count_responses ks)
count_responses (_ ∷ ks) = count_responses ks

count_responses-append :
    (ks js : List TurnItemKind)
    → count_responses (ks ++ js) ≡ count_responses ks + count_responses js
unfolding count_responses
count_responses-append [] js = omega arith
count_responses-append (model_response c t cs ∷ ks) js = omega (arith, count_responses-append ks js)
count_responses-append (user_input t r ∷ ks) js = count_responses-append ks js
count_responses-append (function_call_started i n a ∷ ks) js = count_responses-append ks js
count_responses-append (tool_output i n r ∷ ks) js = count_responses-append ks js
count_responses-append (suspension_created s ∷ ks) js = count_responses-append ks js
count_responses-append (turn_failed e ∷ ks) js = count_responses-append ks js
count_responses-append (turn_aborted r ∷ ks) js = count_responses-append ks js

count_responses-outputs :
    (r : ToolResult) (cs : List ModelFunctionCall) → count_responses (outputs r cs) ≡ 0
unfolding count_responses
count_responses-outputs r [] = refl
count_responses-outputs r (c ∷ cs) = count_responses-outputs r cs

Settled-responses :
    {c : ModelFunctionCall} {ks : List TurnItemKind} → Settled c ks → count_responses ks ≡ 0
unfolding count_responses
Settled-responses (refused e) = refl
Settled-responses (called r) = refl

Ran-responses :
    {cs : List ModelFunctionCall} {ks : List TurnItemKind} → Ran cs ks → count_responses ks ≡ 0
unfolding count_responses
Ran-responses finished = refl
Ran-responses (next {ks = ks} {js = js} s r) =
    omega (arith, Settled-responses s, Ran-responses r, count_responses-append ks js)

Broke-responses :
    {n : ℕ} {cs : List ModelFunctionCall} {o : TurnOutcome} {st : TurnStatus}
    {ks : List TurnItemKind}
    → Broke n cs o st ks
    → count_responses ks ≡ 0
unfolding count_responses
Broke-responses (here (aborted {c} {rest})) =
    count_responses-outputs (ToolResult.aborted not_recorded) (c ∷ rest)
Broke-responses (here (before {rest = rest} s)) = count_responses-outputs _ rest
Broke-responses (here (after {rest = rest} s r)) = count_responses-outputs _ rest
Broke-responses (later {ks = ks} {js = js} s b) =
    omega (arith, Settled-responses s, Broke-responses b, count_responses-append ks js)

over_limit-responses :
    (limit : ℕ) (cs : List ModelFunctionCall) → count_responses (over_limit limit cs) ≡ 0
unfolding count_responses
over_limit-responses limit cs = omega (
  arith,
  count_responses-append (outputs (ToolResult.error (skipped_error limit)) cs)
      (turn_failed (limit_error limit) ∷ []),
  count_responses-outputs (ToolResult.error (skipped_error limit)) cs,
)

Handled-responses :
    {limit : ℕ} {cs : List ModelFunctionCall} {v u : View} {p : Option TurnOutcome}
    → Handled limit cs v p u
    → count_responses u.items ≡ count_responses v.items
Handled-responses {v = v} (within {ks} e r) =
    omega (arith, Ran-responses r, count_responses-append v.items ks)
Handled-responses {limit} {cs} {v} (over {ks} e r) = omega (
  arith,
  Ran-responses r,
  over_limit-responses limit (drop (admitted limit cs v) cs),
  count_responses-append ks (over_limit limit (drop (admitted limit cs v) cs)),
  count_responses-append v.items (ks ++ over_limit limit (drop (admitted limit cs v) cs)),
)
Handled-responses {v = v} (ended {ks = ks} b) =
    omega (arith, Broke-responses b, count_responses-append v.items ks)

Round-responses :
    {limit : ℕ} {v u : View} {p : Option TurnOutcome}
    → Round limit v p u
    → count_responses u.items ≤ count_responses v.items + 1
unfolding count_responses
Round-responses {v = v} Round.aborted =
    omega (arith, count_responses-append v.items (turn_aborted aborted_by_caller ∷ []))
Round-responses {v = v} (Round.failed e) =
    omega (arith, count_responses-append v.items (turn_failed e ∷ []))
Round-responses {v = v} (answered c text) =
    omega (arith, count_responses-append v.items (model_response c (some text) [] ∷ []))
Round-responses {v = v} (silent c text) =
    omega (arith, count_responses-append v.items (model_response c text [] ∷ []))
Round-responses {v = v} (requested c text call calls h) = omega (
  arith,
  Handled-responses h,
  count_responses-append v.items (model_response c text (call ∷ calls) ∷ []),
)

pub Rounds-responses :
    {limit iterations left : ℕ} {v u : View} {o : TurnOutcome}
    → Rounds limit iterations left v o u
    → count_responses u.items ≤ count_responses v.items + left
unfolding count_responses
Rounds-responses {v = v} exhausted =
    omega (arith, count_responses-append v.items (turn_failed _ ∷ []))
Rounds-responses (last r) = omega (arith, Round-responses r)
Rounds-responses (again r rs) = omega (arith, Round-responses r, Rounds-responses rs)
