-- ===== src/Runtime/Agent/Outcome.antt =====
-- What the rounds of a turn come to, in canary-agent-runtime/src/agent_loop.rs: the status that goes with
-- the outcome, and the limits on calls and rounds.
use canary_agent.Prelude.{
  ℕ, suc, ◌+◌, ◌≤◌, ◌≡◌, refl, ap, ◌∙◌, Option, none, some, List, [], ◌∷◌, ◌++◌, drop, length,
  length-take, arith,
}
use canary_agent.Kernel.Events.{
  TurnItemKind, ModelFunctionCall, ToolResult, TurnStatus, user_input, model_response,
  function_call_started, tool_output, suspension_created, turn_failed, turn_aborted,
}
use canary_agent.Runtime.Stream.{TurnOutcome}
use canary_agent.Runtime.Agent.{not_recorded, aborted_by_caller}
use canary_agent.Runtime.Agent.View.{View}
use canary_agent.Runtime.Agent.Transcript.{
  Settled, refused, called, Stopped, aborted, before, after, Ran, finished, next, Broke, here,
  later, outputs,
}
use canary_agent.Runtime.Agent.Rounds.{
  Handled, within, over, ended, admitted, over_limit, Round, answered, silent, requested, Rounds,
  exhausted, last, again, turn_loop-From,
}
use canary_agent.Runtime.Agent.Rounds

-- the status that a turn with this outcome is left in
unfoldable pub status_of : TurnOutcome → TurnStatus
status_of (TurnOutcome.assistant_message text) = TurnStatus.completed
status_of TurnOutcome.completed_without_message = TurnStatus.completed
status_of (TurnOutcome.suspended s) = TurnStatus.suspended
status_of (TurnOutcome.failed e) = TurnStatus.failed
status_of (TurnOutcome.aborted reason) = TurnStatus.aborted

unfoldable pub count_started : List TurnItemKind → ℕ
count_started [] = 0
count_started (function_call_started call_id name attempt ∷ ks) = suc (count_started ks)
count_started (_ ∷ ks) = count_started ks

Broke-status :
    {n : ℕ} {cs : List ModelFunctionCall} {o : TurnOutcome} {st : TurnStatus}
    {ks : List TurnItemKind}
    → Broke n cs o st ks
    → st ≡ status_of o
unfolding status_of
Broke-status (here aborted) = refl
Broke-status (here (before s)) = refl
Broke-status (here (after s r)) = refl
Broke-status (later s b) = Broke-status b

-- the status, where there is an outcome
abbrev Agrees : Option TurnOutcome → TurnStatus → Type 0
Agrees none st = Unit
Agrees (some o) st = st ≡ status_of o

Handled-status :
    {limit : ℕ} {cs : List ModelFunctionCall} {v u : View} {p : Option TurnOutcome}
    → Handled limit cs v p u
    → Agrees p u.status
unfolding status_of
Handled-status (within e r) = tt
Handled-status (over e r) = refl
Handled-status (ended b) = Broke-status b

Round-status :
    {limit : ℕ} {v u : View} {p : Option TurnOutcome} → Round limit v p u → Agrees p u.status
unfolding status_of
Round-status Round.aborted = refl
Round-status (Round.failed e) = refl
Round-status (answered c text) = refl
Round-status (silent c text) = refl
Round-status (requested c text call calls h) = Handled-status h

pub Rounds-status :
    {limit iterations left : ℕ} {v u : View} {o : TurnOutcome}
    → Rounds limit iterations left v o u
    → u.status ≡ status_of o
unfolding status_of
Rounds-status exhausted = refl
Rounds-status (last r) = Round-status r
Rounds-status (again r rs) = Rounds-status rs

count_started-append :
    (ks js : List TurnItemKind) → count_started (ks ++ js) ≡ count_started ks + count_started js
unfolding count_started
count_started-append [] js = omega arith
count_started-append (function_call_started i n a ∷ ks) js =
    omega (arith, count_started-append ks js)
count_started-append (user_input t r ∷ ks) js = count_started-append ks js
count_started-append (model_response c t cs ∷ ks) js = count_started-append ks js
count_started-append (tool_output i n r ∷ ks) js = count_started-append ks js
count_started-append (suspension_created s ∷ ks) js = count_started-append ks js
count_started-append (turn_failed e ∷ ks) js = count_started-append ks js
count_started-append (turn_aborted r ∷ ks) js = count_started-append ks js

count_started-outputs :
    (r : ToolResult) (cs : List ModelFunctionCall) → count_started (outputs r cs) ≡ 0
unfolding count_started
count_started-outputs r [] = refl
count_started-outputs r (c ∷ cs) = count_started-outputs r cs

Settled-started :
    {c : ModelFunctionCall} {ks : List TurnItemKind} → Settled c ks → count_started ks ≤ 1
unfolding count_started
Settled-started (refused e) = omega arith
Settled-started (called r) = omega arith

Stopped-started :
    {c : ModelFunctionCall} {cs : List ModelFunctionCall} {o : TurnOutcome} {st : TurnStatus}
    {ks : List TurnItemKind}
    → Stopped c cs o st ks
    → count_started ks ≤ 1
unfolding count_started
Stopped-started {c} {cs} aborted =
    omega (arith, count_started-outputs (ToolResult.aborted not_recorded) (c ∷ cs))
Stopped-started {cs = cs} (before s) = omega (arith, count_started-outputs _ cs)
Stopped-started {cs = cs} (after s r) = omega (arith, count_started-outputs _ cs)

Ran-started :
    {cs : List ModelFunctionCall} {ks : List TurnItemKind}
    → Ran cs ks
    → count_started ks ≤ length cs
unfolding count_started
Ran-started finished = omega arith
Ran-started (next {ks = ks} {js = js} s r) =
    omega (arith, Settled-started s, Ran-started r, count_started-append ks js)

Broke-started :
    {n : ℕ} {cs : List ModelFunctionCall} {o : TurnOutcome} {st : TurnStatus}
    {ks : List TurnItemKind}
    → Broke n cs o st ks
    → count_started ks ≤ n
Broke-started (here s) = omega (arith, Stopped-started s)
Broke-started (later {ks = ks} {js = js} s b) =
    omega (arith, Settled-started s, Broke-started b, count_started-append ks js)

over_limit-started :
    (limit : ℕ) (cs : List ModelFunctionCall) → count_started (over_limit limit cs) ≡ 0
unfolding count_started
over_limit-started limit cs =
    count_started-append (outputs (ToolResult.error (Rounds.skipped_error limit)) cs) _
    ∙ ap (λ n. n + 0) (count_started-outputs _ cs)

-- Each function that was started is counted against the limit.
abbrev pub Within : ℕ → View → View → Type 0
Within limit v u =
    (v.count ≤ limit → u.count ≤ limit)
    × (count_started u.items + v.count ≤ count_started v.items + u.count)

Handled-started :
    {limit : ℕ} {cs : List ModelFunctionCall} {v u : View} {p : Option TurnOutcome}
    → Handled limit cs v p u
    → Within limit v u
unfolding count_started
Handled-started {limit} {cs} {v} (within {ks} e r) = (
  λ h. omega arith,
  omega
      (arith, Ran-started r, length-take (admitted limit cs v) cs, count_started-append v.items ks),
)
Handled-started {limit} {cs} {v} (over {ks} e r) = (
  λ h. omega arith,
  omega (
    arith,
    Ran-started r,
    length-take (admitted limit cs v) cs,
    over_limit-started limit (drop (admitted limit cs v) cs),
    count_started-append ks (over_limit limit (drop (admitted limit cs v) cs)),
    count_started-append v.items (ks ++ over_limit limit (drop (admitted limit cs v) cs)),
  ),
)
Handled-started {limit} {cs} {v} (ended {ks = ks} b) =
    (λ h. omega arith, omega (arith, Broke-started b, count_started-append v.items ks))

Round-started :
    {limit : ℕ} {v u : View} {p : Option TurnOutcome} → Round limit v p u → Within limit v u
unfolding count_started
Round-started {v = v} Round.aborted =
    (λ h. h, omega (arith, count_started-append v.items (turn_aborted aborted_by_caller ∷ [])))
Round-started {v = v} (Round.failed e) =
    (λ h. h, omega (arith, count_started-append v.items (turn_failed e ∷ [])))
Round-started {v = v} (answered c text) =
    (λ h. h, omega (arith, count_started-append v.items (model_response c (some text) [] ∷ [])))
Round-started {v = v} (silent c text) =
    (λ h. h, omega (arith, count_started-append v.items (model_response c text [] ∷ [])))
Round-started {v = v} (requested c text call calls h) =
    let (a, b) = Handled-started h in
    (a, omega (arith, b, count_started-append v.items (model_response c text (call ∷ calls) ∷ [])))

pub Rounds-started :
    {limit iterations left : ℕ} {v u : View} {o : TurnOutcome}
    → Rounds limit iterations left v o u
    → Within limit v u
unfolding count_started
Rounds-started {v = v} exhausted =
    (λ h. h, omega (arith, count_started-append v.items (turn_failed _ ∷ [])))
Rounds-started (last r) = Round-started r
Rounds-started (again r rs) =
    let (a, b) = Round-started r in
    let (c, d) = Rounds-started rs in (λ h. c (a h), omega (arith, b, d))
