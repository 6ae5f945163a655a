-- ===== src/Runtime/Agent/Answered.antt =====
-- The turn loop against `pending_function_calls` of canary-agent-runtime/src/agent_loop.rs: what the loop
-- leaves for a recovery.
use canary_agent.Prelude.{
  ℕ, zero, suc, String, ◌≡◌, refl, ap, ◌∙◌, false, Option, none, some, List, [], ◌∷◌, ◌++◌, ◌⊎◌,
  inl, inr, All, All-append, All-map, take, drop, length, take-append-drop, ltb, arith,
}
use text.Mathlib.TextPositions.{eq_refl}
use mathlib.Core.Option
use mathlib.Core.List.{append_assoc, append-nil}
use canary_agent.Kernel.Events.{
  TurnItemKind, ModelFunctionCall, ModelContinuation, ToolResult, Suspension, Thread, Turn,
  TurnStatus, model_response, turn_failed, turn_aborted,
}
use canary_agent.Runtime.Stream.{TurnOutcome}
use canary_agent.Runtime.Agent.{not_recorded, aborted_by_caller}
use canary_agent.Runtime.Agent.Recovery.{
  last_requests, is_completed, pending_in, pending_function_calls, find_turn, kinds,
}
use canary_agent.Runtime.Agent.View.{View, view_of, view_in}
use canary_agent.Runtime.Agent.Outcome.{status_of}
use canary_agent.Runtime.Agent.Transcript.{
  Settled, refused, called, aborted, before, after, Ran, finished, next, Broke, here, later,
  started, output, outputs,
}
use canary_agent.Runtime.Agent.Rounds.{
  Handled, within, over, ended, admitted, over_limit, skipped_error, limit_error, Round, answered,
  silent, requested, Rounds, exhausted, last, again,
}
use canary_agent.Runtime.Agent.Outputs.{
  HasOutput, is_completed-left, is_completed-right, without_output-nil, last_requests-append,
  last_requests-request, pending_in-append,
}

-- Items that request nothing and hold an output for each of the calls.
pub record Answers (cs : List ModelFunctionCall) (ks : List TurnItemKind) : Type 0 where
  pub requests : last_requests ks ≡ none
  pub each : All (HasOutput ks) cs

pub Answers-append :
    {cs ds : List ModelFunctionCall} {ks js : List TurnItemKind}
    → Answers cs ks
    → Answers ds js
    → Answers (cs ++ ds) (ks ++ js)
Answers-append {cs} {ds} {ks} {js} a b = record {
  requests = last_requests-append ks js b.requests ∙ ap (Option.map _) a.requests;
  each =
      All-append (HasOutput (ks ++ js)) cs ds
        (All-map (λ c. is_completed-left c.call_id ks js) cs a.each)
        (All-map (λ c. is_completed-right c.call_id ks js) ds b.each);
}

pub output-Answers : (c : ModelFunctionCall) (r : ToolResult) → Answers (c ∷ []) (output c r ∷ [])
unfolding last_requests is_completed
output-Answers c r = record { requests = refl; each = (rw (eq_refl c.call_id) refl, tt) }

pub quiet-Answers : (ks : List TurnItemKind) → last_requests ks ≡ none → Answers [] ks
quiet-Answers ks h = record { requests = h; each = tt }

pub outputs-Answers : (r : ToolResult) (cs : List ModelFunctionCall) → Answers cs (outputs r cs)
unfolding last_requests
outputs-Answers r [] = quiet-Answers [] refl
outputs-Answers r (c ∷ cs) = Answers-append (output-Answers c r) (outputs-Answers r cs)

Settled-Answers :
    {c : ModelFunctionCall} {ks : List TurnItemKind} → Settled c ks → Answers (c ∷ []) ks
unfolding last_requests
Settled-Answers {c} (refused e) = output-Answers c _
Settled-Answers {c} (called r) =
    Answers-append (quiet-Answers (started c ∷ []) refl) (output-Answers c r)

Ran-Answers : {cs : List ModelFunctionCall} {ks : List TurnItemKind} → Ran cs ks → Answers cs ks
unfolding last_requests
Ran-Answers finished = quiet-Answers [] refl
Ran-Answers (next s r) = Answers-append (Settled-Answers s) (Ran-Answers r)

Broke-Answers :
    {n : ℕ} {cs : List ModelFunctionCall} {o : TurnOutcome} {st : TurnStatus}
    {ks : List TurnItemKind}
    → Broke n cs o st ks
    → (st ≡ TurnStatus.suspended) ⊎ Answers cs ks
unfolding last_requests
Broke-Answers (here (aborted {c} {rest})) = inr (
    Answers-append (quiet-Answers (started c ∷ turn_aborted aborted_by_caller ∷ []) refl)
      (outputs-Answers (ToolResult.aborted not_recorded) (c ∷ rest)))
Broke-Answers (here (before s)) = inl refl
Broke-Answers (here (after s r)) = inl refl
Broke-Answers (later s b) = elim (Broke-Answers b) [
  | inl e ↦ inl e
  | inr h ↦ inr (Answers-append (Settled-Answers s) h)
]

take-all : (n : ℕ) (cs : List ModelFunctionCall) → ltb n (length cs) ≡ false → take n cs ≡ cs
take-all zero [] h = refl
take-all (suc n) [] h = refl
take-all zero (c ∷ cs) h = ground arith
take-all (suc n) (c ∷ cs) h = ap (◌∷◌ c) (take-all n cs (ground arith))

-- What holds of a step that ends with a suspended turn or else gives this.
abbrev pub Unless : Option TurnOutcome → TurnStatus → Type 0 → Type 0
Unless none st X = X
Unless (some o) st X = (st ≡ TurnStatus.suspended) ⊎ X

request-Answered :
    (is : List TurnItemKind) (c : Option ModelContinuation) (text : Option String)
    (call : ModelFunctionCall) (calls : List ModelFunctionCall) {ks : List TurnItemKind}
    → Answers (call ∷ calls) ks
    → pending_in (last_requests ((is ++ model_response c text (call ∷ calls) ∷ []) ++ ks)) ≡ []
unfolding last_requests pending_in
request-Answered is c text call calls {ks} a =
    rw
      (
        append_assoc is (model_response c text (call ∷ calls) ∷ []) ks,
        last_requests-request is (call ∷ calls, ks) (model_response c text (call ∷ calls) ∷ ks)
            (rw a.requests refl),
      )
      (without_output-nil ks (call ∷ calls) a.each)

over_limit-Answers : (limit : ℕ) (cs : List ModelFunctionCall) → Answers cs (over_limit limit cs)
unfolding last_requests
over_limit-Answers limit cs = rw (append-nil cs) at (
    Answers-append (outputs-Answers (ToolResult.error (skipped_error limit)) cs)
      (quiet-Answers (turn_failed (limit_error limit) ∷ []) refl))

Handled-Answers :
    {limit : ℕ} {cs : List ModelFunctionCall} {v u : View} {p : Option TurnOutcome}
    → Handled limit cs v p u
    → Unless p u.status ((ks : List TurnItemKind) × (u.items ≡ v.items ++ ks) × Answers cs ks)
Handled-Answers {limit} {cs} {v} (within {ks} e r) =
    (ks, refl, rw (take-all (admitted limit cs v) cs e) at (Ran-Answers r))
Handled-Answers {limit} {cs} {v} (over {ks} e r) = inr (
  ks ++ over_limit limit (drop (admitted limit cs v) cs),
  refl,
  rw (take-append-drop (admitted limit cs v) cs) at
      (Answers-append (Ran-Answers r) (over_limit-Answers limit (drop (admitted limit cs v) cs))),
)
Handled-Answers (ended {ks = ks} b) = elim (Broke-Answers b) [
  | inl e ↦ inl e
  | inr a ↦ inr (ks, refl, a)
]

pub Unless-map :
    (p : Option TurnOutcome) (st : TurnStatus) {X Y : Type 0}
    → (X → Y)
    → Unless p st X
    → Unless p st Y
Unless-map none st f x = f x
Unless-map (some o) st f (inl e) = inl e
Unless-map (some o) st f (inr x) = inr (f x)

Nothing : View → Type 0
Nothing u = pending_in (last_requests u.items) ≡ []

Round-Nothing :
    {limit : ℕ} {v u : View} {p : Option TurnOutcome}
    → Nothing v
    → Round limit v p u
    → Unless p u.status (Nothing u)
unfolding last_requests Nothing
Round-Nothing {v = v} h Round.aborted =
    inr (pending_in-append v.items (turn_aborted aborted_by_caller ∷ []) refl h)
Round-Nothing {v = v} h (Round.failed e) =
    inr (pending_in-append v.items (turn_failed e ∷ []) refl h)
Round-Nothing {v = v} h (answered c text) =
    inr (pending_in-append v.items (model_response c (some text) [] ∷ []) refl h)
Round-Nothing {v = v} h (silent c text) =
    inr (pending_in-append v.items (model_response c text [] ∷ []) refl h)
Round-Nothing {v = v} {u} {p} h (requested c text call calls handled) =
    Unless-map p u.status (λ (ks, e, a). rw e (request-Answered v.items c text call calls a))
      (Handled-Answers handled)

pub Rounds-Nothing :
    {limit iterations left : ℕ} {v u : View} {o : TurnOutcome}
    → pending_in (last_requests v.items) ≡ []
    → Rounds limit iterations left v o u
    → (u.status ≡ TurnStatus.suspended) ⊎ (pending_in (last_requests u.items) ≡ [])
unfolding last_requests Nothing
Rounds-Nothing {v = v} h exhausted = inr (pending_in-append v.items (turn_failed _ ∷ []) refl h)
Rounds-Nothing h (last r) = Round-Nothing h r
Rounds-Nothing h (again r rs) = Rounds-Nothing (Round-Nothing h r) rs

pub view_in-pending :
    (id : String) (n : ℕ) (thread : Thread) (v : View)
    → view_in id n thread.turns ≡ some v
    → pending_function_calls thread id ≡ pending_in (last_requests v.items)
unfolding pending_function_calls
view_in-pending id n thread v h = go (find_turn id thread.turns) h
  where
    go :
        (o : Option Turn)
        → Option.map (view_of n) o ≡ some v
        → elim o [ none ↦ [] | some t ↦ pending_in (last_requests (kinds t)) ]
          ≡ pending_in (last_requests v.items)
    go none e = cc
    go (some t) e = ap (λ w. pending_in (last_requests w.items)) (Option.some-injective _ _ e)

-- An outcome that leaves a suspended turn is a suspension.
pub status_of-suspended :
    (o : TurnOutcome)
    → status_of o ≡ TurnStatus.suspended
    → (x : Suspension) × (o ≡ TurnOutcome.suspended x)
unfolding status_of
status_of-suspended (TurnOutcome.suspended x) e = (x, refl)
status_of-suspended (TurnOutcome.assistant_message text) e = cc
status_of-suspended TurnOutcome.completed_without_message e = cc
status_of-suspended (TurnOutcome.failed x) e = cc
status_of-suspended (TurnOutcome.aborted x) e = cc
