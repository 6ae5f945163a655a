-- ===== src/Runtime/Agent/Outputs.antt =====
-- Lemmas on `pending_function_calls` of canary-agent-runtime/src/agent_loop.rs: how items that are added change
-- which calls have no output.
use canary_agent.Prelude.{
  String, ◌≡◌, refl, true, Bool-cases, Option, none, some, List, [], ◌∷◌, ◌++◌, inl, inr, ◌==◌, All,
  All-map,
}
use mathlib.Core.Option
use canary_agent.Kernel.Events.{
  TurnItemKind, ModelFunctionCall, user_input, model_response, function_call_started, tool_output,
  suspension_created, turn_failed, turn_aborted,
}
use canary_agent.Runtime.Agent.Recovery.{
  Requests, last_requests, is_completed, without_output, pending_in,
}

abbrev pub HasOutput : List TurnItemKind → ModelFunctionCall → Type 0
HasOutput ks c = is_completed c.call_id ks ≡ true

pub is_completed-left :
    (id : String) (ks js : List TurnItemKind)
    → is_completed id ks ≡ true
    → is_completed id (ks ++ js) ≡ true
unfolding is_completed
is_completed-left id [] js h = cc
is_completed-left id (tool_output i n r ∷ ks) js h = elim (Bool-cases (i == id)) [
  | inl e ↦ rw e refl
  | inr e ↦ rw e (is_completed-left id ks js (rw e at h))
]
is_completed-left id (user_input t r ∷ ks) js h = is_completed-left id ks js h
is_completed-left id (model_response c t cs ∷ ks) js h = is_completed-left id ks js h
is_completed-left id (function_call_started i n a ∷ ks) js h = is_completed-left id ks js h
is_completed-left id (suspension_created s ∷ ks) js h = is_completed-left id ks js h
is_completed-left id (turn_failed e ∷ ks) js h = is_completed-left id ks js h
is_completed-left id (turn_aborted r ∷ ks) js h = is_completed-left id ks js h

pub is_completed-right :
    (id : String) (ks js : List TurnItemKind)
    → is_completed id js ≡ true
    → is_completed id (ks ++ js) ≡ true
unfolding is_completed
is_completed-right id [] js h = h
is_completed-right id (tool_output i n r ∷ ks) js h =
    let rest = is_completed-right id ks js h in
    elim (Bool-cases (i == id)) [ inl e ↦ rw e refl | inr e ↦ rw e rest ]
is_completed-right id (user_input t r ∷ ks) js h = is_completed-right id ks js h
is_completed-right id (model_response c t cs ∷ ks) js h = is_completed-right id ks js h
is_completed-right id (function_call_started i n a ∷ ks) js h = is_completed-right id ks js h
is_completed-right id (suspension_created s ∷ ks) js h = is_completed-right id ks js h
is_completed-right id (turn_failed e ∷ ks) js h = is_completed-right id ks js h
is_completed-right id (turn_aborted r ∷ ks) js h = is_completed-right id ks js h

pub without_output-nil :
    (ks : List TurnItemKind) (cs : List ModelFunctionCall)
    → All (HasOutput ks) cs
    → without_output ks cs ≡ []
unfolding without_output
without_output-nil ks [] h = refl
without_output-nil ks (c ∷ cs) h = rw h.0 (without_output-nil ks cs h.1)

without_output-HasOutput :
    (ks : List TurnItemKind) (cs : List ModelFunctionCall)
    → without_output ks cs ≡ []
    → All (HasOutput ks) cs
unfolding without_output
without_output-HasOutput ks [] h = tt
without_output-HasOutput ks (c ∷ cs) h = elim (Bool-cases (is_completed c.call_id ks)) [
  | inl e ↦ (e, without_output-HasOutput ks cs (rw e at h))
  | inr e ↦ cc (rw e at h)
]

-- Items without a request only add to those behind the last request.
abbrev pub behind : List TurnItemKind → Requests → Requests
behind js (cs, ks) = (cs, ks ++ js)

pub last_requests-append :
    (ks js : List TurnItemKind)
    → last_requests js ≡ none
    → last_requests (ks ++ js) ≡ Option.map (behind js) (last_requests ks)
unfolding last_requests
last_requests-append [] js h = h
last_requests-append (model_response c t (x ∷ xs) ∷ ks) js h =
    rw (last_requests-append ks js h) (go (last_requests ks))
  where
    go :
        (o : Option Requests)
        → elim (Option.map (behind js) o) [ some r ↦ some r | none ↦ some (x ∷ xs, ks ++ js) ]
          ≡ Option.map (behind js) (elim o [ some r ↦ some r | none ↦ some (x ∷ xs, ks) ])
    go none = refl
    go (some r) = refl
last_requests-append (model_response c t [] ∷ ks) js h = last_requests-append ks js h
last_requests-append (tool_output i n r ∷ ks) js h = last_requests-append ks js h
last_requests-append (user_input t r ∷ ks) js h = last_requests-append ks js h
last_requests-append (function_call_started i n a ∷ ks) js h = last_requests-append ks js h
last_requests-append (suspension_created s ∷ ks) js h = last_requests-append ks js h
last_requests-append (turn_failed e ∷ ks) js h = last_requests-append ks js h
last_requests-append (turn_aborted r ∷ ks) js h = last_requests-append ks js h

-- Nothing pending stays so when items without a request are added.
pub pending_in-append :
    (ks js : List TurnItemKind)
    → last_requests js ≡ none
    → pending_in (last_requests ks) ≡ []
    → pending_in (last_requests (ks ++ js)) ≡ []
unfolding pending_in
pending_in-append ks js h p = rw (last_requests-append ks js h) (go (last_requests ks) p)
  where
    go : (o : Option Requests) → pending_in o ≡ [] → pending_in (Option.map (behind js) o) ≡ []
    go none e = refl
    go (some (cs, is)) e =
        without_output-nil (is ++ js) cs
          (All-map (λ c. is_completed-left c.call_id is js) cs (without_output-HasOutput is cs e))

pub last_requests-request :
    (ks : List TurnItemKind) (o : Requests) (js : List TurnItemKind)
    → last_requests js ≡ some o
    → last_requests (ks ++ js) ≡ some o
unfolding last_requests
last_requests-request [] o js h = h
last_requests-request (model_response c t (x ∷ xs) ∷ ks) o js h =
    rw (last_requests-request ks o js h) refl
last_requests-request (model_response c t [] ∷ ks) o js h = last_requests-request ks o js h
last_requests-request (tool_output i n r ∷ ks) o js h = last_requests-request ks o js h
last_requests-request (user_input t r ∷ ks) o js h = last_requests-request ks o js h
last_requests-request (function_call_started i n a ∷ ks) o js h = last_requests-request ks o js h
last_requests-request (suspension_created s ∷ ks) o js h = last_requests-request ks o js h
last_requests-request (turn_failed e ∷ ks) o js h = last_requests-request ks o js h
last_requests-request (turn_aborted r ∷ ks) o js h = last_requests-request ks o js h
