-- ===== src/Kernel/Projection.antt =====
-- canary-agent-kernel/src/projection.rs: the view of a thread, by one pass over its items.
pub mod Pending
pub mod Conversation
use canary_agent.Prelude.{
  String, Bool, true, false, Option, none, some, List, [], ◌∷◌, ◌++◌, ◌==◌, if◌then◌else◌, concat,
}
use mathlib.Core.Option
use canary_agent.Kernel.Value.{Value, string, get, as_str}
use canary_agent.Kernel.Events.{
  Suspension, ToolResult, TurnItem, TurnItemKind, Turn, Thread, TurnStatus, running, success, error,
  user_input, model_response, tool_output, function_call_started, suspension_created, turn_failed,
  turn_aborted,
}
use canary_agent.Kernel.Model.{ChatMessage, user, assistant, tool}

pub record PendingSuspension : Type 0 where
  pub suspension : Suspension
  pub turn_id : String

pub record CompletedFunctionCall : Type 0 where
  pub call_id : String
  pub name : String
  pub output : Value

pub record ThreadProjection : Type 0 where
  pub conversation : List ChatMessage
  pub pending_suspension : Option PendingSuspension
  pub completed_function_results : List CompletedFunctionCall
  pub last_assistant_message : Option String
  pub latest_turn_id : Option String
  pub active_turn_id : Option String

unfoldable pub is_running : TurnStatus → Bool
is_running running = true
is_running _ = false

-- `turns.last()`
unfoldable pub last_turn : List Turn → Option Turn
last_turn [] = none
last_turn (t ∷ []) = some t
last_turn (t ∷ u ∷ ts) = last_turn (u ∷ ts)

-- `turns.iter().rev().find(...)`: the last turn that is running
unfoldable pub last_running : List Turn → Option Turn
unfolding is_running
last_running [] = none
last_running (t ∷ ts) = elim (last_running ts) [
  | some u ↦ some u
  | none ↦ if is_running t.status then some t else none
]

-- whether an answer with this `response_to` settles the pending suspension
unfoldable pub answers : String → Option PendingSuspension → Bool
answers id none = false
answers id (some p) = p.suspension.id == id

-- whether the pending suspension's payload names the call
unfoldable pub names_call : String → Option PendingSuspension → Bool
names_call call_id none = false
names_call call_id (some p) = elim (Option.bind (get p.suspension.payload "call_id") as_str) [
  | none ↦ false
  | some id ↦ id == call_id
]

unfoldable pub tool_message : String → String → ToolResult → ChatMessage
tool_message call_id name (success output) = tool call_id name output
tool_message call_id name (error e) = tool call_id name (string e)
tool_message call_id name (ToolResult.aborted reason) =
    tool call_id name (string (concat ("tool execution aborted: " ∷ reason ∷ [])))

unfoldable pub completed_result : String → String → ToolResult → List CompletedFunctionCall
completed_result call_id name (success output) =
    record { call_id = call_id; name = name; output = output } ∷ []
completed_result call_id name _ = []

-- the body of the loop over items, in the turn with this id
unfoldable pub project_item : String → ThreadProjection → TurnItemKind → ThreadProjection
unfolding answers names_call tool_message completed_result
project_item turn_id p (user_input text none) = record p {
  conversation = p.conversation ++ user text ∷ [];
  pending_suspension = none;
}
project_item turn_id p (user_input text (some response_to)) = record p {
  conversation = p.conversation ++ user text ∷ [];
  pending_suspension =
      if answers response_to p.pending_suspension then none else p.pending_suspension;
}
project_item turn_id p (model_response continuation text calls) = record p {
  last_assistant_message = elim text [ some t ↦ some t | none ↦ p.last_assistant_message ];
  conversation = p.conversation ++ assistant continuation text calls ∷ [];
}
project_item turn_id p (tool_output call_id name result) = record p {
  pending_suspension =
      if names_call call_id p.pending_suspension then none else p.pending_suspension;
  completed_function_results = p.completed_function_results ++ completed_result call_id name result;
  conversation = p.conversation ++ tool_message call_id name result ∷ [];
}
project_item turn_id p (suspension_created s) = record p {
  pending_suspension = some (record { suspension = s; turn_id = turn_id });
}
project_item turn_id p (function_call_started _ _ _) = p
project_item turn_id p (turn_failed _) = p
project_item turn_id p (turn_aborted _) = p

unfoldable pub project_items : String → ThreadProjection → List TurnItem → ThreadProjection
project_items turn_id p [] = p
project_items turn_id p (i ∷ is) = project_items turn_id (project_item turn_id p i.kind) is

unfoldable pub project_turns : ThreadProjection → List Turn → ThreadProjection
project_turns p [] = p
project_turns p (t ∷ ts) = project_turns (project_items t.id p t.items) ts

abbrev pub turn_id_of : Option Turn → Option String
turn_id_of = Option.map (λ t. t.id)

-- the projection before the loop
unfoldable pub start : Thread → ThreadProjection
unfolding last_turn last_running
start thread = record {
  conversation = [];
  pending_suspension = none;
  completed_function_results = [];
  last_assistant_message = none;
  latest_turn_id = turn_id_of (last_turn thread.turns);
  active_turn_id = turn_id_of (last_running thread.turns);
}

unfoldable pub from_thread : Thread → ThreadProjection
unfolding start project_turns
from_thread thread = project_turns (start thread) thread.turns
