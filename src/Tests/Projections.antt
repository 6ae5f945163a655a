-- ===== src/Tests/Projections.antt =====
-- A thread with a turn that was suspended before a call, for canary-agent-kernel/src/projection.rs.
use canary_agent.Prelude.{◌≡◌, ◌⊎◌, ◌↔◌, none, some, [], ◌∷◌, All}
use canary_agent.Kernel.Value.{string}
use canary_agent.Kernel.Events.{
  Thread, Turn, TurnItem, TurnItemSource, TurnItemKind, TurnStatus, ModelFunctionCall, Suspension,
  SuspensionKind, user_input, model_response, suspension_created, no_usage, initial,
}
use canary_agent.Kernel.Projection.{PendingSuspension, from_thread}
use canary_agent.Kernel.Projection.Pending.{IsPending, facts, from_thread-IsPending}
use canary_agent.Kernel.Projection.Conversation.{
  messages, NotRunning, IsLastRunning, from_thread-messages, from_thread-active,
}

abbrev call : ModelFunctionCall
call = record { call_id = "c1"; name = "echo"; arguments = string "hi" }

abbrev suspension : Suspension
suspension = record { id = "s1"; kind = SuspensionKind.human_approval; payload = string "" }

abbrev item : TurnItemSource → TurnItemKind → TurnItem
item source kind = record { id = "i"; created_at = ""; source = source; kind = kind }

abbrev turn : Turn
turn = record {
  id = "t1";
  status = TurnStatus.suspended;
  items =
      item TurnItemSource.user (user_input "hello" none)
      ∷ item TurnItemSource.model (model_response none (some "wait") (call ∷ []))
      ∷ item TurnItemSource.runtime (suspension_created suspension)
      ∷ [];
  created_at = "";
  updated_at = "";
}

abbrev thread : Thread
thread = record {
  schema_version = 1;
  revision = initial;
  id = "thread";
  metadata = string "";
  turns = turn ∷ record turn { id = "t2"; status = TurnStatus.running; items = [] } ∷ [];
  token_usage = no_usage;
  created_at = "";
  updated_at = "";
}

abbrev pending : PendingSuspension
pending = record { suspension = suspension; turn_id = "t1" }

from_thread-IsPending_example :
    ((from_thread thread).pending_suspension ≡ some pending)
    ↔ IsPending pending (facts thread.turns)
from_thread-IsPending_example = from_thread-IsPending thread pending

from_thread-messages_example : (from_thread thread).conversation ≡ messages thread.turns
from_thread-messages_example = from_thread-messages thread

from_thread-active_example :
    (((from_thread thread).active_turn_id ≡ none) × All NotRunning thread.turns)
    ⊎ ((u : Turn) × ((from_thread thread).active_turn_id ≡ some u.id)
        × IsLastRunning u thread.turns)
from_thread-active_example = from_thread-active thread
