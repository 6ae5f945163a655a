-- ===== src/Kernel/Projection/Conversation.antt =====
-- The messages, results and active turn of canary-agent-kernel/src/projection.rs, without the loop.
use canary_agent.Prelude.{
  String, ◌≡◌, ◌≢◌, refl, sym, ap, ◌∙◌, ◌⊎◌, inl, inr, true, none, some, List, [], ◌∷◌, ◌++◌, arith,
  All, Option-cases,
}
use mathlib.Core.List.{append_assoc, append-nil}
use canary_agent.Kernel.Events.{
  TurnItem, TurnItemKind, Turn, Thread, TurnStatus, user_input, model_response, tool_output,
}
use canary_agent.Kernel.Model.{ChatMessage, user, assistant}
use canary_agent.Kernel.Projection.{
  ThreadProjection, project_item, project_items, project_turns, from_thread, start, tool_message,
  last_running, is_running, turn_id_of,
}

-- What one item says in the conversation.
pub message_of : TurnItemKind → List ChatMessage
message_of (user_input text _) = user text ∷ []
message_of (model_response c text calls) = assistant c text calls ∷ []
message_of (tool_output call_id name result) = tool_message call_id name result ∷ []
message_of _ = []

pub item_messages : List TurnItem → List ChatMessage
item_messages [] = []
item_messages (i ∷ is) = message_of i.kind ++ item_messages is

pub messages : List Turn → List ChatMessage
messages [] = []
messages (t ∷ ts) = item_messages t.items ++ messages ts

project_item-conversation :
    (id : String) (q : ThreadProjection) (k : TurnItemKind)
    → (project_item id q k).conversation ≡ q.conversation ++ message_of k
unfolding project_item message_of
project_item-conversation id q (user_input text none) = refl
project_item-conversation id q (user_input text (some r)) = refl
project_item-conversation id q (model_response _ _ _) = refl
project_item-conversation id q (tool_output _ _ _) = refl
project_item-conversation id q _ = sym (append-nil q.conversation)

project_items-conversation :
    (id : String) (q : ThreadProjection) (is : List TurnItem)
    → (project_items id q is).conversation ≡ q.conversation ++ item_messages is
unfolding project_items item_messages
project_items-conversation id q [] = sym (append-nil q.conversation)
project_items-conversation id q (i ∷ is) =
    project_items-conversation id (project_item id q i.kind) is
    ∙ ap (λ c. c ++ item_messages is) (project_item-conversation id q i.kind)
    ∙ append_assoc q.conversation (message_of i.kind) (item_messages is)

project_turns-conversation :
    (q : ThreadProjection) (ts : List Turn)
    → (project_turns q ts).conversation ≡ q.conversation ++ messages ts
unfolding project_turns messages
project_turns-conversation q [] = sym (append-nil q.conversation)
project_turns-conversation q (t ∷ ts) =
    project_turns-conversation (project_items t.id q t.items) ts
    ∙ ap (λ c. c ++ messages ts) (project_items-conversation t.id q t.items)
    ∙ append_assoc q.conversation (item_messages t.items) (messages ts)

-- The conversation is the messages of the items, each once and in the thread's order.
pub from_thread-messages : (t : Thread) → (from_thread t).conversation ≡ messages t.turns
unfolding from_thread start
from_thread-messages t = project_turns-conversation (start t) t.turns

project_item-active :
    (id : String) (q : ThreadProjection) (k : TurnItemKind)
    → (project_item id q k).active_turn_id ≡ q.active_turn_id
unfolding project_item
project_item-active id q (user_input text none) = refl
project_item-active id q (user_input text (some r)) = refl
project_item-active id q _ = refl

project_items-active :
    (id : String) (q : ThreadProjection) (is : List TurnItem)
    → (project_items id q is).active_turn_id ≡ q.active_turn_id
unfolding project_items
project_items-active id q [] = refl
project_items-active id q (i ∷ is) =
    project_items-active id (project_item id q i.kind) is ∙ project_item-active id q i.kind

project_turns-active :
    (q : ThreadProjection) (ts : List Turn) → (project_turns q ts).active_turn_id ≡ q.active_turn_id
unfolding project_turns
project_turns-active q [] = refl
project_turns-active q (t ∷ ts) =
    project_turns-active (project_items t.id q t.items) ts ∙ project_items-active t.id q t.items

abbrev pub NotRunning : Turn → Type 0
NotRunning t = t.status ≢ TurnStatus.running

last_running-none : (ts : List Turn) → last_running ts ≡ none → All NotRunning ts
unfolding last_running
last_running-none [] h = tt
last_running-none (t ∷ ts) h = (ground arith, last_running-none ts (ground arith))

abbrev pub IsLastRunning : Turn → List Turn → Type 0
IsLastRunning u ts =
    (before : List Turn) × (after : List Turn) × (ts ≡ before ++ u ∷ after)
    × (u.status ≡ TurnStatus.running)
    × All NotRunning after

is_running-eq : (s : TurnStatus) → is_running s ≡ true → s ≡ TurnStatus.running
unfolding is_running
is_running-eq s h = ground arith

last_running-some : (ts : List Turn) (u : Turn) → last_running ts ≡ some u → IsLastRunning u ts
unfolding last_running
last_running-some [] u h = cc
last_running-some (t ∷ ts) u h = elim (Option-cases (last_running ts)) [
  | inl e ↦
      let here : (t ≡ u) × (u.status ≡ TurnStatus.running) = ground arith in
      ([], ts, ap (λ w. w ∷ ts) here.0, here.1, last_running-none ts e)
  | inr (w, e) ↦
      let (before, after, p, r, rest) = last_running-some ts u (ground arith) in
      (t ∷ before, after, ap (◌∷◌ t) p, r, rest)
]

-- The active turn of a projection is the last turn that runs; if it shows none, no turn runs.
pub from_thread-active :
    (t : Thread)
    → (((from_thread t).active_turn_id ≡ none) × All NotRunning t.turns)
      ⊎ ((u : Turn) × ((from_thread t).active_turn_id ≡ some u.id) × IsLastRunning u t.turns)
unfolding from_thread start
from_thread-active t = elim (Option-cases (last_running t.turns)) [
  | inl e ↦
      inl (project_turns-active (start t) t.turns ∙ ap turn_id_of e, last_running-none t.turns e)
  | inr (u, e) ↦
      inr
        (u, project_turns-active (start t) t.turns ∙ ap turn_id_of e, last_running-some t.turns u e)
]
