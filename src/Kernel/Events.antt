-- ===== src/Kernel/Events.antt =====
-- canary-agent-kernel/src/events.rs and revision.rs: threads, turns and their items.
use canary_agent.Prelude.{
  ℕ, ◌+◌, ◌-◌, ◌^◌, String, Bool, ◌&&◌, Option, none, some, List, [], ◌∷◌, ◌++◌, ◌==◌, ltb, eqb,
  if◌then◌else◌,
}
use canary_agent.Kernel.Value.{Value, object, end_fields}
use canary_agent.Kernel.Clock.{Clock, Timed, new_id, now_timestamp, ◌>>=◌, pure}

-- Bytes in order; the initial token is empty.
pub record RevisionToken : Type 0 where
  pub bytes : List ℕ

abbrev pub initial : RevisionToken
initial = record { bytes = [] }

pub record TokenUsage : Type 0 where
  pub input_tokens : ℕ
  pub cached_input_tokens : ℕ
  pub output_tokens : ℕ
  pub total_tokens : ℕ

abbrev pub no_usage : TokenUsage
no_usage = record { input_tokens = 0; cached_input_tokens = 0; output_tokens = 0; total_tokens = 0 }

abbrev pub u64_max : ℕ
u64_max = 2 ^ 64 - 1

-- `u64::saturating_add`
unfoldable pub saturating_add : ℕ → ℕ → ℕ
saturating_add a b = if ltb u64_max (a + b) then u64_max else a + b

unfoldable pub is_zero : TokenUsage → Bool
is_zero u =
    eqb u.input_tokens 0
    && eqb u.cached_input_tokens 0
    && eqb u.output_tokens 0
    && eqb u.total_tokens 0

unfoldable pub add_assign : TokenUsage → TokenUsage → TokenUsage
unfolding saturating_add
add_assign self usage = record {
  input_tokens = saturating_add self.input_tokens usage.input_tokens;
  cached_input_tokens = saturating_add self.cached_input_tokens usage.cached_input_tokens;
  output_tokens = saturating_add self.output_tokens usage.output_tokens;
  total_tokens = saturating_add self.total_tokens usage.total_tokens;
}

pub data TurnStatus : Type 0 where
  running suspended completed failed aborted : TurnStatus

pub data TurnItemSource : Type 0 where
  user model tool runtime : TurnItemSource

pub data SuspensionKind : Type 0 where
  user_input function_recovery human_approval credential_required : SuspensionKind
  webhook long_running_job : SuspensionKind
  custom : String → SuspensionKind

pub record Suspension : Type 0 where
  pub id : String
  pub kind : SuspensionKind
  pub payload : Value

pub data ToolResult : Type 0 where
  success : Value → ToolResult
  error : String → ToolResult
  aborted : String → ToolResult

-- `ModelFunctionCall` and `ModelContinuation` of canary-agent-kernel/src/model.rs
pub record ModelFunctionCall : Type 0 where
  pub call_id : String
  pub name : String
  pub arguments : Value

pub record ModelContinuation : Type 0 where
  pub format : String
  pub payload : Value

-- The arguments stand in the order of the source's fields.
pub data TurnItemKind : Type 0 where
  user_input : String → Option String → TurnItemKind
  model_response : Option ModelContinuation → Option String → List ModelFunctionCall → TurnItemKind
  tool_output : String → String → ToolResult → TurnItemKind
  function_call_started : String → String → ℕ → TurnItemKind
  suspension_created : Suspension → TurnItemKind
  turn_failed : String → TurnItemKind
  turn_aborted : String → TurnItemKind

pub record TurnItem : Type 0 where
  pub id : String
  pub created_at : String
  pub source : TurnItemSource
  pub kind : TurnItemKind

pub record Turn : Type 0 where
  pub id : String
  pub status : TurnStatus
  pub items : List TurnItem
  pub created_at : String
  pub updated_at : String

pub record Thread : Type 0 where
  pub schema_version : ℕ
  pub revision : RevisionToken
  pub id : String
  pub metadata : Value
  pub turns : List Turn
  pub token_usage : TokenUsage
  pub created_at : String
  pub updated_at : String

unfoldable pub new_thread : String → Timed Thread
new_thread id = do
  now ← now_timestamp
  pure (record {
    schema_version = 1;
    revision = initial;
    id = id;
    metadata = object end_fields;
    turns = [];
    token_usage = no_usage;
    created_at = now;
    updated_at = now;
  })

unfoldable pub touch : Thread → Timed Thread
touch thread = do now ← now_timestamp; pure (record thread { updated_at = now })

unfoldable pub new_turn : Timed Turn
new_turn = do
  now ← now_timestamp
  id ← new_id "turn"
  pure (record {
    id = id;
    status = TurnStatus.running;
    items = [];
    created_at = now;
    updated_at = now;
  })

unfoldable pub new_item : TurnItemSource → TurnItemKind → Timed TurnItem
new_item source kind = do
  id ← new_id "item"
  now ← now_timestamp
  pure (record { id = id; created_at = now; source = source; kind = kind })

unfoldable pub push_item : Turn → TurnItem → Timed Turn
push_item turn item = do
  now ← now_timestamp
  pure (record turn { items = turn.items ++ item ∷ []; updated_at = now })

unfoldable pub set_status : Turn → TurnStatus → Timed Turn
set_status turn status = do
  now ← now_timestamp
  pure (record turn { status = status; updated_at = now })

-- `turn_mut` with what its caller does to the turn: the first turn with the id is changed, and
-- `none` says that there is none.
unfoldable pub turn_mut :
    String → (Turn → Timed Turn) → List Turn → Clock → Option (List Turn × Clock)
turn_mut id f [] c = none
turn_mut id f (t ∷ ts) c =
    let rest = turn_mut id f ts c in
    if t.id == id
    then (let (t', c') = f t c in some (t' ∷ ts, c'))
    else elim rest [ none ↦ none | some (ts', c') ↦ some (t ∷ ts', c') ]
