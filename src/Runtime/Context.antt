-- ===== src/Runtime/Context.antt =====
-- canary-agent-runtime/src/context.rs: the context of a model request, within a token budget.
pub mod Blocks
pub mod Selected
pub mod Budget
use canary_agent.Prelude.{
  ℕ, suc, ◌-◌, min, String, Bool, true, false, not, ◌&&◌, Option, none, some, List, [], ◌∷◌, ◌++◌,
  map, ltb, leb, eqb, if◌then◌else◌, ◌==◌, length, take, drop, is_empty,
}
use mathlib.Core.Option
use mathlib.Core.List.{reverse, flatten}
use canary_agent.Prelude.Result.{ok, err}
use canary_agent.Kernel.Value.{string}
use canary_agent.Kernel.Events.{RevisionToken, saturating_add}
use canary_agent.Kernel.Model.{ChatMessage, system, assistant, tool}
use canary_agent.Kernel.Projection.{ThreadProjection}
use canary_agent.Runtime.Error.{
  Result, context_window_exceeded, context_compactor_contract_violation,
}
use canary_agent.Runtime.Exec.{Exec, pure, raise, lift, ◌>>=◌}

pub data OversizedGroupPolicy : Type 0 where
  elide_tool_outputs drop_with_marker fail : OversizedGroupPolicy

-- canary-agent-runtime/src/store.rs
pub record ThreadContextCache : Type 0 where
  pub thread_id : String
  pub source_revision : RevisionToken
  pub policy_version : String
  pub covered_message_count : ℕ
  pub summary : String

pub record ContextBuildInput : Type 0 where
  pub thread_id : String
  pub thread_revision : RevisionToken
  pub projection : ThreadProjection
  pub system_prompt : String
  pub cached_context : Option ThreadContextCache

pub record ContextBuildOutput : Type 0 where
  pub messages : List ChatMessage
  pub cache : Option ThreadContextCache

pub record CompactionInput : Type 0 where
  pub messages : List ChatMessage
  pub previous_summary : Option String
  pub max_summary_tokens : ℕ

-- `CompactingContextBuilder`; the estimator and the compactor are the application's, and a
-- compactor acts on the world `W`.
pub record ContextBuilder (W : Type 0) : Type 0 where
  pub max_context_tokens : ℕ
  pub summary_budget_tokens : ℕ
  pub oversized_group_policy : OversizedGroupPolicy
  pub policy_version : String
  pub estimate : List ChatMessage → ℕ
  pub compactor : Option (CompactionInput → W → Result String × W)

unfoldable pub requests_tools : ChatMessage → Bool
requests_tools (assistant _ _ calls) = not (is_empty calls)
requests_tools _ = false

-- the loop of `tool_call_blocks` from inside a group; `gathers` says whether it takes tool messages
unfoldable pub collect : List ChatMessage → Bool → List ChatMessage → List (List ChatMessage)
unfolding requests_tools
collect group gathers [] = group ∷ []
collect group true (tool id name content ∷ ms) =
    collect (group ++ tool id name content ∷ []) true ms
collect group gathers (m ∷ ms) = group ∷ collect (m ∷ []) (requests_tools m) ms

unfoldable pub tool_call_blocks : List ChatMessage → List (List ChatMessage)
unfolding collect
tool_call_blocks [] = []
tool_call_blocks (m ∷ ms) = collect (m ∷ []) (requests_tools m) ms

abbrev marker : ChatMessage
marker = system "[conversation block omitted because it exceeded the context budget]"

unfoldable pub context_truncation_marker : (List ChatMessage → ℕ) → ℕ → List ChatMessage
context_truncation_marker estimate budget =
    if leb (estimate (marker ∷ [])) budget then marker ∷ [] else []

unfoldable pub elide : ChatMessage → ChatMessage
elide (tool id name _) =
    tool id name (string "[tool output elided because it exceeded the context budget]")
elide m = m

unfoldable pub fit_oversized_group :
    List ChatMessage → ℕ → OversizedGroupPolicy → (List ChatMessage → ℕ) → Result (List ChatMessage)
unfolding context_truncation_marker elide
fit_oversized_group group budget OversizedGroupPolicy.fail estimate =
    err (context_window_exceeded (estimate group) budget)
fit_oversized_group group budget OversizedGroupPolicy.drop_with_marker estimate =
    ok (context_truncation_marker estimate budget)
fit_oversized_group group budget OversizedGroupPolicy.elide_tool_outputs estimate =
    if leb (estimate (map elide group)) budget
    then ok (map elide group)
    else ok (context_truncation_marker estimate budget)

-- The variables of the selection loop when it ends.
pub record Selection : Type 0 where
  pub selected : List ChatMessage
  pub selected_tokens : ℕ
  pub omitted_group_end : ℕ

module _ {W : Type 0} (b : ContextBuilder W) (budget history_budget : ℕ) where
  oversized : List ChatMessage → ℕ → Result Selection
  unfolding fit_oversized_group
  oversized group index =
      elim (fit_oversized_group group budget b.oversized_group_policy b.estimate) [
        | ok reduced ↦ ok (record {
          selected = reduced;
          selected_tokens = b.estimate reduced;
          omitted_group_end = index;
        })
        | err e ↦ err e
      ]

  -- The groups come newest first, so that the index of each is the number of those behind it.
  unfoldable pub select : List (List ChatMessage) → List ChatMessage → ℕ → Result Selection
  unfolding oversized
  select [] selected tokens =
      ok (record { selected = selected; selected_tokens = tokens; omitted_group_end = 0 })
  select (group ∷ older) selected tokens =
      let total = saturating_add tokens (b.estimate group) in
      let rest = select older (group ++ selected) total in
      if ltb (if is_empty selected then budget else history_budget) total
      then (if is_empty selected
          then oversized group (length older)
          else ok (record {
            selected = selected;
            selected_tokens = tokens;
            omitted_group_end = suc (length older);
          }))
      else rest

bytes_eq : List ℕ → List ℕ → Bool
bytes_eq [] [] = true
bytes_eq (x ∷ xs) (y ∷ ys) = eqb x y && bytes_eq xs ys
bytes_eq _ _ = false

-- `==` of tokens
token_eq : RevisionToken → RevisionToken → Bool
unfolding bytes_eq
token_eq s t = bytes_eq s.bytes t.bytes

module _ {W : Type 0} (b : ContextBuilder W) (input : ContextBuildInput) where
  abbrev pub system_message : ChatMessage
  system_message = system input.system_prompt

  abbrev pub system_tokens : ℕ
  system_tokens = b.estimate (system_message ∷ [])

  abbrev pub budget : ℕ
  budget = b.max_context_tokens - system_tokens

  abbrev pub reserved_summary_budget : ℕ
  reserved_summary_budget = elim b.compactor [
    | none ↦ 0
    | some _ ↦ min b.summary_budget_tokens budget
  ]

  abbrev pub history_budget : ℕ
  history_budget = budget - reserved_summary_budget

  abbrev pub groups : List (List ChatMessage)
  groups = tool_call_blocks input.projection.conversation

  cache_is_current : ℕ → ThreadContextCache → Bool
  unfolding token_eq
  cache_is_current omitted cache =
      token_eq cache.source_revision input.thread_revision
      && cache.policy_version == b.policy_version
      && eqb cache.covered_message_count omitted

  previous_summary : ℕ → Option String
  previous_summary omitted = elim input.cached_context [
    | none ↦ none
    | some cache ↦
        if cache.policy_version == b.policy_version && leb cache.covered_message_count omitted
        then some cache.summary
        else none
  ]

  compaction_start : ℕ → ℕ
  compaction_start omitted = elim input.cached_context [
    | none ↦ 0
    | some cache ↦
        if cache.policy_version == b.policy_version
        then min cache.covered_message_count omitted
        else 0
  ]

  fresh_summary : List ChatMessage → Exec W (Option String)
  unfolding previous_summary compaction_start
  fresh_summary omitted = elim b.compactor [
    | none ↦ pure none
    | some compact ↦ (do
      summary ← compact (record {
        messages = drop (compaction_start (length omitted)) omitted;
        previous_summary = previous_summary (length omitted);
        max_summary_tokens = reserved_summary_budget;
      })
      pure (some summary))
  ]

  summarize : List ChatMessage → Exec W (Option String)
  unfolding cache_is_current fresh_summary
  summarize [] = pure none
  summarize (m ∷ ms) = elim input.cached_context [
    | none ↦ fresh_summary (m ∷ ms)
    | some cache ↦
        if cache_is_current (length (m ∷ ms)) cache
        then pure (some cache.summary)
        else fresh_summary (m ∷ ms)
  ]

  check_summary : ℕ → Option String → Result (Option String)
  check_summary selected_tokens none = ok none
  check_summary selected_tokens (some summary) =
      let summary_tokens = b.estimate (system summary ∷ []) in
      if ltb reserved_summary_budget summary_tokens
      then err (context_compactor_contract_violation summary_tokens reserved_summary_budget)
      else if ltb budget (saturating_add selected_tokens summary_tokens)
      then err (
          context_window_exceeded
            (saturating_add (saturating_add system_tokens selected_tokens) summary_tokens)
            b.max_context_tokens)
      else ok (some summary)

  output : List ChatMessage → List ChatMessage → Option String → ContextBuildOutput
  output selected omitted none = record { messages = system_message ∷ selected; cache = none }
  output selected omitted (some summary) = record {
    messages = system_message ∷ system summary ∷ selected;
    cache = some (record {
      thread_id = input.thread_id;
      source_revision = input.thread_revision;
      policy_version = b.policy_version;
      covered_message_count = length omitted;
      summary = summary;
    });
  }

  abbrev omitted_by : Selection → List ChatMessage
  omitted_by s = flatten (take s.omitted_group_end groups)

  with_summary : Selection → Option String → Exec W ContextBuildOutput
  unfolding check_summary output
  with_summary s proposed = do
    summary ← lift (check_summary s.selected_tokens proposed)
    pure (output s.selected (omitted_by s) summary)

  with_selection : Selection → Exec W ContextBuildOutput
  unfolding summarize with_summary
  with_selection s = do proposed ← summarize (omitted_by s); with_summary s proposed

  abbrev selection : Result Selection
  selection = select b budget history_budget (reverse groups) [] 0

  unfoldable pub build : Exec W ContextBuildOutput
  unfolding select tool_call_blocks with_selection
  build =
      if leb b.max_context_tokens system_tokens
      then raise (context_window_exceeded system_tokens b.max_context_tokens)
      else do s ← lift selection; with_selection s
