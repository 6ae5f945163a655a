-- ===== src/Revision/Diff/Empty.antt =====
-- `AgentDiff::is_empty` of canary-agent-revision/src/diff.rs, and when two specifications agree.
use canary_agent.Prelude.{
  String, Bool, true, false, Option, none, some, List, [], ◌∷◌, ◌++◌, is_empty, ◌≡◌, refl, sym, ◌∙◌,
  ap, ◌&&◌, ◌↔◌, if◌then◌else◌,
}
use canary_agent.Prelude.Equality.{same, same→eq, same_self, String-discrete}
use canary_agent.Prelude.TreeMap.{TreeMap, lookup, keys, sorted_keys}
use canary_agent.Prelude.Result.{ok, ok_inj}
use canary_agent.Revision.Spec.{
  AgentSpec, ModelSpec-discrete, PromptSpec-discrete, ToolSpec, ToolSpec-discrete,
  RuntimePolicySpec-discrete, AgentBuildRef-discrete,
}
use canary_agent.Revision.Diff.{
  AgentDiff, ValueChange, ToolChange, changed, tool_change, changes_at, diff_tools, between,
  is_empty_diff, is_none,
}
use canary_agent.Revision.Diff.Changes.{apply_changes, lookup-diff_tools}

-- Two specifications agree: equal fields, and equal tools under every name.
pub record Agree (before after : AgentSpec) : Type 0 where
  pub same_agent_id : before.agent_id ≡ after.agent_id
  pub same_model : before.model ≡ after.model
  pub same_prompts : before.prompts ≡ after.prompts
  pub same_tools : (name : String) → lookup name before.tools ≡ lookup name after.tools
  pub same_runtime : before.runtime ≡ after.runtime
  pub same_build : before.build ≡ after.build

module _ {T : Type 0} (eq : Discrete T) (before after : T) where
  is_none-changed : is_none (changed eq before after) ≡ same eq before after
  unfolding changed
  is_none-changed = by_case (same eq before after)
    where
      by_case :
          (b : Bool)
          → is_none {A = ValueChange T}
              (if b then none else some (record { before = before; after = after }))
            ≡ b
      by_case true = refl
      by_case false = refl

  unchanged : is_none (changed eq before after) ≡ true → before ≡ after
  unchanged h = same→eq eq before after (sym is_none-changed ∙ h)

  unchanged_self : before ≡ after → is_none (changed eq before after) ≡ true
  unchanged_self e = is_none-changed ∙ ap (same eq before) (sym e) ∙ same_self eq before

no_change : (name : String) (tool : Option ToolSpec) → tool_change name tool tool ≡ none
unfolding tool_change
no_change name none = refl
no_change name (some tool) = rw (same_self ToolSpec-discrete tool) refl

module _ (before after : TreeMap ToolSpec) where
  no_changes :
      ((name : String) → lookup name before ≡ lookup name after)
      → (names : List String) → changes_at before after names ≡ []
  unfolding changes_at
  no_changes agree [] = refl
  no_changes agree (name ∷ names) =
      rw (agree name, no_change name (lookup name after), no_changes agree names) refl

  diff_tools-empty :
      is_empty (diff_tools before after) ≡ true
      → (name : String) → lookup name before ≡ lookup name after
  unfolding apply_changes
  diff_tools-empty h name = by_case (diff_tools before after) refl h
    where
      by_case :
          (changes : List ToolChange)
          → diff_tools before after ≡ changes
          → is_empty changes ≡ true
          → lookup name before ≡ lookup name after
      by_case [] e h =
          sym (ap (λ changes. lookup name (apply_changes changes before)) e)
          ∙ lookup-diff_tools before after name
      by_case (change ∷ changes) e h = cc

  diff_tools-Agree :
      ((name : String) → lookup name before ≡ lookup name after)
      → is_empty (diff_tools before after) ≡ true
  unfolding diff_tools
  diff_tools-Agree agree = rw (no_changes agree (sorted_keys (keys before ++ keys after))) refl

all_true :
    (a b c d e f : Bool)
    → (a && b && c && d && e && f) ≡ true
    → (a ≡ true) × (b ≡ true) × (c ≡ true) × (d ≡ true) × (e ≡ true) × (f ≡ true)
all_true true true true true true true h = (refl, refl, refl, refl, refl, refl)
all_true false b c d e f h = cc
all_true true false c d e f h = cc
all_true true true false d e f h = cc
all_true true true true false e f h = cc
all_true true true true true false f h = cc
all_true true true true true true false h = cc

module _ (before after : AgentSpec) where
  abbrev none_changed : Bool
  none_changed =
      is_none (changed String-discrete before.agent_id after.agent_id)
      && is_none (changed ModelSpec-discrete before.model after.model)
      && is_none (changed PromptSpec-discrete before.prompts after.prompts)
      && is_empty (diff_tools before.tools after.tools)
      && is_none (changed RuntimePolicySpec-discrete before.runtime after.runtime)
      && is_none (changed AgentBuildRef-discrete before.build after.build)

  none_changed→Agree : none_changed ≡ true → Agree before after
  none_changed→Agree h =
      let (id, model, prompts, tools, runtime, build) = all_true _ _ _ _ _ _ h in
      record {
        same_agent_id = unchanged String-discrete before.agent_id after.agent_id id;
        same_model = unchanged ModelSpec-discrete before.model after.model model;
        same_prompts = unchanged PromptSpec-discrete before.prompts after.prompts prompts;
        same_tools = diff_tools-empty before.tools after.tools tools;
        same_runtime = unchanged RuntimePolicySpec-discrete before.runtime after.runtime runtime;
        same_build = unchanged AgentBuildRef-discrete before.build after.build build;
      }

  Agree→none_changed : Agree before after → none_changed ≡ true
  Agree→none_changed agree =
      rw
        (
          unchanged_self String-discrete before.agent_id after.agent_id agree.same_agent_id,
          unchanged_self ModelSpec-discrete before.model after.model agree.same_model,
          unchanged_self PromptSpec-discrete before.prompts after.prompts agree.same_prompts,
          diff_tools-Agree before.tools after.tools agree.same_tools,
          unchanged_self RuntimePolicySpec-discrete before.runtime after.runtime agree.same_runtime,
          unchanged_self AgentBuildRef-discrete before.build after.build agree.same_build,
        )
        refl

-- The difference of two specifications is empty exactly when their fields are equal and they have the same
-- tool under every name.
pub is_empty-between :
    (before after : AgentSpec) {diff : AgentDiff}
    → between before after ≡ ok diff
    → (is_empty_diff diff ≡ true) ↔ Agree before after
unfolding between is_empty_diff
is_empty-between before after {diff} h =
    rw (sym (ok_inj h)) (none_changed→Agree before after, Agree→none_changed before after)
