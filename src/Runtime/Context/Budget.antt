-- ===== src/Runtime/Context/Budget.antt =====
-- What `CompactingContextBuilder::build` of canary-agent-runtime/src/context.rs promises.
use canary_agent.Prelude.{
  ℕ, ◌+◌, ◌≤◌, ◌<◌, ◌≡◌, refl, sym, ap, String, Option, none, some, List, [], ◌∷◌, ◌++◌, arith, ltb,
  leb, length, All, All-map, All-reverse, Bool-cases, inl, inr,
}
use mathlib.Core.List.{reverse}
use canary_agent.Prelude.Result.{ok, ok_inj}
use canary_agent.Kernel.Events.{saturating_add, u64_max}
use canary_agent.Kernel.Model.{ChatMessage, system}
use canary_agent.Runtime.Error.{Result}
use canary_agent.Runtime.Exec.{from_bind, lift, pure}
use canary_agent.Runtime.Context.{
  ContextBuilder, ContextBuildInput, ContextBuildOutput, ThreadContextCache, Selection, selection,
  with_selection, with_summary, build, check_summary, output, summarize, system_message,
  system_tokens, budget, history_budget, reserved_summary_budget, groups, omitted_by,
}
use canary_agent.Runtime.Context.Blocks.{IsBlock-IsNonempty, tool_call_blocks-IsBlock}
use canary_agent.Runtime.Context.Selected.{
  Chosen, Chosen-le, select-Chosen, saturating_add-eq, IsNonempty,
}

module _ {W : Type 0} (b : ContextBuilder W) (input : ContextBuildInput) where
  abbrev summary_tokens : Option String → ℕ
  summary_tokens none = 0
  summary_tokens (some s) = b.estimate (system s ∷ [])

  abbrev summary_messages : Option String → List ChatMessage
  summary_messages none = []
  summary_messages (some s) = system s ∷ []

  abbrev cache_for : List ChatMessage → Option String → Option ThreadContextCache
  cache_for omitted none = none
  cache_for omitted (some s) = some (record {
    thread_id = input.thread_id;
    source_revision = input.thread_revision;
    policy_version = b.policy_version;
    covered_message_count = length omitted;
    summary = s;
  })

  check_summary-eq :
      (tokens : ℕ) (o : Option String) (p : Option String)
      → b.max_context_tokens < u64_max
      → tokens ≤ budget b input
      → check_summary b input tokens o ≡ ok p
      → (p ≡ o) × (tokens + summary_tokens p ≤ budget b input)
  unfolding check_summary
  check_summary-eq tokens none p small fits h = rw (← ok_inj h) (refl, omega arith)
  check_summary-eq tokens (some s) p small fits h =
      let n = b.estimate (system s ∷ []) in
      elim (Bool-cases (ltb (reserved_summary_budget b input) n)) [
        | inl big ↦ cc (rw big at h)
        | inr fine ↦ elim (Bool-cases (ltb (budget b input) (saturating_add tokens n))) [
          | inl over ↦ cc (rw (fine, over) at h)
          | inr within ↦
              let e : saturating_add tokens n ≡ tokens + n =
                saturating_add-eq tokens n (budget b input) (omega arith) (ground arith) in
              rw (← ok_inj (rw (fine, within) at h)) (refl, ground arith)
        ]
      ]

  -- An output, and the selection and summary that it was made of.
  pub record IsBuilt (out : ContextBuildOutput) (s : Selection) (summary : Option String)
      : Type 0 where
    pub chosen : Chosen b (budget b input) (groups b input) s
    pub messages : out.messages ≡ system_message b input ∷ summary_messages summary ++ s.selected
    pub within :
        system_tokens b input + s.selected_tokens + summary_tokens summary ≤ b.max_context_tokens
    pub cached : out.cache ≡ cache_for (omitted_by b input s) summary

  groups-IsNonempty : All IsNonempty (reverse (groups b input))
  groups-IsNonempty = All-reverse IsNonempty (groups b input) (
      All-map IsBlock-IsNonempty (groups b input)
        (tool_call_blocks-IsBlock input.projection.conversation).1)

  output-IsBuilt :
      (s : Selection) (p : Option String) {out : ContextBuildOutput} {w w' : W}
      → ◌≡◌ {A = Result ContextBuildOutput × W}
          (ok (output b input s.selected (omitted_by b input s) p), w)
          (ok out, w')
      → Chosen b (budget b input) (groups b input) s
      → system_tokens b input ≤ b.max_context_tokens
      → s.selected_tokens + summary_tokens p ≤ budget b input
      → IsBuilt out s p
  unfolding output
  output-IsBuilt s none e chosen less fits = record {
    chosen = chosen;
    messages = ap (λ o. o.messages) (sym (ok_inj (ap (λ r. r.0) e)));
    within = omega arith;
    cached = ap (λ o. o.cache) (sym (ok_inj (ap (λ r. r.0) e)));
  }
  output-IsBuilt s (some t) e chosen less fits = record {
    chosen = chosen;
    messages = ap (λ o. o.messages) (sym (ok_inj (ap (λ r. r.0) e)));
    within = omega arith;
    cached = ap (λ o. o.cache) (sym (ok_inj (ap (λ r. r.0) e)));
  }

  -- A context that is built keeps within the limit, counting the system message, the summary and
  -- the blocks that it holds, if no estimate reaches the largest machine integer and an empty list
  -- is estimated at one token at most. It holds the system message, the summary if there is one,
  -- and then the newest blocks of the conversation, whole and in order, or what the policy makes
  -- of the newest block where that block alone is over the budget; a new cache covers exactly the
  -- messages of the blocks that are left out.
  pub build-IsBuilt :
      (w w' : W) (out : ContextBuildOutput)
      → b.max_context_tokens < u64_max
      → b.estimate [] ≤ 1
      → build b input w ≡ (ok out, w')
      → (s : Selection) × (summary : Option String) × IsBuilt out s summary
  unfolding build
  build-IsBuilt w w' out small nothing h =
      elim (Bool-cases (leb b.max_context_tokens (system_tokens b input))) [
        | inl over ↦ cc (rw over at h)
        | inr within ↦
            from_bind (lift (selection b input)) (with_selection b input) w (rw within at h)
              λ s w1 e1 h1.
                from_bind (summarize b input (omitted_by b input s)) (with_summary b input s) w1 h1
                  λ proposed w2 e2 h2.
                    from_bind (lift (check_summary b input s.selected_tokens proposed))
                      (λ p. pure (output b input s.selected (omitted_by b input s) p)) w2 h2
                      λ summary w3 e3 h3.
                        let chosen =
                          select-Chosen b (budget b input) (history_budget b input) (groups b input)
                            s (omega arith) (omega arith) groups-IsNonempty (ap (λ p. p.0) e1) in
                        let fits =
                          Chosen-le b (budget b input) (history_budget b input) (ground arith)
                            chosen in
                        let checked =
                          check_summary-eq s.selected_tokens proposed summary small fits
                            (ap (λ p. p.0) e3) in
                        (s, summary, output-IsBuilt s summary h3 chosen (ground arith) checked.1)
      ]
