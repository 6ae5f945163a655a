-- ===== src/Runtime/Context/Selected.antt =====
-- Which blocks the selection loop of canary-agent-runtime/src/context.rs keeps.
use canary_agent.Prelude.{
  ℕ, ◌+◌, ◌≤◌, ◌<◌, ◌≡◌, refl, sym, ap, ◌∙◌, false, List, [], ◌∷◌, ◌++◌, map, arith, ltb, leb,
  leb→le, ltb→lt, length, is_empty, All, length-append, Bool-cases, inl, inr,
}
use mathlib.Core.List.{flatten, reverse, reverse-cons, reverse-reverse, append_assoc, append-nil}
use canary_agent.Prelude.Result.{ok, err, ok_inj}
use canary_agent.Kernel.Events.{saturating_add, u64_max}
use canary_agent.Kernel.Model.{ChatMessage}
use canary_agent.Runtime.Error.{Result}
use canary_agent.Runtime.Context.{
  ContextBuilder, Selection, select, oversized, fit_oversized_group, context_truncation_marker,
  OversizedGroupPolicy, elide, marker,
}

-- The sum of the estimates of the blocks.
abbrev pub total : (List ChatMessage → ℕ) → List (List ChatMessage) → ℕ
total estimate [] = 0
total estimate (g ∷ gs) = total estimate gs + estimate g

-- What the loop may end with: the newest blocks, whole, as many as it took and within the budget;
-- or, where not even the newest block fits, what the policy makes of that block.
pub data Chosen {W : Type 0} (b : ContextBuilder W) (budget : ℕ) (groups : List (List ChatMessage))
    (s : Selection) : Type 0 where
  kept :
      (before after : List (List ChatMessage))
      → groups ≡ before ++ after
      → s.selected ≡ flatten after
      → s.omitted_group_end ≡ length before
      → s.selected_tokens ≡ total b.estimate after
      → s.selected_tokens ≤ budget
      → Chosen b budget groups s
  reduced :
      (before : List (List ChatMessage)) (newest : List ChatMessage)
      → groups ≡ before ++ newest ∷ []
      → budget < b.estimate newest
      → fit_oversized_group newest budget b.oversized_group_policy b.estimate ≡ ok s.selected
      → s.omitted_group_end ≡ length before
      → s.selected_tokens ≡ b.estimate s.selected
      → Chosen b budget groups s

length-reverse : {A : Type 0} (xs : List A) → length (reverse xs) ≡ length xs
length-reverse [] = refl
length-reverse (x ∷ xs) =
    omega
      (arith, ap length (reverse-cons x xs), length-append (reverse xs) (x ∷ []), length-reverse xs)

pub saturating_add-eq :
    (a b limit : ℕ) → limit < u64_max → saturating_add a b ≤ limit → saturating_add a b ≡ a + b
unfolding saturating_add
saturating_add-eq a b limit h k = ground arith

saturating_add-le : (a b : ℕ) → saturating_add a b ≤ a + b
unfolding saturating_add
saturating_add-le a b = ground arith

abbrev pub IsNonempty : List ChatMessage → Type 0
IsNonempty g = is_empty g ≡ false

is_empty-append : (g h : List ChatMessage) → IsNonempty g → is_empty (g ++ h) ≡ false
is_empty-append [] h e = cc
is_empty-append (m ∷ g) h e = refl

reverse_split :
    (g : List ChatMessage) (older after : List (List ChatMessage))
    → reverse (g ∷ older) ++ after ≡ reverse older ++ g ∷ after
reverse_split g older after =
    ap (λ gs. gs ++ after) (reverse-cons g older) ∙ append_assoc (reverse older) (g ∷ []) after

module _ {W : Type 0} (b : ContextBuilder W) (budget history_budget : ℕ) where
  oversized-eq :
      (g : List ChatMessage) (i : ℕ) (s : Selection)
      → oversized b budget history_budget g i ≡ ok s
      → (fit_oversized_group g budget b.oversized_group_policy b.estimate ≡ ok s.selected)
        × (s.selected_tokens ≡ b.estimate s.selected)
        × (s.omitted_group_end ≡ i)
  unfolding oversized
  oversized-eq g i s h =
      go (fit_oversized_group g budget b.oversized_group_policy b.estimate) refl h
    where
      go :
          (r : Result (List ChatMessage))
          → fit_oversized_group g budget b.oversized_group_policy b.estimate ≡ r
          → ◌≡◌ {A = Result Selection}
              (elim r [
                | ok x ↦
                    ok (record {
                      selected = x;
                      selected_tokens = b.estimate x;
                      omitted_group_end = i;
                    })
                | err e ↦ err e
              ])
              (ok s)
          → (fit_oversized_group g budget b.oversized_group_policy b.estimate ≡ ok s.selected)
            × (s.selected_tokens ≡ b.estimate s.selected)
            × (s.omitted_group_end ≡ i)
      go (ok x) e k = (e ∙ ap ok (ap (λ t. t.selected) (ok_inj k)), ground arith, ground arith)
      go (err x) e k = cc

  -- in the loop: `after` is taken, and `older`, newest first, is left
  select-Chosen_from :
      (older after : List (List ChatMessage)) (s : Selection)
      → history_budget ≤ budget
      → budget < u64_max
      → All IsNonempty older
      → is_empty (flatten after) ≡ is_empty after
      → total b.estimate after ≤ budget
      → select b budget history_budget older (flatten after) (total b.estimate after) ≡ ok s
      → Chosen b budget (reverse older ++ after) s
  unfolding select flatten
  select-Chosen_from [] after s hb small full same fits h =
      let e = ok_inj h in
      kept [] after refl (ap (λ t. t.selected) (sym e)) (ap (λ t. t.omitted_group_end) (sym e))
        (ap (λ t. t.selected_tokens) (sym e)) (ground arith)
  select-Chosen_from (g ∷ older) [] s hb small full same fits h =
      let sum : ℕ = saturating_add 0 (b.estimate g) in
      elim (Bool-cases (ltb budget sum)) [
        | inl over ↦
            let (f, t, i) = oversized-eq g (length older) s (rw over at h) in
            rw (reverse_split g older []) (
              reduced (reverse older) g refl
                (omega (arith, saturating_add-le 0 (b.estimate g), ltb→lt budget sum over)) f
                (i ∙ sym (length-reverse older)) t)
        | inr within ↦
            let exact : sum ≡ total b.estimate (g ∷ []) =
              saturating_add-eq 0 (b.estimate g) budget small (ground arith) in
            rw (reverse_split g older []) (
              select-Chosen_from older (g ∷ []) s hb small full.1 (is_empty-append g [] full.0)
                (ground arith) (rw (within, exact) at h))
      ]
  select-Chosen_from (g ∷ older) (f ∷ after) s hb small full same fits h =
      let sum : ℕ = saturating_add (total b.estimate (f ∷ after)) (b.estimate g) in
      elim (Bool-cases (ltb history_budget sum)) [
        | inl over ↦
            let e = ok_inj (rw (same, over) at h) in
            rw
              (reverse_split g older (f ∷ after)
                ∙ sym (append_assoc (reverse older) (g ∷ []) (f ∷ after)))
              (kept (reverse older ++ g ∷ []) (f ∷ after) refl (ap (λ t. t.selected) (sym e))
                (ap (λ t. t.omitted_group_end) (sym e)
                  ∙ omega (arith, length-append (reverse older) (g ∷ []), length-reverse older))
                (ap (λ t. t.selected_tokens) (sym e))
                (rw (ap (λ t. t.selected_tokens) (sym e)) fits))
        | inr within ↦
            let fine : sum ≤ budget = ground arith in
            let exact : sum ≡ total b.estimate (g ∷ f ∷ after) =
              saturating_add-eq (total b.estimate (f ∷ after)) _ budget small fine in
            rw (reverse_split g older (f ∷ after)) (
              select-Chosen_from older (g ∷ f ∷ after) s hb small full.1
                (is_empty-append g (flatten (f ∷ after)) full.0) (omega arith)
                (rw (same, within, exact) at h))
      ]

  -- The loop keeps the newest blocks, whole and within the budget, or only what the policy makes
  -- of the newest block, where that one alone is over the budget.
  pub select-Chosen :
      (groups : List (List ChatMessage)) (s : Selection)
      → history_budget ≤ budget
      → budget < u64_max
      → All IsNonempty (reverse groups)
      → select b budget history_budget (reverse groups) [] 0 ≡ ok s
      → Chosen b budget groups s
  select-Chosen groups s hb small full h =
      rw (append-nil, reverse-reverse) at
        (select-Chosen_from (reverse groups) [] s hb small full (unfold flatten in refl)
          (omega arith) (unfold flatten in h))

  marker-le :
      b.estimate [] ≤ budget → b.estimate (context_truncation_marker b.estimate budget) ≤ budget
  unfolding context_truncation_marker
  marker-le nothing = elim (Bool-cases (leb (b.estimate (marker ∷ [])) budget)) [
    | inl fits ↦ rw fits (leb→le _ _ fits)
    | inr big ↦ rw big nothing
  ]

  fit_oversized_group-le :
      (g : List ChatMessage) (p : OversizedGroupPolicy) (r : List ChatMessage)
      → b.estimate [] ≤ budget
      → fit_oversized_group g budget p b.estimate ≡ ok r
      → b.estimate r ≤ budget
  unfolding fit_oversized_group
  fit_oversized_group-le g OversizedGroupPolicy.fail r nothing h = cc
  fit_oversized_group-le g OversizedGroupPolicy.drop_with_marker r nothing h =
      rw (← ok_inj h) (marker-le nothing)
  fit_oversized_group-le g OversizedGroupPolicy.elide_tool_outputs r nothing h =
      elim (Bool-cases (leb (b.estimate (map elide g)) budget)) [
        | inl fits ↦ rw (← ok_inj (rw fits at h)) (leb→le _ _ fits)
        | inr big ↦ rw (← ok_inj (rw big at h)) (marker-le nothing)
      ]

  -- What is chosen is within the budget.
  pub Chosen-le :
      {groups : List (List ChatMessage)} {s : Selection}
      → b.estimate [] ≤ budget
      → Chosen b budget groups s
      → s.selected_tokens ≤ budget
  Chosen-le nothing (kept _ _ _ _ _ _ h) = h
  Chosen-le {s = s} nothing (reduced _ newest _ _ f _ t) =
      rw t (fit_oversized_group-le newest b.oversized_group_policy s.selected nothing f)
