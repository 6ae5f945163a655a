-- ===== src/Kernel/Projection/Pending.antt =====
-- The pending suspension of canary-agent-kernel/src/projection.rs, described without the loop.
use canary_agent.Prelude.{
  String, ◌≡◌, refl, sym, ap, ◌∙◌, ◌↔◌, ◌⊎◌, inl, inr, Bool, true, false, Option, none, some, List,
  [], ◌∷◌, ◌++◌, map, arith, eq_iff, All, Bool-cases, Option-cases, if◌then◌else◌,
}
use mathlib.Core.Option
use canary_agent.Kernel.Value.{get, as_str}
use canary_agent.Kernel.Events.{
  TurnItem, TurnItemKind, Turn, Thread, user_input, model_response, tool_output,
  function_call_started, suspension_created, turn_failed, turn_aborted,
}
use canary_agent.Kernel.Projection.{
  PendingSuspension, ThreadProjection, project_item, project_items, project_turns, from_thread,
  start, answers, names_call,
}

-- An item with the id of its turn.
abbrev pub Fact : Type 0
Fact = String × TurnItemKind

abbrev pub facts_of : Turn → List Fact
facts_of t = map (λ i. (t.id, i.kind)) t.items

pub facts : List Turn → List Fact
facts [] = []
facts (t ∷ ts) = facts_of t ++ facts ts

-- What ends a suspension: an input that answers it or starts anew, the output of its call, or
-- another suspension.
abbrev pub Clears : PendingSuspension → TurnItemKind → Type 0
Clears p (user_input _ none) = Unit
Clears p (user_input _ (some id)) = p.suspension.id ≡ id
Clears p (tool_output call_id _ _) =
    Option.bind (get p.suspension.payload "call_id") as_str ≡ some call_id
Clears p (suspension_created _) = Unit
Clears p _ = ⊥

-- The suspension was created, and nothing after it clears it.
abbrev pub IsPending : PendingSuspension → List Fact → Type 0
IsPending p fs =
    (before : List Fact) × (after : List Fact) × (fs
      ≡ before ++ (p.turn_id, suspension_created p.suspension) ∷ after)
    × All (λ f. ¬ Clears p f.1) after

project_fact : ThreadProjection → Fact → ThreadProjection
project_fact q f = project_item f.0 q f.1

project_facts : ThreadProjection → List Fact → ThreadProjection
project_facts q [] = q
project_facts q (f ∷ fs) = project_facts (project_fact q f) fs

project_facts-append :
    (q : ThreadProjection) (fs gs : List Fact)
    → project_facts q (fs ++ gs) ≡ project_facts (project_facts q fs) gs
unfolding project_facts
project_facts-append q [] gs = refl
project_facts-append q (f ∷ fs) gs = project_facts-append (project_fact q f) fs gs

project_items-facts :
    (id : String) (q : ThreadProjection) (is : List TurnItem)
    → project_items id q is ≡ project_facts q (map (λ i. (id, i.kind)) is)
unfolding project_facts project_items project_fact
project_items-facts id q [] = refl
project_items-facts id q (i ∷ is) = project_items-facts id (project_item id q i.kind) is

project_turns-facts :
    (q : ThreadProjection) (ts : List Turn) → project_turns q ts ≡ project_facts q (facts ts)
unfolding project_facts project_turns facts
project_turns-facts q [] = refl
project_turns-facts q (t ∷ ts) =
    ap (λ r. project_turns r ts) (project_items-facts t.id q t.items)
    ∙ project_turns-facts (project_facts q (facts_of t)) ts
    ∙ sym (project_facts-append q (facts_of t) (facts ts))

abbrev pending : ThreadProjection → Option PendingSuspension
pending q = q.pending_suspension

answers-some :
    (p : PendingSuspension) (id : String) → (answers id (some p) ≡ true) ↔ (p.suspension.id ≡ id)
unfolding answers
answers-some p id = eq_iff p.suspension.id id

abbrev call_of : PendingSuspension → Option String
call_of p = Option.bind (get p.suspension.payload "call_id") as_str

names_call-some :
    (p : PendingSuspension) (id : String) → (names_call id (some p) ≡ true) ↔ (call_of p ≡ some id)
unfolding names_call
names_call-some p id = elim (Option-cases (call_of p)) [
  | inl e ↦ rw e (ground arith)
  | inr (j, e) ↦ rw e (ground (arith, eq_iff j id))
]

kept :
    (b : Bool) (o : Option PendingSuspension) {p : PendingSuspension}
    → (if b then none else o) ≡ some p
    → (o ≡ some p) × (b ≡ false)
kept true o h = cc
kept false o h = (h, refl)

step_back :
    (q : ThreadProjection) (p : PendingSuspension) (f : Fact)
    → pending (project_fact q f) ≡ some p
    → ((pending q ≡ some p) × (¬ Clears p f.1)) ⊎ (f ≡ (p.turn_id, suspension_created p.suspension))
unfolding project_fact project_item
step_back q p (t, user_input text none) h = cc
step_back q p (t, user_input text (some id)) h =
    let (e, b) = kept (answers id q.pending_suspension) q.pending_suspension h in
    inl (e, λ x. cc (b, ap (answers id) e, (answers-some p id).1 x))
step_back q p (t, model_response c text calls) h = inl (h, λ x. x)
step_back q p (t, tool_output call_id name r) h =
    let (e, b) = kept (names_call call_id q.pending_suspension) q.pending_suspension h in
    inl (e, λ x. cc (b, ap (names_call call_id) e, (names_call-some p call_id).1 x))
step_back q p (t, function_call_started _ _ _) h = inl (h, λ x. x)
step_back q p (t, suspension_created s) h = inr (ground arith)
step_back q p (t, turn_failed _) h = inl (h, λ x. x)
step_back q p (t, turn_aborted _) h = inl (h, λ x. x)

step_keeps :
    (q : ThreadProjection) (p : PendingSuspension) (f : Fact)
    → pending q ≡ some p
    → ¬ Clears p f.1
    → pending (project_fact q f) ≡ some p
unfolding project_fact project_item
step_keeps q p (t, user_input text none) h c = absurd (c tt)
step_keeps q p (t, user_input text (some id)) h c = elim (Bool-cases (answers id (some p))) [
  | inl e ↦ absurd (c ((answers-some p id).0 e))
  | inr e ↦ rw (h, e)
]
step_keeps q p (t, model_response _ text calls) h c = h
step_keeps q p (t, tool_output call_id name r) h c =
    elim (Bool-cases (names_call call_id (some p))) [
      | inl e ↦ absurd (c ((names_call-some p call_id).0 e))
      | inr e ↦ rw (h, e)
    ]
step_keeps q p (t, function_call_started _ _ _) h c = h
step_keeps q p (t, suspension_created s) h c = absurd (c tt)
step_keeps q p (t, turn_failed _) h c = h
step_keeps q p (t, turn_aborted _) h c = h

facts_back :
    (q : ThreadProjection) (p : PendingSuspension) (fs : List Fact)
    → pending (project_facts q fs) ≡ some p
    → ((pending q ≡ some p) × All (λ f. ¬ Clears p f.1) fs) ⊎ IsPending p fs
unfolding project_facts
facts_back q p [] h = inl (h, tt)
facts_back q p (f ∷ fs) h = elim (facts_back (project_fact q f) p fs h) [
  | inl (e, clear) ↦ elim (step_back q p f e) [
    | inl (before, c) ↦ inl (before, (c, clear))
    | inr made ↦ inr ([], fs, ap (λ g. g ∷ fs) made, clear)
  ]
  | inr (before, after, e, clear) ↦ inr (f ∷ before, after, ap (◌∷◌ f) e, clear)
]

facts_keep :
    (q : ThreadProjection) (p : PendingSuspension) (fs : List Fact)
    → pending q ≡ some p
    → All (λ f. ¬ Clears p f.1) fs
    → pending (project_facts q fs) ≡ some p
unfolding project_facts
facts_keep q p [] h c = h
facts_keep q p (f ∷ fs) h c = facts_keep (project_fact q f) p fs (step_keeps q p f h c.0) c.1

facts_pending :
    (q : ThreadProjection) (p : PendingSuspension) (fs : List Fact)
    → IsPending p fs
    → pending (project_facts q fs) ≡ some p
facts_pending q p fs (before, after, e, clear) =
    rw (e, project_facts-append q before _)
      (unfold project_facts project_fact project_item in facts_keep _ p after refl clear)

-- The projection of a thread shows a suspension exactly when one of its items created it, in the
-- turn that the projection names, and no later item, of this or of a later turn, clears it: no
-- answer to it, no new input, no output of the call that its payload names, no other suspension.
pub from_thread-IsPending :
    (t : Thread) (p : PendingSuspension)
    → ((from_thread t).pending_suspension ≡ some p) ↔ IsPending p (facts t.turns)
unfolding from_thread start
from_thread-IsPending t p = (there, back)
  where
    there : (from_thread t).pending_suspension ≡ some p → IsPending p (facts t.turns)
    there h =
        elim (facts_back (start t) p (facts t.turns)
          (rw (project_turns-facts (start t) t.turns) at h)) [
            | inl (none_is, _) ↦ cc
            | inr found ↦ found
          ]

    back : IsPending p (facts t.turns) → (from_thread t).pending_suspension ≡ some p
    back h = rw (project_turns-facts (start t) t.turns) (facts_pending (start t) p _ h)
