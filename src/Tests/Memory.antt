-- ===== src/Tests/Memory.antt =====
-- A revision store in memory, an instance of the trait of canary-agent-revision/src/store.rs.
use mathlib.Core.Path.{subst}
use canary_agent.Prelude.{
  Bool, true, false, Option, none, some, ◌≡◌, ◌≢◌, refl, sym, ◌∙◌, ap, if◌then◌else◌,
}
use canary_agent.Prelude.Result.{Result, ok, err}
use canary_agent.Prelude.Equality.{same, same→eq, same_self, String-discrete}
use canary_agent.Revision.Error.{RevisionError}
use canary_agent.Revision.Ids.{BranchRef, BranchRef-discrete, RevisionId}
use canary_agent.Revision.Spec.{
  AgentSpec, ModelSpec-discrete, PromptSpec-discrete, ToolSpec-discrete, RuntimePolicySpec-discrete,
  AgentBuildRef-discrete,
}
use canary_agent.Revision.Commit.{AgentRevision}
use canary_agent.Revision.Store.{RevisionStore, IsRevisionStore}

pub record Memory : Type 0 where
  pub objects : RevisionId → Option AgentRevision
  pub heads : BranchRef → Option RevisionId

unfoldable pub Head-discrete : Discrete (Option RevisionId)
Head-discrete = hlevel String-discrete

unfoldable pub AgentSpec-discrete : Discrete AgentSpec
AgentSpec-discrete = hlevel (
  String-discrete, ModelSpec-discrete, PromptSpec-discrete, ToolSpec-discrete,
  RuntimePolicySpec-discrete, AgentBuildRef-discrete,
)

unfoldable pub AgentRevision-discrete : Discrete AgentRevision
AgentRevision-discrete = hlevel (String-discrete, AgentSpec-discrete)

unfoldable pub update : {K V : Type 0} → Discrete K → K → V → (K → Option V) → K → Option V
unfolding same
update eq k v f j = if same eq k j then some v else f j

abbrev pub save_over :
    AgentRevision → Memory → Option AgentRevision → Result RevisionError Unit × Memory
save_over revision memory none = (
  ok tt,
  record memory { objects = update String-discrete revision.revision_id revision memory.objects },
)
save_over revision memory (some old) = (
  if same AgentRevision-discrete old revision
      then ok tt
      else err (RevisionError.store "different data"),
  memory,
)

abbrev pub move_if : Bool → BranchRef → RevisionId → Memory → Result RevisionError Bool × Memory
move_if true branch next memory =
    (ok true, record memory { heads = update BranchRef-discrete branch next memory.heads })
move_if false branch next memory = (ok false, memory)

unfoldable pub memory_store : RevisionStore Memory
unfolding update same
memory_store = record {
  load_revision = λ id memory. (ok (memory.objects id), memory);
  save_revision =
      λ revision memory. save_over revision memory (memory.objects revision.revision_id);
  branch_head = λ branch memory. (ok (memory.heads branch), memory);
  compare_and_set_branch = λ branch expected next memory.
      move_if (same Head-discrete (memory.heads branch) expected) branch next memory;
}

module _ {K V : Type 0} (eq : Discrete K) (k : K) (v : V) (f : K → Option V) where
  update_same : update eq k v f k ≡ some v
  unfolding update
  update_same = rw (same_self eq k) refl

  update_other : (j : K) → j ≢ k → update eq k v f j ≡ f j
  unfolding update
  update_other j apart = by_case (same eq k j) refl
    where
      by_case : (b : Bool) → same eq k j ≡ b → (if b then some v else f j) ≡ f j
      by_case true e = absurd (apart (sym (same→eq eq k j e)))
      by_case false e = refl

-- What a save promises, of the memory before and after.
unfoldable pub Promise : Memory → AgentRevision → Result RevisionError Unit → Memory → Type 0
Promise memory revision result after =
    (result ≡ ok tt → after.objects revision.revision_id ≡ some revision)
    × ((id : RevisionId) (old : AgentRevision)
        → memory.objects id ≡ some old
        → after.objects id ≡ some old)
    × ((branch : BranchRef) → after.heads branch ≡ memory.heads branch)

kept_by_update :
    (memory : Memory) (revision : AgentRevision)
    → memory.objects revision.revision_id ≡ none
    → (id : RevisionId) (old : AgentRevision) → memory.objects id ≡ some old
    → update String-discrete revision.revision_id revision memory.objects id ≡ some old
kept_by_update memory revision absent id old held = elim (String-discrete id revision.revision_id) [
  | yes e ↦ let both = sym (ap memory.objects e ∙ absent) ∙ held in cc
  | no apart ↦
      update_other String-discrete revision.revision_id revision memory.objects id apart ∙ held
]

pub saved_over :
    (memory : Memory) (revision : AgentRevision) (held : Option AgentRevision)
    → memory.objects revision.revision_id ≡ held
    → Promise memory revision (save_over revision memory held).0 (save_over revision memory held).1
unfolding Promise
saved_over memory revision none e = (
  λ _. update_same String-discrete revision.revision_id revision memory.objects,
  kept_by_update memory revision e,
  λ branch. refl,
)
saved_over memory revision (some old) e = (
  λ passed. e ∙ ap some (equal (same AgentRevision-discrete old revision) refl passed),
  λ id other held. held,
  λ branch. refl,
)
  where
    equal :
        (b : Bool)
        → same AgentRevision-discrete old revision ≡ b
        → (if b then ok tt else err (RevisionError.store "different data")) ≡ ok tt
        → old ≡ revision
    equal true e passed = same→eq AgentRevision-discrete old revision e
    equal false e passed = cc

abbrev pub Moved : Memory → BranchRef → Option RevisionId → RevisionId → Memory → Type 0
Moved memory branch expected next after =
    (memory.heads branch ≡ expected)
    × (after.heads branch ≡ some next)
    × ((other : BranchRef) → other ≢ branch → after.heads other ≡ memory.heads other)
    × ((id : RevisionId) → after.objects id ≡ memory.objects id)

pub Moved-move_if :
    (memory : Memory) (branch : BranchRef) (expected : Option RevisionId) (next : RevisionId)
    (b : Bool)
    → same Head-discrete (memory.heads branch) expected ≡ b
    → (move_if b branch next memory).0 ≡ ok true
    → Moved memory branch expected next (move_if b branch next memory).1
Moved-move_if memory branch expected next true e passed = (
  same→eq Head-discrete (memory.heads branch) expected e,
  update_same BranchRef-discrete branch next memory.heads,
  update_other BranchRef-discrete branch next memory.heads,
  λ id. refl,
)
Moved-move_if memory branch expected next false e passed = cc

pub refused_if :
    (memory : Memory) (branch : BranchRef) (next : RevisionId) (b : Bool)
    → (move_if b branch next memory).0 ≢ ok true
    → (other : BranchRef) → (move_if b branch next memory).1.heads other ≡ memory.heads other
refused_if memory branch next true refused other = absurd (refused refl)
refused_if memory branch next false refused other = refl

unfoldable pub memory_store-IsRevisionStore : IsRevisionStore memory_store
unfolding memory_store Promise
memory_store-IsRevisionStore = record {
  objects = λ memory. memory.objects;
  heads = λ memory. memory.heads;
  loads = λ w id. refl;
  reads = λ w branch. refl;
  saved = λ w revision result w' h.
      subst (λ p. Promise w revision p.0 p.1) h
        (saved_over w revision (w.objects revision.revision_id) refl);
  moved = λ w branch expected next w' h.
      subst (λ p. Moved w branch expected next p.1) h
        (Moved-move_if w branch expected next (same Head-discrete (w.heads branch) expected) refl
          (ap (λ p. p.0) h));
  refused = λ w branch expected next result w' h refused.
      subst (λ p. (other : BranchRef) → p.1.heads other ≡ w.heads other) h
        (refused_if w branch next (same Head-discrete (w.heads branch) expected)
          (λ e. refused (sym (ap (λ p. p.0) h) ∙ e)));
}
