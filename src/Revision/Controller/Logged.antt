-- ===== src/Revision/Controller/Logged.antt =====
-- The loop of `log` of canary-agent-revision/src/controller.rs.
use canary_agent.Prelude.{
  ℕ, zero, suc, ◌≤◌, Option, none, some, List, ◌∷◌, ◌≡◌, refl, ◌∙◌, ap, arith,
}
use canary_agent.Prelude.Result.{ok}
use canary_agent.Prelude.Exec.{pure, from_bind, goes}
use canary_agent.Revision.Error.{RevisionError}
use canary_agent.Revision.Ids.{RevisionId}
use canary_agent.Revision.Commit.{AgentRevision}
use canary_agent.Revision.Store.{RevisionStore, IsRevisionStore}
use canary_agent.Revision.Controller.{load_revision, log_from, first, option_list, cons_to}
use canary_agent.Revision.Controller.History.{load_revision-held, from_load}

pub first-option_list : (o : Option RevisionId) → first (option_list o) ≡ o
first-option_list none = refl
first-option_list (some id) = refl

module _ {W : Type 0} {store : RevisionStore W} (laws : IsRevisionStore store) where
  -- What is held stays.
  abbrev pub Keeps : W → W → Type 0
  Keeps w w' =
      (id : RevisionId) (old : AgentRevision)
      → laws.objects w id ≡ some old
      → laws.objects w' id ≡ some old

  pub log_step :
      (w : W) (fuel : ℕ) (id : RevisionId) {revision : AgentRevision} {history : List AgentRevision}
      → laws.objects w id ≡ some revision
      → log_from store fuel (first revision.parents) w ≡ (ok (some history), w)
      → log_from store (suc fuel) (some id) w ≡ (ok (some (revision ∷ history)), w)
  unfolding log_from
  log_step w fuel id {revision} h rest =
      goes (load_revision store id) _ (load_revision-held laws w id h)
        (goes (log_from store fuel (first revision.parents)) _ rest refl)

  pub log_from-kept :
      (w w' : W)
      → Keeps w w'
      → (fuel limit : ℕ) → fuel ≤ limit
      → (start : Option RevisionId) {history : List AgentRevision} {v : W}
      → log_from store fuel start w ≡ (ok (some history), v)
      → log_from store limit start w' ≡ (ok (some history), w')
  unfolding log_from
  log_from-kept w w' keeps fuel limit le none h = ap (λ p. (p.0, w')) h
  log_from-kept w w' keeps zero limit le (some id) h = cc
  log_from-kept w w' keeps (suc fuel) zero le (some id) h = absurd (omega arith)
  log_from-kept w w' keeps (suc fuel) (suc limit) le (some id) {history} {v} h =
      from_bind (load_revision store id) _ w h λ revision u loaded next.
        from_bind (log_from store fuel (first revision.parents)) _ u next λ rest t logged last.
          from_load laws w id loaded λ held same.
            by_case revision rest held
              (λ older v logged.
                log_from-kept w w' keeps fuel limit (omega arith) (first revision.parents) logged)
              (ap (log_from store fuel (first revision.parents)) same ∙ logged) last
    where
      by_case :
          {t : W} (revision : AgentRevision) (rest : Option (List AgentRevision))
          → laws.objects w id ≡ some revision
          → ((older : List AgentRevision) (v : W)
              → log_from store fuel (first revision.parents) w ≡ (ok (some older), v)
              → log_from store limit (first revision.parents) w' ≡ (ok (some older), w'))
          → log_from store fuel (first revision.parents) w ≡ (ok rest, t)
          → pure {E = RevisionError} (cons_to revision rest) t ≡ (ok (some history), v)
          → log_from store (suc limit) (some id) w' ≡ (ok (some history), w')
      by_case revision none held kept logged last = cc
      by_case revision (some rest) held kept logged last =
          log_step w' limit id (keeps id revision held) (kept rest _ logged)
          ∙ ap (λ p. (p.0, w')) last
