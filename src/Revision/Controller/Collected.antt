-- ===== src/Revision/Controller/Collected.antt =====
-- The whole loop of `collect_ancestors` in canary-agent-revision/src/controller.rs.
use mathlib.Core.List.{Memᴰ}
use mathlib.Core.Path.{subst}
use canary_agent.Prelude.{
  ℕ, zero, suc, ◌+◌, ◌≤◌, Bool, true, false, ◌==◌, eq_iff, Option, none, some, List, [], ◌∷◌, ◌++◌,
  length, length-append, length-map, is_some, All, All-append, ◌≡◌, refl, sym, ◌∙◌, ap, ◌⊎◌, inl,
  inr, arith, if◌then◌else◌,
}
use canary_agent.Prelude.Result.{ok}
use canary_agent.Prelude.Exec.{◌>>=◌, goes}
use canary_agent.Prelude.TreeMap.{TreeMap, lookup, insert, lookup-insert}
use canary_agent.Revision.Ids.{RevisionId}
use canary_agent.Revision.Commit.{AgentRevision}
use canary_agent.Revision.Store.{RevisionStore}
use canary_agent.Revision.Controller.{
  load_revision, collect_from, collect_ancestors, further, parents_at,
}
use canary_agent.Revision.Controller.Ancestors.{
  Reads, IsHistory, parents_of, edges, left_over, left_over-start, left_over-visit, Chain, Reached,
  Queued, InProgress, IsAncestry, done, skipped, Memᴰ-insert,
}

Memᴰ-append_left :
    (e : RevisionId × ℕ) (front back : List (RevisionId × ℕ))
    → Memᴰ e front
    → Memᴰ e (front ++ back)
Memᴰ-append_left e [] back held = elim held [ ]
Memᴰ-append_left e (x ∷ front) back (Memᴰ.head same) = Memᴰ.head same
Memᴰ-append_left e (x ∷ front) back (Memᴰ.tail later) =
    Memᴰ.tail (Memᴰ-append_left e front back later)

Memᴰ-append_right :
    (e : RevisionId × ℕ) (front back : List (RevisionId × ℕ)) → Memᴰ e back → Memᴰ e (front ++ back)
Memᴰ-append_right e [] back held = held
Memᴰ-append_right e (x ∷ front) back held = Memᴰ.tail (Memᴰ-append_right e front back held)

Memᴰ-parents_at :
    (d : ℕ) (parent : RevisionId) (parents : List RevisionId)
    → Memᴰ parent parents
    → Memᴰ {A = RevisionId × ℕ} (parent, d) (parents_at d parents)
Memᴰ-parents_at d parent [] held = elim held [ ]
Memᴰ-parents_at d parent (p ∷ parents) (Memᴰ.head same) = Memᴰ.head (ap (λ k. (k, d)) same)
Memᴰ-parents_at d parent (p ∷ parents) (Memᴰ.tail later) =
    Memᴰ.tail (Memᴰ-parents_at d parent parents later)

All-parents_at :
    (P : RevisionId × ℕ → Type 0) (d : ℕ) (parents : List RevisionId)
    → ((parent : RevisionId) → Memᴰ parent parents → P (parent, d))
    → All P (parents_at d parents)
All-parents_at P d [] each = tt
All-parents_at P d (p ∷ parents) each = (
  each p (Memᴰ.head refl),
  All-parents_at P d parents (λ parent held. each parent (Memᴰ.tail held)),
)

All-Memᴰ {ℓ} : {A : Type 0} (P : A → Type ℓ) (xs : List A) (x : A) → All P xs → Memᴰ x xs → P x
All-Memᴰ P [] x each held = elim held [ ]
All-Memᴰ P (y ∷ xs) x each (Memᴰ.head same) = subst P (sym same) each.0
All-Memᴰ P (y ∷ xs) x each (Memᴰ.tail later) = All-Memᴰ P xs x each.1 later

module _ (held : RevisionId → Option AgentRevision) (id : RevisionId) (d : ℕ)
    (distances : TreeMap ℕ) where
  Reached-insert :
      (other : RevisionId)
      → Reached held distances other
      → Reached held (insert id d distances) other
  Reached-insert other reached = ground (arith, lookup-insert id other d distances)

  Reached-inserted : Reached held (insert id d distances) id
  Reached-inserted = rw (lookup-insert id id d distances, (eq_iff id id).1 refl) refl

  Reached-of_insert :
      (other : RevisionId)
      → Reached held (insert id d distances) other
      → (id ≡ other) ⊎ Reached held distances other
  Reached-of_insert other reached =
      by_case (id == other) refl (ap is_some (sym (lookup-insert id other d distances)) ∙ reached)
    where
      by_case :
          (b : Bool)
          → (id == other) ≡ b
          → is_some (if b then some d else lookup other distances) ≡ true
          → (id ≡ other) ⊎ Reached held distances other
      by_case true e h = inl ((eq_iff id other).0 e)
      by_case false e h = inr h

module _ (held : RevisionId → Option AgentRevision) (start id : RevisionId) (d : ℕ)
    (distances : TreeMap ℕ) (queue : List (RevisionId × ℕ)) (revision : AgentRevision) where
  abbrev visited_queue : List (RevisionId × ℕ)
  visited_queue = queue ++ parents_at (further d) revision.parents

  still :
      (other : RevisionId)
      → Reached held distances other ⊎ Queued held ((id, d) ∷ queue) other
      → Reached held (insert id d distances) other ⊎ Queued held visited_queue other
  still other (inl r) = inl (Reached-insert held id d distances other r)
  still other (inr (e, Memᴰ.head same)) = inl (
      subst (Reached held (insert id d distances)) (sym (ap (λ p. p.0) same))
        (Reached-inserted held id d distances))
  still other (inr (e, Memᴰ.tail later)) = inr (e, Memᴰ-append_left (other, e) queue _ later)

  -- A queued id without a distance is visited: it gets its distance, and its parents are queued.
  visited :
      held id ≡ some revision
      → InProgress held start distances ((id, d) ∷ queue)
      → InProgress held start (insert id d distances) visited_queue
  visited h progress = record {
    sound = sound;
    queued =
        All-append (λ e. Chain held start e.0 e.1) queue (parents_at (further d) revision.parents)
          progress.queued.1
          (All-parents_at (λ e. Chain held start e.0 e.1) (further d) revision.parents
            (λ parent member. Chain.parent progress.queued.0 h member));
    begun = still start progress.begun;
    closed = closed;
  }
    where
      sound :
          (other : RevisionId) (e : ℕ)
          → Memᴰ (other, e) (insert id d distances)
          → Chain held start other e
      sound other e member = elim (Memᴰ-insert other id e d distances member) [
        | inl (same_id, same_d) ↦
            subst (λ k. Chain held start k e) (sym same_id)
              (subst (Chain held start id) (sym same_d) progress.queued.0)
        | inr before ↦ progress.sound other e before
      ]

      closed :
          (child parent : RevisionId) (r : AgentRevision)
          → Reached held (insert id d distances) child
          → held child ≡ some r
          → Memᴰ parent r.parents
          → Reached held (insert id d distances) parent ⊎ Queued held visited_queue parent
      closed child parent r reached hr member =
          elim (Reached-of_insert held id d distances child reached) [
            | inl same ↦
                let equal : revision ≡ r = cc in
                inr (
                  further d,
                  Memᴰ-append_right (parent, further d) queue _
                      (Memᴰ-parents_at (further d) parent revision.parents
                        (subst (λ v. Memᴰ parent v.parents) (sym equal) member)),
                )
            | inr before ↦ still parent (progress.closed child parent r before hr member)
          ]

module _ {W : Type 0} (store : RevisionStore W) (w : W)
    (held : RevisionId → Option AgentRevision) where
  load_revision-Reads :
      Reads store w held
      → (id : RevisionId) {revision : AgentRevision} → held id ≡ some revision
      → load_revision store id w ≡ (ok revision, w)
  unfolding Reads load_revision ◌>>=◌
  load_revision-Reads reads id {revision} h = rw (reads id, h) refl

  module _ (ids : List RevisionId) (start : RevisionId) (reads : Reads store w held)
      (history : IsHistory held ids) where
    -- The loop ends with the ancestors, from any state of it and on so many rounds.
    abbrev Ends : ℕ → TreeMap ℕ → List (RevisionId × ℕ) → Type 0
    Ends fuel distances queue =
        All (λ e. Memᴰ e.0 ids) queue
        → InProgress held start distances queue
        → length queue + left_over held distances ids ≤ fuel
        → (found : TreeMap ℕ) × (collect_from store fuel distances queue w ≡ (ok (some found), w))
          × IsAncestry held start found

    seen_step :
        (fuel : ℕ) (id : RevisionId) (d v : ℕ) (distances : TreeMap ℕ)
        (queue : List (RevisionId × ℕ))
        → Ends fuel distances queue
        → lookup id distances ≡ some v
        → Ends (suc fuel) distances ((id, d) ∷ queue)
    unfolding collect_from
    seen_step fuel id d v distances queue ends e of_ids progress enough =
        let (found, run, ancestry) =
          ends of_ids.1 (skipped held start id d distances queue (ap is_some e) progress)
            (omega arith) in
        (found, rw e run, ancestry)

    fresh_step :
        (fuel : ℕ) (id : RevisionId) (d : ℕ) (distances : TreeMap ℕ) (queue : List (RevisionId × ℕ))
        → ((next : List (RevisionId × ℕ)) → Ends fuel (insert id d distances) next)
        → lookup id distances ≡ none
        → Ends (suc fuel) distances ((id, d) ∷ queue)
    unfolding collect_from
    fresh_step fuel id d distances queue ends e of_ids progress enough =
        let (revision, h, parents) = history.holds id of_ids.0 in
        let more = parents_at (further d) revision.parents in
        let cheaper = left_over-visit held id d distances ids of_ids.0 e in
        let all_of_ids =
          All-append (λ e. Memᴰ e.0 ids) queue more of_ids.1
            (All-parents_at (λ e. Memᴰ e.0 ids) (further d) revision.parents
              (λ parent member.
                All-Memᴰ (λ parent. Memᴰ parent ids) revision.parents parent parents member)) in
        let counted = ap (λ o. length (parents_of held o)) h in
        let appended = length-append queue more in
        let queued : length more ≡ length revision.parents = length-map revision.parents _ in
        let (found, run, ancestry) =
          ends (queue ++ more) all_of_ids
            (visited held start id d distances queue revision h progress)
            (omega (arith, counted, appended, queued)) in
        (
          found,
          rw e (goes (load_revision store id) _ (load_revision-Reads reads id h) run),
          ancestry,
        )

    ends :
        (fuel : ℕ) (distances : TreeMap ℕ) (queue : List (RevisionId × ℕ))
        → Ends fuel distances queue
    unfolding collect_from
    ends fuel distances [] of_ids progress enough =
        (distances, refl, done held start distances progress)
    ends zero distances (e ∷ queue) of_ids progress enough = absurd (omega arith)
    ends (suc fuel) distances ((id, d) ∷ queue) of_ids progress enough =
        by_case (lookup id distances) refl (ends fuel distances queue)
          (ends fuel (insert id d distances))
      where
        by_case :
            (seen : Option ℕ)
            → lookup id distances ≡ seen
            → Ends fuel distances queue
            → ((next : List (RevisionId × ℕ)) → Ends fuel (insert id d distances) next)
            → (found : TreeMap ℕ) × (collect_from store (suc fuel) distances ((id, d) ∷ queue) w
                ≡ (ok (some found), w))
              × IsAncestry held start found
        by_case (some v) e rest next =
            seen_step fuel id d v distances queue rest e of_ids progress enough
        by_case none e rest next =
            fresh_step fuel id d distances queue next e of_ids progress enough

  -- If the loads of a store neither fail nor change it, and each id of a history is held with its parents, then
  -- collect_ancestors from one of them ends, on one round more than the history has steps to a parent, and
  -- gives distances to exactly the ids that chains of parents lead to, each the distance along such a chain.
  pub collect_ancestors-IsAncestry :
      (ids : List RevisionId) (start : RevisionId) (fuel : ℕ)
      → Reads store w held
      → IsHistory held ids
      → Memᴰ start ids
      → suc (edges held ids) ≤ fuel
      → (found : TreeMap ℕ) × (collect_ancestors store fuel start w ≡ (ok (some found), w))
        × IsAncestry held start found
  unfolding collect_ancestors lookup
  collect_ancestors-IsAncestry ids start fuel reads history member enough =
      let start_cost = left_over-start held ids in
      ends ids start reads history fuel [] ((start, 0) ∷ []) (member, tt)
        (record {
          sound = λ id d held. elim held [ ];
          queued = (Chain.itself, tt);
          begun = inr (0, Memᴰ.head refl);
          closed = λ id parent revision reached h member. cc;
        })
        (omega arith)
