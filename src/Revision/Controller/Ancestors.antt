-- ===== src/Revision/Controller/Ancestors.antt =====
-- Histories, chains of parents and the measure of the loop of `collect_ancestors` in
-- canary-agent-revision/src/controller.rs.
use mathlib.Core.List.{Memᴰ}
use Prim.Native.Nat.{Ordering}
use Prim.Native.String.{compare}
use canary_agent.Prelude.{
  ℕ, ◌+◌, ◌≤◌, Bool, true, false, ◌==◌, eq_iff, Option, none, some, List, [], ◌∷◌, length, is_some,
  All, ◌≡◌, refl, sym, ◌∙◌, ap, ◌⊎◌, inl, inr, arith, if◌then◌else◌,
}
use canary_agent.Prelude.Result.{ok}
use canary_agent.Prelude.TreeMap.{TreeMap, lookup, insert, lookup-insert}
use canary_agent.Revision.Ids.{RevisionId}
use canary_agent.Revision.Commit.{AgentRevision}
use canary_agent.Revision.Store.{RevisionStore}
use canary_agent.Revision.Controller.{further}

module _ {W : Type 0} (store : RevisionStore W) (w : W) where
  -- A store whose loads neither fail nor change it, and the revisions that it holds.
  unfoldable pub Reads : (RevisionId → Option AgentRevision) → Type 0
  Reads held = (id : RevisionId) → store.load_revision id w ≡ (ok (held id), w)

module _ (held : RevisionId → Option AgentRevision) where
  -- A history: each of its ids is held, and so are the parents.
  pub record IsHistory (ids : List RevisionId) : Type 0 where
    pub holds :
        (id : RevisionId)
        → Memᴰ id ids
        → (revision : AgentRevision) × (held id ≡ some revision)
          × All (λ parent. Memᴰ parent ids) revision.parents

  abbrev pub parents_of : Option AgentRevision → List RevisionId
  parents_of none = []
  parents_of (some revision) = revision.parents

  -- The number of steps to a parent in a history.
  unfoldable pub edges : List RevisionId → ℕ
  edges [] = 0
  edges (id ∷ ids) = length (parents_of (held id)) + edges ids

  -- The steps from the ids without a distance.
  unfoldable pub left_over : TreeMap ℕ → List RevisionId → ℕ
  unfolding lookup
  left_over distances [] = 0
  left_over distances (id ∷ ids) =
      (if is_some (lookup id distances) then 0 else length (parents_of (held id)))
      + left_over distances ids

  pub left_over-start : (ids : List RevisionId) → left_over [] ids ≡ edges ids
  unfolding left_over edges lookup
  left_over-start [] = refl
  left_over-start (id ∷ ids) = omega (arith, left_over-start ids)

  left_over-insert :
      (id : RevisionId) (d : ℕ) (distances : TreeMap ℕ) (ids : List RevisionId)
      → left_over (insert id d distances) ids ≤ left_over distances ids
  unfolding left_over
  left_over-insert id d distances [] = omega arith
  left_over-insert id d distances (here ∷ ids) =
      ground (arith, left_over-insert id d distances ids, lookup-insert id here d distances)

  pub left_over-visit :
      (id : RevisionId) (d : ℕ) (distances : TreeMap ℕ) (ids : List RevisionId)
      → Memᴰ id ids
      → lookup id distances ≡ none
      → length (parents_of (held id)) + left_over (insert id d distances) ids
        ≤ left_over distances ids
  unfolding left_over
  left_over-visit id d distances [] member e = elim member [ ]
  left_over-visit id d distances (here ∷ ids) (Memᴰ.head same) e =
      rw (sym same, lookup-insert id id d distances, (eq_iff id id).1 refl, e)
        (omega (arith, left_over-insert id d distances ids))
  left_over-visit id d distances (here ∷ ids) (Memᴰ.tail later) e =
      ground (arith, left_over-visit id d distances ids later e, lookup-insert id here d distances)

  -- A chain of steps to a parent, with the distance that the code gives to its end.
  pub data Chain (start : RevisionId) : RevisionId → ℕ → Type 0 where
    itself : Chain start start 0
    parent :
        {id parent : RevisionId} {revision : AgentRevision} {d : ℕ}
        → Chain start id d
        → held id ≡ some revision
        → Memᴰ parent revision.parents
        → Chain start parent (further d)

  abbrev pub Queued : List (RevisionId × ℕ) → RevisionId → Type 0
  Queued queue id = (d : ℕ) × Memᴰ {A = RevisionId × ℕ} (id, d) queue

  abbrev pub Reached : TreeMap ℕ → RevisionId → Type 0
  Reached distances id = is_some (lookup id distances) ≡ true

  -- The ids that have a distance are those at the ends of chains, with the distance of one.
  pub record IsAncestry (start : RevisionId) (distances : TreeMap ℕ) : Type 0 where
    pub sound : (id : RevisionId) (d : ℕ) → Memᴰ (id, d) distances → Chain start id d
    pub complete : (id : RevisionId) (d : ℕ) → Chain start id d → Reached distances id

  pub record InProgress (start : RevisionId) (distances : TreeMap ℕ) (queue : List (RevisionId × ℕ))
      : Type 0 where
    pub sound : (id : RevisionId) (d : ℕ) → Memᴰ (id, d) distances → Chain start id d
    pub queued : All (λ e. Chain start e.0 e.1) queue
    pub begun : Reached distances start ⊎ Queued queue start
    pub closed :
        (id parent : RevisionId) (revision : AgentRevision)
        → Reached distances id
        → held id ≡ some revision
        → Memᴰ parent revision.parents
        → Reached distances parent ⊎ Queued queue parent

  pub done :
      (start : RevisionId) (distances : TreeMap ℕ)
      → InProgress start distances []
      → IsAncestry start distances
  done start distances progress = record { sound = progress.sound; complete = complete }
    where
      settled : (id : RevisionId) → Reached distances id ⊎ Queued [] id → Reached distances id
      settled id (inl reached) = reached
      settled id (inr (d, held)) = elim held [ ]

      complete : (id : RevisionId) (d : ℕ) → Chain start id d → Reached distances id
      complete id d Chain.itself = settled start progress.begun
      complete id d (Chain.parent chain h member) =
          settled id (progress.closed _ id _ (complete _ _ chain) h member)

  -- A queued id that has a distance is dropped.
  pub skipped :
      (start id : RevisionId) (d : ℕ) (distances : TreeMap ℕ) (queue : List (RevisionId × ℕ))
      → Reached distances id
      → InProgress start distances ((id, d) ∷ queue)
      → InProgress start distances queue
  skipped start id d distances queue reached progress = record {
    sound = progress.sound;
    queued = progress.queued.1;
    begun = still start progress.begun;
    closed =
        λ child parent revision r h m. still parent (progress.closed child parent revision r h m);
  }
    where
      still :
          (other : RevisionId)
          → Reached distances other ⊎ Queued ((id, d) ∷ queue) other
          → Reached distances other ⊎ Queued queue other
      still other (inl r) = inl r
      still other (inr (e, Memᴰ.head same)) =
          inl (ap (λ k. is_some (lookup k distances)) (ap (λ p. p.0) same) ∙ reached)
      still other (inr (e, Memᴰ.tail later)) = inr (e, later)

-- An entry after an insertion is the one inserted, or was there.
pub Memᴰ-insert :
    (id key : RevisionId) (d e : ℕ) (distances : TreeMap ℕ)
    → Memᴰ (id, d) (insert key e distances)
    → ((id ≡ key) × (d ≡ e)) ⊎ Memᴰ (id, d) distances
unfolding insert
Memᴰ-insert id key d e [] (Memᴰ.head same) = inl (ap (λ p. p.0) same, ap (λ p. p.1) same)
Memᴰ-insert id key d e [] (Memᴰ.tail later) = inr later
Memᴰ-insert id key d e ((here, v) ∷ distances) held =
    by_case (here == key) (compare key here) held (Memᴰ-insert id key d e distances)
  where
    by_case :
        (b : Bool) (o : Ordering)
        → Memᴰ
            (id, d)
            (if b then (key, e) ∷ distances else elim o [
              | Ordering.lt ↦ (key, e) ∷ (here, v) ∷ distances
              | _ ↦ (here, v) ∷ insert key e distances
            ])
        → (Memᴰ (id, d) (insert key e distances) → ((id ≡ key) × (d ≡ e)) ⊎ Memᴰ (id, d) distances)
        → ((id ≡ key) × (d ≡ e)) ⊎ Memᴰ (id, d) ((here, v) ∷ distances)
    by_case true o (Memᴰ.head same) rest = inl (ap (λ p. p.0) same, ap (λ p. p.1) same)
    by_case true o (Memᴰ.tail later) rest = inr (Memᴰ.tail later)
    by_case false Ordering.lt (Memᴰ.head same) rest = inl (ap (λ p. p.0) same, ap (λ p. p.1) same)
    by_case false Ordering.lt (Memᴰ.tail later) rest = inr later
    by_case false Ordering.eq (Memᴰ.head same) rest = inr (Memᴰ.head same)
    by_case false Ordering.eq (Memᴰ.tail later) rest = elim (rest later) [
      | inl same ↦ inl same
      | inr held ↦ inr (Memᴰ.tail held)
    ]
    by_case false Ordering.gt (Memᴰ.head same) rest = inr (Memᴰ.head same)
    by_case false Ordering.gt (Memᴰ.tail later) rest = elim (rest later) [
      | inl same ↦ inl same
      | inr held ↦ inr (Memᴰ.tail held)
    ]
