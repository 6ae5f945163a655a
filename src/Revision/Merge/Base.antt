-- ===== src/Revision/Merge/Base.antt =====
-- `choose_merge_base` of canary-agent-revision/src/merge.rs.
pub mod Nearest
use Prim.Native.Nat.{Ordering, compare}
use Prim.Native.String
use canary_agent.Prelude.{ℕ, ◌+◌, String, Bool, true, false, Option, none, some, List, [], ◌∷◌}
use canary_agent.Prelude.TreeMap.{TreeMap, lookup}
use canary_agent.Revision.Ids.{RevisionId}

-- The distances to the common ancestors, in the order of the ids. The sum of two usize is taken to be unbounded.
unfoldable pub common : TreeMap ℕ → TreeMap ℕ → List (ℕ × RevisionId)
unfolding lookup
common [] theirs = []
common ((id, ours_distance) ∷ ours) theirs = elim (lookup id theirs) [
  | none ↦ common ours theirs
  | some theirs_distance ↦ (ours_distance + theirs_distance, id) ∷ common ours theirs
]

-- `Ord` of the pairs: by the distance, then by the id.
unfoldable pub is_before : ℕ × RevisionId → ℕ × RevisionId → Bool
is_before (left, left_id) (right, right_id) = elim (compare left right) [
  | Ordering.lt ↦ true
  | Ordering.eq ↦ elim (Prim.Native.String.compare left_id right_id) [
    | Ordering.lt ↦ true
    | _ ↦ false
  ]
  | Ordering.gt ↦ false
]

abbrev pub nearer : Bool → ℕ × RevisionId → ℕ × RevisionId → ℕ × RevisionId
nearer true candidate best = candidate
nearer false candidate best = best

unfoldable pub min_from : ℕ × RevisionId → List (ℕ × RevisionId) → ℕ × RevisionId
unfolding is_before
min_from best [] = best
min_from best (candidate ∷ candidates) =
    min_from (nearer (is_before candidate best) candidate best) candidates

-- `min_by`, which keeps the first of equals
abbrev pub min_by : List (ℕ × RevisionId) → Option RevisionId
unfolding min_from
min_by [] = none
min_by (candidate ∷ candidates) = some (min_from candidate candidates).1

-- The two `?` of the lookups come first.
unfoldable pub choose_from : Option (TreeMap ℕ) → Option (TreeMap ℕ) → Option RevisionId
unfolding common min_by
choose_from none theirs = none
choose_from (some ours) none = none
choose_from (some ours) (some theirs) = min_by (common ours theirs)

unfoldable pub choose_merge_base : RevisionId → RevisionId → TreeMap (TreeMap ℕ) → Option RevisionId
unfolding lookup choose_from
choose_merge_base ours theirs ancestors =
    choose_from (lookup ours ancestors) (lookup theirs ancestors)
