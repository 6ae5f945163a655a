-- ===== src/Revision/Merge/Base/Nearest.antt =====
-- `choose_merge_base` of canary-agent-revision/src/merge.rs, and what a nearest common ancestor is.
use mathlib.Core.List.{Memᴰ}
use mathlib.Core.Path.{subst}
use canary_agent.Prelude.{
  ℕ, ◌+◌, ◌≤◌, Bool, true, false, Option, none, some, List, [], ◌∷◌, ◌≡◌, refl, sym, ◌∙◌, ap, arith,
}
use canary_agent.Prelude.TreeMap.{TreeMap, lookup}
use canary_agent.Revision.Ids.{RevisionId}
use canary_agent.Revision.Merge.Base.{
  common, is_before, nearer, min_from, min_by, choose_from, choose_merge_base,
}

module _ (ours theirs : TreeMap ℕ) where
  pub record IsNearest (base : RevisionId) : Type 0 where
    pub ours_distance : ℕ
    pub theirs_distance : ℕ
    pub of_ours : Memᴰ (base, ours_distance) ours
    pub of_theirs : lookup base theirs ≡ some theirs_distance
    pub least :
        (other : RevisionId) (d t : ℕ)
        → Memᴰ (other, d) ours
        → lookup other theirs ≡ some t
        → ours_distance + theirs_distance ≤ d + t

  -- The nearest common ancestor, or none where there is no common one.
  unfoldable pub IsBase : Option RevisionId → Type 0
  IsBase none = (other : RevisionId) (d : ℕ) → Memᴰ (other, d) ours → lookup other theirs ≡ none
  IsBase (some base) = IsNearest base

nearer_least :
    (candidate best : ℕ × RevisionId)
    → let next = nearer (is_before candidate best) candidate best in
      (next.0 ≤ candidate.0) × (next.0 ≤ best.0)
unfolding is_before
nearer_least (c, cid) (b, bid) = ground arith

-- The pair that `min_by` keeps is one of the list, and none of it has a smaller sum.
record Minimum (best : ℕ × RevisionId) (candidates : List (ℕ × RevisionId)) : Type 0 where
  is_one : Memᴰ best candidates
  no_less : (c : ℕ × RevisionId) → Memᴰ c candidates → best.0 ≤ c.0

nearer_held :
    (b : Bool) {found candidate best : ℕ × RevisionId} {candidates : List (ℕ × RevisionId)}
    → Memᴰ found (nearer b candidate best ∷ candidates)
    → Memᴰ found (best ∷ candidate ∷ candidates)
nearer_held true held = Memᴰ.tail held
nearer_held false (Memᴰ.head e) = Memᴰ.head e
nearer_held false (Memᴰ.tail later) = Memᴰ.tail (Memᴰ.tail later)

-- A sum that is within those of two pairs and of the rest.
no_less_of :
    (least : ℕ) {best candidate : ℕ × RevisionId} {candidates : List (ℕ × RevisionId)}
    → least ≤ best.0
    → least ≤ candidate.0
    → ((c : ℕ × RevisionId) → Memᴰ c candidates → least ≤ c.0)
    → (c : ℕ × RevisionId) → Memᴰ c (best ∷ candidate ∷ candidates)
    → least ≤ c.0
no_less_of least b k rest c (Memᴰ.head e) = let sums = ap (λ p. p.0) e in omega arith
no_less_of least b k rest c (Memᴰ.tail (Memᴰ.head e)) = let sums = ap (λ p. p.0) e in omega arith
no_less_of least b k rest c (Memᴰ.tail (Memᴰ.tail later)) = rest c later

min_from-Minimum :
    (best : ℕ × RevisionId) (candidates : List (ℕ × RevisionId))
    → Minimum (min_from best candidates) (best ∷ candidates)
unfolding min_from
min_from-Minimum best [] = record {
  is_one = Memᴰ.head refl;
  no_less = λ c held. elim held [
    | Memᴰ.head e ↦ let sums = ap (λ p. p.0) e in omega arith
    | Memᴰ.tail later ↦ elim later [ ]
  ];
}
min_from-Minimum best (candidate ∷ candidates) =
    let next = nearer (is_before candidate best) candidate best in
    let rest = min_from-Minimum next candidates in
    let (to_candidate, to_best) = nearer_least candidate best in
    let kept = rest.no_less next (Memᴰ.head refl) in
    record {
      is_one = nearer_held (is_before candidate best) rest.is_one;
      no_less =
          no_less_of (min_from next candidates).0 (omega arith) (omega arith)
            (λ c later. rest.no_less c (Memᴰ.tail later));
    }

common-Memᴰ :
    (ours theirs : TreeMap ℕ) (sum : ℕ) (id : RevisionId)
    → Memᴰ (sum, id) (common ours theirs)
    → (d : ℕ) × (t : ℕ) × Memᴰ (id, d) ours × (lookup id theirs ≡ some t) × (sum ≡ d + t)
unfolding common
common-Memᴰ [] theirs sum id held = elim held [ ]
common-Memᴰ ((here, distance) ∷ ours) theirs sum id held =
    by_case (lookup here theirs) refl held (common-Memᴰ ours theirs sum id)
  where
    by_case :
        (found : Option ℕ)
        → lookup here theirs ≡ found
        → Memᴰ
            (sum, id)
            (elim found [
              | none ↦ common ours theirs
              | some theirs_distance ↦ (distance + theirs_distance, here) ∷ common ours theirs
            ])
        → (Memᴰ (sum, id) (common ours theirs)
            → (d : ℕ) × (t : ℕ) × Memᴰ (id, d) ours × (lookup id theirs ≡ some t) × (sum ≡ d + t))
        → (d : ℕ) × (t : ℕ) × Memᴰ (id, d) ((here, distance) ∷ ours)
          × (lookup id theirs ≡ some t)
          × (sum ≡ d + t)
    by_case none e held rest = let (d, t, m, l, s) = rest held in (d, t, Memᴰ.tail m, l, s)
    by_case (some t) e (Memᴰ.head same) rest =
        let is_here = ap (λ p. p.1) same in
        (
          distance,
          t,
          Memᴰ.head (ap (λ k. (k, distance)) is_here),
          ap (λ k. lookup k theirs) is_here ∙ e,
          ap (λ p. p.0) same,
        )
    by_case (some t) e (Memᴰ.tail held) rest =
        let (d, t, m, l, s) = rest held in (d, t, Memᴰ.tail m, l, s)

Memᴰ-common :
    (ours theirs : TreeMap ℕ) (id : RevisionId) (d t : ℕ)
    → Memᴰ (id, d) ours
    → lookup id theirs ≡ some t
    → Memᴰ (d + t, id) (common ours theirs)
unfolding common
Memᴰ-common [] theirs id d t held e = elim held [ ]
Memᴰ-common ((here, distance) ∷ ours) theirs id d t (Memᴰ.head same) e =
    by_case (lookup here theirs) (ap (λ k. lookup k theirs) (sym (ap (λ p. p.0) same)) ∙ e)
  where
    by_case :
        (found : Option ℕ)
        → found ≡ some t
        → Memᴰ
            (d + t, id)
            (elim found [
              | none ↦ common ours theirs
              | some theirs_distance ↦ (distance + theirs_distance, here) ∷ common ours theirs
            ])
    by_case none e = cc
    by_case (some other) e =
        let is_t : other ≡ t = cc in
        Memᴰ.head (rw (is_t, ap (λ p. p.1) same, ap (λ p. p.0) same) refl)
Memᴰ-common ((here, distance) ∷ ours) theirs id d t (Memᴰ.tail held) e =
    by_case (lookup here theirs) (Memᴰ-common ours theirs id d t held e)
  where
    by_case :
        (found : Option ℕ)
        → Memᴰ (d + t, id) (common ours theirs)
        → Memᴰ
            (d + t, id)
            (elim found [
              | none ↦ common ours theirs
              | some theirs_distance ↦ (distance + theirs_distance, here) ∷ common ours theirs
            ])
    by_case none m = m
    by_case (some other) m = Memᴰ.tail m

module _ (ours theirs : TreeMap ℕ) where
  no_common :
      common ours theirs ≡ []
      → (other : RevisionId) (d : ℕ) → Memᴰ (other, d) ours
      → lookup other theirs ≡ none
  no_common e other d held = by_case (lookup other theirs) refl
    where
      by_case : (t : Option ℕ) → lookup other theirs ≡ t → lookup other theirs ≡ none
      by_case none l = l
      by_case (some t) l =
          let impossible =
            subst (Memᴰ (d + t, other)) e (Memᴰ-common ours theirs other d t held l) in
          elim impossible [ ]

  min_by-IsBase : IsBase ours theirs (min_by (common ours theirs))
  unfolding IsBase min_by
  min_by-IsBase = by_case (common ours theirs) refl
    where
      by_case :
          (candidates : List (ℕ × RevisionId))
          → common ours theirs ≡ candidates
          → IsBase ours theirs (min_by candidates)
      by_case [] e = no_common e
      by_case (candidate ∷ candidates) e =
          let least = min_from-Minimum candidate candidates in
          let base = min_from candidate candidates in
          let (d, t, held, l, sum) =
            common-Memᴰ ours theirs base.0 base.1 (subst (Memᴰ base) (sym e) least.is_one) in
          record {
            ours_distance = d;
            theirs_distance = t;
            of_ours = held;
            of_theirs = l;
            least = λ other d' t' held' l'.
                let no_less =
                  least.no_less (d' + t', other)
                    (subst (Memᴰ (d' + t', other)) e
                      (Memᴰ-common ours theirs other d' t' held' l')) in
                omega arith;
          }

-- The base that is chosen is in both maps of ancestors, and no other id of both has a smaller sum of
-- distances; none is chosen exactly where no id of one map is in the other.
pub choose_merge_base-IsBase :
    (ours theirs : RevisionId) (ancestors : TreeMap (TreeMap ℕ)) {ours_map theirs_map : TreeMap ℕ}
    → lookup ours ancestors ≡ some ours_map
    → lookup theirs ancestors ≡ some theirs_map
    → IsBase ours_map theirs_map (choose_merge_base ours theirs ancestors)
unfolding choose_merge_base choose_from
choose_merge_base-IsBase ours theirs ancestors {ours_map} {theirs_map} o t =
    rw (o, t) (min_by-IsBase ours_map theirs_map)
