-- ===== src/Revision/Merge.antt =====
-- canary-agent-revision/src/merge.rs: the three-way merge of specifications, as JSON, and the choice of a base.
-- The vector of conflicts, which the code pushes to, is the second component of what a merge gives.
pub mod Paths
pub mod Base
pub mod Keys
pub mod Objects
use Prim.Native.Nat.{Ordering}
use Prim.Native.String.{compare}
use canary_agent.Prelude.{
  ℕ, ◌+◌, String, Bool, true, false, Option, none, some, List, [], ◌∷◌, ◌++◌, is_empty, ◌==◌,
  concat, if◌then◌else◌,
}
use canary_agent.Prelude.Equality.{same}
use canary_agent.Prelude.TreeMap.{TreeMap, lookup, sorted_keys}
use canary_agent.Prelude.Result.{Result, ok, ok_or, ◌>>=◌}
use canary_agent.Kernel.Value.{Value, Fields, object, field, end_fields, get_field, Value-discrete}
use canary_agent.Revision.Error.{Revised, RevisionError, serialized}
use canary_agent.Revision.Ids.{RevisionId}
use canary_agent.Revision.Spec.{AgentSpec}

pub record MergeConflict : Type 0 where
  pub path : String
  pub base : Option Value
  pub ours : Option Value
  pub theirs : Option Value

pub record MergeResult : Type 0 where
  pub base : RevisionId
  pub ours : RevisionId
  pub theirs : RevisionId
  pub spec : Option AgentSpec
  pub conflicts : List MergeConflict

unfoldable pub is_clean : MergeResult → Bool
is_clean result = is_empty result.conflicts

abbrev pub Merged : Type 0
Merged = Option Value × List MergeConflict

unfoldable pub OptionValue-discrete : Discrete (Option Value)
OptionValue-discrete = hlevel Value-discrete

-- The three early returns, in front of `rest`.
unfoldable pub unless_one_sided : Option Value → Option Value → Option Value → Merged → Merged
unfolding same
unless_one_sided base ours theirs rest =
    if same OptionValue-discrete ours theirs
    then (ours, [])
    else if same OptionValue-discrete ours base
    then (theirs, [])
    else if same OptionValue-discrete theirs base
    then (ours, [])
    else rest

unfoldable pub conflict : Option Value → Option Value → Option Value → String → Merged
conflict base ours theirs path =
    (none, record { path = path; base = base; ours = ours; theirs = theirs } ∷ [])

-- The keys of an object, in their order.
unfoldable pub field_names : Fields → List String
field_names end_fields = []
field_names (field k v fs) = k ∷ field_names fs

-- `Map::insert`
unfoldable pub set_field : String → Value → Fields → Fields
set_field k v end_fields = field k v end_fields
set_field k v (field j w fs) =
    let rest = set_field k v fs in
    if j == k
    then field k v fs
    else elim (compare k j) [ Ordering.lt ↦ field k v (field j w fs) | _ ↦ field j w rest ]

abbrev pub set_some : String → Option Value → Fields → Fields
set_some k none fs = fs
set_some k (some v) fs = set_field k v fs

-- The loop over the keys, onto the fields so far, with the merge of a child.
unfoldable pub merge_keys : (String → Merged) → List String → Fields → Fields × List MergeConflict
unfolding set_field
merge_keys child [] merged = (merged, [])
merge_keys child (key ∷ keys) merged =
    let (value, conflicts) = child key in
    let (fields, more) = merge_keys child keys (set_some key value merged) in
    (fields, conflicts ++ more)

-- `format!("{path}.{key}")`
unfoldable pub child_path : String → String → String
unfolding concat
child_path path key = concat (path ∷ "." ∷ key ∷ [])

-- The branch of three objects, with the merge of the children, and the conflict of any others.
unfoldable pub merge_objects : (String → Merged) → Fields → Fields → Fields → Merged
unfolding merge_keys sorted_keys field_names
merge_objects child base ours theirs =
    let (fields, conflicts) =
      merge_keys child (sorted_keys (field_names base ++ field_names ours ++ field_names theirs))
        end_fields in
    (some (object fields), conflicts)

-- Where there is no base, or one that is no object, no child is merged.
unfoldable pub merge_leaf : Option Value → Option Value → Option Value → String → Merged
unfolding unless_one_sided conflict
merge_leaf base ours theirs path =
    unless_one_sided base ours theirs (conflict base ours theirs path)

abbrev pub Merge : Type 0
Merge = Option Value → Option Value → String → Merged

-- The merge with a field of the base, or with none.
abbrev pub field_merge : Option Merge → Merge
unfolding merge_leaf
field_merge none ours theirs path = merge_leaf none ours theirs path
field_merge (some merge) ours theirs path = merge ours theirs path

-- The recursion goes by the base: a base's fields each become their merge.
unfoldable mutual
  unfolding merge_leaf unless_one_sided merge_objects child_path get_field lookup field_merge

  pub merge_with : Value → Merge
  merge_with (object base) (some (object ours)) (some (object theirs)) path =
      let merges = field_merges base in
      unless_one_sided (some (object base)) (some (object ours)) (some (object theirs)) (
        merge_objects
          (λ key.
            field_merge (lookup key merges) (get_field key ours) (get_field key theirs)
              (child_path path key))
          base ours theirs)
  merge_with base ours theirs path = merge_leaf (some base) ours theirs path

  pub field_merges : Fields → TreeMap Merge
  field_merges end_fields = []
  field_merges (field key value fields) = (key, merge_with value) ∷ field_merges fields

unfoldable pub merge_value : Option Value → Merge
unfolding merge_leaf merge_with
merge_value none ours theirs path = merge_leaf none ours theirs path
merge_value (some base) ours theirs path = merge_with base ours theirs path

-- serde's conversions of a specification
pub record SpecFormat : Type 0 where
  pub to_value : AgentSpec → Result String Value
  pub from_value : Value → Result String AgentSpec

-- The specification of a merge without conflicts.
unfoldable pub clean_spec : SpecFormat → Merged → Revised (Option AgentSpec)
unfolding serialized
clean_spec format (value, []) = do
  value ← ok_or value (RevisionError.serialization "merged agent spec was deleted")
  spec ← serialized (format.from_value value)
  ok (some spec)
clean_spec format (value, c ∷ conflicts) = ok none

unfoldable pub merge_specs :
    SpecFormat
    → RevisionId
    → RevisionId
    → RevisionId
    → AgentSpec
    → AgentSpec
    → AgentSpec
    → Revised MergeResult
unfolding merge_value clean_spec serialized
merge_specs format base_id ours_id theirs_id base ours theirs = do
  base_value ← serialized (format.to_value base)
  ours_value ← serialized (format.to_value ours)
  theirs_value ← serialized (format.to_value theirs)
  let merged : Merged = merge_value (some base_value) (some ours_value) (some theirs_value) "$"
  spec ← clean_spec format merged
  ok (record {
    base = base_id;
    ours = ours_id;
    theirs = theirs_id;
    spec = spec;
    conflicts = merged.1;
  })
