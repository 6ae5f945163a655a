-- ===== src/Revision/Merge/Objects.antt =====
-- The branch of three objects of `merge_value` in canary-agent-revision/src/merge.rs, and the whole of it.
use canary_agent.Prelude.{
  String, Bool, true, false, ◌==◌, Option, none, some, List, [], ◌∷◌, ◌++◌, ◌≡◌, ◌≢◌, refl, sym,
  ◌∙◌, ◌||◌, if◌then◌else◌, All-map, is_some,
}
use canary_agent.Prelude.TreeMap.{
  lookup, contains, contains-append, contains-sorted_keys, sorted_keys,
}
use canary_agent.Kernel.Value.{Value, Fields, object, field, end_fields, get_field, get}
use canary_agent.Revision.Merge.{
  MergeConflict, Merged, field_names, merge_keys, child_path, merge_objects, merge_leaf,
  field_merge, merge_with, field_merges, merge_value,
}
use canary_agent.Revision.Merge.Keys.{
  is_some-get_field, or_else, get_field-merge_keys, clean_child, All-merge_keys,
}
use canary_agent.Revision.Merge.Paths.{
  child_at, value_at, dotted, Kept, Located, IsMerge, unless_one_sided-IsMerge, merge_leaf-IsMerge,
}

-- The child of a value at a key that none of the three has.
Kept-none :
    (names : List String)
    → Kept (value_at names none) (value_at names none) (value_at names none) (value_at names none)
Kept-none names = record { only_ours = λ e. refl; only_theirs = λ e. refl; both_same = λ e. refl }

under_key :
    (base ours theirs : Fields) (path key : String) (c : MergeConflict)
    → Located
        (get_field key base)
        (get_field key ours)
        (get_field key theirs)
        (child_path path key)
        c
    → Located (some (object base)) (some (object ours)) (some (object theirs)) path c
unfolding value_at child_at get dotted
under_key base ours theirs path key c located = record {
  names = key ∷ located.names;
  at_path = located.at_path;
  at_base = located.at_base;
  at_ours = located.at_ours;
  at_theirs = located.at_theirs;
  ours_changed = located.ours_changed;
  theirs_changed = located.theirs_changed;
  differ = located.differ;
}

no_field :
    (key : String) (fields : Fields)
    → contains key (field_names fields) ≡ false
    → get_field key fields ≡ none
no_field key fields h = by_case (get_field key fields) (is_some-get_field key fields ∙ h)
  where
    by_case : (v : Option Value) → is_some v ≡ false → v ≡ none
    by_case none e = refl
    by_case (some v) e = cc

module _ (child : String → Merged) (base ours theirs : Fields) (path : String) where
  names_of : List String
  names_of = sorted_keys (field_names base ++ field_names ours ++ field_names theirs)

  contains-names_of :
      (key : String)
      → contains key names_of ≡ (
          contains key (field_names base)
          || contains key (field_names ours)
          || contains key (field_names theirs))
  unfolding names_of
  contains-names_of key =
      rw
        (
          contains-sorted_keys key (field_names base ++ field_names ours ++ field_names theirs),
          contains-append key (field_names base ++ field_names ours) (field_names theirs),
          contains-append key (field_names base) (field_names ours),
        )
        refl

  -- What the merge has at a key, whether one of the three has it or not.
  object_child :
      (key : String)
      → (merge_keys child names_of end_fields).1 ≡ []
      → IsMerge
          (get_field key base)
          (get_field key ours)
          (get_field key theirs)
          (child_path path key)
          (child key)
      → (names : List String)
      → Kept
          (value_at names (get_field key base))
          (value_at names (get_field key ours))
          (value_at names (get_field key theirs))
          (value_at names (get_field key (merge_keys child names_of end_fields).0))
  unfolding get_field
  object_child key clean each names =
      rw (get_field-merge_keys child key names_of end_fields) (by_case (contains key names_of) refl)
    where
      none_of : (b o t : Bool) → (b || o || t) ≡ false → (b ≡ false) × (o ≡ false) × (t ≡ false)
      none_of false false false h = (refl, refl, refl)
      none_of true o t h = cc
      none_of false true t h = cc
      none_of false false true h = cc

      or_none : (v : Option Value) → or_else v none ≡ v
      or_none none = refl
      or_none (some v) = refl

      by_case :
          (b : Bool)
          → contains key names_of ≡ b
          → Kept
              (value_at names (get_field key base))
              (value_at names (get_field key ours))
              (value_at names (get_field key theirs))
              (value_at names (if b then or_else (child key).0 none else none))
      by_case true e =
          rw (or_none (child key).0)
            (each.kept (clean_child child key names_of end_fields clean e) names)
      by_case false e =
          let (b, o, t) = none_of _ _ _ (sym (contains-names_of key) ∙ e) in
          rw (no_field key base b, no_field key ours o, no_field key theirs t) (Kept-none names)

  merge_objects-IsMerge :
      ((key : String)
        → IsMerge
            (get_field key base)
            (get_field key ours)
            (get_field key theirs)
            (child_path path key)
            (child key))
      → some (object ours) ≢ some (object theirs)
      → some (object ours) ≢ some (object base)
      → some (object theirs) ≢ some (object base)
      → IsMerge
          (some (object base))
          (some (object ours))
          (some (object theirs))
          path
          (merge_objects child base ours theirs)
  unfolding merge_objects value_at child_at get names_of
  merge_objects-IsMerge each a b c = record {
    kept = kept;
    located =
        All-merge_keys child
          (Located (some (object base)) (some (object ours)) (some (object theirs)) path)
          (λ key. All-map (under_key base ours theirs path key) (child key).1 (each key).located)
          names_of end_fields;
  }
    where
      kept :
          (merge_keys child names_of end_fields).1 ≡ []
          → (names : List String)
          → Kept
              (value_at names (some (object base)))
              (value_at names (some (object ours)))
              (value_at names (some (object theirs)))
              (value_at names (some (object (merge_keys child names_of end_fields).0)))
      kept clean [] = record {
        only_ours = λ e. absurd (c e);
        only_theirs = λ e. absurd (b e);
        both_same = λ e. absurd (a e);
      }
      kept clean (key ∷ names) = object_child key clean (each key) names

mutual
  unfolding merge_with field_merges merge_leaf get_field lookup

  merge_with-IsMerge :
      (base : Value) (ours theirs : Option Value) (path : String)
      → IsMerge (some base) ours theirs path (merge_with base ours theirs path)
  merge_with-IsMerge (object base) (some (object ours)) (some (object theirs)) path =
      unless_one_sided-IsMerge (some (object base)) (some (object ours)) (some (object theirs)) path
        _
        (merge_objects-IsMerge _ base ours theirs path (λ key.
          field_merge-IsMerge base key (get_field key ours) (get_field key theirs)
            (child_path path key)))
  merge_with-IsMerge base ours theirs path = merge_leaf-IsMerge (some base) ours theirs path

  field_merge-IsMerge :
      (fields : Fields) (key : String) (ours theirs : Option Value) (path : String)
      → IsMerge
          (get_field key fields)
          ours
          theirs
          path
          (field_merge (lookup key (field_merges fields)) ours theirs path)
  field_merge-IsMerge end_fields key ours theirs path = merge_leaf-IsMerge none ours theirs path
  field_merge-IsMerge (field here v fields) key ours theirs path =
      by_case (here == key) (merge_with-IsMerge v ours theirs path)
        (field_merge-IsMerge fields key ours theirs path)
    where
      by_case :
          (b : Bool)
          → IsMerge (some v) ours theirs path (merge_with v ours theirs path)
          → IsMerge
              (get_field key fields)
              ours
              theirs
              path
              (field_merge (lookup key (field_merges fields)) ours theirs path)
          → IsMerge (if b then some v else get_field key fields) ours theirs path (
              field_merge
                (if b then some (merge_with v) else lookup key (field_merges fields))
                ours
                theirs
                path)
      by_case true here later = here
      by_case false here later = later

-- A merge of values without conflicts has, at each path of keys, the value of the side that changed it where
-- one side left it as in the base, and the value of both where they agree; and each conflict of a merge names
-- a path at which both sides differ from the base and from each other, with the three values there.
pub merge_value-IsMerge :
    (base ours theirs : Option Value) (path : String)
    → IsMerge base ours theirs path (merge_value base ours theirs path)
unfolding merge_value
merge_value-IsMerge none ours theirs path = merge_leaf-IsMerge none ours theirs path
merge_value-IsMerge (some base) ours theirs path = merge_with-IsMerge base ours theirs path
