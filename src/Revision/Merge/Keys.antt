-- ===== src/Revision/Merge/Keys.antt =====
-- The fields that the loop over the keys of canary-agent-revision/src/merge.rs leaves.
use canary_agent.Prelude.{
  String, Bool, true, false, ◌==◌, eq_iff, Option, none, some, List, [], ◌∷◌, ◌++◌, ◌≡◌, refl, sym,
  ◌∙◌, ap, arith, ◌||◌, if◌then◌else◌, All, All-append, is_some,
}
use canary_agent.Prelude.TreeMap.{contains}
use canary_agent.Kernel.Value.{Value, Fields, field, end_fields, get_field}
use canary_agent.Revision.Merge.{
  MergeConflict, Merged, field_names, set_field, set_some, merge_keys,
}

get_field-set_field :
    (key other : String) (v : Value) (fields : Fields)
    → get_field other (set_field key v fields)
      ≡ (if key == other then some v else get_field other fields)
unfolding get_field set_field
get_field-set_field key other v end_fields = refl
get_field-set_field key other v (field here w fields) = ground (
  arith,
  get_field-set_field key other v fields,
  eq_iff here other,
  eq_iff here key,
  eq_iff key other,
)

pub is_some-get_field :
    (key : String) (fields : Fields)
    → is_some (get_field key fields) ≡ contains key (field_names fields)
unfolding get_field field_names contains
is_some-get_field key end_fields = refl
is_some-get_field key (field here w fields) = ground (arith, is_some-get_field key fields)

abbrev pub or_else : Option Value → Option Value → Option Value
or_else none v = v
or_else (some w) v = some w

get_field-set_some :
    (key other : String) (v : Option Value) (fields : Fields)
    → get_field other (set_some key v fields)
      ≡ (if key == other then or_else v (get_field other fields) else get_field other fields)
get_field-set_some key other none fields = ground arith
get_field-set_some key other (some v) fields = get_field-set_field key other v fields

or_else_twice : (v w : Option Value) → or_else v (or_else v w) ≡ or_else v w
or_else_twice none w = refl
or_else_twice (some v) w = refl

append-empty : (front back : List MergeConflict) → front ++ back ≡ [] → (front ≡ []) × (back ≡ [])
append-empty [] back e = (refl, e)
append-empty (c ∷ front) back e = cc

module _ (child : String → Merged) where
  after_child :
      (key here : String) (later : Bool) (fields : Fields)
      → (if later
          then or_else (child key).0 (get_field key (set_some here (child here).0 fields))
          else get_field key (set_some here (child here).0 fields))
        ≡ (if here == key || later
            then or_else (child key).0 (get_field key fields)
            else get_field key fields)
  after_child key here later fields =
      rw (get_field-set_some here key (child here).0 fields) (by_case (here == key) refl later)
    where
      by_case :
          (b : Bool)
          → (here == key) ≡ b
          → (later : Bool)
          → (if later
              then or_else (child key).0 (
                  if b then or_else (child here).0 (get_field key fields) else get_field key fields)
              else if b
              then or_else (child here).0 (get_field key fields)
              else get_field key fields)
            ≡ (if b || later
                then or_else (child key).0 (get_field key fields)
                else get_field key fields)
      by_case true e true =
          rw ((eq_iff here key).0 e) (or_else_twice (child key).0 (get_field key fields))
      by_case true e false = rw ((eq_iff here key).0 e) refl
      by_case false e true = refl
      by_case false e false = refl

  pub get_field-merge_keys :
      (key : String) (keys : List String) (fields : Fields)
      → get_field key (merge_keys child keys fields).0 ≡ (
          if contains key keys
          then or_else (child key).0 (get_field key fields)
          else get_field key fields)
  unfolding merge_keys contains
  get_field-merge_keys key [] fields = refl
  get_field-merge_keys key (here ∷ keys) fields =
      get_field-merge_keys key keys (set_some here (child here).0 fields)
      ∙ after_child key here (contains key keys) fields

  pub clean_child :
      (key : String) (keys : List String) (fields : Fields)
      → (merge_keys child keys fields).1 ≡ []
      → contains key keys ≡ true
      → (child key).1 ≡ []
  unfolding merge_keys contains
  clean_child key [] fields clean h = cc
  clean_child key (here ∷ keys) fields clean h =
      by_case (here == key) refl h
        (clean_child key keys (set_some here (child here).0 fields) both.1)
    where
      both :
          ((child here).1 ≡ [])
          × ((merge_keys child keys (set_some here (child here).0 fields)).1 ≡ [])
      both =
          append-empty (child here).1
            (merge_keys child keys (set_some here (child here).0 fields)).1 clean

      by_case :
          (b : Bool)
          → (here == key) ≡ b
          → (b || contains key keys) ≡ true
          → (contains key keys ≡ true → (child key).1 ≡ [])
          → (child key).1 ≡ []
      by_case true e h later = ap (λ k. (child k).1) (sym ((eq_iff here key).0 e)) ∙ both.0
      by_case false e h later = later h

  pub All-merge_keys {ℓ} :
      (P : MergeConflict → Type ℓ)
      → ((key : String) → All P (child key).1)
      → (keys : List String) (fields : Fields) → All P (merge_keys child keys fields).1
  unfolding merge_keys
  All-merge_keys P each [] fields = tt
  All-merge_keys P each (here ∷ keys) fields =
      All-append P (child here).1 (merge_keys child keys (set_some here (child here).0 fields)).1
        (each here) (All-merge_keys P each keys (set_some here (child here).0 fields))
