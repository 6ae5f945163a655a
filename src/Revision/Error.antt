-- ===== src/Revision/Error.antt =====
-- canary-agent-revision/src/error.rs.
use canary_agent.Prelude.{String, List, [], ◌∷◌, concat, join}
use canary_agent.Prelude.Result.{Result, ok, err}

pub data RevisionError : Type 0 where
  invalid_spec invalid_commit_message invalid_branch serialization store : String → RevisionError
  revision_not_found branch_not_found branch_already_exists concurrent_update :
      String → RevisionError
  no_common_ancestor nothing_to_merge : String → RevisionError
  merge_conflicts : List String → RevisionError

abbrev pub Revised : Type 0 → Type 0
Revised A = Result RevisionError A

-- The implementation of `fmt::Display`.
unfoldable pub to_string : RevisionError → String
unfolding concat join
to_string (invalid_spec message) = concat ("invalid agent spec: " ∷ message ∷ [])
to_string (invalid_commit_message message) = concat ("invalid commit message: " ∷ message ∷ [])
to_string (invalid_branch message) = concat ("invalid branch: " ∷ message ∷ [])
to_string (serialization message) = concat ("serialization failed: " ∷ message ∷ [])
to_string (store message) = concat ("revision store failed: " ∷ message ∷ [])
to_string (revision_not_found id) = concat ("revision not found: " ∷ id ∷ [])
to_string (branch_not_found branch) = concat ("branch not found: " ∷ branch ∷ [])
to_string (branch_already_exists branch) = concat ("branch already exists: " ∷ branch ∷ [])
to_string (concurrent_update branch) = concat ("branch changed concurrently: " ∷ branch ∷ [])
to_string (no_common_ancestor branches) =
    concat ("branches have no common ancestor: " ∷ branches ∷ [])
to_string (nothing_to_merge branches) = concat ("nothing to merge: " ∷ branches ∷ [])
to_string (merge_conflicts paths) = concat ("merge has conflicts at: " ∷ join ", " paths ∷ [])

-- `map_err(|error| RevisionError::Serialization(error.to_string()))`
unfoldable pub serialized : {A : Type 0} → Result String A → Revised A
serialized (ok a) = ok a
serialized (err message) = err (serialization message)
