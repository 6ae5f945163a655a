-- ===== src/Kernel/Value.antt =====
-- `serde_json::Value`, the type of payloads, arguments and outputs. Its maps are sorted by key.
use native.Mathlib.Decide.{ℕ_discrete}
use canary_agent.Prelude.Equality.{String-discrete}
use canary_agent.Prelude.{ℕ, String, Bool, Option, none, some, ◌==◌, if◌then◌else◌}

-- An integer, or another finite number by the bits of its `f64` (both zeros by one code).
pub data Number : Type 0 where
  pos_int neg_int float : ℕ → Number

mutual
  pub data Value : Type 0 where
    null : Value
    bool : Bool → Value
    number : Number → Value
    string : String → Value
    array : Items → Value
    object : Fields → Value

  pub data Items : Type 0 where
    end_items : Items
    item : Value → Items → Items

  pub data Fields : Type 0 where
    end_fields : Fields
    field : String → Value → Fields → Fields

unfoldable pub get_field : String → Fields → Option Value
get_field k end_fields = none
get_field k (field j v fs) = if j == k then some v else get_field k fs

-- Indexing anything but an object by a key gives nothing.
unfoldable pub get : Value → String → Option Value
unfolding get_field
get (object fs) k = get_field k fs
get _ k = none

abbrev pub as_bool : Value → Option Bool
as_bool (bool b) = some b
as_bool _ = none

abbrev pub as_str : Value → Option String
as_str (string s) = some s
as_str _ = none

abbrev pub as_u64 : Value → Option ℕ
as_u64 (number (Number.pos_int n)) = some n
as_u64 _ = none

unfoldable pub Value-discrete : Discrete Value
Value-discrete = hlevel (ℕ_discrete, String-discrete)
