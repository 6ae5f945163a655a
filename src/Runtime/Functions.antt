-- ===== src/Runtime/Functions.antt =====
-- canary-agent-runtime/src/functions.rs: the registered functions and the call of one of them.
pub mod Limits
pub mod Offered
use canary_agent.Prelude.{
  ℕ, ◌/◌, String, Bool, Option, none, some, List, [], map, is_some, eqb, ltb, leb, if◌then◌else◌,
}
use canary_agent.Prelude.Result.{ok, err, ok_or, ◌>>=◌, ◌>>◌}
use canary_agent.Prelude.TreeMap
use canary_agent.Prelude.TreeMap.{TreeMap}
use canary_agent.Kernel.Value.{Value}
use canary_agent.Kernel.Events.{Suspension}
use canary_agent.Kernel.Model.{FunctionSpec}
use canary_agent.Kernel.Projection.{ThreadProjection}
use canary_agent.Runtime.Error.{
  AgentError, Result, function_not_found, function_timeout, invalid_function_timeout,
  invalid_function_output_limit, function_output_too_large,
}
use canary_agent.Runtime.Stream.{FunctionRecoveryPolicy}

-- The abort signal is a part of the world that the call runs in.
pub record FunctionContext : Type 0 where
  pub thread_id : String
  pub metadata : Value
  pub turn_id : String
  pub call_id : String
  pub projection : ThreadProjection

-- `std::time::Duration`, in nanoseconds.
pub record Duration : Type 0 where
  pub nanos : ℕ

unfoldable pub as_millis : Duration → ℕ
as_millis duration = duration.nanos / 1000000

pub record FunctionLimits : Type 0 where
  pub time_budget : Duration
  pub max_output_bytes : ℕ

pub record FunctionDescriptor : Type 0 where
  pub spec : FunctionSpec
  pub output_schema : Value
  pub limits : FunctionLimits
  pub recovery_policy : FunctionRecoveryPolicy

pub data FunctionExecution : Type 0 where
  completed : Value → FunctionExecution
  suspended_before_execution : Suspension → FunctionExecution
  suspended_after_execution : Suspension → Value → FunctionExecution

pub data SuspensionResolution : Type 0 where
  approve : SuspensionResolution
  deny : String → SuspensionResolution
  user_input : String → SuspensionResolution
  external_result : Value → SuspensionResolution

-- The object behind `dyn AgentFunction`. A call is run under a time budget: `none` says that the
-- budget ran out before the call ended.
pub record AgentFunction (W : Type 0) : Type 0 where
  pub spec : FunctionSpec
  pub output_schema : Value
  pub limits : FunctionLimits
  pub recovery_policy : FunctionRecoveryPolicy
  pub resolve : String → Value → ℕ → Result Value
  pub call : Duration → Value → FunctionContext → W → Option (Result FunctionExecution) × W

-- `DiscardResolver`
unfoldable pub discard : String → Value → ℕ → Result Value
discard name output max_output_bytes = err (function_output_too_large name max_output_bytes)

abbrev pub FunctionRegistry : Type 0 → Type 0
FunctionRegistry W = TreeMap (AgentFunction W)

module _ {W : Type 0} where
  unfoldable pub new : FunctionRegistry W
  new = []

  unfoldable pub register : AgentFunction W → FunctionRegistry W → FunctionRegistry W
  register f functions = TreeMap.insert f.spec.name f functions

  unfoldable pub unregister : String → FunctionRegistry W → Bool × FunctionRegistry W
  unregister name functions =
      (is_some (TreeMap.lookup name functions), TreeMap.remove name functions)

  unfoldable pub specs : FunctionRegistry W → List FunctionSpec
  specs functions = map (λ f. f.spec) (TreeMap.values functions)

  unfoldable pub descriptors : FunctionRegistry W → List FunctionDescriptor
  descriptors functions =
      map
        (λ f. record {
          spec = f.spec;
          output_schema = f.output_schema;
          limits = f.limits;
          recovery_policy = f.recovery_policy;
        })
        (TreeMap.values functions)

  unfoldable pub recovery_policy : FunctionRegistry W → String → Result FunctionRecoveryPolicy
  recovery_policy functions name = do
    f ← ok_or (TreeMap.lookup name functions) (function_not_found name)
    ok f.recovery_policy

unfoldable pub validate_limits : String → FunctionLimits → Result Unit
validate_limits name limits =
    if eqb limits.time_budget.nanos 0
    then err (invalid_function_timeout name)
    else if eqb limits.max_output_bytes 0
    then err (invalid_function_output_limit name)
    else ok tt

-- the function that a call runs, with its limits validated
checked : {W : Type 0} → FunctionRegistry W → String → Result (AgentFunction W)
unfolding validate_limits
checked functions name = do
  f ← ok_or (TreeMap.lookup name functions) (function_not_found name)
  validate_limits name f.limits
  ok f

abbrev oversized : String → ℕ → Result Value
oversized name max_bytes = err (function_output_too_large name max_bytes)

-- `encoded_len v` is `serde_json::to_vec(v)?.len()`.
module _ (encoded_len : Value → Result ℕ) where
  unfoldable pub resolve_output :
      String → Value → ℕ → (String → Value → ℕ → Result Value) → Result Value
  resolve_output name output max_output_bytes resolve = do
    len ← encoded_len output
    if leb len max_output_bytes then ok output else do
      resolved ← resolve name output max_output_bytes
      resolved_len ← encoded_len resolved
      if ltb max_output_bytes resolved_len then oversized name max_output_bytes else ok resolved

  unfoldable pub enforce_output_limit :
      String
      → FunctionExecution
      → ℕ
      → (String → Value → ℕ → Result Value)
      → Result FunctionExecution
  unfolding resolve_output
  enforce_output_limit name (completed output) max resolve = do
    resolved ← resolve_output name output max resolve
    ok (completed resolved)
  enforce_output_limit name (suspended_after_execution suspension output) max resolve = do
    resolved ← resolve_output name output max resolve
    ok (suspended_after_execution suspension resolved)
  enforce_output_limit name (suspended_before_execution suspension) max resolve =
      ok (suspended_before_execution suspension)

  module _ {W : Type 0} where
    -- the `map_err(...)??` on the result under the timeout
    within_budget :
        AgentFunction W → String → Option (Result FunctionExecution) → Result FunctionExecution
    unfolding as_millis
    within_budget f name none = err (function_timeout name (as_millis f.limits.time_budget))
    within_budget f name (some r) = do
      execution ← r
      enforce_output_limit name execution f.limits.max_output_bytes f.resolve

    run_checked :
        Result (AgentFunction W)
        → String
        → Value
        → FunctionContext
        → W
        → Result FunctionExecution × W
    unfolding within_budget enforce_output_limit
    run_checked (err e) name args context w = (err e, w)
    run_checked (ok f) name args context w =
        let (outcome, w') = f.call f.limits.time_budget args context w in
        (within_budget f name outcome, w')

    -- Nothing is run when the function is not there or its limits are invalid.
    unfoldable pub call :
        FunctionRegistry W → String → Value → FunctionContext → W → Result FunctionExecution × W
    unfolding checked run_checked
    call functions name args context w = run_checked (checked functions name) name args context w
