-- ===== src/Runtime/Error.antt =====
-- canary-agent-runtime/src/error.rs
use canary_agent.Prelude.{ℕ, String, [], ◌∷◌, map, concat, join, show}
use canary_agent.Prelude.Result.{Result as Fallible}
use canary_agent.Kernel.Events.{RevisionToken}

pub data AgentError : Type 0 where
  thread_not_found invalid_thread_id store_locked : String → AgentError
  invalid_revision : AgentError
  session_coordinator : String → AgentError
  revision_conflict : String → RevisionToken → RevisionToken → AgentError
  context_window_exceeded context_compactor_contract_violation : ℕ → ℕ → AgentError
  turn_not_found : String → AgentError
  suspended_turn : String → String → AgentError
  turn_not_active turn_already_active io json http model_error : String → AgentError
  function_not_found : String → AgentError
  function_timeout : String → ℕ → AgentError
  invalid_function_timeout : String → AgentError
  function_output_too_large : String → ℕ → AgentError
  invalid_function_output_limit : String → AgentError
  function_error invalid_function_arguments : String → String → AgentError
  max_iterations max_function_calls : ℕ → AgentError
  logging : String → AgentError

abbrev pub Result : Type 0 → Type 0
Result A = Fallible AgentError A

-- `{:?}` of a token
debug_token : RevisionToken → String
debug_token t = concat ("RevisionToken([" ∷ join ", " (map show t.bytes) ∷ "])" ∷ [])

unfoldable pub to_string : AgentError → String
unfolding debug_token
to_string (thread_not_found id) = concat ("thread not found: " ∷ id ∷ [])
to_string (invalid_thread_id id) = concat ("invalid thread id: " ∷ id ∷ [])
to_string (store_locked dir) = concat ("thread store directory is already owned: " ∷ dir ∷ [])
to_string invalid_revision = "invalid revision token"
to_string (session_coordinator e) = concat ("session coordinator error: " ∷ e ∷ [])
to_string (revision_conflict id expected actual) = concat (
    "thread revision conflict for "
    ∷ id
    ∷ ": expected "
    ∷ debug_token expected
    ∷ ", actual "
    ∷ debug_token actual
    ∷ [])
to_string (context_window_exceeded estimated limit) =
    concat
      ("context window exceeded: estimated " ∷ show estimated ∷ " tokens, limit " ∷ show limit ∷ [])
to_string (context_compactor_contract_violation estimated limit) = concat (
    "context compactor exceeded its budget: estimated "
    ∷ show estimated
    ∷ " tokens, limit "
    ∷ show limit
    ∷ [])
to_string (turn_not_found id) = concat ("turn not found: " ∷ id ∷ [])
to_string (suspended_turn thread_id suspension_id) = concat (
    "thread has an unresolved suspended turn: " ∷ thread_id ∷ " (suspension " ∷ suspension_id ∷ ")"
    ∷ [])
to_string (turn_not_active id) = concat ("thread has no active turn: " ∷ id ∷ [])
to_string (turn_already_active id) = concat ("thread already has an active turn: " ∷ id ∷ [])
to_string (io e) = concat ("io error: " ∷ e ∷ [])
to_string (json e) = concat ("json error: " ∷ e ∷ [])
to_string (http e) = concat ("http error: " ∷ e ∷ [])
to_string (model_error e) = concat ("model error: " ∷ e ∷ [])
to_string (function_not_found name) = concat ("function not found: " ∷ name ∷ [])
to_string (function_timeout name ms) =
    concat ("function " ∷ name ∷ " exceeded its time budget of " ∷ show ms ∷ " ms" ∷ [])
to_string (invalid_function_timeout name) =
    concat ("function " ∷ name ∷ " declared an invalid zero time budget" ∷ [])
to_string (function_output_too_large name max_bytes) =
    concat ("function " ∷ name ∷ " output exceeded its limit of " ∷ show max_bytes ∷ " bytes" ∷ [])
to_string (invalid_function_output_limit name) =
    concat ("function " ∷ name ∷ " declared an invalid zero output limit" ∷ [])
to_string (function_error name message) = concat ("function error in " ∷ name ∷ ": " ∷ message ∷ [])
to_string (invalid_function_arguments name message) =
    concat ("invalid function arguments for " ∷ name ∷ ": " ∷ message ∷ [])
to_string (max_iterations n) = concat ("turn exceeded max model iterations: " ∷ show n ∷ [])
to_string (max_function_calls n) = concat ("turn exceeded max function calls: " ∷ show n ∷ [])
to_string (logging e) = concat ("logging error: " ∷ e ∷ [])
