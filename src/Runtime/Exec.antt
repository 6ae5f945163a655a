-- ===== src/Runtime/Exec.antt =====
-- The methods of canary-agent-runtime, which fail with an `AgentError`.
use canary_agent.Prelude.Exec.{Exec as Fallible}
use canary_agent.Runtime.Error.{AgentError}
unfoldable pub use canary_agent.Prelude.Exec.{
  pure, raise, lift, gets, modify, continue, ◌>>=◌, ◌>>◌,
}
pub use canary_agent.Prelude.Exec.{bind-eq-ok, from_bind, stops, goes}

abbrev pub Exec : Type 0 → Type 0 → Type 0
Exec = Fallible AgentError
