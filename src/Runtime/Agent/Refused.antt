-- ===== src/Runtime/Agent/Refused.antt =====
-- A thread that waits for an answer, against `run_turn` and `recover_turn` of
-- canary-agent-runtime/src/agent_loop.rs.
use canary_agent.Prelude.{ℕ, String, ◌≡◌, refl, ap, Option, none, some}
use canary_agent.Prelude.Result.{ok, err}
use canary_agent.Kernel.Value.{Value}
use canary_agent.Kernel.Events.{Thread, no_usage}
use canary_agent.Kernel.Projection.{PendingSuspension, from_thread}
use canary_agent.Runtime.Error.{suspended_turn}
use canary_agent.Runtime.Exec.{stops, goes}
use canary_agent.Runtime.Agent.{Agent, State, LeaseFence}
use canary_agent.Runtime.Agent.Run.{
  run_turn_internal, load_thread, begin_turn, refuse_if_suspended, or_new,
}
use canary_agent.Runtime.Agent.Entry.{run_turn, recover_turn}

module _ {W : Type 0} (agent : Agent W) (fence : LeaseFence) (thread_id : String) (s : State W)
    (w : W) (thread : Thread) (pending : PendingSuspension)
    (loaded : agent.load thread_id s.world ≡ (ok thread, w))
    (waits : (from_thread thread).pending_suspension ≡ some pending) where
  -- the state behind the loading
  abbrev behind_load : ℕ → State W
  behind_load sequence = record s {
    world = w;
    thread = thread;
    turn_token_usage = no_usage;
    function_call_count = 0;
    trace_sequence = sequence;
  }

  refuse_if_suspended-eq :
      (sequence : ℕ)
      → refuse_if_suspended agent fence thread_id (behind_load sequence)
        ≡ (err (suspended_turn thread_id pending.suspension.id), behind_load sequence)
  unfolding refuse_if_suspended from_thread
  refuse_if_suspended-eq sequence = rw waits refl

  begin_turn-eq :
      (input : Option String) (sequence : ℕ)
      → begin_turn agent fence thread_id input (behind_load sequence)
        ≡ (err (suspended_turn thread_id pending.suspension.id), behind_load sequence)
  unfolding begin_turn
  begin_turn-eq (some text) sequence = stops _ _ (refuse_if_suspended-eq sequence)
  begin_turn-eq none sequence = stops _ _ (refuse_if_suspended-eq sequence)

  load_thread-eq :
      (metadata : Option Value) (sequence : ℕ)
      → load_thread agent fence thread_id metadata (record s {
        turn_token_usage = no_usage;
        function_call_count = 0;
        trace_sequence = sequence;
      })
        ≡ (ok tt, behind_load sequence)
  unfolding load_thread or_new
  load_thread-eq metadata sequence = rw loaded refl

  run_turn_internal-eq :
      (input : Option String) (metadata : Option Value) (sequence : ℕ)
      → run_turn_internal agent fence thread_id input metadata sequence s
        ≡ (err (suspended_turn thread_id pending.suspension.id), behind_load sequence)
  unfolding run_turn_internal
  run_turn_internal-eq input metadata sequence =
      goes _ _ refl
        (goes _ _ (load_thread-eq metadata sequence) (stops _ _ (begin_turn-eq input sequence)))

  -- A thread that shows a pending suspension when it is loaded takes no new turn and no recovery: both give an
  -- error that names the suspension, nothing is done to the world but the loading, and no event is emitted.
  pub run_turn-refused :
      (text : String) (metadata : Value)
      → ((run_turn agent fence thread_id text metadata s).0
          ≡ err (suspended_turn thread_id pending.suspension.id))
        × ((run_turn agent fence thread_id text metadata s).1.world ≡ w)
        × ((run_turn agent fence thread_id text metadata s).1.events ≡ s.events)
        × ((recover_turn agent fence thread_id s).0
            ≡ err (suspended_turn thread_id pending.suspension.id))
        × ((recover_turn agent fence thread_id s).1.world ≡ w)
        × ((recover_turn agent fence thread_id s).1.events ≡ s.events)
  unfolding run_turn recover_turn
  run_turn-refused text metadata =
      let run = run_turn_internal-eq (some text) (some metadata) 0 in
      let recover = run_turn_internal-eq none none 0 in
      (
        ap (λ p. p.0) run,
        ap (λ p. p.1.world) run,
        ap (λ p. p.1.events) run,
        ap (λ p. p.0) recover,
        ap (λ p. p.1.world) recover,
        ap (λ p. p.1.events) recover,
      )
