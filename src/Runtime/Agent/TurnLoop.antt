-- ===== src/Runtime/Agent/TurnLoop.antt =====
-- The turn loop of canary-agent-runtime/src/agent_loop.rs as a whole.
use canary_agent.Prelude.{
  none, ◌+◌, ◌⊎◌, inl, inr, sym, ◌∙◌, [], ℕ, ◌≤◌, String, ◌≡◌, Option, some, List,
}
use mathlib.Core.Path.{subst}
use canary_agent.Prelude.Result.{ok}
use canary_agent.Kernel.Events.{ModelFunctionCall, Suspension, TurnStatus}
use canary_agent.Runtime.Exec.{Exec}
use canary_agent.Runtime.Stream.{TurnOutcome}
use canary_agent.Runtime.Agent.{Agent, State, LeaseFence}
use canary_agent.Runtime.Agent.Calls.{execute_calls}
use canary_agent.Runtime.Agent.Run.{turn_loop}
use canary_agent.Runtime.Agent.View.{View, look, From, Leaves, KeepsTurns}
use canary_agent.Runtime.Agent.Transcript.{Looped, execute_calls-From}
use canary_agent.Runtime.Agent.Rounds.{Rounds, turn_loop-From}
use canary_agent.Runtime.Agent.Recovery.{pending_function_calls, recover_pending_function_calls}
use canary_agent.Runtime.Agent.Recovered.{recover_pending_function_calls-From}
use canary_agent.Runtime.Agent.Answered.{Rounds-Nothing, view_in-pending, status_of-suspended}
use canary_agent.Runtime.Agent.Responses.{count_responses, Rounds-responses}
use canary_agent.Runtime.Agent.Outcome.{status_of, Rounds-status}

-- A run that gives a result, with what its rule says.
From-run :
    {W A : Type 0} {id : String} {v : View} {m : Exec (State W) A} {Q : A → View → Type 0} {a : A}
    {s s' : State W}
    → From id v m Q
    → look id s ≡ some v
    → m s ≡ (ok a, s')
    → (u : View) × (look id s' ≡ some u) × Q a u
From-run {id = id} {Q = Q} {s = s} f h e = subst (Leaves id Q) e (f.at s h)

module _ {W : Type 0} (agent : Agent W) (fence : LeaseFence) (thread_id id : String)
    (keeps : KeepsTurns agent) (s s' : State W) (v : View) (running : look id s ≡ some v) where
  -- If a store gives back the turns that are committed to it, the loop over the first `n` calls of a response,
  -- where it gives no error, adds to its turn exactly what the grammar of calls allows. A call that is not
  -- the last one leaves its start and its output, or the output alone where a hook refused it. A call that ends the turn
  -- leaves its abort or its suspension, and each call behind it gets an output that says so.
  pub execute_calls-Looped :
      (n : ℕ) (calls : List ModelFunctionCall) (o : Option TurnOutcome)
      → execute_calls agent fence thread_id id n calls s ≡ (ok o, s')
      → (u : View) × (look id s' ≡ some u) × Looped n calls v o u
  execute_calls-Looped n calls o run =
      From-run (execute_calls-From agent fence thread_id id keeps n calls v) running run

  -- If a store gives back the turns that are committed to it, a recovery that gives no error and hands over to the
  -- turn loop leaves no call of the turn pending.
  pub recovery-pending :
      recover_pending_function_calls agent fence thread_id id s ≡ (ok none, s')
      → pending_function_calls s'.thread id ≡ []
  recovery-pending run =
      let (u, l, h) =
        From-run (recover_pending_function_calls-From agent fence thread_id id keeps v) running
          run in
      view_in-pending id s'.function_call_count s'.thread u l ∙ h

  -- If a store gives back the turns that are committed to it, a recovery that gives no error and ends the turn leaves it
  -- suspended or leaves no call of it pending.
  pub recovery-ended :
      (o : TurnOutcome)
      → recover_pending_function_calls agent fence thread_id id s ≡ (ok (some o), s')
      → ((u : View) × (look id s' ≡ some u) × (u.status ≡ TurnStatus.suspended))
        ⊎ (pending_function_calls s'.thread id ≡ [])
  recovery-ended o run =
      let (u, l, h) =
        From-run (recover_pending_function_calls-From agent fence thread_id id keeps v) running
          run in
      elim h [
        | inl e ↦ inl (u, l, e)
        | inr e ↦ inr (view_in-pending id s'.function_call_count s'.thread u l ∙ e)
      ]

  module _ (left n : ℕ) (o : TurnOutcome)
      (run : turn_loop agent fence thread_id id left n s ≡ (ok o, s')) where
    -- If a store gives back the turns that are committed to it, a turn loop with `left` rounds left that gives
    -- no error adds to its turn exactly what the grammar of rounds allows: up to `left` responses, each with
    -- the items of its calls behind it and all but the last with calls, and then the items of the end that
    -- the outcome names; or, where no round ended the turn, the failure that says so.
    pub turn_loop-Rounds :
        (u : View) × (look id s' ≡ some u)
        × Rounds agent.config.turn_execution_limits.max_function_calls
            agent.config.turn_execution_limits.max_model_iterations left v o u
    turn_loop-Rounds = From-run (turn_loop-From agent fence thread_id id keeps left n v) running run

    -- If a store gives back the turns that are committed to it, a turn loop that gives no error leaves its turn
    -- with the status that its outcome names.
    pub turn_loop-status : (u : View) × (look id s' ≡ some u) × (u.status ≡ status_of o)
    turn_loop-status = let (u, l, rs) = turn_loop-Rounds in (u, l, Rounds-status rs)

    -- If a store gives back the turns that are committed to it, and no call of the turn is pending for a
    -- recovery, then a turn loop that gives no error ends with a suspension, or again no call is pending: what it
    -- requested has an output, also where the turn failed or was aborted.
    pub turn_loop-pending :
        pending_function_calls s.thread id ≡ []
        → ((x : Suspension) × (o ≡ TurnOutcome.suspended x))
          ⊎ (pending_function_calls s'.thread id ≡ [])
    turn_loop-pending none_before =
        let (u, l, rs) = turn_loop-Rounds in
        let none_viewed =
          rw (view_in-pending id s.function_call_count s.thread v running) at none_before in
        elim (Rounds-Nothing none_viewed rs) [
          | inl e ↦ inl (status_of-suspended o (sym (Rounds-status rs) ∙ e))
          | inr e ↦ inr (view_in-pending id s'.function_call_count s'.thread u l ∙ e)
        ]

    -- If a store gives back the turns that are committed to it, a turn loop with `left` rounds left that gives
    -- no error adds at most `left` responses of the model to its turn.
    pub turn_loop-responses :
        (u : View) × (look id s' ≡ some u)
        × (count_responses u.items ≤ count_responses v.items + left)
    turn_loop-responses = let (u, l, rs) = turn_loop-Rounds in (u, l, Rounds-responses rs)
