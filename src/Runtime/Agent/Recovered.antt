-- ===== src/Runtime/Agent/Recovered.antt =====
-- What `recover_pending_function_calls` of canary-agent-runtime/src/agent_loop.rs leaves: an output for each
-- call that was pending, or a suspended turn.
use canary_agent.Prelude.{
  ℕ, String, ◌≡◌, refl, sym, ap, ◌∙◌, Bool-cases, Option, none, some, List, [], ◌∷◌, ◌++◌, map, ◌⊎◌,
  inl, inr, All,
}
use mathlib.Core.Option
use mathlib.Core.List.{append_assoc, append-nil}
use canary_agent.Prelude.Result.{ok, err}
use canary_agent.Kernel.Events.{
  TurnItemKind, ModelFunctionCall, ToolResult, Suspension, TurnStatus, function_call_started,
  turn_aborted,
}
use canary_agent.Runtime.Error.{Result, to_string}
use canary_agent.Runtime.Exec.{gets}
use canary_agent.Runtime.Stream.{TurnOutcome}
use canary_agent.Runtime.Functions.{
  FunctionExecution, completed, suspended_before_execution, suspended_after_execution,
}
use canary_agent.Runtime.Agent.{
  Agent, LeaseFence, aborted_by_caller, not_recorded, append_aborted_function_outputs,
}
use canary_agent.Runtime.Agent.Recovery.{
  PendingCall, Requests, last_requests, is_completed, without_output, pending_in,
  pending_function_calls, next_attempt, needs_reconciliation, suspend_for_recovery,
  suspend_recovered, settle_recovered, rerun, recover_call, recover_calls, skip_aborted,
  recover_pending_function_calls,
}
use canary_agent.Runtime.Agent.View.{
  View, From, From-weaken, KeepsTurns, From-bind, From-skip, From-pure, pushed,
}
use canary_agent.Runtime.Agent.Rules.{
  Quiet-gets, Quiet-lift, Quiet-modify, Quiet-record_trace, Quiet-fresh_id, Quiet-for_each,
  Quiet-call_function, Quiet-commit, From-push, From-status, From-await, await-From, aborted_view,
}
use canary_agent.Runtime.Agent.Transcript.{output, outputs, outputs-kinds}
use canary_agent.Runtime.Agent.Outputs.{
  HasOutput, is_completed-left, is_completed-right, without_output-nil, last_requests-append,
  behind,
}
use canary_agent.Runtime.Agent.Answered.{
  Answers, Answers-append, output-Answers, quiet-Answers, outputs-Answers, Unless, Unless-map,
  view_in-pending,
}

-- Items were added that hold an output for each of the calls.
abbrev Added : List ModelFunctionCall → View → View → Type 0
Added cs v u = (ks : List TurnItemKind) × (u.items ≡ v.items ++ ks) × Answers cs ks

abbrev calls_of : List PendingCall → List ModelFunctionCall
calls_of = map (λ p. p.0)

-- what one pending call gives and leaves: a break settles the calls behind it too
abbrev One : PendingCall → List PendingCall → View → Option TurnOutcome → View → Type 0
One p rest v none u = Added (p.0 ∷ []) v u
One p rest v (some o) u = (u.status ≡ TurnStatus.suspended) ⊎ Added (p.0 ∷ calls_of rest) v u

abbrev pub AllOf : List PendingCall → View → Option TurnOutcome → View → Type 0
AllOf ps v o u = Unless o u.status (Added (calls_of ps) v u)

Added-append :
    {cs ds : List ModelFunctionCall} (v u w : View)
    → Added cs v u
    → Added ds u w
    → Added (cs ++ ds) v w
Added-append v u w (ks, e, a) (js, d, b) =
    (ks ++ js, d ∙ ap (λ is. is ++ js) e ∙ append_assoc v.items ks js, Answers-append a b)

-- A call of the last response had its output, or it was pending and has it now.
without_output-added :
    (ks js : List TurnItemKind) (cs : List ModelFunctionCall)
    → All (HasOutput js) (calls_of (without_output ks cs))
    → All (HasOutput (ks ++ js)) cs
unfolding without_output
without_output-added ks js [] h = tt
without_output-added ks js (c ∷ cs) h = elim (Bool-cases (is_completed c.call_id ks)) [
  | inl e ↦ (is_completed-left c.call_id ks js e, without_output-added ks js cs (rw e at h))
  | inr e ↦
      let g = rw e at h in
      (is_completed-right c.call_id ks js g.0, without_output-added ks js cs g.1)
]

Added-pending :
    (v u : View)
    → Added (calls_of (pending_in (last_requests v.items))) v u
    → pending_in (last_requests u.items) ≡ []
unfolding pending_in
Added-pending v u (js, e, a) =
    rw (e, last_requests-append v.items js a.requests) (go (last_requests v.items) a.each)
  where
    go :
        (o : Option Requests)
        → All (HasOutput js) (calls_of (pending_in o))
        → pending_in (Option.map (behind js) o) ≡ []
    go none h = refl
    go (some (cs, ks)) h = without_output-nil (ks ++ js) cs (without_output-added ks js cs h)

module _ {W : Type 0} (agent : Agent W) (fence : LeaseFence) (thread_id id : String)
    (keeps : KeepsTurns agent) where
  suspend_recovered-From :
      (x : Suspension) (rest : List PendingCall) (p : PendingCall) (v w : View)
      → From id w (suspend_recovered agent fence thread_id id x rest) (One p rest v)
  unfolding suspend_recovered
  suspend_recovered-From x rest p v w = From-push id _ _ (
      From-status id TurnStatus.suspended _ (
        From-skip id (Quiet-commit keeps fence) λ _.
          From-skip id (Quiet-record_trace thread_id id _) λ _.
            From-skip id (Quiet-modify _ (λ s. refl) (λ s. refl)) λ _. From-pure id (inl refl)))

  suspend_for_recovery-From :
      (x : Suspension) (rest : List PendingCall) (p : PendingCall) (v : View)
      → From id v (suspend_for_recovery agent fence thread_id id x) (One p rest v)
  unfolding suspend_for_recovery
  suspend_for_recovery-From x rest p v = From-push id _ _ (
      From-status id TurnStatus.suspended _ (
        From-skip id (Quiet-commit keeps fence) λ _.
          From-skip id (Quiet-record_trace thread_id id _) λ _.
            From-skip id (Quiet-modify _ (λ s. refl) (λ s. refl)) λ _. From-pure id (inl refl)))

  abbrev again : PendingCall → ℕ → TurnItemKind
  again p attempt = function_call_started p.0.call_id p.0.name attempt

  settled :
      (p : PendingCall) (attempt : ℕ) (r : ToolResult) (v : View)
      → Added (p.0 ∷ []) v (pushed (output p.0 r ∷ []) (pushed (again p attempt ∷ []) v))
  unfolding last_requests
  settled p attempt r v = (
    again p attempt ∷ output p.0 r ∷ [],
    append_assoc v.items _ _,
    Answers-append (quiet-Answers (again p attempt ∷ []) refl) (output-Answers p.0 r),
  )

  settle_recovered-From :
      (p : PendingCall) (attempt : ℕ) (rest : List PendingCall) (r : Result FunctionExecution)
      (v : View)
      → From id
          (pushed (again p attempt ∷ []) v)
          (settle_recovered agent fence thread_id id p.0 rest (some r))
          (One p rest v)
  unfolding settle_recovered
  settle_recovered-From p attempt rest (ok (completed result)) v = From-push id _ _ (
      From-skip id (Quiet-commit keeps fence) λ _.
        From-skip id (Quiet-record_trace thread_id id _) λ _.
          From-skip id (Quiet-modify _ (λ s. refl) (λ s. refl))
            λ _. From-pure id (settled p attempt (ToolResult.success result) v))
  settle_recovered-From p attempt rest (ok (suspended_before_execution x)) v =
      suspend_recovered-From x rest p v _
  settle_recovered-From p attempt rest (ok (suspended_after_execution x result)) v =
      suspend_recovered-From x rest p v _
  settle_recovered-From p attempt rest (err e) v = From-push id _ _ (
      From-skip id (Quiet-commit keeps fence) λ _.
        From-skip id (Quiet-modify _ (λ s. refl) (λ s. refl))
          λ _. From-pure id (settled p attempt (ToolResult.error (to_string e)) v))

  settle_aborted-From :
      (p : PendingCall) (attempt : ℕ) (rest : List PendingCall) (v : View)
      → From id
          (aborted_view (pushed (again p attempt ∷ []) v))
          (settle_recovered agent fence thread_id id p.0 rest none)
          (One p rest v)
  unfolding settle_recovered append_aborted_function_outputs skip_aborted last_requests
  settle_aborted-From p attempt rest v =
      From-skip id (Quiet-for_each rest _ (λ q. Quiet-modify _ (λ s. refl) (λ s. refl))) λ _.
        From-push id _ _ (
          From-skip id (Quiet-commit keeps fence) λ _. From-pure id (
            inr (
              again p attempt
                  ∷ turn_aborted aborted_by_caller
                  ∷ outputs (ToolResult.aborted not_recorded) (p.0 ∷ calls_of rest),
              ap
                    (λ ks.
                      ((v.items ++ again p attempt ∷ []) ++ turn_aborted aborted_by_caller ∷ [])
                      ++ ks)
                    (outputs-kinds (ToolResult.aborted not_recorded) (p.0 ∷ calls_of rest))
                  ∙ append_assoc (v.items ++ again p attempt ∷ []) _ _
                  ∙ append_assoc v.items (again p attempt ∷ []) _,
              Answers-append
                  (quiet-Answers (again p attempt ∷ turn_aborted aborted_by_caller ∷ []) refl)
                  (outputs-Answers (ToolResult.aborted not_recorded) (p.0 ∷ calls_of rest)),
            )))

  recover_call-From :
      (p : PendingCall) (rest : List PendingCall) (v : View)
      → From id v (recover_call agent fence thread_id id p rest) (One p rest v)
  unfolding recover_call rerun
  recover_call-From (call, started) rest v = From-skip id (Quiet-lift _) λ policy.
      From-skip id (Quiet-record_trace thread_id id _) λ _.
        elim (Bool-cases (needs_reconciliation started policy)) [
          | inl e ↦ rw e (
              From-skip id (Quiet-fresh_id "suspension")
                λ x. suspend_for_recovery-From _ rest (call, started) v)
          | inr e ↦ rw e (
              From-push id _ _ (
                From-skip id (Quiet-commit keeps fence) λ _.
                  From-skip id (Quiet-modify _ (λ s. refl) (λ s. refl)) λ _.
                    From-skip id (Quiet-record_trace thread_id id _) λ _.
                      From-skip id (Quiet-gets _) λ context.
                        From-await id _
                          (await-From id agent _ _ (Quiet-call_function agent call context))
                          (λ r. From-skip id (Quiet-modify _ (λ s. refl) (λ s. refl)) λ _.
                            settle_recovered-From (call, started) (next_attempt started) rest r v)
                          (From-skip id (Quiet-modify _ (λ s. refl) (λ s. refl)) λ _.
                            settle_aborted-From (call, started) (next_attempt started) rest v)))
        ]

  recover_calls-From :
      (ps : List PendingCall) (v : View)
      → From id v (recover_calls agent fence thread_id id ps) (AllOf ps v)
  unfolding recover_calls last_requests
  recover_calls-From [] v = From-pure id ([], sym (append-nil v.items), quiet-Answers [] refl)
  recover_calls-From (p ∷ rest) v =
      let others = recover_calls-From rest in
      From-bind id (One p rest v) (recover_call-From p rest v) (elim [
        | some o ↦ λ u h. From-pure id h
        | none ↦
            λ u h. From-weaken id (others u) (λ o w. Unless-map o w.status (Added-append v u w h))
      ])

  pending-From :
      (v : View)
      → From {W = W} id v
          (gets (λ s. pending_function_calls s.thread id))
          (λ ps u. (ps ≡ pending_in (last_requests v.items)) × (u ≡ v))
  pending-From v = record {
    at = λ s h. (v, h, (view_in-pending id s.function_call_count s.thread v h, refl));
  }

  pub recover_pending_function_calls-From :
      (v : View)
      → From id v
          (recover_pending_function_calls agent fence thread_id id)
          (λ o u. Unless o u.status (pending_in (last_requests u.items) ≡ []))
  unfolding recover_pending_function_calls
  recover_pending_function_calls-From v = From-bind id _ (pending-From v) λ ps u (e, d).
      rw (e, d)
        (From-weaken id (recover_calls-From _ v) (λ o w. Unless-map o w.status (Added-pending v w)))
