-- ===== src/Runtime/Agent/Transcript.antt =====
-- What the loop over the function calls of canary-agent-runtime/src/agent_loop.rs leaves in its turn: the
-- items of each call, in the order of the calls.
use canary_agent.Prelude.{
  ℕ, zero, suc, String, Option-cases, inl, inr, ◌≡◌, refl, sym, ap, ◌∙◌, Option, none, some, List,
  [], ◌∷◌, ◌++◌, map, take,
}
use mathlib.Core.List.{append_assoc, append-nil}
use mathlib.Core.Path.{subst}
use canary_agent.Prelude.Result.{ok, err}
use canary_agent.Kernel.Value.{Value}
use canary_agent.Kernel.Events.{
  TurnItemKind, ModelFunctionCall, Suspension, ToolResult, TurnStatus, function_call_started,
  suspension_created, turn_aborted, tool_output,
}
use canary_agent.Runtime.Error.{AgentError, Result, to_string}
use canary_agent.Runtime.Exec.{pure, ◌>>=◌, ◌>>◌}
use canary_agent.Runtime.Stream.{TurnOutcome, function_call_finished, FunctionCallSkipReason}
use canary_agent.Runtime.Functions.{
  FunctionExecution, completed, suspended_before_execution, suspended_after_execution,
}
use canary_agent.Runtime.Agent.{
  Agent, LeaseFence, FunctionCallHook, FunctionCallHookContext, FunctionCallHookResult, output_item,
  record_metric, aborted_by_caller, not_recorded, append_aborted_function_outputs,
}
use canary_agent.Runtime.Agent.Calls.{
  start_call, settle_call, execute_call, execute_calls, previous_suspended, finish_hooks,
  skip_metric, trace_skipped, emit_skipped, for_each, call_outcome,
}
use canary_agent.Runtime.Agent.View.{
  View, From, From-weaken, From-return, Quiet, KeepsTurns, From-bind, From-skip, From-pure, pushed,
  with_status,
}
use canary_agent.Runtime.Agent.Rules.{
  Quiet-gets, Quiet-modify, Quiet-record_trace, Quiet-for_each, Quiet-call_function,
  Quiet-before_hooks, Quiet-after_hooks, Quiet-commit, Quiet-bind, From-push, From-status,
  From-await, await-From, aborted_view, Stepped,
}

abbrev pub started : ModelFunctionCall → TurnItemKind
started c = function_call_started c.call_id c.name 1

abbrev pub output : ModelFunctionCall → ToolResult → TurnItemKind
output c r = tool_output c.call_id c.name r

abbrev pub outputs : ToolResult → List ModelFunctionCall → List TurnItemKind
outputs r = map (λ c. output c r)

-- The items of a call that comes to its end: a hook refused it, or it ran.
pub data Settled : ModelFunctionCall → List TurnItemKind → Type 0 where
  refused :
      {c : ModelFunctionCall} (error : String) → Settled c (output c (ToolResult.error error) ∷ [])
  called :
      {c : ModelFunctionCall} (result : ToolResult) → Settled c (started c ∷ output c result ∷ [])

-- A call that ends the turn, with the calls behind it: how the turn ends, its status and its items.
pub data Stopped
    : ModelFunctionCall
      → List ModelFunctionCall
      → TurnOutcome
      → TurnStatus
      → List TurnItemKind
      → Type 0 where
  aborted :
      {c : ModelFunctionCall} {rest : List ModelFunctionCall}
      → Stopped c rest (TurnOutcome.aborted aborted_by_caller) TurnStatus.aborted (
          started c
          ∷ turn_aborted aborted_by_caller
          ∷ outputs (ToolResult.aborted not_recorded) (c ∷ rest))
  before :
      {c : ModelFunctionCall} {rest : List ModelFunctionCall} (s : Suspension)
      → Stopped c rest
          (TurnOutcome.suspended s)
          TurnStatus.suspended
          (started c ∷ suspension_created s ∷ outputs (ToolResult.error previous_suspended) rest)
  after :
      {c : ModelFunctionCall} {rest : List ModelFunctionCall} (s : Suspension) (result : Value)
      → Stopped c rest (TurnOutcome.suspended s) TurnStatus.suspended (
          started c
          ∷ output c (ToolResult.success result)
          ∷ suspension_created s
          ∷ outputs (ToolResult.error previous_suspended) rest)

-- Each of the calls came to its end.
pub data Ran : List ModelFunctionCall → List TurnItemKind → Type 0 where
  finished : Ran [] []
  next :
      {c : ModelFunctionCall} {cs : List ModelFunctionCall} {ks js : List TurnItemKind}
      → Settled c ks
      → Ran cs js
      → Ran (c ∷ cs) (ks ++ js)

-- One of the first `n` calls ended the turn.
pub data Broke
    : ℕ → List ModelFunctionCall → TurnOutcome → TurnStatus → List TurnItemKind → Type 0 where
  here :
      {n : ℕ} {c : ModelFunctionCall} {cs : List ModelFunctionCall} {o : TurnOutcome}
      {st : TurnStatus} {ks : List TurnItemKind}
      → Stopped c cs o st ks
      → Broke (suc n) (c ∷ cs) o st ks
  later :
      {n : ℕ} {c : ModelFunctionCall} {cs : List ModelFunctionCall} {o : TurnOutcome}
      {st : TurnStatus} {ks js : List TurnItemKind}
      → Settled c ks
      → Broke n cs o st js
      → Broke (suc n) (c ∷ cs) o st (ks ++ js)

-- what one call gives and leaves
pub data Executed (c : ModelFunctionCall) (rest : List ModelFunctionCall) (v : View)
    : Option TurnOutcome → View → Type 0 where
  settled : {ks : List TurnItemKind} → Settled c ks → Executed c rest v none (pushed ks v)
  stopped :
      {o : TurnOutcome} {st : TurnStatus} {ks : List TurnItemKind}
      → Stopped c rest o st ks
      → Executed c rest v (some o) (with_status st (pushed ks v))

-- what the first `n` calls give and leave
pub data Looped (n : ℕ) (cs : List ModelFunctionCall) (v : View)
    : Option TurnOutcome → View → Type 0 where
  ran : {ks : List TurnItemKind} → Ran (take n cs) ks → Looped n cs v none (pushed ks v)
  broke :
      {o : TurnOutcome} {st : TurnStatus} {ks : List TurnItemKind}
      → Broke n cs o st ks
      → Looped n cs v (some o) (with_status st (pushed ks v))

pub pushed-pushed :
    (v : View) (ks js : List TurnItemKind) → pushed js (pushed ks v) ≡ pushed (ks ++ js) v
pushed-pushed v ks js =
    ap (λ is. record { status = v.status; items = is; count = v.count })
      (append_assoc v.items ks js)

pub pushed-nil : (v : View) → pushed [] v ≡ v
pushed-nil v =
    ap (λ is. record { status = v.status; items = is; count = v.count }) (append-nil v.items)

pub outputs-kinds :
    (r : ToolResult) (cs : List ModelFunctionCall)
    → map (λ n. n.1) (map (λ c. output_item c r) cs) ≡ outputs r cs
outputs-kinds r [] = refl
outputs-kinds r (c ∷ cs) = ap (◌∷◌ (output c r)) (outputs-kinds r cs)

module _ {W : Type 0} (agent : Agent W) (fence : LeaseFence) (thread_id id : String)
    (keeps : KeepsTurns agent) where
  skip_metrics-Quiet :
      (reason : FunctionCallSkipReason) (cs : List ModelFunctionCall)
      → Quiet {W = W} (for_each cs (skip_metric agent fence thread_id id reason))
  unfolding skip_metric
  skip_metrics-Quiet reason cs = Quiet-for_each cs _ (λ c. Quiet-modify _ (λ s. refl) (λ s. refl))

  trace_skips-Quiet :
      (error : String) (cs : List ModelFunctionCall)
      → Quiet {W = W} (for_each cs (trace_skipped agent fence thread_id id error))
  unfolding trace_skipped
  trace_skips-Quiet error cs = Quiet-for_each cs _ (λ c. Quiet-record_trace thread_id id _)

  emit_skips-Quiet :
      (error : String) (cs : List ModelFunctionCall)
      → Quiet {W = W} (for_each cs (emit_skipped agent fence thread_id id error))
  unfolding emit_skipped
  emit_skips-Quiet error cs = Quiet-for_each cs _ (λ c. Quiet-modify _ (λ s. refl) (λ s. refl))

  finish_hooks-Quiet :
      (entered : List (FunctionCallHook W)) (context : FunctionCallHookContext)
      (r : FunctionCallHookResult)
      → Quiet (finish_hooks agent fence thread_id id entered context r)
  unfolding finish_hooks
  finish_hooks-Quiet entered context r =
      Quiet-bind (Quiet-gets _) (λ c. Quiet-after_hooks entered c r)

  -- A call that failed gets its error for an output, and the loop goes on.
  settle_err-From :
      (c : ModelFunctionCall) (rest : List ModelFunctionCall) (entered : List (FunctionCallHook W))
      (context : FunctionCallHookContext) (e : AgentError) (v : View)
      → From id v
          (settle_call agent fence thread_id id c rest entered context (some (err e)))
          (λ o u. (o ≡ none) × (u ≡ pushed (output c (ToolResult.error (to_string e)) ∷ []) v))
  unfolding settle_call
  settle_err-From c rest entered context e v =
      From-push id (output_item c (ToolResult.error (to_string e)) ∷ []) _ (
        From-skip id (Quiet-commit keeps fence) λ _.
          From-skip id (Quiet-record_trace thread_id id _) λ _.
            From-skip id (finish_hooks-Quiet entered context _) λ _.
              From-skip id (Quiet-modify _ (λ s. refl) (λ s. refl)) λ _. From-pure id (refl, refl))

  Executed-Settled :
      {c : ModelFunctionCall} {rest : List ModelFunctionCall} {v : View} (ks js : List TurnItemKind)
      → Settled c (ks ++ js)
      → Executed c rest v none (pushed js (pushed ks v))
  Executed-Settled {c} {rest} {v} ks js s =
      subst (Executed c rest v none) (sym (pushed-pushed v ks js)) (settled s)

  Executed-Stopped :
      {c : ModelFunctionCall} {rest : List ModelFunctionCall} {v : View} {o : TurnOutcome}
      {st : TurnStatus} (ks js : List TurnItemKind)
      → Stopped c rest o st (ks ++ js)
      → Executed c rest v (some o) (with_status st (pushed js (pushed ks v)))
  Executed-Stopped {c} {rest} {v} {o} {st} ks js s =
      subst (λ u. Executed c rest v (some o) (with_status st u)) (sym (pushed-pushed v ks js))
        (stopped s)

  -- A call that was started: from the view behind its first item.
  settle_call-From :
      (c : ModelFunctionCall) (rest : List ModelFunctionCall) (entered : List (FunctionCallHook W))
      (context : FunctionCallHookContext) (r : Result FunctionExecution) (v : View)
      → From id
          (pushed (started c ∷ []) v)
          (settle_call agent fence thread_id id c rest entered context (some r))
          (Executed c rest v)
  unfolding settle_call
  settle_call-From c rest entered context (ok (completed result)) v =
      From-push id (output_item c (ToolResult.success result) ∷ []) _ (
        From-skip id (Quiet-commit keeps fence) λ _.
          From-skip id (Quiet-record_trace thread_id id _) λ _.
            From-skip id (finish_hooks-Quiet entered context _) λ _.
              From-skip id (Quiet-modify _ (λ s. refl) (λ s. refl))
                λ _. From-pure id (Executed-Settled (started c ∷ []) _ (called _)))
  settle_call-From c rest entered context (ok (suspended_before_execution suspension)) v =
      From-skip id (skip_metrics-Quiet _ rest) λ _. From-push id _ _ (
        From-status id TurnStatus.suspended _ (
          From-skip id (Quiet-commit keeps fence) λ _.
            From-skip id (Quiet-record_trace thread_id id _) λ _.
              From-skip id (trace_skips-Quiet _ rest) λ _.
                From-skip id (Quiet-modify _ (λ s. refl) (λ s. refl)) λ _.
                  From-skip id (emit_skips-Quiet _ rest) λ _. From-pure id (
                    rw (outputs-kinds (ToolResult.error previous_suspended) rest)
                      (Executed-Stopped (started c ∷ []) _ (before suspension)))))
  settle_call-From c rest entered context (ok (suspended_after_execution suspension result)) v =
      From-skip id (skip_metrics-Quiet _ rest) λ _. From-push id _ _ (
        From-status id TurnStatus.suspended _ (
          From-skip id (Quiet-commit keeps fence) λ _.
            From-skip id (Quiet-record_trace thread_id id _) λ _.
              From-skip id (Quiet-record_trace thread_id id _) λ _.
                From-skip id (trace_skips-Quiet _ rest) λ _.
                  From-skip id (finish_hooks-Quiet entered context _) λ _.
                    From-skip id (Quiet-modify _ (λ s. refl) (λ s. refl)) λ _.
                      From-skip id (Quiet-modify _ (λ s. refl) (λ s. refl)) λ _.
                        From-skip id (emit_skips-Quiet _ rest) λ _. From-pure id (
                          rw (outputs-kinds (ToolResult.error previous_suspended) rest)
                            (Executed-Stopped (started c ∷ []) _ (after suspension result)))))
  settle_call-From c rest entered context (err e) v =
      From-weaken id (settle_err-From c rest entered context e _)
        (λ o u (p, q). rw (p, q) (Executed-Settled (started c ∷ []) _ (called _)))

  -- Behind an abort every call that is left gets an output that says so.
  settle_aborted-From :
      (c : ModelFunctionCall) (rest : List ModelFunctionCall) (entered : List (FunctionCallHook W))
      (context : FunctionCallHookContext) (v : View)
      → From id
          (aborted_view (pushed (started c ∷ []) v))
          (settle_call agent fence thread_id id c rest entered context none)
          (Executed c rest v)
  unfolding settle_call append_aborted_function_outputs
  settle_aborted-From c rest entered context v = From-skip id (skip_metrics-Quiet _ rest) λ _.
      From-push id _ _ (
        From-pure id (
          rw (outputs-kinds (ToolResult.aborted not_recorded) (c ∷ rest)) (
            subst
              (λ u.
                Executed c rest v (some (TurnOutcome.aborted aborted_by_caller))
                  (with_status TurnStatus.aborted u))
              (sym (
                ap (pushed (outputs (ToolResult.aborted not_recorded) (c ∷ rest)))
                  (pushed-pushed v (started c ∷ []) _)
                ∙ pushed-pushed v _ _))
              (stopped aborted))))

  -- The call itself, with its first item before it.
  start_call-From :
      (c : ModelFunctionCall) (v : View)
      → From id v
          (start_call agent fence thread_id id c none)
          (Stepped FunctionExecution (pushed (started c ∷ []) v))
  unfolding start_call
  start_call-From c v = From-push id _ _ (
      From-skip id (Quiet-commit keeps fence) λ _.
        From-skip id (Quiet-gets _)
          λ context. await-From id agent _ _ (Quiet-call_function agent c context))

  -- One call of the loop, whatever its hooks, the function and the abort signal do.
  pub execute_call-From :
      (c : ModelFunctionCall) (rest : List ModelFunctionCall) (v : View)
      → From id v (execute_call agent fence thread_id id c rest) (Executed c rest v)
  unfolding execute_call start_call
  execute_call-From c rest v = From-skip id (Quiet-modify _ (λ s. refl) (λ s. refl)) λ _.
      From-skip id (Quiet-record_trace thread_id id _) λ _. From-skip id (Quiet-gets _) λ context.
        From-skip id (Quiet-before_hooks agent.function_call_hooks context) λ hooks.
          elim (Option-cases hooks.1) [
            | inl e ↦ rw e (begun context hooks.0)
            | inr (x, e) ↦ rw e (
                From-return id _ (
                  From-skip id (Quiet-modify _ (λ s. refl) (λ s. refl)) λ _.
                    From-weaken id (settle_err-From c rest hooks.0 context x v)
                      (λ o u (p, q). rw (p, q) (settled (refused _)))))
          ]
    where
      begun :
          (context : FunctionCallHookContext) (entered : List (FunctionCallHook W))
          → From id v
              (start_call agent fence thread_id id c none >>= λ x.
                record_metric (function_call_finished c.name (call_outcome x))
                >> settle_call agent fence thread_id id c rest entered context x)
              (Executed c rest v)
      begun context entered =
          From-await id _ (start_call-From c v)
            (λ r.
              From-skip id (Quiet-modify _ (λ s. refl) (λ s. refl))
                λ _. settle_call-From c rest entered context r v)
            (From-skip id (Quiet-modify _ (λ s. refl) (λ s. refl))
              λ _. settle_aborted-From c rest entered context v)

  -- The loop over the first `n` calls.
  pub execute_calls-From :
      (n : ℕ) (cs : List ModelFunctionCall) (v : View)
      → From id v (execute_calls agent fence thread_id id n cs) (Looped n cs v)
  unfolding execute_calls
  execute_calls-From zero cs v =
      From-pure id (subst (Looped zero cs v none) (pushed-nil v) (ran finished))
  execute_calls-From (suc n) [] v =
      From-pure id (subst (Looped (suc n) [] v none) (pushed-nil v) (ran finished))
  execute_calls-From (suc n) (c ∷ cs) v =
      From-bind id (Executed c cs v) (execute_call-From c cs v) (go (execute_calls-From n cs))
    where
      behind :
          {ks : List TurnItemKind} (o : Option TurnOutcome) (u : View)
          → Settled c ks
          → Looped n cs (pushed ks v) o u
          → Looped (suc n) (c ∷ cs) v o u
      behind o u s (ran r) =
          subst (Looped (suc n) (c ∷ cs) v none) (sym (pushed-pushed v _ _)) (ran (next s r))
      behind o u s (broke {st = st} b) =
          subst (λ w. Looped (suc n) (c ∷ cs) v o (with_status st w)) (sym (pushed-pushed v _ _))
            (broke (later s b))

      go :
          ((w : View) → From id w (execute_calls agent fence thread_id id n cs) (Looped n cs w))
          → (o : Option TurnOutcome) (u : View) → Executed c cs v o u
          → From id u
              (elim o [
                | some x ↦ pure (some x)
                | none ↦ execute_calls agent fence thread_id id n cs
              ])
              (Looped (suc n) (c ∷ cs) v)
      go loop o u (settled s) = From-weaken id (loop _) (λ p w l. behind p w s l)
      go loop o u (stopped s) = From-pure id (broke (here s))
