-- ===== src/Runtime/Agent/Rounds.antt =====
-- What the turn loop of canary-agent-runtime/src/agent_loop.rs leaves in its turn: the items of each round,
-- one response of the model with the calls that it asks for, up to the round that ends the turn.
use canary_agent.Prelude.{
  ℕ, zero, suc, ◌+◌, ◌-◌, min, String, ◌≡◌, refl, sym, ap, ◌∙◌, true, false, Bool-cases, inl, inr,
  Option, none, some, List, [], ◌∷◌, ◌++◌, take, drop, length, ltb, concat, is_empty, if◌then◌else◌,
  ◌&&◌, not, ◌==◌,
}
use mathlib.Core.Option
use mathlib.Core.Option.{get_or}
use mathlib.Core.Path.{subst}
use canary_agent.Prelude.Result.{ok, err}
use canary_agent.Kernel.Events.{
  TurnItemKind, ModelFunctionCall, ModelContinuation, ToolResult, Turn, TurnStatus, turn_failed,
  model_response,
}
use canary_agent.Kernel.Model.{ModelResponse, assistant, assistant_message, function_calls}
use canary_agent.Runtime.Error.{Result, to_string, max_function_calls, max_iterations}
use canary_agent.Runtime.Exec.{gets, modify}
use canary_agent.Runtime.Stream.{TurnOutcome}
use canary_agent.Runtime.Agent.{Agent, LeaseFence, aborted_by_caller}
use canary_agent.Runtime.Agent.Calls.{
  run_calls, refuse_calls, admitted_count, after_calls, skip_metric, trace_skipped, emit_skipped,
}
use canary_agent.Runtime.Context.{ThreadContextCache}
use canary_agent.Runtime.Agent.Run.{
  Assistant, is_blank, model_request, load_cache, build_context, save_cache, complete_turn,
  request_calls, stop, accept_response, settle_response, iterate, out_of_iterations, turn_loop,
  no_response, normalize,
}
use canary_agent.Runtime.Agent.Recovery.{find_turn}
use canary_agent.Runtime.Agent.View.{
  View, view_of, From, From-weaken, Quiet, KeepsTurns, From-bind, From-skip, From-pure, pushed,
  with_status,
}
use canary_agent.Runtime.Agent.Rules.{
  Quiet-pure, Quiet-modify, Quiet-record_trace, Quiet-for_each, Quiet-call_model, Quiet-commit,
  Quiet-bind, From-push, From-status, From-fail, From-await, await-From, aborted_view,
}
use canary_agent.Runtime.Agent.Transcript.{
  Ran, Broke, Looped, ran, broke, outputs, outputs-kinds, pushed-pushed, execute_calls-From,
}

abbrev pub limit_error : ℕ → String
limit_error limit = to_string (max_function_calls limit)

abbrev pub skipped_error : ℕ → String
skipped_error limit = concat ("function call not executed because " ∷ limit_error limit ∷ [])

-- how many calls the turn's limit still admits
abbrev pub admitted : ℕ → List ModelFunctionCall → View → ℕ
admitted limit cs v = min (length cs) (limit - v.count)

abbrev pub counted : ℕ → View → View
counted n v = record v { count = v.count + n }

-- The items of the calls that are over the limit, and of the failure of the turn.
abbrev pub over_limit : ℕ → List ModelFunctionCall → List TurnItemKind
over_limit limit cs =
    outputs (ToolResult.error (skipped_error limit)) cs ++ turn_failed (limit_error limit) ∷ []

-- what the calls of one response give and leave, where a turn may make `limit` of them
pub data Handled (limit : ℕ) (cs : List ModelFunctionCall) (v : View)
    : Option TurnOutcome → View → Type 0 where
  within :
      {ks : List TurnItemKind}
      → ltb (admitted limit cs v) (length cs) ≡ false
      → Ran (take (admitted limit cs v) cs) ks
      → Handled limit cs v none (pushed ks (counted (admitted limit cs v) v))
  over :
      {ks : List TurnItemKind}
      → ltb (admitted limit cs v) (length cs) ≡ true
      → Ran (take (admitted limit cs v) cs) ks
      → Handled limit cs v (some (TurnOutcome.failed (limit_error limit))) (
          with_status TurnStatus.failed (
            pushed
              (ks ++ over_limit limit (drop (admitted limit cs v) cs))
              (counted (admitted limit cs v) v)))
  ended :
      {o : TurnOutcome} {st : TurnStatus} {ks : List TurnItemKind}
      → Broke (admitted limit cs v) cs o st ks
      → Handled limit cs v (some o) (with_status st (pushed ks (counted (admitted limit cs v) v)))

-- What one round gives and leaves: a turn that was aborted, one that failed before an item of the model's was
-- added, one that ended with the response, and one whose response asks for calls.
pub data Round (limit : ℕ) (v : View) : Option TurnOutcome → View → Type 0 where
  aborted : Round limit v (some (TurnOutcome.aborted aborted_by_caller)) (aborted_view v)
  failed :
      (e : String)
      → Round limit v
          (some (TurnOutcome.failed e))
          (with_status TurnStatus.failed (pushed (turn_failed e ∷ []) v))
  answered :
      (c : Option ModelContinuation) (text : String)
      → Round limit v
          (some (TurnOutcome.assistant_message text))
          (with_status TurnStatus.completed (pushed (model_response c (some text) [] ∷ []) v))
  silent :
      (c : Option ModelContinuation) (text : Option String)
      → Round limit v
          (some TurnOutcome.completed_without_message)
          (with_status TurnStatus.completed (pushed (model_response c text [] ∷ []) v))
  requested :
      {o : Option TurnOutcome} {u : View} (c : Option ModelContinuation) (text : Option String)
      (call : ModelFunctionCall) (calls : List ModelFunctionCall)
      → Handled limit (call ∷ calls) (pushed (model_response c text (call ∷ calls) ∷ []) v) o u
      → Round limit v o u

-- The rounds of a turn, `left` of them at most.
pub data Rounds (calls iterations : ℕ) : ℕ → View → TurnOutcome → View → Type 0 where
  exhausted :
      {v : View}
      → Rounds calls iterations zero v
          (TurnOutcome.failed (to_string (max_iterations iterations)))
          (with_status TurnStatus.failed
            (pushed (turn_failed (to_string (max_iterations iterations)) ∷ []) v))
  last :
      {left : ℕ} {v u : View} {o : TurnOutcome}
      → Round calls v (some o) u
      → Rounds calls iterations (suc left) v o u
  again :
      {left : ℕ} {v u w : View} {o : TurnOutcome}
      → Round calls v none u
      → Rounds calls iterations left u o w
      → Rounds calls iterations (suc left) v o w

viewed-count :
    (n : ℕ) (o : Option Turn) (v : View) → Option.map (view_of n) o ≡ some v → n ≡ v.count
viewed-count n none v h = cc
viewed-count n (some t) v h = ap (λ u. u.count) (Option.some-injective _ _ h)

viewed-counted :
    (n m : ℕ) (o : Option Turn) (v : View)
    → Option.map (view_of n) o ≡ some v
    → Option.map (view_of (n + m)) o ≡ some (counted m v)
viewed-counted n m none v h = cc
viewed-counted n m (some t) v h = ap (λ u. some (counted m u)) (Option.some-injective _ _ h)

module _ {W : Type 0} (agent : Agent W) (fence : LeaseFence) (thread_id id : String)
    (keeps : KeepsTurns agent) where
  abbrev call_limit : ℕ
  call_limit = agent.config.turn_execution_limits.max_function_calls

  admitted-From :
      (cs : List ModelFunctionCall) (v : View)
      → From {W = W} id v
          (gets (admitted_count agent fence thread_id id cs))
          (λ n u. (n ≡ admitted call_limit cs v) × (u ≡ v))
  admitted-From cs v = record {
    at = λ s h.
        let e = viewed-count s.function_call_count (find_turn id s.thread.turns) v h in
        (v, h, (ap (λ n. min (length cs) (call_limit - n)) e, refl));
  }

  counted-From :
      (n : ℕ) (v : View)
      → From {W = W} id v
          (modify (λ s. record s { function_call_count = s.function_call_count + n }))
          (λ _ u. u ≡ counted n v)
  counted-From n v = record {
    at = λ s h. (
      counted n v,
      viewed-counted s.function_call_count n (find_turn id s.thread.turns) v h,
      refl,
    );
  }

  -- Calls over the limit get an error for their output, and the turn fails.
  refuse_calls-From :
      (cs : List ModelFunctionCall) (v : View)
      → From id v (refuse_calls agent fence thread_id id cs) (λ o u.
        (o ≡ some (TurnOutcome.failed (limit_error call_limit)))
        × (u ≡ with_status TurnStatus.failed (pushed (over_limit call_limit cs) v)))
  unfolding refuse_calls skip_metric trace_skipped emit_skipped
  refuse_calls-From cs v =
      From-skip id (Quiet-for_each cs _ (λ c. Quiet-modify _ (λ s. refl) (λ s. refl))) λ _.
        From-push id _ _ (
          From-fail id _ _ (
            From-skip id (Quiet-commit keeps fence) λ _.
              From-skip id
                (Quiet-for_each cs _ (λ c.
                  Quiet-bind (Quiet-record_trace thread_id id _)
                    (λ _. Quiet-modify _ (λ s. refl) (λ s. refl))))
                λ _. From-pure id (
                  refl,
                  ap
                        (λ ks.
                          with_status TurnStatus.failed
                            (pushed (turn_failed (limit_error call_limit) ∷ []) (pushed ks v)))
                        (outputs-kinds (ToolResult.error (skipped_error call_limit)) cs)
                      ∙ ap (with_status TurnStatus.failed) (pushed-pushed v _ _),
                )))

  -- The calls of one response.
  pub run_calls-From :
      (cs : List ModelFunctionCall) (v : View)
      → From id v (run_calls agent fence thread_id id cs) (Handled call_limit cs v)
  unfolding run_calls
  run_calls-From cs v = From-bind id _ (admitted-From cs v) λ n u (p, q).
      rw (p, q)
        (From-bind id _ (counted-From (admitted call_limit cs v) v) λ _ w e. rw e (
          From-bind id _
            (execute_calls-From agent fence thread_id id keeps (admitted call_limit cs v) cs _) go))
    where
      go :
          (o : Option TurnOutcome) (u : View)
          → Looped (admitted call_limit cs v) cs (counted (admitted call_limit cs v) v) o u
          → From id u
              (after_calls agent fence thread_id id (admitted call_limit cs v) cs o)
              (Handled call_limit cs v)
      go o u (broke b) = From-pure id (ended b)
      go o u (ran {ks} r) = elim (Bool-cases (ltb (admitted call_limit cs v) (length cs))) [
        | inr e ↦ rw e (From-pure id (within e r))
        | inl e ↦ rw e (
            From-weaken id (refuse_calls-From _ _) (λ p w (a, b).
              rw (a, b)
                (subst
                  (λ x.
                    Handled call_limit cs v (some (TurnOutcome.failed (limit_error call_limit)))
                      (with_status TurnStatus.failed x))
                  (sym (
                    pushed-pushed (counted (admitted call_limit cs v) v) ks
                      (over_limit call_limit (drop (admitted call_limit cs v) cs))))
                  (over e r))))
      ]

  model_request-Quiet : Quiet (model_request agent fence thread_id)
  unfolding model_request load_cache build_context save_cache
  model_request-Quiet =
      Quiet-bind (record { turns = λ s. refl; count = λ s. refl })
        λ cached.
          Quiet-bind (record { turns = λ s. refl; count = λ s. refl })
            λ context. Quiet-bind (saved context.cache) λ _. Quiet-pure _
    where
      saved : (c : Option ThreadContextCache) → Quiet (save_cache agent fence thread_id c)
      saved none = record { turns = λ s. refl; count = λ s. refl }
      saved (some c) = record { turns = λ s. refl; count = λ s. refl }

  complete_turn-From :
      (r : Assistant) (v : View)
      → From id v (complete_turn agent fence thread_id id r) (λ o u.
        (o
          ≡ some (
              if is_blank r
              then TurnOutcome.completed_without_message
              else TurnOutcome.assistant_message (get_or r.text "")))
        × (u ≡ with_status TurnStatus.completed v))
  unfolding complete_turn
  complete_turn-From r v = From-status id TurnStatus.completed _ (
      From-skip id (Quiet-commit keeps fence)
        λ _. From-skip id (Quiet-record_trace thread_id id _) λ _. From-pure id (refl, refl))

  request_calls-From :
      (r : Assistant) (v : View)
      → From id v (request_calls agent fence thread_id id r) (Handled call_limit r.function_calls v)
  unfolding request_calls
  request_calls-From r v = From-skip id (Quiet-modify _ (λ s. refl) (λ s. refl)) λ _.
      From-skip id (Quiet-commit keeps fence)
        λ _. From-skip id (Quiet-record_trace thread_id id _) λ _. run_calls-From r.function_calls v

  stop-From :
      (e : String) (v : View)
      → From {W = W} id v (stop agent fence thread_id id e) (Round call_limit v)
  stop-From e v = From-fail id e _ (From-pure id (failed e))

  abbrev response : Option ModelContinuation → Option String → List ModelFunctionCall → Assistant
  response c text calls = record { continuation = c; text = text; function_calls = calls }

  -- the end of a turn by a response without calls
  answer-From :
      (c : Option ModelContinuation) (text : Option String) (v : View)
      → From id
          (pushed (model_response c text [] ∷ []) v)
          (complete_turn agent fence thread_id id (response c text []))
          (Round call_limit v)
  unfolding is_blank
  answer-From c none v =
      From-weaken id (complete_turn-From _ _) (λ o u (p, q). rw (p, q) (silent c none))
  answer-From c (some t) v = elim (Bool-cases (t == "")) [
    | inl e ↦
        From-weaken id (complete_turn-From _ _) (λ o u (p, q). rw (p, q, e) (silent c (some t)))
    | inr e ↦ From-weaken id (complete_turn-From _ _) (λ o u (p, q). rw (p, q, e) (answered c t))
  ]

  accept_response-From :
      (c : Option ModelContinuation) (text : Option String) (calls : List ModelFunctionCall)
      (v : View)
      → From id v
          (accept_response agent fence thread_id id (response c text calls))
          (Round call_limit v)
  unfolding accept_response
  accept_response-From c text calls v =
      elim (Bool-cases
        (is_blank (response c text calls) && not agent.config.allow_empty_response)) [
          | inl e ↦ rw e (stop-From no_response v)
          | inr e ↦ rw e (
              From-skip id (Quiet-modify _ (λ s. refl) (λ s. refl))
                λ _. From-push id _ _ (go calls))
        ]
    where
      go :
          (calls : List ModelFunctionCall)
          → From {W = W} id
              (pushed (model_response c text calls ∷ []) v)
              (if is_empty calls
                then complete_turn agent fence thread_id id (response c text calls)
                else request_calls agent fence thread_id id (response c text calls))
              (Round call_limit v)
      go [] = answer-From c text v
      go (call ∷ calls) =
          From-weaken id (request_calls-From (response c text (call ∷ calls)) _)
            (λ o u h. requested c text call calls h)

  settle_response-From :
      (r : Result ModelResponse) (v : View)
      → From id v (settle_response agent fence thread_id id (some r)) (Round call_limit v)
  unfolding settle_response normalize
  settle_response-From (err e) v = stop-From (to_string e) v
  settle_response-From (ok (assistant_message text)) v = accept_response-From none (some text) [] v
  settle_response-From (ok (function_calls calls)) v = accept_response-From none none calls v
  settle_response-From (ok (assistant c text calls)) v = accept_response-From c text calls v

  -- One round.
  pub iterate-From :
      (n : ℕ) (v : View) → From id v (iterate agent fence thread_id id n) (Round call_limit v)
  unfolding iterate settle_response
  iterate-From n v = From-skip id model_request-Quiet λ request.
      From-skip id (Quiet-modify _ (λ s. refl) (λ s. refl)) λ _.
        From-await id _ (await-From id agent _ v (Quiet-call_model agent request))
          (λ r. From-skip id (Quiet-modify _ (λ s. refl) (λ s. refl)) λ _. settle_response-From r v)
          (From-skip id (Quiet-modify _ (λ s. refl) (λ s. refl)) λ _. From-pure id aborted)

  -- All the rounds of a turn.
  pub turn_loop-From :
      (left n : ℕ) (v : View)
      → From id v
          (turn_loop agent fence thread_id id left n)
          (Rounds call_limit agent.config.turn_execution_limits.max_model_iterations left v)
  unfolding turn_loop out_of_iterations
  turn_loop-From zero n v = From-fail id _ _ (From-pure id exhausted)
  turn_loop-From (suc left) n v =
      let rest = turn_loop-From left (n + 1) in
      From-bind id (Round call_limit v) (iterate-From n v) (elim [
        | some o ↦ λ u r. From-pure id (last r)
        | none ↦ λ u r. From-weaken id (rest u) (λ o w rs. again r rs)
      ])
