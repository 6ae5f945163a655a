-- ===== src/Runtime/Agent/Rules.antt =====
-- The rules of View for each operation that canary-agent-runtime/src/agent_loop.rs is made of.
use canary_agent.Prelude.{
  String, ◌≡◌, refl, sym, ◌∙◌, true, false, Option, none, some, List, [], ◌∷◌, map, arith,
  Bool-cases, ◌⊎◌, inl, inr,
}
use mathlib.Core.List.{reverse}
use mathlib.Core.Path.{subst}
use canary_agent.Prelude.Result.{ok, err}
use canary_agent.Kernel.Events.{
  TurnItemSource, TurnStatus, Thread, is_zero, turn_failed, turn_aborted, TokenUsage,
  ModelFunctionCall,
}
use canary_agent.Kernel.Model.{
  ModelRequest, ModelStreamEvent, output_progress, assistant_delta, token_usage,
}
use canary_agent.Runtime.Error.{Result}
use canary_agent.Runtime.Exec.{Exec, continue, pure, gets, modify, lift, ◌>>=◌}
use canary_agent.Runtime.Stream.{TraceEventKind}
use canary_agent.Runtime.Functions.{FunctionContext}
use canary_agent.Runtime.Agent.{
  Agent, State, LeaseFence, NewItem, FunctionCallHook, FunctionCallHookContext,
  FunctionCallHookResult, push_turn_items, set_turn_status, record_trace, fail_turn, abort_turn,
  commit_thread, committed, call_function, call_model, handle_stream, emit_turn_token_usage,
  fresh_id, aborted_by_caller, await_step_or_abort, or_abort,
}
use canary_agent.Runtime.Agent.Calls.{
  for_each, before_hook, after_hook, run_before_function_call_hooks, run_after_function_call_hooks,
  after_hooks,
}
use canary_agent.Runtime.Agent.View.{
  View, From, Quiet, KeepsTurns, From-bind, From-skip, From-pure, push_turn_items-From,
  set_turn_status-From, pushed, with_status,
}

-- the view behind an abort
abbrev pub aborted_view : View → View
aborted_view v = with_status TurnStatus.aborted (pushed (turn_aborted aborted_by_caller ∷ []) v)

-- a step that gave a result, or an abort in its place
abbrev pub Stepped : (A : Type 0) → View → Option (Result A) → View → Type 0
Stepped A v o u = ((o ≡ none) × (u ≡ aborted_view v)) ⊎ ((r : Result A) × (o ≡ some r) × (u ≡ v))

module _ {W : Type 0} where
  pub Quiet-gets : {A : Type 0} (f : State W → A) → Quiet (gets f)
  Quiet-gets f = record { turns = λ s. refl; count = λ s. refl }

  pub Quiet-lift : {A : Type 0} (r : Result A) → Quiet {W = W} (lift r)
  Quiet-lift r = record { turns = λ s. refl; count = λ s. refl }

  pub Quiet-pure : {A : Type 0} (a : A) → Quiet {W = W} (pure a)
  Quiet-pure a = record { turns = λ s. refl; count = λ s. refl }

  -- emitting an event and recording a metric
  pub Quiet-modify :
      (f : State W → State W)
      → ((s : State W) → (f s).thread.turns ≡ s.thread.turns)
      → ((s : State W) → (f s).function_call_count ≡ s.function_call_count)
      → Quiet (modify f)
  Quiet-modify f t c = record { turns = t; count = c }

  pub Quiet-record_trace :
      (thread_id turn_id : String) (k : TraceEventKind)
      → Quiet {W = W} (record_trace thread_id turn_id k)
  unfolding record_trace
  Quiet-record_trace thread_id turn_id k = record { turns = λ s. refl; count = λ s. refl }

  pub Quiet-fresh_id : (prefix : String) → Quiet {W = W} (fresh_id prefix)
  unfolding fresh_id
  Quiet-fresh_id prefix = record { turns = λ s. refl; count = λ s. refl }

  pub Quiet-bind :
      {A B : Type 0} {m : Exec (State W) A} {f : A → Exec (State W) B}
      → Quiet m
      → ((a : A) → Quiet (f a))
      → Quiet (m >>= f)
  unfolding ◌>>=◌
  Quiet-bind {A} {B} {m} {f} q next = record {
    turns = λ s. t s (m s) (q.turns s);
    count = λ s. c s (m s) (q.count s);
  }
    where
      t :
          (s : State W) (p : Result A × State W)
          → p.1.thread.turns ≡ s.thread.turns
          → (continue p.0 f p.1).1.thread.turns ≡ s.thread.turns
      t s (ok a, s') e = (next a).turns s' ∙ e
      t s (err x, s') e = e

      c :
          (s : State W) (p : Result A × State W)
          → p.1.function_call_count ≡ s.function_call_count
          → (continue p.0 f p.1).1.function_call_count ≡ s.function_call_count
      c s (ok a, s') e = (next a).count s' ∙ e
      c s (err x, s') e = e

  pub Quiet-for_each :
      {A : Type 0} (xs : List A) (f : A → Exec (State W) Unit)
      → ((a : A) → Quiet (f a))
      → Quiet (for_each xs f)
  unfolding for_each
  Quiet-for_each [] f q = Quiet-pure tt
  Quiet-for_each (x ∷ xs) f q = Quiet-bind (q x) (λ _. Quiet-for_each xs f q)

  pub Quiet-call_function :
      (agent : Agent W) (call : ModelFunctionCall) (c : FunctionContext)
      → Quiet (call_function agent call c)
  unfolding call_function
  Quiet-call_function agent call c = record { turns = λ s. refl; count = λ s. refl }

  handle_stream-turns :
      (es : List ModelStreamEvent) (s : State W)
      → (handle_stream es s).thread.turns ≡ s.thread.turns
  unfolding handle_stream
  handle_stream-turns [] s = refl
  handle_stream-turns (output_progress ∷ es) s = handle_stream-turns es s
  handle_stream-turns (assistant_delta t ∷ es) s = handle_stream-turns es _
  handle_stream-turns (token_usage u ∷ es) s = handle_stream-turns es _

  handle_stream-count :
      (es : List ModelStreamEvent) (s : State W)
      → (handle_stream es s).function_call_count ≡ s.function_call_count
  unfolding handle_stream
  handle_stream-count [] s = refl
  handle_stream-count (output_progress ∷ es) s = handle_stream-count es s
  handle_stream-count (assistant_delta t ∷ es) s = handle_stream-count es _
  handle_stream-count (token_usage u ∷ es) s = handle_stream-count es _

  pub Quiet-call_model : (agent : Agent W) (r : ModelRequest) → Quiet (call_model agent r)
  unfolding call_model
  Quiet-call_model agent r = record {
    turns = λ s.
        let (o, es, w) = agent.stream_complete r s.world in
        handle_stream-turns es (record s { world = w });
    count = λ s.
        let (o, es, w) = agent.stream_complete r s.world in
        handle_stream-count es (record s { world = w });
  }

  before_hook-Quiet :
      (h : FunctionCallHook W) (c : FunctionCallHookContext) → Quiet (before_hook h c)
  unfolding before_hook
  before_hook-Quiet h c = record { turns = λ s. refl; count = λ s. refl }

  pub Quiet-before_hooks :
      (hooks : List (FunctionCallHook W)) (c : FunctionCallHookContext)
      → Quiet (run_before_function_call_hooks hooks c)
  unfolding run_before_function_call_hooks
  Quiet-before_hooks [] c = Quiet-pure ([], none)
  Quiet-before_hooks (h ∷ hooks) c =
      let rest = Quiet-before_hooks hooks c in
      Quiet-bind (before_hook-Quiet h c) (elim [
        | some e ↦ Quiet-pure ([], some e)
        | none ↦ Quiet-bind rest (λ r. Quiet-pure (h ∷ r.0, r.1))
      ])

  after_hooks-Quiet :
      (hooks : List (FunctionCallHook W)) (c : FunctionCallHookContext) (r : FunctionCallHookResult)
      → Quiet (after_hooks hooks c r)
  unfolding after_hooks
  after_hooks-Quiet [] c r = record { turns = λ s. refl; count = λ s. refl }
  after_hooks-Quiet (h ∷ hooks) c r = record {
    turns = λ s. (after_hooks-Quiet hooks c r).turns (after_hook h c r s);
    count = λ s. (after_hooks-Quiet hooks c r).count (after_hook h c r s);
  }

  pub Quiet-after_hooks :
      (hooks : List (FunctionCallHook W)) (c : FunctionCallHookContext) (r : FunctionCallHookResult)
      → Quiet (run_after_function_call_hooks hooks c r)
  unfolding run_after_function_call_hooks
  Quiet-after_hooks hooks c r = after_hooks-Quiet (reverse hooks) c r

  pub Quiet-emit_turn_token_usage : (u : TokenUsage) → Quiet {W = W} (emit_turn_token_usage u)
  unfolding emit_turn_token_usage
  Quiet-emit_turn_token_usage u = elim (Bool-cases (is_zero u)) [
    | inl e ↦ rw e (Quiet-pure tt)
    | inr e ↦ rw e (Quiet-modify _ (λ s. refl) (λ s. refl))
  ]

  module _ {agent : Agent W} (keeps : KeepsTurns agent) (fence : LeaseFence) where
    pub Quiet-commit : Quiet (commit_thread agent fence)
    unfolding commit_thread
    Quiet-commit = record {
      turns = λ s.
          go s (agent.compare_and_commit s.thread fence s.world).0
            (agent.compare_and_commit s.thread fence s.world).1 refl;
      count = λ s. ground arith;
    }
      where
        go :
            (s : State W) (r : Result Thread) (w : W)
            → agent.compare_and_commit s.thread fence s.world ≡ (r, w)
            → (committed r w s).1.thread.turns ≡ s.thread.turns
        go s (ok t) w e = keeps.at s.thread fence s.world t w e
        go s (err x) w e = refl

module _ {W : Type 0} (id : String) where
  pub From-push :
      {B : Type 0} (items : List NewItem) {v : View} (f : Unit → Exec (State W) B)
      {Q : B → View → Type 0}
      → From id (pushed (map (λ n. n.1) items) v) (f tt) Q
      → From id v (push_turn_items id items >>= f) Q
  From-push items {v} f {Q} h =
      From-bind id _ (push_turn_items-From id items v)
        λ a u e. subst (λ w. From id w (f a) Q) (sym e) h

  pub From-status :
      {B : Type 0} (status : TurnStatus) {v : View} (f : Unit → Exec (State W) B)
      {Q : B → View → Type 0}
      → From id (with_status status v) (f tt) Q
      → From id v (set_turn_status id status >>= f) Q
  From-status status {v} f {Q} h =
      From-bind id _ (set_turn_status-From id status v)
        λ a u e. subst (λ w. From id w (f a) Q) (sym e) h

  pub fail_turn-From :
      (e : String) (v : View)
      → From {W = W} id v
          (fail_turn id e)
          (λ _ u. u ≡ with_status TurnStatus.failed (pushed (turn_failed e ∷ []) v))
  unfolding fail_turn
  fail_turn-From e v =
      From-push ((TurnItemSource.runtime, turn_failed e) ∷ []) _ (set_turn_status-From id _ _)

  abort_turn-From :
      (r : String) (v : View)
      → From {W = W} id v
          (abort_turn id r)
          (λ _ u. u ≡ with_status TurnStatus.aborted (pushed (turn_aborted r ∷ []) v))
  unfolding abort_turn
  abort_turn-From r v =
      From-push ((TurnItemSource.runtime, turn_aborted r) ∷ []) _ (set_turn_status-From id _ _)

  pub From-fail :
      {B : Type 0} (e : String) {v : View} (f : Unit → Exec (State W) B) {Q : B → View → Type 0}
      → From id (with_status TurnStatus.failed (pushed (turn_failed e ∷ []) v)) (f tt) Q
      → From id v (fail_turn id e >>= f) Q
  From-fail e {v} f {Q} h =
      From-bind id _ (fail_turn-From e v) λ a u p. subst (λ w. From id w (f a) Q) (sym p) h

  -- A step that may be aborted gives a result and leaves the view, or the turn is aborted.
  pub await-From :
      {A : Type 0} (agent : Agent W) (step : Exec (State W) (Option (Result A))) (v : View)
      → Quiet step
      → From id v (await_step_or_abort agent id step) (Stepped A v)
  unfolding await_step_or_abort or_abort
  await-From {A} agent step v quiet =
      From-skip id (Quiet-gets (λ s. agent.is_cancelled s.world)) (elim [
        | true ↦ stopped
        | false ↦
            From-skip id quiet
              (elim [ none ↦ stopped | some r ↦ From-pure id (inr (r, refl, refl)) ])
      ])
    where
      stopped : From {W = W} id v (or_abort id none) (Stepped A v)
      stopped =
          From-bind id _ (abort_turn-From aborted_by_caller v)
            (λ a u e. From-pure id (inl (refl, e)))

  pub From-await :
      {A B : Type 0} {m : Exec (State W) (Option (Result A))} {v t : View}
      (f : Option (Result A) → Exec (State W) B) {Q : B → View → Type 0}
      → From id v m (Stepped A t)
      → ((r : Result A) → From id t (f (some r)) Q)
      → From id (aborted_view t) (f none) Q
      → From id v (m >>= f) Q
  From-await {A} {B} {m} {v} {t} f {Q} first done gone = From-bind id (Stepped A t) first go
    where
      go : (o : Option (Result A)) (u : View) → Stepped A t o u → From id u (f o) Q
      go o u (inl (e, d)) = rw (e, d) gone
      go o u (inr (r, e, d)) = rw (e, d) (done r)
