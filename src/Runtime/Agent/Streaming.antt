-- ===== src/Runtime/Agent/Streaming.antt =====
-- What the stream of one model request adds to a turn, by the handler in `run_turn_internal` of
-- canary-agent-runtime/src/agent_loop.rs.
use canary_agent.Prelude.{ℕ, ◌+◌, ◌≤◌, min, ◌≡◌, refl, sym, ◌∙◌, List, [], ◌∷◌, ◌++◌, arith}
use mathlib.Core.List.{append_assoc, append-nil}
use canary_agent.Kernel.Events.{TokenUsage, add_assign, saturating_add, u64_max}
use canary_agent.Kernel.Model.{ModelStreamEvent, output_progress, assistant_delta, token_usage}
use canary_agent.Runtime.Stream.{TurnStreamEvent, TurnModelEvent}
use canary_agent.Runtime.Agent.{State, handle_stream}

-- the usage that the events report, summed up
unfoldable pub reported : (TokenUsage → ℕ) → List ModelStreamEvent → ℕ
reported field [] = 0
reported field (token_usage usage ∷ es) = field usage + reported field es
reported field (output_progress ∷ es) = reported field es
reported field (assistant_delta text ∷ es) = reported field es

-- the events of the caller that the deltas make
unfoldable pub deltas : List ModelStreamEvent → List TurnStreamEvent
deltas [] = []
deltas (assistant_delta text ∷ es) =
    TurnStreamEvent.model (TurnModelEvent.assistant_delta text) ∷ deltas es
deltas (output_progress ∷ es) = deltas es
deltas (token_usage usage ∷ es) = deltas es

saturating_add-min : (a b : ℕ) → saturating_add a b ≡ min (a + b) u64_max
unfolding saturating_add
saturating_add-min a b = ground arith

module _ {W : Type 0} where
  usage_of :
      (field : TokenUsage → ℕ)
      → ((u v : TokenUsage) → field (add_assign u v) ≡ saturating_add (field u) (field v))
      → (es : List ModelStreamEvent) (s : State W) → field s.turn_token_usage ≤ u64_max
      → field (handle_stream es s).turn_token_usage
        ≡ min (field s.turn_token_usage + reported field es) u64_max
  unfolding handle_stream reported
  usage_of field adds [] s h = omega arith
  usage_of field adds (output_progress ∷ es) s h = usage_of field adds es s h
  usage_of field adds (assistant_delta text ∷ es) s h = usage_of field adds es _ h
  usage_of field adds (token_usage usage ∷ es) s h =
      let sum =
        adds s.turn_token_usage usage
        ∙ saturating_add-min (field s.turn_token_usage) (field usage) in
      omega (
        arith,
        sum,
        usage_of field adds es (record s { turn_token_usage = add_assign s.turn_token_usage usage })
            (omega (arith, sum)),
      )

  events_of :
      (es : List ModelStreamEvent) (s : State W)
      → (handle_stream es s).events ≡ s.events ++ deltas es
  unfolding handle_stream deltas
  events_of [] s = sym (append-nil s.events)
  events_of (output_progress ∷ es) s = events_of es s
  events_of (assistant_delta text ∷ es) s = events_of es _ ∙ append_assoc s.events _ (deltas es)
  events_of (token_usage usage ∷ es) s = events_of es _

  -- The stream of a request hands the caller its text deltas in order, and, where the usage of the turn so far
  -- fits 64 bits, adds what it reports to each of the four counts, held at the largest 64-bit number.
  pub handle_stream_lem :
      (es : List ModelStreamEvent) (s : State W)
      → s.turn_token_usage.input_tokens ≤ u64_max
      → s.turn_token_usage.cached_input_tokens ≤ u64_max
      → s.turn_token_usage.output_tokens ≤ u64_max
      → s.turn_token_usage.total_tokens ≤ u64_max
      → ((handle_stream es s).events ≡ s.events ++ deltas es)
        × ((handle_stream es s).turn_token_usage ≡ record {
          input_tokens =
              min (s.turn_token_usage.input_tokens + reported (λ u. u.input_tokens) es) u64_max;
          cached_input_tokens =
              min
                (s.turn_token_usage.cached_input_tokens + reported (λ u. u.cached_input_tokens) es)
                u64_max;
          output_tokens =
              min (s.turn_token_usage.output_tokens + reported (λ u. u.output_tokens) es) u64_max;
          total_tokens =
              min (s.turn_token_usage.total_tokens + reported (λ u. u.total_tokens) es) u64_max;
        })
  unfolding add_assign
  handle_stream_lem es s i c o t = (
    events_of es s,
    ap4 (usage_of (λ u. u.input_tokens) (λ u v. refl) es s i)
        (usage_of (λ u. u.cached_input_tokens) (λ u v. refl) es s c)
        (usage_of (λ u. u.output_tokens) (λ u v. refl) es s o)
        (usage_of (λ u. u.total_tokens) (λ u v. refl) es s t),
  )
    where
      ap4 :
          {a b c d a' b' c' d' : ℕ}
          → a ≡ a'
          → b ≡ b'
          → c ≡ c'
          → d ≡ d'
          → ◌≡◌ {A = TokenUsage}
              (record {
                input_tokens = a;
                cached_input_tokens = b;
                output_tokens = c;
                total_tokens = d;
              })
              (record {
                input_tokens = a';
                cached_input_tokens = b';
                output_tokens = c';
                total_tokens = d';
              })
      ap4 p q r u = rw (p, q, r, u) refl
