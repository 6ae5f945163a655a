-- ===== src/Kernel/Clock.antt =====
-- The two process-wide sources that canary-agent-kernel/src/events.rs reads: the system clock and
-- `ID_COUNTER`. The clock's readings are an input, `millis k` the k-th one, 0 before the epoch.
use canary_agent.Prelude.{ℕ, ◌+◌, ◌/◌, ◌%◌, ◌^◌, String, [], ◌∷◌, concat, show}

pub record Clock : Type 0 where
  pub millis : ℕ → ℕ
  pub reads : ℕ
  pub counter : ℕ

abbrev pub Timed : Type 0 → Type 0
Timed A = Clock → A × Clock

infixl 5 ◌>>=◌ ◌>>◌
abbrev pub ◌>>=◌ : {A B : Type 0} → Timed A → (A → Timed B) → Timed B
◌>>=◌ m f c = let (a, c') = m c in f a c'

abbrev pub ◌>>◌ : {A B : Type 0} → Timed A → Timed B → Timed B
m >> k = m >>= λ _. k

abbrev pub pure : {A : Type 0} → A → Timed A
pure a c = (a, c)

read_millis : Timed ℕ
read_millis c = (c.millis c.reads, record c { reads = c.reads + 1 })

fetch_counter : Timed ℕ
fetch_counter c = (c.counter, record c { counter = (c.counter + 1) % 2 ^ 64 })

unfoldable pub new_id : String → Timed String
unfolding read_millis fetch_counter
new_id prefix = do
  millis ← read_millis
  counter ← fetch_counter
  pure (concat (prefix ∷ "_" ∷ show millis ∷ "_" ∷ show counter ∷ []))

unfoldable pub now_timestamp : Timed String
unfolding read_millis
now_timestamp = do millis ← read_millis; pure (show (millis / 1000))
