-- ===== src/Runtime/Agent/View.antt =====
-- The turn that is run as its status and its items' kinds, with the count of calls, and rules to follow it through the steps
-- of canary-agent-runtime/src/agent_loop.rs.
use canary_agent.Prelude.{
  ℕ, String, ◌≡◌, refl, sym, ap, ◌∙◌, Option, some, List, [], ◌∷◌, ◌++◌, map, ◌==◌, Bool-cases, inl,
  inr,
}
use mathlib.Core.Option
use mathlib.Core.List.{append_assoc, append-nil, map-append}
use canary_agent.Prelude.Result.{ok, err}
use canary_agent.Kernel.Clock.{Clock, Timed}
use canary_agent.Kernel.Events.{
  Turn, TurnItem, TurnItemKind, TurnStatus, Thread, turn_mut, push_item, new_item, set_status,
}
use canary_agent.Runtime.Error.{Result}
use canary_agent.Runtime.Exec.{Exec, continue, pure, ◌>>=◌}
use canary_agent.Runtime.Agent.{
  Agent, State, LeaseFence, NewItem, new_items, push_all, on_turn, push_turn_items, set_turn_status,
}
use canary_agent.Runtime.Agent.Recovery.{find_turn, kinds}

pub record View : Type 0 where
  pub status : TurnStatus
  pub items : List TurnItemKind
  pub count : ℕ

abbrev pub view_of : ℕ → Turn → View
view_of n t = record { status = t.status; items = kinds t; count = n }

abbrev pub view_in : String → ℕ → List Turn → Option View
view_in id n ts = Option.map (view_of n) (find_turn id ts)

abbrev pub look : {W : Type 0} → String → State W → Option View
look id s = view_in id s.function_call_count s.thread.turns

abbrev pub pushed : List TurnItemKind → View → View
pushed ks v = record v { items = v.items ++ ks }

abbrev pub with_status : TurnStatus → View → View
with_status st v = record v { status = st }

turn_mut-look :
    (id : String) (n : ℕ) (f : Turn → Timed Turn) (g : View → View)
    → ((t : Turn) (c : Clock) → (f t c).0.id ≡ t.id)
    → ((t : Turn) (c : Clock) → view_of n (f t c).0 ≡ g (view_of n t))
    → (ts : List Turn) (c : Clock) (v : View) → view_in id n ts ≡ some v
    → (r : List Turn × Clock) × (turn_mut id f ts c ≡ some r) × (view_in id n r.0 ≡ some (g v))
unfolding turn_mut find_turn
turn_mut-look id n f g same acts [] c v h = cc
turn_mut-look id n f g same acts (t ∷ ts) c v h = elim (Bool-cases (t.id == id)) [
  | inl hit ↦
      let e : view_of n t ≡ v = Option.some-injective _ _ (rw hit at h) in
      (((f t c).0 ∷ ts, (f t c).1), rw hit, rw (same t c, hit) (ap some (acts t c ∙ ap g e)))
  | inr miss ↦
      let (r, e, l) = turn_mut-look id n f g same acts ts c v (rw miss at h) in
      ((t ∷ r.0, r.1), rw (miss, e), rw miss l)
]

new_items-kinds :
    (items : List NewItem) (c : Clock)
    → map (λ i. i.kind) (new_items items c).0 ≡ map (λ n. n.1) items
unfolding new_items new_item
new_items-kinds [] c = refl
new_items-kinds ((source, kind) ∷ rest) c = ap (◌∷◌ kind) (new_items-kinds rest _)

push_all-id : (items : List TurnItem) (t : Turn) (c : Clock) → (push_all items t c).0.id ≡ t.id
unfolding push_all push_item
push_all-id [] t c = refl
push_all-id (i ∷ is) t c = push_all-id is (push_item t i c).0 _

push_all-view :
    (n : ℕ) (items : List TurnItem) (t : Turn) (c : Clock)
    → view_of n (push_all items t c).0 ≡ pushed (map (λ i. i.kind) items) (view_of n t)
unfolding push_all push_item
push_all-view n [] t c =
    ap (λ ks. record { status = t.status; items = ks; count = n }) (sym (append-nil (kinds t)))
push_all-view n (i ∷ is) t c =
    push_all-view n is (push_item t i c).0 _
    ∙ ap (λ ks. record { status = t.status; items = ks; count = n })
        (ap (λ ks. ks ++ map (λ j. j.kind) is) (map-append (λ j. j.kind) t.items (i ∷ []))
          ∙ append_assoc (kinds t) (i.kind ∷ []) (map (λ j. j.kind) is))

-- What a store promises of a commit that succeeds: the turns come back as they were given.
pub record KeepsTurns {W : Type 0} (agent : Agent W) : Type 0 where
  pub at :
      (thread : Thread) (fence : LeaseFence) (w : W) (committed : Thread) (w' : W)
      → agent.compare_and_commit thread fence w ≡ (ok committed, w')
      → committed.turns ≡ thread.turns

module _ {W A : Type 0} (id : String) where
  -- a result with the view that it leaves; nothing is said of an error
  abbrev pub Leaves : (A → View → Type 0) → Result A × State W → Type 0
  Leaves Q (ok a, s) = (v : View) × (look id s ≡ some v) × Q a v
  Leaves Q (err e, s) = Unit

  -- From the view, whatever else the state holds, a step that succeeds leaves what `Q` says.
  pub record From (v : View) (m : Exec (State W) A) (Q : A → View → Type 0) : Type 0 where
    pub at : (s : State W) → look id s ≡ some v → Leaves Q (m s)

  pub From-pure : {v : View} {a : A} {Q : A → View → Type 0} → Q a v → From v (pure a) Q
  From-pure {v} q = record { at = λ s h. (v, h, q) }

  pub From-weaken :
      {v : View} {m : Exec (State W) A} {P Q : A → View → Type 0}
      → From v m P
      → ((a : A) (u : View) → P a u → Q a u)
      → From v m Q
  From-weaken {m = m} {P} {Q} f imp = record { at = λ s h. go (m s) (f.at s h) }
    where
      go : (p : Result A × State W) → Leaves P p → Leaves Q p
      go (ok a, s) (u, e, r) = (u, e, imp a u r)
      go (err x, s) _ = tt

-- a step that leaves the turns and the count alone
pub record Quiet {W A : Type 0} (m : Exec (State W) A) : Type 0 where
  pub turns : (s : State W) → (m s).1.thread.turns ≡ s.thread.turns
  pub count : (s : State W) → (m s).1.function_call_count ≡ s.function_call_count

module _ {W A B : Type 0} (id : String) where
  pub From-bind :
      {v : View} {m : Exec (State W) A} {f : A → Exec (State W) B} (R : A → View → Type 0)
      {Q : B → View → Type 0}
      → From id v m R
      → ((a : A) (u : View) → R a u → From id u (f a) Q)
      → From id v (m >>= f) Q
  unfolding ◌>>=◌
  From-bind {v} {m} {f} R {Q} first next = record { at = λ s h. go (m s) (first.at s h) }
    where
      go : (p : Result A × State W) → Leaves id R p → Leaves id Q (continue p.0 f p.1)
      go (ok a, s) (u, e, r) = (next a u r).at s e
      go (err x, s) _ = tt

  pub From-skip :
      {v : View} {m : Exec (State W) A} {f : A → Exec (State W) B} {Q : B → View → Type 0}
      → Quiet m
      → ((a : A) → From id v (f a) Q)
      → From id v (m >>= f) Q
  unfolding ◌>>=◌
  From-skip {v} {m} {f} {Q} q next = record { at = λ s h. go (m s) (rw (q.turns s, q.count s) h) }
    where
      go : (p : Result A × State W) → look id p.1 ≡ some v → Leaves id Q (continue p.0 f p.1)
      go (ok a, s) h = (next a).at s h
      go (err x, s) _ = tt

  pub From-return :
      {v : View} {a : A} (f : A → Exec (State W) B) {Q : B → View → Type 0}
      → From id v (f a) Q
      → From id v (pure a >>= f) Q
  unfolding ◌>>=◌
  From-return f h = record { at = h.at }

module _ {W : Type 0} (id : String) where
  on_turn-From :
      (f : Turn → Timed Turn) (g : View → View)
      → ((t : Turn) (c : Clock) → (f t c).0.id ≡ t.id)
      → ((n : ℕ) (t : Turn) (c : Clock) → view_of n (f t c).0 ≡ g (view_of n t))
      → (s : State W) (v : View) → look id s ≡ some v
      → Leaves id (λ _ u. u ≡ g v) (on_turn id f s)
  unfolding on_turn
  on_turn-From f g same acts s v h =
      let (r, e, l) =
        turn_mut-look id s.function_call_count f g same (acts s.function_call_count) s.thread.turns
          s.clock v h in
      rw (e, on_turn) (g v, l, refl)

  -- Pushed items stand behind the others.
  pub push_turn_items-From :
      (items : List NewItem) (v : View)
      → From {W = W} id v (push_turn_items id items) (λ _ u. u ≡ pushed (map (λ n. n.1) items) v)
  unfolding push_turn_items
  push_turn_items-From items v = record {
    at = λ s h.
        let made = (new_items items s.clock).0 in
        rw (← new_items-kinds items s.clock) (
          on_turn-From (push_all made) (pushed (map (λ i. i.kind) made)) (push_all-id made)
            (λ n. push_all-view n made) _ v h);
  }

  pub set_turn_status-From :
      (status : TurnStatus) (v : View)
      → From {W = W} id v (set_turn_status id status) (λ _ u. u ≡ with_status status v)
  unfolding set_turn_status set_status
  set_turn_status-From status v = record {
    at = λ s h.
        on_turn-From (λ t. set_status t status) (with_status status) (λ t c. refl) (λ n t c. refl) s
          v h;
  }
