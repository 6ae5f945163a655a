-- ===== src/Runtime/Functions/Limits.antt =====
-- What FunctionRegistry of canary-agent-runtime/src/functions.rs promises of a call.
use canary_agent.Prelude.{
  ℕ, ◌<◌, ◌≤◌, String, ◌≡◌, refl, sym, ap, ◌∙◌, ◌⊎◌, inl, inr, Option, none, some, arith,
  Option-cases, Bool-cases, leb, ltb, leb→le,
}
use canary_agent.Prelude.Result.{ok, err, >>=-eq-ok, ok_inj}
use canary_agent.Prelude.TreeMap
use canary_agent.Prelude.TreeMap.{TreeMap, lookup-insert, lookup-remove}
use canary_agent.Kernel.Value.{Value}
use canary_agent.Runtime.Error.{Result}
use canary_agent.Runtime.Functions.{
  FunctionContext, FunctionExecution, FunctionRegistry, AgentFunction, FunctionLimits, completed,
  suspended_before_execution, suspended_after_execution, call, resolve_output, checked, run_checked,
  enforce_output_limit, validate_limits, within_budget,
}

-- The size of what a call puts out, where it puts out something.
abbrev pub Fits : (Value → Result ℕ) → ℕ → FunctionExecution → Type 0
Fits encoded_len max (completed output) = (n : ℕ) × (encoded_len output ≡ ok n) × (n ≤ max)
Fits encoded_len max (suspended_after_execution _ output) =
    (n : ℕ) × (encoded_len output ≡ ok n) × (n ≤ max)
Fits encoded_len max (suspended_before_execution _) = Unit

-- An output that is kept because it is small enough, or else replaced by what the resolver gives for it.
abbrev pub IsResolved :
    (Value → Result ℕ) → String → ℕ → (String → Value → ℕ → Result Value) → Value → Value → Type 0
IsResolved encoded_len name max resolve output out =
    (n : ℕ) × (encoded_len output ≡ ok n)
    × (((n ≤ max) × (output ≡ out)) ⊎ ((max < n) × (resolve name output max ≡ ok out)))

-- The result of a call for what the function gave.
abbrev pub IsLimited :
    (Value → Result ℕ)
    → String
    → ℕ
    → (String → Value → ℕ → Result Value)
    → FunctionExecution
    → FunctionExecution
    → Type 0
IsLimited encoded_len name max resolve (completed output) x =
    (out : Value) × (x ≡ completed out) × IsResolved encoded_len name max resolve output out
IsLimited encoded_len name max resolve (suspended_after_execution suspension output) x =
    (out : Value) × (x ≡ suspended_after_execution suspension out)
    × IsResolved encoded_len name max resolve output out
IsLimited encoded_len name max resolve (suspended_before_execution suspension) x =
    x ≡ suspended_before_execution suspension

module _ (encoded_len : Value → Result ℕ) (name : String) (max : ℕ)
    (resolve : String → Value → ℕ → Result Value) where
  resolve_output-IsResolved :
      (output : Value) {v : Value}
      → resolve_output encoded_len name output max resolve ≡ ok v
      → ((n : ℕ) × (encoded_len v ≡ ok n) × (n ≤ max))
        × IsResolved encoded_len name max resolve output v
  unfolding resolve_output
  resolve_output-IsResolved output {v} h =
      let (n, small, rest) = >>=-eq-ok (encoded_len output) _ h in
      elim (Bool-cases (leb n max)) [
        | inl fits ↦
            let same : output ≡ v = ok_inj (rw fits at rest) in
            let within = leb→le n max fits in
            ((n, rw (← same) small, within), (n, small, inl (within, same)))
        | inr big ↦
            let (w, resolved, rest') = >>=-eq-ok (resolve name output max) _ (rw big at rest) in
            let (k, e, last) = >>=-eq-ok (encoded_len w) _ rest' in
            elim (Bool-cases (ltb max k)) [
              | inl over ↦ cc (rw over at last)
              | inr within ↦
                  let same : w ≡ v = ok_inj (rw within at last) in
                  (
                    (k, rw (← same) e, ground arith),
                    (n, small, inr (ground arith, rw (← same) resolved)),
                  )
            ]
      ]

  enforce_output_limit-IsLimited :
      (x y : FunctionExecution)
      → enforce_output_limit encoded_len name x max resolve ≡ ok y
      → Fits encoded_len max y × IsLimited encoded_len name max resolve x y
  unfolding enforce_output_limit
  enforce_output_limit-IsLimited (completed output) y h =
      let (v, e, p) = >>=-eq-ok (resolve_output encoded_len name output max resolve) _ h in
      let (fits, resolved) = resolve_output-IsResolved output e in
      (rw (← ok_inj p) fits, (v, sym (ok_inj p), resolved))
  enforce_output_limit-IsLimited (suspended_after_execution s output) y h =
      let (v, e, p) = >>=-eq-ok (resolve_output encoded_len name output max resolve) _ h in
      let (fits, resolved) = resolve_output-IsResolved output e in
      (rw (← ok_inj p) fits, (v, sym (ok_inj p), resolved))
  enforce_output_limit-IsLimited (suspended_before_execution s) y h =
      (rw (← ok_inj h) tt, sym (ok_inj h))

-- The limits are ones that `validate_limits` accepts.
abbrev pub AreValid : FunctionLimits → Type 0
AreValid l = (0 < l.time_budget.nanos) × (0 < l.max_output_bytes)

checked-AreValid :
    {W : Type 0} (functions : FunctionRegistry W) (name : String) {f : AgentFunction W}
    → checked functions name ≡ ok f
    → (TreeMap.lookup name functions ≡ some f) × AreValid f.limits
unfolding checked
checked-AreValid functions name {f} h = elim (Option-cases (TreeMap.lookup name functions)) [
  | inl e ↦ cc (rw e at h)
  | inr (g, e) ↦
      let same : validate_limits name g.limits ≡ ok tt × (g ≡ f) = ground arith in
      (ground arith, ground arith)
]

-- The run of a function that a call's result and its world come from.
pub record Ran {W : Type 0} (encoded_len : Value → Result ℕ) (f : AgentFunction W) (name : String)
    (args : Value) (c : FunctionContext) (w : W) (x : FunctionExecution) (w' : W) : Type 0 where
  pub execution : FunctionExecution
  pub ran : f.call f.limits.time_budget args c w ≡ (some (ok execution), w')
  pub limited : IsLimited encoded_len name f.limits.max_output_bytes f.resolve execution x
  pub fits : Fits encoded_len f.limits.max_output_bytes x

module _ (encoded_len : Value → Result ℕ) {W : Type 0} where
  run_checked-Ran :
      (r : Result (AgentFunction W)) (name : String) (args : Value) (c : FunctionContext) (w : W)
      (x : FunctionExecution) {w' : W}
      → run_checked encoded_len r name args c w ≡ (ok x, w')
      → (f : AgentFunction W) × (r ≡ ok f) × Ran encoded_len f name args c w x w'
  unfolding run_checked within_budget
  run_checked-Ran (err e) name args c w x h = cc
  run_checked-Ran (ok f) name args c w x {w'} h =
      (f, refl, go (f.call f.limits.time_budget args c w) refl h)
    where
      go :
          (p : Option (Result FunctionExecution) × W)
          → f.call f.limits.time_budget args c w ≡ p
          → ◌≡◌ {A = Result FunctionExecution × W}
              (within_budget encoded_len f name p.0, p.1)
              (ok x, w')
          → Ran encoded_len f name args c w x w'
      go (none, v) e h = cc
      go (some r, v) e h =
          let (y, ended, q) = >>=-eq-ok r _ (ap (λ p. p.0) h) in
          let (fits, limited) =
            enforce_output_limit-IsLimited encoded_len name f.limits.max_output_bytes f.resolve y x
              q in
          record {
            execution = y;
            ran = e ∙ ap (λ r. (some r, v)) ended ∙ ap (λ v. (some (ok y), v)) (ap (λ p. p.1) h);
            limited = limited;
            fits = fits;
          }

  -- A call that succeeds ran the function that is registered under its name on its arguments and under
  -- that function's time budget, which is not zero and did not run out; its result is what the function gave,
  -- with an output that encodes to more than the function's limit, which is not zero, replaced by what the
  -- function's resolver gives for it, and no output that encodes to more than the limit.
  pub call-Ran :
      (functions : FunctionRegistry W) (name : String) (args : Value) (c : FunctionContext) (w : W)
      (x : FunctionExecution) {w' : W}
      → call encoded_len functions name args c w ≡ (ok x, w')
      → (f : AgentFunction W) × (TreeMap.lookup name functions ≡ some f)
        × AreValid f.limits
        × Ran encoded_len f name args c w x w'
  unfolding call
  call-Ran functions name args c w x h =
      let (f, e, ran) = run_checked-Ran (checked functions name) name args c w x h in
      let (found, valid) = checked-AreValid functions name e in (f, found, valid, ran)
