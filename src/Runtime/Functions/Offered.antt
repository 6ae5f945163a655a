-- ===== src/Runtime/Functions/Offered.antt =====
-- The specifications that FunctionRegistry of canary-agent-runtime/src/functions.rs offers, and the names that
-- it can call.
use mathlib.Core.List.{Memᴰ}
use Prim.Native.Nat.{Ordering}
use Prim.Native.String.{compare}
use canary_agent.Prelude.{
  List, is_some, ℕ, String, Bool, true, false, ◌≡◌, ◌≢◌, refl, sym, ap, ◌∙◌, Option, none, some, [],
  ◌∷◌, ◌==◌, eq_iff, if◌then◌else◌,
}
use canary_agent.Prelude.Result.{err}
use canary_agent.Prelude.TreeMap.{lookup, insert, remove, lookup-insert, lookup-remove}
use canary_agent.Kernel.Value.{Value}
use canary_agent.Kernel.Model.{FunctionSpec}
use canary_agent.Runtime.Error.{Result, function_not_found}
use canary_agent.Runtime.Functions.{
  FunctionContext, FunctionRegistry, AgentFunction, new, register, unregister, specs, call, checked,
  run_checked,
}

-- A registration or a removal.
pub data Change (W : Type 0) : Type 0 where
  put : AgentFunction W → Change W
  drop : String → Change W

-- The registries that changes make of the empty one, the newest change first.
pub data IsRegistry {W : Type 0} : List (Change W) → FunctionRegistry W → Type 0 where
  is_new : IsRegistry [] new
  registered :
      {changes : List (Change W)} {functions : FunctionRegistry W} (f : AgentFunction W)
      → IsRegistry changes functions
      → IsRegistry (Change.put f ∷ changes) (register f functions)
  unregistered :
      {changes : List (Change W)} {functions : FunctionRegistry W} (name : String)
      → IsRegistry changes functions
      → IsRegistry (Change.drop name ∷ changes) (unregister name functions).1

-- The function of the newest registration under a name, unless a removal of the name is newer.
unfoldable pub newest : {W : Type 0} → String → List (Change W) → Option (AgentFunction W)
newest name [] = none
newest name (Change.put f ∷ changes) =
    let before = newest name changes in if f.spec.name == name then some f else before
newest name (Change.drop other ∷ changes) =
    let before = newest name changes in if other == name then none else before

module _ {W : Type 0} where
  -- Every function stands under its own name.
  abbrev Named : FunctionRegistry W → Type 0
  Named [] = Unit
  Named ((k, f) ∷ functions) = (k ≡ f.spec.name) × Named functions

  Named-insert :
      (f : AgentFunction W) (functions : FunctionRegistry W)
      → Named functions
      → Named (insert f.spec.name f functions)
  unfolding insert
  Named-insert f [] h = (refl, tt)
  Named-insert f ((j, g) ∷ functions) h =
      by_case (j == f.spec.name) (compare f.spec.name j) (Named-insert f functions h.1)
    where
      by_case :
          (b : Bool) (o : Ordering)
          → Named (insert f.spec.name f functions)
          → Named (
              if b then (f.spec.name, f) ∷ functions else elim o [
                | Ordering.lt ↦ (f.spec.name, f) ∷ (j, g) ∷ functions
                | _ ↦ (j, g) ∷ insert f.spec.name f functions
              ])
      by_case true o rest = (refl, h.1)
      by_case false Ordering.lt rest = (refl, h)
      by_case false Ordering.eq rest = (h.0, rest)
      by_case false Ordering.gt rest = (h.0, rest)

  Named-remove :
      (name : String) (functions : FunctionRegistry W)
      → Named functions
      → Named (remove name functions)
  unfolding remove
  Named-remove name [] h = tt
  Named-remove name ((j, g) ∷ functions) h = by_case (j == name) (Named-remove name functions h.1)
    where
      by_case :
          (b : Bool)
          → Named (remove name functions)
          → Named (if b then remove name functions else (j, g) ∷ remove name functions)
      by_case true rest = rest
      by_case false rest = (h.0, rest)

  IsRegistry-Named :
      (changes : List (Change W)) (functions : FunctionRegistry W)
      → IsRegistry changes functions
      → Named functions
  unfolding new register unregister
  IsRegistry-Named changes functions IsRegistry.is_new = tt
  IsRegistry-Named changes functions (IsRegistry.registered f h) =
      Named-insert f _ (IsRegistry-Named _ _ h)
  IsRegistry-Named changes functions (IsRegistry.unregistered name h) =
      Named-remove name _ (IsRegistry-Named _ _ h)

  lookup-newest :
      (name : String) (changes : List (Change W)) (functions : FunctionRegistry W)
      → IsRegistry changes functions
      → lookup name functions ≡ newest name changes
  unfolding new register unregister lookup newest
  lookup-newest name changes functions IsRegistry.is_new = refl
  lookup-newest name changes functions (IsRegistry.registered f h) =
      lookup-insert f.spec.name name f _
      ∙ ap (λ o. if f.spec.name == name then some f else o) (lookup-newest name _ _ h)
  lookup-newest name changes functions (IsRegistry.unregistered other h) =
      lookup-remove other name _
      ∙ ap (λ o. if other == name then none else o) (lookup-newest name _ _ h)

  -- The function that a name finds bears it, and its specification is offered.
  pub record IsOffered (functions : FunctionRegistry W) (name : String) (f : AgentFunction W)
      : Type 0 where
    pub bears : f.spec.name ≡ name
    pub offers : Memᴰ f.spec (specs functions)

  lookup-IsOffered :
      (functions : FunctionRegistry W) (name : String) {f : AgentFunction W}
      → Named functions
      → lookup name functions ≡ some f
      → IsOffered functions name f
  unfolding lookup specs
  lookup-IsOffered [] name h e = cc
  lookup-IsOffered ((j, g) ∷ functions) name {f} h e =
      by_case (j == name) refl e (lookup-IsOffered functions name h.1)
    where
      by_case :
          (b : Bool)
          → (j == name) ≡ b
          → (if b then some g else lookup name functions) ≡ some f
          → (lookup name functions ≡ some f → IsOffered functions name f)
          → IsOffered ((j, g) ∷ functions) name f
      by_case true same e rest =
          let found : g ≡ f = cc in
          record {
            bears = ap (λ f. f.spec.name) (sym found) ∙ sym h.0 ∙ (eq_iff j name).0 same;
            offers = Memᴰ.head (ap (λ f. f.spec) (sym found));
          }
      by_case false same e rest =
          let later = rest e in record { bears = later.bears; offers = Memᴰ.tail later.offers }

  lookup-none :
      (functions : FunctionRegistry W) (name : String)
      → Named functions
      → lookup name functions ≡ none
      → (spec : FunctionSpec) → Memᴰ spec (specs functions)
      → spec.name ≢ name
  unfolding lookup specs
  lookup-none [] name h e spec held same = elim held [ ]
  lookup-none ((j, g) ∷ functions) name h e spec held same =
      by_case (j == name) refl e held (λ e later. lookup-none functions name h.1 e spec later same)
    where
      by_case :
          (b : Bool)
          → (j == name) ≡ b
          → (if b then some g else lookup name functions) ≡ none
          → Memᴰ spec (g.spec ∷ specs functions)
          → (lookup name functions ≡ none → Memᴰ spec (specs functions) → ⊥)
          → ⊥
      by_case true here e held rest = cc
      by_case false here e (Memᴰ.head is) rest =
          let both = sym ((eq_iff j name).1 (h.0 ∙ ap (λ s. s.name) (sym is) ∙ same)) ∙ here in cc
      by_case false here e (Memᴰ.tail later) rest = rest e later

  -- What a registry does under a name whose function is known.
  pub data Answers (encoded_len : Value → Result ℕ) (functions : FunctionRegistry W) (name : String)
      (args : Value) (c : FunctionContext) (w : W) : Option (AgentFunction W) → Type 0 where
    finds :
        (f : AgentFunction W)
        → lookup name functions ≡ some f
        → IsOffered functions name f
        → Answers encoded_len functions name args c w (some f)
    refuses :
        ((spec : FunctionSpec) → Memᴰ spec (specs functions) → spec.name ≢ name)
        → call encoded_len functions name args c w ≡ (err (function_not_found name), w)
        → Answers encoded_len functions name args c w none

  -- In a registry that registrations and removals made, a name finds the function of its newest
  -- registration, if no removal of the name is newer: that function bears the name, and its specification
  -- is offered. Otherwise no specification that is offered has the name, and a call of it gives that the
  -- function is not found and runs nothing. A removal says whether there was such a function.
  pub call-IsOffered :
      (encoded_len : Value → Result ℕ) (changes : List (Change W)) (functions : FunctionRegistry W)
      (name : String) (args : Value) (c : FunctionContext) (w : W)
      → IsRegistry changes functions
      → Answers encoded_len functions name args c w (newest name changes)
        × ((unregister name functions).0 ≡ is_some (newest name changes))
  unfolding call checked run_checked unregister
  call-IsOffered encoded_len changes functions name args c w registry =
      let is_newest = lookup-newest name changes functions registry in
      (by_case (newest name changes) is_newest, ap is_some is_newest)
    where
      by_case :
          (found : Option (AgentFunction W))
          → lookup name functions ≡ found
          → Answers encoded_len functions name args c w found
      by_case (some f) e =
          Answers.finds f e
            (lookup-IsOffered functions name (IsRegistry-Named changes functions registry) e)
      by_case none e =
          Answers.refuses
            (lookup-none functions name (IsRegistry-Named changes functions registry) e) (rw e refl)
