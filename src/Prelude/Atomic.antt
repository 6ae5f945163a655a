-- ===== src/Prelude/Atomic.antt =====
-- Methods that keep a view of what they share, always or where they fail.
use mathlib.Core.Path.{◌≡◌, refl, ◌∙◌}
use mathlib.Core.Bool.{Bool, true, false}
use canary_agent.Prelude.Tests.{if◌then◌else◌}
use canary_agent.Prelude.Result.{Result, ok, err}
use canary_agent.Prelude.Exec.{Exec, ◌>>=◌, pure, lift, continue}

abbrev pub Same : {S K V : Type 0} → (S → K → V) → S → S → Type 0
Same view s t = (k : _) → view t k ≡ view s k

module _ {E S K V : Type 0} (view : S → K → V) where
  -- A method that keeps the view.
  pub record Quiet {A : Type 0} (m : Exec E S A) : Type 0 where
    pub quiet : (s : S) → Same view s (m s).1

  -- A method that keeps the view where it fails.
  pub record AllOrNothing {A : Type 0} (m : Exec E S A) : Type 0 where
    pub nothing : (s : S) (e : E) → (m s).0 ≡ err e → Same view s (m s).1

module _ {E S K V : Type 0} {view : S → K → V} where
  module _ {A B : Type 0} (m : Exec E S A) (f : A → Exec E S B) where
    continue-Quiet :
        (r : Result E A) (w : S) → ((a : A) → Quiet view (f a)) → Same view w (continue r f w).1
    continue-Quiet (ok a) w each k = (each a).quiet w k
    continue-Quiet (err e) w each k = refl

    pub >>=-Quiet : Quiet view m → ((a : A) → Quiet view (f a)) → Quiet view (m >>= f)
    unfolding ◌>>=◌
    >>=-Quiet q each = record { quiet = λ w k. continue-Quiet (m w).0 (m w).1 each k ∙ q.quiet w k }

    continue-AllOrNothing :
        (r : Result E A) (w : S)
        → ((a : A) → AllOrNothing view (f a))
        → (e : E) → (continue r f w).0 ≡ err e
        → Same view w (continue r f w).1
    continue-AllOrNothing (ok a) w each e h k = (each a).nothing w e h k
    continue-AllOrNothing (err x) w each e h k = refl

    pub >>=-AllOrNothing :
        Quiet view m → ((a : A) → AllOrNothing view (f a)) → AllOrNothing view (m >>= f)
    unfolding ◌>>=◌
    >>=-AllOrNothing q each = record {
      nothing = λ w e h k. continue-AllOrNothing (m w).0 (m w).1 each e h k ∙ q.quiet w k;
    }

  module _ {A : Type 0} where
    pub Quiet-AllOrNothing : (m : Exec E S A) → Quiet view m → AllOrNothing view m
    Quiet-AllOrNothing m q = record { nothing = λ w e h. q.quiet w }

    pub lift-Quiet : (r : Result E A) → Quiet view (lift r)
    lift-Quiet r = record { quiet = λ w k. refl }

    pub test-Quiet : (b : Bool) (r s : Result E A) → Quiet view (if b then lift r else lift s)
    test-Quiet true r s = lift-Quiet r
    test-Quiet false r s = lift-Quiet s

  pub >>=-pure-AllOrNothing :
      {A B : Type 0} (m : Exec E S A) (f : A → B)
      → AllOrNothing view m
      → AllOrNothing view (m >>= λ a. pure (f a))
  unfolding ◌>>=◌
  >>=-pure-AllOrNothing {A} {B} m f atomic = record {
    nothing = λ w e h. by_case (m w).0 (m w).1 e (atomic.nothing w) h;
  }
    where
      by_case :
          {v : S} (r : Result E A) (w : S) (e : E)
          → ((x : E) → r ≡ err x → Same view v w)
          → (continue r (λ a. pure (f a)) w).0 ≡ err e
          → Same view v (continue r (λ a. pure (f a)) w).1
      by_case (ok a) w e kept h = cc
      by_case (err x) w e kept h = kept x refl
