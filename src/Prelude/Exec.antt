-- ===== src/Prelude/Exec.antt =====
-- Async methods that mutate what they share and may fail by `?`: what was done before the error
-- stays done.
use mathlib.Core.Path.{◌≡◌, refl}
use canary_agent.Prelude.Result.{Result, ok, err}

abbrev pub Exec : Type 0 → Type 0 → Type 0 → Type 0
Exec E S A = S → Result E A × S

module _ {E S A : Type 0} where
  abbrev pub pure : A → Exec E S A
  pure a s = (ok a, s)

  abbrev pub raise : E → Exec E S A
  raise e s = (err e, s)

  abbrev pub lift : Result E A → Exec E S A
  lift r s = (r, s)

  abbrev pub gets : (S → A) → Exec E S A
  gets f s = (ok (f s), s)

abbrev pub modify : {E S : Type 0} → (S → S) → Exec E S Unit
modify f s = (ok tt, f s)

abbrev pub continue : {E S A B : Type 0} → Result E A → (A → Exec E S B) → Exec E S B
continue (ok a) f s = f a s
continue (err e) f s = (err e, s)

infixl 5 ◌>>=◌ ◌>>◌
unfoldable pub ◌>>=◌ : {E S A B : Type 0} → Exec E S A → (A → Exec E S B) → Exec E S B
◌>>=◌ m f s = let (r, s') = m s in continue r f s'

abbrev pub ◌>>◌ : {E S A B : Type 0} → Exec E S A → Exec E S B → Exec E S B
m >> k = m >>= λ _. k

-- Inversion of a step that succeeds.
pub bind-eq-ok :
    {E S A B : Type 0} (m : Exec E S A) (f : A → Exec E S B) (s : S) {b : B} {s' : S}
    → (m >>= f) s ≡ (ok b, s')
    → (a : A) × (t : S) × (m s ≡ (ok a, t)) × (f a t ≡ (ok b, s'))
unfolding ◌>>=◌
bind-eq-ok {E} {S} {A} {B} m f s {b} {s'} h = go (m s) refl h
  where
    go :
        (p : Result E A × S)
        → m s ≡ p
        → continue p.0 f p.1 ≡ (ok b, s')
        → (a : A) × (t : S) × (m s ≡ (ok a, t)) × (f a t ≡ (ok b, s'))
    go (ok a, t) e k = (a, t, e, k)
    go (err x, t) e k = cc

-- The same, for use in a proof.
pub from_bind {ℓ} :
    {E S A B : Type 0} {P : Type ℓ} (m : Exec E S A) (f : A → Exec E S B) (s : S) {b : B} {s' : S}
    → (m >>= f) s ≡ (ok b, s')
    → ((a : A) (t : S) → m s ≡ (ok a, t) → f a t ≡ (ok b, s') → P)
    → P
from_bind m f s h k = let (a, t, e, g) = bind-eq-ok m f s h in k a t e g

-- A run of two steps, from a run of each.
module _ {E S A B : Type 0} (m : Exec E S A) (f : A → Exec E S B) {s t : S} where
  pub stops : {e : E} → m s ≡ (err e, t) → (m >>= f) s ≡ (err e, t)
  unfolding ◌>>=◌
  stops h = rw h refl

  pub goes : {a : A} {r : Result E B × S} → m s ≡ (ok a, t) → f a t ≡ r → (m >>= f) s ≡ r
  unfolding ◌>>=◌
  goes h k = rw h k
