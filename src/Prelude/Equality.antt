-- ===== src/Prelude/Equality.antt =====
-- `==` of derived `PartialEq`, by a decision of equality.
use Prim.Native.String.{String}
use mathlib.Core.Path.{◌≡◌, refl}
use mathlib.Core.Bool.{Bool, true, false}
use text.Mathlib.Text.{◌==◌}
use text.Mathlib.TextEquality.{eq_iff}

abbrev is_yes {ℓ} : {A : Type ℓ} → Dec A → Bool
is_yes (yes _) = true
is_yes (no _) = false

unfoldable pub same {ℓ} : {A : Type ℓ} → Discrete A → A → A → Bool
same eq a b = is_yes (eq a b)

pub same→eq {ℓ} : {A : Type ℓ} (eq : Discrete A) (a b : A) → same eq a b ≡ true → a ≡ b
unfolding same
same→eq eq a b = go (eq a b)
  where
    go : (d : Dec (a ≡ b)) → is_yes d ≡ true → a ≡ b
    go (yes e) h = e
    go (no n) h = cc

pub same_self {ℓ} : {A : Type ℓ} (eq : Discrete A) (a : A) → same eq a a ≡ true
unfolding same
same_self eq a = go (eq a a)
  where
    go : (d : Dec (a ≡ a)) → is_yes d ≡ true
    go (yes e) = refl
    go (no n) = absurd (n refl)

from_test : (s t : String) (b : Bool) → (s == t) ≡ b → Dec (s ≡ t)
from_test s t true e = yes ((eq_iff s t).0 e)
from_test s t false e = no (λ p. cc ((eq_iff s t).1 p))

unfoldable pub String-discrete : Discrete String
unfolding from_test
String-discrete s t = from_test s t (s == t) refl
