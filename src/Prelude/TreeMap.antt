-- ===== src/Prelude/TreeMap.antt =====
-- `BTreeMap` with text keys: entries in the order of their keys.
use Prim.Native.Nat.{Ordering}
use Prim.Native.String.{String, compare}
use mathlib.Core.Path.{◌≡◌, refl, sym, ◌∙◌}
use mathlib.Core.Bool.{Bool, false, ◌||◌}
use mathlib.Core.Option.{Option, none, some}
use mathlib.Core.List.{List, [], ◌∷◌, ◌++◌, map}
use native.Mathlib.Omega.{arith}
use text.Mathlib.Text.{◌==◌}
use text.Mathlib.TextEquality.{eq_iff}
use canary_agent.Prelude.Tests.{if◌then◌else◌}
use canary_agent.Prelude.Lists.{is_some}

abbrev pub TreeMap {ℓ} : Type ℓ → Type ℓ
TreeMap V = List (String × V)

unfoldable pub contains : String → List String → Bool
contains k [] = false
contains k (j ∷ js) = j == k || contains k js

module _ {ℓ} {V : Type ℓ} where
  unfoldable pub lookup : String → TreeMap V → Option V
  lookup k [] = none
  lookup k ((j, v) ∷ m) = if j == k then some v else lookup k m

  unfoldable pub insert : String → V → TreeMap V → TreeMap V
  insert k v [] = (k, v) ∷ []
  insert k v ((j, w) ∷ m) =
      let rest = insert k v m in
      if j == k
      then (k, v) ∷ m
      else elim (compare k j) [ Ordering.lt ↦ (k, v) ∷ (j, w) ∷ m | _ ↦ (j, w) ∷ rest ]

  unfoldable pub remove : String → TreeMap V → TreeMap V
  remove k [] = []
  remove k ((j, v) ∷ m) = let rest = remove k m in if j == k then rest else (j, v) ∷ rest

  abbrev pub values : TreeMap V → List V
  values = map (λ e. e.1)

  pub lookup-insert :
      (key other : String) (value : V) (entries : TreeMap V)
      → lookup other (insert key value entries)
        ≡ (if key == other then some value else lookup other entries)
  unfolding lookup insert
  lookup-insert key other value [] = refl
  lookup-insert key other value ((here, w) ∷ entries) = ground (
    arith,
    lookup-insert key other value entries,
    eq_iff here other,
    eq_iff here key,
    eq_iff key other,
  )

  pub lookup-remove :
      (key other : String) (entries : TreeMap V)
      → lookup other (remove key entries) ≡ (if key == other then none else lookup other entries)
  unfolding lookup remove
  lookup-remove key other [] = ground arith
  lookup-remove key other ((here, w) ∷ entries) =
      ground (
        arith,
        lookup-remove key other entries,
        eq_iff here other,
        eq_iff here key,
        eq_iff key other,
      )

  abbrev pub keys : TreeMap V → List String
  keys = map (λ e. e.0)

  pub is_some-lookup :
      (k : String) (entries : TreeMap V) → is_some (lookup k entries) ≡ contains k (keys entries)
  unfolding lookup contains
  is_some-lookup k [] = refl
  is_some-lookup k ((here, w) ∷ entries) = ground (arith, is_some-lookup k entries)

-- The elements of a `BTreeSet`, in their order.
unfoldable pub key_set : List String → TreeMap {0} Unit
unfolding insert
key_set [] = []
key_set (k ∷ ks) = insert k tt (key_set ks)

unfoldable pub sorted_keys : List String → List String
unfolding key_set
sorted_keys ks = keys (key_set ks)

pub contains-append :
    (k : String) (front back : List String)
    → contains k (front ++ back) ≡ (contains k front || contains k back)
unfolding contains
contains-append k [] back = refl
contains-append k (here ∷ front) back = ground (arith, contains-append k front back)

in_key_set : (k : String) (ks : List String) → is_some (lookup k (key_set ks)) ≡ contains k ks
unfolding key_set contains lookup
in_key_set k [] = refl
in_key_set k (here ∷ ks) = ground (arith, in_key_set k ks, lookup-insert here k tt (key_set ks))

pub contains-sorted_keys :
    (k : String) (ks : List String) → contains k (sorted_keys ks) ≡ contains k ks
unfolding sorted_keys
contains-sorted_keys k ks = sym (is_some-lookup k (key_set ks)) ∙ in_key_set k ks
