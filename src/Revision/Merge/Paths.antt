-- ===== src/Revision/Merge/Paths.antt =====
-- What `merge_value` of canary-agent-revision/src/merge.rs leaves at each path of an object.
use canary_agent.Prelude.{
  String, Bool, true, false, Option, none, some, List, [], ◌∷◌, ◌≡◌, ◌≢◌, refl, sym, ◌∙◌, ap,
  if◌then◌else◌, All,
}
use canary_agent.Prelude.Equality.{same, same→eq, same_self}
use canary_agent.Kernel.Value.{Value, get}
use canary_agent.Revision.Merge.{
  MergeConflict, Merged, OptionValue-discrete, unless_one_sided, conflict, child_path, merge_leaf,
}

-- The value at a path of keys.
unfoldable pub child_at : String → Option Value → Option Value
unfolding get
child_at key none = none
child_at key (some v) = get v key

unfoldable pub value_at : List String → Option Value → Option Value
unfolding child_at
value_at [] v = v
value_at (key ∷ names) v = value_at names (child_at key v)

-- The text of a path.
unfoldable pub dotted : String → List String → String
unfolding child_path
dotted path [] = path
dotted path (key ∷ names) = dotted (child_path path key) names

-- A value that keeps the one-sided changes of three others.
pub record Kept (base ours theirs merged : Option Value) : Type 0 where
  pub only_ours : theirs ≡ base → merged ≡ ours
  pub only_theirs : ours ≡ base → merged ≡ theirs
  pub both_same : ours ≡ theirs → merged ≡ ours

-- A conflict that names a place where all three differ.
pub record Located (base ours theirs : Option Value) (path : String) (c : MergeConflict)
    : Type 0 where
  pub names : List String
  pub at_path : c.path ≡ dotted path names
  pub at_base : c.base ≡ value_at names base
  pub at_ours : c.ours ≡ value_at names ours
  pub at_theirs : c.theirs ≡ value_at names theirs
  pub ours_changed : c.ours ≢ c.base
  pub theirs_changed : c.theirs ≢ c.base
  pub differ : c.ours ≢ c.theirs

pub record IsMerge (base ours theirs : Option Value) (path : String) (merged : Merged)
    : Type 0 where
  pub kept :
      merged.1 ≡ []
      → (names : List String)
      → Kept
          (value_at names base)
          (value_at names ours)
          (value_at names theirs)
          (value_at names merged.0)
  pub located : All (Located base ours theirs path) merged.1

unequal : (a b : Option Value) → same OptionValue-discrete a b ≡ false → a ≢ b
unequal a b h e =
    let both = sym (same_self OptionValue-discrete a) ∙ ap (same OptionValue-discrete a) e ∙ h in cc

pub unless_one_sided-IsMerge :
    (base ours theirs : Option Value) (path : String) (rest : Merged)
    → (ours ≢ theirs → ours ≢ base → theirs ≢ base → IsMerge base ours theirs path rest)
    → IsMerge base ours theirs path (unless_one_sided base ours theirs rest)
unfolding unless_one_sided
unless_one_sided-IsMerge base ours theirs path rest h =
    by_case (same OptionValue-discrete ours theirs) (same OptionValue-discrete ours base)
      (same OptionValue-discrete theirs base) refl refl refl
  where
    by_case :
        (a b c : Bool)
        → same OptionValue-discrete ours theirs ≡ a
        → same OptionValue-discrete ours base ≡ b
        → same OptionValue-discrete theirs base ≡ c
        → IsMerge base ours theirs path
            (if a then (ours, []) else if b then (theirs, []) else if c then (ours, []) else rest)
    by_case true b c ea eb ec = record {
      kept = λ _ names. record {
        only_ours = λ e. refl;
        only_theirs = λ e. ap (value_at names) (same→eq OptionValue-discrete ours theirs ea);
        both_same = λ e. refl;
      };
      located = tt;
    }
    by_case false true c ea eb ec = record {
      kept = λ _ names. record {
        only_ours = λ e. e ∙ sym (ap (value_at names) (same→eq OptionValue-discrete ours base eb));
        only_theirs = λ e. refl;
        both_same = sym;
      };
      located = tt;
    }
    by_case false false true ea eb ec = record {
      kept = λ _ names. record {
        only_ours = λ e. refl;
        only_theirs =
            λ e. e ∙ sym (ap (value_at names) (same→eq OptionValue-discrete theirs base ec));
        both_same = λ e. refl;
      };
      located = tt;
    }
    by_case false false false ea eb ec =
        h (unequal ours theirs ea) (unequal ours base eb) (unequal theirs base ec)

conflict-IsMerge :
    (base ours theirs : Option Value) (path : String)
    → ours ≢ theirs
    → ours ≢ base
    → theirs ≢ base
    → IsMerge base ours theirs path (conflict base ours theirs path)
unfolding conflict value_at dotted
conflict-IsMerge base ours theirs path a b c = record {
  kept = λ e. cc;
  located = (
    record {
      names = [];
      at_path = refl;
      at_base = refl;
      at_ours = refl;
      at_theirs = refl;
      ours_changed = b;
      theirs_changed = c;
      differ = a;
    },
    tt,
  );
}

pub merge_leaf-IsMerge :
    (base ours theirs : Option Value) (path : String)
    → IsMerge base ours theirs path (merge_leaf base ours theirs path)
unfolding merge_leaf
merge_leaf-IsMerge base ours theirs path =
    unless_one_sided-IsMerge base ours theirs path (conflict base ours theirs path)
      (conflict-IsMerge base ours theirs path)
