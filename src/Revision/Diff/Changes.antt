-- ===== src/Revision/Diff/Changes.antt =====
-- The changes of canary-agent-revision/src/diff.rs as what they do to a map of tools.
use canary_agent.Prelude.{
  String, Bool, true, false, ◌==◌, eq_iff, Option, none, some, List, [], ◌∷◌, ◌++◌, ◌≡◌, refl, sym,
  ◌∙◌, ap, ◌⊎◌, inl, inr, arith, ◌||◌, if◌then◌else◌, is_some,
}
use canary_agent.Prelude.Equality.{same, same→eq}
use canary_agent.Prelude.TreeMap.{
  TreeMap, lookup, insert, remove, keys, contains, contains-append, contains-sorted_keys,
  is_some-lookup, sorted_keys, lookup-insert, lookup-remove,
}
use canary_agent.Kernel.Value.{Value-discrete}
use canary_agent.Revision.Spec.{ToolSpec, ToolInterfaceSpec-discrete, ToolSpec-discrete}
use canary_agent.Revision.Diff.{
  ValueChange, ToolDiff, ToolChange, added, removed, modified, changed, diff_tool, tool_change,
  push_some, changes_at, diff_tools,
}

-- The value that a change leaves, and the one that it found.
unfoldable pub changed_to : {T : Type 0} → Option (ValueChange T) → T → T
changed_to none old = old
changed_to (some change) old = change.after

unfoldable pub patch : ToolDiff → ToolSpec → ToolSpec
unfolding changed_to
patch diff tool = record {
  interface = changed_to diff.interface tool.interface;
  configuration = changed_to diff.configuration tool.configuration;
}

abbrev pub insert_some : String → Option ToolSpec → TreeMap ToolSpec → TreeMap ToolSpec
insert_some name none tools = tools
insert_some name (some tool) tools = insert name tool tools

abbrev pub patched : ToolDiff → Option ToolSpec → Option ToolSpec
patched diff none = none
patched diff (some tool) = some (patch diff tool)

unfoldable pub apply_change : ToolChange → TreeMap ToolSpec → TreeMap ToolSpec
unfolding insert remove lookup
apply_change (added name tool) tools = insert name tool tools
apply_change (removed name tool) tools = remove name tools
apply_change (modified name diff) tools = insert_some name (patched diff (lookup name tools)) tools

unfoldable pub apply_changes : List ToolChange → TreeMap ToolSpec → TreeMap ToolSpec
unfolding apply_change
apply_changes [] tools = tools
apply_changes (change ∷ changes) tools = apply_changes changes (apply_change change tools)

changed_to-changed :
    {T : Type 0} (eq : Discrete T) (before after : T)
    → changed_to (changed eq before after) before ≡ after
unfolding changed_to changed
changed_to-changed eq before after = by_case (same eq before after) refl
  where
    by_case :
        (b : Bool)
        → same eq before after ≡ b
        → changed_to (if b then none else some (record { before = before; after = after })) before
          ≡ after
    by_case true e = same→eq eq before after e
    by_case false e = refl

changed_to-changed_again :
    {T : Type 0} (eq : Discrete T) (before after : T)
    → changed_to (changed eq before after) after ≡ after
unfolding changed_to changed
changed_to-changed_again eq before after = by_case (same eq before after)
  where
    by_case :
        (b : Bool)
        → changed_to (if b then none else some (record { before = before; after = after })) after
          ≡ after
    by_case true = refl
    by_case false = refl

patch-diff_tool : (before after : ToolSpec) → patch (diff_tool before after) before ≡ after
unfolding patch diff_tool
patch-diff_tool before after = rw (
  changed_to-changed ToolInterfaceSpec-discrete before.interface after.interface,
  changed_to-changed Value-discrete before.configuration after.configuration,
)

patch-diff_tool_again : (before after : ToolSpec) → patch (diff_tool before after) after ≡ after
unfolding patch diff_tool
patch-diff_tool_again before after = rw (
  changed_to-changed_again ToolInterfaceSpec-discrete before.interface after.interface,
  changed_to-changed_again Value-discrete before.configuration after.configuration,
)

abbrev apply_some : Option ToolChange → TreeMap ToolSpec → TreeMap ToolSpec
unfolding apply_change
apply_some none tools = tools
apply_some (some change) tools = apply_change change tools

apply_changes-push_some :
    (change : Option ToolChange) (changes : List ToolChange) (tools : TreeMap ToolSpec)
    → apply_changes (push_some change changes) tools
      ≡ apply_changes changes (apply_some change tools)
unfolding apply_changes
apply_changes-push_some none changes tools = refl
apply_changes-push_some (some change) changes tools = refl

unchanged :
    (name k : String) (tools : TreeMap ToolSpec) (tool : Option ToolSpec)
    → lookup name tools ≡ tool
    → lookup k tools ≡ (if name == k then tool else lookup k tools)
unchanged name k tools tool here = ground (arith, eq_iff name k)

lookup-insert_some :
    (name k : String) (tool : ToolSpec) (old : Option ToolSpec) (tools : TreeMap ToolSpec)
    → old ≡ some tool
    → lookup k (insert_some name old tools) ≡ (if name == k then some tool else lookup k tools)
lookup-insert_some name k tool old tools e = rw e (lookup-insert name k tool tools)

-- One change puts the tool after in the place of its name, also where it stands there already.
lookup-apply_some :
    (name k : String) (before after : Option ToolSpec) (tools : TreeMap ToolSpec)
    → (lookup name tools ≡ before) ⊎ (lookup name tools ≡ after)
    → lookup k (apply_some (tool_change name before after) tools)
      ≡ (if name == k then after else lookup k tools)
unfolding tool_change apply_change
lookup-apply_some name k none none tools (inl e) = unchanged name k tools none e
lookup-apply_some name k none none tools (inr e) = unchanged name k tools none e
lookup-apply_some name k none (some tool) tools e = lookup-insert name k tool tools
lookup-apply_some name k (some tool) none tools e = lookup-remove name k tools
lookup-apply_some name k (some before) (some after) tools e =
    by_case (same ToolSpec-discrete before after) refl e
  where
    by_case :
        (b : Bool)
        → same ToolSpec-discrete before after ≡ b
        → (lookup name tools ≡ some before) ⊎ (lookup name tools ≡ some after)
        → lookup k
            (apply_some (if b then none else some (modified name (diff_tool before after))) tools)
          ≡ (if name == k then some after else lookup k tools)
    by_case true s (inl h) =
        unchanged name k tools (some after) (h ∙ ap some (same→eq ToolSpec-discrete before after s))
    by_case true s (inr h) = unchanged name k tools (some after) h
    by_case false s (inl h) =
        lookup-insert_some name k after (patched (diff_tool before after) (lookup name tools)) tools
          (ap (patched (diff_tool before after)) h ∙ ap some (patch-diff_tool before after))
    by_case false s (inr h) =
        lookup-insert_some name k after (patched (diff_tool before after) (lookup name tools)) tools
          (ap (patched (diff_tool before after)) h ∙ ap some (patch-diff_tool_again before after))

module _ (before after : TreeMap ToolSpec) where
  abbrev Between : TreeMap ToolSpec → Type 0
  Between tools =
      (k : String) → (lookup k tools ≡ lookup k before) ⊎ (lookup k tools ≡ lookup k after)

  changed_at : String → TreeMap ToolSpec → TreeMap ToolSpec
  unfolding apply_change
  changed_at name tools =
      apply_some (tool_change name (lookup name before) (lookup name after)) tools

  lookup-changed_at :
      (name k : String) (tools : TreeMap ToolSpec)
      → Between tools
      → lookup k (changed_at name tools) ≡ (if name == k then lookup k after else lookup k tools)
  unfolding changed_at
  lookup-changed_at name k tools between = ground (
    arith,
    eq_iff name k,
    lookup-apply_some name k (lookup name before) (lookup name after) tools (between name),
  )

  stays-Between :
      (name : String) (tools : TreeMap ToolSpec) → Between tools → Between (changed_at name tools)
  stays-Between name tools between k = by_case (name == k) (lookup-changed_at name k tools between)
    where
      by_case :
          (b : Bool)
          → lookup k (changed_at name tools) ≡ (if b then lookup k after else lookup k tools)
          → (lookup k (changed_at name tools) ≡ lookup k before)
            ⊎ (lookup k (changed_at name tools) ≡ lookup k after)
      by_case true e = inr e
      by_case false e = elim (between k) [ inl h ↦ inl (e ∙ h) | inr h ↦ inr (e ∙ h) ]

  settled :
      (name k : String) (tools : TreeMap ToolSpec) (b : Bool)
      → Between tools
      → (lookup k tools ≡ lookup k after) ⊎ ((name == k || b) ≡ true)
      → (lookup k (changed_at name tools) ≡ lookup k after) ⊎ (b ≡ true)
  settled name k tools b between = by_case (name == k) (lookup-changed_at name k tools between)
    where
      by_case :
          (here : Bool)
          → lookup k (changed_at name tools) ≡ (if here then lookup k after else lookup k tools)
          → (lookup k tools ≡ lookup k after) ⊎ ((here || b) ≡ true)
          → (lookup k (changed_at name tools) ≡ lookup k after) ⊎ (b ≡ true)
      by_case true e h = inl e
      by_case false e (inl h) = inl (e ∙ h)
      by_case false e (inr h) = inr h

  lookup-changes_at :
      (k : String) (names : List String) (tools : TreeMap ToolSpec)
      → Between tools
      → (lookup k tools ≡ lookup k after) ⊎ (contains k names ≡ true)
      → lookup k (apply_changes (changes_at before after names) tools) ≡ lookup k after
  unfolding changes_at apply_changes contains changed_at
  lookup-changes_at k [] tools between (inl h) = h
  lookup-changes_at k [] tools between (inr h) = cc
  lookup-changes_at k (name ∷ names) tools between h =
      rw
        (apply_changes-push_some (tool_change name (lookup name before) (lookup name after))
          (changes_at before after names) tools)
        (lookup-changes_at k names (changed_at name tools) (stays-Between name tools between)
          (settled name k tools (contains k names) between h))

  no_tool :
      (k : String) (tools : TreeMap ToolSpec)
      → contains k (keys tools) ≡ false
      → lookup k tools ≡ none
  no_tool k tools h = by_case (lookup k tools) (is_some-lookup k tools ∙ h)
    where
      by_case : (tool : Option ToolSpec) → is_some tool ≡ false → tool ≡ none
      by_case none e = refl
      by_case (some tool) e = cc

  named :
      (k : String)
      → (lookup k before ≡ lookup k after)
        ⊎ (contains k (sorted_keys (keys before ++ keys after)) ≡ true)
  named k = by_case (contains k (keys before)) (contains k (keys after)) refl refl
    where
      by_case :
          (old new : Bool)
          → contains k (keys before) ≡ old
          → contains k (keys after) ≡ new
          → (lookup k before ≡ lookup k after)
            ⊎ (contains k (sorted_keys (keys before ++ keys after)) ≡ true)
      by_case false false b a = inl (no_tool k before b ∙ sym (no_tool k after a))
      by_case true new b a = inr (
          rw
            (
              contains-sorted_keys k (keys before ++ keys after),
              contains-append k (keys before) (keys after),
              b,
            )
            refl)
      by_case false true b a = inr (
          rw
            (
              contains-sorted_keys k (keys before ++ keys after),
              contains-append k (keys before) (keys after),
              b,
              a,
            )
            refl)

  -- The changes between two maps of tools, applied to the map before, give a map that has, under every name,
  -- the tool of the map after.
  pub lookup-diff_tools :
      (name : String)
      → lookup name (apply_changes (diff_tools before after) before) ≡ lookup name after
  unfolding diff_tools
  lookup-diff_tools name =
      lookup-changes_at name (sorted_keys (keys before ++ keys after)) before (λ k. inl refl)
        (named name)
