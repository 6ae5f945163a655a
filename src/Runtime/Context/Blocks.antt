-- ===== src/Runtime/Context/Blocks.antt =====
-- The blocks that `tool_call_blocks` of canary-agent-runtime/src/context.rs cuts a conversation into.
use canary_agent.Prelude.{
  Bool, true, false, ◌≡◌, refl, ap, ◌∙◌, List, [], ◌∷◌, ◌++◌, is_empty, All, All-append,
}
use mathlib.Core.Path.{subst}
use mathlib.Core.List.{flatten, append_assoc}
use canary_agent.Kernel.Model.{ChatMessage, system, user, assistant, tool}
use canary_agent.Runtime.Context.{collect, tool_call_blocks, requests_tools}

abbrev pub IsTool : ChatMessage → Type 0
IsTool (tool _ _ _) = Unit
IsTool _ = ⊥

-- One message, or an assistant's message that requests tools with tool messages behind it.
abbrev pub IsBlock : List ChatMessage → Type 0
IsBlock [] = ⊥
IsBlock (m ∷ []) = Unit
IsBlock (m ∷ n ∷ rest) = (requests_tools m ≡ true) × All IsTool (n ∷ rest)

flatten-collect :
    (group : List ChatMessage) (gathers : Bool) (ms : List ChatMessage)
    → flatten (collect group gathers ms) ≡ group ++ ms
unfolding collect flatten
flatten-collect group gathers [] = refl
flatten-collect group true (tool id name content ∷ ms) =
    flatten-collect (group ++ tool id name content ∷ []) true ms
    ∙ append_assoc group (tool id name content ∷ []) ms
flatten-collect group true (system s ∷ ms) = ap (◌++◌ group) (flatten-collect (system s ∷ []) _ ms)
flatten-collect group true (user s ∷ ms) = ap (◌++◌ group) (flatten-collect (user s ∷ []) _ ms)
flatten-collect group true (assistant c t calls ∷ ms) =
    ap (◌++◌ group) (flatten-collect (assistant c t calls ∷ []) _ ms)
flatten-collect group false (m ∷ ms) = ap (◌++◌ group) (flatten-collect (m ∷ []) _ ms)

flatten-tool_call_blocks : (ms : List ChatMessage) → flatten (tool_call_blocks ms) ≡ ms
unfolding tool_call_blocks flatten
flatten-tool_call_blocks [] = refl
flatten-tool_call_blocks (m ∷ ms) = flatten-collect (m ∷ []) (requests_tools m) ms

All-IsTool-snoc :
    (ms : List ChatMessage) (t : ChatMessage) → All IsTool ms → IsTool t → All IsTool (ms ++ t ∷ [])
All-IsTool-snoc ms t h k = All-append IsTool ms (t ∷ []) h (k, tt)

-- A block that still gathers: its head requests tools.
abbrev Gathers : Bool → List ChatMessage → Type 0
Gathers gathers [] = ⊥
Gathers true (m ∷ rest) = (requests_tools m ≡ true) × All IsTool rest
Gathers false (m ∷ rest) = rest ≡ []

Gathers-IsBlock :
    (gathers : Bool) (group : List ChatMessage) → Gathers gathers group → IsBlock group
Gathers-IsBlock gathers [] h = h
Gathers-IsBlock true (m ∷ []) h = tt
Gathers-IsBlock true (m ∷ n ∷ rest) h = h
Gathers-IsBlock false (m ∷ []) h = tt
Gathers-IsBlock false (m ∷ n ∷ rest) h = cc

Gathers-single : (m : ChatMessage) → Gathers (requests_tools m) (m ∷ [])
Gathers-single m = go (requests_tools m) refl
  where
    go : (g : Bool) → requests_tools m ≡ g → Gathers g (m ∷ [])
    go true e = (e, tt)
    go false e = refl

Gathers-snoc :
    (group : List ChatMessage) (t : ChatMessage)
    → Gathers true group
    → IsTool t
    → Gathers true (group ++ t ∷ [])
Gathers-snoc [] t h k = absurd h
Gathers-snoc (m ∷ rest) t h k = (h.0, All-IsTool-snoc rest t h.1 k)

collect-IsBlock :
    (group : List ChatMessage) (gathers : Bool) (ms : List ChatMessage)
    → Gathers gathers group
    → All IsBlock (collect group gathers ms)
unfolding collect
collect-IsBlock group gathers [] h = (Gathers-IsBlock gathers group h, tt)
collect-IsBlock group true (tool id name content ∷ ms) h =
    collect-IsBlock _ true ms (Gathers-snoc group (tool id name content) h tt)
collect-IsBlock group true (system s ∷ ms) h =
    (Gathers-IsBlock true group h, collect-IsBlock _ _ ms (Gathers-single (system s)))
collect-IsBlock group true (user s ∷ ms) h =
    (Gathers-IsBlock true group h, collect-IsBlock _ _ ms (Gathers-single (user s)))
collect-IsBlock group true (assistant c t calls ∷ ms) h =
    (Gathers-IsBlock true group h, collect-IsBlock _ _ ms (Gathers-single (assistant c t calls)))
collect-IsBlock group false (m ∷ ms) h =
    (Gathers-IsBlock false group h, collect-IsBlock _ _ ms (Gathers-single m))

-- The head of a block requests tools.
abbrev pub requests : List ChatMessage → Bool
requests [] = false
requests (m ∷ rest) = requests_tools m

abbrev pub StartsWithTool : List ChatMessage → Type 0
StartsWithTool [] = ⊥
StartsWithTool (m ∷ rest) = IsTool m

-- The block behind one, if there is one, does not start with a tool message that belongs to it.
abbrev pub EndsBefore : List ChatMessage → List (List ChatMessage) → Type 0
EndsBefore g [] = Unit
EndsBefore g (h ∷ hs) = requests g ≡ true → ¬ StartsWithTool h

-- Every block takes all the tool messages that it may take.
abbrev pub AreWhole : List (List ChatMessage) → Type 0
AreWhole [] = Unit
AreWhole (g ∷ gs) = EndsBefore g gs × AreWhole gs

-- The first block starts with the message.
abbrev Leads : ChatMessage → List (List ChatMessage) → Type 0
Leads m [] = ⊥
Leads m ([] ∷ gs) = ⊥
Leads m ((n ∷ rest) ∷ gs) = n ≡ m

collect-Leads :
    (m : ChatMessage) (rest : List ChatMessage) (gathers : Bool) (ms : List ChatMessage)
    → Leads m (collect (m ∷ rest) gathers ms)
unfolding collect
collect-Leads m rest gathers [] = refl
collect-Leads m rest true (tool id name content ∷ ms) =
    collect-Leads m (rest ++ tool id name content ∷ []) true ms
collect-Leads m rest true (system s ∷ ms) = refl
collect-Leads m rest true (user s ∷ ms) = refl
collect-Leads m rest true (assistant c t calls ∷ ms) = refl
collect-Leads m rest false (n ∷ ms) = refl

Leads-EndsBefore :
    (g : List ChatMessage) (m : ChatMessage) (gs : List (List ChatMessage))
    → ¬ IsTool m
    → Leads m gs
    → EndsBefore g gs
Leads-EndsBefore g m [] other leads = tt
Leads-EndsBefore g m ([] ∷ gs) other leads = absurd leads
Leads-EndsBefore g m ((n ∷ rest) ∷ gs) other leads =
    λ asks starts. other (subst IsTool leads starts)

gathers_none :
    (g : List ChatMessage) (gs : List (List ChatMessage)) → requests g ≡ false → EndsBefore g gs
gathers_none g [] e = tt
gathers_none g (h ∷ gs) e = λ asks. cc

collect-AreWhole :
    (m : ChatMessage) (rest : List ChatMessage) (gathers : Bool) (ms : List ChatMessage)
    → requests_tools m ≡ gathers
    → AreWhole (collect (m ∷ rest) gathers ms)
unfolding collect
collect-AreWhole m rest gathers [] e = (tt, tt)
collect-AreWhole m rest true (tool id name content ∷ ms) e =
    collect-AreWhole m (rest ++ tool id name content ∷ []) true ms e
collect-AreWhole m rest true (system s ∷ ms) e = (
  Leads-EndsBefore (m ∷ rest) (system s) _ (λ t. t) (collect-Leads (system s) [] _ ms),
  collect-AreWhole (system s) [] _ ms refl,
)
collect-AreWhole m rest true (user s ∷ ms) e = (
  Leads-EndsBefore (m ∷ rest) (user s) _ (λ t. t) (collect-Leads (user s) [] _ ms),
  collect-AreWhole (user s) [] _ ms refl,
)
collect-AreWhole m rest true (assistant c t calls ∷ ms) e = (
  Leads-EndsBefore (m ∷ rest) (assistant c t calls) _ (λ t. t)
      (collect-Leads (assistant c t calls) [] _ ms),
  collect-AreWhole (assistant c t calls) [] _ ms refl,
)
collect-AreWhole m rest false (n ∷ ms) e =
    (gathers_none (m ∷ rest) _ e, collect-AreWhole n [] _ ms refl)

-- The blocks of a conversation are the conversation, in order; every block is one message, or an
-- assistant's request for tools with tool messages behind it; and the block next to one that starts
-- with a request does not start with a tool message.
pub tool_call_blocks-IsBlock :
    (ms : List ChatMessage)
    → (flatten (tool_call_blocks ms) ≡ ms)
      × All IsBlock (tool_call_blocks ms)
      × AreWhole (tool_call_blocks ms)
unfolding tool_call_blocks
tool_call_blocks-IsBlock [] = (flatten-tool_call_blocks [], tt, tt)
tool_call_blocks-IsBlock (m ∷ ms) = (
  flatten-tool_call_blocks (m ∷ ms),
  collect-IsBlock _ _ ms (Gathers-single m),
  collect-AreWhole m [] (requests_tools m) ms refl,
)

pub IsBlock-IsNonempty : (g : List ChatMessage) → IsBlock g → is_empty g ≡ false
IsBlock-IsNonempty [] h = absurd h
IsBlock-IsNonempty (m ∷ g) h = refl
