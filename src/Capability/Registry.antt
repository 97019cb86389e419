-- ===== src/Capability/Registry.antt =====
-- NewRegistry and Tool of internal/capability/registry.go.
use newser.Prelude.{
  String, Option, none, some, Bool, true, List, [], ◌∷◌, if◌then◌else◌, is_nil, is_some,
}
use newser.Prelude.Dict.{lookup, insert}
use newser.Prelude.Floats.{FloatOps}
use newser.Capability.{
  ToolCard, Tools, Registered, registry, refused, tool_invalid, tool_missing, card_error,
}
use newser.Capability.Versions.{version_greater}

abbrev pub Registry : Type 0 → Type 0
Registry F = List (String × ToolCard F)

abbrev pub default_required : List String
default_required =
    "research" ∷ "analysis" ∷ "synthesis" ∷ "conflict_detection" ∷ "highlight_management"
    ∷ "knowledge_graph" ∷ []

-- `Tool`, also of a nil registry.
unfoldable pub tool : {F : Type 0} → Option (Registry F) → String → Option (ToolCard F)
unfolding lookup
tool none agent_type = none
tool (some r) agent_type = lookup agent_type r

module _ {F : Type 0} (fl : FloatOps F) (tools : Tools F) where
  -- Whether the card takes the place of the one that is registered.
  unfoldable pub replaces : ToolCard F → Option (ToolCard F) → Bool
  unfolding version_greater
  replaces tc none = true
  replaces tc (some existing) = version_greater tools.scan_int tc.version existing.version

  unfoldable pub add_card : ToolCard F → Registry F → Registry F
  unfolding replaces lookup insert
  add_card tc r = if replaces tc (lookup tc.agent_type r) then insert tc.agent_type tc r else r

  unfoldable pub add_cards : String → List (ToolCard F) → Registry F → Registered F
  unfolding add_card
  add_cards secret [] r = registry r
  add_cards secret (tc ∷ cards) r =
      let rest = add_cards secret cards (add_card tc r) in
      elim (card_error fl tools secret tc) [
        | some e ↦ refused (tool_invalid tc.name tc.version e)
        | none ↦ rest
      ]

  unfoldable pub require_tools : List String → Registry F → Registered F
  unfolding lookup
  require_tools [] r = registry r
  require_tools (agent_type ∷ required) r =
      let rest = require_tools required r in
      if is_some (lookup agent_type r) then rest else refused (tool_missing agent_type)

  unfoldable pub required_of : List String → List String
  required_of required = if is_nil required then default_required else required

  unfoldable pub new_registry : List (ToolCard F) → String → List String → Registered F
  unfolding add_cards require_tools required_of
  new_registry cards secret required = elim (add_cards secret cards []) [
    | refused e ↦ refused e
    | registry r ↦ require_tools (required_of required) r
  ]
