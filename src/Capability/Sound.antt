-- ===== src/Capability/Sound.antt =====
-- What NewRegistry of internal/capability/registry.go makes of its cards.
use newser.Prelude.{
  String, none, some, Bool, true, false, List, [], ◌∷◌, not, is_some, ◌≡◌, ◌&&◌, ◌⊎◌,
}
use newser.Prelude.Dict.{lookup}
use newser.Prelude.Floats.{FloatOps}
use newser.Capability.{ToolCard, Tools, card_error}
use newser.Capability.Versions.{version_greater}
use newser.Capability.Registry.{Registry, tool}

-- The card is one of these.
abbrev pub Among : {F : Type 0} → ToolCard F → List (ToolCard F) → Type 0
Among card [] = ⊥
Among card (c ∷ cs) = (card ≡ c) ⊎ Among card cs

-- Every entry is one of the cards as it was given, under its agent type.
abbrev pub AllGiven : {F : Type 0} → List (ToolCard F) → Registry F → Type 0
AllGiven cards [] = Unit
AllGiven cards ((agent_type, card) ∷ r) =
    Among card cards × (card.agent_type ≡ agent_type) × AllGiven cards r

module _ {F : Type 0} (fl : FloatOps F) (tools : Tools F) where
  abbrev pub all_pass : String → List (ToolCard F) → Bool
  all_pass secret [] = true
  all_pass secret (card ∷ cards) =
      not (is_some (card_error fl tools secret card)) && all_pass secret cards

  -- The registered card of the type is no older than this one.
  abbrev pub covers : Registry F → ToolCard F → Bool
  unfolding lookup
  covers r card = elim (lookup card.agent_type r) [
    | none ↦ false
    | some tc ↦ not (version_greater tools.scan_int card.version tc.version)
  ]

  abbrev pub all_covered : Registry F → List (ToolCard F) → Bool
  all_covered r [] = true
  all_covered r (card ∷ cards) = covers r card && all_covered r cards

  abbrev pub all_required : List String → Registry F → Bool
  unfolding tool
  all_required [] r = true
  all_required (t ∷ ts) r = is_some (tool (some r) t) && all_required ts r
