-- ===== src/Memory/Texts.antt =====
-- The texts of memory items: deltaText, lookupString, extractDeltaIDs and deriveFallbackSummary of
-- internal/memory/manager/manager.go.
use newser.Prelude.{
  String, Option, none, some, List, [], ◌∷◌, ◌++◌, ltb, leb, if◌then◌else◌, trim_space, is_empty,
  byte_length, byte_prefix, first_line, join, append, length,
}
use newser.Value.{Any, text, Fields, end, field, get, as_text}
use newser.Memory.{DeltaItem, EpisodeTexts}

trimmed_text : Option String → Option String
trimmed_text none = none
trimmed_text (some s) = let t = trim_space s in if is_empty t then none else some t

joined_parts : List String → String
joined_parts [] = ""
joined_parts (p ∷ parts) =
    let joined = join "\n" (p ∷ parts) in
    if ltb 4096 (byte_length joined) then byte_prefix 4096 joined else joined

abbrev extended : List String → Option String → List String
extended parts none = parts
extended parts (some p) = parts ++ p ∷ []

module _ {F : Type 0} where
  -- `lookupString`.
  unfoldable pub lookup_string : Fields F → String → Option String
  unfolding get trimmed_text
  lookup_string m key = trimmed_text (as_text (get key m))

  -- The first of the keys that either map has a text for, the payload first.
  first_text : Fields F → Fields F → List String → Option String
  unfolding lookup_string
  first_text payload metadata [] = none
  first_text payload metadata (key ∷ keys) =
      let more = first_text payload metadata keys in
      elim (lookup_string payload key) [
        | some t ↦ some t
        | none ↦ elim (lookup_string metadata key) [ some t ↦ some t | none ↦ more ]
      ]

  abbrev part_of : String → Any F → Option String
  part_of key (text s) =
      let t = trim_space s in if is_empty t then none else some (append key (append ": " t))
  part_of key v = none

  -- The loop over the payload, in the order in which Go ranges over it, until there are three parts.
  text_parts : Fields F → List String → List String
  text_parts end parts = parts
  text_parts (field key v m) parts =
      let parts' = extended parts (part_of key v) in
      let more = text_parts m parts' in if leb 3 (length parts') then parts' else more

  -- `deltaText`.
  unfoldable pub delta_text : DeltaItem F → String
  unfolding first_text text_parts joined_parts
  delta_text item =
      let keys = "text" ∷ "summary" ∷ "content" ∷ "body" ∷ "description" ∷ [] in
      elim (first_text item.payload item.metadata keys) [
        | some t ↦ t
        | none ↦ joined_parts (text_parts item.payload [])
      ]

  -- The id of an item or else its hash, as Delta and extractDeltaIDs both read it.
  unfoldable pub key_of : DeltaItem F → String
  key_of item = let id = trim_space item.id in if is_empty id then trim_space item.hash else id

  -- `extractDeltaIDs`.
  unfoldable pub extract_delta_ids : List (DeltaItem F) → List String
  unfolding key_of
  extract_delta_ids [] = []
  extract_delta_ids (item ∷ items) =
      let ids = extract_delta_ids items in if is_empty (key_of item) then ids else key_of item ∷ ids

-- `deriveFallbackSummary`. The report has no line break in front once it is trimmed.
unfoldable pub derive_fallback_summary : EpisodeTexts → String
derive_fallback_summary res =
    let line = first_line (trim_space res.detailed_report) in
    if ltb 320 (byte_length line) then byte_prefix 320 line else line
