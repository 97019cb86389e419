-- ===== src/Capability.antt =====
-- internal/capability/registry.go: tool cards, and the registry that keeps one of each agent type.
-- The JSON schema compiler, the hashes and the scanning of a number are those of Go's libraries and
-- of a third party, and the arguments of this model: `Tools`.
pub mod Versions
pub mod Order
pub mod Registry
pub mod Sound
use newser.Prelude.{
  String, Option, none, some, Bool, true, false, List, [], ◌∷◌, if◌then◌else◌, is_empty, trim_space,
  not, str_eq, map, is_nil, is_some, ltb, ◌≡◌,
}
use newser.Prelude.Int.{ℤ, pos, ltb_ℤ}
use newser.Prelude.Dict.{lookup, insert}
use newser.Prelude.Floats.{FloatOps}
use newser.Value.{Fields, Any, Items, end, field, text, float, object, null, array, nil, cons}

pub record ToolCard (F : Type 0) : Type 0 where
  pub name : String
  pub version : String
  pub description : String
  pub agent_type : String
  pub input_schema : Option (Fields F)
  pub output_schema : Option (Fields F)
  pub cost_estimate : F
  pub side_effects : List String
  pub checksum : String
  pub signature : String

-- What the registry calls: `schema_error` compiles a schema, `digest` is the hex SHA-256 of the
-- JSON text, `mac` the hex HMAC of a text under a secret.
pub record Tools (F : Type 0) : Type 0 where
  pub schema_error : Fields F → Option String
  pub digest : Fields F → Option String
  pub mac : String → String → String
  pub equal_fold : String → String → Bool
  pub scan_int : String → ℤ

pub data CardError : Type 0 where
  name_required version_required agent_type_required : CardError
  input_schema_required output_schema_required : CardError
  input_schema_invalid output_schema_invalid : String → CardError
  negative_cost : CardError
  checksum_missing checksum_failed checksum_mismatch : CardError
  secret_empty signature_missing signature_mismatch : CardError

pub data RegistryError : Type 0 where
  tool_invalid : String → String → CardError → RegistryError
  tool_missing : String → RegistryError

pub data Registered (F : Type 0) : Type 0 where
  registry : List (String × ToolCard F) → Registered F
  refused : RegistryError → Registered F

abbrev array_of : {F : Type 0} → List String → Items F
array_of [] = nil
array_of (s ∷ ss) = cons (text s) (array_of ss)

abbrev schema_value : {F : Type 0} → Option (Fields F) → Any F
schema_value none = null
schema_value (some m) = object m

module _ {F : Type 0} (fl : FloatOps F) (tools : Tools F) where
  -- `ComputeChecksum`: the checksum and the signature are no part of what is hashed.
  unfoldable pub compute_checksum : ToolCard F → Option String
  compute_checksum tc = tools.digest (
      field "name" (text tc.name) (
        field "version" (text tc.version) (
          field "description" (text tc.description) (
            field "agent_type" (text tc.agent_type) (
              field "input_schema" (schema_value tc.input_schema) (
                field "output_schema" (schema_value tc.output_schema) (
                  field "cost_estimate" (float tc.cost_estimate)
                    (field "side_effects" (array (array_of tc.side_effects)) end))))))))

  schema_check : CardError → (String → CardError) → Option (Fields F) → Option CardError
  schema_check missing invalid none = some missing
  schema_check missing invalid (some m) = elim (tools.schema_error m) [
    | none ↦ none
    | some e ↦ some (invalid e)
  ]

  abbrev first_error : Option CardError → Option CardError → Option CardError
  first_error none e = e
  first_error (some d) e = some d

  unfoldable pub validate_tool_card : ToolCard F → Option CardError
  unfolding schema_check
  validate_tool_card tc =
      if is_empty (trim_space tc.name)
      then some name_required
      else if is_empty (trim_space tc.version)
      then some version_required
      else if is_empty (trim_space tc.agent_type)
      then some agent_type_required
      else (first_error (schema_check input_schema_required input_schema_invalid tc.input_schema) (
          first_error (schema_check output_schema_required output_schema_invalid tc.output_schema)
            (if fl.lt_f tc.cost_estimate fl.zero_f then some negative_cost else none)))

  unfoldable pub verify_checksum : ToolCard F → Option CardError
  unfolding compute_checksum
  verify_checksum tc =
      if is_empty tc.checksum then some checksum_missing else (elim (compute_checksum tc) [
        | none ↦ some checksum_failed
        | some expected ↦
            if tools.equal_fold expected tc.checksum then none else some checksum_mismatch
      ])

  -- The error is the second component's.
  unfoldable pub sign_tool_card : ToolCard F → String → Option String × CardError
  unfolding compute_checksum
  sign_tool_card tc secret =
      if is_empty secret then (none, secret_empty) else (elim (compute_checksum tc) [
        | none ↦ (none, checksum_failed)
        | some checksum ↦ (some (tools.mac secret checksum), checksum_failed)
      ])

  unfoldable pub validate_signature : ToolCard F → String → Option CardError
  unfolding sign_tool_card
  validate_signature tc secret =
      if is_empty secret
      then none
      else if is_empty tc.signature
      then some signature_missing
      else (let (signed, e) = sign_tool_card tc secret in
          elim signed [
            | none ↦ some e
            | some expected ↦ if str_eq expected tc.signature then none else some signature_mismatch
          ])

  -- Whether the three checks pass, in the order they are made.
  unfoldable pub card_error : String → ToolCard F → Option CardError
  unfolding validate_tool_card verify_checksum validate_signature
  card_error secret tc =
      first_error (validate_tool_card tc)
        (first_error (verify_checksum tc) (validate_signature tc secret))
