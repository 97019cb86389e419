-- ===== src/Tests/Capability.antt =====
-- The registry on two cards of one type.
use newser.Prelude.{
  ℕ, ◌≡◌, ◌↔◌, refl, true, String, none, some, List, [], ◌∷◌, str_eq, if◌then◌else◌,
}
use newser.Prelude.Int.{ℤ, pos}
use newser.Value.{end}
use newser.Capability.{ToolCard, Tools}
use newser.Capability.Versions.{version_greater, split_version}
use newser.Capability.Order.{version_greater_iff, exceeds_at}
use newser.Capability.Registry.{Registry}

abbrev scan_int : String → ℤ
scan_int s =
    if str_eq s "10"
    then pos 10
    else if str_eq s "9"
    then pos 9
    else if str_eq s "1"
    then pos 1
    else pos 0

abbrev tools : Tools ℕ
tools = record {
  schema_error = λ m. none;
  digest = λ m. some "sum";
  mac = λ secret checksum. "mac";
  equal_fold = λ a b. str_eq a b;
  scan_int = scan_int;
}

abbrev card : String → ToolCard ℕ
card version = record {
  name = "research";
  version = version;
  description = "";
  agent_type = "research";
  input_schema = some end;
  output_schema = some end;
  cost_estimate = 0;
  side_effects = [];
  checksum = "sum";
  signature = "mac";
}

abbrev cards : List (ToolCard ℕ)
cards = card "v1.9" ∷ card "v1.10" ∷ card "v1" ∷ []

abbrev newest : Registry ℕ
newest = ("research", card "v1.10") ∷ []

-- The ninth minor version is older than the tenth.
newer : version_greater scan_int "v1.10" "v1.9" ≡ true
unfolding version_greater
newer = refl

version_greater_iff_example : (version_greater scan_int "v1.10" "v1.9" ≡ true) ↔ (
    (i : ℕ) × (exceeds_at i (split_version scan_int "v1.10") (split_version scan_int "v1.9")
      ≡ true))
version_greater_iff_example = version_greater_iff scan_int "v1.10" "v1.9"
