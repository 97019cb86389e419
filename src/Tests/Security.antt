-- ===== src/Tests/Security.antt =====
-- The sandbox at a concrete policy, with letter case left as it is.
use newser.Prelude.{
  ℕ, ◌≡◌, refl, true, false, none, some, [], ◌∷◌, str_eq, contains, distinct, if◌then◌else◌,
}
use newser.Prelude.Int.{ℤ, pos}
use newser.Security.{
  normalize_host, SandboxPolicy, Reading, unit_multipliers, parse_memory, contains_string_fold,
}
use newser.Security.Policy.{sanitize_list}
use newser.Security.Lists.{sanitize_list-distinct, keys}
use newser.Security.Sandbox.{SandboxRequest, validate}
use newser.Security.Complies.{
  provider_test, image_test, cpu_test, memory_test, timeout_test, command_test, network_test,
  validate-complies,
}
use newser.Tests.Floats.{exact}

abbrev reading : Reading ℕ
reading = record {
  to_lower = λ s. s;
  equal_fold = λ a b. str_eq a b;
  parse_float = λ s. if str_eq s "2" then some 2 else none;
  kibi = 1024;
  url_host = λ s. some "news.org";
}

abbrev policy : SandboxPolicy ℕ ℤ
policy = record {
  provider = "docker";
  image = "";
  image_allowlist = "base" ∷ [];
  cpu = 1;
  max_cpu = 2;
  memory = "2m";
  max_memory = "2g";
  timeout = pos 30;
  max_timeout = pos 60;
  network = record { enabled = false; allowlist = []; denylist = [] };
  env_allowlist = [];
  env_denylist = [];
  mount_readonly = [];
  command_allowlist = "ls" ∷ [];
}

abbrev request : SandboxRequest ℕ
request = record {
  provider = "";
  cpu = 0;
  memory = "";
  timeout = pos 0;
  network_enabled = false;
  image = "";
  command = " ls ";
}

abbrev filled : SandboxRequest ℕ
filled = record {
  provider = "docker";
  cpu = 1;
  memory = "2m";
  timeout = pos 30;
  network_enabled = false;
  image = "base";
  command = " ls ";
}

accepted :
    validate exact reading unit_multipliers unit_multipliers (some policy) request ≡ (filled, none)
unfolding validate parse_memory contains_string_fold
accepted = refl

-- The order in which the units are tried decides how a size is read: with the bytes first, `2mb`
-- leaves the number `2m`.
units_in_table_order : parse_memory exact reading unit_multipliers "2mb" ≡ some 2_097_152
unfolding parse_memory
units_in_table_order = refl

units_with_bytes_first : parse_memory exact reading (("b", 0) ∷ unit_multipliers) "2mb" ≡ none
unfolding parse_memory
units_with_bytes_first = refl

host_of_url : normalize_host reading " https://news.org/a" ≡ "news.org"
unfolding normalize_host
host_of_url = refl

host_without_www : normalize_host reading "www.news.org" ≡ "news.org"
unfolding normalize_host
host_without_www = refl

validate-complies_example :
    (provider_test exact reading unit_multipliers unit_multipliers policy filled ≡ true)
    × (image_test exact reading unit_multipliers unit_multipliers policy filled ≡ true)
    × (cpu_test exact reading unit_multipliers unit_multipliers policy filled ≡ true)
    × (memory_test exact reading unit_multipliers unit_multipliers policy filled ≡ true)
    × (timeout_test exact reading unit_multipliers unit_multipliers policy filled ≡ true)
    × (command_test exact reading unit_multipliers unit_multipliers policy filled ≡ true)
    × (network_test exact reading unit_multipliers unit_multipliers policy filled ≡ true)
unfolding validate parse_memory contains_string_fold
validate-complies_example =
    validate-complies exact reading unit_multipliers unit_multipliers policy request refl

sanitize_list-distinct_example :
    (contains "" (sanitize_list (λ s. s) (" a " ∷ "a" ∷ " " ∷ [])) ≡ false)
    × (distinct (keys (λ s. s) (sanitize_list (λ s. s) (" a " ∷ "a" ∷ " " ∷ []))) ≡ true)
sanitize_list-distinct_example = sanitize_list-distinct (λ s. s) (" a " ∷ "a" ∷ " " ∷ [])
