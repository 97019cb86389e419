-- ===== src/Security/Policy.antt =====
-- applyDefaults and Validate of internal/policy/security.go.
use newser.Prelude.{
  ℕ, String, Option, none, some, List, [], ◌∷◌, if◌then◌else◌, is_empty, trim_space, is_nil, not,
  ◌&&◌, contains,
}
use newser.Prelude.Int.{ℤ, pos, ltb_ℤ}
use newser.Prelude.Floats.{FloatOps}
use newser.Security.{normalize_host, SandboxPolicy, Reading, parse_memory, parse_duration_string}

-- The settings of `config.SecurityConfig` that the defaults come from; `default_timeout` with the
-- text that `Duration.String` gives for it.
pub record SecurityConfig (F : Type 0) : Type 0 where
  pub sandbox_provider : String
  pub default_cpu : F
  pub default_memory : String
  pub default_timeout : ℤ
  pub default_timeout_text : String

pub data PolicyError : Type 0 where
  provider_required cpu_not_positive max_cpu_below_cpu : PolicyError
  memory_invalid max_memory_invalid memory_exceeds : PolicyError
  timeout_invalid max_timeout_invalid timeout_exceeds : PolicyError
  empty_command : PolicyError

unfoldable pub first_nonempty : List String → String
first_nonempty [] = ""
first_nonempty (v ∷ vs) =
    let rest = first_nonempty vs in if is_empty (trim_space v) then rest else v

-- The loop of `sanitizeList`, with the lower-case texts it has seen.
unfoldable pub sanitize : (String → String) → List String → List String → List String
sanitize to_lower seen [] = []
sanitize to_lower seen (raw ∷ items) =
    let val = trim_space raw in
    let skipped = sanitize to_lower seen items in
    let kept = val ∷ sanitize to_lower (to_lower val ∷ seen) items in
    if is_empty val then skipped else if contains (to_lower val) seen then skipped else kept

unfoldable pub sanitize_list : (String → String) → List String → List String
unfolding sanitize
sanitize_list to_lower items = sanitize to_lower [] items

-- `sanitizeHosts` drops what `normalizeHost` makes equal.
unfoldable pub sanitize_hosts : (String → String) → List String → List String → List String
sanitize_hosts normalize seen [] = []
sanitize_hosts normalize seen (raw ∷ items) =
    let host = normalize raw in
    let skipped = sanitize_hosts normalize seen items in
    let kept = host ∷ sanitize_hosts normalize (host ∷ seen) items in
    if is_empty host then skipped else if contains host seen then skipped else kept

module _ {F : Type 0} (fl : FloatOps F) (rd : Reading F) where
  unfoldable pub default_cpus : F → SandboxPolicy F String → SandboxPolicy F String
  default_cpus default s =
      let cpu = if fl.le_f s.cpu fl.zero_f then default else s.cpu in
      let max_cpu = if fl.le_f s.max_cpu fl.zero_f then default else s.max_cpu in
      record s { cpu = cpu; max_cpu = if fl.lt_f max_cpu cpu then cpu else max_cpu }

  unfoldable pub default_texts : SecurityConfig F → SandboxPolicy F String → SandboxPolicy F String
  unfolding first_nonempty
  default_texts cfg s =
      let memory = trim_space (first_nonempty (s.memory ∷ cfg.default_memory ∷ [])) in
      let timeout =
        if is_empty s.timeout && ltb_ℤ (pos 0) cfg.default_timeout
        then cfg.default_timeout_text
        else s.timeout in
      record s {
        provider = if is_empty s.provider then cfg.sandbox_provider else s.provider;
        memory = memory;
        max_memory = trim_space (first_nonempty (s.max_memory ∷ memory ∷ []));
        timeout = timeout;
        max_timeout = if is_empty s.max_timeout then timeout else s.max_timeout;
      }

  unfoldable pub default_lists : SandboxPolicy F String → SandboxPolicy F String
  unfolding sanitize_list sanitize_hosts normalize_host
  default_lists s =
      let images =
        if not (is_empty s.image) && is_nil s.image_allowlist
        then s.image ∷ []
        else s.image_allowlist in
      record s {
        image_allowlist = sanitize_list rd.to_lower images;
        command_allowlist = sanitize_list rd.to_lower s.command_allowlist;
        env_allowlist = sanitize_list rd.to_lower s.env_allowlist;
        env_denylist = sanitize_list rd.to_lower s.env_denylist;
        mount_readonly = sanitize_list rd.to_lower s.mount_readonly;
        network = record s.network {
          allowlist = sanitize_hosts (normalize_host rd) [] s.network.allowlist;
          denylist = sanitize_hosts (normalize_host rd) [] s.network.denylist;
        };
      }

  unfoldable pub apply_defaults : SecurityConfig F → SandboxPolicy F String → SandboxPolicy F String
  unfolding default_cpus default_texts default_lists
  apply_defaults cfg s = default_lists (default_texts cfg (default_cpus cfg.default_cpu s))

  abbrev pub value_or : {A : Type 0} → A → Option A → A
  value_or default none = default
  value_or default (some a) = a

  -- The memory part on its three parses, of which the last counts as 0 where it fails.
  memory_error : Option F → Option F → Option F → Option PolicyError
  memory_error none limit again = some memory_invalid
  memory_error (some m) none again = some max_memory_invalid
  memory_error (some m) (some limit) again =
      let bytes = value_or fl.zero_f again in
      if fl.lt_f fl.zero_f limit && fl.lt_f fl.zero_f bytes && fl.lt_f limit bytes
      then some memory_exceeds
      else none

  timeout_error : Option ℤ → Option ℤ → Option PolicyError
  timeout_error none limit = some timeout_invalid
  timeout_error (some t) none = some max_timeout_invalid
  timeout_error (some t) (some limit) =
      if ltb_ℤ (pos 0) limit && ltb_ℤ limit t then some timeout_exceeds else none

  abbrev first_error : Option PolicyError → Option PolicyError → Option PolicyError
  first_error none e = e
  first_error (some d) e = some d

  -- `Validate`. Each parse of a memory size ranges over the units anew: `u1`, `u2` and `u3` are the
  -- orders of the three, of which the third repeats the first text.
  unfoldable pub validate_policy :
      List (String × ℕ)
      → List (String × ℕ)
      → List (String × ℕ)
      → SandboxPolicy F String
      → Option PolicyError
  unfolding memory_error timeout_error parse_memory parse_duration_string
  validate_policy u1 u2 u3 s =
      if is_empty (trim_space s.provider)
      then some provider_required
      else if fl.le_f s.cpu fl.zero_f
      then some cpu_not_positive
      else if fl.lt_f s.max_cpu s.cpu
      then some max_cpu_below_cpu
      else (first_error
          (memory_error (parse_memory fl rd u1 s.memory) (parse_memory fl rd u2 s.max_memory)
            (parse_memory fl rd u3 s.memory))
          (first_error
            (timeout_error (parse_duration_string s.timeout) (parse_duration_string s.max_timeout))
            (if contains "" s.command_allowlist then some empty_command else none)))
