-- ===== src/Security/Sandbox.antt =====
-- SandboxEnforcer.Validate of internal/runtime/sandbox.go: the request is filled in place, also
-- where it is refused.
use newser.Prelude.{
  ℕ, String, Option, none, some, Bool, true, false, List, [], ◌∷◌, if◌then◌else◌, is_empty,
  trim_space, is_nil, not, ◌&&◌, ◌||◌, str_eq,
}
use newser.Prelude.Int.{ℤ, pos, ltb_ℤ, leb_ℤ}
use newser.Prelude.Floats.{FloatOps}
use newser.Security.{SandboxPolicy, Reading, parse_memory, contains_string_fold}

pub record SandboxRequest (F : Type 0) : Type 0 where
  pub provider : String
  pub cpu : F
  pub memory : String
  pub timeout : ℤ
  pub network_enabled : Bool
  pub image : String
  pub command : String

pub data Refusal : Type 0 where
  provider_not_allowed image_not_allowed cpu_exceeds : Refusal
  memory_invalid policy_memory_invalid memory_exceeds : Refusal
  timeout_exceeds command_not_permitted network_disabled : Refusal

abbrev pub Checked : Type 0 → Type 0
Checked F = SandboxRequest F × Option Refusal

abbrev pub and_check : {F : Type 0} → Checked F → (SandboxRequest F → Checked F) → Checked F
and_check (r, none) f = f r
and_check (r, some e) f = (r, some e)

abbrev pub refuse_unless : Bool → Refusal → Option Refusal
refuse_unless true e = none
refuse_unless false e = some e

module _ {F : Type 0} (fl : FloatOps F) (rd : Reading F) (u1 u2 : List (String × ℕ)) where
  unfoldable pub check_provider : SandboxPolicy F ℤ → SandboxRequest F → Checked F
  check_provider p r =
      let provider = if is_empty r.provider then p.provider else r.provider in
      (
        record r { provider = provider },
        refuse_unless (str_eq provider p.provider) provider_not_allowed,
      )

  -- The image asked for, or else the policy's, or else the first that is allowed.
  abbrev pub wanted_image : SandboxPolicy F ℤ → SandboxRequest F → String
  wanted_image p r =
      let image = trim_space r.image in
      if not (is_empty image)
      then image
      else if not (is_empty p.image)
      then p.image
      else (elim p.image_allowlist [ [] ↦ "" | first ∷ rest ↦ first ])

  unfoldable pub check_image : SandboxPolicy F ℤ → SandboxRequest F → Checked F
  unfolding contains_string_fold
  check_image p r =
      let image = wanted_image p r in
      let allowed = contains_string_fold rd.equal_fold p.image_allowlist image in
      let default = if is_empty r.image && not (is_empty p.image) then p.image else r.image in
      (
        record r {
          image = if is_nil p.image_allowlist then default else if allowed then image else r.image;
        },
        refuse_unless (is_nil p.image_allowlist || allowed) image_not_allowed,
      )

  abbrev pub cpu_limit : SandboxPolicy F ℤ → F
  cpu_limit p = if fl.le_f p.max_cpu fl.zero_f then p.cpu else p.max_cpu

  unfoldable pub check_cpu : SandboxPolicy F ℤ → SandboxRequest F → Checked F
  check_cpu p r =
      let cpu = if fl.le_f r.cpu fl.zero_f then p.cpu else r.cpu in
      (record r { cpu = cpu }, refuse_unless (not (fl.lt_f (cpu_limit p) cpu)) cpu_exceeds)

  abbrev pub within : Option F → Option F → Option Refusal
  within none limit = some memory_invalid
  within (some m) none = some policy_memory_invalid
  within (some m) (some limit) =
      refuse_unless (not (fl.lt_f fl.zero_f limit && fl.lt_f limit m)) memory_exceeds

  -- The two parses range over the units anew, in the orders `u1` and `u2`.
  unfoldable pub memory_refusal : SandboxPolicy F ℤ → String → Option Refusal
  unfolding parse_memory
  memory_refusal p memory =
      let limit = trim_space p.max_memory in
      if is_empty limit
      then none
      else within (parse_memory fl rd u1 memory) (parse_memory fl rd u2 limit)

  unfoldable pub check_memory : SandboxPolicy F ℤ → SandboxRequest F → Checked F
  unfolding memory_refusal
  check_memory p r =
      let memory = if is_empty (trim_space r.memory) then p.memory else r.memory in
      (record r { memory = memory }, memory_refusal p memory)

  unfoldable pub check_timeout : SandboxPolicy F ℤ → SandboxRequest F → Checked F
  check_timeout p r =
      let timeout = if leb_ℤ r.timeout (pos 0) then p.timeout else r.timeout in
      (
        record r { timeout = timeout },
        refuse_unless (not (ltb_ℤ (pos 0) p.max_timeout && ltb_ℤ p.max_timeout timeout))
            timeout_exceeds,
      )

  unfoldable pub check_command : SandboxPolicy F ℤ → SandboxRequest F → Checked F
  unfolding contains_string_fold
  check_command p r =
      let command = trim_space r.command in
      (
        r,
        refuse_unless
            (is_nil p.command_allowlist
              || is_empty command
              || contains_string_fold rd.equal_fold p.command_allowlist command)
            command_not_permitted,
      )

  unfoldable pub check_network : SandboxPolicy F ℤ → SandboxRequest F → Checked F
  check_network p r =
      (r, refuse_unless (p.network.enabled || not r.network_enabled) network_disabled)

  -- `Validate`: nothing is checked without a policy.
  unfoldable pub validate : Option (SandboxPolicy F ℤ) → SandboxRequest F → Checked F
  unfolding check_provider check_image check_cpu check_memory check_timeout check_command
      check_network
  validate none r = (r, none)
  validate (some p) r =
      and_check
        (and_check
          (and_check
            (and_check (and_check (and_check (check_provider p r) (check_image p)) (check_cpu p))
              (check_memory p))
            (check_timeout p))
          (check_command p))
        (check_network p)
