-- ===== src/Security/Complies.antt =====
-- What a request that the enforcer accepts complies with.
use newser.Prelude.{
  ℕ, String, Option, none, if◌then◌else◌, some, Bool, true, false, List, [], ◌∷◌, not, ◌&&◌, ◌||◌,
  str_eq, is_empty, trim_space, is_nil, ◌≡◌, refl, arith,
}
use newser.Prelude.Int.{ℤ, pos, ltb_ℤ}
use newser.Prelude.Floats.{FloatOps}
use newser.Security.{SandboxPolicy, Reading, contains_string_fold, parse_memory}
use newser.Security.Sandbox.{
  SandboxRequest, Checked, and_check, check_provider, check_image, check_cpu, check_memory,
  check_timeout, check_command, check_network, memory_refusal, wanted_image, within, validate,
}

-- A step that passes leaves what it checked, and what a later step does not change stays.
module _ {F : Type 0} (Q : SandboxRequest F → Bool) (x : Checked F)
    (f : SandboxRequest F → Checked F) where
  and_check-none : (and_check x f).1 ≡ none → x.1 ≡ none
  and_check-none h = passed x h
    where
      passed : (x : Checked F) → (and_check x f).1 ≡ none → x.1 ≡ none
      passed (r, none) h = refl
      passed (r, some e) h = h

  own :
      ((r : SandboxRequest F) → (f r).1 ≡ none → Q (f r).0 ≡ true)
      → (and_check x f).1 ≡ none
      → Q (and_check x f).0 ≡ true
  own k h = passed x h
    where
      passed : (x : Checked F) → (and_check x f).1 ≡ none → Q (and_check x f).0 ≡ true
      passed (r, none) h = k r h
      passed (r, some e) h = ground arith

  later :
      ((r : SandboxRequest F) → Q r ≡ true → Q (f r).0 ≡ true)
      → Q x.0 ≡ true
      → Q (and_check x f).0 ≡ true
  later k q = passed x q
    where
      passed : (x : Checked F) → Q x.0 ≡ true → Q (and_check x f).0 ≡ true
      passed (r, none) q = k r q
      passed (r, some e) q = q

-- A text is on a list, but for letter case and spaces around it.
abbrev pub listed : (String → String → Bool) → List String → String → Bool
listed equal_fold [] x = false
listed equal_fold (item ∷ items) x =
    if equal_fold (trim_space item) (trim_space x) then true else listed equal_fold items x

contains_string_fold-listed :
    (equal_fold : String → String → Bool) (items : List String) (x : String)
    → contains_string_fold equal_fold items x ≡ listed equal_fold items x
unfolding contains_string_fold
contains_string_fold-listed equal_fold [] x = refl
contains_string_fold-listed equal_fold (item ∷ items) x =
    ground (arith, contains_string_fold-listed equal_fold items x)

-- Both amounts can be read, and the first is not above the second where that is positive.
abbrev pub fits : {F : Type 0} → FloatOps F → Option F → Option F → Bool
fits fl none limit = false
fits fl (some m) none = false
fits fl (some m) (some limit) = not (fl.lt_f fl.zero_f limit) || not (fl.lt_f limit m)

module _ {F : Type 0} (fl : FloatOps F) (rd : Reading F) (u1 u2 : List (String × ℕ)) where
  module _ (p : SandboxPolicy F ℤ) (r : SandboxRequest F) where
    abbrev pub provider_test : Bool
    provider_test = str_eq r.provider p.provider

    abbrev pub image_test : Bool
    image_test = is_nil p.image_allowlist || listed rd.equal_fold p.image_allowlist r.image

    abbrev pub cpu_test : Bool
    cpu_test = not (fl.lt_f (if fl.le_f p.max_cpu fl.zero_f then p.cpu else p.max_cpu) r.cpu)

    abbrev pub memory_test : Bool
    memory_test =
        is_empty (trim_space p.max_memory)
        || fits fl (parse_memory fl rd u1 r.memory)
            (parse_memory fl rd u2 (trim_space p.max_memory))

    abbrev pub timeout_test : Bool
    timeout_test = not (ltb_ℤ (pos 0) p.max_timeout && ltb_ℤ p.max_timeout r.timeout)

    abbrev pub command_test : Bool
    command_test =
        is_nil p.command_allowlist
        || is_empty (trim_space r.command)
        || listed rd.equal_fold p.command_allowlist (trim_space r.command)

    abbrev pub network_test : Bool
    network_test = p.network.enabled || not r.network_enabled

  module _ (p : SandboxPolicy F ℤ) (r : SandboxRequest F) where
    provider-ok :
        (check_provider fl rd u1 u2 p r).1 ≡ none
        → provider_test p (check_provider fl rd u1 u2 p r).0 ≡ true
    unfolding check_provider
    provider-ok h = ground arith

    image-ok :
        (check_image fl rd u1 u2 p r).1 ≡ none → image_test p (check_image fl rd u1 u2 p r).0 ≡ true
    unfolding check_image
    image-ok h = ground (
      arith,
      contains_string_fold-listed rd.equal_fold p.image_allowlist (wanted_image fl rd u1 u2 p r),
    )

    cpu-ok : (check_cpu fl rd u1 u2 p r).1 ≡ none → cpu_test p (check_cpu fl rd u1 u2 p r).0 ≡ true
    unfolding check_cpu
    cpu-ok h = ground arith

    within-fits : (m limit : Option F) → within fl rd u1 u2 m limit ≡ none → fits fl m limit ≡ true
    within-fits none limit h = absurd (cc)
    within-fits (some m) none h = absurd (cc)
    within-fits (some m) (some limit) h = ground arith

    memory-fits :
        (memory : String)
        → memory_refusal fl rd u1 u2 p memory ≡ none
        → memory_test p (record r { memory = memory }) ≡ true
    unfolding memory_refusal
    memory-fits memory h = ground (
      arith,
      within-fits (parse_memory fl rd u1 memory) (parse_memory fl rd u2 (trim_space p.max_memory)),
    )

    memory-ok :
        (check_memory fl rd u1 u2 p r).1 ≡ none
        → memory_test p (check_memory fl rd u1 u2 p r).0 ≡ true
    unfolding check_memory
    memory-ok h = memory-fits (if is_empty (trim_space r.memory) then p.memory else r.memory) h

    timeout-ok :
        (check_timeout fl rd u1 u2 p r).1 ≡ none
        → timeout_test p (check_timeout fl rd u1 u2 p r).0 ≡ true
    unfolding check_timeout
    timeout-ok h = ground arith

    command-ok :
        (check_command fl rd u1 u2 p r).1 ≡ none
        → command_test p (check_command fl rd u1 u2 p r).0 ≡ true
    unfolding check_command
    command-ok h = ground (
      arith,
      contains_string_fold-listed rd.equal_fold p.command_allowlist (trim_space r.command),
    )

    network-ok :
        (check_network fl rd u1 u2 p r).1 ≡ none
        → network_test p (check_network fl rd u1 u2 p r).0 ≡ true
    unfolding check_network
    network-ok h = ground arith

  -- A request that the enforcer accepts under a policy complies with the policy as it is handed
  -- back: its provider is the policy's; its image, and its command if it has one, are on the
  -- allowlists where these are not empty; its CPUs are not above the limit; its memory is readable
  -- and not above the limit, where a limit is given; its timeout is not above a positive limit; and
  -- it uses the network only where the policy enables it.
  pub validate-complies :
      (p : SandboxPolicy F ℤ) (r : SandboxRequest F)
      → let (r', refusal) = validate fl rd u1 u2 (some p) r in
        refusal ≡ none
        → (provider_test p r' ≡ true)
          × (image_test p r' ≡ true)
          × (cpu_test p r' ≡ true)
          × (memory_test p r' ≡ true)
          × (timeout_test p r' ≡ true)
          × (command_test p r' ≡ true)
          × (network_test p r' ≡ true)
  unfolding validate check_provider check_image check_cpu check_memory check_timeout check_command
      check_network
  validate-complies p r h =
      let x1 = check_provider fl rd u1 u2 p r in
      let x2 = and_check x1 (check_image fl rd u1 u2 p) in
      let x3 = and_check x2 (check_cpu fl rd u1 u2 p) in
      let x4 = and_check x3 (check_memory fl rd u1 u2 p) in
      let x5 = and_check x4 (check_timeout fl rd u1 u2 p) in
      let x6 = and_check x5 (check_command fl rd u1 u2 p) in
      let h6 = and_check-none (network_test p) x6 (check_network fl rd u1 u2 p) h in
      let h5 = and_check-none (network_test p) x5 (check_command fl rd u1 u2 p) h6 in
      let h4 = and_check-none (network_test p) x4 (check_timeout fl rd u1 u2 p) h5 in
      let h3 = and_check-none (network_test p) x3 (check_memory fl rd u1 u2 p) h4 in
      let h2 = and_check-none (network_test p) x2 (check_cpu fl rd u1 u2 p) h3 in
      let h1 = and_check-none (network_test p) x1 (check_image fl rd u1 u2 p) h2 in
      (
        later (provider_test p) x6 (check_network fl rd u1 u2 p) (λ s q. q)
            (later (provider_test p) x5 (check_command fl rd u1 u2 p) (λ s q. q)
              (later (provider_test p) x4 (check_timeout fl rd u1 u2 p) (λ s q. q)
                (later (provider_test p) x3 (check_memory fl rd u1 u2 p) (λ s q. q)
                  (later (provider_test p) x2 (check_cpu fl rd u1 u2 p) (λ s q. q)
                    (later (provider_test p) x1 (check_image fl rd u1 u2 p) (λ s q. q)
                      (provider-ok p r h1)))))),
        later (image_test p) x6 (check_network fl rd u1 u2 p) (λ s q. q)
            (later (image_test p) x5 (check_command fl rd u1 u2 p) (λ s q. q)
              (later (image_test p) x4 (check_timeout fl rd u1 u2 p) (λ s q. q)
                (later (image_test p) x3 (check_memory fl rd u1 u2 p) (λ s q. q)
                  (later (image_test p) x2 (check_cpu fl rd u1 u2 p) (λ s q. q)
                    (own (image_test p) x1 (check_image fl rd u1 u2 p) (image-ok p) h2))))),
        later (cpu_test p) x6 (check_network fl rd u1 u2 p) (λ s q. q)
            (later (cpu_test p) x5 (check_command fl rd u1 u2 p) (λ s q. q)
              (later (cpu_test p) x4 (check_timeout fl rd u1 u2 p) (λ s q. q)
                (later (cpu_test p) x3 (check_memory fl rd u1 u2 p) (λ s q. q)
                  (own (cpu_test p) x2 (check_cpu fl rd u1 u2 p) (cpu-ok p) h3)))),
        later (memory_test p) x6 (check_network fl rd u1 u2 p) (λ s q. q)
            (later (memory_test p) x5 (check_command fl rd u1 u2 p) (λ s q. q)
              (later (memory_test p) x4 (check_timeout fl rd u1 u2 p) (λ s q. q)
                (own (memory_test p) x3 (check_memory fl rd u1 u2 p) (memory-ok p) h4))),
        later (timeout_test p) x6 (check_network fl rd u1 u2 p) (λ s q. q)
            (later (timeout_test p) x5 (check_command fl rd u1 u2 p) (λ s q. q)
              (own (timeout_test p) x4 (check_timeout fl rd u1 u2 p) (timeout-ok p) h5)),
        later (command_test p) x6 (check_network fl rd u1 u2 p) (λ s q. q)
            (own (command_test p) x5 (check_command fl rd u1 u2 p) (command-ok p) h6),
        own (network_test p) x6 (check_network fl rd u1 u2 p) (network-ok p) h,
      )
