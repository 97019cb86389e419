-- ===== src/Policies/Rules.antt =====
-- What a validated crawl policy says of a host.
use newser.Prelude.{
  ◌≡◌, refl, subst, false, ◌&&◌, not, String, Option, none, some, List, [], ◌∷◌, contains, is_empty,
  eq_iff, arith, All,
}
use newser.Store.{reply}
use newser.Policies.{PolicyError}
use newser.Policies.Hosts.{HostReading, normalize_host}
use newser.Policies.Crawl.{
  CrawlPolicyConfig, CrawlPolicy, host_set, first_in, paywall_error, normalize_crawl,
  validate_crawl, crawl_policy_of, checked_crawl, or_error, conflict_error, new_crawl_policy,
  is_allowed, is_disallowed, requires_paywall,
}

first_in-none :
    (known hosts : List String) (k : String)
    → first_in known hosts ≡ none
    → (contains k hosts && contains k known) ≡ false
unfolding first_in
first_in-none known [] k h = refl
first_in-none known (host ∷ hosts) k h = ground (arith, eq_iff host k, first_in-none known hosts k)

paywall_error-none :
    (disallow hosts : List String) (k : String)
    → paywall_error disallow hosts ≡ none
    → (contains k hosts && contains k disallow) ≡ false
unfolding paywall_error
paywall_error-none disallow [] k h = refl
paywall_error-none disallow (host ∷ hosts) k h =
    ground (arith, eq_iff host k, paywall_error-none disallow hosts k)

-- Hosts that are not empty, and that the policy leaves as they are.
abbrev pub Plain : HostReading → List String → Type 0
Plain text hosts = All (λ h. (normalize_host text h ≡ h) × (is_empty h ≡ false)) hosts

contains-host_set :
    (text : HostReading) (hosts : List String) (k : String)
    → Plain text hosts
    → contains k (host_set (normalize_host text) hosts) ≡ contains k hosts
unfolding host_set
contains-host_set text [] k plain = refl
contains-host_set text (host ∷ hosts) k plain =
    rw plain.0.0 (ground (arith, plain.0.1, eq_iff host k, contains-host_set text hosts k plain.1))

or_error-none : (a b : Option PolicyError) → or_error a b ≡ none → (a ≡ none) × (b ≡ none)
or_error-none none b h = (refl, h)
or_error-none (some e) b h = absurd (cc)

conflict_error-none : (o : Option String) → conflict_error o ≡ none → o ≡ none
conflict_error-none none h = refl
conflict_error-none (some host) h = absurd (cc)

checked_crawl-reply :
    (text : HostReading) (norm : CrawlPolicyConfig) (e : Option PolicyError) (p : CrawlPolicy)
    → checked_crawl text norm e ≡ reply p
    → (e ≡ none) × (crawl_policy_of text norm ≡ p)
checked_crawl-reply text norm (some e) p h = absurd (cc)
checked_crawl-reply text norm none p h = (refl, cc)

validate_crawl-none :
    (norm : CrawlPolicyConfig) (k : String)
    → validate_crawl norm ≡ none
    → ((contains k norm.disallow && contains k norm.allow) ≡ false)
      × ((contains k norm.paywall && contains k norm.disallow) ≡ false)
unfolding validate_crawl
validate_crawl-none norm k h =
    let (no_conflict, rest) = or_error-none _ _ h in
    let (no_paywall, notes) = or_error-none _ _ rest in
    (
      first_in-none norm.allow norm.disallow k (conflict_error-none _ no_conflict),
      paywall_error-none norm.disallow norm.paywall k no_paywall,
    )

-- What the three questions answer for a host, by the normalised lists `norm` of the configuration.
abbrev pub Answers : HostReading → CrawlPolicyConfig → CrawlPolicy → String → Type 0
Answers text norm p host =
    let h = normalize_host text host in
    (is_disallowed text p host ≡ (not (is_empty h) && contains h norm.disallow))
    × (is_allowed text p host ≡ (not (is_empty h) && contains h norm.allow))
    × (requires_paywall text p host ≡ (not (is_empty h) && contains h norm.paywall))
    × ((is_disallowed text p host && is_allowed text p host) ≡ false)
    × ((is_disallowed text p host && requires_paywall text p host) ≡ false)

crawl_policy_of-Answers :
    (text : HostReading) (norm : CrawlPolicyConfig) (host : String)
    → validate_crawl norm ≡ none
    → Plain text norm.allow
    → Plain text norm.disallow
    → Plain text norm.paywall
    → normalize_host text (normalize_host text host) ≡ normalize_host text host
    → Answers text norm (crawl_policy_of text norm) host
unfolding is_disallowed is_allowed requires_paywall
crawl_policy_of-Answers text norm host valid a d w stable =
    let h = normalize_host text host in
    let (apart, unpaid) = validate_crawl-none norm h valid in
    let in_allow = contains-host_set text norm.allow h a in
    let in_disallow = contains-host_set text norm.disallow h d in
    let in_paywall = contains-host_set text norm.paywall h w in
    rw stable (
      rw (in_allow, in_disallow, in_paywall)
        (
          ground (arith, apart, unpaid),
          refl,
          refl,
          ground (arith, apart, unpaid),
          ground (arith, apart, unpaid),
        ))

-- A policy that NewCrawlPolicy makes, where the hosts of the normalised lists are not changed by the
-- policy's own normalisation and that of the asked host is stable: a host is disallowed, allowed or
-- behind a paywall exactly when the list of this name has it, and a host that is disallowed is
-- neither allowed nor behind a paywall.
pub new_crawl_policy-Answers :
    (text : HostReading) (c : CrawlPolicyConfig) (p : CrawlPolicy) (host : String)
    → new_crawl_policy text c ≡ reply p
    → Plain text (normalize_crawl text c).allow
    → Plain text (normalize_crawl text c).disallow
    → Plain text (normalize_crawl text c).paywall
    → normalize_host text (normalize_host text host) ≡ normalize_host text host
    → Answers text (normalize_crawl text c) p host
unfolding new_crawl_policy
new_crawl_policy-Answers text c p host made a d w stable =
    let (valid, same) =
      checked_crawl-reply text (normalize_crawl text c) (validate_crawl (normalize_crawl text c)) p
        made in
    subst (λ q. Answers text (normalize_crawl text c) q host) same
      (crawl_policy_of-Answers text (normalize_crawl text c) host valid a d w stable)
