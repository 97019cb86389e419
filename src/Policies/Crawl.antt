-- ===== src/Policies/Crawl.antt =====
-- CrawlPolicy of internal/policy/policy.go, with its configuration in config/crawl_policy.go.
use newser.Prelude.{
  Bool, ◌||◌, ◌&&◌, not, String, Option, none, some, List, [], ◌∷◌, contains, if◌then◌else◌,
  is_empty, trim_space,
}
use newser.Prelude.Dict.{lookup, insert, sort, text_le}
use newser.Store.{Reply, reply, fault}
use newser.Policies.{
  PolicyError, allowed_and_disallowed, disallowed_and_paywall, empty_paywall_host,
  empty_attribution_host,
}
use newser.Policies.Hosts.{HostReading, normalize_host, normalize_config_host}

pub record CrawlPolicyConfig : Type 0 where
  pub respect_robots : Bool
  pub allow : List String
  pub disallow : List String
  pub paywall : List String
  pub attribution : List (String × String)

-- `CrawlPolicy`; a set is the list of its members.
pub record CrawlPolicy : Type 0 where
  pub respect_robots : Bool
  pub allow : List String
  pub disallow : List String
  pub paywall : List String
  pub attribution : List (String × String)

-- The hosts that are not empty once they are normalised, each once.
unfoldable pub host_set : (String → String) → List String → List String
host_set norm [] = []
host_set norm (v ∷ vs) =
    let rest = host_set norm vs in
    if is_empty (norm v) || contains (norm v) rest then rest else norm v ∷ rest

-- The entries with normalised keys; of two with one key that which Go's loop meets last stays, the
-- first here.
unfoldable pub normalize_notes :
    (String → String) → (String → String) → List (String × String) → List (String × String)
unfolding insert
normalize_notes norm trim [] = []
normalize_notes norm trim ((host, note) ∷ notes) =
    let rest = normalize_notes norm trim notes in
    if is_empty (norm host) then rest else insert (norm host) (trim note) rest

-- The first of the hosts that is in the set.
unfoldable pub first_in : List String → List String → Option String
first_in known [] = none
first_in known (host ∷ hosts) =
    let more = first_in known hosts in if contains host known then some host else more

unfoldable pub paywall_error : List String → List String → Option PolicyError
paywall_error disallow [] = none
paywall_error disallow (host ∷ hosts) =
    let more = paywall_error disallow hosts in
    if is_empty host
    then some empty_paywall_host
    else if contains host disallow
    then some (disallowed_and_paywall host)
    else more

unfoldable pub attribution_error :
    List String → List String → List (String × String) → Option PolicyError
attribution_error allow disallow [] = none
attribution_error allow disallow ((host, note) ∷ notes) =
    let more = attribution_error allow disallow notes in
    if contains host allow || contains host disallow
    then more
    else if is_empty host
    then some empty_attribution_host
    else more

abbrev pub or_error : Option PolicyError → Option PolicyError → Option PolicyError
or_error none e = e
or_error (some x) e = some x

abbrev pub conflict_error : Option String → Option PolicyError
conflict_error none = none
conflict_error (some host) = some (allowed_and_disallowed host)

-- `CrawlPolicyConfig.Validate`, on the normalised configuration.
unfoldable pub validate_crawl : CrawlPolicyConfig → Option PolicyError
validate_crawl norm = or_error (conflict_error (first_in norm.allow norm.disallow)) (
    or_error (paywall_error norm.disallow norm.paywall)
      (attribution_error norm.allow norm.disallow norm.attribution))

module _ (text : HostReading) where
  -- `sanitizeDomainList`.
  unfoldable pub sanitize_domain_list : List String → List String
  unfolding host_set sort
  sanitize_domain_list values = sort text_le (host_set (normalize_config_host text) values)

  -- `CrawlPolicyConfig.Normalize`.
  unfoldable pub normalize_crawl : CrawlPolicyConfig → CrawlPolicyConfig
  unfolding normalize_notes
  normalize_crawl c = record c {
    allow = sanitize_domain_list c.allow;
    disallow = sanitize_domain_list c.disallow;
    paywall = sanitize_domain_list c.paywall;
    attribution = normalize_notes (normalize_config_host text) trim_space c.attribution;
  }

  abbrev pub crawl_policy_of : CrawlPolicyConfig → CrawlPolicy
  crawl_policy_of norm = record {
    respect_robots = norm.respect_robots;
    allow = host_set (normalize_host text) norm.allow;
    disallow = host_set (normalize_host text) norm.disallow;
    paywall = host_set (normalize_host text) norm.paywall;
    attribution = normalize_notes (normalize_host text) (λ note. note) norm.attribution;
  }

  abbrev pub checked_crawl : CrawlPolicyConfig → Option PolicyError → Reply PolicyError CrawlPolicy
  checked_crawl norm (some e) = fault e
  checked_crawl norm none = reply (crawl_policy_of norm)

  -- `NewCrawlPolicy`.
  unfoldable pub new_crawl_policy : CrawlPolicyConfig → Reply PolicyError CrawlPolicy
  new_crawl_policy c = checked_crawl (normalize_crawl c) (validate_crawl (normalize_crawl c))

  abbrev listed_in : List String → String → Bool
  listed_in hosts host = let h = normalize_host text host in not (is_empty h) && contains h hosts

  -- `IsAllowed`.
  unfoldable pub is_allowed : CrawlPolicy → String → Bool
  is_allowed p host = listed_in p.allow host

  -- `IsDisallowed`.
  unfoldable pub is_disallowed : CrawlPolicy → String → Bool
  is_disallowed p host =
      let h = normalize_host text host in
      not (is_empty h) && contains h p.disallow && not (is_allowed p h)

  -- `RequiresPaywall`.
  unfoldable pub requires_paywall : CrawlPolicy → String → Bool
  requires_paywall p host = listed_in p.paywall host

  -- `Attribution`.
  unfoldable pub attribution : CrawlPolicy → String → Option String
  attribution p host =
      let h = normalize_host text host in if is_empty h then none else lookup h p.attribution
