-- ===== src/Tests/Policies.antt =====
-- Fairness on exact numbers.
use newser.Prelude.{ℕ, ◌-◌, ◌≡◌, refl, true, false, none, some, [], ◌∷◌}
use newser.Store.{reply, fault}
use newser.Prelude.Dict.{lookup, sort}
use newser.Policies.Hosts.{HostReading, normalize_host, normalize_config_host}
use newser.Policies.Fairness.{
  FairnessConfig, FairnessPolicy, FairnessAlerts, new_fairness_policy, adjust, normalize_fairness,
  validate_fairness, clamp01,
}
use newser.Policies.Crawl.{
  CrawlPolicyConfig, CrawlPolicy, new_crawl_policy, normalize_crawl, sanitize_domain_list, host_set,
  normalize_notes, validate_crawl, first_in, paywall_error, attribution_error,
}
use newser.Policies.Rules.{Plain, Answers, new_crawl_policy-Answers}
use newser.Policies.{allowed_and_disallowed}
use newser.Policies.Bounds.{adjust_bounds}
use newser.Tests.Floats.{exact, exact_laws}

abbrev reading : HostReading
reading = record { to_lower = λ s. s; url_host = λ s. none }

abbrev alerts : FairnessAlerts ℕ
alerts = record { low_credibility = 0; high_bias = 1 }

abbrev config : FairnessConfig ℕ
config = record {
  enabled = true;
  baseline_credibility = 3;
  min_credibility = 1;
  bias_adjustment_range = 0;
  domain_bias = ("www.a", 5) ∷ [];
  alerts = alerts;
}

abbrev policy : FairnessPolicy ℕ
policy = record {
  enabled = true;
  baseline = 1;
  min_credibility = 1;
  bias_range = 0;
  domain_bias = ("www.a", 1) ∷ [];
  alerts = alerts;
}

made : new_fairness_policy exact reading 1 config ≡ reply policy
unfolding new_fairness_policy validate_fairness normalize_fairness clamp01
made = refl

adjust_bounds_example :
    (exact.lt_f (adjust exact reading (some policy) "b" 0 2).0 0 ≡ false)
    × (exact.lt_f 1 (adjust exact reading (some policy) "b" 0 2).0 ≡ false)
    × (exact.lt_f (adjust exact reading (some policy) "b" 0 2).0 1 ≡ false)
    × ((adjust exact reading (some policy) "b" 0 2).1
        ≡ (adjust exact reading (some policy) "b" 0 2).0 - 0)
adjust_bounds_example =
    adjust_bounds exact exact_laws refl reading 1 config policy "b" 0 2 made refl

-- A bias configured for a host with www. is kept under that name, and looked up without it.
www_bias_lost : lookup (normalize_host reading "www.a") policy.domain_bias ≡ none
unfolding lookup normalize_host
www_bias_lost = refl

abbrev crawl : CrawlPolicyConfig
crawl = record {
  respect_robots = true;
  allow = "a" ∷ "www.a" ∷ [];
  disallow = "b" ∷ [];
  paywall = "c" ∷ [];
  attribution = [];
}

abbrev crawl_policy : CrawlPolicy
crawl_policy = record {
  respect_robots = true;
  allow = "a" ∷ [];
  disallow = "b" ∷ [];
  paywall = "c" ∷ [];
  attribution = [];
}

crawl_made : new_crawl_policy reading crawl ≡ reply crawl_policy
unfolding new_crawl_policy normalize_crawl sanitize_domain_list host_set sort normalize_notes
    validate_crawl first_in paywall_error attribution_error normalize_host normalize_config_host
crawl_made = refl

Plain-allow : Plain reading (normalize_crawl reading crawl).allow
unfolding normalize_crawl sanitize_domain_list host_set sort normalize_host normalize_config_host
Plain-allow = ((refl, refl), tt)

Plain-disallow : Plain reading (normalize_crawl reading crawl).disallow
unfolding normalize_crawl sanitize_domain_list host_set sort normalize_host normalize_config_host
Plain-disallow = ((refl, refl), tt)

Plain-paywall : Plain reading (normalize_crawl reading crawl).paywall
unfolding normalize_crawl sanitize_domain_list host_set sort normalize_host normalize_config_host
Plain-paywall = ((refl, refl), tt)

stable : normalize_host reading (normalize_host reading "www.b") ≡ normalize_host reading "www.b"
unfolding normalize_host
stable = refl

new_crawl_policy-Answers_example :
    Answers reading (normalize_crawl reading crawl) crawl_policy "www.b"
new_crawl_policy-Answers_example =
    new_crawl_policy-Answers reading crawl crawl_policy "www.b" crawl_made Plain-allow
      Plain-disallow Plain-paywall stable

-- A host that is on two lists is refused.
crawl_conflict :
    new_crawl_policy reading (record crawl { disallow = "A" ∷ "a" ∷ [] })
    ≡ fault (allowed_and_disallowed "a")
unfolding new_crawl_policy normalize_crawl sanitize_domain_list host_set sort normalize_notes
    validate_crawl first_in paywall_error attribution_error normalize_host normalize_config_host
crawl_conflict = refl
