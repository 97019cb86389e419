-- ===== src/Policies/Hosts.antt =====
-- normalizeHost, which internal/policy/policy.go and config/crawl_policy.go both have. Letter case and
-- the parsing of a URL are parameters.
use newser.Prelude.{
  Bool, ◌||◌, String, Option, none, some, if◌then◌else◌, is_empty, trim_space, is_some,
}
use newser.Security.{cut_prefix}

-- `strings.ToLower`, and the host of `url.Parse`, which is none for an error.
pub record HostReading : Type 0 where
  pub to_lower : String → String
  pub url_host : String → Option String

abbrev pub trim_prefix_of : Option String → String → String
trim_prefix_of none s = s
trim_prefix_of (some rest) s = rest

abbrev pub trim_www : String → String
trim_www s = trim_prefix_of (cut_prefix "www." s) s

abbrev host_or : String → Option String → String
host_or value none = value
host_or value (some host) = if is_empty host then value else host

abbrev is_url : String → Bool
is_url s = is_some (cut_prefix "http://" s) || is_some (cut_prefix "https://" s)

module _ (text : HostReading) where
  -- `normalizeHost` of internal/policy.
  unfoldable pub normalize_host : String → String
  normalize_host value =
      let v = trim_space (text.to_lower value) in
      if is_empty v then "" else trim_www (if is_url v then host_or v (text.url_host v) else v)

  abbrev config_host : String → Option String → String
  config_host value none = trim_www value
  config_host value (some host) =
      if is_empty host then trim_www value else trim_www (text.to_lower host)

  -- `normalizeHost` of config.
  unfoldable pub normalize_config_host : String → String
  normalize_config_host value =
      let v = trim_space (text.to_lower value) in
      if is_empty v then "" else if is_url v then config_host v (text.url_host v) else trim_www v
