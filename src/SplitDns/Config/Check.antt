-- ===== src/SplitDns/Config/Check.antt =====
-- Config.Validate of internal/config/config.go.
use k8s_at_home.Prelude.{
  ℕ, ◌-◌, ◌^◌, String, Bool, true, false, not, ◌&&◌, ◌||◌, List, [], ◌∷◌, ltb, ◌==◌, str_eq,
  if◌then◌else◌,
}
use k8s_at_home.SplitDns.Cache.{Settings}
use k8s_at_home.Prelude.Checks.{Result, ok, ◌>>=◌, ◌>>◌, refuse_if, each}
use k8s_at_home.SplitDns.Config.{
  has, is_nil, blank, Proxy, Rule, UpstreamGroup, Config, Platform, validate_proxy, validate_group,
}
use k8s_at_home.SplitDns.Config.Names.{name_allowed, normalize_domain}

abbrev pub port_wrong : ℕ → Bool
port_wrong p = ltb p 1 || ltb 65535 p

unfoldable pub listeners : Config → Result (Unit {0})
listeners c = do
  refuse_if (blank c.listen_address || port_wrong c.listen_port)
      "listenAddress and a valid listenPort are required"
  refuse_if (blank c.metrics.address || port_wrong c.metrics.port)
      "metrics address and a valid metrics port are required"
  refuse_if (str_eq c.listen_address c.metrics.address && c.listen_port == c.metrics.port)
      "DNS and metrics listeners must use different addresses or ports"

unfoldable pub default_group : Config → Result (Unit {0})
default_group c = do
  refuse_if (blank c.default_upstream_group) "dns.defaultUpstreamGroup is required"
  refuse_if (not (has c.default_upstream_group c.upstream_groups))
      "default upstream group does not exist"
  refuse_if (is_nil c.upstream_groups) "at least one upstream group is required"

-- A rule as `seenRules` knows it: rule.Match + ":" + domain, for a match that holds no colon.
abbrev pub RuleKey : Type 0
RuleKey = String × String

abbrev pub rule_key_eq : RuleKey → RuleKey → Bool
rule_key_eq (m, d) (n, e) = str_eq m n && str_eq d e

abbrev pub seen : RuleKey → List RuleKey → Bool
seen k [] = false
seen k (j ∷ rest) = let found = seen k rest in if rule_key_eq j k then true else found

module _ (platform : Platform) where
  unfoldable pub check_proxies : List (String × Proxy) → Result (Unit {0})
  check_proxies = each (λ p.
      refuse_if (not (name_allowed p.0)) "proxy name must match the pattern"
      >> validate_proxy platform p.1)

  unfoldable pub check_groups :
      List (String × Proxy) → List (String × UpstreamGroup) → Result (Unit {0})
  check_groups proxies = each (λ g.
      refuse_if (not (name_allowed g.0)) "upstream group name must match the pattern"
      >> validate_group platform g.1 proxies)

  unfoldable pub check_rule : List (String × UpstreamGroup) → List RuleKey → Rule → Result RuleKey
  check_rule groups keys rule = do
    domain ← normalize_domain platform rule.domain
    refuse_if (not (str_eq rule.match "exact") && not (str_eq rule.match "suffix"))
        "match must be exact or suffix"
    refuse_if (not (has rule.upstream_group groups)) "references missing upstream group"
    refuse_if (seen (rule.match, domain) keys) "duplicate DNS rule"
    ok (rule.match, domain)

  unfoldable pub check_rules :
      List (String × UpstreamGroup) → List RuleKey → List Rule → Result (Unit {0})
  unfolding check_rule
  check_rules groups keys [] = ok tt
  check_rules groups keys (rule ∷ rules) =
      check_rule groups keys rule >>= λ key. check_rules groups (key ∷ keys) rules

  unfoldable pub check_cache : Settings → Result (Unit {0})
  check_cache s = do
    refuse_if
        (s.enabled
          && (ltb s.max_entries 1
              || ltb 16384 s.max_entries
              || ltb s.max_ttl 1
              || ltb s.negative_max_ttl 1))
        "enabled DNS cache requires maxEntries between 1 and 16384 and positive TTL limits"
    refuse_if (s.enabled && (ltb (2 ^ 32 - 1) s.max_ttl || ltb (2 ^ 32 - 1) s.negative_max_ttl))
        "DNS cache TTL limits must fit in an unsigned 32-bit DNS TTL"

  unfoldable pub validate : Config → Result (Unit {0})
  unfolding listeners default_group check_proxies check_groups check_rules check_cache
  validate c = do
    listeners c
    default_group c
    check_proxies c.proxies
    check_groups c.proxies c.upstream_groups
    check_rules c.upstream_groups [] c.rules
    check_cache c.cache
