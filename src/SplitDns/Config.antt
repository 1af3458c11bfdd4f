-- ===== src/SplitDns/Config.antt =====
-- The configuration and its checks: application/split-dns/src/internal/config/config.go and
-- validate.go. A map is a list of its entries in the order in which the program ranges over it;
-- an error is its text, without the values that the program prints into it; an int is a natural
-- number, where the checks refuse a negative one as they refuse 0. url.Parse, net,
-- time.ParseDuration, strconv.Atoi, the environment and strings.ToLower are a parameter.
pub mod Names
pub mod Check
pub mod Valid
mod Tests
use k8s_at_home.Prelude.{
  ℕ, zero, suc, ◌+◌, ◌^◌, String, Bool, true, false, not, ◌&&◌, ◌||◌, Option, none, some, List, [],
  ◌∷◌, ltb, ◌==◌, str_eq, if◌then◌else◌,
}
use k8s_at_home.Prelude.Checks.{Result, ok, err, ◌>>=◌, ◌>>◌, refuse_if, each}
use k8s_at_home.SplitDns.Cache.{Settings}

pub record Endpoint : Type 0 where
  pub url : String
  pub bootstrap_ips : List String
  pub ca_file : String

pub record Egress : Type 0 where
  pub mode : String
  pub proxy_ref : String

pub record Proxy : Type 0 where
  pub url : String
  pub username_env : String
  pub password_env : String

pub record Rule : Type 0 where
  pub match : String
  pub domain : String
  pub upstream_group : String

pub record UpstreamGroup : Type 0 where
  pub kind : String
  pub servers : List String
  pub strategy : String
  pub endpoints : List Endpoint
  pub egress : Egress
  pub query_timeout : String
  pub connect_timeout : String
  pub tls_handshake_timeout : String
  pub max_attempts_per_endpoint : ℕ
  pub max_concurrent_requests : ℕ

pub record Metrics : Type 0 where
  pub address : String
  pub port : ℕ
  pub enabled : Bool

pub record Config : Type 0 where
  pub listen_address : String
  pub listen_port : ℕ
  pub metrics : Metrics
  pub default_upstream_group : String
  pub upstream_groups : List (String × UpstreamGroup)
  pub proxies : List (String × Proxy)
  pub rules : List Rule
  pub cache : Settings

-- url.URL, the fields that are read
pub record Url : Type 0 where
  pub scheme : String
  pub host : String
  pub hostname : String
  pub port : String
  pub has_user : Bool
  pub path : String
  pub raw_query : String
  pub fragment : String

-- A number that is negative counts as none where it is refused with the same text as an error.
pub record Platform : Type 0 where
  pub parse_url : String → Option Url
  pub is_ip : String → Bool
  pub split_host_port : String → Option (String × String)
  pub parse_duration : String → Option ℕ
  pub atoi : String → Option ℕ
  pub env_is_set : String → Bool
  pub to_lower : String → String

abbrev pub has : {V : Type 0} → String → List (String × V) → Bool
has k [] = false
has k ((j, v) ∷ rest) = let found = has k rest in if str_eq j k then true else found

abbrev pub is_nil : {A : Type 0} → List A → Bool
is_nil [] = true
is_nil (x ∷ xs) = false

abbrev pub blank : String → Bool
blank s = str_eq s ""

-- Not a number from 1 to 65535.
abbrev pub bad_port : Option ℕ → Bool
bad_port none = true
bad_port (some p) = ltb p 1 || ltb 65535 p

-- A duration that is missing, 0, or above the limit.
abbrev pub bad_timeout : Option ℕ → ℕ → Bool
bad_timeout none limit = true
bad_timeout (some d) limit = (d == 0) || ltb limit d

module _ (platform : Platform) where
  host_port_ok : Option (String × String) → Result (Unit {0})
  host_port_ok none = err "server must be an IP address and port"
  host_port_ok (some (host, port)) = do
    refuse_if (not (platform.is_ip host)) "server must be an IP address and port"
    refuse_if (bad_port (platform.atoi port)) "server has an invalid port"

  pub validate_server_address : String → Result (Unit {0})
  unfolding host_port_ok
  validate_server_address value = host_port_ok (platform.split_host_port value)

  endpoint_url_bad : Option Url → Bool
  endpoint_url_bad none = true
  endpoint_url_bad (some u) =
      not (str_eq u.scheme "https") || blank u.host || u.has_user || not (blank u.fragment)

  pub validate_endpoint : Endpoint → Result (Unit {0})
  unfolding endpoint_url_bad
  validate_endpoint endpoint = do
    refuse_if (endpoint_url_bad (platform.parse_url endpoint.url))
        "URL must be an HTTPS URL without user info or fragment"
    each (λ a. refuse_if (not (platform.is_ip a)) "bootstrap address is not an IP address")
        endpoint.bootstrap_ips

  proxy_url_bad : Url → Bool
  proxy_url_bad u =
      not (str_eq u.scheme "http")
      || blank u.host
      || u.has_user
      || not (blank u.path)
      || not (blank u.raw_query)
      || not (blank u.fragment)

  proxy_environment : Proxy → Result (Unit {0})
  proxy_environment proxy = if blank proxy.username_env then ok tt else (do
    refuse_if (not (platform.env_is_set proxy.username_env))
        "username environment variable is not set"
    refuse_if (not (platform.env_is_set proxy.password_env))
        "password environment variable is not set")

  proxy_with_url : Proxy → Option Url → Result (Unit {0})
  proxy_with_url proxy none =
      err "URL must be an HTTP proxy URL without path, query, fragment, or user info"
  proxy_with_url proxy (some u) = do
    refuse_if (proxy_url_bad u)
        "URL must be an HTTP proxy URL without path, query, fragment, or user info"
    refuse_if (blank u.hostname) "proxy URL must contain a hostname or IP address"
    refuse_if (not (blank u.port) && bad_port (platform.atoi u.port))
        "proxy URL contains an invalid port"
    refuse_if
        (blank proxy.username_env && not (blank proxy.password_env)
          || not (blank proxy.username_env) && blank proxy.password_env)
        "usernameEnv and passwordEnv must be configured together"
    proxy_environment proxy

  pub validate_proxy : Proxy → Result (Unit {0})
  unfolding proxy_with_url proxy_url_bad proxy_environment
  validate_proxy proxy = proxy_with_url proxy (platform.parse_url proxy.url)

  forward_group : UpstreamGroup → Result (Unit {0})
  forward_group group = do
    refuse_if (is_nil group.servers || not (is_nil group.endpoints))
        "forward groups require servers and cannot contain DoH endpoints"
    refuse_if
        (not (blank group.strategy)
          || not (blank group.connect_timeout)
          || not (blank group.tls_handshake_timeout)
          || not (group.max_attempts_per_endpoint == 0))
        "forward groups do not support DoH settings"
    each validate_server_address group.servers
    refuse_if (not (blank group.egress.mode) || not (blank group.egress.proxy_ref))
        "forward groups do not support egress settings"

  egress_ok : Egress → List (String × Proxy) → Result (Unit {0})
  egress_ok egress proxies = do
    refuse_if (not (str_eq egress.mode "direct") && not (str_eq egress.mode "proxy"))
        "DoH egress mode must be direct or proxy"
    refuse_if (str_eq egress.mode "direct" && not (blank egress.proxy_ref))
        "direct DoH egress cannot reference a proxy"
    refuse_if (str_eq egress.mode "proxy" && blank egress.proxy_ref)
        "proxy DoH egress requires proxyRef"
    refuse_if (str_eq egress.mode "proxy" && not (has egress.proxy_ref proxies))
        "references missing proxy"

  doh_group : UpstreamGroup → List (String × Proxy) → ℕ → Result (Unit {0})
  doh_group group proxies query_timeout = do
    refuse_if (is_nil group.endpoints || not (is_nil group.servers))
        "DoH groups require endpoints and cannot contain forward servers"
    refuse_if (not (str_eq group.strategy "parallel")) "DoH strategy must be parallel"
    refuse_if (ltb group.max_attempts_per_endpoint 1) "maxAttemptsPerEndpoint must be at least one"
    refuse_if (bad_timeout (platform.parse_duration group.connect_timeout) query_timeout)
        "connectTimeout must be positive and no greater than queryTimeout"
    refuse_if (bad_timeout (platform.parse_duration group.tls_handshake_timeout) query_timeout)
        "tlsHandshakeTimeout must be positive and no greater than queryTimeout"
    egress_ok group.egress proxies
    each validate_endpoint group.endpoints

  group_with_timeout : UpstreamGroup → List (String × Proxy) → Option ℕ → Result (Unit {0})
  group_with_timeout group proxies none = err "queryTimeout must be a positive duration"
  group_with_timeout group proxies (some query_timeout) = do
    refuse_if (query_timeout == 0) "queryTimeout must be a positive duration"
    refuse_if (ltb group.max_concurrent_requests 1) "maxConcurrentRequests must be positive"
    if str_eq group.kind "forward"
        then forward_group group
        else if str_eq group.kind "doh"
        then doh_group group proxies query_timeout
        else err "type must be forward or doh"

  pub validate_group : UpstreamGroup → List (String × Proxy) → Result (Unit {0})
  unfolding group_with_timeout forward_group doh_group egress_ok
  validate_group group proxies =
      group_with_timeout group proxies (platform.parse_duration group.query_timeout)
