-- ===== src/SplitDns/Config/Tests.antt =====
-- A concrete configuration that is accepted, variants that are refused, and an instance of the
-- theorem on accepted configurations.
use k8s_at_home.Prelude.{true, false, some, none, [], ◌∷◌, ◌≡◌, refl}
use k8s_at_home.Prelude.Checks.{ok, err}
use k8s_at_home.SplitDns.Config.{
  UpstreamGroup, Config, Platform, validate_group, validate_server_address,
}
use k8s_at_home.SplitDns.Config.Names.{normalize_domain, name_allowed}
use k8s_at_home.SplitDns.Config.Check.{validate}
use k8s_at_home.SplitDns.Config.Valid.{Valid, validate-Valid}

abbrev platform : Platform
platform = record {
  parse_url = λ s. none;
  is_ip = λ s. true;
  split_host_port = λ s. some ("192.0.2.53", s);
  parse_duration = λ s. some 5000000000;
  atoi = λ s. some 53;
  env_is_set = λ s. false;
  to_lower = λ s. s;
}

abbrev group : UpstreamGroup
group = record {
  kind = "forward";
  servers = "192.0.2.53:53" ∷ [];
  strategy = "";
  endpoints = [];
  egress = record { mode = ""; proxy_ref = "" };
  query_timeout = "5s";
  connect_timeout = "";
  tls_handshake_timeout = "";
  max_attempts_per_endpoint = 0;
  max_concurrent_requests = 8;
}

abbrev config : Config
config = record {
  listen_address = "127.0.0.1";
  listen_port = 53;
  metrics = record { address = "127.0.0.1"; port = 9153; enabled = true };
  default_upstream_group = "isp";
  upstream_groups = ("isp", group) ∷ ("lab-1", group) ∷ [];
  proxies = [];
  rules =
      record { match = "suffix"; domain = "lan.example."; upstream_group = "lab-1" }
      ∷ record { match = "exact"; domain = "lan.example"; upstream_group = "isp" }
      ∷ [];
  cache = record { enabled = true; max_entries = 512; max_ttl = 3600; negative_max_ttl = 60 };
}

accepted : validate platform config ≡ ok tt
unfolding validate normalize_domain name_allowed validate_group validate_server_address
accepted = refl

refused_duplicate :
    validate platform (record config {
      rules =
          record { match = "exact"; domain = "lan.example."; upstream_group = "lab-1" }
          ∷ record { match = "exact"; domain = "lan.example"; upstream_group = "isp" }
          ∷ [];
    })
    ≡ err "duplicate DNS rule"
unfolding validate normalize_domain name_allowed validate_group validate_server_address
refused_duplicate = refl

refused_label : normalize_domain platform "a.-b.c" ≡ err "domain contains an invalid label"
unfolding normalize_domain
refused_label = refl

validate-Valid_example : Valid platform config
validate-Valid_example = validate-Valid platform config accepted
