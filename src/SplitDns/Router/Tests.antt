-- ===== src/SplitDns/Router/Tests.antt =====
-- Runs of the router at concrete rules and upstreams, and instances of its theorems.
use k8s_at_home.Prelude.{
  ℕ, ◌+◌, String, true, false, Option, none, some, List, [], ◌∷◌, ◌≡◌, refl, inl, inr, ◌⊎◌, str_eq,
  if◌then◌else◌,
}
use k8s_at_home.SplitDns.Message.{Msg, Library}
use k8s_at_home.SplitDns.Router.{
  CompiledRule, rule_matches, gives_way, choose, select_group, valid_dns_reply, Network, udp, tcp,
  exchange_failed, Upstream, received, judged, resolve_forward,
}
use k8s_at_home.SplitDns.Router.Choice.{Chosen, choose-Chosen}
use k8s_at_home.SplitDns.Router.Replies.{Fits, resolve_forward-Fits}

abbrev common_labels : String → String → ℕ
common_labels s t =
    if str_eq s "www.lan.example."
    then (if str_eq t "lan.example." then 2 else if str_eq t "example." then 1 else 3)
    else 0

abbrev library : Library
library = record {
  fqdn = λ s. s;
  to_lower = λ s. s;
  is_domain_name = λ s. true;
  canonical_name = λ s. s;
  compare_domain_name = common_labels;
  count_label = λ s. 1;
  len = λ m. 100;
  is_tsig = λ m. false;
  truncate = λ m n. m;
}

abbrev rules : List CompiledRule
rules =
    record { match = "suffix"; domain = "example."; group = "a"; labels = 1; ordinal = 0 }
    ∷ record { match = "suffix"; domain = "lan.example."; group = "b"; labels = 2; ordinal = 1 }
    ∷ record { match = "suffix"; domain = "www.lan.example."; group = "c"; labels = 3; ordinal = 2 }
    ∷ record { match = "exact"; domain = "www.lan.example."; group = "d"; labels = 3; ordinal = 3 }
    ∷ []

exact_over_suffix : select_group library "isp" rules "www.lan.example." ≡ "d"
unfolding select_group choose rule_matches gives_way
exact_over_suffix = refl

by_default : select_group library "isp" rules "other.test." ≡ "isp"
unfolding select_group choose rule_matches gives_way
by_default = refl

choose-Chosen_example :
    Chosen library "www.lan.example." rules (choose library "www.lan.example." none rules)
choose-Chosen_example = choose-Chosen library "www.lan.example." rules

abbrev request : Msg
request = record {
  id = 7;
  response = false;
  opcode = 0;
  truncated = false;
  recursion_desired = true;
  authenticated_data = false;
  checking_disabled = false;
  rcode = 0;
  question = record { name = "a.example."; qtype = 1; qclass = 1 } ∷ [];
  answer = [];
  ns = [];
  extra = [];
}

-- The first server fails, the second truncates over UDP; the state counts the exchanges.
abbrev reply : Network → String → String ⊎ Option Msg
reply network address = if str_eq address "192.0.2.1:53" then inl "no route" else elim network [
  | udp ↦ inr (some (record request { response = true; truncated = true }))
  | tcp ↦ inr (some (record request { response = true }))
]

abbrev upstream : Upstream ℕ String
upstream = record {
  ended = λ n. none;
  exchange = λ network address m n. (n + 1, reply network address);
}

abbrev servers : List String
servers = "192.0.2.1:53" ∷ "192.0.2.2:53" ∷ []

answered_in_the_end :
    resolve_forward str_eq upstream servers request 0
    ≡ (4, inr (record request { response = true }))
unfolding resolve_forward judged received valid_dns_reply
answered_in_the_end = refl

first_only :
    resolve_forward str_eq upstream ("192.0.2.1:53" ∷ []) request 0
    ≡ (2, inl (exchange_failed "no route"))
unfolding resolve_forward judged
first_only = refl

resolve_forward-Fits_example :
    Fits str_eq upstream request servers (resolve_forward str_eq upstream servers request 0)
resolve_forward-Fits_example = resolve_forward-Fits str_eq upstream request servers 0
