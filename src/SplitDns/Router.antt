-- ===== src/SplitDns/Router.antt =====
-- The choice of an upstream group and the forwarding of a request: internal/dnsrouter/router.go
-- (compiled rules and selectGroup), forward.go, and validDNSReply of doh.go.
pub mod Choice
pub mod Replies
mod Tests
use k8s_at_home.Prelude.{
  ℕ, zero, suc, ◌+◌, String, Bool, true, false, not, ◌&&◌, ◌||◌, Option, none, some, List, [], ◌∷◌,
  ltb, ◌==◌, str_eq, if◌then◌else◌, length, ◌⊎◌, inl, inr,
}
use k8s_at_home.SplitDns.Message.{Question, Msg, Library, rcode_server_failure}
use k8s_at_home.Prelude.Checks.{Result, ok, err}
use k8s_at_home.SplitDns.Config.{Rule, Platform}
use k8s_at_home.SplitDns.Config.Names.{normalize_domain}

pub record CompiledRule : Type 0 where
  pub match : String
  pub domain : String
  pub group : String
  pub labels : ℕ
  pub ordinal : ℕ

abbrev pub or_empty : Result String → String
or_empty (ok s) = s
or_empty (err e) = ""

-- Whether a rule that matches gives way to the best so far; there is none at first.
unfoldable pub gives_way : CompiledRule → Option CompiledRule → Bool
gives_way rule none = false
gives_way rule (some best) =
    if ltb rule.labels best.labels
    then true
    else (rule.labels == best.labels)
      && (not (str_eq rule.match "exact") || str_eq best.match "exact")

abbrev pub group_of : String → Option CompiledRule → String
group_of default none = default
group_of default (some best) = best.group

module _ (lib : Library) where
  compile_rule : Platform → ℕ → Rule → CompiledRule
  compile_rule platform i rule =
      let domain = lib.canonical_name (or_empty (normalize_domain platform rule.domain)) in
      record {
        match = rule.match;
        domain = domain;
        group = rule.upstream_group;
        labels = lib.count_label domain;
        ordinal = i;
      }

  unfoldable pub compile_rules : Platform → ℕ → List Rule → List CompiledRule
  unfolding compile_rule
  compile_rules platform i [] = []
  compile_rules platform i (rule ∷ rules) =
      compile_rule platform i rule ∷ compile_rules platform (i + 1) rules

  unfoldable pub rule_matches : String → CompiledRule → Bool
  rule_matches name rule =
      if str_eq rule.match "suffix"
      then lib.compare_domain_name name rule.domain == rule.labels
      else str_eq name rule.domain

  unfoldable pub choose : String → Option CompiledRule → List CompiledRule → Option CompiledRule
  choose name best [] = best
  choose name best (rule ∷ rules) =
      let kept = choose name best rules in
      let taken = choose name (some rule) rules in
      if not (rule_matches name rule) || gives_way rule best then kept else taken

  unfoldable pub select_group : String → List CompiledRule → String → String
  select_group default rules name = group_of default (choose (lib.canonical_name name) none rules)

-- validDNSReply; `equal_fold` is strings.EqualFold, and the questions have one length.
abbrev pub same_questions : (String → String → Bool) → List Question → List Question → Bool
same_questions equal_fold (p ∷ ps) (q ∷ qs) =
    let rest = same_questions equal_fold ps qs in
    equal_fold p.name q.name && (p.qtype == q.qtype) && (p.qclass == q.qclass) && rest
same_questions equal_fold _ _ = true

unfoldable pub valid_dns_reply : (String → String → Bool) → Msg → Option Msg → Bool
valid_dns_reply equal_fold request none = false
valid_dns_reply equal_fold request (some response) =
    response.response
    && (response.id == request.id)
    && (length response.question == length request.question)
    && same_questions equal_fold response.question request.question

pub data Network : Type 0 where
  udp : Network
  tcp : Network

abbrev pub is_udp : Network → Bool
is_udp udp = true
is_udp tcp = false

-- What an upstream did with a request; `mismatched` and `all_failed` are the router's own errors.
pub data ForwardError (E : Type 0) : Type 0 where
  context_ended : E → ForwardError E
  exchange_failed : E → ForwardError E
  mismatched : ForwardError E
  server_failure : ForwardError E
  all_failed : ForwardError E

-- The network as it answers: the error of the context, and dns.Client.ExchangeContext, over a
-- state `S` of all that changes meanwhile.
pub record Upstream (S E : Type 0) : Type 0 where
  pub ended : S → Option E
  pub exchange : Network → String → Msg → S → S × (E ⊎ Option Msg)

-- How one attempt goes on: with an answer, over the next network with the last error, or with the
-- next server.
pub data Attempt (E : Type 0) : Type 0 where
  answered : Msg → Attempt E
  next_network : Option (ForwardError E) → Attempt E
  next_server : ForwardError E → Attempt E

module _ {S E : Type 0} (equal_fold : String → String → Bool) (upstream : Upstream S E) where
  unfoldable pub received : Network → Msg → Option (ForwardError E) → Msg → Attempt E
  received network request last response =
      if response.truncated && is_udp network
      then next_network last
      else if response.rcode == rcode_server_failure
      then next_server server_failure
      else answered (record response { id = request.id })

  unfoldable pub judged : Network → Msg → Option (ForwardError E) → E ⊎ Option Msg → Attempt E
  unfolding received
  judged network request last (inl e) = next_network (some (exchange_failed e))
  judged network request last (inr none) = next_network (some mismatched)
  judged network request last (inr (some response)) =
      if not (valid_dns_reply equal_fold request (some response))
      then next_network (some mismatched)
      else received network request last response

  abbrev pub Resolved : Type 0
  Resolved = S × (ForwardError E ⊎ Msg)

  abbrev pub final_error : Option (ForwardError E) → ForwardError E
  final_error none = all_failed
  final_error (some e) = e

  -- What follows an attempt over TCP and one over UDP; `retry` goes on with the next server.
  abbrev pub after_tcp : (Option (ForwardError E) → S → Resolved) → S → Attempt E → Resolved
  after_tcp retry s (answered m) = (s, inr m)
  after_tcp retry s (next_server e) = retry (some e) s
  after_tcp retry s (next_network last) = retry last s

  unfoldable pub ask_tcp :
      (Option (ForwardError E) → S → Resolved)
      → Msg
      → String
      → Option (ForwardError E)
      → S
      → Option E
      → Resolved
  ask_tcp retry request address last s (some e) = (s, inl (context_ended e))
  ask_tcp retry request address last s none =
      let answer = upstream.exchange tcp address request s in
      after_tcp retry answer.0 (judged tcp request last answer.1)

  unfoldable pub after_udp :
      (Option (ForwardError E) → S → Resolved) → Msg → String → S → Attempt E → Resolved
  unfolding ask_tcp
  after_udp retry request address s (answered m) = (s, inr m)
  after_udp retry request address s (next_server e) = retry (some e) s
  after_udp retry request address s (next_network last) =
      ask_tcp retry request address last s (upstream.ended s)

  unfoldable pub ask_udp :
      (Option (ForwardError E) → S → Resolved)
      → Msg
      → String
      → Option (ForwardError E)
      → S
      → Option E
      → Resolved
  unfolding after_udp
  ask_udp retry request address last s (some e) = (s, inl (context_ended e))
  ask_udp retry request address last s none =
      let answer = upstream.exchange udp address request s in
      after_udp retry request address answer.0 (judged udp request last answer.1)

  -- The loop over the servers; that over the networks is written out.
  unfoldable pub forward_to : Msg → List String → Option (ForwardError E) → S → Resolved
  unfolding ask_udp
  forward_to request [] last s = (s, inl (final_error last))
  forward_to request (address ∷ servers) last s =
      ask_udp (forward_to request servers) request address last s (upstream.ended s)

  unfoldable pub resolve_forward : List String → Msg → S → Resolved
  unfolding forward_to
  resolve_forward servers request s = forward_to request servers none s
