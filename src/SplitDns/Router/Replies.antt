-- ===== src/SplitDns/Router/Replies.antt =====
-- What resolveForward of internal/dnsrouter/forward.go hands on from its upstreams.
use k8s_at_home.Prelude.{
  String, Bool, true, false, ◌&&◌, Option, none, some, List, [], ◌∷◌, ◌==◌, ◌≡◌, refl, ◌⊎◌, inl,
  inr, Bool-cases,
}
use k8s_at_home.SplitDns.Message.{Msg, rcode_server_failure}
use k8s_at_home.SplitDns.Router.{
  valid_dns_reply, Network, udp, tcp, is_udp, ForwardError, Upstream, Attempt, answered,
  next_network, next_server, received, judged, after_tcp, ask_tcp, after_udp, ask_udp, forward_to,
  resolve_forward,
}

-- A server is among those of a group.
pub Among : String → List String → Type 0
Among address [] = ⊥
Among address (s ∷ servers) = (address ≡ s) ⊎ Among address servers

module _ {S E : Type 0} (equal_fold : String → String → Bool) (upstream : Upstream S E)
    (request : Msg) where
  -- An answer is what a server of the group replied to this request, with the request's id.
  pub record IsReply (servers : List String) (m : Msg) : Type 0 where
    pub network : Network
    pub address : String
    pub state : S
    pub response : Msg
    pub asked : Among address servers
    pub replied : (upstream.exchange network address request state).1 ≡ inr (some response)
    pub valid : valid_dns_reply equal_fold request (some response) ≡ true
    pub whole : (response.truncated && is_udp network) ≡ false
    pub no_failure : (response.rcode == rcode_server_failure) ≡ false
    pub same : m ≡ record response { id = request.id }

  -- An attempt answers only with such a reply, and so does a whole resolution.
  AttemptFits : List String → Attempt E → Type 0
  AttemptFits servers (answered m) = IsReply servers m
  AttemptFits servers (next_network last) = Unit
  AttemptFits servers (next_server e) = Unit

  pub Fits : List String → S × (ForwardError E ⊎ Msg) → Type 0
  Fits servers (s, inl e) = Unit
  Fits servers (s, inr m) = IsReply servers m

  received-Fits :
      (servers : List String) (network : Network) (address : String) (s : S)
      (last : Option (ForwardError E)) (response : Msg)
      → Among address servers
      → (upstream.exchange network address request s).1 ≡ inr (some response)
      → valid_dns_reply equal_fold request (some response) ≡ true
      → AttemptFits servers (received equal_fold upstream network request last response)
  unfolding received AttemptFits
  received-Fits servers network address s last response among replied valid =
      elim (Bool-cases (response.truncated && is_udp network)) [
        | inl e ↦ rw e tt
        | inr e ↦ rw e (elim (Bool-cases (response.rcode == rcode_server_failure)) [
          | inl f ↦ rw f tt
          | inr f ↦ rw f (record {
            network = network;
            address = address;
            state = s;
            response = response;
            asked = among;
            replied = replied;
            valid = valid;
            whole = e;
            no_failure = f;
            same = refl;
          })
        ])
      ]

  judged-Fits :
      (servers : List String) (network : Network) (address : String) (s : S)
      (last : Option (ForwardError E)) (reply : E ⊎ Option Msg)
      → Among address servers
      → (upstream.exchange network address request s).1 ≡ reply
      → AttemptFits servers (judged equal_fold upstream network request last reply)
  unfolding judged AttemptFits
  judged-Fits servers network address s last (inl e) among replied = tt
  judged-Fits servers network address s last (inr none) among replied = tt
  judged-Fits servers network address s last (inr (some response)) among replied =
      elim (Bool-cases (valid_dns_reply equal_fold request (some response))) [
        | inr e ↦ rw e tt
        | inl e ↦ rw e (received-Fits servers network address s last response among replied e)
      ]

  module _ (servers : List String) (address : String) (among : Among address servers)
      (retry : Option (ForwardError E) → S → S × (ForwardError E ⊎ Msg))
      (retried : (last : Option (ForwardError E)) (s : S) → Fits servers (retry last s)) where
    after_tcp-Fits :
        (s : S) (a : Attempt E)
        → AttemptFits servers a
        → Fits servers (after_tcp equal_fold upstream retry s a)
    unfolding Fits AttemptFits
    after_tcp-Fits s (answered m) h = h
    after_tcp-Fits s (next_server e) h = retried _ _
    after_tcp-Fits s (next_network last) h = retried _ _

    ask_tcp-Fits :
        (last : Option (ForwardError E)) (s : S) (ended : Option E)
        → Fits servers (ask_tcp equal_fold upstream retry request address last s ended)
    unfolding ask_tcp Fits
    ask_tcp-Fits last s (some e) = tt
    ask_tcp-Fits last s none =
        after_tcp-Fits _ _ (judged-Fits servers tcp address s last _ among refl)

    after_udp-Fits :
        (s : S) (a : Attempt E)
        → AttemptFits servers a
        → Fits servers (after_udp equal_fold upstream retry request address s a)
    unfolding after_udp Fits AttemptFits
    after_udp-Fits s (answered m) h = h
    after_udp-Fits s (next_server e) h = retried _ _
    after_udp-Fits s (next_network last) h = ask_tcp-Fits last s _

    ask_udp-Fits :
        (last : Option (ForwardError E)) (s : S) (ended : Option E)
        → Fits servers (ask_udp equal_fold upstream retry request address last s ended)
    unfolding ask_udp Fits
    ask_udp-Fits last s (some e) = tt
    ask_udp-Fits last s none =
        after_udp-Fits _ _ (judged-Fits servers udp address s last _ among refl)

  Fits-more :
      (server : String) (servers : List String) (r : S × (ForwardError E ⊎ Msg))
      → Fits servers r
      → Fits (server ∷ servers) r
  unfolding Fits Among
  Fits-more server servers (s, inl e) h = tt
  Fits-more server servers (s, inr m) h = record {
    network = h.network;
    address = h.address;
    state = h.state;
    response = h.response;
    asked = inr h.asked;
    replied = h.replied;
    valid = h.valid;
    whole = h.whole;
    no_failure = h.no_failure;
    same = h.same;
  }

  forward_to-Fits :
      (servers : List String) (last : Option (ForwardError E)) (s : S)
      → Fits servers (forward_to equal_fold upstream request servers last s)
  unfolding forward_to Fits Among
  forward_to-Fits [] last s = tt
  forward_to-Fits (server ∷ servers) last s =
      let retry = forward_to equal_fold upstream request servers in
      ask_udp-Fits (server ∷ servers) server (inl refl) retry
        (λ e t. Fits-more server servers (retry e t) (forward_to-Fits servers e t)) last s _

  -- If resolveForward returns a response, it is what one of the servers replied to the request over
  -- UDP or TCP, with the request's id set: a reply to it with its questions, not truncated if it
  -- came over UDP, and not SERVFAIL.
  pub resolve_forward-Fits :
      (servers : List String) (s : S)
      → Fits servers (resolve_forward equal_fold upstream servers request s)
  unfolding resolve_forward
  resolve_forward-Fits servers s = forward_to-Fits servers none s
