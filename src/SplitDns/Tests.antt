-- ===== src/SplitDns/Tests.antt =====
-- Runs of the response cache at concrete messages, and instances of its theorems.
use k8s_at_home.Prelude.{
  ℕ, ◌+◌, ◌*◌, ◌≤◌, ◌<◌, true, false, Option, none, some, [], ◌∷◌, ◌≡◌, ◌⊎◌, ◌-◌, refl, inl, arith,
  length, All,
}
use k8s_at_home.SplitDns.Message.{soa, opt, other, Msg, Library}
use k8s_at_home.SplitDns.Ttl.{is_negative, response_ttl, scan_sections}
use k8s_at_home.SplitDns.Ttl.Bounds.{MsgWithin}
use k8s_at_home.SplitDns.Ttl.Cacheable.{response_ttl-Within}
use k8s_at_home.SplitDns.Cache.{
  Key, CacheEntry, ResponseCache, Settings, second, key_eq, delete, evict_oldest, cache_key, lookup,
  store,
}
use k8s_at_home.SplitDns.Cache.Entries.{Member, evict_oldest-earliest}
use k8s_at_home.SplitDns.Cache.Copies.{Copy}
use k8s_at_home.SplitDns.Cache.Reads.{length-store-le, lookup-store}

abbrev library : Library
library = record {
  fqdn = λ s. s;
  to_lower = λ s. s;
  is_domain_name = λ s. true;
  canonical_name = λ s. s;
  compare_domain_name = λ s t. 0;
  count_label = λ s. 1;
  len = λ m. 100;
  is_tsig = λ m. false;
  truncate = λ m n. m;
}

abbrev settings : Settings
settings = record { enabled = true; max_entries = 2; max_ttl = 60; negative_max_ttl = 30 }

abbrev request : Msg
request = record {
  id = 7;
  response = false;
  opcode = 0;
  truncated = false;
  recursion_desired = true;
  authenticated_data = false;
  checking_disabled = false;
  rcode = 0;
  question = record { name = "a.example."; qtype = 1; qclass = 1 } ∷ [];
  answer = [];
  ns = [];
  extra = opt false 1232 0 false ∷ [];
}

abbrev response : Msg
response = record request {
  response = true;
  answer = other 300 "192.0.2.1" ∷ other 45 "192.0.2.2" ∷ [];
}

-- NXDOMAIN with an SOA
abbrev denial : Msg
denial = record request { response = true; rcode = 3; ns = soa 900 120 ∷ [] }

abbrev stored : Msg
stored = record response { answer = other 60 "192.0.2.1" ∷ other 45 "192.0.2.2" ∷ [] }

abbrev key : Key
key = record {
  group = "lan";
  name = "a.example.";
  qtype = 1;
  qclass = 1;
  udp_size = 1232;
  dnssec_ok = false;
  checking_disabled = false;
  recursion_desired = true;
  authenticated_data = false;
}

abbrev entry : ℕ → CacheEntry
entry t = record { message = response; inserted = t; ttl = 5 * second }

abbrev full : ResponseCache
full = record {
  entries = (record key { qtype = 28 }, entry 9) ∷ (record key { qtype = 15 }, entry 4) ∷ [];
  config = settings;
}

response_ttl-stored : response_ttl response 30 60 ≡ some (45, stored)
unfolding response_ttl scan_sections
response_ttl-stored = refl

response_ttl-denial : response_ttl denial 30 60 ≡ some (30, record denial { ns = soa 30 120 ∷ [] })
unfolding response_ttl scan_sections
response_ttl-denial = refl

response_ttl-Within_example :
    (0 < 30)
    × (30 ≤ 60)
    × MsgWithin 30 60 (record denial { ns = soa 30 120 ∷ [] })
    × (is_negative denial ≡ true → 30 ≤ 30)
response_ttl-Within_example =
    response_ttl-Within denial (record denial { ns = soa 30 120 ∷ [] }) 30 60 30 (omega arith)
      response_ttl-denial

evict_oldest-earliest_example :
    (k : Key) × (f : CacheEntry) × Member (k, f) full.entries
    × (evict_oldest full.entries ≡ delete k full.entries)
    × All (λ x. f.inserted + f.ttl ≤ x.1.inserted + x.1.ttl) full.entries
    × (length (evict_oldest full.entries) ≤ 1)
evict_oldest-earliest_example =
    evict_oldest-earliest (record key { qtype = 28 }, entry 9)
      ((record key { qtype = 15 }, entry 4) ∷ [])

-- The third key takes the place of the entry that expires first.
store_evicts :
    (store library full "lan" request (some response) 20).entries
    ≡ (key, record { message = stored; inserted = 20; ttl = 45 * second })
      ∷ (record key { qtype = 28 }, entry 9)
      ∷ []
unfolding store cache_key response_ttl scan_sections key_eq
store_evicts = refl

length-store-le_example : length (store library full "lan" request (some response) 20).entries ≤ 2
length-store-le_example =
    length-store-le library full "lan" request (some response) 20 (omega arith) (omega arith)

key_of_request : cache_key library "lan" request ≡ some key
unfolding cache_key
key_of_request = refl

abbrev later_request : Msg
later_request = record request { id = 8 }

abbrev answered : Option Msg
answered =
    (lookup library (store library full "lan" request (some response) 20) "lan" later_request
      (20 + 7 * second)).0

lookup-store_example :
    ((20 + 7 * second < 20 + 45 * second)
      × (a : Msg) × (answered ≡ some a)
      × Copy later_request stored a (20 + 7 * second - 20))
    ⊎ ((20 + 45 * second ≤ 20 + 7 * second) × (answered ≡ none))
unfolding cache_key
lookup-store_example =
    lookup-store library full "lan" request later_request response stored
      (record { name = "a.example."; qtype = 1; qclass = 1 }) key 20 (20 + 7 * second) 45 refl
      (omega arith) refl (inl refl) (omega arith) key_of_request refl response_ttl-stored refl
      (omega arith)
