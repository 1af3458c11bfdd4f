-- ===== src/SplitDns/Cache.antt =====
-- The response cache: application/split-dns/src/internal/dnsrouter/cache.go.
--
-- Times and durations are nanoseconds. The map of entries is a list in the order in which the
-- program ranges over it, which the theorems leave open. The key, which the program prints as
-- one text with fmt.Sprintf, is the record of the fields printed.
pub mod Entries
pub mod Copies
pub mod Reads
use k8s_at_home.Prelude.{
  ℕ, zero, suc, ◌+◌, ◌-◌, ◌*◌, ◌/◌, ◌%◌, ◌^◌, String, Bool, true, false, not, ◌&&◌, ◌||◌, Option,
  none, some, List, [], ◌∷◌, ltb, leb, ◌==◌, str_eq, if◌then◌else◌, length,
}
use k8s_at_home.SplitDns.Ttl.{cap_ttls, decrement_ttls, response_ttl}
use k8s_at_home.SplitDns.Message.{
  Question, Rr, soa, opt, other, Msg, Library, opcode_query, rcode_success, rcode_name_error,
}

abbrev pub second : ℕ
second = 10 ^ 9

abbrev pub max_cache_message_size : ℕ
max_cache_message_size = 8192

-- config.Cache
pub record Settings : Type 0 where
  pub enabled : Bool
  pub max_entries : ℕ
  pub max_ttl : ℕ
  pub negative_max_ttl : ℕ

pub record Key : Type 0 where
  pub group : String
  pub name : String
  pub qtype : ℕ
  pub qclass : ℕ
  pub udp_size : ℕ
  pub dnssec_ok : Bool
  pub checking_disabled : Bool
  pub recursion_desired : Bool
  pub authenticated_data : Bool

pub record CacheEntry : Type 0 where
  pub message : Msg
  pub inserted : ℕ
  pub ttl : ℕ

pub record ResponseCache : Type 0 where
  pub entries : List (Key × CacheEntry)
  pub config : Settings

abbrev pub bool_eq : Bool → Bool → Bool
bool_eq true b = b
bool_eq false b = not b

unfoldable pub key_eq : Key → Key → Bool
key_eq a b =
    str_eq a.group b.group
    && str_eq a.name b.name
    && (a.qtype == b.qtype)
    && (a.qclass == b.qclass)
    && (a.udp_size == b.udp_size)
    && bool_eq a.dnssec_ok b.dnssec_ok
    && bool_eq a.checking_disabled b.checking_disabled
    && bool_eq a.recursion_desired b.recursion_desired
    && bool_eq a.authenticated_data b.authenticated_data

-- The map operations.
unfoldable pub find : Key → List (Key × CacheEntry) → Option CacheEntry
find k [] = none
find k ((j, e) ∷ rest) = if key_eq j k then some e else find k rest

unfoldable pub delete : Key → List (Key × CacheEntry) → List (Key × CacheEntry)
delete k [] = []
delete k ((j, e) ∷ rest) = let kept = delete k rest in if key_eq j k then kept else (j, e) ∷ kept

-- The loop of cacheKey over the additional section.
extras : Bool → ℕ → List Rr → Option (Bool × ℕ)
extras dnssec_ok udp_size [] = some (dnssec_ok, udp_size)
extras dnssec_ok udp_size (opt d u v o ∷ rs) =
    let rest = extras d u rs in if o || not (v == 0) then none else rest
extras dnssec_ok udp_size (_ ∷ rs) = none

module _ (lib : Library) where
  question_key : String → Msg → List Question → Option (Bool × ℕ) → Option Key
  question_key group request (q ∷ []) (some (dnssec_ok, udp_size)) = some (record {
    group = group;
    name = lib.to_lower (lib.fqdn q.name);
    qtype = q.qtype;
    qclass = q.qclass;
    udp_size = udp_size;
    dnssec_ok = dnssec_ok;
    checking_disabled = request.checking_disabled;
    recursion_desired = request.recursion_desired;
    authenticated_data = request.authenticated_data;
  })
  question_key group request _ _ = none

  unfoldable pub cache_key : String → Msg → Option Key
  unfolding question_key extras
  cache_key group request =
      if not (request.opcode == opcode_query) || lib.is_tsig request
      then none
      else question_key group request request.question (extras false 0 request.extra)

-- The question of the answer is that of the request, as it was spelled.
abbrev reask : Msg → List Question → List Question → Msg
reask m (q ∷ []) (_ ∷ []) = record m { question = q ∷ [] }
reask m _ _ = m

-- A hit: a copy of the stored message for this request, `elapsed` after it was stored.
unfoldable pub served : Msg → Msg → ℕ → Msg
unfolding decrement_ttls
served request stored elapsed =
    let message = record stored { id = request.id } in
    decrement_ttls (reask message request.question message.question)
      ((elapsed + second - 1) / second % 2 ^ 32)

-- What a look-up finds, and the cache after it: an expired entry is removed.
unfoldable pub answer_from :
    ResponseCache → Key → Msg → ℕ → Option CacheEntry → Option Msg × ResponseCache
answer_from c key request now none = (none, c)
answer_from c key request now (some entry) =
    if not (ltb now (entry.inserted + entry.ttl))
    then (none, record c { entries = delete key c.entries })
    else (some (served request entry.message (now - entry.inserted)), c)

unfoldable pub lookup_key : ResponseCache → Option Key → Msg → ℕ → Option Msg × ResponseCache
unfolding answer_from find
lookup_key c none request now = (none, c)
lookup_key c (some key) request now = answer_from c key request now (find key c.entries)

-- The loop of evictOldest: the key that has the earliest expiry so far, with this expiry.
unfoldable pub oldest : Option (Key × ℕ) → List (Key × CacheEntry) → Option (Key × ℕ)
oldest best [] = best
oldest none ((k, e) ∷ rest) = oldest (some (k, e.inserted + e.ttl)) rest
oldest (some (j, t)) ((k, e) ∷ rest) =
    oldest (if ltb (e.inserted + e.ttl) t then some (k, e.inserted + e.ttl) else some (j, t)) rest

unfoldable pub evict_oldest : List (Key × CacheEntry) → List (Key × CacheEntry)
unfolding oldest delete
evict_oldest entries = elim (oldest none entries) [
  | none ↦ entries
  | some (k, _) ↦ delete k entries
]

unfoldable pub is_none : Option CacheEntry → Bool
is_none none = true
is_none (some e) = false

-- c.entries[key] = entry, after an eviction if the key is new and the cache is full.
unfoldable pub insert : ResponseCache → Key → CacheEntry → ResponseCache
unfolding find delete evict_oldest is_none
insert c key entry =
    let room =
      (if is_none (find key c.entries) && leb c.config.max_entries (length c.entries)
        then evict_oldest c.entries
        else c.entries) in
    record c { entries = (key, entry) ∷ delete key room }

unfoldable pub store_ttl : ResponseCache → Option Key → ℕ → Option (ℕ × Msg) → ResponseCache
unfolding insert cap_ttls
store_ttl c none now cacheable = c
store_ttl c (some key) now none = c
store_ttl c (some key) now (some (ttl, stored)) = insert c key (record {
  message = cap_ttls stored (c.config.max_ttl % 2 ^ 32);
  inserted = now;
  ttl = ttl * second;
})

module _ (lib : Library) where
  -- lookup: the answer from the cache, if there is one, and the cache after it
  unfoldable pub lookup : ResponseCache → String → Msg → ℕ → Option Msg × ResponseCache
  unfolding lookup_key cache_key
  lookup c group request now =
      if not c.config.enabled
      then (none, c)
      else lookup_key c (cache_key lib group request) request now

  -- store, at the time `now`; `none` stands for a nil response
  unfoldable pub store : ResponseCache → String → Msg → Option Msg → ℕ → ResponseCache
  unfolding store_ttl cache_key response_ttl
  store c group request none now = c
  store c group request (some response) now =
      if not c.config.enabled
        || response.truncated
        || not (response.rcode == rcode_success) && not (response.rcode == rcode_name_error)
      then c
      else if ltb max_cache_message_size (lib.len response)
      then c
      else store_ttl c (cache_key lib group request) now
          (response_ttl response (c.config.negative_max_ttl % 2 ^ 32) (c.config.max_ttl % 2 ^ 32))
