-- ===== src/SplitDns/Cache/Reads.antt =====
-- What a client is answered from the cache
-- (application/split-dns/src/internal/dnsrouter/cache.go: lookup and store).
use k8s_at_home.Prelude.{
  ℕ, ◌+◌, ◌-◌, ◌*◌, ◌%◌, ◌^◌, ◌≤◌, ◌<◌, String, true, false, not, ◌&&◌, ◌||◌, Option, none, some,
  [], ◌∷◌, ◌≡◌, refl, ◌⊎◌, inl, inr, arith, ltb, ◌==◌, if◌then◌else◌, length, Bool-cases,
}
use k8s_at_home.SplitDns.Message.{Question, Msg, Library, rcode_success, rcode_name_error}
use k8s_at_home.SplitDns.Ttl.{cap_ttls, response_ttl}
use k8s_at_home.SplitDns.Cache.{
  Key, CacheEntry, ResponseCache, second, max_cache_message_size, insert, cache_key, served,
  answer_from, lookup_key, store_ttl, lookup, store,
}
use k8s_at_home.SplitDns.Ttl.Cacheable.{response_ttl-Within}
use k8s_at_home.SplitDns.Cache.Copies.{Copy, served-Copy, one_question}
use k8s_at_home.SplitDns.Cache.Entries.{length-insert-le, find-insert_self}

config-insert : (c : ResponseCache) (k : Key) (e : CacheEntry) → (insert c k e).config ≡ c.config
unfolding insert
config-insert c k e = refl

module _ (lib : Library) (c : ResponseCache) (group : String) (request : Msg) where
  store_ttl-length :
      (k : Option Key) (now : ℕ) (o : Option (ℕ × Msg))
      → 0 < c.config.max_entries
      → length c.entries ≤ c.config.max_entries
      → length (store_ttl c k now o).entries ≤ c.config.max_entries
  unfolding store_ttl
  store_ttl-length none now o p h = h
  store_ttl-length (some k) now none p h = h
  store_ttl-length (some k) now (some (ttl, m)) p h =
      length-insert-le c k
        (record {
          message = cap_ttls m (c.config.max_ttl % 2 ^ 32);
          inserted = now;
          ttl = ttl * second;
        })
        p h

  -- Whatever is stored, the cache never holds more entries than its limit.
  pub length-store-le :
      (response : Option Msg) (now : ℕ)
      → 0 < c.config.max_entries
      → length c.entries ≤ c.config.max_entries
      → length (store lib c group request response now).entries ≤ c.config.max_entries
  unfolding store
  length-store-le none now p h = h
  length-store-le (some response) now p h =
      elim (Bool-cases (
        not c.config.enabled
        || response.truncated
        || not (response.rcode == rcode_success) && not (response.rcode == rcode_name_error))) [
          | inl refused ↦ rw refused h
          | inr taken ↦ elim (Bool-cases (ltb max_cache_message_size (lib.len response))) [
            | inl large ↦ rw (taken, large) h
            | inr small ↦
                rw (taken, small)
                  (store_ttl-length (cache_key lib group request) now
                    (response_ttl response (c.config.negative_max_ttl % 2 ^ 32)
                      (c.config.max_ttl % 2 ^ 32))
                    p h)
          ]
        ]

  -- The entry that a store leaves is what a look-up with its key answers from.
  lookup-stored :
      (request' response stored : Msg) (k : Key) (now later ttl : ℕ)
      → c.config.enabled ≡ true
      → response.truncated ≡ false
      → (response.rcode ≡ rcode_success) ⊎ (response.rcode ≡ rcode_name_error)
      → lib.len response ≤ max_cache_message_size
      → cache_key lib group request ≡ some k
      → cache_key lib group request' ≡ some k
      → response_ttl response (c.config.negative_max_ttl % 2 ^ 32) (c.config.max_ttl % 2 ^ 32)
        ≡ some (ttl, stored)
      → (lookup lib (store lib c group request (some response) now) group request' later).0 ≡ (
          if ltb later (now + ttl * second)
          then some (served request' (cap_ttls stored (c.config.max_ttl % 2 ^ 32)) (later - now))
          else none)
  unfolding lookup
  lookup-stored request' response stored k now later ttl on whole code small at at' cacheable =
      rw (kept, config-insert, on, at')
        (unfold lookup_key answer_from in rw find-insert_self (ground arith))
    where
      taken :
          (not c.config.enabled
            || response.truncated
            || not (response.rcode == rcode_success) && not (response.rcode == rcode_name_error))
          ≡ false
      taken = ground arith

      fits : ltb max_cache_message_size (lib.len response) ≡ false
      fits = ground arith

      kept :
          store lib c group request (some response) now
          ≡ insert c k (record {
            message = cap_ttls stored (c.config.max_ttl % 2 ^ 32);
            inserted = now;
            ttl = ttl * second;
          })
      kept = unfold store in rw (taken, fits, at, cacheable) (unfold store_ttl in refl)

  -- A response that may be cached answers each later request with the same key: before its TTL has
  -- passed with a copy of what was stored, which has the id and the question of that request, the
  -- records with their TTLs lowered by the seconds that have passed, rounded up, and else what was
  -- stored; from then on with none.
  pub lookup-store :
      (request' response stored : Msg) (q : Question) (k : Key) (now later ttl : ℕ)
      → c.config.enabled ≡ true
      → 0 < c.config.max_ttl % 2 ^ 32
      → response.truncated ≡ false
      → (response.rcode ≡ rcode_success) ⊎ (response.rcode ≡ rcode_name_error)
      → lib.len response ≤ max_cache_message_size
      → cache_key lib group request ≡ some k
      → cache_key lib group request' ≡ some k
      → response_ttl response (c.config.negative_max_ttl % 2 ^ 32) (c.config.max_ttl % 2 ^ 32)
        ≡ some (ttl, stored)
      → stored.question ≡ q ∷ []
      → now ≤ later
      → ((later < now + ttl * second)
          × (a : Msg) × ((lookup lib
                (store lib c group request (some response) now)
                group
                request'
                later).0
              ≡ some a)
          × Copy request' stored a (later - now))
        ⊎ ((now + ttl * second ≤ later)
            × ((lookup lib (store lib c group request (some response) now) group request' later).0
                ≡ none))
  lookup-store request' response stored q k now later ttl on some_ttl whole code small at at'
        cacheable one order =
      let found =
        lookup-stored request' response stored k now later ttl on whole code small at at'
          cacheable in
      elim (Bool-cases (ltb later (now + ttl * second))) [
        | inl fresh ↦
            let (q', one') = one_question lib group request' k at' in
            let (_, le, within, _) =
              response_ttl-Within response stored _ (c.config.max_ttl % 2 ^ 32) ttl some_ttl
                cacheable in
            inl (
              ground (arith, fresh),
              served request' (cap_ttls stored (c.config.max_ttl % 2 ^ 32)) (later - now),
              (rw fresh at found),
              served-Copy request' stored q q' (later - now) ttl _ one one'
                  (ground (arith, fresh, order)) le (omega arith) within,
            )
        | inr over ↦ inr (ground (arith, over), (rw over at found))
      ]
