-- ===== src/SplitDns/Cache/Entries.antt =====
-- The map of the response cache (application/split-dns/src/internal/dnsrouter/cache.go): its
-- size, and what a look-up finds after a store.
use mathlib.Core.Bool.{false≢true}
use k8s_at_home.Prelude.{
  sym, subst, ap, ◌∙◌, All, ℕ, ◌+◌, ◌≤◌, ◌<◌, true, false, some, List, [], ◌∷◌, ◌≡◌, refl, ◌⊎◌, inl,
  inr, arith, ltb, leb, length, str_eq_refl, Bool-cases, Option-cases,
}
use k8s_at_home.SplitDns.Cache.{
  Key, CacheEntry, ResponseCache, key_eq, find, delete, oldest, evict_oldest, is_none, insert,
}

key_eq_refl : (k : Key) → key_eq k k ≡ true
unfolding key_eq
key_eq_refl k = rw (str_eq_refl k.group, str_eq_refl k.name) (ground arith)

length-delete-le : (k : Key) (es : List (Key × CacheEntry)) → length (delete k es) ≤ length es
unfolding delete
length-delete-le k [] = omega arith
length-delete-le k ((j, e) ∷ es) = ground (arith, length-delete-le k es)

-- A key that is there takes at least one entry with it.
length-delete-lt :
    (k : Key) (es : List (Key × CacheEntry)) (e : CacheEntry)
    → find k es ≡ some e
    → length (delete k es) < length es
unfolding find delete
length-delete-lt k [] e h = absurd (ground arith)
length-delete-lt k ((j, f) ∷ es) e h =
    ground (arith, length-delete-lt k es e, length-delete-le k es)

abbrev Found : Key → List (Key × CacheEntry) → Type 0
Found k es = (e : CacheEntry) × (find k es ≡ some e)

present :
    (i k : Key) (e f : CacheEntry) (es : List (Key × CacheEntry))
    → (key_eq i k ≡ true) ⊎ (find k es ≡ some f)
    → Found k ((i, e) ∷ es)
unfolding find
present i k e f es h = elim (Bool-cases (key_eq i k)) [
  | inl same ↦ (e, rw same)
  | inr other ↦ elim h [
    | inl same ↦ absurd (false≢true (sym other ∙ same))
    | inr found ↦ (f, rw (other, found))
  ]
]

-- The pair is one of the list.
abbrev pub Member : Key × CacheEntry → List (Key × CacheEntry) → Type 0
Member x [] = ⊥
Member x (y ∷ ys) = (x ≡ y) ⊎ Member x ys

Member-Found :
    (k : Key) (f : CacheEntry) (es : List (Key × CacheEntry)) → Member (k, f) es → Found k es
Member-Found k f [] there = elim there [ ]
Member-Found k f ((i, e) ∷ es) (inl same) =
    present i k e e es (inl (rw (ap (λ x. x.0) same) (key_eq_refl i)))
Member-Found k f ((i, e) ∷ es) (inr there) =
    let (g, found) = Member-Found k f es there in present i k e g es (inr found)

-- An entry of the key that expires at the time.
abbrev Expires : Key → ℕ → List (Key × CacheEntry) → Type 0
Expires k t es = (f : CacheEntry) × Member (k, f) es × (t ≡ f.inserted + f.ttl)

oldest-Expires :
    (best : Key × ℕ) (es : List (Key × CacheEntry)) (k : Key) (t : ℕ)
    → oldest (some best) es ≡ some (k, t)
    → ((k ≡ best.0) × (t ≡ best.1)) ⊎ Expires k t es
unfolding oldest
oldest-Expires (j, u) [] k t h = inl (ground arith, ground arith)
oldest-Expires (j, u) ((i, e) ∷ es) k t h = elim (Bool-cases (ltb (e.inserted + e.ttl) u)) [
  | inl earlier ↦ elim (oldest-Expires (i, e.inserted + e.ttl) es k t (rw earlier at h)) [
    | inl (same, at) ↦ inr (e, inl (λ n. (same n, e)), at)
    | inr (f, there, at) ↦ inr (f, inr there, at)
  ]
  | inr later ↦ elim (oldest-Expires (j, u) es k t (rw later at h)) [
    | inl same ↦ inl same
    | inr (f, there, at) ↦ inr (f, inr there, at)
  ]
]

oldest-some :
    (best : Key × ℕ) (es : List (Key × CacheEntry))
    → (r : Key × ℕ) × (oldest (some best) es ≡ some r)
unfolding oldest
oldest-some best [] = (best, refl)
oldest-some (j, u) ((i, e) ∷ es) = elim (Bool-cases (ltb (e.inserted + e.ttl) u)) [
  | inl earlier ↦ rw earlier (oldest-some (i, e.inserted + e.ttl) es)
  | inr later ↦ rw later (oldest-some (j, u) es)
]

-- The expiry that is found is the least of all.
oldest-least :
    (best : Key × ℕ) (es : List (Key × CacheEntry)) (k : Key) (t : ℕ)
    → oldest (some best) es ≡ some (k, t)
    → (t ≤ best.1) × All (λ x. t ≤ x.1.inserted + x.1.ttl) es
unfolding oldest
oldest-least (j, u) [] k t h = (ground arith, tt)
oldest-least (j, u) ((i, e) ∷ es) k t h = elim (Bool-cases (ltb (e.inserted + e.ttl) u)) [
  | inl earlier ↦
      let (le, rest) = oldest-least (i, e.inserted + e.ttl) es k t (rw earlier at h) in
      (ground arith, (le, rest))
  | inr later ↦
      let (le, rest) = oldest-least (j, u) es k t (rw later at h) in (le, (ground arith, rest))
]

-- An eviction from a cache that is not empty removes the entries of one key, an entry of which
-- expires no later than any entry of the cache, and makes the cache smaller.
pub evict_oldest-earliest :
    (e : Key × CacheEntry) (es : List (Key × CacheEntry))
    → (k : Key) × (f : CacheEntry) × Member (k, f) (e ∷ es)
      × (evict_oldest (e ∷ es) ≡ delete k (e ∷ es))
      × All (λ x. f.inserted + f.ttl ≤ x.1.inserted + x.1.ttl) (e ∷ es)
      × (length (evict_oldest (e ∷ es)) ≤ length es)
unfolding evict_oldest oldest
evict_oldest-earliest (j, e) es =
    let ((k, t), found) = oldest-some (j, e.inserted + e.ttl) es in
    let shape : evict_oldest ((j, e) ∷ es) ≡ delete k ((j, e) ∷ es) = rw (found, evict_oldest) in
    let (f, there, at) = expiry k t found in
    let (g, here) = Member-Found k f ((j, e) ∷ es) there in
    (
      k,
      f,
      there,
      shape,
      subst (λ u. All (λ x. u ≤ x.1.inserted + x.1.ttl) ((j, e) ∷ es)) at
          (oldest-least (j, e.inserted + e.ttl) es k t found),
      rw shape (omega (arith, length-delete-lt k ((j, e) ∷ es) g here)),
    )
  where
    expiry :
        (k : Key) (t : ℕ)
        → oldest (some (j, e.inserted + e.ttl)) es ≡ some (k, t)
        → Expires k t ((j, e) ∷ es)
    expiry k t found = elim (oldest-Expires (j, e.inserted + e.ttl) es k t found) [
      | inl (same, at) ↦ (e, inl (λ n. (same n, e)), at)
      | inr (f, later, at) ↦ (f, inr later, at)
    ]

length-evict_oldest-lt :
    (es : List (Key × CacheEntry)) → 0 < length es → length (evict_oldest es) < length es
length-evict_oldest-lt [] h = elim h [ ]
length-evict_oldest-lt (e ∷ es) h =
    let (_, _, _, _, _, le) = evict_oldest-earliest e es in omega arith

-- An insertion keeps the number of entries within the configured limit.
pub length-insert-le :
    (c : ResponseCache) (k : Key) (e : CacheEntry)
    → 0 < c.config.max_entries
    → length c.entries ≤ c.config.max_entries
    → length (insert c k e).entries ≤ c.config.max_entries
unfolding insert is_none
length-insert-le c k e positive h = elim (Option-cases (find k c.entries)) [
  | inr (f, there) ↦ rw there (omega (arith, length-delete-lt k c.entries f there))
  | inl absent ↦ elim (Bool-cases (leb c.config.max_entries (length c.entries))) [
    | inl full ↦
        rw (absent, full)
          (omega (
            arith,
            length-delete-le k (evict_oldest c.entries),
            length-evict_oldest-lt c.entries (ground arith),
          ))
    | inr room ↦ rw (absent, room) (omega (arith, length-delete-le k c.entries, spare room))
  ]
]
  where
    spare :
        leb c.config.max_entries (length c.entries) ≡ false
        → length c.entries < c.config.max_entries
    spare room = ground arith

-- The inserted entry is what is found under its key.
pub find-insert_self :
    (c : ResponseCache) (k : Key) (e : CacheEntry) → find k (insert c k e).entries ≡ some e
unfolding insert find
find-insert_self c k e = rw (key_eq_refl k)
