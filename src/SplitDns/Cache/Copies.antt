-- ===== src/SplitDns/Cache/Copies.antt =====
-- What a copy from the cache is (application/split-dns/src/internal/dnsrouter/cache.go: the end of
-- lookup, and decrementTTLs), as a relation to the message that was stored.
use k8s_at_home.Prelude.{
  ℕ, ◌+◌, ◌-◌, ◌*◌, ◌/◌, ◌%◌, ◌^◌, ◌≤◌, ◌<◌, String, Bool, false, not, ◌||◌, ◌==◌, Option, some,
  List, [], ◌∷◌, ◌≡◌, refl, arith, ltb, leb, All, Bool-cases, inl, inr,
}
use k8s_at_home.SplitDns.Message.{Question, Rr, soa, opt, other, Msg, Library, opcode_query}
use k8s_at_home.SplitDns.Ttl.{cap_section, cap_ttls, decrement_section, decrement_ttls}
use k8s_at_home.SplitDns.Ttl.Bounds.{Within, MsgWithin}
use k8s_at_home.SplitDns.Cache.{Key, second, question_key, extras, cache_key, served}

-- The record of the copy is that of the store, `n` seconds later; an OPT record has no TTL.
pub data Aged (n : ℕ) : Rr → Rr → Type 0 where
  aged_soa : (t m u : ℕ) → u + n ≡ t → Aged n (soa t m) (soa u m)
  kept_opt : (d : Bool) (u v : ℕ) (o : Bool) → Aged n (opt d u v o) (opt d u v o)
  aged_other : (t u : ℕ) (s : String) → u + n ≡ t → Aged n (other t s) (other u s)

pub data AllAged (n : ℕ) : List Rr → List Rr → Type 0 where
  no_more : AllAged n [] []
  one_more :
      (r a : Rr) (rs as' : List Rr) → Aged n r a → AllAged n rs as' → AllAged n (r ∷ rs) (a ∷ as')

-- The message `a` answers the request with what is stored, some time after it was stored: it has
-- the id and the question of the request, the records of the store, whose TTLs are lowered by the
-- time in whole seconds, rounded up, and the other fields of the store.
pub record Copy (request stored a : Msg) (elapsed : ℕ) : Type 0 where
  pub same_id : a.id ≡ request.id
  pub same_question : a.question ≡ request.question
  pub seconds : ℕ
  pub enough : elapsed ≤ seconds * second
  pub least : seconds * second < elapsed + second
  pub answers : AllAged seconds stored.answer a.answer
  pub authorities : AllAged seconds stored.ns a.ns
  pub additionals : AllAged seconds stored.extra a.extra
  pub others : a ≡ record stored {
    id = a.id;
    question = a.question;
    answer = a.answer;
    ns = a.ns;
    extra = a.extra;
  }

section-AllAged :
    (n ttl most : ℕ) (rs : List Rr)
    → n ≤ ttl
    → All (Within ttl most) rs
    → AllAged n rs (decrement_section n (cap_section most rs))
unfolding decrement_section cap_section
section-AllAged n ttl most [] p h = no_more
section-AllAged n ttl most (opt d u v o ∷ rs) p h =
    one_more _ _ _ _ (kept_opt d u v o) (section-AllAged n ttl most rs p h.1)
section-AllAged n ttl most (soa t m ∷ rs) p h =
    let (low, high) = h.0 refl in
    let whole : ltb most t ≡ false = ground arith in
    one_more _ _ _ _
      (elim (Bool-cases (leb t n)) [
        | inl over ↦ rw (whole, over) (aged_soa t m 0 (ground arith))
        | inr left ↦ rw (whole, left) (aged_soa t m (t - n) (ground arith))
      ])
      (section-AllAged n ttl most rs p h.1)
section-AllAged n ttl most (other t s ∷ rs) p h =
    let (low, high) = h.0 refl in
    let whole : ltb most t ≡ false = ground arith in
    one_more _ _ _ _
      (elim (Bool-cases (leb t n)) [
        | inl over ↦ rw (whole, over) (aged_other t 0 s (ground arith))
        | inr left ↦ rw (whole, left) (aged_other t (t - n) s (ground arith))
      ])
      (section-AllAged n ttl most rs p h.1)

-- The time in seconds, rounded up, does not wrap before the entry expires.
seconds_bounds :
    (elapsed ttl : ℕ)
    → elapsed < ttl * second
    → ttl < 2 ^ 32
    → (((elapsed + second - 1) / second % 2 ^ 32) ≤ ttl)
      × (elapsed ≤ ((elapsed + second - 1) / second % 2 ^ 32) * second)
      × (((elapsed + second - 1) / second % 2 ^ 32) * second < elapsed + second)
seconds_bounds elapsed ttl h small = (omega arith, omega arith, omega arith)

pub served-Copy :
    (request stored : Msg) (q q' : Question) (elapsed ttl most : ℕ)
    → stored.question ≡ q ∷ []
    → request.question ≡ q' ∷ []
    → elapsed < ttl * second
    → ttl ≤ most
    → most < 2 ^ 32
    → MsgWithin ttl most stored
    → Copy request stored (served request (cap_ttls stored most) elapsed) elapsed
unfolding served cap_ttls decrement_ttls
served-Copy request stored q q' elapsed ttl most one one' h le small within =
    let (p, enough, least) = seconds_bounds elapsed ttl h (omega arith) in
    rw (one, one')
      (record {
        same_id = refl;
        same_question = refl;
        seconds = (elapsed + second - 1) / second % 2 ^ 32;
        enough = enough;
        least = least;
        answers = section-AllAged _ ttl most stored.answer p within.0;
        authorities = section-AllAged _ ttl most stored.ns p within.1;
        additionals = section-AllAged _ ttl most stored.extra p within.2;
        others = refl;
      })

-- A request that has a key asks one question.
pub one_question :
    (lib : Library) (group : String) (request : Msg) (k : Key)
    → cache_key lib group request ≡ some k
    → (q : Question) × (request.question ≡ q ∷ [])
unfolding cache_key question_key
one_question lib group request k h =
    elim (Bool-cases (not (request.opcode == opcode_query) || lib.is_tsig request)) [
      | inl refused ↦ absurd (ground (arith, refused, h))
      | inr taken ↦ asked request.question (extras false 0 request.extra) (rw taken at h)
    ]
  where
    asked :
        (qs : List Question) (o : Option (Bool × ℕ))
        → question_key lib group request qs o ≡ some k
        → (q : Question) × (qs ≡ q ∷ [])
    asked [] o h = absurd (ground arith)
    asked (q ∷ []) o h = (q, refl)
    asked (q ∷ q' ∷ qs) o h = absurd (ground arith)
