-- ===== src/SplitDns/Ttl/Cacheable.antt =====
-- What responseTTL of application/split-dns/src/internal/dnsrouter/cache.go promises, and what
-- capTTLs and decrementTTLs do to the bounds.
use native.Mathlib.Nat.{le_trans}
use mathlib.Core.Bool.{false≢true}
use k8s_at_home.Prelude.{
  sym, ◌∙◌, ℕ, ◌≤◌, ◌<◌, Bool, true, false, ◌||◌, Option, none, some, List, [], ◌∷◌, ◌≡◌, refl, inl,
  inr, arith, ◌==◌, All, Bool-cases, Option-cases,
}
use k8s_at_home.SplitDns.Message.{Rr, soa, opt, other, Msg}
use k8s_at_home.SplitDns.Ttl.{
  lowered, scan, scan_sections, cap_response_records, find_soa, set_soa, lower, negative_ttl,
  positive, is_negative, response_ttl,
}
use k8s_at_home.SplitDns.Ttl.Bounds.{
  Within, MsgWithin, scan-step, scan-nil, sections-step, scan_sections-Within,
}

lowered-le-most :
    (first : Bool) (most ttl : ℕ) (r : Rr) → ttl ≤ most → lowered first most r ttl ≤ most
lowered-le-most first most ttl (soa u m) h = ground arith
lowered-le-most first most ttl (opt d u v o) h = h
lowered-le-most first most ttl (other u s) h = ground arith

scan-le-most :
    (first : Bool) (most ttl : ℕ) (rs : List Rr) (t : ℕ) (rs' : List Rr)
    → ttl ≤ most
    → scan first most ttl rs ≡ some (t, rs')
    → t ≤ most
scan-le-most first most ttl [] t rs' p h = omega (arith, (scan-nil first most ttl t rs' h).0)
scan-le-most first most ttl (r ∷ rs) t rs' p h =
    let (us, rest, _, _) = scan-step first most ttl r rs h in
    scan-le-most first most (lowered first most r ttl) rs t us (lowered-le-most first most ttl r p)
      rest

sections-le-most :
    (first : Bool) (most ttl v : ℕ) (m m' : Msg)
    → ttl ≤ most
    → scan_sections first most ttl m ≡ some (v, m')
    → v ≤ most
sections-le-most first most ttl v m m' p h =
    let (t, u, e, e', e'') = sections-step first most ttl v m m' h in
    scan-le-most first most u m.extra v m'.extra
      (scan-le-most first most t m.ns u m'.ns (scan-le-most first most ttl m.answer t m'.answer p e)
        e')
      e''

set_soa-Within :
    (low high : ℕ) (rs : List Rr)
    → low ≤ high
    → All (Within low high) rs
    → All (Within low high) (set_soa low rs)
unfolding set_soa
set_soa-Within low high [] p h = tt
set_soa-Within low high (soa t m ∷ rs) p h = (λ e. (omega arith, p), h.1)
set_soa-Within low high (opt d u v o ∷ rs) p h = (h.0, set_soa-Within low high rs p h.1)
set_soa-Within low high (other t s ∷ rs) p h = (h.0, set_soa-Within low high rs p h.1)

positive-some :
    (o : Option (ℕ × Msg)) (ttl : ℕ) (m : Msg)
    → positive o ≡ some (ttl, m)
    → (o ≡ some (ttl, m)) × (0 < ttl)
unfolding positive
positive-some none ttl m h = absurd (ground arith)
positive-some (some (t, n)) ttl m h = (ground arith, ground arith)

lower_bounds : (ttl bound : ℕ) → (lower ttl bound ≤ bound) × (lower ttl bound ≤ ttl)
lower_bounds ttl bound = (ground arith, ground arith)

-- A TTL of a negative answer, and the records it bounds.
negative-Within :
    (s : Option (ℕ × ℕ)) (negative_max most ttl : ℕ) (m m' : Msg)
    → 0 < most
    → negative_ttl s negative_max most m ≡ some (ttl, m')
    → (ttl ≤ negative_max) × (ttl ≤ most) × MsgWithin ttl most m'
unfolding negative_ttl cap_response_records
negative-Within none negative_max most ttl m m' p h = absurd (ground arith)
negative-Within (some (t, minimum)) negative_max most ttl m m' p h =
    elim (Bool-cases ((t == 0) || (minimum == 0))) [
      | inl zero_ttl ↦ absurd (ground arith)
      | inr counted ↦ elim (Option-cases (scan_sections false most bound m)) [
        | inl e ↦ absurd (ground arith)
        | inr ((v, n), e) ↦
            let (le, within) = scan_sections-Within false most bound v m n p e in
            let same : v ≡ ttl = ground arith in
            let shape : record n { ns = set_soa v n.ns } ≡ m' = ground arith in
            let least : v ≤ bound = le (inl refl) in
            let (below_most, below_lowered) =
              lower_bounds (lower (lower t minimum) negative_max) most in
            let below : v ≤ most = le_trans least below_most in
            let (below_negative, _) = lower_bounds (lower t minimum) negative_max in
            rw (← same, ← shape)
              (
                le_trans (le_trans least below_lowered) below_negative,
                below,
                (within.0, set_soa-Within v most n.ns below within.1, within.2),
              )
      ]
    ]
  where
    bound : ℕ
    bound = lower (lower (lower t minimum) negative_max) most

-- A response is cached for a positive time that is at most the limit, and at most the limit for
-- negative answers if it is one. In the message that is stored no record other than OPT has a TTL
-- below this time or above the limit, so none runs out before its entry does.
pub response_ttl-Within :
    (m m' : Msg) (negative_max most ttl : ℕ)
    → 0 < most
    → response_ttl m negative_max most ≡ some (ttl, m')
    → (0 < ttl) × (ttl ≤ most) × MsgWithin ttl most m' × (is_negative m ≡ true → ttl ≤ negative_max)
unfolding response_ttl
response_ttl-Within m m' negative_max most ttl p h = elim (Bool-cases (is_negative m)) [
  | inl negative ↦
      let (e, above) =
        positive-some (negative_ttl (find_soa m.ns) negative_max most m) ttl m'
          (rw negative at h) in
      let (le, le', within) = negative-Within (find_soa m.ns) negative_max most ttl m m' p e in
      (above, le', within, λ n. le)
  | inr answered ↦
      let (e, above) = positive-some (scan_sections true most 0 m) ttl m' (rw answered at h) in
      (
        above,
        sections-le-most true most 0 ttl m m' (omega arith) e,
        (scan_sections-Within true most 0 ttl m m' p e).1,
        λ n. absurd (false≢true (sym answered ∙ n)),
      )
]
