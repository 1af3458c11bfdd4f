-- ===== src/SplitDns/Ttl/Bounds.antt =====
-- The TTL under which a response is cached is a bound of the TTLs of its records
-- (responseTTL of application/split-dns/src/internal/dnsrouter/cache.go).
use native.Mathlib.Nat.{le_trans}
use k8s_at_home.Prelude.{
  ℕ, ◌≤◌, ◌<◌, Bool, true, false, not, ◌&&◌, some, List, [], ◌∷◌, ◌≡◌, refl, ◌⊎◌, inl, inr, arith,
  ◌==◌, All, Option-cases,
}
use k8s_at_home.SplitDns.Message.{Rr, soa, opt, other, Msg}
use k8s_at_home.SplitDns.Ttl.{ttl_of, is_opt, capped, lowered, scan, scan_sections}

-- A record other than OPT has a TTL from `low` to `high`.
abbrev pub Within : ℕ → ℕ → Rr → Type 0
Within low high r = (is_opt r ≡ false) → (low ≤ ttl_of r) × (ttl_of r ≤ high)

abbrev pub MsgWithin : ℕ → ℕ → Msg → Type 0
MsgWithin low high m =
    All (Within low high) m.answer × All (Within low high) m.ns × All (Within low high) m.extra

pub scan-step :
    (first : Bool) (most ttl : ℕ) (r : Rr) (rs : List Rr) {t : ℕ} {rs' : List Rr}
    → scan first most ttl (r ∷ rs) ≡ some (t, rs')
    → (us : List Rr) × (scan first most (lowered first most r ttl) rs ≡ some (t, us))
      × (rs' ≡ capped most r ∷ us)
      × ((not (is_opt r) && (ttl_of r == 0)) ≡ false)
unfolding scan
scan-step first most ttl r rs {t} {rs'} h =
    elim (Option-cases (scan first most (lowered first most r ttl) rs)) [
      | inl e ↦ absurd (ground arith)
      | inr ((u, us), e) ↦ (us, ground arith, ground arith, ground arith)
    ]

lowered_pos :
    (first : Bool) (most ttl : ℕ) (r : Rr)
    → 0 < most
    → is_opt r ≡ false
    → (not (is_opt r) && (ttl_of r == 0)) ≡ false
    → (first ≡ false) ⊎ (0 < lowered first most r ttl)
lowered_pos false most ttl r p o g = inl refl
lowered_pos true most ttl (soa u m) p o g = inr (ground arith)
lowered_pos true most ttl (opt d u v x) p o g = cc
lowered_pos true most ttl (other u s) p o g = inr (ground arith)

lowered-le :
    (first : Bool) (most ttl t : ℕ) (r : Rr)
    → 0 < most
    → (not (is_opt r) && (ttl_of r == 0)) ≡ false
    → ((first ≡ false) ⊎ (0 < lowered first most r ttl) → t ≤ lowered first most r ttl)
    → ((first ≡ false) ⊎ (0 < ttl) → t ≤ ttl) × Within t most (capped most r)
lowered-le first most ttl t (soa u m) p g h =
    let le = h (lowered_pos first most ttl (soa u m) p refl g) in
    (λ c. ground arith, λ e. (ground arith, ground arith))
lowered-le first most ttl t (opt d u v o) p g h = (h, λ e. cc)
lowered-le first most ttl t (other u s) p g h =
    let le = h (lowered_pos first most ttl (other u s) p refl g) in
    (λ c. ground arith, λ e. (ground arith, ground arith))

-- The running TTL counts: it has been set.
abbrev Set : Bool → ℕ → Type 0
Set first ttl = (first ≡ false) ⊎ (0 < ttl)

Set-lowered :
    (first : Bool) (most ttl : ℕ) (r : Rr)
    → 0 < most
    → (not (is_opt r) && (ttl_of r == 0)) ≡ false
    → Set first ttl
    → Set first (lowered first most r ttl)
Set-lowered first most ttl (soa u m) p g h = lowered_pos first most ttl (soa u m) p refl g
Set-lowered first most ttl (opt d u v o) p g h = h
Set-lowered first most ttl (other u s) p g h = lowered_pos first most ttl (other u s) p refl g

pub scan-nil :
    (first : Bool) (most ttl t : ℕ) (rs' : List Rr)
    → scan first most ttl [] ≡ some (t, rs')
    → (t ≡ ttl) × (rs' ≡ [])
unfolding scan
scan-nil first most ttl t rs' h = ground arith

-- The result is at most a TTL that was set before, and any bound of it bounds the records.
pub scan-Within :
    (first : Bool) (most ttl : ℕ) (rs : List Rr) (t : ℕ) (rs' : List Rr)
    → 0 < most
    → scan first most ttl rs ≡ some (t, rs')
    → (Set first ttl → (t ≤ ttl) × Set first t)
      × ((v : ℕ) → (Set first t → v ≤ t) → All (Within v most) rs')
scan-Within first most ttl [] t rs' p h =
    let (same, none_left) = scan-nil first most ttl t rs' h in
    (λ c. (omega arith, rw same c), λ v b. rw none_left tt)
scan-Within first most ttl (r ∷ rs) t rs' p h =
    let (us, rest, shape, kept) = scan-step first most ttl r rs h in
    let next = lowered first most r ttl in
    let (le, all) = scan-Within first most next rs t us p rest in
    (
      λ c. (
        (lowered-le first most ttl t r p kept (λ n. (le n).0)).0 c,
        (le (Set-lowered first most ttl r p kept c)).1,
      ),
      λ v b.
          rw shape (
            (lowered-le first most ttl v r p kept (λ n. le_trans (b (le n).1) (le n).0)).1,
            all v b,
          ),
    )

pub sections-step :
    (first : Bool) (most ttl v : ℕ) (m m' : Msg)
    → scan_sections first most ttl m ≡ some (v, m')
    → (t u : ℕ) × (scan first most ttl m.answer ≡ some (t, m'.answer))
      × (scan first most t m.ns ≡ some (u, m'.ns))
      × (scan first most u m.extra ≡ some (v, m'.extra))
unfolding scan_sections
sections-step first most ttl v m m' h = elim (Option-cases (scan first most ttl m.answer)) [
  | inl e ↦ absurd (ground arith)
  | inr ((t, answer), e) ↦ elim (Option-cases (scan first most t m.ns)) [
    | inl e' ↦ absurd (ground arith)
    | inr ((u, ns), e') ↦ elim (Option-cases (scan first most u m.extra)) [
      | inl e'' ↦ absurd (ground arith)
      | inr ((v', extra), e'') ↦ (t, u, ground arith, ground arith, ground arith)
    ]
  ]
]

pub scan_sections-Within :
    (first : Bool) (most ttl v : ℕ) (m m' : Msg)
    → 0 < most
    → scan_sections first most ttl m ≡ some (v, m')
    → (Set first ttl → v ≤ ttl) × MsgWithin v most m'
scan_sections-Within first most ttl v m m' p h =
    let (t, u, e, e', e'') = sections-step first most ttl v m m' h in
    let (a, in_answer) = scan-Within first most ttl m.answer t m'.answer p e in
    let (b, in_ns) = scan-Within first most t m.ns u m'.ns p e' in
    let (c, in_extra) = scan-Within first most u m.extra v m'.extra p e'' in
    (
      λ s. le_trans (c (b (a s).1).1).0 (le_trans (b (a s).1).0 (a s).0),
      (
        in_answer v (λ s. le_trans (c (b s).1).0 (b s).0),
        in_ns v (λ s. (c s).0),
        in_extra v (λ s. omega arith),
      ),
    )
