-- ===== src/SplitDns/Ttl.antt =====
-- The TTL functions of application/split-dns/src/internal/dnsrouter/cache.go: responseTTL,
-- capTTLs, capResponseRecords and decrementTTLs. They change a message in place; the functions
-- here return the changed message, and nothing where the program drops it.
pub mod Bounds
pub mod Cacheable
use k8s_at_home.Prelude.{
  ℕ, ◌+◌, ◌-◌, Bool, true, false, not, ◌&&◌, ◌||◌, Option, none, some, List, [], ◌∷◌, ltb, leb,
  ◌==◌, if◌then◌else◌,
}
use k8s_at_home.SplitDns.Message.{Rr, soa, opt, other, Msg, rcode_success, rcode_name_error}

-- record.Header().Ttl
abbrev pub ttl_of : Rr → ℕ
ttl_of (soa t m) = t
ttl_of (opt d u v o) = 0
ttl_of (other t s) = t

abbrev pub with_ttl : ℕ → Rr → Rr
with_ttl t (soa _ m) = soa t m
with_ttl t (opt d u v o) = opt d u v o
with_ttl t (other _ s) = other t s

abbrev pub is_opt : Rr → Bool
is_opt (opt d u v o) = true
is_opt _ = false

-- A function of the records of the three sections, in their order.
abbrev each : (List Rr → List Rr) → Msg → Msg
each f m = record m { answer = f m.answer; ns = f m.ns; extra = f m.extra }

abbrev pub capped : ℕ → Rr → Rr
capped most r = if is_opt r then r else if ltb most (ttl_of r) then with_ttl most r else r

unfoldable pub cap_section : ℕ → List Rr → List Rr
cap_section most [] = []
cap_section most (r ∷ rs) = capped most r ∷ cap_section most rs

unfoldable pub cap_ttls : Msg → ℕ → Msg
unfolding cap_section
cap_ttls m most = each (cap_section most) m

unfoldable pub decrement_section : ℕ → List Rr → List Rr
decrement_section seconds [] = []
decrement_section seconds (r ∷ rs) =
    (if is_opt r
      then r
      else if leb (ttl_of r) seconds
      then with_ttl 0 r
      else with_ttl (ttl_of r - seconds) r)
    ∷ decrement_section seconds rs

unfoldable pub decrement_ttls : Msg → ℕ → Msg
unfolding decrement_section
decrement_ttls m seconds = each (decrement_section seconds) m

-- The loop that lowers `ttl` to the least TTL, capping each record, and fails at a TTL of 0.
-- `first` says that a `ttl` of 0 has not been set yet.
abbrev pub lowered : Bool → ℕ → Rr → ℕ → ℕ
lowered first most r ttl =
    if is_opt r
    then ttl
    else if first && (ttl == 0) || ltb (ttl_of (capped most r)) ttl
    then ttl_of (capped most r)
    else ttl

abbrev pub scanned : Rr → Option (ℕ × List Rr) → Option (ℕ × List Rr)
scanned r none = none
scanned r (some (t, rs)) = some (t, r ∷ rs)

unfoldable pub scan : Bool → ℕ → ℕ → List Rr → Option (ℕ × List Rr)
scan first most ttl [] = some (ttl, [])
scan first most ttl (r ∷ rs) =
    let rest = scan first most (lowered first most r ttl) rs in
    if not (is_opt r) && (ttl_of r == 0) then none else scanned (capped most r) rest

unfoldable pub scan_sections : Bool → ℕ → ℕ → Msg → Option (ℕ × Msg)
unfolding scan
scan_sections first most ttl m = elim (scan first most ttl m.answer) [
  | none ↦ none
  | some (t, answer) ↦ elim (scan first most t m.ns) [
    | none ↦ none
    | some (u, ns) ↦ elim (scan first most u m.extra) [
      | none ↦ none
      | some (v, extra) ↦ some (v, record m { answer = answer; ns = ns; extra = extra })
    ]
  ]
]

-- capResponseRecords
unfoldable pub cap_response_records : ℕ → ℕ → Msg → Option (ℕ × Msg)
unfolding scan_sections
cap_response_records most ttl m = scan_sections false most ttl m

-- The first SOA of the authority section.
unfoldable pub find_soa : List Rr → Option (ℕ × ℕ)
find_soa [] = none
find_soa (soa t m ∷ rs) = some (t, m)
find_soa (_ ∷ rs) = find_soa rs

unfoldable pub set_soa : ℕ → List Rr → List Rr
set_soa t [] = []
set_soa t (soa _ m ∷ rs) = soa t m ∷ rs
set_soa t (r ∷ rs) = r ∷ set_soa t rs

abbrev lower : ℕ → ℕ → ℕ
lower ttl bound = if ltb bound ttl then bound else ttl

positive : Option (ℕ × Msg) → Option (ℕ × Msg)
positive none = none
positive (some (ttl, m)) = if ltb 0 ttl then some (ttl, m) else none

is_empty : List Rr → Bool
is_empty [] = true
is_empty _ = false

unfoldable pub is_negative : Msg → Bool
unfolding is_empty
is_negative m = (m.rcode == rcode_name_error) || (m.rcode == rcode_success) && is_empty m.answer

negative_ttl : Option (ℕ × ℕ) → ℕ → ℕ → Msg → Option (ℕ × Msg)
negative_ttl none negative_max most m = none
negative_ttl (some (t, minimum)) negative_max most m =
    if (t == 0) || (minimum == 0)
    then none
    else (elim (cap_response_records most (lower (lower (lower t minimum) negative_max) most) m) [
      | none ↦ none
      | some (ttl, m') ↦ some (ttl, record m' { ns = set_soa ttl m'.ns })
    ])

-- responseTTL: the TTL of a message that may be cached, and the message that it has changed.
unfoldable pub response_ttl : Msg → ℕ → ℕ → Option (ℕ × Msg)
unfolding is_negative negative_ttl positive find_soa set_soa cap_response_records
response_ttl m negative_max most = positive (
    if is_negative m
    then negative_ttl (find_soa m.ns) negative_max most m
    else scan_sections true most 0 m)
