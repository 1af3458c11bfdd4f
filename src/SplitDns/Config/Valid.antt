-- ===== src/SplitDns/Config/Valid.antt =====
-- What a configuration is that Config.Validate of internal/config/config.go accepts.
use mathlib.Core.Bool.{false≢true}
use k8s_at_home.Prelude.{
  ◌^◌, ◌≤◌, ◌<◌, String, Bool, true, false, not, ◌&&◌, ◌||◌, List, [], ◌∷◌, ltb, str_eq, All, ◌≡◌,
  refl, sym, ap, subst, ◌∙◌, ◌⊎◌, inl, inr, arith, Bool-cases, str_eq_refl, eq_of-str_eq, ◌-◌,
}
use k8s_at_home.SplitDns.Cache.{Settings}
use k8s_at_home.Prelude.Checks.{ok, ok-injective, >>=-ok, refuse_if-ok, >>-ok, refuse-then}
use k8s_at_home.SplitDns.Config.{has, blank, Rule, UpstreamGroup, Config, Platform}
use k8s_at_home.SplitDns.Config.Names.{normalize_domain}
use k8s_at_home.SplitDns.Config.Check.{
  RuleKey, seen, check_rule, check_rules, check_cache, validate, listeners, default_group,
  check_proxies, check_groups,
}

not-false : (b : Bool) → not b ≡ false → b ≡ true
not-false true e = refl
not-false false e = absurd (false≢true (sym e))

pub CacheBounds : Settings → Type 0
CacheBounds s =
    (1 ≤ s.max_entries)
    × (s.max_entries ≤ 16384)
    × (1 ≤ s.max_ttl)
    × (s.max_ttl < 2 ^ 32)
    × (1 ≤ s.negative_max_ttl)
    × (s.negative_max_ttl < 2 ^ 32)

module _ (platform : Platform) where
  -- Two rules for one name with one way of matching.
  pub Clash : Rule → Rule → Type 0
  Clash r s =
      (d : String) × (normalize_domain platform r.domain ≡ ok d)
      × (normalize_domain platform s.domain ≡ ok d)
      × (r.match ≡ s.match)

  pub NoClash : List Rule → Type 0
  NoClash [] = Unit
  NoClash (r ∷ rs) = All (λ s. ¬ Clash r s) rs × NoClash rs

  pub RuleKnown : List (String × UpstreamGroup) → Rule → Type 0
  RuleKnown groups r =
      ((d : String) × (normalize_domain platform r.domain ≡ ok d))
      × ((r.match ≡ "exact") ⊎ (r.match ≡ "suffix"))
      × (has r.upstream_group groups ≡ true)

  pub record Valid (c : Config) : Type 0 where
    pub default_exists : has c.default_upstream_group c.upstream_groups ≡ true
    pub rules_known : All (RuleKnown c.upstream_groups) c.rules
    pub rules_distinct : NoClash c.rules
    pub cache_bounds : (c.cache.enabled ≡ false) ⊎ CacheBounds c.cache

  bounds :
      (s : Settings)
      → s.enabled ≡ true
      → (s.enabled
          && (ltb s.max_entries 1
              || ltb 16384 s.max_entries
              || ltb s.max_ttl 1
              || ltb s.negative_max_ttl 1))
        ≡ false
      → (s.enabled && (ltb (2 ^ 32 - 1) s.max_ttl || ltb (2 ^ 32 - 1) s.negative_max_ttl)) ≡ false
      → CacheBounds s
  unfolding CacheBounds
  bounds s on p r = ground arith

  check_cache-bounds :
      (s : Settings) → check_cache platform s ≡ ok tt → (s.enabled ≡ false) ⊎ CacheBounds s
  unfolding check_cache
  check_cache-bounds s e =
      let (p, q) = refuse-then _ _ _ _ e in
      let r = refuse_if-ok _ _ _ q in
      elim (Bool-cases s.enabled) [ inr off ↦ inl off | inl on ↦ inr (bounds s on p r) ]

  matches-either :
      (m : String)
      → (not (str_eq m "exact") && not (str_eq m "suffix")) ≡ false
      → (m ≡ "exact") ⊎ (m ≡ "suffix")
  matches-either m e = elim (Bool-cases (str_eq m "exact")) [
    | inl p ↦ inl (eq_of-str_eq m "exact" p)
    | inr p ↦ inr (eq_of-str_eq m "suffix" (not-false _ (second_test p)))
  ]
    where
      second_test : str_eq m "exact" ≡ false → not (str_eq m "suffix") ≡ false
      second_test p = subst (λ b. (not b && not (str_eq m "suffix")) ≡ false) p e

  -- What a rule has to pass, and the key that it leaves.
  check_rule-ok :
      (groups : List (String × UpstreamGroup)) (keys : List RuleKey) (r : Rule) (k : RuleKey)
      → check_rule platform groups keys r ≡ ok k
      → (d : String) × (normalize_domain platform r.domain ≡ ok d)
        × ((r.match ≡ "exact") ⊎ (r.match ≡ "suffix"))
        × (has r.upstream_group groups ≡ true)
        × (seen (r.match, d) keys ≡ false)
        × (k ≡ (r.match, d))
  unfolding check_rule
  check_rule-ok groups keys r k e =
      let (d, named, e1) = >>=-ok _ _ _ e in
      let (m, e2) = refuse-then _ _ _ _ e1 in
      let (g, e3) = refuse-then _ _ _ _ e2 in
      let (s, e4) = refuse-then _ _ _ _ e3 in
      (d, named, matches-either r.match m, not-false _ g, s, sym (ok-injective e4))

  seen-head : (k : RuleKey) (keys : List RuleKey) → seen k (k ∷ keys) ≡ true
  seen-head (m, d) keys = ground (arith, str_eq_refl m, str_eq_refl d)

  seen-tail : (k j : RuleKey) (keys : List RuleKey) → seen k keys ≡ true → seen k (j ∷ keys) ≡ true
  seen-tail k j keys e = ground arith

  -- The rules that come later do not clash with a rule whose key was seen.
  later-apart :
      (groups : List (String × UpstreamGroup)) (keys : List RuleKey) (r : Rule) (d : String)
      (rs : List Rule)
      → normalize_domain platform r.domain ≡ ok d
      → seen (r.match, d) keys ≡ true
      → check_rules platform groups keys rs ≡ ok tt
      → All (λ s. ¬ Clash r s) rs
  unfolding check_rules Clash
  later-apart groups keys r d [] named e h = tt
  later-apart groups keys r d (s ∷ rs) named e h =
      let (k, checked, rest) = >>=-ok _ _ _ h in
      let (d1, named1, _, _, fresh, _) = check_rule-ok groups keys s k checked in
      (
        apart d1 named1 fresh,
        later-apart groups (k ∷ keys) r d rs named (seen-tail _ _ keys e) rest,
      )
    where
      apart :
          (d1 : String)
          → normalize_domain platform s.domain ≡ ok d1
          → seen (s.match, d1) keys ≡ false
          → ¬ Clash r s
      apart d1 named1 fresh (x, n, n1, same) =
          let p : d ≡ d1 = ok-injective (sym named ∙ n ∙ sym n1 ∙ named1) in
          false≢true (sym fresh ∙ ap (λ k. seen k keys) (cc) ∙ e)

  check_rules-Known :
      (groups : List (String × UpstreamGroup)) (keys : List RuleKey) (rs : List Rule)
      → check_rules platform groups keys rs ≡ ok tt
      → All (RuleKnown groups) rs × NoClash rs
  unfolding check_rules NoClash RuleKnown
  check_rules-Known groups keys [] h = (tt, tt)
  check_rules-Known groups keys (r ∷ rs) h =
      let (k, checked, rest) = >>=-ok _ _ _ h in
      let (d, named, either, known, fresh, key) = check_rule-ok groups keys r k checked in
      let (all_known, distinct) = check_rules-Known groups (k ∷ keys) rs rest in
      let marked : seen (r.match, d) (k ∷ keys) ≡ true =
        ap (λ j. seen (r.match, d) (j ∷ keys)) key ∙ seen-head (r.match, d) keys in
      (
        (((d, named), either, known), all_known),
        (later-apart groups (k ∷ keys) r d rs named marked rest, distinct),
      )

  -- A configuration that Config.Validate accepts has its default group and the groups of all its
  -- rules, each rule has a domain that normalizes and a known way of matching, no two rules match
  -- one normalized domain in one way, and the limits of an enabled cache are in bounds.
  pub validate-Valid : (c : Config) → validate platform c ≡ ok tt → Valid c
  unfolding validate default_group
  validate-Valid c e =
      let (l, e1) = >>-ok (listeners c) _ _ e in
      let (g, e2) = >>-ok (default_group c) _ _ e1 in
      let (p, e3) = >>-ok (check_proxies platform c.proxies) _ _ e2 in
      let (u, e4) = >>-ok (check_groups platform c.proxies c.upstream_groups) _ _ e3 in
      let (r, b) = >>-ok (check_rules platform c.upstream_groups [] c.rules) _ _ e4 in
      let (_, g1) = refuse-then (blank c.default_upstream_group) _ _ _ g in
      let (exists, _) =
        refuse-then (not (has c.default_upstream_group c.upstream_groups)) _ _ _ g1 in
      let (known, distinct) = check_rules-Known c.upstream_groups [] c.rules r in
      record {
        default_exists = not-false _ exists;
        rules_known = known;
        rules_distinct = distinct;
        cache_bounds = check_cache-bounds c.cache b;
      }
