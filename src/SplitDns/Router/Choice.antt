-- ===== src/SplitDns/Router/Choice.antt =====
-- selectGroup of internal/dnsrouter/router.go picks the first of the best rules.
use k8s_at_home.Prelude.{
  ℕ, ◌+◌, ◌*◌, ◌≤◌, ◌<◌, String, true, false, Option, none, some, List, [], ◌∷◌, ◌++◌, str_eq,
  if◌then◌else◌, filter, All, ◌≡◌, refl, ap, ◌⊎◌, inl, inr, arith, Bool-cases,
}
use k8s_at_home.SplitDns.Message.{Library}
use k8s_at_home.SplitDns.Router.{CompiledRule, rule_matches, gives_way, choose}

-- Rules rank by their labels, and by an exact match among equals.
abbrev pub rank : CompiledRule → ℕ
rank rule = 2 * rule.labels + (if str_eq rule.match "exact" then 1 else 0)

-- The rank of the best so far, from 1; 0 if there is none.
score : Option CompiledRule → ℕ
score none = 0
score (some best) = rank best + 1

gives_way-score :
    (r : CompiledRule) (best : Option CompiledRule)
    → gives_way r best ≡ true
    → rank r + 1 ≤ score best
unfolding gives_way score
gives_way-score r none h = cc
gives_way-score r (some b) h = ground arith

score-gives_way :
    (r : CompiledRule) (best : Option CompiledRule)
    → gives_way r best ≡ false
    → score best < rank r + 1
unfolding gives_way score
score-gives_way r none h = omega arith
score-gives_way r (some b) h = ground arith

module _ (lib : Library) (name : String) where
  -- All matching rules of a list have a rank below a bound.
  abbrev pub RanksBelow : ℕ → List CompiledRule → Type 0
  RanksBelow n rules = All (λ r. rank r < n) (filter (rule_matches lib name) rules)

  RanksBelow-skip :
      (n : ℕ) (r : CompiledRule) (rules : List CompiledRule)
      → rule_matches lib name r ≡ false
      → RanksBelow n rules
      → RanksBelow n (r ∷ rules)
  RanksBelow-skip n r rules e h = rw e h

  RanksBelow-cons :
      (n : ℕ) (r : CompiledRule) (rules : List CompiledRule)
      → rank r < n
      → RanksBelow n rules
      → RanksBelow n (r ∷ rules)
  RanksBelow-cons n r rules k h = elim (Bool-cases (rule_matches lib name r)) [
    | inl e ↦ rw e (k, h)
    | inr e ↦ rw e h
  ]

  -- A rule of the list that matches, ranks above all matching rules before it, and not below
  -- those after it.
  pub record IsBest (rules : List CompiledRule) (best : CompiledRule) : Type 0 where
    pub before : List CompiledRule
    pub after : List CompiledRule
    pub split : rules ≡ before ++ best ∷ after
    pub matches : rule_matches lib name best ≡ true
    pub above : RanksBelow (rank best) before
    pub first : RanksBelow (rank best + 1) after

  -- What the loop makes of the rules that are left.
  Outcome : Option CompiledRule → List CompiledRule → Option CompiledRule → Type 0
  Outcome best rules out =
      ((out ≡ best) × RanksBelow (score best) rules)
      ⊎ ((r : CompiledRule) × (out ≡ some r) × (score best < rank r + 1) × IsBest rules r)

  pass :
      (best : Option CompiledRule) (r : CompiledRule) (rules : List CompiledRule)
      (out : Option CompiledRule)
      → (rule_matches lib name r ≡ false) ⊎ (rank r + 1 ≤ score best)
      → Outcome best rules out
      → Outcome best (r ∷ rules) out
  unfolding Outcome
  pass best r rules out (inl e) (inl (p, h)) = inl (p, RanksBelow-skip _ r rules e h)
  pass best r rules out (inr k) (inl (p, h)) =
      inl (p, RanksBelow-cons _ r rules (omega (arith, k)) h)
  pass best r rules out why (inr (q, p, k, b)) = inr (
    q,
    p,
    k,
    record {
      before = r ∷ b.before;
      after = b.after;
      split = ap (λ l. r ∷ l) b.split;
      matches = b.matches;
      above = elim why [
        | inl e ↦ RanksBelow-skip _ r b.before e b.above
        | inr j ↦ RanksBelow-cons _ r b.before (omega (arith, j, k)) b.above
      ];
      first = b.first;
    },
  )

  take_rule :
      (best : Option CompiledRule) (r : CompiledRule) (rules : List CompiledRule)
      (out : Option CompiledRule)
      → rule_matches lib name r ≡ true
      → score best < rank r + 1
      → Outcome (some r) rules out
      → Outcome best (r ∷ rules) out
  unfolding Outcome score
  take_rule best r rules out e k (inl (p, h)) = inr (
    r,
    p,
    k,
    record { before = []; after = rules; split = refl; matches = e; above = tt; first = h },
  )
  take_rule best r rules out e k (inr (q, p, j, b)) = inr (
    q,
    p,
    omega (arith, j, k),
    record {
      before = r ∷ b.before;
      after = b.after;
      split = ap (λ l. r ∷ l) b.split;
      matches = b.matches;
      above = RanksBelow-cons _ r b.before (omega (arith, j)) b.above;
      first = b.first;
    },
  )

  nothing_left : (best : Option CompiledRule) → Outcome best [] best
  unfolding Outcome
  nothing_left best = inl (refl, tt)

  choose-Outcome :
      (best : Option CompiledRule) (rules : List CompiledRule)
      → Outcome best rules (choose lib name best rules)
  unfolding choose
  choose-Outcome best [] = nothing_left best
  choose-Outcome best (r ∷ rules) = elim (Bool-cases (rule_matches lib name r)) [
    | inr e ↦ rw e (pass best r rules _ (inl e) (choose-Outcome best rules))
    | inl e ↦ elim (Bool-cases (gives_way r best)) [
      | inl g ↦
          rw e (
            rw g (pass best r rules _ (inr (gives_way-score r best g)) (choose-Outcome best rules)))
      | inr g ↦ rw e (
          rw g
            (take_rule best r rules _ e (score-gives_way r best g) (choose-Outcome (some r) rules)))
    ]
  ]

  -- What selectGroup has to choose.
  pub Chosen : List CompiledRule → Option CompiledRule → Type 0
  Chosen rules none = filter (rule_matches lib name) rules ≡ []
  Chosen rules (some best) = IsBest rules best

  nil_of-All : (rules : List CompiledRule) → All (λ r. rank r < 0) rules → rules ≡ []
  nil_of-All [] h = refl
  nil_of-All (r ∷ rules) (k, h) = absurd (omega (arith, k))

  -- The loop of selectGroup finds no rule only if none matches; the rule that it finds matches,
  -- has more labels than the matching rules before it, or as many and is the first that is exact,
  -- and no matching rule after it has more labels, or as many and is exact where it is not.
  pub choose-Chosen : (rules : List CompiledRule) → Chosen rules (choose lib name none rules)
  unfolding Chosen Outcome score
  choose-Chosen rules = elim (choose-Outcome none rules) [
    | inl (p, h) ↦ rw p (nil_of-All _ h)
    | inr (r, p, k, b) ↦ rw p b
  ]
