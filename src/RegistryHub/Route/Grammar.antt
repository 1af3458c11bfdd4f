-- ===== src/RegistryHub/Route/Grammar.antt =====
-- The pattern of a name segment in internal/route/route_validate_authority.go,
-- ^[a-z0-9]+(?:(?:[._]|__|[-]+)[a-z0-9]+)*$, as a grammar, and the matcher for it.
use k8s_at_home.Prelude.{
  ℕ, Bool, true, false, ◌&&◌, [], ◌∷◌, ◌==◌, if◌then◌else◌, ◌≡◌, ◌↔◌, ◌⊎◌, refl, subst, sym, inl,
  inr, arith, Bool-cases,
}
use k8s_at_home.Prelude.Bytes.{Bytes}
use k8s_at_home.RegistryHub.Route.{lower_or_digit}
use k8s_at_home.RegistryHub.Route.Names.{
  Matcher, separated, underscore, dashes, inside, matches_from, ordinary,
}

-- [a-z0-9]+, then the end or a separator and another word.
mutual
  pub data Word : Bytes → Type 0 where
    starts : {c : ℕ} {s : Bytes} → lower_or_digit c ≡ true → Rest s → Word (c ∷ s)

  pub data Rest : Bytes → Type 0 where
    ends : Rest []
    goes_on : {c : ℕ} {s : Bytes} → lower_or_digit c ≡ true → Rest s → Rest (c ∷ s)
    dot : {c : ℕ} {s : Bytes} → c ≡ b'.' → Word s → Rest (c ∷ s)
    under : {c : ℕ} {s : Bytes} → c ≡ b'_' → Word s → Rest (c ∷ s)
    unders : {c d : ℕ} {s : Bytes} → c ≡ b'_' → d ≡ b'_' → Word s → Rest (c ∷ d ∷ s)
    dashed : {c : ℕ} {s : Bytes} → c ≡ b'-' → Dashes s → Rest (c ∷ s)

  -- more dashes, then a word
  pub data Dashes : Bytes → Type 0 where
    enough : {s : Bytes} → Word s → Dashes s
    another : {c : ℕ} {s : Bytes} → c ≡ b'-' → Dashes s → Dashes (c ∷ s)

-- What the matcher accepts in a state.
abbrev Accepted : Matcher → Bytes → Type 0
Accepted separated s = Word s
Accepted underscore s = Word s ⊎ ((d : ℕ) × (t : Bytes) × (s ≡ d ∷ t) × (d ≡ b'_') × Word t)
Accepted dashes s = Dashes s
Accepted inside s = Rest s

and-true : (a b : Bool) → (a && b) ≡ true → (a ≡ true) × (b ≡ true)
and-true true b h = (refl, h)
and-true false b h = cc

eq_byte : (c d : ℕ) → (c == d) ≡ true → c ≡ d
eq_byte c d h = ground arith

-- One byte in each state, given what the rest makes of each state after it.
module _ (c : ℕ) (s : Bytes) where
  underscore_sound :
      (matches_from inside s ≡ true → Rest s)
      → (matches_from separated s ≡ true → Word s)
      → (if c == b'_' then matches_from separated s else lower_or_digit c && matches_from inside s)
        ≡ true
      → Accepted underscore (c ∷ s)
  underscore_sound r w h = elim (Bool-cases (c == b'_')) [
    | inl e ↦ inr (c, s, refl, eq_byte c b'_' e, w (ground arith))
    | inr e ↦ inl (starts (ground arith) (r (ground arith)))
  ]

  dashes_sound :
      (matches_from inside s ≡ true → Rest s)
      → (matches_from dashes s ≡ true → Dashes s)
      → (if c == b'-' then matches_from dashes s else lower_or_digit c && matches_from inside s)
        ≡ true
      → Dashes (c ∷ s)
  dashes_sound r d h = elim (Bool-cases (c == b'-')) [
    | inl e ↦ another (eq_byte c b'-' e) (d (ground arith))
    | inr e ↦ enough (starts (ground arith) (r (ground arith)))
  ]

  after_underscore : (c ≡ b'_') → Accepted underscore s → Rest (c ∷ s)
  after_underscore e (inl w) = under e w
  after_underscore e (inr (d, t, q, k, w)) = subst (λ u. Rest (c ∷ u)) (sym q) (unders e k w)

  inside_sound :
      (matches_from inside s ≡ true → Rest s)
      → (matches_from separated s ≡ true → Word s)
      → (matches_from underscore s ≡ true → Accepted underscore s)
      → (matches_from dashes s ≡ true → Dashes s)
      → (if lower_or_digit c
          then matches_from inside s
          else if c == b'.'
          then matches_from separated s
          else if c == b'_'
          then matches_from underscore s
          else if c == b'-'
          then matches_from dashes s
          else false)
        ≡ true
      → Rest (c ∷ s)
  inside_sound r w u d h = elim (Bool-cases (lower_or_digit c)) [
    | inl e ↦ goes_on e (r (ground arith))
    | inr e ↦ elim (Bool-cases (c == b'.')) [
      | inl f ↦ dot (eq_byte c b'.' f) (w (ground arith))
      | inr f ↦ elim (Bool-cases (c == b'_')) [
        | inl g ↦ after_underscore (eq_byte c b'_' g) (u (ground arith))
        | inr g ↦ dashed (ground arith) (d (ground arith))
      ]
    ]
  ]

sound : (m : Matcher) (s : Bytes) → matches_from m s ≡ true → Accepted m s
unfolding matches_from
sound separated [] h = cc
sound separated (c ∷ s) h = let (k, r) = and-true _ _ h in starts k (sound inside s r)
sound underscore [] h = cc
sound underscore (c ∷ s) h = underscore_sound c s (sound inside s) (sound separated s) h
sound dashes [] h = cc
sound dashes (c ∷ s) h = dashes_sound c s (sound inside s) (sound dashes s) h
sound inside [] h = ends
sound inside (c ∷ s) h =
    inside_sound c s (sound inside s) (sound separated s) (sound underscore s) (sound dashes s) h

mutual
  unfolding matches_from

  matches_separated : {s : Bytes} → Word s → matches_from separated s ≡ true
  matches_separated (starts k r) = ground (arith, matches_inside r)

  matches_inside : {s : Bytes} → Rest s → matches_from inside s ≡ true
  matches_inside ends = refl
  matches_inside (goes_on k r) = ground (arith, matches_inside r)
  matches_inside (dot e w) = ground (arith, matches_separated w)
  matches_inside (under e (starts k r)) = ground (arith, matches_inside r)
  matches_inside (unders e f w) = ground (arith, matches_separated w)
  matches_inside (dashed e d) = ground (arith, matches_dashes d)

  matches_dashes : {s : Bytes} → Dashes s → matches_from dashes s ≡ true
  matches_dashes (enough (starts k r)) = ground (arith, matches_inside r)
  matches_dashes (another e d) = ground (arith, matches_dashes d)

-- The matcher of name segments accepts exactly the texts of their grammar.
pub ordinary-Word : (s : Bytes) → (ordinary s ≡ true) ↔ Word s
unfolding ordinary
ordinary-Word s = (sound separated s, matches_separated)
