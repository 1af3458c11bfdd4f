-- ===== src/Prelude/Bytes.antt =====
-- Go strings as lists of bytes, and the functions of package strings on them.
use Prim.Native.Nat.{ℕ}
use Prim.Native.Char.{code}
use Prim.Native.String.{String}
use mathlib.Core.Path.{◌≡◌, refl}
use mathlib.Core.Logic.{◌≢◌, inl, inr}
use mathlib.Core.Bool.{Bool, true, false, ◌&&◌, ◌||◌}
use mathlib.Core.List.{List, [], ◌∷◌, ◌++◌}
use mathlib.Core.Option.{Option, none, some}
use native.Mathlib.Omega.{arith}
use k8s_at_home.Prelude.Tests.{◌==◌, Bool-cases, if◌then◌else◌}
use k8s_at_home.Prelude.Lists.{All}

abbrev pub Bytes : Type 0
Bytes = List ℕ

-- The bytes of an ASCII literal.
abbrev pub codes : String → Bytes
codes String.[] = []
codes (String.◌∷◌ ch rest) = code ch ∷ codes rest

abbrev pub eqb : Bytes → Bytes → Bool
eqb [] [] = true
eqb [] (d ∷ t) = false
eqb (c ∷ s) [] = false
eqb (c ∷ s) (d ∷ t) = let rest = eqb s t in (c == d && rest)

pub eqb→eq : (s t : Bytes) → eqb s t ≡ true → s ≡ t
eqb→eq [] [] h = refl
eqb→eq [] (d ∷ t) h = cc
eqb→eq (c ∷ s) [] h = cc
eqb→eq (c ∷ s) (d ∷ t) h = grind (arith, eqb→eq s t)

abbrev pub has_prefix : Bytes → Bytes → Bool
has_prefix [] s = true
has_prefix (p ∷ ps) [] = false
has_prefix (p ∷ ps) (c ∷ s) = let rest = has_prefix ps s in (p == c && rest)

abbrev pub trim_prefix : Bytes → Bytes → Bytes
trim_prefix [] s = s
trim_prefix (p ∷ ps) [] = []
trim_prefix (p ∷ ps) (c ∷ s) =
    let rest = trim_prefix ps s in if has_prefix (p ∷ ps) (c ∷ s) then rest else c ∷ s

-- strings.ContainsRune for a byte
abbrev pub holds : ℕ → Bytes → Bool
holds b [] = false
holds b (c ∷ s) = let rest = holds b s in (c == b || rest)

-- strings.ContainsAny(s, set)
abbrev pub holds_any : Bytes → Bytes → Bool
holds_any set [] = false
holds_any set (c ∷ s) = let rest = holds_any set s in (holds c set || rest)

-- strings.Contains
abbrev pub contains : Bytes → Bytes → Bool
contains part [] = has_prefix part []
contains part (c ∷ s) = let rest = contains part s in (has_prefix part (c ∷ s) || rest)

abbrev pub last_is : ℕ → Bytes → Bool
last_is b [] = false
last_is b (c ∷ []) = c == b
last_is b (c ∷ d ∷ s) = last_is b (d ∷ s)

abbrev pub every : (ℕ → Bool) → Bytes → Bool
every p [] = true
every p (c ∷ s) = let rest = every p s in (p c && rest)

-- strings.Split at a byte: the first part and the others.
abbrev pub extend : ℕ → List Bytes → List Bytes
extend c [] = (c ∷ []) ∷ []
extend c (part ∷ parts) = (c ∷ part) ∷ parts

abbrev pub split : ℕ → Bytes → List Bytes
split b [] = [] ∷ []
split b (c ∷ s) = let rest = split b s in if c == b then [] ∷ rest else extend c rest

-- strings.Join at a byte
abbrev pub join : ℕ → List Bytes → Bytes
join b [] = []
join b (part ∷ []) = part
join b (part ∷ next ∷ parts) = part ++ b ∷ join b (next ∷ parts)

-- strings.Cut at a byte
abbrev pub cut_after : ℕ → Option (Bytes × Bytes) → Option (Bytes × Bytes)
cut_after c none = none
cut_after c (some (head, tail)) = some (c ∷ head, tail)

abbrev pub cut : ℕ → Bytes → Option (Bytes × Bytes)
cut b [] = none
cut b (c ∷ s) = let rest = cut b s in if c == b then some ([], s) else cut_after c rest

-- No byte of a text is `b`.
abbrev pub Lacks : ℕ → Bytes → Type 0
Lacks b = All (λ c. c ≢ b)

extend-Lacks :
    (b c : ℕ) (parts : List Bytes) → c ≢ b → All (Lacks b) parts → All (Lacks b) (extend c parts)
extend-Lacks b c [] ne h = ((ne, tt), tt)
extend-Lacks b c (part ∷ parts) ne (p, h) = ((ne, p), h)

pub split-Lacks : (b : ℕ) (s : Bytes) → All (Lacks b) (split b s)
split-Lacks b [] = (tt, tt)
split-Lacks b (c ∷ s) = ground (arith, split-Lacks b s, extend-Lacks b c (split b s))

join-extend : (b c : ℕ) (parts : List Bytes) → join b (extend c parts) ≡ c ∷ join b parts
join-extend b c [] = refl
join-extend b c (part ∷ []) = refl
join-extend b c (part ∷ next ∷ parts) = refl

extend-cons :
    (c : ℕ) (parts : List Bytes) → (p : Bytes) × (ps : List Bytes) × (extend c parts ≡ p ∷ ps)
extend-cons c [] = (c ∷ [], [], refl)
extend-cons c (part ∷ parts) = (c ∷ part, parts, refl)

pub split-cons : (b : ℕ) (s : Bytes) → (p : Bytes) × (ps : List Bytes) × (split b s ≡ p ∷ ps)
split-cons b [] = ([], [], refl)
split-cons b (c ∷ s) = elim (Bool-cases (c == b)) [
  | inl e ↦ ([], split b s, rw e refl)
  | inr e ↦ (let (p, ps, q) = extend-cons c (split b s) in (p, ps, rw e q))
]

join-nil : (b : ℕ) (s : Bytes) → join b ([] ∷ split b s) ≡ b ∷ join b (split b s)
join-nil b s = let (p, ps, e) = split-cons b s in rw e refl

-- Splitting loses nothing.
pub join-split : (b : ℕ) (s : Bytes) → join b (split b s) ≡ s
join-split b [] = refl
join-split b (c ∷ s) = ground (arith, join-split b s, join-extend b c (split b s), join-nil b s)

-- A cut at the first `b`.
pub cut-append : (b : ℕ) (s t : Bytes) → Lacks b s → cut b (s ++ b ∷ t) ≡ some (s, t)
cut-append b [] t h = ground arith
cut-append b (c ∷ s) t (ne, h) = ground (arith, cut-append b s t h)
