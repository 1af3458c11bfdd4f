-- ===== src/SplitDns/Config/Names.antt =====
-- Names and domains of the configuration: proxyNamePattern of internal/config/validate.go and
-- NormalizeDomain of internal/config/config.go. A text is read as the list of its code points;
-- `len` of a Go string counts the bytes of its UTF-8 form.
use Prim.Native.Char.{code}
use Prim.Native.String.{[], ◌∷◌}
use k8s_at_home.Prelude.{
  ℕ, ◌+◌, String, Bool, true, false, ◌&&◌, ◌||◌, ltb, leb, ◌==◌, if◌then◌else◌, length, List, [],
  ◌∷◌,
}
use k8s_at_home.Prelude.Checks.{Result, ok, refuse_if, each, ◌>>◌}
use k8s_at_home.SplitDns.Config.{Platform}

abbrev pub codes : String → List ℕ
codes [] = []
codes (ch ∷ rest) = code ch ∷ codes rest

abbrev pub lower_letter : ℕ → Bool
lower_letter c = leb 97 c && leb c 122

abbrev pub digit : ℕ → Bool
digit c = leb 48 c && leb c 57

abbrev pub name_char : ℕ → Bool
name_char c = lower_letter c || digit c || c == 45

abbrev pub every : (ℕ → Bool) → List ℕ → Bool
every p [] = true
every p (c ∷ cs) = let rest = every p cs in (p c && rest)

-- ^[a-z][a-z0-9-]{0,31}$
name_pattern : List ℕ → Bool
name_pattern [] = false
name_pattern (c ∷ cs) = lower_letter c && every name_char cs && leb (length cs) 31

unfoldable pub name_allowed : String → Bool
unfolding name_pattern
name_allowed name = name_pattern (codes name)

utf8_width : ℕ → ℕ
utf8_width c = if ltb c 128 then 1 else if ltb c 2048 then 2 else if ltb c 65536 then 3 else 4

byte_length : List ℕ → ℕ
unfolding utf8_width
byte_length [] = 0
byte_length (c ∷ cs) = utf8_width c + byte_length cs

-- strings.TrimSuffix(value, ".")
trim_dot : String → String
trim_dot [] = ""
trim_dot (ch ∷ []) = if code ch == 46 then "" else ch ∷ ""
trim_dot (ch ∷ next ∷ rest) = ch ∷ trim_dot (next ∷ rest)

-- strings.Split(name, "."), the first label and the others.
extend : ℕ → List (List ℕ) → List (List ℕ)
extend c [] = (c ∷ []) ∷ []
extend c (label ∷ labels) = (c ∷ label) ∷ labels

split_labels : List ℕ → List (List ℕ)
unfolding extend
split_labels [] = [] ∷ []
split_labels (c ∷ cs) = let rest = split_labels cs in if c == 46 then [] ∷ rest else extend c rest

starts_with_dash : List ℕ → Bool
starts_with_dash [] = false
starts_with_dash (c ∷ cs) = c == 45

ends_with_dash : List ℕ → Bool
ends_with_dash [] = false
ends_with_dash (c ∷ []) = c == 45
ends_with_dash (c ∷ d ∷ cs) = ends_with_dash (d ∷ cs)

check_label : List ℕ → Result (Unit {0})
unfolding byte_length starts_with_dash ends_with_dash
check_label label = do
  refuse_if
      (byte_length label == 0
        || ltb 63 (byte_length label)
        || starts_with_dash label
        || ends_with_dash label)
      "domain contains an invalid label"
  each
      (λ c.
        refuse_if (if lower_letter c || digit c || c == 45 then false else true)
          "domain must use ASCII labels or punycode")
      label

check_name : String → Result String
unfolding byte_length split_labels check_label
check_name name =
    refuse_if (byte_length (codes name) == 0 || ltb 253 (byte_length (codes name)))
      "domain must be a non-empty ASCII DNS name"
    >> each check_label (split_labels (codes name))
    >> ok name

unfoldable pub normalize_domain : Platform → String → Result String
unfolding trim_dot check_name
normalize_domain platform value = check_name (platform.to_lower (trim_dot value))
