-- ===== src/RegistryHub/Route/Escapes.antt =====
-- The escapes of a first segment in internal/route/route.go, and lemmas on the texts around them.
use k8s_at_home.Prelude.{
  ℕ, ◌+◌, ◌*◌, ◌/◌, ◌%◌, ◌<◌, true, none, some, [], ◌∷◌, ◌++◌, All, ◌≡◌, ◌≢◌, refl, ap, ◌∙◌, inl,
  inr, arith, Bool-cases,
}
use k8s_at_home.Prelude.Bytes.{Bytes, eqb, cut, Lacks}
use k8s_at_home.RegistryHub.Route.{lower_or_digit}
use k8s_at_home.RegistryHub.Route.Internal.{
  hex_of, encode_byte, encode, at_most_255, nibble, prepend, decode,
}

abbrev pub IsText : Bytes → Type 0
IsText = All (λ c. c < 256)

pub nibble-hex_of : (n : ℕ) → n < 16 → nibble (hex_of n) ≡ some n
unfolding nibble
nibble-hex_of n h = ground arith

pub decode-plain : (c : ℕ) (s : Bytes) → c ≢ b'_' → decode (c ∷ s) ≡ prepend c (decode s)
unfolding decode
decode-plain c [] ne = ground arith
decode-plain c (d ∷ []) ne = ground arith
decode-plain c (d ∷ e ∷ s) ne = ground arith

pub decode-escaped :
    (h l a b : ℕ) (s t : Bytes)
    → nibble h ≡ some a
    → nibble l ≡ some b
    → decode s ≡ some t
    → decode (b'_' ∷ h ∷ l ∷ s) ≡ some ((a * 16 + b) ∷ t)
unfolding decode
decode-escaped h l a b s t p q r = rw (p, q, r) refl

pub decode-nil : decode [] ≡ some []
unfolding decode
decode-nil = refl

pub decode-encode : (s : Bytes) → IsText s → decode (encode s) ≡ some s
unfolding encode
decode-encode [] h = decode-nil
decode-encode (c ∷ s) (k, h) = elim (Bool-cases (lower_or_digit c)) [
  | inl e ↦ rw e (decode-plain c (encode s) (ground arith) ∙ ap (prepend c) (decode-encode s h))
  | inr e ↦ rw e (
      decode-escaped _ _ (c / 16) (c % 16) (encode s) s (nibble-hex_of (c / 16) (omega arith))
        (nibble-hex_of (c % 16) (omega arith)) (decode-encode s h)
      ∙ ap (λ d. some (d ∷ s)) (omega arith))
]

pub Lacks-append : (b : ℕ) (s t : Bytes) → Lacks b s → Lacks b t → Lacks b (s ++ t)
Lacks-append b [] t h k = k
Lacks-append b (c ∷ s) t (p, h) k = (p, Lacks-append b s t h k)

pub encode_byte-Lacks : (c : ℕ) → Lacks b'/' (encode_byte c)
encode_byte-Lacks c = ground arith

pub encode-Lacks : (s : Bytes) → Lacks b'/' (encode s)
unfolding encode
encode-Lacks [] = tt
encode-Lacks (c ∷ s) = Lacks-append b'/' (encode_byte c) _ (encode_byte-Lacks c) (encode-Lacks s)

pub cut-Lacks : (b : ℕ) (s : Bytes) → Lacks b s → cut b s ≡ none
cut-Lacks b [] h = refl
cut-Lacks b (c ∷ s) (p, h) = ground (arith, cut-Lacks b s h)

pub eqb_refl : (s : Bytes) → eqb s s ≡ true
eqb_refl [] = refl
eqb_refl (c ∷ s) = ground (arith, eqb_refl s)

pub at_most_255-some : (s n : Bytes) → at_most_255 s ≡ some n → s ≡ n
at_most_255-some s n h = ground arith
