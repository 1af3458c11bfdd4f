-- ===== src/RegistryHub/Route/Injective.antt =====
-- InternalName of internal/route/route.go gives different repositories different names, and
-- DecodeInternalName takes them back.
use k8s_at_home.Prelude.{
  ℕ, Bool, true, false, not, ◌&&◌, none, some, List, [], ◌∷◌, ◌++◌, ◌==◌, if◌then◌else◌, All, ◌≡◌,
  refl, sym, ap, subst, ◌∙◌, ◌⊎◌, inl, inr, arith,
}
use k8s_at_home.Prelude.Bytes.{
  Bytes, codes, has_prefix, split, join, cut, Lacks, split-cons, split-Lacks, join-split,
  cut-append,
}
use k8s_at_home.RegistryHub.Route.Names.{ordinary, every_part, is_empty}
use k8s_at_home.RegistryHub.Route.Internal.{
  encode, stays, at_most_255, segments_internal, internal_of, internal_name, decoded_name,
  decode_parts, decode_internal_name,
}
use k8s_at_home.RegistryHub.Route.Escapes.{
  IsText, decode-encode, encode-Lacks, cut-Lacks, eqb_refl, at_most_255-some,
}

split-first : (s p : Bytes) (ps : List Bytes) → split b'/' s ≡ p ∷ ps → Lacks b'/' p
split-first s p ps e = (subst (All (Lacks b'/')) e (split-Lacks b'/' s)).0

-- A name that stays as it is.
kept-undone :
    (n p r : Bytes)
    → has_prefix (codes "e") p ≡ false
    → cut b'/' n ≡ some (p, r)
    → (decode_internal_name n).0 ≡ n
unfolding decode_internal_name decode_parts
kept-undone n [] r other e = rw e refl
kept-undone n (c ∷ p) r other e = rw (e, not_e c p other) refl
  where
    not_e : (c : ℕ) (p : Bytes) → has_prefix (codes "e") (c ∷ p) ≡ false → (c == b'e') ≡ false
    not_e c p h = ground arith

encode-nonempty : (s : Bytes) → is_empty s ≡ false → is_empty (encode s) ≡ false
unfolding encode
encode-nonempty [] h = cc
encode-nonempty (c ∷ s) h = ground arith

accepted :
    (n r p a : Bytes)
    → a ≡ p ++ b'/' ∷ r
    → internal_name a ≡ some n
    → (decoded_name n r (some p)).0 ≡ a
unfolding decoded_name
accepted n r p a shape h = rw (sym shape, h, eqb_refl n) refl

-- A name whose first segment is encoded.
encoded-undone :
    (a n p r : Bytes)
    → IsText p
    → is_empty p ≡ false
    → a ≡ p ++ b'/' ∷ r
    → cut b'/' n ≡ some (b'e' ∷ encode p, r)
    → internal_name a ≡ some n
    → (decode_internal_name n).0 ≡ a
unfolding decode_internal_name decode_parts
encoded-undone a n p r text ne shape e h =
    rw (e, encode-nonempty p ne, decode-encode p text) (accepted n r p a shape h)

only-undone : (n : Bytes) → Lacks b'/' n → (decode_internal_name n).0 ≡ n
unfolding decode_internal_name decode_parts
only-undone n h = rw (cut-Lacks b'/' n h) refl

not_prefixed : (a b c d : Bool) → (a && not b && c && d) ≡ true → b ≡ false
not_prefixed a b c d h = ground arith

branches :
    (t u : Bool) (x y n : Bytes)
    → (if not t then none else if u then at_most_255 x else at_most_255 y) ≡ some n
    → ((u ≡ true) × (x ≡ n)) ⊎ (y ≡ n)
branches false u x y n h = cc
branches true true x y n h = inl (refl, at_most_255-some x n h)
branches true false x y n h = inr (at_most_255-some y n h)

-- What the two branches on the first segment give.
segments-cases :
    (a p : Bytes) (rest : List Bytes) (n : Bytes)
    → segments_internal a p rest ≡ some n
    → ((has_prefix (codes "e") p ≡ false) × (a ≡ n)) ⊎ (join b'/' ((b'e' ∷ encode p) ∷ rest) ≡ n)
unfolding stays
segments-cases a p rest n h = elim (branches (every_part ordinary rest) (stays p) a _ n h) [
  | inl (s, e) ↦ inl (not_prefixed _ _ _ _ s, e)
  | inr e ↦ inr e
]

IsText-prefix : (p r : Bytes) → IsText (p ++ r) → IsText p
IsText-prefix [] r h = tt
IsText-prefix (c ∷ p) r (k, h) = (k, IsText-prefix p r h)

nonempty : (p r : Bytes) → has_prefix (codes "/") (p ++ b'/' ∷ r) ≡ false → is_empty p ≡ false
nonempty [] r h = cc
nonempty (c ∷ p) r h = refl

-- A repository of two segments or more, by its first segment and the rest of the text.
segments-undone :
    (a p q : Bytes) (qs : List Bytes) (n : Bytes)
    → IsText a
    → has_prefix (codes "/") a ≡ false
    → Lacks b'/' p
    → a ≡ p ++ b'/' ∷ join b'/' (q ∷ qs)
    → internal_name a ≡ some n
    → segments_internal a p (q ∷ qs) ≡ some n
    → (decode_internal_name n).0 ≡ a
segments-undone a p q qs n text lead lacks shape named h = elim (segments-cases a p (q ∷ qs) n h) [
  | inl (other, e) ↦
      kept-undone n p _ other (ap (cut b'/') (sym e ∙ shape) ∙ cut-append b'/' p _ lacks) ∙ sym e
  | inr e ↦
      encoded-undone a n p (join b'/' (q ∷ qs)) (IsText-prefix p _ (subst IsText shape text))
        (nonempty p _ (ap (has_prefix (codes "/")) (sym shape) ∙ lead)) shape
        (ap (cut b'/') (sym e)
          ∙ cut-append b'/' (b'e' ∷ encode p) _ ((omega arith), encode-Lacks p))
        named
]

by_segments :
    (a n p : Bytes) (ps : List Bytes)
    → IsText a
    → has_prefix (codes "/") a ≡ false
    → split b'/' a ≡ p ∷ ps
    → internal_name a ≡ some n
    → internal_of a (p ∷ ps) ≡ some n
    → (decode_internal_name n).0 ≡ a
unfolding internal_of
by_segments a n p [] text lead parts named h =
    let same = sym (join-split b'/' a) ∙ ap (join b'/') parts in
    let e = only_named (ordinary p) a n h in
    only-undone n (subst (Lacks b'/') (sym same ∙ e) (split-first a p [] parts)) ∙ sym e
  where
    only_named : (t : Bool) (a n : Bytes) → (if not t then none else at_most_255 a) ≡ some n → a ≡ n
    only_named false a n h = cc
    only_named true a n h = at_most_255-some a n h
by_segments a n p (q ∷ qs) text lead parts named h =
    segments-undone a p q qs n text lead (split-first a p (q ∷ qs) parts)
      (sym (join-split b'/' a) ∙ ap (join b'/') parts) named h

-- DecodeInternalName gives back the repository whose internal name it is given, for a repository
-- of bytes that does not start with a slash and has an internal name.
pub decode_internal_name-internal_name :
    (a n : Bytes)
    → IsText a
    → has_prefix (codes "/") a ≡ false
    → internal_name a ≡ some n
    → (decode_internal_name n).0 ≡ a
unfolding internal_name
decode_internal_name-internal_name a n text lead h =
    let (p, ps, e) = split-cons b'/' a in
    by_segments a n p ps text lead e h (ap (internal_of a) (sym e) ∙ h)

-- Two repositories of bytes that do not start with a slash and have one internal name are equal.
pub internal_name-injective :
    (a b n : Bytes)
    → IsText a
    → IsText b
    → has_prefix (codes "/") a ≡ false
    → has_prefix (codes "/") b ≡ false
    → internal_name a ≡ some n
    → internal_name b ≡ some n
    → a ≡ b
internal_name-injective a b n s t l m h k =
    sym (decode_internal_name-internal_name a n s l h)
    ∙ decode_internal_name-internal_name b n t m k
